-- ===== src/RoomService/Locked.antt =====
-- The methods of internal/services/room_service.go that read one room, change it and save it, with the
-- publications that follow: what each result says of the rooms in the store.
use lol_overlay.Prelude.{
  Result-cases, String, ◌≡◌, sym, ◌∙◌, inl, inr, Bool, true, false, Option, none, some, List, ◌==◌,
  if◌then◌else◌, Error, Result, wrap, ok, err, Exec, pure, wrapping, continue, ◌>>=◌, ◌>>◌,
}
use lol_overlay.Models.{Time, Player, Room}
use lol_overlay.Repository.{View}
use lol_overlay.RoomService.Env.{RoomEnv, RoomEnvLaws, save_room, publish_room_updated}
use lol_overlay.RoomService.Players.{add_to_room, toggle_in_room, replace_in_room}

module _ {W : Type 0} (env : RoomEnv W) where
  -- `saveRoom` and `return true, nil`, or `return false, nil` where there is nothing to write.
  save_changed : Option Room → Exec W Bool
  save_changed none = pure false
  save_changed (some room) = do save_room env room; pure true

  -- A change of a room, which may read the clock.
  abbrev pub Change : Type 0
  Change = Room → W → Option Room × W

  abbrev pub untimed : (Room → Option Room) → Change
  untimed change room w = (change room, w)

  abbrev pub timed : (Time → Room → Option Room) → Change
  timed change room w = let (t, w') = env.now w in (change t room, w')

  change_found : Change → Option Room → Exec W Bool
  unfolding save_changed
  change_found change none w = (ok false, w)
  change_found change (some room) w = let (changed, w') = change room w in save_changed changed w'

  -- The shape that the three methods share: get the room, return false if there is none, change it.
  unfoldable pub update_room : String → Change → String → Exec W Bool
  unfolding change_found
  update_room text change room_id = do
    found ← wrapping text (env.repository.get room_id)
    change_found change found

  unfoldable pub add_player_locked : String → Player → Exec W Bool
  add_player_locked room_id player =
      update_room "get room for adding player" (untimed (λ room. some (add_to_room player room)))
        room_id

  unfoldable pub toggle_spell_locked : String → String → String → String → Exec W Bool
  toggle_spell_locked room_id game_name tag_line spell_name =
      update_room "get room for toggling spell"
        (timed (toggle_in_room game_name tag_line spell_name)) room_id

  unfoldable pub replace_players : String → List Player → Exec W Bool
  replace_players room_id players =
      update_room "get room for replacing players" (untimed (replace_in_room env.nil_alike players))
        room_id

  -- An update is published to the subscribers of its room.
  abbrev pub publish_if_updated : String → Bool → Exec W Bool
  publish_if_updated room_id false = pure false
  publish_if_updated room_id true = do publish_room_updated env room_id; pure true

  unfoldable pub add_player : String → Player → Exec W Bool
  add_player room_id player = do
    updated ← add_player_locked room_id player
    publish_if_updated room_id updated

  unfoldable pub toggle_spell_by_riot_id : String → String → String → String → Exec W Bool
  toggle_spell_by_riot_id room_id game_name tag_line spell_name = do
    updated ← toggle_spell_locked room_id game_name tag_line spell_name
    publish_if_updated room_id updated

  -- What the clock shows after the room was read, and the next time.
  abbrev pub time_read : String → W → Time
  time_read room_id w = (env.now (env.repository.get room_id w).1).0

  abbrev pub next_time : String → W → Time
  next_time room_id w = (env.now (env.now (env.repository.get room_id w).1).1).0

-- What a method's result says of the rooms before and after it, where `R` relates a room to its changed
-- form. An error or a false leaves every room as it was, and a false means that the room is missing or
-- that there was nothing to change. A true means that the room was there and that its changed form,
-- stamped with a time, is now stored under its id, every other room being as it was.
pub data Updated {W : Type 0} (view : View W) (R : Room → Option Room → Type 0) (stamp : Time)
    (room_id : String) (before after : W) : Result Bool → Type 0 where
  failed :
      (e : Error)
      → ((id : String) → view after id ≡ view before id)
      → Updated view R stamp room_id before after (err e)
  missing :
      view before room_id ≡ none
      → ((id : String) → view after id ≡ view before id)
      → Updated view R stamp room_id before after (ok false)
  unchanged :
      (room : Room)
      → view before room_id ≡ some room
      → R room none
      → ((id : String) → view after id ≡ view before id)
      → Updated view R stamp room_id before after (ok false)
  saved :
      (room changed : Room)
      → view before room_id ≡ some room
      → R room (some changed)
      → ((id : String)
          → view after id ≡ (
              if room_id == id
              then some (record changed { last_updated = stamp })
              else view before id))
      → Updated view R stamp room_id before after (ok true)

-- A change that keeps the id of its room.
abbrev pub KeepsId : (Room → Option Room) → Type 0
KeepsId change = (room changed : Room) → change room ≡ some changed → changed.id ≡ room.id

abbrev pub IsOption : Option Room → (Room → Type 0) → Type 0
IsOption none P = Unit
IsOption (some room) P = P room

pub IsOption-KeepsId :
    (change : Room → Option Room) (keeps : KeepsId change) (room : Room) (changed : Option Room)
    → change room ≡ changed
    → IsOption changed (λ after. after.id ≡ room.id)
IsOption-KeepsId change keeps room none e = tt
IsOption-KeepsId change keeps room (some changed) e = keeps room changed e

module _ {W : Type 0} (env : RoomEnv W) (view : View W) (laws : RoomEnvLaws env view)
    (R : Room → Option Room → Type 0) where
  -- the save of a changed room, in the world that the clock leaves
  save_room-Updated :
      (room_id : String) (before : W) (room changed : Room) (stamp : Time) (w : W)
      → changed.id ≡ room.id
      → view before room_id ≡ some room
      → R room (some changed)
      → ((id : String) → view w id ≡ view before id)
      → let r =
          wrapping {A = Unit {0}} "save room"
            (env.repository.save (record changed { last_updated = stamp }))
            w in
        Updated view R stamp room_id before
          (continue r.0 (λ _. pure true) r.1).1
          (continue r.0 (λ _. pure {A = Bool} true) r.1).0
  save_room-Updated room_id before room changed stamp w keeps found e same =
      let stamped : Room = record changed { last_updated = stamp } in
      let call = env.repository.save stamped w in
      elim (Result-cases call.0) [
        | inl (u, done) ↦ rw done (
            saved room changed found e (λ id.
              laws.repository.save_ok stamped w id done
              ∙ rw (keeps, laws.repository.view_id before room_id room found, same id)))
        | inr (x, failure_) ↦ rw failure_ (
            failed (wrap "save room" x)
              (λ id. laws.repository.save_err stamped w x id failure_ ∙ same id))
      ]

  save_changed-Updated :
      (room_id : String) (before : W) (room : Room) (changed : Option Room) (w : W)
      → IsOption changed (λ after. after.id ≡ room.id)
      → view before room_id ≡ some room
      → R room changed
      → ((id : String) → view w id ≡ view before id)
      → Updated view R
          (env.now w).0
          room_id
          before
          (save_changed env changed w).1
          (save_changed env changed w).0
  unfolding save_changed save_room
  save_changed-Updated room_id before room none w keeps found e same = unchanged room found e same
  save_changed-Updated room_id before room (some changed) w keeps found e same =
      save_room-Updated room_id before room changed (env.now w).0 (env.now w).1 keeps found e
        (λ id. laws.now_view w id ∙ same id)

  -- A change that is right in a world, keeps the id and the rooms there, and leaves the time of the stamp.
  abbrev pub IsSound : Change env → Time → W → Type 0
  IsSound change stamp w =
      (room : Room)
      → R room (change room w).0
        × IsOption (change room w).0 (λ after. after.id ≡ room.id)
        × ((env.now (change room w).1).0 ≡ stamp)
        × ((id : String) → view (change room w).1 id ≡ view w id)

  change_found-Updated :
      (change : Change env) (stamp : Time) (room_id : String) (before : W) (found : Option Room)
      (w : W)
      → IsSound change stamp w
      → view before room_id ≡ found
      → ((id : String) → view w id ≡ view before id)
      → Updated view R stamp room_id before
          (change_found env change found w).1
          (change_found env change found w).0
  unfolding change_found
  change_found-Updated change stamp room_id before none w sound found same = missing found same
  change_found-Updated change stamp room_id before (some room) w sound found same =
      let (right, keeps, shown, quiet) = sound room in
      let (changed, w') = change room w in
      rw shown at (
        save_changed-Updated room_id before room changed w' keeps found right
          (λ id. quiet id ∙ same id))

  pub update_room-Updated :
      (text : String) (change : Change env) (stamp : Time) (room_id : String) (w : W)
      → IsSound change stamp (env.repository.get room_id w).1
      → Updated view R stamp room_id w
          (update_room env text change room_id w).1
          (update_room env text change room_id w).0
  unfolding update_room
  update_room-Updated text change stamp room_id w sound =
      let call = env.repository.get room_id w in
      elim (Result-cases call.0) [
        | inl (found, got) ↦ rw got (
            change_found-Updated change stamp room_id w found call.1 sound
              (sym (laws.repository.get_ok room_id w found got))
              (laws.repository.get_view room_id w))
        | inr (e, failure_) ↦
            rw failure_ (failed (wrap text e) (laws.repository.get_view room_id w))
      ]
