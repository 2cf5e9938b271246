-- ===== src/RoomService/Refresh.antt =====
-- `RefreshCooldowns` of internal/services/room_service.go: every room of the store, refreshed and saved
-- where it changed, and the publications for the rooms that were saved.
use lol_overlay.Prelude.{
  String, ◌≡◌, refl, sym, ap, ◌∙◌, inl, inr, Bool, true, false, Option, none, some, List, [], ◌∷◌,
  arith, ◌==◌, eq_refl, Option-cases, find, Result, Result-cases, ok, err, Exec, pure, wrapping,
  continue, ◌>>=◌, ◌>>◌,
}
use lol_overlay.Models.{Room}
use lol_overlay.Spell.{refresh_room_cooldowns}
use lol_overlay.Spell.Cooldown.{refresh_room_unchanged}
use lol_overlay.Repository.{View, DistinctIds, has_room_id}
use lol_overlay.Spell.Cooldown.{refresh_room_unchanged, refresh_room_id}
use lol_overlay.RoomService.Changes.{RefreshedAt}
use lol_overlay.RoomService.Described.{refresh_room-RefreshedAt}
use lol_overlay.RoomService.Effects.{
  Listed-same, Effects, Listed, Listed-other, Effects-nil, Effects-cons,
}
use lol_overlay.RoomService.Methods.{publish_event_ok, publish_event-view}
use lol_overlay.Messaging.{subject_room_updated}
use lol_overlay.RoomService.Env.{
  RoomEnv, RoomEnvLaws, time_now, publish_event, publish_room_updated,
}
use lol_overlay.RoomService.Methods.{publish_event_ok, publish_event-view}

module _ {W : Type 0} (env : RoomEnv W) where
  -- `if err := ctx.Err(); err != nil { return … }`
  unfoldable pub check_ctx : Exec W (Unit {0})
  check_ctx w = elim (env.ctx_err w) [ some e ↦ (err e, w) | none ↦ (ok tt, w) ]

  -- What follows the refresh of one room, with the rounds that are left.
  after_refresh : Room × Bool → Exec W (List String) → Exec W (List String)
  after_refresh (room, false) later = later
  after_refresh (room, true) later = do
    wrapping "save room after cooldown refresh" (env.repository.save room)
    ids ← later
    pure (room.id ∷ ids)

  -- The loop of `refreshCooldownsLocked`.
  unfoldable pub refresh_rooms : List Room → Exec W (List String)
  unfolding check_ctx time_now after_refresh
  refresh_rooms [] = pure []
  refresh_rooms (room ∷ rest) =
      let later = refresh_rooms rest in
      do check_ctx; t ← time_now env; after_refresh (refresh_room_cooldowns t room) later

  unfoldable pub refresh_cooldowns_locked : Exec W (List String)
  refresh_cooldowns_locked = do
    rooms ← wrapping "get rooms for cooldown refresh" env.repository.get_all
    refresh_rooms rooms

  unfoldable pub publish_all : List String → Exec W (Unit {0})
  publish_all [] = pure tt
  publish_all (room_id ∷ rest) = do publish_room_updated env room_id; publish_all rest

  unfoldable pub refresh_cooldowns : Exec W (Unit {0})
  refresh_cooldowns = do ids ← refresh_cooldowns_locked; publish_all ids

module _ {W : Type 0} (env : RoomEnv W) (view : View W) (laws : RoomEnvLaws env view) where
  -- The room is refreshed at the time that the clock showed while the room still stood as it was.
  abbrev pub IsRefreshed : Room → Option Room → Type 0
  IsRefreshed room after =
      (w : W) × (view w room.id ≡ some room) × RefreshedAt (env.now w).0 room after

  -- What a run of the loop says if it succeeds; a failed run may have refreshed some rooms.
  abbrev Post : List Room → W → Result (List String) × W → Type 0
  Post rooms before (ok ids, after) = Effects view IsRefreshed rooms before after
  Post rooms before (err e, after) = Unit

  collect :
      (rooms : List Room) (before : W) (id : String) (r : Result (List String)) (w : W)
      → Post rooms before (r, w)
      → Post rooms before (continue r (λ ids. pure (id ∷ ids)) w)
  collect rooms before id (ok ids) w h = h
  collect rooms before id (err e) w h = h

  module _ (room : Room) (rest : List Room) (before : W)
      (fresh : find (has_room_id room.id) rest ≡ none)
      (later : (w : W) → Listed view rest w → Post rest w (refresh_rooms env rest w)) where
    -- the rest of the loop, after a round that left the world `w`
    then_later :
        (now_world w : W)
        → view now_world room.id ≡ some room
        → view w room.id ≡ some (refresh_room_cooldowns (env.now now_world).0 room).0
        → ((other : String) → (room.id == other) ≡ false → view w other ≡ view before other)
        → Listed view rest before
        → (r : Result (List String)) (after : W) → refresh_rooms env rest w ≡ (r, after)
        → Post (room ∷ rest) before (r, after)
    then_later now_world w stood done same l (err e) after h = tt
    then_later now_world w stood done same l (ok ids) after h =
        Effects-cons view IsRefreshed room rest before w after fresh
          (now_world, stood, rw done (refresh_room-RefreshedAt (env.now now_world).0 room)) same
          (rw h at (later w (Listed-other view room.id rest before w fresh same l)))

    after_refresh-Post :
        (now_world w : W) (refreshed : Room) (changed : Bool)
        → view now_world room.id ≡ some room
        → refresh_room_cooldowns (env.now now_world).0 room ≡ (refreshed, changed)
        → ((id : String) → view w id ≡ view before id)
        → Listed view (room ∷ rest) before
        → Post
            (room ∷ rest)
            before
            (after_refresh env (refreshed, changed) (refresh_rooms env rest) w)
    unfolding after_refresh
    after_refresh-Post now_world w refreshed false stood e same l =
        let r = refresh_rooms env rest w in
        then_later now_world w stood
          (same room.id
            ∙ l.0
            ∙ ap some (
                sym (
                  refresh_room_unchanged (env.now now_world).0 room
                    (ap (λ (r : Room × Bool). r.1) e))))
          (λ other _. same other) l.1 r.0 r.1 refl
    after_refresh-Post now_world w refreshed true stood e same l =
        let t = (env.now now_world).0 in
        let call = env.repository.save refreshed w in
        let first : (refresh_room_cooldowns t room).0 ≡ refreshed =
          ap (λ (r : Room × Bool). r.0) e in
        let same_id : refreshed.id ≡ room.id =
          ap (λ (r : Room). r.id) (sym first) ∙ refresh_room_id t room in
        elim (Result-cases call.0) [
          | inl (u, done) ↦
              let saved_view = λ (other : String). laws.repository.save_ok refreshed w other done in
              rw done (
                collect (room ∷ rest) before refreshed.id (refresh_rooms env rest call.1).0
                  (refresh_rooms env rest call.1).1
                  (then_later now_world call.1 stood
                    (ground (arith, saved_view room.id, same_id, first, eq_refl room.id))
                    (λ other o. ground (arith, saved_view other, same_id, same other)) l.1
                    (refresh_rooms env rest call.1).0 (refresh_rooms env rest call.1).1 refl))
          | inr (x, failed) ↦ rw failed tt
        ]

  refresh_rooms-Post :
      (rooms : List Room) (w : W)
      → Listed view rooms w
      → DistinctIds rooms
      → Post rooms w (refresh_rooms env rooms w)
  unfolding refresh_rooms
  refresh_rooms-Post [] w l distinct = Effects-nil view IsRefreshed w
  refresh_rooms-Post (room ∷ rest) w l distinct = elim (Option-cases (env.ctx_err w)) [
    | inl go_on ↦
        rw (go_on, check_ctx)
          (after_refresh-Post room rest w distinct.0
            (λ w' l'. refresh_rooms-Post rest w' l' distinct.1) w (env.now w).1
            (refresh_room_cooldowns (env.now w).0 room).0
            (refresh_room_cooldowns (env.now w).0 room).1 l.0 refl (laws.now_view w) l)
    | inr (e, stop) ↦ rw (stop, check_ctx) tt
  ]

  -- publishing changes no room
  publish_all-view :
      (ids : List String) (w : W) (id : String) → view (publish_all env ids w).1 id ≡ view w id
  unfolding publish_all
  publish_all-view [] w id = refl
  publish_all-view (room_id ∷ rest) w id =
      rw (publish_event_ok env view laws subject_room_updated room_id w) (
        publish_all-view rest (publish_event env subject_room_updated room_id w).1 id
        ∙ publish_event-view env view laws subject_room_updated room_id w id)

  publish_all_ok : (ids : List String) (w : W) → (publish_all env ids w).0 ≡ ok tt
  unfolding publish_all
  publish_all_ok [] w = refl
  publish_all_ok (room_id ∷ rest) w =
      rw (publish_event_ok env view laws subject_room_updated room_id w)
        (publish_all_ok rest (publish_event env subject_room_updated room_id w).1)

  -- What a refresh of all rooms says of every id, if it succeeds.
  abbrev pub AllRefreshed : W → Result (Unit {0}) × W → Type 0
  AllRefreshed before (err e, after) = Unit
  AllRefreshed before (ok u, after) = (id : String) → elim (view before id) [
    | none ↦ view after id ≡ none
    | some room ↦ IsRefreshed room (view after id)
  ]

  publish_all-Refreshed :
      (rooms : List Room) (before listed_world : W)
      → ((id : String) → view listed_world id ≡ view before id)
      → ((id : String) → find (has_room_id id) rooms ≡ view before id)
      → (r : Result (List String)) (w : W) → Post rooms listed_world (r, w)
      → AllRefreshed before (continue r (publish_all env) w)
  publish_all-Refreshed rooms before start same found (err e) w h = tt
  publish_all-Refreshed rooms before start same found (ok ids) w h =
      rw (publish_all_ok ids w) (λ id. elim (Option-cases (view before id)) [
        | inl absent ↦
            rw absent
              (publish_all-view ids w id ∙ h.others id (found id ∙ absent) ∙ same id ∙ absent)
        | inr (room, e) ↦ rw (e, publish_all-view ids w id) (h.listed id room (found id ∙ e))
      ])

  -- A refresh of the cooldowns that succeeds leaves under every id the room that was there, refreshed at a
  -- time that the clock showed while the room still stood as it was, and adds and removes none. Refreshed
  -- means that an idle spell shows no cooldown, one of which less than a second is left is ready, and any
  -- other shows the whole seconds that are left.
  pub refresh_cooldowns-AllRefreshed : (w : W) → AllRefreshed w (refresh_cooldowns env w)
  unfolding refresh_cooldowns refresh_cooldowns_locked
  refresh_cooldowns-AllRefreshed w =
      let call = env.repository.get_all w in
      elim (Result-cases call.0) [
        | inl (rooms, got) ↦ rw got (
            publish_all-Refreshed rooms w call.1 (laws.repository.get_all_view w)
              (λ id. laws.repository.get_all_ok w rooms id got) (refresh_rooms env rooms call.1).0
              (refresh_rooms env rooms call.1).1
              (refresh_rooms-Post rooms call.1
                (Listed-same view rooms w call.1 (laws.repository.get_all_view w)
                  (laws.repository.get_all_listed w rooms got))
                (laws.repository.get_all_distinct w rooms got)))
        | inr (e, failed) ↦ rw failed tt
      ]

module _ {W : Type 0} (env : RoomEnv W) (view : View W) (laws : RoomEnvLaws env view)
    (running : (w : W) → env.ctx_err w ≡ none)
    (saves : (room : Room) (w : W) → (env.repository.save room w).0 ≡ ok tt) where
  after_refresh_ok :
      (changed : Room × Bool) (later : Exec W (List String)) (w : W)
      → ((w' : W) → (ids : List String) × ((later w').0 ≡ ok ids))
      → (ids : List String) × ((after_refresh env changed later w).0 ≡ ok ids)
  unfolding after_refresh
  after_refresh_ok (room, false) later w done = done w
  after_refresh_ok (room, true) later w done =
      let call = env.repository.save room w in
      let (ids, e) = done call.1 in (room.id ∷ ids, rw (saves room w, e))

  refresh_rooms_ok :
      (rooms : List Room) (w : W) → (ids : List String) × ((refresh_rooms env rooms w).0 ≡ ok ids)
  unfolding refresh_rooms
  refresh_rooms_ok [] w = ([], refl)
  refresh_rooms_ok (room ∷ rest) w =
      rw (running w, check_ctx)
        (after_refresh_ok (refresh_room_cooldowns (env.now w).0 room) (refresh_rooms env rest)
          (env.now w).1 (refresh_rooms_ok rest))

  -- A refresh of the cooldowns succeeds where the context is never done, the rooms can be listed and
  -- every room can be saved; that no publication succeeds does not stop it.
  pub refresh_cooldowns_ok :
      (w : W) (rooms : List Room)
      → (env.repository.get_all w).0 ≡ ok rooms
      → (refresh_cooldowns env w).0 ≡ ok tt
  unfolding refresh_cooldowns refresh_cooldowns_locked
  refresh_cooldowns_ok w rooms got =
      let call = env.repository.get_all w in
      let (ids, e) = refresh_rooms_ok rooms call.1 in
      rw (got, e) (publish_all_ok env view laws ids (refresh_rooms env rooms call.1).1)
