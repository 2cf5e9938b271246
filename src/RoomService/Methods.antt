-- ===== src/RoomService/Methods.antt =====
-- `AddPlayer`, `ToggleSpellByRiotId` and `ReplacePlayers` of internal/services/room_service.go: what
-- their results say of the rooms in the store.
use lol_overlay.Prelude.{
  refl, String, ◌≡◌, ◌∙◌, inl, inr, Bool, Option, some, List, arith, Result, Result-cases, ok,
  continue,
}
use lol_overlay.Messaging.{subject_room_updated}
use lol_overlay.Models.{Time, Player, Room}
use lol_overlay.Repository.{View}
use lol_overlay.RoomService.Env.{RoomEnv, RoomEnvLaws, publish_event}
use lol_overlay.RoomService.Players.{add_to_room, toggle_in_room, replace_in_room}
use lol_overlay.RoomService.Changes.{Added, Toggled, Replaced}
use lol_overlay.RoomService.Described.{
  add_to_room-Added, toggle_in_room-Toggled, replace_in_room-Replaced,
}
use lol_overlay.RoomService.Locked.{
  time_read, next_time, untimed, timed, IsSound, IsOption-KeepsId, Updated, failed, missing,
  unchanged, saved, KeepsId, update_room-Updated, add_player_locked, add_player,
  toggle_spell_locked, toggle_spell_by_riot_id, replace_players, publish_if_updated,
}

module _ {W : Type 0} (env : RoomEnv W) (view : View W) (laws : RoomEnvLaws env view) where
  pub publish_event-view :
      (subject room_id : String) (w : W) (id : String)
      → view (publish_event env subject room_id w).1 id ≡ view w id
  unfolding publish_event
  publish_event-view subject room_id w id = elim (Result-cases (env.marshal_room_id room_id)) [
    | inl (body, e) ↦ rw (e, publish_event) (laws.publish_view subject body w id)
    | inr (x, e) ↦ rw (e, publish_event)
  ]

  pub publish_event_ok :
      (subject room_id : String) (w : W) → (publish_event env subject room_id w).0 ≡ ok tt
  unfolding publish_event
  publish_event_ok subject room_id w = elim (Result-cases (env.marshal_room_id room_id)) [
    | inl (body, e) ↦ rw (e, publish_event)
    | inr (x, e) ↦ rw (e, publish_event)
  ]

  -- publishing after an update changes neither what is stored nor the result
  published-Updated :
      (R : Room → Option Room → Type 0) (stamp : Time) (room_id : String) (before : W)
      (r : Result Bool) (w : W)
      → Updated view R stamp room_id before w r
      → Updated view R stamp room_id before
          (continue r (publish_if_updated env room_id) w).1
          (continue r (publish_if_updated env room_id) w).0
  published-Updated R stamp room_id before r w (failed e same) = failed e same
  published-Updated R stamp room_id before r w (missing absent same) = missing absent same
  published-Updated R stamp room_id before r w (unchanged room found e same) =
      unchanged room found e same
  published-Updated R stamp room_id before r w (saved room changed found e after) =
      rw publish_event_ok (
        saved room changed found e
          (λ id. publish_event-view subject_room_updated room_id w id ∙ after id))

  add_to_room-KeepsId : (player : Player) → KeepsId (λ room. some (add_to_room player room))
  unfolding add_to_room
  add_to_room-KeepsId player room changed e = ground arith

  toggle_in_room-KeepsId :
      (game_name tag_line spell_name : String) (now : Time)
      → KeepsId (toggle_in_room game_name tag_line spell_name now)
  unfolding toggle_in_room
  toggle_in_room-KeepsId game_name tag_line spell_name now room changed e = ground arith

  replace_in_room-KeepsId :
      (players : List Player) → KeepsId (replace_in_room env.nil_alike players)
  unfolding replace_in_room
  replace_in_room-KeepsId players room changed e = ground arith

  untimed-IsSound :
      (R : Room → Option Room → Type 0) (change : Room → Option Room) (w : W)
      → ((room : Room) → R room (change room))
      → KeepsId change
      → IsSound env view laws R (untimed env change) (env.now w).0 w
  untimed-IsSound R change w right keeps room =
      (right room, IsOption-KeepsId change keeps room (change room) refl, refl, λ id. refl)

  timed-IsSound :
      (R : Room → Option Room → Type 0) (change : Time → Room → Option Room) (w : W)
      → ((room : Room) → R room (change (env.now w).0 room))
      → KeepsId (change (env.now w).0)
      → IsSound env view laws R (timed env change) (env.now (env.now w).1).0 w
  timed-IsSound R change w right keeps room =
      let t = (env.now w).0 in
      (
        right room,
        IsOption-KeepsId (change t) keeps room (change t room) refl,
        refl,
        λ id. laws.now_view w id,
      )

  -- Adding a player to a room, in a store that keeps its contract: an error leaves every room as it
  -- was, false means that there is no such room, and true that the room with the player added,
  -- stamped with the time that the clock showed after the room was read, is stored and every other
  -- room is as it was. A player whose riot id the room has gives the first such player its champion;
  -- another one comes last, with a haste of 18 and, where it has no spells, a ready Flash and
  -- Ignite.
  pub add_player-Updated :
      (room_id : String) (player : Player) (w : W)
      → Updated view
          (Added player)
          (time_read env room_id w)
          room_id
          w
          (add_player env room_id player w).1
          (add_player env room_id player w).0
  unfolding add_player add_player_locked
  add_player-Updated room_id player w =
      let r = add_player_locked env room_id player w in
      published-Updated (Added player) (time_read env room_id w) room_id w r.0 r.1 (
        update_room-Updated env view laws (Added player) "get room for adding player"
          (untimed env (λ room. some (add_to_room player room))) (time_read env room_id w) room_id w
          (untimed-IsSound (Added player) (λ room. some (add_to_room player room))
            (env.repository.get room_id w).1 (add_to_room-Added player)
            (add_to_room-KeepsId player)))

  -- Toggling a spell, in a store that keeps its contract: an error or false leaves every room as it
  -- was, false means that the room is missing, has no such player or that the first such player has
  -- no such spell, and true that the room in which the first such spell of that player is toggled,
  -- stamped with a time, is stored and every other room is as it was. A ready spell goes on the
  -- cooldown of the player's haste from the time that the clock showed after the room was read, the
  -- stamp is the time that it showed next, and another spell becomes ready.
  pub toggle_spell-Updated :
      (room_id game_name tag_line spell_name : String) (w : W)
      → Updated view
          (Toggled game_name tag_line spell_name (time_read env room_id w))
          (next_time env room_id w)
          room_id
          w
          (toggle_spell_by_riot_id env room_id game_name tag_line spell_name w).1
          (toggle_spell_by_riot_id env room_id game_name tag_line spell_name w).0
  unfolding toggle_spell_by_riot_id toggle_spell_locked
  toggle_spell-Updated room_id game_name tag_line spell_name w =
      let r = toggle_spell_locked env room_id game_name tag_line spell_name w in
      let now = time_read env room_id w in
      let toggle = toggle_in_room game_name tag_line spell_name in
      published-Updated (Toggled game_name tag_line spell_name now) (next_time env room_id w)
        room_id w r.0 r.1
        (update_room-Updated env view laws (Toggled game_name tag_line spell_name now)
          "get room for toggling spell" (timed env toggle) (next_time env room_id w) room_id w
          (timed-IsSound (Toggled game_name tag_line spell_name now) toggle
            (env.repository.get room_id w).1
            (toggle_in_room-Toggled game_name tag_line spell_name now)
            (toggle_in_room-KeepsId game_name tag_line spell_name now)))

  -- Replacing the players of a room, in a store that keeps its contract: an error or false leaves
  -- every room as it was, false means that the room is missing or that its players, down to which
  -- slices are nil, are already the given ones with the state of the spells of the known ones
  -- carried over, and true that the room with these other players, stamped with the time that the
  -- clock showed after the room was read, is stored and every other room is as it was.
  pub replace_players-Updated :
      (room_id : String) (players : List Player) (w : W)
      → Updated view
          (Replaced env.nil_alike players)
          (time_read env room_id w)
          room_id
          w
          (replace_players env room_id players w).1
          (replace_players env room_id players w).0
  unfolding replace_players
  replace_players-Updated room_id players w =
      update_room-Updated env view laws (Replaced env.nil_alike players)
        "get room for replacing players" (untimed env (replace_in_room env.nil_alike players))
        (time_read env room_id w) room_id w
        (untimed-IsSound (Replaced env.nil_alike players) (replace_in_room env.nil_alike players)
          (env.repository.get room_id w).1 (replace_in_room-Replaced env.nil_alike players)
          (replace_in_room-KeepsId players))
