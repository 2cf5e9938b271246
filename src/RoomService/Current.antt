-- ===== src/RoomService/Current.antt =====
-- The current room of internal/services/room_service.go, and the room that is created for it.
use lol_overlay.Prelude.{
  String, ◌≡◌, refl, sym, ◌∙◌, ◌⊎◌, inl, inr, false, not, Option, none, some, [], arith, ◌==◌,
  eq_iff, if◌then◌else◌, Result, Result-cases, ok, err, Exec, pure, wrapping, ◌>>=◌, ◌>>◌,
}
use lol_overlay.Models.{Room}
use lol_overlay.Repository.{View}
use lol_overlay.RoomService.Env.{RoomEnv, RoomEnvLaws, time_now, publish_current_room_changed}

-- The state of a `RoomService`: the world that its collaborators share, and its own field.
pub record Service (W : Type 0) : Type 0 where
  pub world : W
  pub current_room_id : String

-- An action on the world, as an action of the service.
abbrev pub in_world : {W A : Type 0} → Exec W A → Exec (Service W) A
in_world m s = let (r, w) = m s.world in (r, record s { world = w })

module _ {W : Type 0} (env : RoomEnv W) where
  save_new : String → Option Room → Exec W (Option Room)
  save_new room_id (some existing) = pure (some existing)
  save_new room_id none = do
    t ← time_now env
    let room : Room = record { id = room_id; players = []; last_updated = t }
    wrapping "save room" (env.repository.save room)
    pure (some room)

  -- `CreateRoom`; `none` is the nil room.
  unfoldable pub create_room : String → Exec W (Option Room)
  unfolding save_new time_now
  create_room room_id w =
      if room_id == ""
      then (ok none, w)
      else ((do
        existing ← wrapping "check existing room" (env.repository.get room_id)
        save_new room_id existing)
          w)

  unfoldable pub set_current_room_id : String → Exec (Service W) (Unit {0})
  set_current_room_id room_id s =
      if s.current_room_id == room_id
      then (ok tt, s)
      else in_world (publish_current_room_changed env room_id)
          (record s { current_room_id = room_id })

  unfoldable pub clear_current_room_id : String → Exec (Service W) (Unit {0})
  clear_current_room_id room_id s =
      if not (s.current_room_id == room_id)
      then (ok tt, s)
      else in_world (publish_current_room_changed env "") (record s { current_room_id = "" })

-- `clearCurrentRoomIDLocked`, which publishes nothing.
unfoldable pub clear_current_room_id_locked : {W : Type 0} → String → Service W → Service W
clear_current_room_id_locked room_id s =
    if s.current_room_id == room_id then record s { current_room_id = "" } else s

module _ {W : Type 0} (env : RoomEnv W) (view : View W) (laws : RoomEnvLaws env view) where
  -- What creating a room says: the room that was there is returned as it is, a new room is empty and is
  -- stored, and no other room changes.
  abbrev pub Created : String → W → Result (Option Room) × W → Type 0
  Created room_id before (err e, after) = (id : String) → view after id ≡ view before id
  Created room_id before (ok none, after) = ⊥
  Created room_id before (ok (some room), after) =
      (room.id ≡ room_id)
      × ((view before room_id ≡ some room) ⊎ ((view before room_id ≡ none) × (room.players ≡ [])))
      × ((id : String) → view after id ≡ (if room_id == id then some room else view before id))

  save_new-Created :
      (room_id : String) (before : W) (found : Option Room) (w : W)
      → view before room_id ≡ found
      → ((id : String) → view w id ≡ view before id)
      → Created room_id before (save_new env room_id found w)
  unfolding save_new time_now
  save_new-Created room_id before (some room) w e same = (
    laws.repository.view_id before room_id room e,
    inl e,
    λ id. ground (arith, same id, e, eq_iff room_id id),
  )
  save_new-Created room_id before none w e same =
      let room : Room = record { id = room_id; players = []; last_updated = (env.now w).0 } in
      let call = env.repository.save room (env.now w).1 in
      elim (Result-cases call.0) [
        | inl (u, done) ↦ rw done (
          refl,
          inr (e, refl),
          λ id. ground (
            arith,
            laws.repository.save_ok room (env.now w).1 id done,
            laws.now_view w id,
            same id,
          ),
        )
        | inr (x, failed) ↦ rw failed (λ id.
            laws.repository.save_err room (env.now w).1 x id failed ∙ laws.now_view w id ∙ same id)
      ]

  -- Creating a room under an id that is not empty never returns nil without an error: it returns the
  -- room that was stored under the id, or an empty room that it stores where there was none; no room of
  -- another id changes, and an error leaves every room as it was.
  pub create_room-Created :
      (room_id : String) (w : W)
      → (room_id == "") ≡ false
      → Created room_id w (create_room env room_id w)
  unfolding create_room
  create_room-Created room_id w named =
      let call = env.repository.get room_id w in
      elim (Result-cases call.0) [
        | inl (found, got) ↦
            rw (named, got)
              (save_new-Created room_id w found call.1
                (sym (laws.repository.get_ok room_id w found got))
                (laws.repository.get_view room_id w))
        | inr (x, failed) ↦ rw (named, failed) (laws.repository.get_view room_id w)
      ]
