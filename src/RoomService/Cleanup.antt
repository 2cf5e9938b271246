-- ===== src/RoomService/Cleanup.antt =====
-- `cleanupOldRooms` of internal/services/room_service.go.
use lol_overlay.Prelude.{
  ◌*◌, ◌+◌, ap, ltb, ◌-◌, String, ◌≡◌, refl, ◌∙◌, inl, inr, Bool, true, false, not, Option, none,
  some, List, [], ◌∷◌, arith, ◌==◌, eq_refl, leb, if◌then◌else◌, Option-cases, find, Result,
  Result-cases, ok, err, Exec, pure, wrapping, continue, ◌>>=◌, ◌>>◌,
}
use lol_overlay.Models.{Time, Room, room_expiration_duration}
use lol_overlay.Repository.{View, DistinctIds, has_room_id}
use lol_overlay.RoomService.Env.{RoomEnv, RoomEnvLaws, time_now}
use lol_overlay.RoomService.Current.{Service, in_world, clear_current_room_id_locked}
use lol_overlay.RoomService.Effects.{
  Effects, Listed, Listed-other, Listed-same, Effects-nil, Effects-cons,
}
use lol_overlay.RoomService.Refresh.{check_ctx}

-- `now.Sub(room.LastUpdated) > constants.RoomExpirationDuration`; a room that was updated after `now` is
-- not expired.
abbrev pub is_expired : Time → Room → Bool
is_expired now room = not (leb (now - room.last_updated) room_expiration_duration)

module _ {W : Type 0} (env : RoomEnv W) where
  delete_expired : Room → Bool → Exec (Service W) (Unit {0}) → Exec (Service W) (Unit {0})
  delete_expired room false later s = later s
  delete_expired room true later s =
      let (r, s') = in_world (wrapping "delete expired room" (env.repository.delete room.id)) s in
      continue r (λ _ s''. later (clear_current_room_id_locked room.id s'')) s'

  unfoldable pub cleanup_rooms : Time → List Room → Exec (Service W) (Unit {0})
  unfolding check_ctx delete_expired
  cleanup_rooms now [] = pure tt
  cleanup_rooms now (room ∷ rest) =
      let later = cleanup_rooms now rest in
      do in_world (check_ctx env); delete_expired room (is_expired now room) later

  unfoldable pub cleanup_old_rooms : Exec (Service W) (Unit {0})
  unfolding time_now
  cleanup_old_rooms = do
    rooms ← in_world (wrapping "get rooms for cleanup" env.repository.get_all)
    now ← in_world (time_now env)
    cleanup_rooms now rooms

module _ {W : Type 0} (env : RoomEnv W) (view : View W) (laws : RoomEnvLaws env view)
    (now : Time) where
  abbrev IsCleaned : Room → Option Room → Type 0
  IsCleaned room after = after ≡ (if is_expired now room then none else some room)

  -- What a run of the loop says of the rooms if it succeeds.
  abbrev Post : List Room → Service W → Result (Unit {0}) × Service W → Type 0
  Post rooms before (ok u, after) = Effects view IsCleaned rooms before.world after.world
  Post rooms before (err e, after) = Unit

  clear_world : (id : String) (s : Service W) → (clear_current_room_id_locked id s).world ≡ s.world
  unfolding clear_current_room_id_locked
  clear_world id s = ground arith

  cons-Post :
      (room : Room) (rest : List Room) (before s : Service W)
      → find (has_room_id room.id) rest ≡ none
      → IsCleaned room (view s.world room.id)
      → ((other : String)
          → (room.id == other) ≡ false
          → view s.world other ≡ view before.world other)
      → (r : Result (Unit {0})) (after : Service W) → Post rest s (r, after)
      → Post (room ∷ rest) before (r, after)
  cons-Post room rest before s fresh done same (err e) after h = tt
  cons-Post room rest before s fresh done same (ok u) after h =
      Effects-cons view IsCleaned room rest before.world s.world after.world fresh done same h

  delete_expired-Post :
      (room : Room) (rest : List Room) (s : Service W) (expired : Bool)
      → is_expired now room ≡ expired
      → find (has_room_id room.id) rest ≡ none
      → Listed view (room ∷ rest) s.world
      → ((s' : Service W)
          → Listed view rest s'.world
          → Post rest s' (cleanup_rooms env now rest s'))
      → Post (room ∷ rest) s (delete_expired env room expired (cleanup_rooms env now rest) s)
  unfolding delete_expired
  delete_expired-Post room rest s false e fresh l later =
      let result = cleanup_rooms env now rest s in
      cons-Post room rest s s fresh (rw e l.0) (λ other o. refl) result.0 result.1 (later s l.1)
  delete_expired-Post room rest s true e fresh l later =
      let call = env.repository.delete room.id s.world in
      elim (Result-cases call.0) [
        | inl (u, done) ↦
            let s' : Service W =
              clear_current_room_id_locked room.id (record s { world = call.1 }) in
            let same_world : s'.world ≡ call.1 =
              clear_world room.id (record s { world = call.1 }) in
            let gone : (id : String)
                → view s'.world id ≡ (if room.id == id then none else view s.world id) =
              λ id. rw same_world (laws.repository.delete_ok room.id s.world id done) in
            let others : (other : String)
                → (room.id == other) ≡ false
                → view s'.world other ≡ view s.world other =
              λ other o. gone other ∙ rw o in
            let result = cleanup_rooms env now rest s' in
            rw done (
              cons-Post room rest s s' fresh (rw e (gone room.id ∙ rw (eq_refl room.id))) others
                result.0 result.1
                (later s' (Listed-other view room.id rest s.world s'.world fresh others l.1)))
        | inr (x, failed) ↦ rw failed tt
      ]

  cleanup_rooms-Post :
      (rooms : List Room) (s : Service W)
      → Listed view rooms s.world
      → DistinctIds rooms
      → Post rooms s (cleanup_rooms env now rooms s)
  unfolding cleanup_rooms
  cleanup_rooms-Post [] s l distinct = Effects-nil view IsCleaned s.world
  cleanup_rooms-Post (room ∷ rest) s l distinct = elim (Option-cases (env.ctx_err s.world)) [
    | inl go_on ↦
        rw (go_on, check_ctx)
          (delete_expired-Post room rest s (is_expired now room) refl distinct.0 l
            (λ s' l'. cleanup_rooms-Post rest s' l' distinct.1))
    | inr (e, stop) ↦ rw (stop, check_ctx) tt
  ]

module _ {W : Type 0} (env : RoomEnv W) (view : View W) (laws : RoomEnvLaws env view) where
  -- What a cleanup says of every room, if it succeeds: the time is the one that the clock shows after the
  -- rooms were listed, and 180 minutes are written out in nanoseconds.
  abbrev pub AllCleaned : Service W → Result (Unit {0}) × Service W → Type 0
  AllCleaned before (err e, after) = Unit
  AllCleaned before (ok u, after) =
      let now = (env.now (env.repository.get_all before.world).1).0 in
      (id : String)
      → view after.world id ≡ (elim (view before.world id) [
        | none ↦ none
        | some room ↦
            if ltb (room.last_updated + 180 * 60 * 1000000000) now then none else some room
      ])

  is_expired_eq :
      (now : Time) (room : Room)
      → is_expired now room ≡ ltb (room.last_updated + 180 * 60 * 1000000000) now
  is_expired_eq now room = ground arith

  cleaned :
      (rooms : List Room) (before s : Service W)
      → let now = (env.now (env.repository.get_all before.world).1).0 in
        ((id : String) → view s.world id ≡ view before.world id)
        → ((id : String) → find (has_room_id id) rooms ≡ view before.world id)
        → (r : Result (Unit {0})) (after : Service W) → Post env view laws now rooms s (r, after)
        → AllCleaned before (r, after)
  cleaned rooms before s same found (err e) after h = tt
  cleaned rooms before s same found (ok u) after h = λ id.
      let now = (env.now (env.repository.get_all before.world).1).0 in
      elim (Option-cases (view before.world id)) [
        | inl absent ↦ rw absent (h.others id (found id ∙ absent) ∙ same id ∙ absent)
        | inr (room, e) ↦ rw e (
            h.listed id room (found id ∙ e)
            ∙ ap (λ (b : Bool). if b then none else some room) (is_expired_eq now room))
      ]

  -- A cleanup that succeeds deletes every room that was last updated more than 180 minutes before the
  -- time that the clock showed once the rooms were listed, and no other: every other room stays as it was.
  pub cleanup-AllCleaned : (s : Service W) → AllCleaned s (cleanup_old_rooms env s)
  unfolding cleanup_old_rooms
  cleanup-AllCleaned s =
      let call = env.repository.get_all s.world in
      let w = (env.now call.1).1 in
      let same : (id : String) → view w id ≡ view s.world id =
        λ id. laws.now_view call.1 id ∙ laws.repository.get_all_view s.world id in
      elim (Result-cases call.0) [
        | inl (rooms, got) ↦
            let start : Service W = record s { world = w } in
            let result = cleanup_rooms env (env.now call.1).0 rooms start in
            rw got (
              cleaned rooms s start same (λ id. laws.repository.get_all_ok s.world rooms id got)
                result.0 result.1
                (cleanup_rooms-Post env view laws (env.now call.1).0 rooms start
                  (Listed-same view rooms s.world w same
                    (laws.repository.get_all_listed s.world rooms got))
                  (laws.repository.get_all_distinct s.world rooms got)))
        | inr (e, failed) ↦ rw failed tt
      ]

module _ {W : Type 0} (env : RoomEnv W) (running : (w : W) → env.ctx_err w ≡ none)
    (deletes : (id : String) (w : W) → (env.repository.delete id w).0 ≡ ok tt) where
  delete_expired_ok :
      (room : Room) (expired : Bool) (later : Exec (Service W) (Unit {0})) (s : Service W)
      → ((s' : Service W) → (later s').0 ≡ ok tt)
      → (delete_expired env room expired later s).0 ≡ ok tt
  unfolding delete_expired
  delete_expired_ok room false later s done = done s
  delete_expired_ok room true later s done = rw (deletes room.id s.world) (done _)

  cleanup_rooms_ok :
      (now : Time) (rooms : List Room) (s : Service W) → (cleanup_rooms env now rooms s).0 ≡ ok tt
  unfolding cleanup_rooms
  cleanup_rooms_ok now [] s = refl
  cleanup_rooms_ok now (room ∷ rest) s =
      rw (running s.world, check_ctx)
        (delete_expired_ok room (is_expired now room) (cleanup_rooms env now rest) s
          (cleanup_rooms_ok now rest))

  -- A cleanup succeeds where the context is never done, the rooms can be listed and every room can be
  -- deleted.
  pub cleanup_ok :
      (s : Service W) (rooms : List Room)
      → (env.repository.get_all s.world).0 ≡ ok rooms
      → (cleanup_old_rooms env s).0 ≡ ok tt
  unfolding cleanup_old_rooms
  cleanup_ok s rooms got =
      let call = env.repository.get_all s.world in
      rw got (cleanup_rooms_ok (env.now call.1).0 rooms (record s { world = (env.now call.1).1 }))
