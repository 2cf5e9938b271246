-- ===== src/Websocket/Connection/Left.antt =====
-- What the handlers of internal/websocket/hub.go leave behind when they return.
use lol_overlay.Prelude.{
  ℕ, String, ◌≡◌, refl, ◌∙◌, inl, inr, Bool, true, false, Option, none, some, arith, ◌==◌, eq_refl,
  Bool-cases, Result, ok, err,
}
use lol_overlay.Models.{Room}
use lol_overlay.Websocket.{
  Sockets, HubEnv, contains, room_update, current_room, write_hub_message, add_client,
  remove_client, add_current_room_client, remove_current_room_client,
}
use lol_overlay.Websocket.Registered.{
  is_registered, IsTidy, contains-remove_entry, contains-remove, add_entry-IsTidy,
}
use lol_overlay.Websocket.Connection.{
  ConnectionEnv, after_deadline, after_update, after_snapshot, after_upgrade, handle_websocket,
  after_current, after_current_upgrade, handle_current_room_websocket,
}

abbrev pub Tidy : {W : Type 0} → Sockets W → Type 0
Tidy s = IsTidy s.hub.clients

-- What the handlers rely on: a closed connection is not open, and the other goroutines change the hub by
-- its methods, which keep it tidy.
pub record SocketLaws {W : Type 0} (env : HubEnv W) (calls : ConnectionEnv W)
    (is_open : W → ℕ → Bool) : Type 0 where
  pub closes : (c : ℕ) (w : W) → is_open (env.conn_close c w).1 c ≡ false
  pub serve_tidy : (c : ℕ) (s : Sockets W) → Tidy s → Tidy (calls.serve c s)

module _ {W : Type 0} (env : HubEnv W) (calls : ConnectionEnv W) (is_open : W → ℕ → Bool)
    (laws : SocketLaws env calls is_open) where
  -- The client is neither in the room nor open.
  abbrev pub IsGone : String → ℕ → Sockets W → Type 0
  IsGone room_id c s = (is_registered room_id c s.hub ≡ false) × (is_open s.network c ≡ false)

  remove-IsGone :
      (room_id : String) (c : ℕ) (s : Sockets W)
      → Tidy s
      → IsGone room_id c (remove_client env room_id c s)
  unfolding remove_client
  remove-IsGone room_id c s tidy = (
    contains-remove_entry room_id c room_id c s.hub.clients tidy ∙ ground (arith, eq_refl room_id),
    laws.closes c s.network,
  )

  after_deadline-IsGone :
      (room_id : String) (c : ℕ) (r : Result (Unit {0})) (s : Sockets W)
      → Tidy s
      → IsGone room_id c (after_deadline env calls room_id c r s)
  unfolding after_deadline
  after_deadline-IsGone room_id c (err e) s tidy = remove-IsGone room_id c s tidy
  after_deadline-IsGone room_id c (ok x) s tidy =
      remove-IsGone room_id c (calls.serve c s) (laws.serve_tidy c s tidy)

  after_update-IsGone :
      (room_id : String) (c : ℕ) (r : Result (Unit {0})) (s : Sockets W)
      → Tidy s
      → IsGone room_id c (after_update env calls room_id c r s)
  unfolding after_update
  after_update-IsGone room_id c (err e) s tidy = remove-IsGone room_id c s tidy
  after_update-IsGone room_id c (ok x) s tidy =
      let answer = calls.set_read_deadline c s.network in
      after_deadline-IsGone room_id c answer.0 (record s { network = answer.1 }) tidy

  after_snapshot-IsGone :
      (room_id : String) (c : ℕ) (r : Result (Option Room)) (s : Sockets W)
      → Tidy s
      → IsGone room_id c (after_snapshot env calls room_id c r s)
  unfolding after_snapshot
  after_snapshot-IsGone room_id c (err e) s tidy = remove-IsGone room_id c s tidy
  after_snapshot-IsGone room_id c (ok none) s tidy = remove-IsGone room_id c s tidy
  after_snapshot-IsGone room_id c (ok (some room)) s tidy =
      let answer = write_hub_message env (room_update room) c s.network in
      after_update-IsGone room_id c answer.0 (record s { network = answer.1 }) tidy

  -- What the handler of a room leaves: without a room id, or when the upgrade failed, the hub as it was,
  -- and else a client that is gone.
  abbrev pub Left : Bool → Result ℕ → String → Sockets W → Sockets W → Type 0
  Left true r room_id before after = after.hub ≡ before.hub
  Left false (err e) room_id before after = after.hub ≡ before.hub
  Left false (ok c) room_id before after = IsGone room_id c after

  after_upgrade-Left :
      (room_id : String) (r : Result ℕ) (before s : Sockets W)
      → Tidy s
      → s.hub ≡ before.hub
      → Left false r room_id before (after_upgrade env calls room_id r s)
  unfolding after_upgrade add_client
  after_upgrade-Left room_id (err e) before s tidy same = same
  after_upgrade-Left room_id (ok c) before s tidy same =
      let added = add_client env room_id c s in
      let answer = calls.get_room_snapshot room_id added.network in
      after_snapshot-IsGone room_id c answer.0 (record added { network = answer.1 })
        (add_entry-IsTidy room_id c s.hub.clients tidy)

  handle_websocket-Left :
      (room_id : String) (s : Sockets W)
      → Tidy s
      → Left
          (room_id == "")
          (calls.upgrade s.network).0
          room_id
          s
          (handle_websocket env calls room_id s)
  unfolding handle_websocket
  handle_websocket-Left room_id s tidy = elim (Bool-cases (room_id == "")) [
    | inl e ↦ rw e refl
    | inr e ↦
        let answer = calls.upgrade s.network in
        rw e (after_upgrade-Left room_id answer.0 s (record s { network = answer.1 }) tidy refl)
  ]

  remove_current-gone :
      (c : ℕ) (s : Sockets W)
      → (contains c (remove_current_room_client env c s).hub.current_room_clients ≡ false)
        × (is_open (remove_current_room_client env c s).network c ≡ false)
  unfolding remove_current_room_client
  remove_current-gone c s =
      (contains-remove c c s.hub.current_room_clients ∙ ground arith, laws.closes c s.network)

  -- What the handler of the current room leaves.
  abbrev pub CurrentLeft : Result ℕ → Sockets W → Sockets W → Type 0
  CurrentLeft (err e) before after = after.hub ≡ before.hub
  CurrentLeft (ok c) before after =
      (contains c after.hub.current_room_clients ≡ false) × (is_open after.network c ≡ false)

  after_current-CurrentLeft :
      (c : ℕ) (r : Result (Unit {0})) (before s : Sockets W)
      → CurrentLeft (ok c) before (after_current env calls c r s)
  unfolding after_current
  after_current-CurrentLeft c (err e) before s = remove_current-gone c s
  after_current-CurrentLeft c (ok x) before s = remove_current-gone c (calls.serve c s)

  current_upgrade-CurrentLeft :
      (r : Result ℕ) (before : Sockets W) (network : W)
      → CurrentLeft r before
          (after_current_upgrade env calls r (record before { network = network }))
  unfolding after_current_upgrade
  current_upgrade-CurrentLeft (err e) before network = refl
  current_upgrade-CurrentLeft (ok c) before network =
      let added = add_current_room_client env c (record before { network = network }) in
      let answer =
        write_hub_message env (current_room (calls.get_current_room_id added.network)) c
          added.network in
      after_current-CurrentLeft c answer.0 before (record added { network = answer.1 })

  -- When the handler of a room's websocket returns, its client is not in the set of that room and its
  -- connection is closed, whichever call failed; without a room id or a connection the hub is as before.
  -- The same holds of the handler of the current room and the set of its clients.
  pub handlers-Left :
      (room_id : String) (s : Sockets W)
      → Tidy s
      → Left
          (room_id == "")
          (calls.upgrade s.network).0
          room_id
          s
          (handle_websocket env calls room_id s)
        × CurrentLeft (calls.upgrade s.network).0 s (handle_current_room_websocket env calls s)
  unfolding handle_current_room_websocket
  handlers-Left room_id s tidy =
      let answer = calls.upgrade s.network in
      (handle_websocket-Left room_id s tidy, current_upgrade-CurrentLeft answer.0 s answer.1)
