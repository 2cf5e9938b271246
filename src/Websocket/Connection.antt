-- ===== src/Websocket/Connection.antt =====
-- `HandleWebSocket` and `HandleCurrentRoomWebSocket` of internal/websocket/hub.go: the life of one
-- connection. What the handlers call besides the hub is an interface, `ConnectionEnv`; the read loop with
-- all that other goroutines do meanwhile is its field `serve`, and the pings end with it.
pub mod Left
use lol_overlay.Prelude.{
  ℕ, zero, suc, ◌+◌, ◌-◌, ◌*◌, ◌/◌, ◌%◌, ◌^◌, ◌≤◌, ◌<◌, min, String, ◌≡◌, refl, sym, ap, ◌∙◌,
  fun_ext, ◌≢◌, ◌↔◌, ◌⊎◌, inl, inr, Bool, true, false, not, ◌&&◌, ◌||◌, Option, none, some, List,
  [], ◌∷◌, ◌++◌, map, arith, ◌==◌, eq_iff, eq_refl, ltb, leb, nat_eq, if◌then◌else◌, ℤ, int_eq,
  is_positive, Bool-cases, Option-cases, pos, negsuc, All, length, length-append, take, drop, find,
  modify_first, All-append, filter, any, filter-append, any-append, filter-All, filter_none,
  any_none, All-filter, All-map, Error, Result, map_err, Result-cases, map_err_ok, failure, wrap,
  ok, err, Exec, pure, wrapping, continue, ◌>>=◌, ◌>>◌,
}
use lol_overlay.Models.{Room}
use lol_overlay.Websocket.{
  Hub, Sockets, HubEnv, HubMessage, room_update, current_room, write_hub_message, add_client,
  remove_client, add_current_room_client, remove_current_room_client,
}

pub record ConnectionEnv (W : Type 0) : Type 0 where
  pub http_error : String → W → W
  -- `upgrader.Upgrade`; the result is a new client.
  pub upgrade : Exec W ℕ
  -- `roomService.GetRoomSnapshot` and `roomService.GetCurrentRoomID`
  pub get_room_snapshot : String → Exec W (Option Room)
  pub get_current_room_id : W → String
  pub set_read_deadline : ℕ → Exec W (Unit {0})
  pub serve : ℕ → Sockets W → Sockets W

module _ {W : Type 0} (env : HubEnv W) (calls : ConnectionEnv W) where
  -- What follows each call of `HandleWebSocket`, the last one first.
  after_deadline : String → ℕ → Result (Unit {0}) → Sockets W → Sockets W
  after_deadline room_id c (err e) s = remove_client env room_id c s
  after_deadline room_id c (ok _) s = remove_client env room_id c (calls.serve c s)

  after_update : String → ℕ → Result (Unit {0}) → Sockets W → Sockets W
  unfolding after_deadline
  after_update room_id c (err e) s = remove_client env room_id c s
  after_update room_id c (ok _) s =
      let (result, network) = calls.set_read_deadline c s.network in
      after_deadline room_id c result (record s { network = network })

  after_snapshot : String → ℕ → Result (Option Room) → Sockets W → Sockets W
  unfolding after_update
  after_snapshot room_id c (err e) s = remove_client env room_id c s
  after_snapshot room_id c (ok none) s = remove_client env room_id c s
  after_snapshot room_id c (ok (some room)) s =
      let (result, network) = write_hub_message env (room_update room) c s.network in
      after_update room_id c result (record s { network = network })

  after_upgrade : String → Result ℕ → Sockets W → Sockets W
  unfolding after_snapshot
  after_upgrade room_id (err e) s = s
  after_upgrade room_id (ok c) s =
      let added = add_client env room_id c s in
      let (result, network) = calls.get_room_snapshot room_id added.network in
      after_snapshot room_id c result (record added { network = network })

  unfoldable pub handle_websocket : String → Sockets W → Sockets W
  unfolding after_upgrade
  handle_websocket room_id s =
      let (result, network) = calls.upgrade s.network in
      if room_id == ""
      then record s { network = calls.http_error "roomId is required" s.network }
      else after_upgrade room_id result (record s { network = network })

  after_current : ℕ → Result (Unit {0}) → Sockets W → Sockets W
  after_current c (err e) s = remove_current_room_client env c s
  after_current c (ok _) s = remove_current_room_client env c (calls.serve c s)

  after_current_upgrade : Result ℕ → Sockets W → Sockets W
  unfolding after_current
  after_current_upgrade (err e) s = s
  after_current_upgrade (ok c) s =
      let added = add_current_room_client env c s in
      let (result, network) =
        write_hub_message env (current_room (calls.get_current_room_id added.network)) c
          added.network in
      after_current c result (record added { network = network })

  unfoldable pub handle_current_room_websocket : Sockets W → Sockets W
  unfolding after_current_upgrade
  handle_current_room_websocket s =
      let (result, network) = calls.upgrade s.network in
      after_current_upgrade result (record s { network = network })
