-- ===== src/RoomConsumer.antt =====
-- internal/consumers/room_consumer.go: the handlers of the two subscriptions, over the hub of
-- internal/websocket and the room service. `unmarshal` is `json.Unmarshal` into an event that holds one
-- room id. The state of the room service's world stands beside the hub and the network.
use lol_overlay.Websocket.Broadcast.{
  write_all-network, write_room-send, network_after, send, IsLeft, lost_clients, write_room,
  broadcasts-IsLeft,
}
use lol_overlay.Prelude.{
  fun_ext, String, ◌≡◌, refl, sym, ◌∙◌, false, Option, none, some, ◌==◌, if◌then◌else◌, Result, ok,
  err,
}
use lol_overlay.Websocket.{
  room_update, HubEnv, Sockets, room_clients, broadcast_current_room, broadcast_room_update,
}
use lol_overlay.Models.{Room}
use lol_overlay.Messaging.{Bytes}
use lol_overlay.Repository.{View}
use lol_overlay.RoomService.Env.{RoomEnv, RoomEnvLaws}
use lol_overlay.RoomService.Snapshots.{get_room_snapshot}
use lol_overlay.Websocket.Registered.{IsTidy}

module _ {W R : Type 0} (hub_env : HubEnv W) (env : RoomEnv R)
    (unmarshal : Bytes → Result String) where
  unfoldable pub handle_current_room_changed : Bytes → Sockets W → Sockets W
  handle_current_room_changed body s = elim (unmarshal body) [
    | err e ↦ s
    | ok room_id ↦ broadcast_current_room hub_env room_id s
  ]

  after_snapshot : Result (Option Room) → Sockets W → Sockets W
  after_snapshot (err e) s = s
  after_snapshot (ok none) s = s
  after_snapshot (ok (some room)) s = broadcast_room_update hub_env (some room) s

  load_updated : String → R → Sockets W → R × Sockets W
  unfolding after_snapshot
  load_updated room_id r s =
      let (result, r') = get_room_snapshot env room_id r in
      if room_id == "" then (r, s) else (r', after_snapshot result s)

  unfoldable pub handle_room_updated : Bytes → R → Sockets W → R × Sockets W
  unfolding load_updated
  handle_room_updated body r s = elim (unmarshal body) [
    | err e ↦ (r, s)
    | ok room_id ↦ load_updated room_id r s
  ]

  -- An update event about a room that the store holds, whose read succeeds and whose update is encoded,
  -- sends the encoded update once to every client of that room and closes those that cannot be written
  -- to; they leave the room, every other client is in its rooms as before, and no room is left without
  -- clients.
  pub room_updated-IsLeft :
      (view : View R) (laws : RoomEnvLaws env view) (body text : Bytes) (room_id : String)
      (room : Room) (found : Option Room) (r : R) (s : Sockets W)
      → IsTidy s.hub.clients
      → unmarshal body ≡ ok room_id
      → (room_id == "") ≡ false
      → view r room_id ≡ some room
      → (env.repository.get room_id r).0 ≡ ok found
      → hub_env.marshal (room_update room) ≡ ok text
      → let after = (handle_room_updated body r s).1 in
        let clients = room_clients hub_env room_id s in
        IsLeft hub_env
          (send hub_env text)
          room_id
          (lost_clients hub_env (send hub_env text) clients s.network)
          s
          after
        × (after.network ≡ network_after hub_env (send hub_env text) clients s.network)
  unfolding handle_room_updated load_updated after_snapshot get_room_snapshot broadcast_room_update
  room_updated-IsLeft view laws body text room_id room found r s tidy decoded named held read
        encoded =
      let same : found ≡ some room = laws.repository.get_ok room_id r found read ∙ held in
      let id : room.id ≡ room_id = laws.repository.view_id r room_id room held in
      let e : (handle_room_updated body r s).1 ≡ broadcast_room_update hub_env (some room) s =
        rw
          (
            decoded, named, read, same, handle_room_updated, load_updated, get_room_snapshot,
            after_snapshot,
          )
          refl in
      let sends : write_room hub_env room ≡ send hub_env text =
        fun_ext (λ c. fun_ext (write_room-send hub_env room text encoded c)) in
      let sent : (broadcast_room_update hub_env (some room) s).network
          ≡ network_after hub_env (write_room hub_env room) (room_clients hub_env room.id s)
              s.network =
        write_all-network hub_env (write_room hub_env room) room.id (room_clients hub_env room.id s)
          s in
      rw (e, sym id, sym sends) ((broadcasts-IsLeft hub_env room.id body room s tidy).1, sent)
