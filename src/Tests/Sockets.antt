-- ===== src/Tests/Sockets.antt =====
-- The hub of internal/websocket over a small network.
use lol_overlay.Websocket.Broadcast.{
  network_after, send, IsLeft, lost_clients, broadcasts-IsLeft, write_text, write_room,
}
use lol_overlay.Prelude.{
  String, Result, ℕ, ◌≡◌, refl, ◌∙◌, Bool, not, some, List, [], ◌∷◌, arith, ◌==◌, nat_eq,
  if◌then◌else◌, filter, failure, ok, err,
}
use lol_overlay.Messaging.{Bytes}
use lol_overlay.Repository.InMemory.{clone, in_memory, rooms_view}
use lol_overlay.Websocket.Connection.Left.{SocketLaws, Left, CurrentLeft, handlers-Left}
use lol_overlay.Websocket.Registered.{IsTidy, contains-remove}
use lol_overlay.Websocket.{
  clients_of, contains, Sockets, HubEnv, broadcast_to_room, broadcast_room_update,
}
use lol_overlay.Tests.Rooms
use lol_overlay.RoomConsumer.{handle_room_updated, room_updated-IsLeft}
use lol_overlay.Models.{Room}
use lol_overlay.Websocket.Connection.{
  ConnectionEnv, handle_websocket, handle_current_room_websocket,
}

-- The clients that are open.
abbrev Net : Type 0
Net = List ℕ

-- The second client is unreachable.
abbrev env : HubEnv Net
env = record {
  arrange = λ cs. cs;
  set_write_deadline = λ c w. (ok tt, w);
  conn_write =
      λ c message_type body w. if nat_eq c 2 then (err (failure "broken pipe"), w) else (ok tt, w);
  conn_close = λ c w. (ok tt, filter (λ (x : ℕ). not (nat_eq c x)) w);
  marshal = λ message. ok [];
}

abbrev room : Room
room = record { id = "7-100"; players = []; last_updated = 5 }

abbrev calls : ConnectionEnv Net
calls = record {
  http_error = λ text w. w;
  upgrade = λ w. (ok 9, 9 ∷ w);
  get_room_snapshot = λ id w. (ok (some room), w);
  get_current_room_id = λ w. "7-100";
  set_read_deadline = λ c w. (ok tt, w);
  serve = λ c s. s;
}

abbrev is_open : Net → ℕ → Bool
is_open w c = contains c w

laws : SocketLaws env calls is_open
laws = record {
  closes = λ c w. contains-remove c c w ∙ ground arith;
  serve_tidy = λ c s tidy. tidy;
}

abbrev sockets : Sockets Net
sockets = record {
  hub = record {
    clients = ("7-100", 1 ∷ 2 ∷ []) ∷ ("8-200", 2 ∷ []) ∷ [];
    current_room_clients = [];
  };
  network = 1 ∷ 2 ∷ [];
}

sockets-IsTidy : IsTidy sockets.hub.clients
sockets-IsTidy = ((refl, tt), tt, (tt, tt, tt))

one_left : clients_of "7-100" (broadcast_to_room env "7-100" [] sockets).hub.clients ≡ 1 ∷ []
unfolding broadcast_to_room
one_left = refl

broadcasts-IsLeft_example :
    IsLeft env
      (write_text env [])
      "8-200"
      (lost_clients env (write_text env []) (2 ∷ []) sockets.network)
      sockets
      (broadcast_to_room env "8-200" [] sockets)
    × IsLeft env
        (write_room env room)
        "7-100"
        (lost_clients env (write_room env room) (1 ∷ 2 ∷ []) sockets.network)
        sockets
        (broadcast_room_update env (some room) sockets)
unfolding clients_of
broadcasts-IsLeft_example = broadcasts-IsLeft env "8-200" [] room sockets sockets-IsTidy

handlers-Left_example :
    Left env calls is_open laws
      ("7-100" == "")
      (ok 9)
      "7-100"
      sockets
      (handle_websocket env calls "7-100" sockets)
    × CurrentLeft env calls is_open laws
        (ok 9)
        sockets
        (handle_current_room_websocket env calls sockets)
handlers-Left_example = handlers-Left env calls is_open laws "7-100" sockets sockets-IsTidy

abbrev unmarshal : Bytes → Result String
unmarshal body = ok "7-100"

stored : (in_memory.get "7-100" Rooms.rooms).0 ≡ ok (some Rooms.room)
unfolding in_memory clone
stored = refl

room_updated-IsLeft_example :
    IsLeft env
      (send env [])
      "7-100"
      (lost_clients env (send env []) (1 ∷ 2 ∷ []) sockets.network)
      sockets
      (handle_room_updated env Rooms.env unmarshal [] Rooms.rooms sockets).1
    × ((handle_room_updated env Rooms.env unmarshal [] Rooms.rooms sockets).1.network
        ≡ network_after env (send env []) (1 ∷ 2 ∷ []) sockets.network)
unfolding clients_of
room_updated-IsLeft_example =
    room_updated-IsLeft env Rooms.env unmarshal rooms_view Rooms.env-RoomEnvLaws [] [] "7-100"
      Rooms.room (some Rooms.room) Rooms.rooms sockets sockets-IsTidy refl refl refl stored refl
