-- ===== src/Websocket.antt =====
-- internal/websocket: the hub of hub.go, the client of client.go and the messages of messages.go. A client
-- is a number, as a pointer is; a set of clients is a list. The connections are an interface over the
-- state of the network, `HubEnv`. The loop that pings, the logging and the mutexes are left out: a method
-- that holds the hub's mutex is one function on the hub. The order in which Go iterates over a set is an
-- argument of the environment, `arrange`.
pub mod Registered
pub mod Connection
pub mod Broadcast
use lol_overlay.Prelude.{
  ℕ, zero, suc, ◌+◌, ◌-◌, ◌*◌, ◌/◌, ◌%◌, ◌^◌, ◌≤◌, ◌<◌, min, String, ◌≡◌, refl, sym, ap, ◌∙◌,
  fun_ext, ◌≢◌, ◌↔◌, ◌⊎◌, inl, inr, Bool, true, false, not, ◌&&◌, ◌||◌, Option, none, some, List,
  [], ◌∷◌, ◌++◌, map, arith, ◌==◌, eq_iff, eq_refl, ltb, leb, nat_eq, if◌then◌else◌, ℤ, int_eq,
  is_positive, Bool-cases, Option-cases, pos, negsuc, All, length, length-append, take, drop, find,
  modify_first, All-append, filter, any, filter-append, any-append, filter-All, filter_none,
  any_none, All-filter, All-map, Error, Result, map_err, Result-cases, map_err_ok, failure, wrap,
  ok, err, Exec, pure, wrapping, continue, ◌>>=◌, ◌>>◌,
}
use lol_overlay.Models.{Room}
use lol_overlay.Messaging.{Bytes}

pub record Hub : Type 0 where
  pub clients : List (String × List ℕ)
  pub current_room_clients : List ℕ

abbrev pub new_hub : Hub
new_hub = record { clients = []; current_room_clients = [] }

abbrev pub contains : ℕ → List ℕ → Bool
contains c = any (nat_eq c)

abbrev pub insert : ℕ → List ℕ → List ℕ
insert c cs = if contains c cs then cs else c ∷ cs

abbrev pub remove : ℕ → List ℕ → List ℕ
remove c = filter (λ (x : ℕ). not (nat_eq c x))

-- The map from rooms to sets of clients: a missing room has no clients.
unfoldable pub clients_of : String → List (String × List ℕ) → List ℕ
clients_of room_id [] = []
clients_of room_id ((id, cs) ∷ rest) =
    let others = clients_of room_id rest in if id == room_id then cs else others

unfoldable pub add_entry : String → ℕ → List (String × List ℕ) → List (String × List ℕ)
add_entry room_id c [] = (room_id, c ∷ []) ∷ []
add_entry room_id c ((id, cs) ∷ rest) =
    let others = add_entry room_id c rest in
    if id == room_id then (id, insert c cs) ∷ rest else (id, cs) ∷ others

abbrev pub put_left : String → List ℕ → List (String × List ℕ) → List (String × List ℕ)
put_left id [] rest = rest
put_left id (c ∷ cs) rest = (id, c ∷ cs) ∷ rest

-- A room that has no client left is deleted from the map.
unfoldable pub remove_entry : String → ℕ → List (String × List ℕ) → List (String × List ℕ)
remove_entry room_id c [] = []
remove_entry room_id c ((id, cs) ∷ rest) =
    let others = remove_entry room_id c rest in
    if id == room_id then put_left id (remove c cs) rest else (id, cs) ∷ others

pub data MessageType : Type 0 where
  text_message : MessageType
  ping_message : MessageType

-- The messages of messages.go: `type` and the payload.
pub data HubMessage : Type 0 where
  room_update : Room → HubMessage
  current_room : String → HubMessage

pub record HubEnv (W : Type 0) : Type 0 where
  pub arrange : List ℕ → List ℕ
  -- The connection of a client.
  pub set_write_deadline : ℕ → Exec W (Unit {0})
  pub conn_write : ℕ → MessageType → Bytes → Exec W (Unit {0})
  pub conn_close : ℕ → Exec W (Unit {0})
  -- `json.Marshal`
  pub marshal : HubMessage → Result Bytes

-- The hub and the network.
pub record Sockets (W : Type 0) : Type 0 where
  pub hub : Hub
  pub network : W

module _ {W : Type 0} (env : HubEnv W) where
  -- `WriteMessage` of a client.
  unfoldable pub write_message : ℕ → MessageType → Bytes → Exec W (Unit {0})
  write_message c message_type body = env.set_write_deadline c >> env.conn_write c message_type body

  -- The message is encoded first, as `writeRoomUpdate` and `writeCurrentRoom` do.
  unfoldable pub write_hub_message : HubMessage → ℕ → Exec W (Unit {0})
  unfolding write_message
  write_hub_message message c w = elim (env.marshal message) [
    | err e ↦ (err e, w)
    | ok body ↦ write_message c text_message body w
  ]

  unfoldable pub add_client : String → ℕ → Sockets W → Sockets W
  unfolding add_entry
  add_client room_id c s = record s {
    hub = record s.hub { clients = add_entry room_id c s.hub.clients };
  }

  unfoldable pub remove_client : String → ℕ → Sockets W → Sockets W
  unfolding remove_entry
  remove_client room_id c s = record {
    hub = record s.hub { clients = remove_entry room_id c s.hub.clients };
    network = (env.conn_close c s.network).1;
  }

  unfoldable pub add_current_room_client : ℕ → Sockets W → Sockets W
  add_current_room_client c s = record s {
    hub = record s.hub { current_room_clients = insert c s.hub.current_room_clients };
  }

  unfoldable pub remove_current_room_client : ℕ → Sockets W → Sockets W
  remove_current_room_client c s = record {
    hub = record s.hub { current_room_clients = remove c s.hub.current_room_clients };
    network = (env.conn_close c s.network).1;
  }

  after_write : (ℕ → Sockets W → Sockets W) → ℕ → Result (Unit {0}) → Sockets W → Sockets W
  after_write drop_client c (ok _) s = s
  after_write drop_client c (err e) s = drop_client c s

  -- The loop that the broadcasts share: a client whose write fails is removed.
  unfoldable pub write_all :
      (ℕ → Exec W (Unit {0})) → (ℕ → Sockets W → Sockets W) → List ℕ → Sockets W → Sockets W
  unfolding after_write
  write_all write drop_client [] s = s
  write_all write drop_client (c ∷ cs) s =
      let (result, network) = write c s.network in
      write_all write drop_client cs
        (after_write drop_client c result (record s { network = network }))

  abbrev pub room_clients : String → Sockets W → List ℕ
  room_clients room_id s = env.arrange (clients_of room_id s.hub.clients)

  unfoldable pub broadcast_to_room : String → Bytes → Sockets W → Sockets W
  unfolding write_all remove_client write_message clients_of
  broadcast_to_room room_id message s =
      write_all (λ c. write_message c text_message message) (remove_client room_id)
        (room_clients room_id s) s

  -- `none` is the nil room.
  unfoldable pub broadcast_room_update : Option Room → Sockets W → Sockets W
  unfolding write_all remove_client write_hub_message clients_of
  broadcast_room_update none s = s
  broadcast_room_update (some room) s =
      write_all (write_hub_message (room_update room)) (remove_client room.id)
        (room_clients room.id s) s

  unfoldable pub broadcast_current_room : String → Sockets W → Sockets W
  unfolding write_all remove_current_room_client write_hub_message
  broadcast_current_room room_id s =
      write_all (write_hub_message (current_room room_id)) remove_current_room_client
        (env.arrange s.hub.current_room_clients) s
