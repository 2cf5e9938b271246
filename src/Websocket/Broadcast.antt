-- ===== src/Websocket/Broadcast.antt =====
-- The broadcasts of internal/websocket/hub.go.
use lol_overlay.Prelude.{
  ◌>>◌, ℕ, String, ◌≡◌, refl, ◌∙◌, inl, inr, not, ◌&&◌, some, List, [], ◌∷◌, arith, ◌==◌,
  Result-cases, ok, err, Exec,
}
use lol_overlay.Models.{Room}
use lol_overlay.Messaging.{Bytes}
use lol_overlay.Websocket.{
  Hub, Sockets, HubEnv, contains, clients_of, remove_entry, text_message, room_update,
  write_message, write_hub_message, remove_client, after_write, write_all, room_clients,
  broadcast_to_room, broadcast_room_update,
}
use lol_overlay.Websocket.Registered.{
  is_registered, IsTidy, contains-remove_entry, remove_entry-IsTidy,
}

module _ {W : Type 0} (env : HubEnv W) where
  abbrev pub Write : Type 0
  Write = ℕ → Exec W (Unit {0})

  -- The clients to which the write fails, when each is written to once and a client that fails is closed
  -- before the next one.
  unfoldable pub lost_clients : Write → List ℕ → W → List ℕ
  lost_clients write [] w = []
  lost_clients write (c ∷ cs) w =
      let (result, w') = write c w in
      let fine = lost_clients write cs w' in
      let closed = lost_clients write cs (env.conn_close c w').1 in
      elim result [ ok _ ↦ fine | err e ↦ c ∷ closed ]

  -- The network after each client was written to once and those that fail were closed.
  unfoldable pub network_after : Write → List ℕ → W → W
  network_after write [] w = w
  network_after write (c ∷ cs) w =
      let (result, w') = write c w in
      let fine = network_after write cs w' in
      let closed = network_after write cs (env.conn_close c w').1 in
      elim result [ ok _ ↦ fine | err e ↦ closed ]

  -- Sending an encoded message to a client.
  abbrev pub send : Bytes → Write
  send text c = env.set_write_deadline c >> env.conn_write c text_message text

  pub write_all-network :
      (write : Write) (room_id : String) (cs : List ℕ) (s : Sockets W)
      → (write_all env write (remove_client env room_id) cs s).network
        ≡ network_after write cs s.network
  unfolding write_all network_after remove_client
  write_all-network write room_id [] s = refl
  write_all-network write room_id (x ∷ cs) s =
      let answer = write x s.network in
      let sent : Sockets W = record s { network = answer.1 } in
      elim (Result-cases answer.0) [
        | inl (u, r) ↦
            rw (r, write_all, after_write, network_after) (write_all-network write room_id cs sent)
        | inr (e, r) ↦
            rw (r, write_all, after_write, network_after)
              (write_all-network write room_id cs (remove_client env room_id x sent))
      ]

  pub write_room-send :
      (room : Room) (text : Bytes)
      → env.marshal (room_update room) ≡ ok text
      → (c : ℕ) (w : W) → write_hub_message env (room_update room) c w ≡ send text c w
  unfolding write_hub_message write_message
  write_room-send room text encoded c w = rw (encoded, write_hub_message, write_message) refl

  module _ (write : Write) (room_id : String) where
    -- A client is left in a room if it was there and was not lost.
    abbrev pub IsLeft : List ℕ → Sockets W → Sockets W → Type 0
    IsLeft lost before after =
        IsTidy after.hub.clients
        × (after.hub.current_room_clients ≡ before.hub.current_room_clients)
        × ((id : String) (c : ℕ)
            → is_registered id c after.hub
              ≡ is_registered id c before.hub && not (room_id == id && contains c lost))

    drop_twice :
        (id : String) (c x : ℕ) (lost : List ℕ) (hub : Hub)
        → IsTidy hub.clients
        → contains c (clients_of id (remove_entry room_id x hub.clients))
            && not (room_id == id && contains c lost)
          ≡ is_registered id c hub && not (room_id == id && contains c (x ∷ lost))
    drop_twice id c x lost hub tidy =
        ground (arith, contains-remove_entry room_id x id c hub.clients tidy)

    write_all-IsLeft :
        (cs : List ℕ) (s : Sockets W)
        → IsTidy s.hub.clients
        → IsLeft
            (lost_clients write cs s.network)
            s
            (write_all env write (remove_client env room_id) cs s)
    unfolding write_all lost_clients remove_client
    write_all-IsLeft [] s tidy = (tidy, refl, λ id c. ground arith)
    write_all-IsLeft (x ∷ cs) s tidy =
        let answer = write x s.network in
        let sent : Sockets W = record s { network = answer.1 } in
        elim (Result-cases answer.0) [
          | inl (u, r) ↦
              rw (r, write_all, after_write, lost_clients) (write_all-IsLeft cs sent tidy)
          | inr (e, r) ↦
              let dropped = remove_client env room_id x sent in
              let rest =
                write_all-IsLeft cs dropped (remove_entry-IsTidy room_id x s.hub.clients tidy) in
              rw (r, write_all, after_write, lost_clients)
                (
                  rest.0,
                  rest.1,
                  λ id c.
                      rest.2 id c
                      ∙ drop_twice id c x (lost_clients write cs (env.conn_close x answer.1).1)
                          s.hub tidy,
                )
        ]

  abbrev pub write_text : Bytes → Write
  write_text message c = write_message env c text_message message

  abbrev pub write_room : Room → Write
  write_room room = write_hub_message env (room_update room)

  -- After a broadcast to a room, of a message or of the room's update, the clients of the room to which
  -- its write failed have left the room, every other client is in its rooms as before, and no room is
  -- left without clients.
  pub broadcasts-IsLeft :
      (room_id : String) (message : Bytes) (room : Room) (s : Sockets W)
      → IsTidy s.hub.clients
      → IsLeft
          (write_text message)
          room_id
          (lost_clients (write_text message) (room_clients env room_id s) s.network)
          s
          (broadcast_to_room env room_id message s)
        × IsLeft
            (write_room room)
            room.id
            (lost_clients (write_room room) (room_clients env room.id s) s.network)
            s
            (broadcast_room_update env (some room) s)
  unfolding broadcast_to_room broadcast_room_update
  broadcasts-IsLeft room_id message room s tidy = (
    write_all-IsLeft (write_text message) room_id (room_clients env room_id s) s tidy,
    write_all-IsLeft (write_room room) room.id (room_clients env room.id s) s tidy,
  )
