-- ===== src/Replay/Wiring.antt =====
-- The replay over the client of internal/messaging, as cmd/dlq-replay puts them together.
use lol_overlay.Prelude.{
  false, ℕ, String, ◌≡◌, refl, sym, ap, ◌∙◌, inl, inr, Bool, true, not, ◌&&◌, Option, some, arith,
  ◌==◌, nat_eq, Bool-cases, Result, map_err, Result-cases, map_err_ok, wrap, ok, err, Exec,
}
use lol_overlay.Messaging.{
  subject_game_dead_letter, Bytes, PublishAck, Stream, StreamLaws, publish_durable,
}
use lol_overlay.Messaging.DeadLetters.{
  GameDeadLetterEvent, DeadLetterStream, get_game_dead_letter, delete_game_dead_letter,
  decode_message,
}
use lol_overlay.Messaging.DeadLetters.Store.{publish_durable_ok}
use lol_overlay.Replay.{ReplayEnv}
use lol_overlay.Replay.Loss.{ReplayLaws}

abbrev to_pointer : Result PublishAck → Result (Option PublishAck)
to_pointer (ok ack) = ok (some ack)
to_pointer (err e) = err e

-- The dead letters of the server: which calls keep them, and what a deletion does.
pub record ServerLaws {J : Type 0} (stream : Stream J) (dlq : DeadLetterStream J)
    (kept : J → ℕ → Bool) : Type 0 where
  pub stream_laws : StreamLaws stream
  pub publish_keeps :
      (n : ℕ) (subject id : String) (body : Bytes) (j : J)
      → (subject == subject_game_dead_letter) ≡ false
      → kept (stream.publish subject body id j).1 n ≡ kept j n
  pub open_keeps : (n : ℕ) (j : J) → kept (dlq.open_stream j).1 n ≡ kept j n
  pub open_stored :
      (id : String) (j : J) → stream.stored (dlq.open_stream j).1 id ≡ stream.stored j id
  pub get_keeps : (n sequence : ℕ) (j : J) → kept (dlq.get_msg sequence j).1 n ≡ kept j n
  pub delete_stored :
      (sequence : ℕ) (id : String) (j : J)
      → stream.stored (dlq.delete_msg sequence j).1 id ≡ stream.stored j id
  pub deletes :
      (n sequence : ℕ) (j : J)
      → (dlq.delete_msg sequence j).0 ≡ ok tt
      → kept (dlq.delete_msg sequence j).1 n ≡ kept j n && not (nat_eq n sequence)

module _ {J : Type 0} (stream : Stream J) (dlq : DeadLetterStream J)
    (unmarshal : Bytes → Result GameDeadLetterEvent) (valid_json : Bytes → Bool) where
  abbrev publish : String → String → Bytes → Exec J (Option PublishAck)
  publish subject id body j =
      let (result, j') = publish_durable stream subject id body j in (to_pointer result, j')

  abbrev pub client_replay : ReplayEnv J
  client_replay = record {
    get_game_dead_letter = get_game_dead_letter unmarshal dlq;
    delete_game_dead_letter = delete_game_dead_letter dlq;
    publish_durable = publish;
    valid_json = valid_json;
  }

  module _ (kept : J → ℕ → Bool) (laws : ServerLaws stream dlq kept) where
    get-keeps :
        (n sequence : ℕ) (j : J)
        → kept (get_game_dead_letter unmarshal dlq sequence j).1 n ≡ kept j n
    unfolding get_game_dead_letter
    get-keeps n sequence j = elim (Bool-cases (nat_eq sequence 0)) [
      | inl z ↦ rw z refl
      | inr p ↦
          let opened = dlq.open_stream j in
          let got = dlq.get_msg sequence opened.1 in
          elim (Result-cases opened.0) [
            | inr (e, o) ↦ rw (p, o) (laws.open_keeps n j)
            | inl (u, o) ↦ elim (Result-cases got.0) [
              | inr (e, g) ↦ rw (p, o, g) (laws.get_keeps n sequence opened.1 ∙ laws.open_keeps n j)
              | inl (m, g) ↦
                  rw (p, o, g, decode_message)
                    (laws.get_keeps n sequence opened.1 ∙ laws.open_keeps n j)
            ]
          ]
    ]

    publish-keeps :
        (n : ℕ) (subject id : String) (body : Bytes) (j : J)
        → (subject == subject_game_dead_letter) ≡ false
        → kept (publish_durable stream subject id body j).1 n ≡ kept j n
    unfolding publish_durable
    publish-keeps n subject id body j game = elim (Bool-cases (id == "")) [
      | inl z ↦ rw z refl
      | inr p ↦ rw p (laws.publish_keeps n subject id body j game)
    ]

    publish-stored :
        (subject id : String) (body : Bytes) (j : J) (ack : PublishAck)
        → (publish_durable stream subject id body j).0 ≡ ok ack
        → stream.stored (publish_durable stream subject id body j).1 id ≡ true
    publish-stored subject id body j ack h =
        let same = publish_durable_ok stream subject id body ack j h in
        rw same (
          laws.stream_laws.ack_stored subject body id j ack
            (ap (λ (r : Result PublishAck × J). r.0) (sym same) ∙ h))

    to_pointer-inj :
        (r : Result PublishAck) (ack : PublishAck) → to_pointer r ≡ ok (some ack) → r ≡ ok ack
    to_pointer-inj (ok a) ack h = cc h
    to_pointer-inj (err e) ack h = cc h

    delete-stored :
        (sequence : ℕ) (id : String) (j : J)
        → stream.stored (delete_game_dead_letter dlq sequence j).1 id ≡ stream.stored j id
    unfolding delete_game_dead_letter
    delete-stored sequence id j = elim (Bool-cases (nat_eq sequence 0)) [
      | inl z ↦ rw z refl
      | inr p ↦
          let opened = dlq.open_stream j in
          elim (Result-cases opened.0) [
            | inr (e, o) ↦ rw (p, o) (laws.open_stored id j)
            | inl (u, o) ↦
                rw (p, o) (laws.delete_stored sequence id opened.1 ∙ laws.open_stored id j)
          ]
    ]

    deletes :
        (n sequence : ℕ) (j : J)
        → (delete_game_dead_letter dlq sequence j).0 ≡ ok tt
        → kept (delete_game_dead_letter dlq sequence j).1 n ≡ kept j n && not (nat_eq n sequence)
    unfolding delete_game_dead_letter
    deletes n sequence j h = elim (Bool-cases (nat_eq sequence 0)) [
      | inl z ↦ absurd (ground arith)
      | inr p ↦
          let opened = dlq.open_stream j in
          elim (Result-cases opened.0) [
            | inr (e, o) ↦ absurd (ground arith)
            | inl (u, o) ↦
                let answer = dlq.delete_msg sequence opened.1 in
                let e : (delete_game_dead_letter dlq sequence j).0
                    ≡ map_err (wrap "delete dead-letter message") answer.0 =
                  rw (p, o, delete_game_dead_letter) refl in
                let fine = map_err_ok (wrap "delete dead-letter message") answer.0 tt (sym e ∙ h) in
                rw (p, o, delete_game_dead_letter)
                  (laws.deletes n sequence opened.1 fine
                    ∙ ap (λ (b : Bool). b && not (nat_eq n sequence)) (laws.open_keeps n j))
          ]
    ]

    -- The client of the streams is a store and a publisher of which a replay loses no dead letter: what it
    -- has to promise follows from what the server promises.
    pub client_replay_laws : ReplayLaws client_replay kept stream.stored
    client_replay_laws = record {
      get_keeps = get-keeps;
      publish_keeps = publish-keeps;
      ack_stored = λ subject id body j ack h.
          publish-stored subject id body j ack
            (to_pointer-inj (publish_durable stream subject id body j).0 ack h);
      delete_stored = delete-stored;
      deletes = deletes;
    }
