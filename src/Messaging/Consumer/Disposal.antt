-- ===== src/Messaging/Consumer/Disposal.antt =====
-- What becomes of a message that the durable consumer was given.
use lol_overlay.Messaging.Consumer.{
  Exec, ConsumerEnv, Msg, MsgMetadata, DeliveryOutcome, acked, ack_error, dead_lettered, retried,
  retry_error, game_event_max_deliver, game_event_retry_delay, dead_letter_term_reason,
  dead_letter_of, nak_game_event, nak_outcome, ack_outcome, after_term, after_publish,
  after_metadata, handle_game_event_failure, after_read, after_handler, consume_message,
}
use lol_overlay.Prelude.{
  ℕ, ◌≤◌, String, ◌≡◌, refl, sym, ap, ◌∙◌, ◌⊎◌, inl, inr, Bool, true, false, arith, ◌==◌, ltb,
  Bool-cases, Option-cases, Error, Result, Result-cases, ok, err,
}
use lol_overlay.Messaging.{
  Bytes, EventMetadata, PublishAck, StreamLaws, publish_durable, subject_game_dead_letter,
}
use lol_overlay.Messaging.DeadLetters.{
  GameDeadLetterEvent, publish_game_dead_letter, validate_game_dead_letter_event,
  dead_letter_message_id, print_dead_letter_id,
}
use lol_overlay.Messaging.DeadLetters.Store.{published_game_dead_letter}

-- What the code relies on in the server: `settled` is whether it will not deliver the message again.
pub record ConsumerLaws {W : Type 0} (env : ConsumerEnv W) (settled : Msg → W → Bool) : Type 0 where
  pub stream_laws : StreamLaws env.stream
  pub metadata_keeps :
      (msg : Msg) (w : W) → settled msg (env.new_event_metadata w).1 ≡ settled msg w
  pub publish_keeps :
      (msg : Msg) (subject : String) (body : Bytes) (id : String) (w : W)
      → settled msg (env.stream.publish subject body id w).1 ≡ settled msg w
  pub nak_keeps :
      (msg : Msg) (delay : ℕ) (w : W)
      → settled msg (env.nak_with_delay msg delay w).1 ≡ settled msg w
  pub nak_stored :
      (msg : Msg) (delay : ℕ) (id : String) (w : W)
      → env.stream.stored (env.nak_with_delay msg delay w).1 id ≡ env.stream.stored w id
  pub term_stored :
      (msg : Msg) (reason id : String) (w : W)
      → env.stream.stored (env.term_with_reason msg reason w).1 id ≡ env.stream.stored w id

module _ {W : Type 0} (env : ConsumerEnv W) (settled : Msg → W → Bool)
    (laws : ConsumerLaws env settled) {D : Type 0} (handler : String → Bytes → Exec D (Unit {0}))
    (d : D) (msg : Msg) where
  abbrev pub IsHandled : Type 0
  IsHandled = (handler msg.subject msg.body d).0 ≡ ok tt

  -- The handler failed on the fifth delivery or a later one, and the dead letter of the message is stored.
  abbrev pub IsDeadLettered : W → Type 0
  IsDeadLettered after =
      (e : Error) × (metadata : MsgMetadata) × ((handler msg.subject msg.body d).0 ≡ err e)
      × (msg.metadata ≡ ok metadata)
      × (game_event_max_deliver ≤ metadata.num_delivered)
      × (env.stream.stored after
            (print_dead_letter_id metadata.stream metadata.stream_sequence metadata.consumer)
          ≡ true)

  abbrev pub IsRetried : W → Type 0
  IsRetried after =
      (e : Error) × ((handler msg.subject msg.body d).0 ≡ err e)
      × ((settled msg after ≡ false) ⊎ IsDeadLettered after)

  abbrev pub IsDisposed : DeliveryOutcome × W → Type 0
  IsDisposed (acked, after) = IsHandled
  IsDisposed (ack_error, after) = IsHandled
  IsDisposed (dead_lettered, after) = IsDeadLettered after
  IsDisposed (retried, after) = IsRetried after
  IsDisposed (retry_error, after) = IsRetried after

  nak_outcome-IsDisposed :
      (after : W) (r : Result (Unit {0}))
      → IsRetried after
      → IsDisposed (nak_outcome env msg r, after)
  unfolding nak_outcome
  nak_outcome-IsDisposed after (ok _) h = h
  nak_outcome-IsDisposed after (err _) h = h

  nak-IsDisposed :
      (w : W) (e : Error)
      → (handler msg.subject msg.body d).0 ≡ err e
      → (settled msg w ≡ false) ⊎ IsDeadLettered w
      → IsDisposed (nak_game_event env msg w)
  unfolding nak_game_event
  nak-IsDisposed w e failed state =
      let after = (env.nak_with_delay msg game_event_retry_delay w).1 in
      nak_outcome-IsDisposed after (env.nak_with_delay msg game_event_retry_delay w).0 (
        e,
        failed,
        elim state [
          | inl unsettled ↦ inl (laws.nak_keeps msg game_event_retry_delay w ∙ unsettled)
          | inr dead ↦ inr (
            dead.0,
            dead.1,
            dead.2,
            dead.3,
            dead.4,
            laws.nak_stored msg game_event_retry_delay
                  (print_dead_letter_id dead.1.stream dead.1.stream_sequence dead.1.consumer) w
                ∙ dead.5,
          )
        ],
      )

  after_term-IsDisposed :
      (w : W) (r : Result (Unit {0})) → IsDeadLettered w → IsDisposed (after_term env msg r w)
  unfolding after_term
  after_term-IsDisposed w (ok _) dead = dead
  after_term-IsDisposed w (err _) dead = nak-IsDisposed w dead.0 dead.2 (inr dead)

  publish-keeps_settled :
      (event : GameDeadLetterEvent) (w : W)
      → settled msg (publish_game_dead_letter env.stream env.marshal event w).1 ≡ settled msg w
  unfolding publish_game_dead_letter publish_durable
  publish-keeps_settled event w = elim (Option-cases (validate_game_dead_letter_event event)) [
    | inr (e, v) ↦ rw (v, publish_game_dead_letter) refl
    | inl v ↦ elim (Result-cases (env.marshal event)) [
      | inr (e, m) ↦ rw (v, m, publish_game_dead_letter) refl
      | inl (body, m) ↦ elim (Bool-cases (dead_letter_message_id event == "")) [
        | inl z ↦ rw (v, m, z, publish_game_dead_letter, publish_durable) refl
        | inr z ↦
            rw (v, m, z, publish_game_dead_letter, publish_durable)
              (laws.publish_keeps msg subject_game_dead_letter body (dead_letter_message_id event)
                w)
      ]
    ]
  ]

  publish-stored :
      (event : GameDeadLetterEvent) (ack : PublishAck) (w : W)
      → (publish_game_dead_letter env.stream env.marshal event w).0 ≡ ok ack
      → env.stream.stored
          (publish_game_dead_letter env.stream env.marshal event w).1
          (dead_letter_message_id event)
        ≡ true
  publish-stored event ack w h =
      let p = published_game_dead_letter env.stream env.marshal event ack w h in
      rw p.3 (
        laws.stream_laws.ack_stored subject_game_dead_letter p.1 (dead_letter_message_id event) w
          ack (ap (λ (r : Result PublishAck × W). r.0) (sym p.3) ∙ h))

  module _ (e : Error) (metadata : MsgMetadata)
      (failed : (handler msg.subject msg.body d).0 ≡ err e) (known : msg.metadata ≡ ok metadata)
      (fifth : game_event_max_deliver ≤ metadata.num_delivered) where
    after_publish-IsDisposed :
        (w : W) (event_metadata : EventMetadata)
        → settled msg w ≡ false
        → IsDisposed (after_metadata env msg e metadata (ok event_metadata) w)
    unfolding after_metadata after_publish
    after_publish-IsDisposed w event_metadata h =
        let event = dead_letter_of env.error_text msg e metadata event_metadata in
        let published = publish_game_dead_letter env.stream env.marshal event w in
        elim (Result-cases published.0) [
          | inr (x, p) ↦
              rw p (nak-IsDisposed published.1 e failed (inl (publish-keeps_settled event w ∙ h)))
          | inl (ack, p) ↦
              let termed = env.term_with_reason msg dead_letter_term_reason published.1 in
              rw p (
                after_term-IsDisposed termed.1 termed.0 (
                  e,
                  metadata,
                  failed,
                  known,
                  fifth,
                  laws.term_stored msg dead_letter_term_reason (dead_letter_message_id event)
                        published.1
                      ∙ publish-stored event ack w p,
                ))
        ]

    after_metadata-IsDisposed :
        (w : W) (r : Result EventMetadata)
        → settled msg w ≡ false
        → IsDisposed (after_metadata env msg e metadata r w)
    unfolding after_metadata
    after_metadata-IsDisposed w (ok event_metadata) h = after_publish-IsDisposed w event_metadata h
    after_metadata-IsDisposed w (err x) h = nak-IsDisposed w e failed (inl h)

  after_read-IsDisposed :
      (w : W) (e : Error) (r : Result MsgMetadata)
      → (handler msg.subject msg.body d).0 ≡ err e
      → msg.metadata ≡ r
      → settled msg w ≡ false
      → IsDisposed (after_read env msg e r w)
  unfolding after_read
  after_read-IsDisposed w e (err x) failed m h = nak-IsDisposed w e failed (inl h)
  after_read-IsDisposed w e (ok metadata) failed m h =
      elim (Bool-cases (ltb metadata.num_delivered game_event_max_deliver)) [
        | inl early ↦ rw early (nak-IsDisposed w e failed (inl h))
        | inr late ↦
            let created = env.new_event_metadata w in
            rw late (
              after_metadata-IsDisposed e metadata failed m (ground arith) created.1 created.0
                (laws.metadata_keeps msg w ∙ h))
      ]

  ack_outcome-IsDisposed :
      (after : W) (r : Result (Unit {0})) → IsHandled → IsDisposed (ack_outcome env msg r, after)
  unfolding ack_outcome
  ack_outcome-IsDisposed after (ok _) h = h
  ack_outcome-IsDisposed after (err _) h = h

  -- The message is acknowledged only if the handler succeeded. If the handler failed, either the message
  -- is not settled, or it was delivered at least five times and its dead letter is stored; it counts as
  -- dead-lettered only in the second case.
  pub consume_message-IsDisposed :
      (w : W)
      → settled msg w ≡ false
      → IsDisposed
          ((consume_message env msg handler d w).0, (consume_message env msg handler d w).2)
  unfolding consume_message after_handler handle_game_event_failure
  consume_message-IsDisposed w h =
      let handled = handler msg.subject msg.body d in
      elim (Result-cases handled.0) [
        | inl (u, f) ↦
            let answer = env.double_ack msg w in rw f (ack_outcome-IsDisposed answer.1 answer.0 f)
        | inr (e, f) ↦ rw f (after_read-IsDisposed w e msg.metadata f refl h)
      ]

  pub settled_message :
      (r : DeliveryOutcome × W)
      → IsDisposed r
      → settled msg r.1 ≡ true
      → IsHandled ⊎ IsDeadLettered r.1
  settled_message (acked, w) h done = inl h
  settled_message (ack_error, w) h done = inl h
  settled_message (dead_lettered, w) h done = inr h
  settled_message (retried, w) h done = elim h.2 [
    | inl open_still ↦ absurd (cc (open_still, done))
    | inr dead ↦ inr dead
  ]
  settled_message (retry_error, w) h done = elim h.2 [
    | inl open_still ↦ absurd (cc (open_still, done))
    | inr dead ↦ inr dead
  ]
