-- ===== src/Messaging/DeadLetters/Store.antt =====
-- Message ids and the store of dead letters of internal/messaging.
use lol_overlay.Prelude.{
  map_err_ok, String, ◌≡◌, refl, sym, ap, ◌∙◌, ◌↔◌, inl, inr, false, none, arith, ◌==◌, nat_eq,
  Bool-cases, Option-cases, Result, map_err, Result-cases, wrap, ok,
}
use lol_overlay.Messaging.DeadLetters.{
  decode_message, GameDeadLetterEvent, DeadLetterStream, StoredMessage, dead_letter_message_id,
  print_dead_letter_id, validate_game_dead_letter_event, decode_game_dead_letter,
  get_game_dead_letter, publish_game_dead_letter,
}
use lol_overlay.Prelude.Decimals.{decimal_inj, decimal, after_sign_inj}
use text.Mathlib.TextLemmas.{append_cancel_left}
use lol_overlay.Messaging.{Bytes, PublishAck, Stream, publish_durable, subject_game_dead_letter}

-- Dead letters of one stream have the same message id only if they are about the same message and the
-- same consumer; the id does not depend on the id of the dead letter itself.
pub dead_letter_message_id_inj :
    (a b : GameDeadLetterEvent)
    → a.source_stream ≡ b.source_stream
    → (dead_letter_message_id a ≡ dead_letter_message_id b)
      ↔ ((a.stream_sequence ≡ b.stream_sequence) × (a.consumer ≡ b.consumer))
unfolding print_dead_letter_id
dead_letter_message_id_inj a b same = (
  λ e.
      let tail =
        append_cancel_left a.source_stream
          (String.◌∷◌ ":" (decimal a.stream_sequence (String.◌∷◌ ":" a.consumer)))
          (String.◌∷◌ ":" (decimal b.stream_sequence (String.◌∷◌ ":" b.consumer)))
          (e
            ∙ ap (λ (s : String). print_dead_letter_id s b.stream_sequence b.consumer)
                (sym same)) in
      let numbers =
        decimal_inj a.stream_sequence b.stream_sequence (String.◌∷◌ ":" a.consumer)
          (String.◌∷◌ ":" b.consumer) refl refl
          (after_sign_inj ":" (decimal a.stream_sequence (String.◌∷◌ ":" a.consumer))
            (decimal b.stream_sequence (String.◌∷◌ ":" b.consumer)) tail) in
      (numbers.0, after_sign_inj ":" a.consumer b.consumer numbers.1),
  λ h. rw (same, h.0, h.1) refl,
)

-- What the code relies on in the stream of the dead letters: under the sequence number of a message that
-- was acknowledged as new, which is positive, the stream gives back that message or an error.
pub record DeadLetterLaws {J : Type 0} (stream : Stream J) (dlq : DeadLetterStream J) : Type 0 where
  pub acks_positive :
      (body : Bytes) (id : String) (j : J) (ack : PublishAck)
      → (stream.publish subject_game_dead_letter body id j).0 ≡ ok ack
      → nat_eq ack.sequence 0 ≡ false
  pub gets_published :
      (body : Bytes) (id : String) (j : J) (ack : PublishAck) (message : StoredMessage)
      → (stream.publish subject_game_dead_letter body id j).0 ≡ ok ack
      → ack.duplicate ≡ false
      → (dlq.get_msg ack.sequence
          (dlq.open_stream (stream.publish subject_game_dead_letter body id j).1).1).0
        ≡ ok message
      → message
        ≡ record { sequence = ack.sequence; subject = subject_game_dead_letter; body = body }

pub publish_durable_ok :
    {J : Type 0} (stream : Stream J) (subject id : String) (body : Bytes) (ack : PublishAck) (j : J)
    → (publish_durable stream subject id body j).0 ≡ ok ack
    → publish_durable stream subject id body j ≡ stream.publish subject body id j
unfolding publish_durable
publish_durable_ok stream subject id body ack j h = elim (Bool-cases (id == "")) [
  | inl z ↦ absurd (ground arith)
  | inr p ↦
      let result = (stream.publish subject body id j).0 in
      let e : (publish_durable stream subject id body j).0
          ≡ map_err (wrap "durable publish") result =
        rw p refl in
      let fine : result ≡ ok ack = map_err_ok (wrap "durable publish") result ack (sym e ∙ h) in
      rw (p, fine) refl
]

module _ {J : Type 0} (stream : Stream J) (marshal : GameDeadLetterEvent → Result Bytes) where
  -- What an acknowledged dead letter went through.
  pub published_game_dead_letter :
      (event : GameDeadLetterEvent) (ack : PublishAck) (j : J)
      → (publish_game_dead_letter stream marshal event j).0 ≡ ok ack
      → (validate_game_dead_letter_event event ≡ none)
        × (body : Bytes) × (marshal event ≡ ok body)
        × (publish_game_dead_letter stream marshal event j
            ≡ stream.publish subject_game_dead_letter body (dead_letter_message_id event) j)
  unfolding publish_game_dead_letter publish_durable
  published_game_dead_letter event ack j h =
      elim (Option-cases (validate_game_dead_letter_event event)) [
        | inr (e, v) ↦ absurd (ground arith)
        | inl valid ↦ elim (Result-cases (marshal event)) [
          | inr (e, m) ↦ absurd (ground arith)
          | inl (body, m) ↦
              (let e : publish_game_dead_letter stream marshal event j
                    ≡ publish_durable stream subject_game_dead_letter (dead_letter_message_id event)
                        body j =
                  rw (valid, m, publish_game_dead_letter) refl in
                (
                  valid,
                  body,
                  m,
                  e
                      ∙ publish_durable_ok stream subject_game_dead_letter
                          (dead_letter_message_id event) body ack j
                          (ap (λ (r : Result PublishAck × J). r.0) (sym e) ∙ h),
                ))
        ]
      ]

module _ {J : Type 0} (stream : Stream J) (dlq : DeadLetterStream J)
    (laws : DeadLetterLaws stream dlq) (marshal : GameDeadLetterEvent → Result Bytes)
    (unmarshal : Bytes → Result GameDeadLetterEvent) (event : GameDeadLetterEvent)
    (decodes : (body : Bytes) → marshal event ≡ ok body → unmarshal body ≡ ok event) where
  -- A dead letter that was published and acknowledged as new is what `GetGameDeadLetter` returns for the
  -- sequence number of the acknowledgement, when the stream answers.
  pub get-publish_game_dead_letter :
      (ack : PublishAck) (message : StoredMessage) (j : J)
      → (publish_game_dead_letter stream marshal event j).0 ≡ ok ack
      → ack.duplicate ≡ false
      → (dlq.open_stream (publish_game_dead_letter stream marshal event j).1).0 ≡ ok tt
      → (dlq.get_msg ack.sequence
          (dlq.open_stream (publish_game_dead_letter stream marshal event j).1).1).0
        ≡ ok message
      → (get_game_dead_letter unmarshal dlq ack.sequence
          (publish_game_dead_letter stream marshal event j).1).0
        ≡ ok event
  unfolding get_game_dead_letter decode_message decode_game_dead_letter
  get-publish_game_dead_letter ack message j h new opened got =
      let p = published_game_dead_letter stream marshal event ack j h in
      let id = dead_letter_message_id event in
      let fine : (stream.publish subject_game_dead_letter p.1 id j).0 ≡ ok ack =
        ap (λ (r : Result PublishAck × J). r.0) (sym p.3) ∙ h in
      let same = laws.gets_published p.1 id j ack message fine new (rw (sym p.3) got) in
      let opened' : (dlq.open_stream (stream.publish subject_game_dead_letter p.1 id j).1).0
          ≡ ok tt =
        rw (sym p.3) opened in
      let got' : (dlq.get_msg ack.sequence
            (dlq.open_stream (stream.publish subject_game_dead_letter p.1 id j).1).1).0
          ≡ ok message =
        rw (sym p.3) got in
      rw (p.3, laws.acks_positive p.1 id j ack fine)
        (rw (opened', got', same) (rw (decodes p.1 p.2, p.0, decode_game_dead_letter) refl))
