-- ===== src/Replay/Loss.antt =====
-- What a replay does to the stored dead letters.
use lol_overlay.Prelude.{
  arith, eq_iff, false, ◌==◌, ℕ, String, ◌≡◌, refl, ap, ◌∙◌, ◌⊎◌, inl, inr, Bool, true, not, ◌&&◌,
  Option, none, some, nat_eq, Bool-cases, Option-cases, Error, Result-cases, ok,
}
use lol_overlay.Messaging.{
  subject_game_dead_letter, subject_game_started, subject_game_ended, Bytes, PublishAck,
}
use lol_overlay.Messaging.DeadLetters.{GameDeadLetterEvent}
use lol_overlay.Replay.{
  ReplayEnv, DeadLetterReplayResult, validate_replay_event, dead_letter_replay_message_id, failed,
  after_delete, after_publish, after_get, replay,
}

valid-subject :
    {W : Type 0} (env : ReplayEnv W) (event : GameDeadLetterEvent)
    → validate_replay_event env event ≡ none
    → (event.original_subject == subject_game_dead_letter) ≡ false
unfolding validate_replay_event
valid-subject env event valid = elim (Bool-cases (event.original_subject == subject_game_started)) [
  | inl s ↦ rw ((eq_iff event.original_subject subject_game_started).0 s) refl
  | inr s ↦ elim (Bool-cases (event.original_subject == subject_game_ended)) [
    | inl t ↦ rw ((eq_iff event.original_subject subject_game_ended).0 t) refl
    | inr t ↦ absurd (ground arith)
  ]
]

-- What the code relies on: `kept w n` is whether the dead letter `n` is in the store, `stored w id` whether
-- a message was stored under the id. No dead letter expires between the calls.
pub record ReplayLaws {W : Type 0} (env : ReplayEnv W) (kept : W → ℕ → Bool)
    (stored : W → String → Bool) : Type 0 where
  pub get_keeps :
      (n sequence : ℕ) (w : W) → kept (env.get_game_dead_letter sequence w).1 n ≡ kept w n
  pub publish_keeps :
      (n : ℕ) (subject id : String) (body : Bytes) (w : W)
      → (subject == subject_game_dead_letter) ≡ false
      → kept (env.publish_durable subject id body w).1 n ≡ kept w n
  pub ack_stored :
      (subject id : String) (body : Bytes) (w : W) (ack : PublishAck)
      → (env.publish_durable subject id body w).0 ≡ ok (some ack)
      → stored (env.publish_durable subject id body w).1 id ≡ true
  pub delete_stored :
      (sequence : ℕ) (id : String) (w : W)
      → stored (env.delete_game_dead_letter sequence w).1 id ≡ stored w id
  pub deletes :
      (n sequence : ℕ) (w : W)
      → (env.delete_game_dead_letter sequence w).0 ≡ ok tt
      → kept (env.delete_game_dead_letter sequence w).1 n ≡ kept w n && not (nat_eq n sequence)

module _ {W : Type 0} (env : ReplayEnv W) (kept : W → ℕ → Bool) (stored : W → String → Bool)
    (laws : ReplayLaws env kept stored) (sequence : ℕ) where
  -- The dead letter was loaded and valid, the publication of its payload under its subject and the id of the
  -- replay was acknowledged, and a message is stored under that id.
  abbrev pub IsRepublished : W → W → Type 0
  IsRepublished before after =
      (event : GameDeadLetterEvent) × ((env.get_game_dead_letter sequence before).0 ≡ ok event)
      × (validate_replay_event env event ≡ none)
      × (let loaded = (env.get_game_dead_letter sequence before).1 in
          let id = dead_letter_replay_message_id event sequence in
          (ack : PublishAck) × ((env.publish_durable event.original_subject id
              event.original_payload loaded).0
            ≡ ok (some ack))
          × (stored after id ≡ true))

  abbrev pub KeepsAll : W → W → Type 0
  KeepsAll before after = (n : ℕ) → kept after n ≡ kept before n

  abbrev pub Outcome : W → Option Error → W → Type 0
  Outcome before none after =
      IsRepublished before after
      × ((n : ℕ) → kept after n ≡ kept before n && not (nat_eq n sequence))
  Outcome before (some e) after = KeepsAll before after ⊎ IsRepublished before after

  after_delete-Outcome :
      (before w : W) (result : DeadLetterReplayResult)
      → IsRepublished before w
      → KeepsAll before w
      → Outcome before
          (after_delete env sequence result
            (env.delete_game_dead_letter sequence w).0
            (env.delete_game_dead_letter sequence w).1).0.error
          (after_delete env sequence result
            (env.delete_game_dead_letter sequence w).0
            (env.delete_game_dead_letter sequence w).1).1
  unfolding after_delete
  after_delete-Outcome before w result again keeps =
      let after = (env.delete_game_dead_letter sequence w).1 in
      let again' : IsRepublished before after = (
        again.0,
        again.1,
        again.2,
        (
          again.3.0,
          again.3.1,
          laws.delete_stored sequence (dead_letter_replay_message_id again.0 sequence) w
              ∙ again.3.2,
        ),
      ) in
      elim (Result-cases (env.delete_game_dead_letter sequence w).0) [
        | inl (u, d) ↦ rw d (
          again',
          λ n.
              laws.deletes n sequence w d
              ∙ ap (λ (b : Bool). b && not (nat_eq n sequence)) (keeps n),
        )
        | inr (e, d) ↦ rw d (inr again')
      ]

  after_publish-Outcome :
      (before : W) (event : GameDeadLetterEvent)
      → (env.get_game_dead_letter sequence before).0 ≡ ok event
      → validate_replay_event env event ≡ none
      → KeepsAll before (env.get_game_dead_letter sequence before).1
      → (let w = (env.get_game_dead_letter sequence before).1 in
          let published =
            env.publish_durable event.original_subject
              (dead_letter_replay_message_id event sequence)
              event.original_payload
              w in
          let returned = after_publish env sequence event published.0 published.1 in
          Outcome before returned.0.error returned.1)
  unfolding after_publish failed
  after_publish-Outcome before event loaded valid keeps =
      let w = (env.get_game_dead_letter sequence before).1 in
      let id = dead_letter_replay_message_id event sequence in
      let published = env.publish_durable event.original_subject id event.original_payload w in
      let keeps' : KeepsAll before published.1 = λ n.
        laws.publish_keeps n event.original_subject id event.original_payload w
          (valid-subject env event valid)
        ∙ keeps n in
      elim (Result-cases published.0) [
        | inr (e, p) ↦ rw p (inl keeps')
        | inl (a, p) ↦ elim (Option-cases a) [
          | inl q ↦ rw (p, q) (inl keeps')
          | inr (ack, q) ↦
              let acked = p ∙ ap ok q in
              let stored_again =
                laws.ack_stored event.original_subject id event.original_payload w ack acked in
              rw (p, q)
                (after_delete-Outcome before published.1 _
                  (event, loaded, valid, (ack, acked, stored_again)) keeps')
        ]
      ]

  -- When a replay returns no error, the dead letter was loaded and valid, the publication of its payload
  -- under its subject and the id of the replay was acknowledged, a message is stored under that id, and it
  -- is the one dead letter that is gone. After an error every dead letter is kept, or its payload was
  -- published and acknowledged in that way.
  pub replay-Outcome : (w : W) → Outcome w (replay env sequence w).0.error (replay env sequence w).1
  unfolding replay after_get failed
  replay-Outcome w = elim (Bool-cases (nat_eq sequence 0)) [
    | inl z ↦ rw z (inl (λ n. refl))
    | inr p ↦
        let got = env.get_game_dead_letter sequence w in
        let keeps : KeepsAll w got.1 = λ n. laws.get_keeps n sequence w in
        elim (Result-cases got.0) [
          | inr (e, g) ↦ rw (p, g) (inl keeps)
          | inl (event, g) ↦ elim (Option-cases (validate_replay_event env event)) [
            | inr (e, v) ↦ rw (p, g, v, after_get) (inl keeps)
            | inl v ↦ rw (p, g, v, after_get) (after_publish-Outcome w event g v keeps)
          ]
        ]
  ]
