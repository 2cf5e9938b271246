-- ===== src/Replay.antt =====
-- internal/services/dead_letter_replay_service.go. The store of the dead letters, the publisher and
-- `json.Valid` are an interface over the state of the world, `ReplayEnv`. The outcome that is counted is
-- "replayed" where the error is nil.
pub mod Loss
pub mod Wiring
use lol_overlay.Prelude.{
  false, true, ◌||◌, ℕ, String, ◌≡◌, Bool, not, Option, some, none, List, [], ◌∷◌, ◌==◌, nat_eq,
  if◌then◌else◌, Error, Result, ok, err, failure, wrap, Exec,
}
use lol_overlay.Prelude.Decimals.{decimal}
use Prim.Native.String.{◌++◌}
use lol_overlay.Messaging.{Bytes, PublishAck, subject_game_started, subject_game_ended}
use lol_overlay.Messaging.DeadLetters.{GameDeadLetterEvent}

-- The interfaces `GameDeadLetterStore` and `DeadLetterReplayPublisher`; the acknowledgement may be nil.
pub record ReplayEnv (W : Type 0) : Type 0 where
  pub get_game_dead_letter : ℕ → Exec W GameDeadLetterEvent
  pub delete_game_dead_letter : ℕ → Exec W (Unit {0})
  pub publish_durable : String → String → Bytes → Exec W (Option PublishAck)
  pub valid_json : Bytes → Bool

pub record DeadLetterReplayResult : Type 0 where
  pub sequence : ℕ
  pub event_id : String
  pub subject : String
  pub duplicate : Bool

-- What `Replay` returns; it may return a result beside an error.
pub record Replayed : Type 0 where
  pub result : DeadLetterReplayResult
  pub error : Option Error

abbrev pub no_result : DeadLetterReplayResult
no_result = record { sequence = 0; event_id = ""; subject = ""; duplicate = false }

-- "dlq-replay:%s:%d"
unfoldable pub dead_letter_replay_message_id : GameDeadLetterEvent → ℕ → String
dead_letter_replay_message_id event sequence =
    "dlq-replay:" ++ (event.metadata.event_id ++ (String.◌∷◌ ":" (decimal sequence "")))

abbrev is_empty : Bytes → Bool
is_empty [] = true
is_empty (x ∷ xs) = false

module _ {W : Type 0} (env : ReplayEnv W) where
  -- `none` is the nil error.
  unfoldable pub validate_replay_event : GameDeadLetterEvent → Option Error
  validate_replay_event event =
      if event.original_subject == subject_game_started
        || event.original_subject == subject_game_ended
      then (if is_empty event.original_payload
          then some (failure "original payload is required")
          else if env.valid_json event.original_payload
          then none
          else some (failure "original payload must be valid JSON"))
      else some (failure "unsupported original subject")

  module _ (sequence : ℕ) where
    failed : String → Error → W → Replayed × W
    failed text e w = (record { result = no_result; error = some (wrap text e) }, w)

    after_delete : DeadLetterReplayResult → Result (Unit {0}) → W → Replayed × W
    after_delete result (ok _) w = (record { result = result; error = none }, w)
    after_delete result (err e) w =
        (record { result = result; error = some (wrap "delete replayed dead-letter message" e) }, w)

    after_publish : GameDeadLetterEvent → Result (Option PublishAck) → W → Replayed × W
    unfolding after_delete failed
    after_publish event (err e) w = failed "republish dead-letter message" e w
    after_publish event (ok none) w = (
      record {
        result = no_result;
        error = some (failure "republish dead-letter message returned no acknowledgement");
      },
      w,
    )
    after_publish event (ok (some ack)) w =
        let (deleted, w') = env.delete_game_dead_letter sequence w in
        after_delete
          (record {
            sequence = sequence;
            event_id = event.metadata.event_id;
            subject = event.original_subject;
            duplicate = ack.duplicate;
          })
          deleted w'

    after_get : Result GameDeadLetterEvent → W → Replayed × W
    unfolding after_publish failed
    after_get (err e) w = failed "load dead-letter message" e w
    after_get (ok event) w = elim (validate_replay_event event) [
      | some e ↦ failed "validate dead-letter message for replay" e w
      | none ↦
          let (published, w') =
            env.publish_durable event.original_subject
              (dead_letter_replay_message_id event sequence) event.original_payload w in
          after_publish event published w'
    ]

    unfoldable pub replay : W → Replayed × W
    unfolding after_get
    replay w =
        if nat_eq sequence 0
        then (
          record {
            result = no_result;
            error = some (failure "dead-letter sequence must be positive");
          },
          w,
        )
        else (let (event, w') = env.get_game_dead_letter sequence w in after_get event w')
