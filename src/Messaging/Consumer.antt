-- ===== src/Messaging/Consumer.antt =====
-- internal/messaging/jetstream_consumer.go: what the durable consumer does with one delivered message.
-- The server is an interface over its state, `ConsumerEnv`, and the handler acts on a state of its own. The outcome is
-- the label under which the delivery is counted.
pub mod Disposal
use lol_overlay.Prelude.{ℕ, ◌*◌, String, ltb, if◌then◌else◌, Error, Result, ok, err, Exec}
use lol_overlay.Models.{second}
use lol_overlay.Messaging.{Bytes, EventMetadata, PublishAck, Stream}
use lol_overlay.Messaging.DeadLetters.{GameDeadLetterEvent, publish_game_dead_letter}

pub record MsgMetadata : Type 0 where
  pub num_delivered : ℕ
  pub stream : String
  pub stream_sequence : ℕ
  pub consumer : String

pub record Msg : Type 0 where
  pub subject : String
  pub body : Bytes
  pub metadata : Result MsgMetadata

pub data DeliveryOutcome : Type 0 where
  acked : DeliveryOutcome
  ack_error : DeliveryOutcome
  dead_lettered : DeliveryOutcome
  retried : DeliveryOutcome
  retry_error : DeliveryOutcome

abbrev pub game_event_max_deliver : ℕ
game_event_max_deliver = 5

abbrev pub game_event_retry_delay : ℕ
game_event_retry_delay = 5 * second

abbrev pub dead_letter_term_reason : String
dead_letter_term_reason = "moved to GAME_EVENTS_DLQ"

pub record ConsumerEnv (W : Type 0) : Type 0 where
  pub double_ack : Msg → Exec W (Unit {0})
  pub nak_with_delay : Msg → ℕ → Exec W (Unit {0})
  pub term_with_reason : Msg → String → Exec W (Unit {0})
  -- `NewEventMetadata()`
  pub new_event_metadata : Exec W EventMetadata
  pub marshal : GameDeadLetterEvent → Result Bytes
  -- `err.Error()`
  pub error_text : Error → String
  pub stream : Stream W

abbrev pub dead_letter_of :
    (Error → String) → Msg → Error → MsgMetadata → EventMetadata → GameDeadLetterEvent
dead_letter_of error_text msg processing_err metadata event_metadata = record {
  metadata = event_metadata;
  original_subject = msg.subject;
  original_payload = msg.body;
  error = error_text processing_err;
  delivery_count = metadata.num_delivered;
  source_stream = metadata.stream;
  stream_sequence = metadata.stream_sequence;
  consumer = metadata.consumer;
}

module _ {W : Type 0} (env : ConsumerEnv W) (msg : Msg) where
  nak_outcome : Result (Unit {0}) → DeliveryOutcome
  nak_outcome (ok _) = retried
  nak_outcome (err e) = retry_error

  unfoldable pub nak_game_event : W → DeliveryOutcome × W
  unfolding nak_outcome
  nak_game_event w =
      let (result, w') = env.nak_with_delay msg game_event_retry_delay w in (nak_outcome result, w')

  -- What follows each call of `handleGameEventFailure`, the last one first.
  after_term : Result (Unit {0}) → W → DeliveryOutcome × W
  after_term (ok _) w = (dead_lettered, w)
  after_term (err e) w = nak_game_event w

  after_publish : Result PublishAck → W → DeliveryOutcome × W
  unfolding after_term
  after_publish (ok ack) w =
      let (result, w') = env.term_with_reason msg dead_letter_term_reason w in after_term result w'
  after_publish (err e) w = nak_game_event w

  after_metadata : Error → MsgMetadata → Result EventMetadata → W → DeliveryOutcome × W
  unfolding after_publish
  after_metadata processing_err metadata (ok event_metadata) w =
      let (result, w') =
        publish_game_dead_letter env.stream env.marshal
          (dead_letter_of env.error_text msg processing_err metadata event_metadata) w in
      after_publish result w'
  after_metadata processing_err metadata (err e) w = nak_game_event w

  after_read : Error → Result MsgMetadata → W → DeliveryOutcome × W
  unfolding after_metadata
  after_read processing_err (err e) w = nak_game_event w
  after_read processing_err (ok metadata) w =
      if ltb metadata.num_delivered game_event_max_deliver
      then nak_game_event w
      else (let (result, w') = env.new_event_metadata w in
          after_metadata processing_err metadata result w')

  unfoldable pub handle_game_event_failure : Error → W → DeliveryOutcome × W
  unfolding after_read
  handle_game_event_failure processing_err w = after_read processing_err msg.metadata w

  ack_outcome : Result (Unit {0}) → DeliveryOutcome
  ack_outcome (ok _) = acked
  ack_outcome (err e) = ack_error

  after_handler : Result (Unit {0}) → W → DeliveryOutcome × W
  unfolding ack_outcome
  after_handler (ok _) w = let (result, w') = env.double_ack msg w in (ack_outcome result, w')
  after_handler (err e) w = handle_game_event_failure e w

  -- The callback of `Consume`; `D` is what the handler acts on.
  unfoldable pub consume_message :
      {D : Type 0} → (String → Bytes → Exec D (Unit {0})) → D → W → DeliveryOutcome × D × W
  unfolding after_handler
  consume_message handler d w =
      let (result, d') = handler msg.subject msg.body d in
      let (outcome, w') = after_handler result w in (outcome, d', w')
