-- ===== src/Messaging/DeadLetters.antt =====
-- internal/messaging/dead_letter_events.go, dead_letter_publisher.go and dead_letter_store.go. The stream
-- of the dead letters is an argument, `DeadLetterStream`, and so are `json.Marshal` and `json.Unmarshal`.
pub mod Store
use lol_overlay.Prelude.{
  ℕ, zero, suc, ◌+◌, ◌-◌, ◌*◌, ◌/◌, ◌%◌, ◌^◌, ◌≤◌, ◌<◌, min, String, ◌≡◌, refl, sym, ap, ◌∙◌,
  fun_ext, ◌≢◌, ◌↔◌, ◌⊎◌, inl, inr, Bool, true, false, not, ◌&&◌, ◌||◌, Option, none, some, List,
  [], ◌∷◌, map, arith, ◌==◌, eq_iff, eq_refl, ltb, leb, nat_eq, if◌then◌else◌, ℤ, int_eq,
  is_positive, Bool-cases, Option-cases, pos, negsuc, All, length, length-append, take, drop, find,
  modify_first, All-append, Error, Result, map_err, Result-cases, failure, wrap, ok, err, Exec,
  pure, wrapping, continue, ◌>>=◌, ◌>>◌,
}
use lol_overlay.Prelude.Decimals.{decimal}
use Prim.Native.String.{◌++◌}
use lol_overlay.Models.{is_zero}
use lol_overlay.Messaging.{
  Bytes, EventMetadata, PublishAck, Stream, publish_durable, subject_game_dead_letter,
}

pub record GameDeadLetterEvent : Type 0 where
  pub metadata : EventMetadata
  pub original_subject : String
  pub original_payload : Bytes
  pub error : String
  pub delivery_count : ℕ
  pub source_stream : String
  pub stream_sequence : ℕ
  pub consumer : String

-- `none` is the nil error.
unfoldable pub validate_game_dead_letter_event : GameDeadLetterEvent → Option Error
validate_game_dead_letter_event event =
    if event.metadata.event_id == ""
    then some (failure "event ID is required")
    else if is_zero event.metadata.occurred_at
    then some (failure "occurredAt is required")
    else if not (is_positive event.metadata.version)
    then some (failure "event version must be positive")
    else if event.original_subject == ""
    then some (failure "original subject is required")
    else if event.error == ""
    then some (failure "error is required")
    else if nat_eq event.delivery_count 0
    then some (failure "delivery count must be positive")
    else if event.source_stream == ""
    then some (failure "source stream is required")
    else if nat_eq event.stream_sequence 0
    then some (failure "stream sequence must be positive")
    else if event.consumer == ""
    then some (failure "consumer is required")
    else none

-- "%s:%d:%s"
unfoldable pub print_dead_letter_id : String → ℕ → String → String
print_dead_letter_id source_stream stream_sequence consumer =
    source_stream ++ (String.◌∷◌ ":" (decimal stream_sequence (String.◌∷◌ ":" consumer)))

abbrev pub dead_letter_message_id : GameDeadLetterEvent → String
dead_letter_message_id event =
    print_dead_letter_id event.source_stream event.stream_sequence event.consumer

unfoldable pub publish_game_dead_letter :
    {J : Type 0}
    → Stream J
    → (GameDeadLetterEvent → Result Bytes)
    → GameDeadLetterEvent
    → Exec J PublishAck
publish_game_dead_letter stream marshal event j = elim (validate_game_dead_letter_event event) [
  | some e ↦ (err (wrap "validate game dead-letter event" e), j)
  | none ↦ elim (marshal event) [
    | err e ↦ (err (wrap "marshal game dead-letter event" e), j)
    | ok body ↦
        publish_durable stream subject_game_dead_letter (dead_letter_message_id event) body j
  ]
]

-- A message that the stream gives back.
pub record StoredMessage : Type 0 where
  pub sequence : ℕ
  pub subject : String
  pub body : Bytes

pub record DeadLetterStream (J : Type 0) : Type 0 where
  -- `jetStream.Stream(ctx, StreamGameEventsDLQ)`
  pub open_stream : Exec J (Unit {0})
  pub get_msg : ℕ → Exec J StoredMessage
  pub get_last_msg_for_subject : String → Exec J StoredMessage
  pub delete_msg : ℕ → Exec J (Unit {0})

pub record GameDeadLetterRecord : Type 0 where
  pub sequence : ℕ
  pub event : GameDeadLetterEvent

module _ (unmarshal : Bytes → Result GameDeadLetterEvent) where
  unfoldable pub decode_game_dead_letter : ℕ → String → Bytes → Result GameDeadLetterEvent
  decode_game_dead_letter sequence subject body =
      if not (subject == subject_game_dead_letter)
      then err (failure "unexpected dead-letter subject")
      else elim (unmarshal body) [
        | err e ↦ err (wrap "decode dead-letter message" e)
        | ok event ↦ elim (validate_game_dead_letter_event event) [
          | some e ↦ err (wrap "validate dead-letter message" e)
          | none ↦ ok event
        ]
      ]

  unfoldable pub decode_message : {J : Type 0} → StoredMessage → Exec J GameDeadLetterEvent
  decode_message message j =
      (decode_game_dead_letter message.sequence message.subject message.body, j)

  module _ {J : Type 0} (dlq : DeadLetterStream J) where
    unfoldable pub get_game_dead_letter : ℕ → Exec J GameDeadLetterEvent
    unfolding decode_message
    get_game_dead_letter sequence j =
        if nat_eq sequence 0
        then (err (failure "dead-letter sequence must be positive"), j)
        else (wrapping "get dead-letter stream" dlq.open_stream
              >> (wrapping "get dead-letter message" (dlq.get_msg sequence) >>= decode_message))
            j

    to_record : StoredMessage → Exec J GameDeadLetterRecord
    unfolding decode_message
    to_record message = decode_message message >>= λ event.
        pure (record { sequence = message.sequence; event = event })

    unfoldable pub get_last_game_dead_letter : Exec J GameDeadLetterRecord
    unfolding to_record
    get_last_game_dead_letter =
        wrapping "get dead-letter stream" dlq.open_stream
        >> (wrapping "get latest dead-letter message"
              (dlq.get_last_msg_for_subject subject_game_dead_letter)
            >>= to_record)

unfoldable pub delete_game_dead_letter : {J : Type 0} → DeadLetterStream J → ℕ → Exec J (Unit {0})
delete_game_dead_letter dlq sequence j =
    if nat_eq sequence 0
    then (err (failure "dead-letter sequence must be positive"), j)
    else (wrapping "get dead-letter stream" dlq.open_stream
          >> wrapping "delete dead-letter message" (dlq.delete_msg sequence))
        j
