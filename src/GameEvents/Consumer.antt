-- ===== src/GameEvents/Consumer.antt =====
-- internal/consumers/game_consumer.go: one delivered message.
pub mod Once
pub mod Settled
use lol_overlay.Prelude.{
  String, Bool, not, Option, none, some, ◌==◌, if◌then◌else◌, ℤ, is_positive, Error, Result,
  failure, wrap, ok, err,
}
use lol_overlay.Models.{Time, is_zero}
use lol_overlay.Messaging.{Bytes, subject_game_started, subject_game_ended, consumer_game_events}
use lol_overlay.GameEvents.{
  GameEvent, Transaction, Database, process_game_started, process_game_ended,
}

-- `GameStartedEvent` and `GameEndedEvent` of internal/messaging/durable_events.go, with the fields of
-- `EventMetadata`.
pub record GameMessage : Type 0 where
  pub event_id : String
  pub occurred_at : Time
  pub version : ℤ
  pub game_id : ℤ
  pub room_id : String

unfoldable pub validate_consumed_game_event : GameMessage → Option Error
validate_consumed_game_event message =
    if message.event_id == ""
    then some (failure "event ID is required")
    else if is_zero message.occurred_at
    then some (failure "occurredAt is required")
    else if not (is_positive message.version)
    then some (failure "event version must be positive")
    else if not (is_positive message.game_id)
    then some (failure "game ID must be positive")
    else if message.room_id == ""
    then some (failure "room ID is required")
    else none

abbrev pub to_repository_game_event : String → GameMessage → GameEvent
to_repository_game_event subject message = record {
  consumer_name = consumer_game_events;
  event_id = message.event_id;
  subject = subject;
  game_id = message.game_id;
  room_id = message.room_id;
  occurred_at = message.occurred_at;
}

-- A duplicate and an event that was processed both acknowledge the message.
after_process : String → Result Bool × Database → Result (Unit {0}) × Database
after_process text (err e, db) = (err (wrap text e), db)
after_process text (ok processed, db) = (ok tt, db)

-- The shape that the two handlers share.
handle_message :
    String
    → String
    → String
    → String
    → (GameEvent → Database → Result Bool × Database)
    → Result GameMessage
    → Database
    → Result (Unit {0}) × Database
unfolding after_process
handle_message decode_text validate_text process_text subject process (err e) db =
    (err (wrap decode_text e), db)
handle_message decode_text validate_text process_text subject process (ok message) db =
    elim (validate_consumed_game_event message) [
      | some e ↦ (err (wrap validate_text e), db)
      | none ↦ after_process process_text (process (to_repository_game_event subject message) db)
    ]

-- `Handle`, where `unmarshal` is `json.Unmarshal` into a `GameMessage`.
unfoldable pub handle :
    (Bytes → Result GameMessage)
    → Transaction
    → String
    → Bytes
    → Database
    → Result (Unit {0}) × Database
unfolding handle_message
handle unmarshal tx subject body db =
    if subject == subject_game_started
    then handle_message "decode game started event" "validate game started event"
        "process game started event" subject_game_started (process_game_started tx) (unmarshal body)
        db
    else if subject == subject_game_ended
    then handle_message "decode game ended event" "validate game ended event"
        "process game ended event" subject_game_ended (process_game_ended tx) (unmarshal body) db
    else (err (failure "unsupported game event subject"), db)
