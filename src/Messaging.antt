-- ===== src/Messaging.antt =====
-- internal/messaging: the durable publisher of jetstream.go and the subjects and names of events.go.
-- The JetStream server is not part of the program: a `Stream` is what its client offers and what the
-- code relies on, that a message which the server acknowledged is stored under its message id, and that
-- publishing removes no stored message. The children model the rest of the package.
pub mod DeadLetters
pub mod Consumer
pub mod Events
use lol_overlay.Prelude.{
  ℤ, ℕ, String, ◌≡◌, Bool, true, List, ◌==◌, if◌then◌else◌, Result, map_err, failure, wrap, ok, err,
}
use lol_overlay.Models.{Time}

abbrev pub subject_current_room_changed : String
subject_current_room_changed = "room.current.changed"

abbrev pub subject_room_updated : String
subject_room_updated = "room.updated"

abbrev pub subject_game_started : String
subject_game_started = "game.started"

abbrev pub subject_game_ended : String
subject_game_ended = "game.ended"

abbrev pub subject_game_dead_letter : String
subject_game_dead_letter = "dead.game"

abbrev pub consumer_game_events : String
consumer_game_events = "game-events-processor"

-- `EventMetadata` of durable_events.go
pub record EventMetadata : Type 0 where
  pub event_id : String
  pub occurred_at : Time
  pub version : ℤ

abbrev pub Bytes : Type 0
Bytes = List ℕ

pub record PublishAck : Type 0 where
  pub stream : String
  pub sequence : ℕ
  pub duplicate : Bool

pub record Stream (J : Type 0) : Type 0 where
  pub publish : String → Bytes → String → J → Result PublishAck × J
  pub stored : J → String → Bool

pub record StreamLaws {J : Type 0} (stream : Stream J) : Type 0 where
  pub ack_stored :
      (subject : String) (body : Bytes) (id : String) (j : J) (ack : PublishAck)
      → (stream.publish subject body id j).0 ≡ ok ack
      → stream.stored (stream.publish subject body id j).1 id ≡ true
  pub keeps_stored :
      (subject : String) (body : Bytes) (id : String) (j : J) (other : String)
      → stream.stored j other ≡ true
      → stream.stored (stream.publish subject body id j).1 other ≡ true

unfoldable pub publish_durable :
    {J : Type 0} → Stream J → String → String → Bytes → J → Result PublishAck × J
publish_durable stream subject message_id body j =
    if message_id == ""
    then (err (failure "durable message ID is required"), j)
    else (let (result, j') = stream.publish subject body message_id j in
        (map_err (wrap "durable publish") result, j'))
