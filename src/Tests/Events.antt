-- ===== src/Tests/Events.antt =====
-- Game events in the tables (internal/consumers/game_consumer.go and
-- internal/repositories/postgres/gameevent/repository.go).
use lol_overlay.Cleanup.Recent.{cleanup-once}
use lol_overlay.Cleanup.{delete_processed_before, cleanup_processed, day}
use lol_overlay.GameEvents.Consumer.{validate_consumed_game_event, GameMessage, handle}
use lol_overlay.GameEvents.{
  is_claimed, GameEvent, Transaction, Database, process_game_started, process_game_ended, process,
  apply_started, apply_ended, write_session, validate_game_event,
}
use lol_overlay.Prelude.{
  ◌*◌, ◌≡◌, refl, ◌⊎◌, true, false, none, some, [], ◌∷◌, pos, length, Result, failure, ok,
}
use mathlib.Core.List.{Memᴰ}
use lol_overlay.Models.{second}
use lol_overlay.Messaging.{Bytes}
use lol_overlay.GameEvents.Delivery.{Outcome, process_game-Outcome}
use lol_overlay.GameEvents.Consumer.Once.{deliver_all, deliver_all_once}

abbrev message : GameMessage
message = record {
  event_id = "e1";
  occurred_at = 100 * second;
  version = pos 1;
  game_id = pos 7;
  room_id = "7-100";
}

-- Every body is this message.
abbrev unmarshal : Bytes → Result GameMessage
unmarshal body = ok message

abbrev calm : Transaction
calm = record {
  begin_fault = none;
  claim_fault = none;
  apply_fault = none;
  commit_fault = none;
  commit_kept = false;
  now = 200 * second;
  constraint_error = failure "check constraint";
}

-- The commit takes effect, but its answer is lost.
abbrev lost_answer : Transaction
lost_answer = record calm { commit_fault = some (failure "connection closed"); commit_kept = true }

abbrev no_games : Database
no_games = record { sessions = []; processed = [] }

abbrev started : GameEvent
started = record {
  consumer_name = "game-events-processor";
  event_id = "e1";
  subject = "game.started";
  game_id = pos 7;
  room_id = "7-100";
  occurred_at = 100 * second;
}

lost_answer_started :
    length (handle unmarshal lost_answer "game.started" [] no_games).1.sessions ≡ 1
unfolding handle process_game_started process apply_started validate_game_event is_claimed
    validate_consumed_game_event
lost_answer_started = refl

ended_unknown : (handle unmarshal calm "game.ended" [] no_games).1 ≡ no_games
unfolding handle process_game_ended process apply_ended write_session validate_game_event is_claimed
    validate_consumed_game_event
ended_unknown = refl

process_game-Outcome_example :
    Outcome
      (apply_started calm started)
      calm
      started
      no_games
      (process_game_started calm started no_games)
    × Outcome
        (apply_ended calm started)
        calm
        started
        no_games
        (process_game_ended calm started no_games)
process_game-Outcome_example = process_game-Outcome calm started no_games

deliver_all_once_example :
    (deliver_all unmarshal "game.started" [] (lost_answer ∷ calm ∷ []) no_games ≡ no_games)
    ⊎ ((tx : Transaction) × Memᴰ tx (lost_answer ∷ calm ∷ [])
        × (deliver_all unmarshal "game.started" [] (lost_answer ∷ calm ∷ []) no_games
            ≡ (handle unmarshal tx "game.started" [] no_games).1))
deliver_all_once_example =
    deliver_all_once unmarshal "game.started" [] (lost_answer ∷ calm ∷ []) no_games

-- The event was claimed three days before the cleanup, and another one a year before.
abbrev two_claims : Database
two_claims = record {
  sessions = [];
  processed =
      record {
        consumer_name = "game-events-processor";
        event_id = "e1";
        subject = "game.started";
        processed_at = 397 * day;
      }
      ∷ record {
        consumer_name = "game-events-processor";
        event_id = "e0";
        subject = "game.started";
        processed_at = 35 * day;
      }
      ∷ [];
}

one_deleted : (cleanup_processed none (400 * day) two_claims).0 ≡ ok 1
unfolding cleanup_processed delete_processed_before
one_deleted = refl

cleanup-once_example :
    ((process_game_started calm started (cleanup_processed none (400 * day) two_claims).1).1
      ≡ (cleanup_processed none (400 * day) two_claims).1)
    × ((process_game_ended calm started (cleanup_processed none (400 * day) two_claims).1).1
        ≡ (cleanup_processed none (400 * day) two_claims).1)
cleanup-once_example = cleanup-once none (400 * day) calm started two_claims refl
