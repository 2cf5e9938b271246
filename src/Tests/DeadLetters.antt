-- ===== src/Tests/DeadLetters.antt =====
-- Dead letters, the durable consumer and the replay over a small server (internal/messaging and
-- internal/services/dead_letter_replay_service.go).
use lol_overlay.Messaging.DeadLetters.{
  delete_game_dead_letter, decode_game_dead_letter, get_game_dead_letter, print_dead_letter_id,
  validate_game_dead_letter_event, GameDeadLetterEvent, publish_game_dead_letter, DeadLetterStream,
  StoredMessage,
}
use lol_overlay.Replay.{dead_letter_replay_message_id, validate_replay_event, ReplayEnv, replay}
use lol_overlay.GameEvents.{
  claim_event, is_claimed, write_session, apply_ended, process, process_game_ended,
  validate_game_event, Database, Transaction,
}
use lol_overlay.Messaging.Events.{set_byte, print_uuid, new_event_id, new_event_metadata}
use lol_overlay.Replay.Loss.{replay-Outcome, Outcome, ReplayLaws}
use lol_overlay.Messaging.DeadLetters.Store.{get-publish_game_dead_letter, DeadLetterLaws}
use lol_overlay.Replay.Wiring.{client_replay_laws, client_replay, ServerLaws}
use lol_overlay.GameEvents.Consumer.{validate_consumed_game_event, handle, GameMessage}
use lol_overlay.Messaging.Consumer.{
  nak_game_event, handle_game_event_failure, dead_lettered, retried, ConsumerEnv, Msg,
  consume_message,
}
use lol_overlay.Prelude.Decimals.{decimal}
use lol_overlay.GameEvents.Consumer.Settled.{settled_game_event, IsProcessed}
use lol_overlay.Messaging.Consumer.Disposal.{
  IsDeadLettered, consume_message-IsDisposed, ConsumerLaws, IsDisposed,
}
use lol_overlay.Messaging.{
  publish_durable, EventMetadata, Bytes, PublishAck, Stream, StreamLaws, subject_game_dead_letter,
}
use lol_overlay.Prelude.{
  ◌⊎◌, pos, [], ◌*◌, ◌∷◌, ◌≡◌, ℕ, suc, String, refl, Bool, true, false, ◌&&◌, ◌||◌, Option, none,
  some, arith, ◌==◌, eq_refl, nat_eq, if◌then◌else◌, Result, failure, ok, err, Exec,
}
use lol_overlay.Models.{second}

-- A server that never fails: the dead letters by their sequence numbers, the message ids of both streams,
-- and whether the one message that it delivers is settled.
record Server : Type 0 where
  mail : ℕ → Option StoredMessage
  ids : String → Bool
  next : ℕ
  done : Bool

abbrev new_server : Server
new_server = record { mail = λ n. none; ids = λ id. false; next = 0; done = false }

abbrev publish : String → Bytes → String → Server → Result PublishAck × Server
publish subject body id j = (
  ok (record { stream = "GAME_EVENTS"; sequence = suc j.next; duplicate = j.ids id }),
  record {
    mail = λ n.
        if nat_eq n (suc j.next) && subject == subject_game_dead_letter
        then some (record { sequence = suc j.next; subject = subject; body = body })
        else j.mail n;
    ids = λ other. other == id || j.ids other;
    next = suc j.next;
    done = j.done;
  },
)

abbrev stream : Stream Server
stream = record { publish = publish; stored = λ j id. j.ids id }

stream_laws : StreamLaws stream
stream_laws = record {
  ack_stored = λ subject body id j ack h. ground (arith, eq_refl id);
  keeps_stored = λ subject body id j other h. ground arith;
}

abbrev get_msg : ℕ → Exec Server StoredMessage
get_msg sequence j = elim (j.mail sequence) [
  | none ↦ (err (failure "message not found"), j)
  | some message ↦ (ok message, j)
]

abbrev dlq : DeadLetterStream Server
dlq = record {
  open_stream = λ j. (ok tt, j);
  get_msg = get_msg;
  get_last_msg_for_subject = λ subject j. get_msg j.next j;
  delete_msg =
      λ sequence j. (ok tt, record j { mail = λ n. if nat_eq n sequence then none else j.mail n });
}

abbrev kept : Server → ℕ → Bool
kept j n = elim (j.mail n) [ none ↦ false | some message ↦ true ]

server_laws : ServerLaws stream dlq kept
server_laws = record {
  stream_laws = stream_laws;
  publish_keeps = λ n subject id body j game. ground arith;
  open_keeps = λ n j. refl;
  open_stored = λ id j. refl;
  get_keeps = λ n sequence j. ground arith;
  delete_stored = λ sequence id j. refl;
  deletes = λ n sequence j h. ground arith;
}

dead_letter_laws : DeadLetterLaws stream dlq
dead_letter_laws = record {
  acks_positive = λ body id j ack h. ground arith;
  gets_published = λ body id j ack message h new got. ground arith;
}

-- The encoded dead letter is a fixed body.
abbrev metadata : EventMetadata
metadata = record { event_id = "d1"; occurred_at = 300 * second; version = pos 1 }

abbrev env : ConsumerEnv Server
env = record {
  double_ack = λ msg j. (ok tt, record j { done = true });
  nak_with_delay = λ msg delay j. (ok tt, j);
  term_with_reason = λ msg reason j. (ok tt, record j { done = true });
  new_event_metadata = λ j. (ok metadata, j);
  marshal = λ event. ok (1 ∷ []);
  error_text = λ e. "started game not found";
  stream = stream;
}

consumer_laws : ConsumerLaws env (λ msg j. j.done)
consumer_laws = record {
  stream_laws = stream_laws;
  metadata_keeps = λ msg j. refl;
  publish_keeps = λ msg subject body id j. refl;
  nak_keeps = λ msg delay j. refl;
  nak_stored = λ msg delay id j. refl;
  term_stored = λ msg reason id j. refl;
}

abbrev delivery : ℕ → Msg
delivery n = record {
  subject = "game.ended";
  body = 1 ∷ [];
  metadata = ok (record {
    num_delivered = n;
    stream = "GAME_EVENTS";
    stream_sequence = 12;
    consumer = "game-events-processor";
  });
}

abbrev refuse : String → Bytes → Exec ℕ (Unit {0})
refuse subject body n = (err (failure "started game not found"), n)

fourth_delivery : (consume_message env (delivery 4) refuse 0 new_server).0 ≡ retried
unfolding consume_message handle_game_event_failure nak_game_event
fourth_delivery = refl

fifth_delivery : (consume_message env (delivery 5) refuse 0 new_server).0 ≡ dead_lettered
unfolding consume_message publish_game_dead_letter validate_game_dead_letter_event publish_durable
    print_dead_letter_id handle_game_event_failure decimal
fifth_delivery = refl

consume_message-IsDisposed_example :
    IsDisposed env
      (λ msg j. j.done)
      consumer_laws
      refuse
      0
      (delivery 5)
      (
        (consume_message env (delivery 5) refuse 0 new_server).0,
        (consume_message env (delivery 5) refuse 0 new_server).2,
      )
consume_message-IsDisposed_example =
    consume_message-IsDisposed env (λ msg j. j.done) consumer_laws refuse 0 (delivery 5) new_server
      refl

-- Every body is this message, and every transaction succeeds.
abbrev message : GameMessage
message = record {
  event_id = "e1";
  occurred_at = 100 * second;
  version = pos 1;
  game_id = pos 7;
  room_id = "7-100";
}

abbrev unmarshal_game : Bytes → Result GameMessage
unmarshal_game body = ok message

abbrev calm : Transaction
calm = record {
  begin_fault = none;
  claim_fault = none;
  apply_fault = none;
  commit_fault = none;
  commit_kept = false;
  now = 200 * second;
  constraint_error = failure "check constraint";
}

abbrev no_games : Database
no_games = record { sessions = []; processed = [] }

settled :
    (consume_message env (delivery 5) (handle unmarshal_game calm) no_games new_server).2.done
    ≡ true
unfolding consume_message handle_game_event_failure publish_game_dead_letter
    validate_game_dead_letter_event publish_durable print_dead_letter_id decimal handle
    process_game_ended process apply_ended write_session validate_game_event is_claimed
    validate_consumed_game_event claim_event
settled = refl

-- The game is unknown, so that the handler fails, and the message is settled by its dead letter.
settled_game_event_example :
    IsProcessed unmarshal_game
      (1 ∷ [])
      (consume_message env (delivery 5) (handle unmarshal_game calm) no_games new_server).1
    ⊎ IsDeadLettered env
        (λ msg j. j.done)
        consumer_laws
        (handle unmarshal_game calm)
        no_games
        (delivery 5)
        (consume_message env (delivery 5) (handle unmarshal_game calm) no_games new_server).2
settled_game_event_example =
    settled_game_event env (λ msg j. j.done) consumer_laws unmarshal_game calm (delivery 5) no_games
      new_server refl settled

abbrev letter : GameDeadLetterEvent
letter = record {
  metadata = metadata;
  original_subject = "game.ended";
  original_payload = 1 ∷ [];
  error = "started game not found";
  delivery_count = 5;
  source_stream = "GAME_EVENTS";
  stream_sequence = 12;
  consumer = "game-events-processor";
}

-- The answer of the server to the dead letter.
abbrev answer : PublishAck
answer = record { stream = "GAME_EVENTS"; sequence = 1; duplicate = false }

posted : (publish_game_dead_letter stream (λ event. ok (1 ∷ [])) letter new_server).0 ≡ ok answer
unfolding publish_game_dead_letter validate_game_dead_letter_event publish_durable
    print_dead_letter_id decimal
posted = refl

abbrev unmarshal : Bytes → Result GameDeadLetterEvent
unmarshal body = ok letter

abbrev after_post : Server
after_post = (publish_game_dead_letter stream (λ event. ok (1 ∷ [])) letter new_server).1

got :
    (dlq.get_msg 1 after_post).0
    ≡ ok (record { sequence = 1; subject = "dead.game"; body = 1 ∷ [] })
unfolding publish_game_dead_letter validate_game_dead_letter_event publish_durable
    print_dead_letter_id decimal
got = refl

get-publish_game_dead_letter_example :
    (get_game_dead_letter unmarshal dlq 1
      (publish_game_dead_letter stream (λ event. ok (1 ∷ [])) letter new_server).1).0
    ≡ ok letter
get-publish_game_dead_letter_example =
    get-publish_game_dead_letter stream dlq dead_letter_laws (λ event. ok (1 ∷ [])) unmarshal letter
      (λ body h. refl) answer (record { sequence = 1; subject = "dead.game"; body = 1 ∷ [] })
      new_server posted refl refl got

-- The replay of the one dead letter.
abbrev with_letter : Server
with_letter = record new_server {
  mail = λ n.
      if nat_eq n 1
      then some (record { sequence = 1; subject = "dead.game"; body = 1 ∷ [] })
      else none;
  next = 1;
}

abbrev replay_env : ReplayEnv Server
replay_env = client_replay stream dlq unmarshal (λ body. true)

client_replay_laws_example : ReplayLaws replay_env kept (λ j id. j.ids id)
client_replay_laws_example = client_replay_laws stream dlq unmarshal (λ body. true) kept server_laws

replay_laws : ReplayLaws replay_env kept (λ j id. j.ids id)
replay_laws = client_replay_laws stream dlq unmarshal (λ body. true) kept server_laws

replayed : (replay replay_env 1 with_letter).0.error ≡ none
unfolding replay get_game_dead_letter decode_game_dead_letter validate_game_dead_letter_event
    validate_replay_event publish_durable dead_letter_replay_message_id decimal
    delete_game_dead_letter
replayed = refl

replay-Outcome_example :
    Outcome replay_env kept
      (λ j id. j.ids id)
      replay_laws
      1
      with_letter
      (replay replay_env 1 with_letter).0.error
      (replay replay_env 1 with_letter).1
replay-Outcome_example = replay-Outcome replay_env kept (λ j id. j.ids id) replay_laws 1 with_letter

-- New metadata from 16 bytes.
abbrev random : Bytes
random = 0 ∷ 1 ∷ 2 ∷ 3 ∷ 4 ∷ 5 ∷ 255 ∷ 7 ∷ 255 ∷ 9 ∷ 10 ∷ 11 ∷ 12 ∷ 13 ∷ 14 ∷ 15 ∷ []

abbrev new_metadata : EventMetadata
new_metadata = record {
  event_id = "00010203-0405-4f07-bf09-0a0b0c0d0e0f";
  occurred_at = 5 * second;
  version = pos 1;
}

made : new_event_metadata (5 * second) (ok random) ≡ ok new_metadata
unfolding new_event_metadata new_event_id print_uuid set_byte
made = refl
