-- ===== src/Tests/Outboxes.antt =====
-- A small outbox (internal/repositories/postgres/outbox/repository.go and
-- internal/services/outbox_relay_service.go).
use lol_overlay.Prelude.{
  ◌/◌, Bool-cases, inl, inr, ◌*◌, ◌^◌, ◌≤◌, min, String, ◌≡◌, refl, Bool, true, false, ◌||◌, none,
  List, [], ◌∷◌, map, arith, ◌==◌, eq_iff, eq_refl, length, Error, failure, ok, err,
}
use lol_overlay.Models.{Time}
use lol_overlay.Outbox.Relay.{relay_event, relay_events, relay_once}
use mathlib.Core.Path.{subst}
use lol_overlay.Outbox.{
  has_id, Json, Row, Table, OutboxEvent, claim_pending, candidates, select_rows, is_candidate,
  mark_published, mark_failed, contains_id, count_rows, update_rows, to_event,
}
use lol_overlay.Messaging.{Stream, StreamLaws, publish_durable}
use lol_overlay.Outbox.Table.{UniqueIds}
use lol_overlay.Outbox.Claims.{Takes, claim-Takes_oldest}
use lol_overlay.Outbox.Claims.Leases.{claims_disjoint, contains_event}
use lol_overlay.Outbox.Updates.{row_at, published_is_final}
use lol_overlay.Outbox.Retry.{
  outbox_retry_delay, outbox_retry_initial, outbox_retry_maximum, outbox_retry_delay_eq,
}
use lol_overlay.Outbox.Relay.Safety.{IsSafe}
use lol_overlay.Outbox.Relay.Database.{
  Faults, World, is_marked, is_stored, database_env, relay_database-IsSafe,
}

abbrev json : Json
json = record { valid = λ b. true; jsonb_text = λ b. b }

-- Columns that keep every tenth of the unit.
abbrev micros : Time → Time
micros t = t / 10 * 10

abbrev event : OutboxEvent
event = record {
  id = "e1";
  subject = "game.started";
  payload = 123 ∷ 125 ∷ [];
  created_at = 0;
  attempt_count = 0;
}

abbrev pending : Row
pending = record {
  id = "e1";
  subject = "game.started";
  payload = 123 ∷ 125 ∷ [];
  created_at = 10;
  available_at = 10;
  published_at = none;
  attempt_count = 0;
  last_error = none;
}

abbrev older : Row
older = record pending { id = "e0"; created_at = 5; available_at = 5 }

abbrev table : Table
table = pending ∷ older ∷ []

table-UniqueIds : UniqueIds table
unfolding count_rows
table-UniqueIds = record {
  at_most_one = λ id. elim (Bool-cases ("e1" == id)) [
    | inl e ↦ subst (λ x. count_rows (has_id x) table ≤ 1) ((eq_iff "e1" id).0 e) (omega arith)
    | inr e ↦ rw e (ground arith)
  ];
}

abbrev nobody : String → Bool
nobody id = false

-- one row at a time, the older one first
first_claim : (claim_pending micros nobody none none 20 50 1 table).0 ≡ ok (to_event older ∷ [])
unfolding claim_pending candidates
first_claim = refl

second_claim :
    (claim_pending micros nobody none none 30 60 1
      (claim_pending micros nobody none none 20 50 1 table).1).0
    ≡ ok (to_event pending ∷ [])
unfolding claim_pending candidates update_rows contains_id
second_claim = refl

claim-Takes_oldest_example :
    (claimed : Table) × (left : Table) × (to_event older ∷ [] ≡ map to_event claimed)
    × Takes 1 (select_rows (is_candidate nobody (micros 20)) table) claimed left
claim-Takes_oldest_example =
    claim-Takes_oldest micros nobody 20 50 1 table (to_event older ∷ []) first_claim

claims_disjoint_example : contains_event "e0" (to_event pending ∷ []) ≡ false
claims_disjoint_example =
    claims_disjoint micros nobody nobody 20 30 50 60 1 1 table (to_event older ∷ [])
      (to_event pending ∷ []) "e0" first_claim (omega arith) second_claim refl

published_is_final_example :
    let marked = (mark_published micros none "e1" 40 table).1 in
    ((mark_published micros none "e1" 50 marked).0 ≡ err (failure "pending outbox event not found"))
    × (row_at "e0" (mark_published micros none "e1" 50 marked).1 ≡ row_at "e0" marked)
    × ((mark_failed micros none "e1" 50 "down" marked).0
        ≡ err (failure "pending outbox event not found"))
    × (row_at "e0" (mark_failed micros none "e1" 50 "down" marked).1 ≡ row_at "e0" marked)
published_is_final_example =
    published_is_final micros "e1" "e0" "down" 40 50 table table-UniqueIds refl refl refl
      (unfold mark_published count_rows in refl)

outbox_retry_delay_eq_example :
    outbox_retry_delay 3 ≡ min (outbox_retry_initial * 2 ^ 3) outbox_retry_maximum
outbox_retry_delay_eq_example = outbox_retry_delay_eq 3

abbrev holds : List String → String → Bool
holds [] id = false
holds (x ∷ rest) id = x == id || holds rest id

-- A stream that stores every message that it is given.
abbrev memory : Stream (List String)
memory = record {
  publish = λ subject body id j.
      (ok (record { stream = "GAME_EVENTS"; sequence = length j; duplicate = false }), id ∷ j);
  stored = holds;
}

memory-StreamLaws : StreamLaws memory
memory-StreamLaws = record {
  ack_stored = λ subject body id j ack h. ground (arith, eq_refl id);
  keeps_stored = λ subject body id j other h. ground arith;
}

abbrev calm : Faults
calm = record {
  locked = nobody;
  timestamptz = micros;
  claim = none;
  rows = none;
  mark_published = λ id. none;
  mark_failed = λ id. none;
}

abbrev world : World (List String)
world = record { table = table; jet_stream = [] }

abbrev text : Error → String
text e = "error"

relay_database-IsSafe_example :
    IsSafe is_marked (is_stored memory) (relay_once (database_env memory calm text) 20 world).1
relay_database-IsSafe_example =
    relay_database-IsSafe memory memory-StreamLaws calm text 20 world
      (record { marked_stored = λ id h. ground (arith, eq_iff "e1" id, eq_iff "e0" id) })

both_published :
    (relay_once (database_env memory calm text) 20 world).0.result
    ≡ record { claimed = 2; published = 2; failed = 0 }
unfolding relay_once relay_events relay_event database_env claim_pending candidates update_rows
    contains_id publish_durable mark_published count_rows
both_published = refl
