-- ===== src/Tests/Lifecycles.antt =====
-- The lifecycle service with the outbox table (internal/services/game_lifecycle_service.go).
use lol_overlay.Prelude.{
  String, ◌≡◌, refl, Bool, true, false, Option, none, [], ◌∷◌, ◌++◌, arith, pos, length, Error, ok,
}
use lol_overlay.Outbox.{new_row, Json, Table, OutboxEvent, enqueue, contains_id}
use lol_overlay.Outbox.Table.{enqueue_again}
use lol_overlay.Lifecycle.{observe, observe_phase, classify}
use lol_overlay.Lifecycle.Service.{
  LifecycleEnv, LifecycleService, new_game_outbox_event, observe_game,
}
use lol_overlay.Lifecycle.Service.Events.{LifecycleEnvLaws, Observed, observe_game-Observed}

abbrev json : Json
json = record { valid = λ b. true; jsonb_text = λ b. b }

-- `fault` is what the statement fails with.
abbrev env : Option Error → LifecycleEnv Table
env fault = record {
  new_event_metadata = λ w. (ok (record { event_id = "e1"; occurred_at = 10; version = pos 1 }), w);
  marshal_started = λ metadata game_id room_id. ok (123 ∷ 125 ∷ []);
  marshal_ended = λ metadata game_id room_id. ok (123 ∷ 125 ∷ []);
  enqueue = enqueue json fault 20;
}

abbrev stored : Table → String → Bool
stored table id = contains_id id table

contains_id-append :
    (id : String) (table more : Table)
    → contains_id id table ≡ true
    → contains_id id (table ++ more) ≡ true
unfolding contains_id
contains_id-append id [] more h = cc
contains_id-append id (row ∷ rest) more h = ground (arith, contains_id-append id rest more)

enqueue_keeps :
    (fault : Option Error) (event : OutboxEvent) (table : Table) (id : String)
    → contains_id id table ≡ true
    → contains_id id (enqueue json fault 20 event table).1 ≡ true
unfolding enqueue
enqueue_keeps fault event table id h =
    ground (arith, contains_id-append id table (new_row json 20 event ∷ []))

env-LifecycleEnvLaws : (fault : Option Error) → LifecycleEnvLaws (env fault) stored
env-LifecycleEnvLaws fault = record {
  enqueue_stored =
      λ event w inserted h. (enqueue_again json 20 20 fault none event event w inserted h refl).0;
  enqueue_keeps = λ event w id h. enqueue_keeps fault event w id h;
  metadata_keeps = λ w id h. h;
}

-- A champion select was seen.
abbrev selected : LifecycleService Table
selected = record {
  world = [];
  tracker = record { game_id = pos 7; room_id = "7-100"; started = false };
  pending = none;
}

stored_start : length (observe_game (env none) "InProgress" (pos 0) "" selected).1.world ≡ 1
unfolding observe_game observe observe_phase classify new_game_outbox_event enqueue contains_id
stored_start = refl

observe_game-Observed_example :
    Observed
      (env none)
      stored
      "InProgress"
      (pos 0)
      ""
      selected
      (observe_game (env none) "InProgress" (pos 0) "" selected).1
      (observe_game (env none) "InProgress" (pos 0) "" selected).0
observe_game-Observed_example =
    observe_game-Observed (env none) stored (env-LifecycleEnvLaws none) "InProgress" (pos 0) ""
      selected
