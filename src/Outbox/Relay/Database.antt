-- ===== src/Outbox/Relay/Database.antt =====
-- The relay's interface filled with the outbox table (internal/repositories/postgres/outbox/
-- repository.go) and the durable publisher (internal/messaging/jetstream.go).
use mathlib.Core.Option
use lol_overlay.Prelude.{
  String, ◌≡◌, refl, Bool, false, not, Option, none, some, [], ◌∷◌, arith, eq_iff, if◌then◌else◌,
  Error,
}
use lol_overlay.Models.{Time}
use lol_overlay.Messaging.{Stream, StreamLaws, publish_durable}
use lol_overlay.Outbox.{
  Table, claim_pending, mark_published, mark_failed, is_pending, set_lease, set_published,
  set_failed, update_rows, contains_id, candidates,
}
use lol_overlay.Outbox.Updates.{row_at, row_at-update}
use lol_overlay.Outbox.Relay.{RelayEnv, relay_once}
use lol_overlay.Outbox.Relay.Safety.{RelayLaws, IsSafe, relay_once-IsSafe}

-- What the database adds to one pass: its faults, by the id that a statement is about.
pub record Faults : Type 0 where
  pub locked : String → Bool
  -- what a `timestamptz` keeps of a time
  pub timestamptz : Time → Time
  pub claim : Option Error
  pub rows : Option Error
  pub mark_published : String → Option Error
  pub mark_failed : String → Option Error

pub record World (J : Type 0) : Type 0 where
  pub table : Table
  pub jet_stream : J

-- `published_at IS NOT NULL` at the row of an id.
abbrev pub is_marked : {J : Type 0} → World J → String → Bool
is_marked w id = elim (row_at id w.table) [ none ↦ false | some row ↦ not (is_pending row) ]

abbrev pub is_stored : {J : Type 0} → Stream J → World J → String → Bool
is_stored stream w id = stream.stored w.jet_stream id

abbrev pub in_table : {J A : Type 0} → World J → A × Table → A × World J
in_table w (result, table) = (result, record w { table = table })

unfoldable pub database_env :
    {J : Type 0} → Stream J → Faults → (Error → String) → RelayEnv (World J)
database_env stream faults error_text = record {
  claim_pending = λ now lease limit w. in_table w (
      claim_pending faults.timestamptz faults.locked faults.claim faults.rows now lease limit
        w.table);
  mark_published = λ id at w.
      in_table w (mark_published faults.timestamptz (faults.mark_published id) id at w.table);
  mark_failed = λ id next text w.
      in_table w (mark_failed faults.timestamptz (faults.mark_failed id) id next text w.table);
  publish_durable = λ subject id body w.
      let (result, j) = publish_durable stream subject id body w.jet_stream in
      (result, record w { jet_stream = j });
  error_text = error_text;
}

row_at-lease :
    (claimed : Table) (lease : Time) (id : String) (table : Table)
    → row_at id (update_rows (λ row. contains_id row.id claimed) (set_lease lease) table)
      ≡ Option.map
          (λ row. if contains_id row.id claimed then set_lease lease row else row)
          (row_at id table)
unfolding update_rows
row_at-lease claimed lease id [] = refl
row_at-lease claimed lease id (row ∷ rest) = ground (arith, row_at-lease claimed lease id rest)

module _ {J : Type 0} (stream : Stream J) (laws : StreamLaws stream) (faults : Faults)
    (error_text : Error → String) where
  database_laws : RelayLaws (database_env stream faults error_text) is_marked (is_stored stream)
  unfolding database_env
  database_laws = record {
    claim_marked = λ now lease limit w id.
        unfold claim_pending in
        ground (
          arith,
          row_at-lease (candidates faults.locked (faults.timestamptz now) limit w.table)
              (faults.timestamptz lease) id w.table,
        );
    claim_stored = λ now lease limit w id. refl;
    mark_published_marked = λ event_id at w id h.
        unfold mark_published in
        ground (
          arith,
          eq_iff event_id id,
          row_at-update event_id id (set_published (faults.timestamptz at)) w.table (λ row. refl),
        );
    mark_published_stored = λ event_id at w id. refl;
    mark_failed_marked = λ event_id next text w id.
        unfold mark_failed in
        ground (
          arith,
          row_at-update event_id id (set_failed (faults.timestamptz next) text) w.table
              (λ row. refl),
        );
    mark_failed_stored = λ event_id next text w id. refl;
    publish_marked = λ subject event_id body w id. refl;
    publish_stored = λ subject event_id body w id h.
        unfold publish_durable in
        ground (arith, laws.keeps_stored subject body event_id w.jet_stream id h);
    ack_stored = λ subject event_id body w ack h.
        unfold publish_durable in
        ground (arith, laws.ack_stored subject body event_id w.jet_stream ack);
  }

  -- A pass of the relay marks no event as published that the stream has not stored: if in the world
  -- before it every event marked as published is stored, then so it is after it, whichever statements,
  -- publications and rows fail, are locked or return errors, at whatever time it runs.
  pub relay_database-IsSafe :
      (now : Time) (w : World J)
      → IsSafe is_marked (is_stored stream) w
      → IsSafe is_marked
          (is_stored stream)
          (relay_once (database_env stream faults error_text) now w).1
  relay_database-IsSafe now w safe =
      relay_once-IsSafe (database_env stream faults error_text) is_marked (is_stored stream)
        database_laws now w safe
