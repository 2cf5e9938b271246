-- ===== src/Outbox.antt =====
-- internal/repositories/outbox_repository.go and internal/repositories/postgres/outbox/repository.go:
-- the outbox table and the five statements on it. Each operation checks its arguments in the order of
-- the code and then runs its statement. What the database adds is an argument: a `fault` with which a
-- statement fails and changes nothing, a `row_fault` met while the rows that it returned are read, the
-- rows that another transaction has `locked`, the database's clock, what a `timestamptz` keeps of a time,
-- and what the `jsonb` column does to the text of a payload.
pub mod Table
pub mod Claims
pub mod Updates
pub mod Retry
pub mod Relay
use lol_overlay.Prelude.{
  ℕ, zero, suc, ◌+◌, ◌-◌, ◌*◌, ◌/◌, ◌%◌, ◌^◌, ◌≤◌, ◌<◌, String, ◌≡◌, refl, sym, ap, ◌∙◌, fun_ext,
  ◌≢◌, ◌↔◌, ◌⊎◌, inl, inr, Bool, true, false, not, ◌&&◌, ◌||◌, Option, none, some, List, [], ◌∷◌,
  ◌++◌, map, arith, ◌==◌, eq_iff, eq_refl, ltb, leb, nat_eq, if◌then◌else◌, ℤ, int_eq, is_positive,
  Bool-cases, Option-cases, pos, negsuc, All, length, length-append, take, find, modify_first,
  All-append, Error, Result, map_err, failure, wrap, ok, err,
}
use lol_overlay.Messaging.{Bytes}
use lol_overlay.Models.{Time, is_zero}

-- What encoding/json and the `jsonb` column do with a payload.
pub record Json : Type 0 where
  pub valid : Bytes → Bool
  pub jsonb_text : Bytes → Bytes

-- A row of `outbox_events`. `created_at` has the column's default, `published_at` and `last_error`
-- may be null.
pub record Row : Type 0 where
  pub id : String
  pub subject : String
  pub payload : Bytes
  pub created_at : Time
  pub available_at : Time
  pub published_at : Option Time
  pub attempt_count : ℕ
  pub last_error : Option String

abbrev pub Table : Type 0
Table = List Row

pub record OutboxEvent : Type 0 where
  pub id : String
  pub subject : String
  pub payload : Bytes
  pub created_at : Time
  pub attempt_count : ℕ

abbrev pub is_empty : Bytes → Bool
is_empty [] = true
is_empty (b ∷ bs) = false

abbrev pub has_id : String → Row → Bool
has_id id row = row.id == id

-- `published_at IS NULL`
abbrev pub is_pending : Row → Bool
is_pending row = elim row.published_at [ none ↦ true | some t ↦ false ]

unfoldable pub contains_id : String → Table → Bool
contains_id id [] = false
contains_id id (row ∷ rest) = has_id id row || contains_id id rest

abbrev pub new_row : Json → Time → OutboxEvent → Row
new_row json now event = record {
  id = event.id;
  subject = event.subject;
  payload = json.jsonb_text event.payload;
  created_at = now;
  available_at = now;
  published_at = none;
  attempt_count = 0;
  last_error = none;
}

-- INSERT … ON CONFLICT (id) DO NOTHING, and whether a row was inserted.
unfoldable pub enqueue : Json → Option Error → Time → OutboxEvent → Table → Result Bool × Table
enqueue json fault now event table =
    if event.id == ""
    then (err (failure "outbox event ID is required"), table)
    else if event.subject == ""
    then (err (failure "outbox subject is required"), table)
    else if is_empty event.payload
    then (err (failure "outbox payload is required"), table)
    else if not (json.valid event.payload)
    then (err (failure "outbox payload must be valid JSON"), table)
    else elim fault [
      | some e ↦ (err (wrap "enqueue outbox event" e), table)
      | none ↦
          if contains_id event.id table
          then (ok false, table)
          else (ok true, table ++ new_row json now event ∷ [])
    ]

-- `ORDER BY available_at, created_at`
abbrev pub comes_before : Row → Row → Bool
comes_before a b =
    ltb a.available_at b.available_at
    || (nat_eq a.available_at b.available_at && leb a.created_at b.created_at)

unfoldable pub insert_by_age : Row → Table → Table
insert_by_age row [] = row ∷ []
insert_by_age row (other ∷ rest) =
    let later = insert_by_age row rest in
    if comes_before row other then row ∷ other ∷ rest else other ∷ later

unfoldable pub order_by_age : Table → Table
unfolding insert_by_age
order_by_age [] = []
order_by_age (row ∷ rest) = insert_by_age row (order_by_age rest)

-- The WHERE clause of the candidates, `SKIP LOCKED` included.
abbrev pub is_candidate : (String → Bool) → Time → Row → Bool
is_candidate locked now row = is_pending row && leb row.available_at now && not (locked row.id)

unfoldable pub select_rows : (Row → Bool) → Table → Table
select_rows p [] = []
select_rows p (row ∷ rest) = let later = select_rows p rest in if p row then row ∷ later else later

unfoldable pub candidates : (String → Bool) → Time → ℕ → Table → Table
unfolding select_rows order_by_age
candidates locked now limit table =
    take limit (order_by_age (select_rows (is_candidate locked now) table))

-- UPDATE … SET … WHERE, and the number of rows that it changes.
unfoldable pub update_rows : (Row → Bool) → (Row → Row) → Table → Table
update_rows p f [] = []
update_rows p f (row ∷ rest) = (if p row then f row else row) ∷ update_rows p f rest

unfoldable pub count_rows : (Row → Bool) → Table → ℕ
count_rows p [] = 0
count_rows p (row ∷ rest) = (if p row then 1 else 0) + count_rows p rest

abbrev pub to_event : Row → OutboxEvent
to_event row = record {
  id = row.id;
  subject = row.subject;
  payload = row.payload;
  created_at = row.created_at;
  attempt_count = row.attempt_count;
}

abbrev pub set_lease : Time → Row → Row
set_lease lease_until row = record row { available_at = lease_until }

abbrev pub set_published : Time → Row → Row
set_published published_at row = record row { published_at = some published_at; last_error = none }

abbrev pub set_failed : Time → String → Row → Row
set_failed next_attempt_at last_error row = record row {
  attempt_count = row.attempt_count + 1;
  available_at = next_attempt_at;
  last_error = some last_error;
}

-- The rows come back in the order of the candidates, which the database does not promise.
-- A limit that is not positive is 0 here.
unfoldable pub claim_pending :
    (Time → Time)
    → (String → Bool)
    → Option Error
    → Option Error
    → Time
    → Time
    → ℕ
    → Table
    → Result (List OutboxEvent) × Table
claim_pending timestamptz locked fault row_fault now lease_until limit table =
    if is_zero now
    then (err (failure "outbox claim time is required"), table)
    else if is_zero lease_until
    then (err (failure "outbox lease time is required"), table)
    else if not (ltb now lease_until)
    then (err (failure "outbox lease must end after claim time"), table)
    else if nat_eq limit 0
    then (err (failure "outbox claim limit must be positive"), table)
    else elim fault [
      | some e ↦ (err (wrap "claim pending outbox events" e), table)
      | none ↦
          let claimed = candidates locked (timestamptz now) limit table in
          (
            elim row_fault [
              | some e ↦ err (wrap "scan claimed outbox event" e)
              | none ↦ ok (map to_event claimed)
            ],
            update_rows (λ row. contains_id row.id claimed) (set_lease (timestamptz lease_until))
                table,
          )
    ]

-- `WHERE id = $1 AND published_at IS NULL`
abbrev pub is_pending_id : String → Row → Bool
is_pending_id id row = has_id id row && is_pending row

unfoldable pub mark_published :
    (Time → Time) → Option Error → String → Time → Table → Result (Unit {0}) × Table
mark_published timestamptz fault event_id published_at table =
    if event_id == ""
    then (err (failure "outbox event ID is required"), table)
    else if is_zero published_at
    then (err (failure "outbox published time is required"), table)
    else elim fault [
      | some e ↦ (err (wrap "mark outbox event as published" e), table)
      | none ↦ (
        if nat_eq (count_rows (is_pending_id event_id) table) 1
            then ok tt
            else err (failure "pending outbox event not found"),
        update_rows (is_pending_id event_id) (set_published (timestamptz published_at)) table,
      )
    ]

unfoldable pub mark_failed :
    (Time → Time) → Option Error → String → Time → String → Table → Result (Unit {0}) × Table
mark_failed timestamptz fault event_id next_attempt_at last_error table =
    if event_id == ""
    then (err (failure "outbox event ID is required"), table)
    else if is_zero next_attempt_at
    then (err (failure "outbox next attempt time is required"), table)
    else if last_error == ""
    then (err (failure "outbox last error is required"), table)
    else elim fault [
      | some e ↦ (err (wrap "mark outbox event as failed" e), table)
      | none ↦ (
        if nat_eq (count_rows (is_pending_id event_id) table) 1
            then ok tt
            else err (failure "pending outbox event not found"),
        update_rows (is_pending_id event_id) (set_failed (timestamptz next_attempt_at) last_error)
            table,
      )
    ]

-- `published_at IS NOT NULL AND published_at < $1`
abbrev pub is_expired : Time → Row → Bool
is_expired cutoff row = elim row.published_at [ none ↦ false | some t ↦ ltb t cutoff ]

unfoldable pub delete_published_before :
    (Time → Time) → Option Error → Time → Table → Result ℕ × Table
delete_published_before timestamptz fault cutoff table =
    if is_zero cutoff
    then (err (failure "outbox cleanup cutoff is required"), table)
    else elim fault [
      | some e ↦ (err (wrap "delete published outbox events" e), table)
      | none ↦ (
        ok (count_rows (is_expired (timestamptz cutoff)) table),
        select_rows (λ row. not (is_expired (timestamptz cutoff) row)) table,
      )
    ]
