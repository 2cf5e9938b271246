-- ===== src/Outbox/Table.antt =====
-- Facts about the statements on the outbox table
-- (internal/repositories/postgres/outbox/repository.go), and its primary key.
use lol_overlay.Outbox.{
  eq_refl, true, ok, set_lease, set_published, set_failed, new_row, candidates, Json, Row, Table,
  OutboxEvent, has_id, contains_id, enqueue, select_rows, update_rows, count_rows, claim_pending,
  mark_published, mark_failed, delete_published_before, is_pending_id, is_expired,
}
use lol_overlay.Prelude.{
  ℕ, ◌+◌, ◌≤◌, String, ◌≡◌, refl, Bool, not, Option, [], ◌∷◌, ◌++◌, arith, eq_iff, ltb, Error,
}
use lol_overlay.Models.{Time}

-- The primary key: no id stands in two rows.
pub record UniqueIds (table : Table) : Type 0 where
  pub at_most_one : (id : String) → count_rows (has_id id) table ≤ 1

pub count_rows-append :
    (p : Row → Bool) (a b : Table) → count_rows p (a ++ b) ≡ count_rows p a + count_rows p b
unfolding count_rows
count_rows-append p [] b = omega arith
count_rows-append p (row ∷ a) b = omega (arith, count_rows-append p a b)

pub count_rows-update :
    (p q : Row → Bool) (f : Row → Row) (table : Table)
    → ((row : Row) → p (f row) ≡ p row)
    → count_rows p (update_rows q f table) ≡ count_rows p table
unfolding count_rows update_rows
count_rows-update p q f [] h = refl
count_rows-update p q f (row ∷ rest) h = ground (arith, h row, count_rows-update p q f rest h)

pub count_rows-select :
    (p q : Row → Bool) (table : Table) → count_rows p (select_rows q table) ≤ count_rows p table
unfolding count_rows select_rows
count_rows-select p q [] = omega arith
count_rows-select p q (row ∷ rest) = ground (arith, count_rows-select p q rest)

pub count_rows-contains :
    (id : String) (table : Table) → contains_id id table ≡ ltb 0 (count_rows (has_id id) table)
unfolding count_rows contains_id
count_rows-contains id [] = refl
count_rows-contains id (row ∷ rest) = ground (arith, count_rows-contains id rest)

pub mark_published-UniqueIds :
    (timestamptz : Time → Time) (fault : Option Error) (id : String) (now : Time) (table : Table)
    → UniqueIds table
    → UniqueIds (mark_published timestamptz fault id now table).1
unfolding mark_published
mark_published-UniqueIds timestamptz fault id now table u = record {
  at_most_one = λ i. ground (
    arith,
    u.at_most_one i,
    count_rows-update (has_id i) (is_pending_id id) (set_published (timestamptz now)) table
        (λ row. refl),
  );
}

pub mark_failed-UniqueIds :
    (timestamptz : Time → Time) (fault : Option Error) (id : String) (later : Time)
    (message : String) (table : Table)
    → UniqueIds table
    → UniqueIds (mark_failed timestamptz fault id later message table).1
unfolding mark_failed
mark_failed-UniqueIds timestamptz fault id later message table u = record {
  at_most_one = λ i. ground (
    arith,
    u.at_most_one i,
    count_rows-update (has_id i) (is_pending_id id) (set_failed (timestamptz later) message) table
        (λ row. refl),
  );
}

pub claim_pending-UniqueIds :
    (timestamptz : Time → Time) (locked : String → Bool) (fault row_fault : Option Error)
    (now later : Time) (limit : ℕ) (table : Table)
    → UniqueIds table
    → UniqueIds (claim_pending timestamptz locked fault row_fault now later limit table).1
unfolding claim_pending
claim_pending-UniqueIds timestamptz locked fault row_fault now later limit table u = record {
  at_most_one = λ i. ground (
    arith,
    u.at_most_one i,
    count_rows-update (has_id i)
        (λ row. contains_id row.id (candidates locked (timestamptz now) limit table))
        (set_lease (timestamptz later)) table (λ row. refl),
  );
}

-- Every operation, failing or not, keeps the primary key: whatever faults the database adds and
-- whichever rows are locked, no id comes to stand in two rows.
pub operations-UniqueIds :
    (json : Json) (timestamptz : Time → Time) (fault row_fault : Option Error)
    (locked : String → Bool) (now later : Time) (limit : ℕ) (event : OutboxEvent)
    (id message : String) (table : Table)
    → UniqueIds table
    → UniqueIds (enqueue json fault now event table).1
      × UniqueIds (claim_pending timestamptz locked fault row_fault now later limit table).1
      × UniqueIds (mark_published timestamptz fault id now table).1
      × UniqueIds (mark_failed timestamptz fault id later message table).1
      × UniqueIds (delete_published_before timestamptz fault now table).1
operations-UniqueIds json timestamptz fault row_fault locked now later limit event id message table
      u =
    (
      record {
        at_most_one = λ i.
            unfold enqueue count_rows in
            ground (
              arith,
              u.at_most_one i,
              count_rows-contains i table,
              count_rows-contains event.id table,
              count_rows-append (has_id i) table (new_row json now event ∷ []),
              eq_iff event.id i,
            );
      },
      claim_pending-UniqueIds timestamptz locked fault row_fault now later limit table u,
      mark_published-UniqueIds timestamptz fault id now table u,
      mark_failed-UniqueIds timestamptz fault id later message table u,
      record {
        at_most_one = λ i.
            unfold delete_published_before in
            ground (
              arith,
              u.at_most_one i,
              count_rows-select (has_id i) (λ row. not (is_expired (timestamptz now) row)) table,
            );
      },
    )

-- An event that was enqueued, or was found to be there already, is in the table; enqueueing any event
-- with the same id again, at any time and with any fault of the database, leaves the table as it is.
pub enqueue_again :
    (json : Json) (now later : Time) (fault again : Option Error) (event other : OutboxEvent)
    (table : Table) (inserted : Bool)
    → (enqueue json fault now event table).0 ≡ ok inserted
    → other.id ≡ event.id
    → (contains_id event.id (enqueue json fault now event table).1 ≡ true)
      × ((enqueue json again later other (enqueue json fault now event table).1).1
          ≡ (enqueue json fault now event table).1)
unfolding enqueue
enqueue_again json now later fault again event other table inserted done same = ground (
  arith,
  count_rows-contains event.id table,
  count_rows-contains event.id (table ++ new_row json now event ∷ []),
  count_rows-append (has_id event.id) table (new_row json now event ∷ []),
  count_one,
)
  where
    count_one : count_rows (has_id event.id) (new_row json now event ∷ []) ≡ 1
    count_one = unfold count_rows in ground (arith, eq_refl event.id)
