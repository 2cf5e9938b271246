-- ===== src/Outbox/Claims/Leases.antt =====
-- Two claims in a row of internal/repositories/postgres/outbox/repository.go, and the leases between
-- them.
use lol_overlay.Outbox.Claims.{count_rows-take, count_rows-order}
use lol_overlay.Prelude.{
  ℕ, ◌<◌, String, ◌≡◌, refl, sym, ◌∙◌, Bool, true, false, ◌&&◌, ◌||◌, Option, none, List, [], ◌∷◌,
  map, arith, ◌==◌, eq_iff, take, Error, ok,
}
use lol_overlay.Models.{Time}
use lol_overlay.Outbox.Table.{count_rows-contains}
use lol_overlay.Outbox.{
  Row, Table, OutboxEvent, contains_id, select_rows, update_rows, count_rows, has_id, claim_pending,
  is_candidate, candidates, order_by_age, set_lease, to_event,
}

abbrev pub contains_event : String → List OutboxEvent → Bool
contains_event id [] = false
contains_event id (event ∷ rest) = event.id == id || contains_event id rest

contains-map :
    (id : String) (table : Table) → contains_event id (map to_event table) ≡ contains_id id table
unfolding contains_id
contains-map id [] = refl
contains-map id (row ∷ rest) = ground (arith, contains-map id rest)

count_rows-select_and :
    (p q : Row → Bool) (table : Table)
    → count_rows p (select_rows q table) ≡ count_rows (λ row. q row && p row) table
unfolding count_rows select_rows
count_rows-select_and p q [] = refl
count_rows-select_and p q (row ∷ rest) = ground (arith, count_rows-select_and p q rest)

-- While the lease runs no leased row qualifies.
count_rows-leased :
    (locked : String → Bool) (now lease_until : Time) (id : String) (claimed table : Table)
    → now < lease_until
    → contains_id id claimed ≡ true
    → count_rows
        (λ row. is_candidate locked now row && has_id id row)
        (update_rows (λ row. contains_id row.id claimed) (set_lease lease_until) table)
      ≡ 0
unfolding count_rows update_rows
count_rows-leased locked now lease_until id claimed [] lt h = refl
count_rows-leased locked now lease_until id claimed (row ∷ rest) lt h =
    ground (arith, eq_iff row.id id, count_rows-leased locked now lease_until id claimed rest lt h)

candidates_leased :
    (locked : String → Bool) (now lease_until : Time) (limit : ℕ) (id : String)
    (claimed table : Table)
    → now < lease_until
    → contains_id id claimed ≡ true
    → contains_id id (
        candidates locked now limit
          (update_rows (λ row. contains_id row.id claimed) (set_lease lease_until) table))
      ≡ false
unfolding candidates
candidates_leased locked now lease_until limit id claimed table lt h =
    let leased = update_rows (λ row. contains_id row.id claimed) (set_lease lease_until) table in
    let eligible = select_rows (is_candidate locked now) leased in
    ground (
      arith,
      count_rows-contains id (take limit (order_by_age eligible)),
      count_rows-take (has_id id) limit (order_by_age eligible),
      count_rows-order (has_id id) eligible,
      count_rows-select_and (has_id id) (is_candidate locked now) leased,
      count_rows-leased locked now lease_until id claimed table lt h,
    )

-- What a claim that succeeds returns, and what it leaves in the table.
pub claim_ok :
    (timestamptz : Time → Time) (locked : String → Bool) (fault row_fault : Option Error)
    (now lease : Time) (limit : ℕ) (table : Table) (events : List OutboxEvent)
    → (claim_pending timestamptz locked fault row_fault now lease limit table).0 ≡ ok events
    → (events ≡ map to_event (candidates locked (timestamptz now) limit table))
      × ((claim_pending timestamptz locked fault row_fault now lease limit table).1
          ≡ update_rows
              (λ row. contains_id row.id (candidates locked (timestamptz now) limit table))
              (set_lease (timestamptz lease))
              table)
unfolding claim_pending
claim_ok timestamptz locked fault row_fault now lease limit table events h =
    (ground arith, ground arith)

-- Two claims in a row return no event in common as long as, of the times as the columns keep them, the
-- second claim comes before the end of the first one's lease, whatever rows are locked at either time.
pub claims_disjoint :
    (timestamptz : Time → Time) (locked locked' : String → Bool) (now now' lease lease' : Time)
    (limit limit' : ℕ) (table : Table) (events events' : List OutboxEvent) (id : String)
    → (claim_pending timestamptz locked none none now lease limit table).0 ≡ ok events
    → timestamptz now' < timestamptz lease
    → (claim_pending timestamptz locked' none none now' lease' limit'
        (claim_pending timestamptz locked none none now lease limit table).1).0
      ≡ ok events'
    → contains_event id events ≡ true
    → contains_event id events' ≡ false
claims_disjoint timestamptz locked locked' now now' lease lease' limit limit' table events events'
      id h lt h' seen =
    let claimed = candidates locked (timestamptz now) limit table in
    let leased =
      update_rows (λ row. contains_id row.id claimed) (set_lease (timestamptz lease)) table in
    let (returned, left) = claim_ok timestamptz locked none none now lease limit table events h in
    let (returned', left') =
      claim_ok timestamptz locked' none none now' lease' limit'
        (claim_pending timestamptz locked none none now lease limit table).1 events' h' in
    cc (
      returned',
      left,
      contains-map id (candidates locked' (timestamptz now') limit' leased),
      candidates_leased locked' (timestamptz now') (timestamptz lease) limit' id claimed table lt
          (sym (contains-map id claimed) ∙ rw returned at seen),
    )
