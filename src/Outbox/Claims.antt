-- ===== src/Outbox/Claims.antt =====
-- `ClaimPending` of internal/repositories/postgres/outbox/repository.go: the rows that one claim takes.
pub mod Leases
use lol_overlay.Prelude.{
  ◌⊎◌, drop, ℕ, zero, suc, ◌+◌, ◌≤◌, ◌<◌, String, ◌≡◌, refl, sym, ◌∙◌, inl, inr, Bool, true, false,
  ◌&&◌, ◌||◌, Option, none, List, [], ◌∷◌, map, arith, ◌==◌, eq_iff, Bool-cases, All, length, take,
  Error, ok,
}
use lol_overlay.Models.{Time}
use lol_overlay.Outbox.Table.{count_rows-contains}
use lol_overlay.Outbox.{
  Row, Table, OutboxEvent, contains_id, select_rows, update_rows, count_rows, has_id, claim_pending,
  is_candidate, candidates, comes_before, insert_by_age, order_by_age, set_lease, to_event,
}

count_rows-insert :
    (p : Row → Bool) (row : Row) (table : Table)
    → count_rows p (insert_by_age row table) ≡ count_rows p (row ∷ table)
unfolding count_rows insert_by_age
count_rows-insert p row [] = refl
count_rows-insert p row (other ∷ rest) = ground (arith, count_rows-insert p row rest)

count_rows_cons :
    (p : Row → Bool) (row : Row) (a b : Table)
    → count_rows p a ≡ count_rows p b
    → count_rows p (row ∷ a) ≡ count_rows p (row ∷ b)
unfolding count_rows
count_rows_cons p row a b h = cc h

count_rows-order :
    (p : Row → Bool) (table : Table) → count_rows p (order_by_age table) ≡ count_rows p table
unfolding order_by_age
count_rows-order p [] = refl
count_rows-order p (row ∷ rest) =
    count_rows-insert p row (order_by_age rest)
    ∙ count_rows_cons p row (order_by_age rest) rest (count_rows-order p rest)

abbrev pub NotBefore : Row → Row → Type 0
NotBefore a b = comes_before a b ≡ true

abbrev IsOrdered : Table → Type 0
IsOrdered [] = Unit
IsOrdered (row ∷ rest) = All (NotBefore row) rest × IsOrdered rest

All-insert :
    (P : Row → Type 0) (row : Row) (table : Table)
    → P row
    → All P table
    → All P (insert_by_age row table)
unfolding insert_by_age
All-insert P row [] h hs = (h, tt)
All-insert P row (other ∷ rest) h hs = elim (Bool-cases (comes_before row other)) [
  | inl e ↦ rw e (h, hs)
  | inr e ↦ rw e (hs.0, All-insert P row rest h hs.1)
]

All-trans :
    (a b : Row) (table : Table) → NotBefore a b → All (NotBefore b) table → All (NotBefore a) table
All-trans a b [] h hs = tt
All-trans a b (c ∷ rest) h hs = (ground (arith, h, hs.0), All-trans a b rest h hs.1)

insert-IsOrdered :
    (row : Row) (table : Table) → IsOrdered table → IsOrdered (insert_by_age row table)
unfolding insert_by_age
insert-IsOrdered row [] h = (tt, tt)
insert-IsOrdered row (other ∷ rest) h = elim (Bool-cases (comes_before row other)) [
  | inl e ↦ rw e ((e, All-trans row other rest e h.0), h)
  | inr e ↦
      rw e (All-insert (NotBefore other) row rest (ground arith) h.0, insert-IsOrdered row rest h.1)
]

order-IsOrdered : (table : Table) → IsOrdered (order_by_age table)
unfolding order_by_age
order-IsOrdered [] = tt
order-IsOrdered (row ∷ rest) = insert-IsOrdered row (order_by_age rest) (order-IsOrdered rest)

-- A split of an ordered table into the rows taken and the rows left.
pub record Takes (limit : ℕ) (ordered taken left : Table) : Type 0 where
  pub counted : (p : Row → Bool) → count_rows p taken + count_rows p left ≡ count_rows p ordered
  pub short : length taken ≤ limit
  pub full : (length taken ≡ limit) ⊎ (left ≡ [])
  pub oldest : All (λ row. All (NotBefore row) left) taken

All-drop : (P : Row → Type 0) (limit : ℕ) (table : Table) → All P table → All P (drop limit table)
All-drop P zero table h = h
All-drop P (suc limit) [] h = tt
All-drop P (suc limit) (row ∷ rest) h = All-drop P limit rest h.1

count_rows-take :
    (p : Row → Bool) (limit : ℕ) (table : Table)
    → count_rows p (take limit table) + count_rows p (drop limit table) ≡ count_rows p table
unfolding count_rows
count_rows-take p zero table = omega arith
count_rows-take p (suc limit) [] = omega arith
count_rows-take p (suc limit) (row ∷ rest) = omega (arith, count_rows-take p limit rest)

take_oldest :
    (limit : ℕ) (table : Table)
    → IsOrdered table
    → All (λ row. All (NotBefore row) (drop limit table)) (take limit table)
take_oldest zero table h = tt
take_oldest (suc limit) [] h = tt
take_oldest (suc limit) (row ∷ rest) h =
    (All-drop (NotBefore row) limit rest h.0, take_oldest limit rest h.1)

take_full :
    (limit : ℕ) (table : Table) → (length (take limit table) ≡ limit) ⊎ (drop limit table ≡ [])
take_full zero table = inl refl
take_full (suc limit) [] = inr refl
take_full (suc limit) (row ∷ rest) = elim (take_full limit rest) [
  | inl all ↦ inl (omega (arith, all))
  | inr none_left ↦ inr none_left
]

take_short : (limit : ℕ) (table : Table) → length (take limit table) ≤ limit
take_short zero table = omega arith
take_short (suc limit) [] = omega arith
take_short (suc limit) (row ∷ rest) = omega (arith, take_short limit rest)

take-Takes :
    (limit : ℕ) (table : Table)
    → IsOrdered table
    → Takes limit table (take limit table) (drop limit table)
take-Takes limit table h = record {
  counted = λ p. count_rows-take p limit table;
  short = take_short limit table;
  full = take_full limit table;
  oldest = take_oldest limit table h;
}

-- A claim that succeeds returns the oldest rows that are pending, due at the time of the claim as a
-- column keeps it, and not locked: the rows
-- returned and the rows left are together those of the table that qualify, as often, at most `limit`
-- are returned, none is left if fewer are returned, and none that is returned comes after one that is
-- left in the order of `available_at` and then `created_at`.
pub claim-Takes_oldest :
    (timestamptz : Time → Time) (locked : String → Bool) (now lease_until : Time) (limit : ℕ)
    (table : Table) (events : List OutboxEvent)
    → (claim_pending timestamptz locked none none now lease_until limit table).0 ≡ ok events
    → (claimed : Table) × (left : Table) × (events ≡ map to_event claimed)
      × Takes limit (select_rows (is_candidate locked (timestamptz now)) table) claimed left
claim-Takes_oldest timestamptz locked now lease_until limit table events h = (
  candidates locked (timestamptz now) limit table,
  drop limit ordered,
  unfold claim_pending in ground arith,
  record {
    counted = λ p. takes.counted p ∙ count_rows-order p eligible;
    short = takes.short;
    full = takes.full;
    oldest = takes.oldest;
  },
)
  where
    eligible : Table
    eligible = select_rows (is_candidate locked (timestamptz now)) table

    ordered : Table
    ordered = order_by_age eligible

    takes :
        Takes limit ordered (candidates locked (timestamptz now) limit table) (drop limit ordered)
    takes = unfold candidates in take-Takes limit ordered (order-IsOrdered eligible)
