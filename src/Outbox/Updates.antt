-- ===== src/Outbox/Updates.antt =====
-- `MarkPublished`, `MarkFailed` and `DeletePublishedBefore` of
-- internal/repositories/postgres/outbox/repository.go, seen at the row of one id.
use mathlib.Core.Option
use lol_overlay.Prelude.{
  ◌≤◌, String, ◌≡◌, refl, ◌∙◌, inl, inr, Bool, false, not, Option, none, some, [], ◌∷◌, arith, ◌==◌,
  eq_iff, eq_refl, nat_eq, if◌then◌else◌, Bool-cases, find, failure, ok, err,
}
use lol_overlay.Models.{Time, is_zero}
use lol_overlay.Outbox.Table.{mark_published-UniqueIds, UniqueIds}
use lol_overlay.Outbox.{
  Row, Table, is_pending, select_rows, update_rows, count_rows, has_id, mark_published, mark_failed,
  delete_published_before, is_pending_id, is_expired, set_published, set_failed,
}

abbrev pub row_at : String → Table → Option Row
row_at id table = find (has_id id) table

abbrev pub update_pending : (Row → Row) → Row → Row
update_pending f row = if is_pending row then f row else row

pub row_at-update :
    (id other : String) (f : Row → Row) (table : Table)
    → ((row : Row) → (f row).id ≡ row.id)
    → row_at other (update_rows (is_pending_id id) f table) ≡ (
        if id == other
        then Option.map (update_pending f) (row_at other table)
        else row_at other table)
unfolding update_rows
row_at-update id other f [] h = ground arith
row_at-update id other f (row ∷ rest) h = ground (
  arith,
  h row,
  eq_iff row.id id,
  eq_iff row.id other,
  eq_iff id other,
  row_at-update id other f rest h,
)

count_none :
    (id : String) (table : Table)
    → count_rows (has_id id) table ≡ 0
    → count_rows (is_pending_id id) table ≡ 0
unfolding count_rows
count_none id [] h = refl
count_none id (row ∷ rest) h = ground (arith, count_none id rest)

-- Under the primary key the number of rows that a statement changes is 1 or 0, by the row found.
affected :
    (id : String) (table : Table)
    → count_rows (has_id id) table ≤ 1
    → nat_eq (count_rows (is_pending_id id) table) 1
      ≡ elim (row_at id table) [ none ↦ false | some row ↦ is_pending row ]
unfolding count_rows
affected id [] h = refl
affected id (row ∷ rest) h = ground (arith, affected id rest, count_none id rest)

-- Whether the row of an id is there and not published.
abbrev pub is_open : Option Row → Bool
is_open none = false
is_open (some row) = is_pending row

affected_open :
    (id : String) (table : Table)
    → UniqueIds table
    → nat_eq (count_rows (is_pending_id id) table) 1 ≡ is_open (row_at id table)
affected_open id table u = ground (arith, affected id table (u.at_most_one id))

-- Marking an event, with arguments that pass the checks and no fault: each operation succeeds exactly
-- if the event's row is there and not published, then makes its change to that row, and leaves the row
-- of every other id, and a row that is published already, as it was.
pub mark_event :
    (timestamptz : Time → Time) (id other message : String) (time : Time) (table : Table)
    → UniqueIds table
    → (id == "") ≡ false
    → is_zero time ≡ false
    → (message == "") ≡ false
    → ((mark_published timestamptz none id time table).0 ≡ (
        if is_open (row_at id table)
        then ok tt
        else err (failure "pending outbox event not found")))
      × (row_at other (mark_published timestamptz none id time table).1 ≡ (
          if id == other
          then Option.map (update_pending (set_published (timestamptz time))) (row_at other table)
          else row_at other table))
      × ((mark_failed timestamptz none id time message table).0 ≡ (
          if is_open (row_at id table)
          then ok tt
          else err (failure "pending outbox event not found")))
      × (row_at other (mark_failed timestamptz none id time message table).1 ≡ (
          if id == other
          then Option.map
              (update_pending (set_failed (timestamptz time) message))
              (row_at other table)
          else row_at other table))
mark_event timestamptz id other message time table u hid htime hmessage = (
  unfold mark_published in ground (arith, affected_open id table u),
  unfold mark_published in
      ground (arith, row_at-update id other (set_published (timestamptz time)) table (λ row. refl)),
  unfold mark_failed in ground (arith, affected_open id table u),
  unfold mark_failed in
      ground
        (arith, row_at-update id other (set_failed (timestamptz time) message) table (λ row. refl)),
)

mark_published_time :
    (timestamptz : Time → Time) (id : String) (time : Time) (table : Table)
    → (mark_published timestamptz none id time table).0 ≡ ok tt
    → is_zero time ≡ false
unfolding mark_published
mark_published_time timestamptz id time table h = ground arith

is_open-published :
    (time : Time) (o : Option Row)
    → is_open (Option.map (update_pending (set_published time)) o) ≡ false
is_open-published time o = ground arith

update-closed :
    (f : Row → Row) (o : Option Row) → is_open o ≡ false → Option.map (update_pending f) o ≡ o
update-closed f none h = refl
update-closed f (some row) h = rw h

same_row :
    (id other : String) (f : Row → Row) (table : Table)
    → is_open (row_at id table) ≡ false
    → (if id == other
        then Option.map (update_pending f) (row_at other table)
        else row_at other table)
      ≡ row_at other table
same_row id other f table h = elim (Bool-cases (id == other)) [
  | inl e ↦
      let same = (eq_iff id other).0 e in rw e (update-closed f (row_at other table) (rw same at h))
  | inr e ↦ rw e
]

-- Once an event is marked as published, marking it again, as published or as failed, is refused and
-- leaves the row of every id as it was.
pub published_is_final :
    (timestamptz : Time → Time) (id other message : String) (time later : Time) (table : Table)
    → UniqueIds table
    → (id == "") ≡ false
    → is_zero later ≡ false
    → (message == "") ≡ false
    → (mark_published timestamptz none id time table).0 ≡ ok tt
    → let marked = (mark_published timestamptz none id time table).1 in
      ((mark_published timestamptz none id later marked).0
        ≡ err (failure "pending outbox event not found"))
      × (row_at other (mark_published timestamptz none id later marked).1 ≡ row_at other marked)
      × ((mark_failed timestamptz none id later message marked).0
          ≡ err (failure "pending outbox event not found"))
      × (row_at other (mark_failed timestamptz none id later message marked).1
          ≡ row_at other marked)
published_is_final timestamptz id other message time later table u hid hlater hmessage h =
    let marked = (mark_published timestamptz none id time table).1 in
    let htime = mark_published_time timestamptz id time table h in
    let closed : is_open (row_at id marked) ≡ false =
      rw (mark_event timestamptz id id message time table u hid htime hmessage).1
        (rw (eq_refl id) (is_open-published (timestamptz time) (row_at id table))) in
    let (result, rows, result', rows') =
      mark_event timestamptz id other message later marked
        (mark_published-UniqueIds timestamptz none id time table u) hid hlater hmessage in
    (
      ground (arith, result, closed),
      rows ∙ same_row id other (set_published (timestamptz later)) marked closed,
      ground (arith, result', closed),
      rows' ∙ same_row id other (set_failed (timestamptz later) message) marked closed,
    )

row_at-missing :
    (id : String) (table : Table) → count_rows (has_id id) table ≡ 0 → row_at id table ≡ none
unfolding count_rows
row_at-missing id [] h = refl
row_at-missing id (row ∷ rest) h = ground (arith, row_at-missing id rest)

row_at-delete :
    (id : String) (cutoff : Time) (table : Table)
    → count_rows (has_id id) table ≤ 1
    → row_at id (select_rows (λ row. not (is_expired cutoff row)) table) ≡ elim (row_at id table) [
      | none ↦ none
      | some row ↦ if is_expired cutoff row then none else some row
    ]
unfolding select_rows count_rows
row_at-delete id cutoff [] h = refl
row_at-delete id cutoff (row ∷ rest) h =
    ground (arith, row_at-delete id cutoff rest, row_at-missing id rest)

-- A cleanup that runs removes the rows that were published before the cutoff and no other: a row that
-- is not published stays, however old it is.
pub delete_published :
    (timestamptz : Time → Time) (id : String) (cutoff : Time) (table : Table)
    → UniqueIds table
    → is_zero cutoff ≡ false
    → row_at id (delete_published_before timestamptz none cutoff table).1 ≡ elim (row_at id table) [
      | none ↦ none
      | some row ↦ if is_expired (timestamptz cutoff) row then none else some row
    ]
unfolding delete_published_before
delete_published timestamptz id cutoff table u h =
    ground (arith, row_at-delete id (timestamptz cutoff) table (u.at_most_one id))
