-- ===== src/Cleanup.antt =====
-- internal/services/outbox_cleanup_service.go and processed_event_cleanup_service.go, with
-- internal/repositories/postgres/processedevent/repository.go. `Start` repeats `Cleanup` every day; the
-- clock is an argument, and it is past the retention, which the subtraction takes for granted.
pub mod Recent
use lol_overlay.Prelude.{
  ℕ, zero, suc, ◌+◌, ◌-◌, ◌*◌, ◌/◌, ◌%◌, ◌^◌, ◌≤◌, ◌<◌, min, String, ◌≡◌, refl, sym, ap, ◌∙◌,
  fun_ext, ◌≢◌, ◌↔◌, ◌⊎◌, inl, inr, Bool, true, false, not, ◌&&◌, ◌||◌, Option, none, some, List,
  [], ◌∷◌, ◌++◌, map, arith, ◌==◌, eq_iff, eq_refl, ltb, leb, nat_eq, if◌then◌else◌, ℤ, int_eq,
  is_positive, Bool-cases, Option-cases, pos, negsuc, All, length, length-append, take, drop, find,
  modify_first, All-append, filter, any, filter-append, any-append, filter-All, filter_none,
  any_none, All-filter, All-map, Error, Result, map_err, Result-cases, map_err_ok, failure, wrap,
  ok, err, Exec, pure, wrapping, continue, ◌>>=◌, ◌>>◌,
}
use lol_overlay.Models.{Time, is_zero, minute}
use lol_overlay.Outbox.{Table, delete_published_before}
use lol_overlay.GameEvents.{Database, ProcessedEvent}

abbrev pub day : ℕ
day = 24 * (60 * minute)

abbrev pub outbox_retention : ℕ
outbox_retention = 30 * day

abbrev pub processed_event_retention : ℕ
processed_event_retention = 30 * day

abbrev pub is_old : Time → ProcessedEvent → Bool
is_old cutoff row = ltb row.processed_at cutoff

-- The fault is that of the one statement; the result is the number of rows.
unfoldable pub delete_processed_before : Option Error → Time → Database → Result ℕ × Database
delete_processed_before fault cutoff db =
    if is_zero cutoff
    then (err (failure "processed event cutoff is required"), db)
    else elim fault [
      | some e ↦ (err (wrap "delete processed events" e), db)
      | none ↦ (
        ok (length (filter (is_old cutoff) db.processed)),
        record db {
          processed = filter (λ (row : ProcessedEvent). not (is_old cutoff row)) db.processed;
        },
      )
    ]

-- `Cleanup` of the two services.
unfoldable pub cleanup_processed : Option Error → Time → Database → Result ℕ × Database
unfolding delete_processed_before
cleanup_processed fault now db =
    if is_zero now
    then (err (failure "cleanup time is required"), db)
    else wrapping "cleanup processed events"
        (delete_processed_before fault (now - processed_event_retention)) db

unfoldable pub cleanup_outbox : (Time → Time) → Option Error → Time → Table → Result ℕ × Table
cleanup_outbox timestamptz fault now table =
    if is_zero now
    then (err (failure "outbox cleanup time is required"), table)
    else wrapping "cleanup published outbox events"
        (delete_published_before timestamptz fault (now - outbox_retention)) table
