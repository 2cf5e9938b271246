-- ===== src/Cleanup/Recent.antt =====
-- Claims of events that the stream may still deliver, and the cleanup of processed events.
use lol_overlay.Cleanup.{
  is_zero, day, is_old, processed_event_retention, delete_processed_before, cleanup_processed,
}
use lol_overlay.Models.{is_zero, Time}
use lol_overlay.Prelude.{
  ℕ, ◌-◌, ◌*◌, ◌≤◌, String, ◌≡◌, inl, inr, Bool, true, not, ◌&&◌, Option, List, [], ◌∷◌, arith, leb,
  Bool-cases, Option-cases, filter, any, Error,
}
use lol_overlay.GameEvents.{
  Database, ProcessedEvent, GameEvent, Transaction, is_claim, is_claimed, process_game_started,
  process_game_ended,
}
use lol_overlay.GameEvents.Consumer.Once.{started-IsOnce, ended-IsOnce}

-- `gameEventsMaxAge` of internal/messaging/jetstream.go: a message older than that is not delivered.
abbrev pub game_events_max_age : ℕ
game_events_max_age = 7 * day

-- The consumer claimed the event at `since` or later.
abbrev pub is_claimed_since : Time → String → String → List ProcessedEvent → Bool
is_claimed_since since consumer_name event_id =
    any
      (λ (row : ProcessedEvent). is_claim consumer_name event_id row && leb since row.processed_at)

filter-claimed :
    (cutoff since : Time) (consumer_name event_id : String) (rows : List ProcessedEvent)
    → cutoff ≤ since
    → is_claimed_since since consumer_name event_id rows ≡ true
    → is_claimed consumer_name event_id
        (filter (λ (row : ProcessedEvent). not (is_old cutoff row)) rows)
      ≡ true
unfolding is_claimed
filter-claimed cutoff since consumer_name event_id [] le h = h
filter-claimed cutoff since consumer_name event_id (row ∷ rest) le h =
    ground (arith, filter-claimed cutoff since consumer_name event_id rest le)

any_claimed :
    (since : Time) (consumer_name event_id : String) (rows : List ProcessedEvent)
    → is_claimed_since since consumer_name event_id rows ≡ true
    → is_claimed consumer_name event_id rows ≡ true
unfolding is_claimed
any_claimed since consumer_name event_id [] h = h
any_claimed since consumer_name event_id (row ∷ rest) h =
    ground (arith, any_claimed since consumer_name event_id rest)

cleanup-claimed :
    (fault : Option Error) (now : Time) (consumer_name event_id : String) (db : Database)
    → is_claimed_since (now - game_events_max_age) consumer_name event_id db.processed ≡ true
    → is_claimed consumer_name event_id (cleanup_processed fault now db).1.processed ≡ true
unfolding cleanup_processed delete_processed_before
cleanup-claimed fault now consumer_name event_id db h =
    let cutoff = now - processed_event_retention in
    let before = any_claimed (now - game_events_max_age) consumer_name event_id db.processed h in
    elim (Bool-cases (is_zero now)) [
      | inl z ↦ rw z before
      | inr z ↦ elim (Bool-cases (is_zero cutoff)) [
        | inl z' ↦ rw (z, z') before
        | inr z' ↦ elim (Option-cases fault) [
          | inr (e, f) ↦ rw (z, z', f) before
          | inl f ↦
              rw (z, z', f)
                (filter-claimed cutoff (now - game_events_max_age) consumer_name event_id
                  db.processed (omega arith) h)
        ]
      ]
    ]

-- An event that was claimed while the stream may still hold its message is not applied again after a
-- cleanup: its delivery changes nothing, whatever the cleanup and the transaction return.
pub cleanup-once :
    (fault : Option Error) (now : Time) (tx : Transaction) (event : GameEvent) (db : Database)
    → is_claimed_since (now - game_events_max_age) event.consumer_name event.event_id db.processed
      ≡ true
    → ((process_game_started tx event (cleanup_processed fault now db).1).1
        ≡ (cleanup_processed fault now db).1)
      × ((process_game_ended tx event (cleanup_processed fault now db).1).1
          ≡ (cleanup_processed fault now db).1)
cleanup-once fault now tx event db h =
    let after = (cleanup_processed fault now db).1 in
    let claimed = cleanup-claimed fault now event.consumer_name event.event_id db h in
    ((started-IsOnce tx).ignores event after claimed, (ended-IsOnce tx).ignores event after claimed)
