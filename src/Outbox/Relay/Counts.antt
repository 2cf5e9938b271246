-- ===== src/Outbox/Relay/Counts.antt =====
-- The counts that one pass of the relay reports (internal/services/outbox_relay_service.go).
use lol_overlay.Outbox.Relay.{
  add_failed, outbox_relay_batch_size, add_error, after_mark, outbox_relay_lease,
  outbox_retry_delay, PublishAck, RelayEnv, Progress, after_publish, relay_event, relay_events,
  relay_claimed, relay_once,
}
use lol_overlay.Prelude.{
  ℕ, ◌+◌, ◌≤◌, String, ◌≡◌, refl, ◌⊎◌, inl, inr, false, List, [], ◌∷◌, arith, length, length-append,
  Result, wrap, ok, err,
}
use lol_overlay.Models.{Time, is_zero}
use lol_overlay.Outbox.{OutboxEvent}

abbrev Counts : Progress → Progress → ℕ → Type 0
Counts p q n =
    (q.result.claimed ≡ p.result.claimed)
    × (q.result.published + q.result.failed ≡ p.result.published + p.result.failed + n)
    × (length q.errors + p.result.failed ≤ length p.errors + q.result.failed)

add_error-Counts :
    (marked : Result (Unit {0})) (text : String) (p : Progress)
    → Counts p (add_error marked text (add_failed p)) 1
add_error-Counts (ok _) text p = omega arith
add_error-Counts (err e) text p = omega (arith, length-append p.errors (wrap text e ∷ []))

after_mark-Counts : (marked : Result (Unit {0})) (p : Progress) → Counts p (after_mark marked p) 1
unfolding after_mark
after_mark-Counts (ok _) p = omega arith
after_mark-Counts (err e) p = add_error-Counts (err e) "mark outbox event published" p

module _ {W : Type 0} (env : RelayEnv W) (now : Time) where
  -- one event moves exactly one of the two counts by one, and an error is recorded only for a failure
  after_publish-Counts :
      (event : OutboxEvent) (published : Result PublishAck) (p : Progress) (w : W)
      → Counts p (after_publish env now event published p w).0 1
  unfolding after_publish
  after_publish-Counts event (err e) p w =
      add_error-Counts
        (env.mark_failed event.id (now + outbox_retry_delay event.attempt_count) (env.error_text e)
          w).0
        "mark outbox event failed" p
  after_publish-Counts event (ok ack) p w =
      after_mark-Counts (env.mark_published event.id now w).0 p

  relay_event-Counts :
      (event : OutboxEvent) (p : Progress) (w : W) → Counts p (relay_event env now event p w).0 1
  unfolding relay_event
  relay_event-Counts event p w =
      after_publish-Counts event (env.publish_durable event.subject event.id event.payload w).0 p
        (env.publish_durable event.subject event.id event.payload w).1

  relay_events-Counts :
      (events : List OutboxEvent) (p : Progress) (w : W)
      → Counts p (relay_events env now events p w).0 (length events)
  unfolding relay_events
  relay_events-Counts [] p w = omega arith
  relay_events-Counts (event ∷ rest) p w =
      let (p', w') = relay_event env now event p w in
      omega (arith, relay_event-Counts event p w, relay_events-Counts rest p' w')

  relay_claimed_counts :
      (claimed : Result (List OutboxEvent)) (w : W)
      → let q = (relay_claimed env now claimed w).0 in
        (q.result.published + q.result.failed ≡ q.result.claimed)
        × ((q.result.claimed ≡ 0) ⊎ (length q.errors ≤ q.result.failed))
  unfolding relay_claimed
  relay_claimed_counts (err e) w = (refl, inl refl)
  relay_claimed_counts (ok events) w =
      let start : Progress = record {
        result = record { claimed = length events; published = 0; failed = 0 };
        errors = [];
      } in
      let counts = relay_events-Counts events start w in
      (omega (arith, counts), inr (omega (arith, counts)))

  -- Whatever the database and the publisher answer, a pass with a time set counts every event that it
  -- claims as published or as failed, once, and where it claims any it reports no more errors than failed
  -- events.
  pub relay_once-Counts :
      (w : W)
      → is_zero now ≡ false
      → let q = (relay_once env now w).0 in
        (q.result.published + q.result.failed ≡ q.result.claimed)
        × ((q.result.claimed ≡ 0) ⊎ (length q.errors ≤ q.result.failed))
  unfolding relay_once
  relay_once-Counts w h =
      let claim = env.claim_pending now (now + outbox_relay_lease) outbox_relay_batch_size w in
      rw h (relay_claimed_counts claim.0 claim.1)
