-- ===== src/Outbox/Relay.antt =====
-- internal/services/outbox_relay_service.go: one pass of the relay over the events that it claims. What
-- the pass calls is an interface over the state of the world, `RelayEnv`; `Relay/Database` fills it with
-- the outbox table and the durable publisher. Logging and metrics are left out, and a context that is
-- cancelled shows as a call that fails.
pub mod Counts
pub mod Safety
pub mod Database
use lol_overlay.Prelude.{
  ℕ, zero, suc, ◌+◌, ◌-◌, ◌*◌, ◌/◌, ◌%◌, ◌^◌, ◌≤◌, ◌<◌, min, String, ◌≡◌, refl, sym, ap, ◌∙◌,
  fun_ext, ◌≢◌, ◌↔◌, ◌⊎◌, inl, inr, Bool, true, false, not, ◌&&◌, ◌||◌, Option, none, some, List,
  [], ◌∷◌, ◌++◌, map, arith, ◌==◌, eq_iff, eq_refl, ltb, leb, nat_eq, if◌then◌else◌, ℤ, int_eq,
  is_positive, Bool-cases, Option-cases, pos, negsuc, All, length, length-append, take, drop, find,
  modify_first, All-append, Error, Result, map_err, failure, wrap, ok, err,
}
use lol_overlay.Models.{Time, is_zero}
use lol_overlay.Messaging.{PublishAck, Bytes}
use lol_overlay.Outbox.{OutboxEvent}
use lol_overlay.Outbox.Retry.{outbox_relay_batch_size, outbox_relay_lease, outbox_retry_delay}

pub record RelayEnv (W : Type 0) : Type 0 where
  pub claim_pending : Time → Time → ℕ → W → Result (List OutboxEvent) × W
  pub mark_published : String → Time → W → Result (Unit {0}) × W
  pub mark_failed : String → Time → String → W → Result (Unit {0}) × W
  pub publish_durable : String → String → Bytes → W → Result PublishAck × W
  -- `err.Error()`
  pub error_text : Error → String

pub record OutboxRelayResult : Type 0 where
  pub claimed : ℕ
  pub published : ℕ
  pub failed : ℕ

-- The result so far and `relayErrors`.
pub record Progress : Type 0 where
  pub result : OutboxRelayResult
  pub errors : List Error

abbrev pub add_published : Progress → Progress
add_published p = record p { result = record p.result { published = p.result.published + 1 } }

abbrev pub add_failed : Progress → Progress
add_failed p = record p { result = record p.result { failed = p.result.failed + 1 } }

abbrev pub add_error : Result (Unit {0}) → String → Progress → Progress
add_error (ok _) text p = p
add_error (err e) text p = record p { errors = p.errors ++ wrap text e ∷ [] }

-- What `MarkPublished` returned.
after_mark : Result (Unit {0}) → Progress → Progress
after_mark (ok _) p = add_published p
after_mark (err e) p = add_error (err e) "mark outbox event published" (add_failed p)

module _ {W : Type 0} (env : RelayEnv W) (now : Time) where
  -- The body of the loop after the call of `PublishDurable`.
  after_publish : OutboxEvent → Result PublishAck → Progress → W → Progress × W
  after_publish event (err publish_err) p w =
      let next_attempt_at = now + outbox_retry_delay event.attempt_count in
      let (marked, w') = env.mark_failed event.id next_attempt_at (env.error_text publish_err) w in
      (add_error marked "mark outbox event failed" (add_failed p), w')
  after_publish event (ok ack) p w =
      let (marked, w') = env.mark_published event.id now w in (after_mark marked p, w')

  unfoldable pub relay_event : OutboxEvent → Progress → W → Progress × W
  unfolding after_publish after_mark
  relay_event event p w =
      let (published, w') = env.publish_durable event.subject event.id event.payload w in
      after_publish event published p w'

  unfoldable pub relay_events : List OutboxEvent → Progress → W → Progress × W
  relay_events [] p w = (p, w)
  relay_events (event ∷ rest) p w = let (p', w') = relay_event event p w in relay_events rest p' w'

  relay_claimed : Result (List OutboxEvent) → W → Progress × W
  relay_claimed (err e) w = (
    record {
      result = record { claimed = 0; published = 0; failed = 0 };
      errors = wrap "claim outbox events" e ∷ [];
    },
    w,
  )
  relay_claimed (ok events) w =
      relay_events events
        (record {
          result = record { claimed = length events; published = 0; failed = 0 };
          errors = [];
        })
        w

  -- `RelayOnce`; the error is nil if the list of errors is empty.
  unfoldable pub relay_once : W → Progress × W
  unfolding relay_claimed
  relay_once w =
      if is_zero now
      then (
        record {
          result = record { claimed = 0; published = 0; failed = 0 };
          errors = failure "outbox relay time is required" ∷ [];
        },
        w,
      )
      else (let (events, w') =
            env.claim_pending now (now + outbox_relay_lease) outbox_relay_batch_size w in
          relay_claimed events w')
