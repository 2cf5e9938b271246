-- ===== src/Outbox/Relay/Safety.antt =====
-- The events that the relay of internal/services/outbox_relay_service.go marks as published, and those
-- that are stored by the stream, over any filling of the relay's interface.
use lol_overlay.Prelude.{
  ℕ, ◌+◌, String, ◌≡◌, refl, sym, ◌∙◌, ◌⊎◌, inl, inr, Bool, true, List, [], ◌∷◌, Bool-cases, Result,
  ok, err,
}
use lol_overlay.Models.{Time, is_zero}
use lol_overlay.Messaging.{PublishAck, Bytes}
use lol_overlay.Outbox.{OutboxEvent}
use lol_overlay.Outbox.Retry.{outbox_relay_batch_size, outbox_relay_lease, outbox_retry_delay}
use lol_overlay.Outbox.Relay.{
  RelayEnv, Progress, after_publish, relay_event, relay_events, relay_claimed, relay_once,
}

-- What the relay relies on: which ids are marked and which are stored, and how the calls change that.
pub record RelayLaws {W : Type 0} (env : RelayEnv W) (marked stored : W → String → Bool)
    : Type 0 where
  pub claim_marked :
      (now lease : Time) (limit : ℕ) (w : W) (id : String)
      → marked (env.claim_pending now lease limit w).1 id ≡ marked w id
  pub claim_stored :
      (now lease : Time) (limit : ℕ) (w : W) (id : String)
      → stored (env.claim_pending now lease limit w).1 id ≡ stored w id
  pub mark_published_marked :
      (event_id : String) (at : Time) (w : W) (id : String)
      → marked (env.mark_published event_id at w).1 id ≡ true
      → (marked w id ≡ true) ⊎ (event_id ≡ id)
  pub mark_published_stored :
      (event_id : String) (at : Time) (w : W) (id : String)
      → stored (env.mark_published event_id at w).1 id ≡ stored w id
  pub mark_failed_marked :
      (event_id : String) (next : Time) (text : String) (w : W) (id : String)
      → marked (env.mark_failed event_id next text w).1 id ≡ marked w id
  pub mark_failed_stored :
      (event_id : String) (next : Time) (text : String) (w : W) (id : String)
      → stored (env.mark_failed event_id next text w).1 id ≡ stored w id
  pub publish_marked :
      (subject event_id : String) (body : Bytes) (w : W) (id : String)
      → marked (env.publish_durable subject event_id body w).1 id ≡ marked w id
  pub publish_stored :
      (subject event_id : String) (body : Bytes) (w : W) (id : String)
      → stored w id ≡ true
      → stored (env.publish_durable subject event_id body w).1 id ≡ true
  pub ack_stored :
      (subject event_id : String) (body : Bytes) (w : W) (ack : PublishAck)
      → (env.publish_durable subject event_id body w).0 ≡ ok ack
      → stored (env.publish_durable subject event_id body w).1 event_id ≡ true

-- Whatever is marked as published is stored by the stream.
pub record IsSafe {W : Type 0} (marked stored : W → String → Bool) (w : W) : Type 0 where
  pub marked_stored : (id : String) → marked w id ≡ true → stored w id ≡ true

module _ {W : Type 0} (env : RelayEnv W) (marked stored : W → String → Bool)
    (laws : RelayLaws env marked stored) (now : Time) where
  after_publish-IsSafe :
      (event : OutboxEvent) (published : Result PublishAck) (p : Progress) (w : W)
      → IsSafe marked stored w
      → ((ack : PublishAck) → published ≡ ok ack → stored w event.id ≡ true)
      → IsSafe marked stored (after_publish env now event published p w).1
  unfolding after_publish
  after_publish-IsSafe event (err e) p w safe acked = record {
    marked_stored = λ id h.
        laws.mark_failed_stored event.id next (env.error_text e) w id
        ∙ safe.marked_stored id
            (sym (laws.mark_failed_marked event.id next (env.error_text e) w id) ∙ h);
  }
    where
      next : Time
      next = now + outbox_retry_delay event.attempt_count
  after_publish-IsSafe event (ok ack) p w safe acked = record {
    marked_stored = λ id h.
        laws.mark_published_stored event.id now w id
        ∙ elim (laws.mark_published_marked event.id now w id h) [
          | inl before ↦ safe.marked_stored id before
          | inr same ↦ rw same at (acked ack refl)
        ];
  }

  relay_event-IsSafe :
      (event : OutboxEvent) (p : Progress) (w : W)
      → IsSafe marked stored w
      → IsSafe marked stored (relay_event env now event p w).1
  unfolding relay_event
  relay_event-IsSafe event p w safe =
      let call = env.publish_durable event.subject event.id event.payload w in
      after_publish-IsSafe event call.0 p call.1
        (record {
          marked_stored = λ id h. laws.publish_stored event.subject event.id event.payload w id (
              safe.marked_stored id
                (sym (laws.publish_marked event.subject event.id event.payload w id) ∙ h));
        })
        (laws.ack_stored event.subject event.id event.payload w)

  relay_events-IsSafe :
      (events : List OutboxEvent) (p : Progress) (w : W)
      → IsSafe marked stored w
      → IsSafe marked stored (relay_events env now events p w).1
  unfolding relay_events
  relay_events-IsSafe [] p w safe = safe
  relay_events-IsSafe (event ∷ rest) p w safe =
      let (p', w') = relay_event env now event p w in
      relay_events-IsSafe rest p' w' (relay_event-IsSafe event p w safe)

  relay_claimed-IsSafe :
      (claimed : Result (List OutboxEvent)) (w : W)
      → IsSafe marked stored w
      → IsSafe marked stored (relay_claimed env now claimed w).1
  unfolding relay_claimed
  relay_claimed-IsSafe (err e) w safe = safe
  relay_claimed-IsSafe (ok events) w safe = relay_events-IsSafe events _ w safe

  pub relay_once-IsSafe :
      (w : W) → IsSafe marked stored w → IsSafe marked stored (relay_once env now w).1
  unfolding relay_once
  relay_once-IsSafe w safe = elim (Bool-cases (is_zero now)) [
    | inl e ↦ rw e safe
    | inr e ↦
        let claim = env.claim_pending now (now + outbox_relay_lease) outbox_relay_batch_size w in
        rw e (
          relay_claimed-IsSafe claim.0 claim.1 (record {
            marked_stored = λ id h.
                laws.claim_stored now (now + outbox_relay_lease) outbox_relay_batch_size w id
                ∙ safe.marked_stored id (
                    sym (
                      laws.claim_marked now (now + outbox_relay_lease) outbox_relay_batch_size w id)
                    ∙ h);
          }))
  ]
