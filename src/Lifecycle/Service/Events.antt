-- ===== src/Lifecycle/Service/Events.antt =====
-- What one call of `Observe` of internal/services/game_lifecycle_service.go does with the events.
use lol_overlay.Prelude.{
  String, ◌≡◌, refl, ◌⊎◌, inl, inr, Bool, true, Option, none, some, ℤ, Error, Result, Result-cases,
  wrap, ok, err,
}
use lol_overlay.Outbox.{OutboxEvent}
use lol_overlay.Lifecycle.{Transition, Tracker, observe}
use lol_overlay.Lifecycle.Service.{
  EventMetadata, LifecycleEnv, LifecycleService, new_game_outbox_event, after_enqueue,
  enqueue_pending, enqueue_earlier, after_event, after_metadata, after_transition, track,
  observe_game,
}

-- The outbox has stored an event that it accepted, and drops none; `stored` is by the event's id.
pub record LifecycleEnvLaws {W : Type 0} (env : LifecycleEnv W) (stored : W → String → Bool)
    : Type 0 where
  pub enqueue_stored :
      (event : OutboxEvent) (w : W) (inserted : Bool)
      → (env.enqueue event w).0 ≡ ok inserted
      → stored (env.enqueue event w).1 event.id ≡ true
  pub enqueue_keeps :
      (event : OutboxEvent) (w : W) (id : String)
      → stored w id ≡ true
      → stored (env.enqueue event w).1 id ≡ true
  pub metadata_keeps :
      (w : W) (id : String) → stored w id ≡ true → stored (env.new_event_metadata w).1 id ≡ true

module _ {W : Type 0} (env : LifecycleEnv W) (stored : W → String → Bool) where
  -- An event that was left by an earlier call is stored.
  abbrev pub EarlierStored : Option OutboxEvent → W → Type 0
  EarlierStored none w = Unit
  EarlierStored (some event) w = stored w event.id ≡ true

  -- What a call says of the service before and after it.
  pub data Observed (phase : String) (game_id : ℤ) (room_id : String)
      (before after : LifecycleService W) : Result (Unit {0}) → Type 0 where
    earlier_failed :
        (e : Error) (event : OutboxEvent)
        → after.tracker ≡ before.tracker
        → before.pending ≡ some event
        → after.pending ≡ some event
        → Observed phase game_id room_id before after (err e)
    quiet :
        EarlierStored before.pending after.world
        → observe before.tracker phase game_id room_id ≡ (after.tracker, none)
        → after.pending ≡ none
        → Observed phase game_id room_id before after (ok tt)
    enqueued :
        (transition : Transition) (metadata : EventMetadata) (event : OutboxEvent)
        → EarlierStored before.pending after.world
        → observe before.tracker phase game_id room_id ≡ (after.tracker, some transition)
        → new_game_outbox_event env transition metadata ≡ ok event
        → stored after.world event.id ≡ true
        → after.pending ≡ none
        → Observed phase game_id room_id before after (ok tt)
    kept :
        (e : Error) (transition : Transition) (metadata : EventMetadata) (event : OutboxEvent)
        → EarlierStored before.pending after.world
        → observe before.tracker phase game_id room_id ≡ (after.tracker, some transition)
        → new_game_outbox_event env transition metadata ≡ ok event
        → after.pending ≡ some event
        → Observed phase game_id room_id before after (err e)
    lost :
        (e : Error) (transition : Transition) (w : W)
        → EarlierStored before.pending after.world
        → observe before.tracker phase game_id room_id ≡ (after.tracker, some transition)
        → ((failed : Error) × ((env.new_event_metadata w).0 ≡ err failed))
          ⊎ ((metadata : EventMetadata) × (new_game_outbox_event env transition metadata ≡ err e))
        → after.pending ≡ none
        → Observed phase game_id room_id before after (err e)

  module _ (laws : LifecycleEnvLaws env stored) where
    EarlierStored-keeps :
        (earlier : Option OutboxEvent) (w w' : W)
        → ((id : String) → stored w id ≡ true → stored w' id ≡ true)
        → EarlierStored earlier w
        → EarlierStored earlier w'
    EarlierStored-keeps none w w' keeps h = tt
    EarlierStored-keeps (some event) w w' keeps h = keeps event.id h

    module _ (phase : String) (game_id : ℤ) (room_id : String) (before : LifecycleService W) where
      after_event-Observed :
          (transition : Transition) (metadata : EventMetadata) (made : Result OutboxEvent)
          (start w : W) (tracker : Tracker)
          → new_game_outbox_event env transition metadata ≡ made
          → observe before.tracker phase game_id room_id ≡ (tracker, some transition)
          → EarlierStored before.pending w
          → let r =
              after_event env made (record { world = w; tracker = tracker; pending = none }) in
            Observed phase game_id room_id before r.1 r.0
      unfolding after_event enqueue_pending after_enqueue
      after_event-Observed transition metadata (err e) start w tracker m o h =
          lost e transition start h o (inr (metadata, m)) refl
      after_event-Observed transition metadata (ok event) start w tracker m o h =
          let call = env.enqueue event w in
          let h' = EarlierStored-keeps before.pending w call.1 (laws.enqueue_keeps event w) h in
          elim (Result-cases call.0) [
            | inl (b, e) ↦
                rw (e, after_enqueue)
                  (enqueued transition metadata event h' o m (laws.enqueue_stored event w b e) refl)
            | inr (x, e) ↦
                rw (e, after_enqueue)
                  (kept (wrap "enqueue game event" x) transition metadata event h' o m refl)
          ]

      after_transition-Observed :
          (transition : Option Transition) (w : W) (tracker : Tracker)
          → observe before.tracker phase game_id room_id ≡ (tracker, transition)
          → EarlierStored before.pending w
          → let r =
              after_transition env transition
                (record { world = w; tracker = tracker; pending = none }) in
            Observed phase game_id room_id before r.1 r.0
      unfolding after_transition after_metadata
      after_transition-Observed none w tracker o h = quiet h o refl
      after_transition-Observed (some transition) w tracker o h =
          let call = env.new_event_metadata w in
          let h' = EarlierStored-keeps before.pending w call.1 (laws.metadata_keeps w) h in
          elim (Result-cases call.0) [
            | inl (metadata, e) ↦
                rw (e, after_metadata)
                  (after_event-Observed transition metadata
                    (new_game_outbox_event env transition metadata) w call.1 tracker refl o h')
            | inr (x, e) ↦
                rw (e, after_metadata)
                  (lost (wrap "create game event metadata" x) transition w h' o (inl (x, e)) refl)
          ]

      track-Observed :
          (w : W)
          → EarlierStored before.pending w
          → let r =
              track env phase game_id room_id
                (record { world = w; tracker = before.tracker; pending = none }) in
            Observed phase game_id room_id before r.1 r.0
      unfolding track
      track-Observed w h =
          let o = observe before.tracker phase game_id room_id in
          after_transition-Observed o.1 w o.0 refl h

    observe_pending-Observed :
        (phase : String) (game_id : ℤ) (room_id : String) (w : W) (tracker : Tracker)
        (pending : Option OutboxEvent)
        → let s : LifecycleService W = record { world = w; tracker = tracker; pending = pending } in
          Observed phase game_id room_id s
            (observe_game env phase game_id room_id s).1
            (observe_game env phase game_id room_id s).0
    unfolding observe_game enqueue_earlier enqueue_pending after_enqueue
    observe_pending-Observed phase game_id room_id w tracker none =
        track-Observed phase game_id room_id
          (record { world = w; tracker = tracker; pending = none }) w tt
    observe_pending-Observed phase game_id room_id w tracker (some event) =
        let s : LifecycleService W = record {
          world = w;
          tracker = tracker;
          pending = some event;
        } in
        let call = env.enqueue event w in
        elim (Result-cases call.0) [
          | inl (b, e) ↦
              rw (e, after_enqueue)
                (track-Observed phase game_id room_id s call.1 (laws.enqueue_stored event w b e))
          | inr (x, e) ↦
              rw (e, after_enqueue)
                (earlier_failed (wrap "enqueue game event" x) event refl refl refl)
        ]

    -- One observation of the lifecycle service: an event that an earlier call could not enqueue is enqueued
    -- first, and where that fails nothing is observed and the event is kept. Otherwise the tracker observes
    -- the phase, and the transition that it returns, if any, has its event stored, or kept for the next call
    -- with an error, or is lost with an error, only where no event could be made of it.
    pub observe_game-Observed :
        (phase : String) (game_id : ℤ) (room_id : String) (s : LifecycleService W)
        → Observed phase game_id room_id s
            (observe_game env phase game_id room_id s).1
            (observe_game env phase game_id room_id s).0
    observe_game-Observed phase game_id room_id s =
        observe_pending-Observed phase game_id room_id s.world s.tracker s.pending
