-- ===== src/Lifecycle/Service.antt =====
-- internal/services/game_lifecycle_service.go: the tracker's transitions become events of the outbox. The
-- event metadata, the encoding of the events and the outbox are an interface over the state of the world.
pub mod Events
use lol_overlay.Prelude.{
  ℕ, zero, suc, ◌+◌, ◌-◌, ◌*◌, ◌/◌, ◌%◌, ◌^◌, ◌≤◌, ◌<◌, min, String, ◌≡◌, refl, sym, ap, ◌∙◌,
  fun_ext, ◌≢◌, ◌↔◌, ◌⊎◌, inl, inr, Bool, true, false, not, ◌&&◌, ◌||◌, Option, none, some, List,
  [], ◌∷◌, ◌++◌, map, arith, ◌==◌, eq_iff, eq_refl, ltb, leb, nat_eq, if◌then◌else◌, ℤ, int_eq,
  is_positive, Bool-cases, Option-cases, pos, negsuc, All, length, length-append, take, drop, find,
  modify_first, All-append, Error, Result, map_err, Result-cases, failure, wrap, ok, err, Exec,
  pure, wrapping, continue, ◌>>=◌, ◌>>◌,
}
use lol_overlay.Models.{Time}
use lol_overlay.Messaging.{EventMetadata, Bytes, subject_game_started, subject_game_ended}
use lol_overlay.Outbox.{OutboxEvent}
use lol_overlay.Lifecycle.{
  Transition, Tracker, new_tracker, observe, game_lifecycle_started, game_lifecycle_ended,
}

pub record LifecycleEnv (W : Type 0) : Type 0 where
  -- `messaging.NewEventMetadata()`
  pub new_event_metadata : W → Result EventMetadata × W
  -- `json.Marshal` of a `GameStartedEvent` and of a `GameEndedEvent`
  pub marshal_started : EventMetadata → ℤ → String → Result Bytes
  pub marshal_ended : EventMetadata → ℤ → String → Result Bytes
  -- `OutboxWriter.Enqueue`
  pub enqueue : OutboxEvent → W → Result Bool × W

pub record LifecycleService (W : Type 0) : Type 0 where
  pub world : W
  pub tracker : Tracker
  pub pending : Option OutboxEvent

-- `NewGameLifecycleService`
unfoldable pub new_lifecycle_service : {W : Type 0} → W → LifecycleService W
new_lifecycle_service w = record { world = w; tracker = new_tracker; pending = none }

-- An event whose other fields have Go's zero values.
abbrev outbox_event : EventMetadata → String → Bytes → OutboxEvent
outbox_event metadata subject payload = record {
  id = metadata.event_id;
  subject = subject;
  payload = payload;
  created_at = 0;
  attempt_count = 0;
}

-- What `json.Marshal` returned.
after_marshal : EventMetadata → String → String → Result Bytes → Result OutboxEvent
after_marshal metadata subject text (err e) = err (wrap text e)
after_marshal metadata subject text (ok payload) = ok (outbox_event metadata subject payload)

module _ {W : Type 0} (env : LifecycleEnv W) where
  unfoldable pub new_game_outbox_event : Transition → EventMetadata → Result OutboxEvent
  unfolding after_marshal
  new_game_outbox_event transition metadata =
      if transition.kind == game_lifecycle_started
      then after_marshal metadata subject_game_started "marshal game started event"
          (env.marshal_started metadata transition.game_id transition.room_id)
      else if transition.kind == game_lifecycle_ended
      then after_marshal metadata subject_game_ended "marshal game ended event"
          (env.marshal_ended metadata transition.game_id transition.room_id)
      else err (failure "unsupported lifecycle transition")

  -- `enqueuePending` of the event in `s.pending`, and `s.pending = nil` where it succeeds.
  after_enqueue :
      OutboxEvent → LifecycleService W → Result Bool × W → Result (Unit {0}) × LifecycleService W
  after_enqueue event s (err e, w) =
      (err (wrap "enqueue game event" e), record s { world = w; pending = some event })
  after_enqueue event s (ok _, w) = (ok tt, record s { world = w; pending = none })

  enqueue_pending : OutboxEvent → Exec (LifecycleService W) (Unit {0})
  unfolding after_enqueue
  enqueue_pending event s = after_enqueue event s (env.enqueue event s.world)

  -- The first part of `Observe`, for the event that an earlier call left.
  enqueue_earlier : Exec (LifecycleService W) (Unit {0})
  unfolding enqueue_pending
  enqueue_earlier s = elim s.pending [ none ↦ (ok tt, s) | some event ↦ enqueue_pending event s ]

  after_event : Result OutboxEvent → Exec (LifecycleService W) (Unit {0})
  unfolding enqueue_pending
  after_event (err e) s = (err e, s)
  after_event (ok event) s = enqueue_pending event s

  after_metadata :
      Transition
      → LifecycleService W
      → Result EventMetadata × W
      → Result (Unit {0}) × LifecycleService W
  unfolding after_event new_game_outbox_event
  after_metadata transition s (err e, w) =
      (err (wrap "create game event metadata" e), record s { world = w })
  after_metadata transition s (ok metadata, w) =
      after_event (new_game_outbox_event transition metadata) (record s { world = w })

  -- The rest of `Observe`, for the transition that the tracker returned.
  after_transition : Option Transition → Exec (LifecycleService W) (Unit {0})
  unfolding after_metadata
  after_transition none s = (ok tt, s)
  after_transition (some transition) s =
      after_metadata transition s (env.new_event_metadata s.world)

  track : String → ℤ → String → Exec (LifecycleService W) (Unit {0})
  unfolding after_transition observe
  track phase game_id room_id s =
      let (t, transition) = observe s.tracker phase game_id room_id in
      after_transition transition (record s { tracker = t })

  -- `GameLifecycleService.Observe`
  unfoldable pub observe_game : String → ℤ → String → Exec (LifecycleService W) (Unit {0})
  unfolding enqueue_earlier track
  observe_game phase game_id room_id = do enqueue_earlier; track phase game_id room_id
