-- ===== src/Lifecycle/Trace.antt =====
-- What the tracker of internal/services/game_lifecycle.go emits over a sequence of observations.
use lol_overlay.Prelude.{
  ◌⊎◌, refl, ◌≢◌, String, ◌≡◌, Bool, true, false, not, Option, none, some, List, [], ◌∷◌, arith,
  ◌==◌, if◌then◌else◌, ℤ, is_positive,
}
use lol_overlay.Lifecycle.{
  inr, ap, inl, All, classify, new_tracker, pos, game_lifecycle_started, game_lifecycle_ended,
  Transition, Tracker, Phase, observe_phase, observe, champ_select,
}

pub record Observation : Type 0 where
  pub phase : String
  pub game_id : ℤ
  pub room_id : String

abbrev pub step : Tracker → Observation → Tracker × Option Transition
step t o = observe t o.phase o.game_id o.room_id

abbrev emit : Option Transition → List Transition → List Transition
emit none later = later
emit (some transition) later = transition ∷ later

-- The transitions that a run of observations emits, in order, and the tracker that it ends in.
unfoldable pub run : Tracker → List Observation → Tracker × List Transition
run t [] = (t, [])
run t (o ∷ rest) =
    let (t', emitted) = step t o in let (end, later) = run t' rest in (end, emit emitted later)

-- A started tracker knows its game.
abbrev pub IsTracking : Tracker → Type 0
IsTracking t = t.started ≡ true → (is_positive t.game_id ≡ true) × ((t.room_id == "") ≡ false)

-- Transitions that alternate between start and end, from a state in which a game is running or not,
-- each about a positive game id and a room.
abbrev pub Alternates : Bool → List Transition → Type 0
Alternates running [] = Unit
Alternates running (transition ∷ rest) =
    (transition.kind ≡ (if running then game_lifecycle_ended else game_lifecycle_started))
    × (is_positive transition.game_id ≡ true)
    × ((transition.room_id == "") ≡ false)
    × Alternates (not running) rest

observe_phase-IsTracking :
    (p : Phase) (t : Tracker) (g : ℤ) (r : String)
    → IsTracking t
    → IsTracking (observe_phase p t g r).0
unfolding observe_phase
observe_phase-IsTracking champ_select t g r h = ground arith
observe_phase-IsTracking _ t g r h = ground arith

-- One observation: no transition keeps the running flag, and a transition is the one that is due.
observe_phase_emits :
    (p : Phase) (t : Tracker) (g : ℤ) (r : String)
    → IsTracking t
    → ((observe_phase p t g r).1 ≡ none → (observe_phase p t g r).0.started ≡ t.started)
      × ((x : Transition)
          → (observe_phase p t g r).1 ≡ some x
          → (x.kind ≡ (if t.started then game_lifecycle_ended else game_lifecycle_started))
            × (is_positive x.game_id ≡ true)
            × ((x.room_id == "") ≡ false)
            × ((observe_phase p t g r).0.started ≡ not t.started))
unfolding observe_phase
observe_phase_emits champ_select t g r h = (ground arith, λ x e. ground arith)
observe_phase_emits _ t g r h = (ground arith, λ x e. ground arith)

module _ (t : Tracker) (o : Observation) (h : IsTracking t) where
  step-IsTracking : IsTracking (step t o).0
  unfolding observe
  step-IsTracking = observe_phase-IsTracking (classify o.phase) t o.game_id o.room_id h

  step-none : (step t o).1 ≡ none → (step t o).0.started ≡ t.started
  unfolding observe
  step-none = (observe_phase_emits (classify o.phase) t o.game_id o.room_id h).0

  step-some :
      (x : Transition)
      → (step t o).1 ≡ some x
      → (x.kind ≡ (if t.started then game_lifecycle_ended else game_lifecycle_started))
        × (is_positive x.game_id ≡ true)
        × ((x.room_id == "") ≡ false)
        × ((step t o).0.started ≡ not t.started)
  unfolding observe
  step-some = (observe_phase_emits (classify o.phase) t o.game_id o.room_id h).1

emit-Alternates :
    (running after : Bool) (emitted : Option Transition) (later : List Transition)
    → (emitted ≡ none → after ≡ running)
    → ((x : Transition)
        → emitted ≡ some x
        → (x.kind ≡ (if running then game_lifecycle_ended else game_lifecycle_started))
          × (is_positive x.game_id ≡ true)
          × ((x.room_id == "") ≡ false)
          × (after ≡ not running))
    → Alternates after later
    → Alternates running (emit emitted later)
emit-Alternates running after none later hn hs h = rw (hn refl) at h
emit-Alternates running after (some x) later hn hs h =
    let (kind, game, room, flips) = hs x refl in (kind, game, room, rw flips at h)

run-Alternates :
    (t : Tracker) (os : List Observation) → IsTracking t → Alternates t.started (run t os).1
unfolding run
run-Alternates t [] h = tt
run-Alternates t (o ∷ os) h =
    emit-Alternates t.started (step t o).0.started (step t o).1 (run (step t o).0 os).1
      (step-none t o h) (step-some t o h) (run-Alternates (step t o).0 os (step-IsTracking t o h))

-- Over any run of observations from a new tracker the emitted transitions alternate, a start first,
-- and each is about a positive game id and a room that is not empty.
pub run_new-Alternates : (os : List Observation) → Alternates false (run new_tracker os).1
unfolding new_tracker
run_new-Alternates os = run-Alternates new_tracker os (λ started. cc)

observe_phase_quiet :
    (p : Phase) (t : Tracker) (g : ℤ) (r : String)
    → t.started ≡ true
    → p ≢ champ_select
    → (observe_phase p t g r ≡ (t, none))
      ⊎ ((observe_phase p t g r).1
          ≡ some (record { kind = game_lifecycle_ended; game_id = t.game_id; room_id = t.room_id }))
unfolding observe_phase
observe_phase_quiet champ_select t g r started quiet = absurd (quiet refl)
observe_phase_quiet _ t g r started quiet = ground arith

step_quiet :
    (t : Tracker) (o : Observation)
    → t.started ≡ true
    → classify o.phase ≢ champ_select
    → (step t o ≡ (t, none))
      ⊎ ((step t o).1
          ≡ some (record { kind = game_lifecycle_ended; game_id = t.game_id; room_id = t.room_id }))
unfolding observe
step_quiet t o = observe_phase_quiet (classify o.phase) t o.game_id o.room_id

-- While a game is running and no champion select is observed, the next transition, if there is one,
-- ends the game that was started, in its room.
pub run_started_same_game :
    (t : Tracker) (os : List Observation) (x : Transition) (xs : List Transition)
    → t.started ≡ true
    → All (λ o. classify o.phase ≢ champ_select) os
    → (run t os).1 ≡ x ∷ xs
    → x ≡ record { kind = game_lifecycle_ended; game_id = t.game_id; room_id = t.room_id }
unfolding run
run_started_same_game t [] x xs started quiet e = cc
run_started_same_game t (o ∷ os) x xs started quiet e = elim (step_quiet t o started quiet.0) [
  | inl same ↦ run_started_same_game t os x xs started quiet.1 (
      ground (
        arith,
        e,
        ap (λ (s : Tracker × Option Transition). s.0) same,
        ap (λ (s : Tracker × Option Transition). s.1) same,
      ))
  | inr ended ↦ ground arith
]

abbrev pub seen : String → ℤ → String → Observation
seen phase g r = record { phase = phase; game_id = g; room_id = r }

-- A champion select that is observed while a game is still marked as running replaces the game: the
-- new game gets no start, and its end is the only transition.
pub reselect_loses_start :
    (t : Tracker) (g : ℤ) (r : String)
    → t.started ≡ true
    → is_positive g ≡ true
    → (r == "") ≡ false
    → (run t (
        seen "ChampSelect" g r ∷ seen "InProgress" (pos 0) "" ∷ seen "EndOfGame" (pos 0) "" ∷ [])).1
      ≡ record { kind = game_lifecycle_ended; game_id = g; room_id = r } ∷ []
unfolding run observe
reselect_loses_start t g r started positive named = ground arith
