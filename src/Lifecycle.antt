-- ===== src/Lifecycle.antt =====
-- internal/services/game_lifecycle.go: the tracker that turns polled gameflow phases into the two
-- transitions of a game.
pub mod Trace
pub mod Service
use lol_overlay.Prelude.{
  ℕ, zero, suc, ◌+◌, ◌-◌, ◌*◌, ◌/◌, ◌%◌, ◌^◌, ◌≤◌, ◌<◌, String, ◌≡◌, refl, sym, ap, ◌∙◌, fun_ext,
  ◌≢◌, ◌↔◌, ◌⊎◌, inl, inr, Bool, true, false, not, ◌&&◌, ◌||◌, Option, none, some, List, [], ◌∷◌,
  ◌++◌, map, arith, ◌==◌, eq_iff, eq_refl, ltb, leb, nat_eq, if◌then◌else◌, ℤ, int_eq, is_positive,
  Bool-cases, Option-cases, pos, negsuc, All, length, length-append, find, modify_first, All-append,
  Error, Result, map_err, failure, wrap, ok, err,
}

abbrev pub game_lifecycle_started : String
game_lifecycle_started = "game.started"

abbrev pub game_lifecycle_ended : String
game_lifecycle_ended = "game.ended"

pub record Transition : Type 0 where
  pub kind : String
  pub game_id : ℤ
  pub room_id : String

pub record Tracker : Type 0 where
  pub game_id : ℤ
  pub room_id : String
  pub started : Bool

unfoldable pub new_tracker : Tracker
new_tracker = record { game_id = pos 0; room_id = ""; started = false }

unfoldable pub reset : Tracker → Tracker
reset t = record t { game_id = pos 0; room_id = ""; started = false }

-- The labels of the `switch`, decided in its order.
pub data Phase : Type 0 where
  champ_select in_progress finishing idle other : Phase

unfoldable pub classify : String → Phase
classify phase =
    if phase == "ChampSelect"
    then champ_select
    else if phase == "InProgress"
    then in_progress
    else if phase == "WaitingForStats" || (phase == "PreEndOfGame" || phase == "EndOfGame")
    then finishing
    else if phase == "Lobby" || phase == "None"
    then idle
    else other

unfoldable pub observe_phase : Phase → Tracker → ℤ → String → Tracker × Option Transition
unfolding reset
observe_phase champ_select t game_id room_id =
    if is_positive game_id && not (room_id == "")
    then (record t { game_id = game_id; room_id = room_id }, none)
    else (t, none)
observe_phase in_progress t game_id room_id =
    if t.started || (not (is_positive t.game_id) || t.room_id == "") then (t, none) else (
      record t { started = true },
      some (record { kind = game_lifecycle_started; game_id = t.game_id; room_id = t.room_id }),
    )
observe_phase finishing t game_id room_id = if not t.started then (t, none) else (
  reset t,
  some (record { kind = game_lifecycle_ended; game_id = t.game_id; room_id = t.room_id }),
)
observe_phase idle t game_id room_id = if not t.started then (reset t, none) else (t, none)
observe_phase other t game_id room_id = (t, none)

-- `Observe(phase, gameID, roomID)`; `none` is the nil transition.
unfoldable pub observe : Tracker → String → ℤ → String → Tracker × Option Transition
unfolding classify observe_phase
observe t phase game_id room_id = observe_phase (classify phase) t game_id room_id
