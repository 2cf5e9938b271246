-- ===== src/Tests/Games.antt =====
-- Runs of the game lifecycle tracker (internal/services/game_lifecycle.go).
use lol_overlay.Prelude.{◌≡◌, refl, true, false, List, [], ◌∷◌, pos}
use lol_overlay.Lifecycle.{
  Transition, Tracker, new_tracker, game_lifecycle_ended, game_lifecycle_started, observe,
}
use lol_overlay.Lifecycle.Trace.{Observation, Alternates, run, seen, run_new-Alternates}

abbrev one_game : List Observation
one_game =
    seen "ChampSelect" (pos 7) "7-100"
    ∷ seen "InProgress" (pos 0) ""
    ∷ seen "InProgress" (pos 0) ""
    ∷ seen "EndOfGame" (pos 0) ""
    ∷ seen "Lobby" (pos 0) ""
    ∷ []

abbrev running : Tracker
running = record { game_id = pos 7; room_id = "7-100"; started = true }

abbrev ended : Transition
ended = record { kind = game_lifecycle_ended; game_id = pos 7; room_id = "7-100" }

one_game-run :
    (run new_tracker one_game).1
    ≡ record { kind = game_lifecycle_started; game_id = pos 7; room_id = "7-100" } ∷ ended ∷ []
unfolding run observe new_tracker
one_game-run = refl

run_new-Alternates_example : Alternates false (run new_tracker one_game).1
run_new-Alternates_example = run_new-Alternates one_game

abbrev rest_of_game : List Observation
rest_of_game = seen "InProgress" (pos 0) "" ∷ seen "EndOfGame" (pos 0) "" ∷ []
