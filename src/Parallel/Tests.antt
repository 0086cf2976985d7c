-- ===== src/Parallel/Tests.antt =====
-- Workers on a few pieces, and each theorem about them at a concrete input.
use xiaozhi_esp32_server_gol.Common.{ℕ, ◌≡◌, refl, List, [], ◌∷◌, length}
use xiaozhi_esp32_server_gol.Parallel.{
  Outcome, stops, works, panics, new_work, take_piece, turn, run,
}
use xiaozhi_esp32_server_gol.Parallel.Shares.{count, turns_of, run_once}

-- Worker 0 panics in piece 0, worker 1 does piece 1.
abbrev some_turns : List (ℕ × Outcome)
some_turns = (0, panics) ∷ (1, works) ∷ (0, works) ∷ []

run_once_example :
    let w = run some_turns (new_work 2 4) in
    let v = run (turns_of 1 (length w.to_process)) w in (v.to_process ≡ []) × (count 3 v.begun ≡ 1)
unfolding run turn take_piece new_work
run_once_example = run_once 2 4 some_turns 1 3 (refl, (refl, (refl, tt))) refl

-- With all workers gone pieces stay where they are.
left_over :
    (run ((0, panics) ∷ (1, stops) ∷ (0, works) ∷ []) (new_work 2 4)).to_process ≡ 2 ∷ 3 ∷ []
unfolding run turn take_piece new_work
left_over = refl
