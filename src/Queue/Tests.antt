-- ===== src/Queue/Tests.antt =====
-- Runs of the queue, and each theorem about it at a concrete input.
use xiaozhi_esp32_server_gol.Common.{
  ℕ, ◌≡◌, ◌≢◌, refl, true, false, [], ◌∷◌, ◌++◌, arith, length, if◌then◌else◌, ◌==◌,
}
use xiaozhi_esp32_server_gol.Queue.{
  failed, queue_closed, ok, Queue, retry, queue_closed, blocking, push_round, send, settle, swap,
  clear_and_drain,
}
use xiaozhi_esp32_server_gol.Queue.Actions.{
  sends, receives, swaps, System, act, run, start, IsSwapped, run-start,
}
use xiaozhi_esp32_server_gol.Queue.Pushes.{push_round_lem, others}
use xiaozhi_esp32_server_gol.Queue.Content.{
  Contains, pops-pushes, pushes, pops, clear_and_drain_lem,
}

-- A queue of capacity 2 that holds 5.
abbrev small : Queue ℕ
small = record {
  cap = 2;
  cur = 1;
  gen = 1;
  closed = false;
  chans = λ i.
      if 1 == i
      then record { items = 5 ∷ []; shut = false }
      else record { items = []; shut = true };
}

abbrev system : System ℕ
system = record { queue = small; accepted = λ _. []; taken = λ _. [] }

small-Contains : Contains small (5 ∷ [])
small-Contains = record { is_open = refl; chan_open = refl; holds = refl }

small-IsSwapped : IsSwapped small
small-IsSwapped = record { past = λ c h. ground arith; now = refl }

run-start_example :
    let s = run {A = ℕ} (sends false 0 7 ∷ swaps ∷ receives 0 ∷ sends false 0 8 ∷ []) (start 2) in
    s.accepted 0 ≡ s.taken 0 ++ (s.queue.chans 0).items
run-start_example =
    (run-start {A = ℕ} 2 (sends false 0 7 ∷ swaps ∷ receives 0 ∷ sends false 0 8 ∷ [])).0 0

push_round_lem_example :
    let mid = others (swaps ∷ []) system system.queue in
    let r = push_round false (others (swaps ∷ []) system) (others [] system) 6 system.queue in
    (r.0 ≡ failed queue_closed → r.1.closed ≡ true)
    × (r.0 ≡ ok → ((mid.chans system.queue.cur).shut ≡ false) × (mid.cur ≡ system.queue.cur))
    × (r.0 ≡ retry
        → (mid.gen ≢ system.queue.gen) × (r.1.closed ≡ false) × (r.1.gen ≢ system.queue.gen))
push_round_lem_example = push_round_lem false (swaps ∷ []) [] system 6 small-IsSwapped

-- A Clear between the two parts of Push makes it start again.
swapped_under_push :
    (push_round false (others (swaps ∷ []) system) (others [] system) 6 small).0 ≡ retry
unfolding push_round send settle run act swap
swapped_under_push = refl

pops-pushes_example : pops (length {A = ℕ} (5 ∷ 6 ∷ [])) (pushes (6 ∷ []) small) ≡ 5 ∷ 6 ∷ []
pops-pushes_example = pops-pushes (6 ∷ []) small (5 ∷ []) small-Contains (omega arith)

clear_and_drain_lem_example : (clear_and_drain small).0 ≡ 5 ∷ []
clear_and_drain_lem_example = (clear_and_drain_lem small (5 ∷ []) blocking small-Contains).0
