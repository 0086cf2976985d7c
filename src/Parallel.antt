-- ===== src/Parallel.antt =====
-- internal/util/workqueue/parallelizer.go: pieces of work that several workers do. The numbers of
-- workers and pieces are not negative, and the ceiling of the quotient of two floats is that of the
-- numbers, which holds below 2^53.
pub mod Shares
pub mod Pages
pub mod Tests
use xiaozhi_esp32_server_gol.Common.{
  ℕ, zero, suc, ◌+◌, ◌-◌, ◌*◌, ◌/◌, Bool, true, false, Option, none, some, List, [], ◌∷◌, ◌++◌, ltb,
  leb, if◌then◌else◌,
}

-- The numbers from `a` on, `n` of them.
abbrev pub from : ℕ → ℕ → List ℕ
from a zero = []
from a (suc n) = a ∷ from (suc a) n

-- What a worker meets when it has received a piece: the end of the context, a piece that it does,
-- or one that panics, which ends the worker.
pub data Outcome : Type 0 where
  stops works panics : Outcome

-- ParallelizeUntil: the channel, the pieces that were begun and those that were received behind the
-- end of the context, and for each worker whether it still runs.
pub record Work : Type 0 where
  pub to_process : List ℕ
  pub begun : List ℕ
  pub skipped : List ℕ
  pub live : List Bool

abbrev pub all_live : ℕ → List Bool
all_live zero = []
all_live (suc n) = true ∷ all_live n

abbrev pub cap : ℕ → ℕ → ℕ
cap workers pieces = if ltb pieces workers then pieces else workers

unfoldable pub new_work : ℕ → ℕ → Work
new_work workers pieces = record {
  to_process = from 0 pieces;
  begun = [];
  skipped = [];
  live = all_live (cap workers pieces);
}

abbrev pub is_live : ℕ → List Bool → Bool
is_live i [] = false
is_live zero (b ∷ bs) = b
is_live (suc i) (b ∷ bs) = is_live i bs

abbrev pub end_worker : ℕ → List Bool → List Bool
end_worker i [] = []
end_worker zero (b ∷ bs) = false ∷ bs
end_worker (suc i) (b ∷ bs) = b ∷ end_worker i bs

-- What worker `i` does with the content of the channel, which is closed.
unfoldable pub take_piece : ℕ → Outcome → List ℕ → Work → Work
take_piece i o [] w = record w { live = end_worker i w.live }
take_piece i works (x ∷ xs) w = record w { to_process = xs; begun = w.begun ++ x ∷ [] }
take_piece i panics (x ∷ xs) w = record w {
  to_process = xs;
  begun = w.begun ++ x ∷ [];
  live = end_worker i w.live;
}
take_piece i stops (x ∷ xs) w = record w {
  to_process = xs;
  skipped = w.skipped ++ x ∷ [];
  live = end_worker i w.live;
}

unfoldable pub turn : ℕ → Outcome → Work → Work
turn i o w = if is_live i w.live then take_piece i o w.to_process w else w

unfoldable pub run : List (ℕ × Outcome) → Work → Work
run [] w = w
run ((i, o) ∷ ts) w = run ts (turn i o w)

-- ParallelizeUntilOptimize: the page of each worker, and the pieces that worker `i` does.
abbrev pub page_size : ℕ → ℕ → ℕ
page_size workers pieces = (pieces + (workers - 1)) / workers

abbrev pub page_of : ℕ → ℕ → ℕ → List ℕ
page_of size pieces i =
    let start = size * i in
    let end = if leb pieces (start + size) then pieces else start + size in from start (end - start)

abbrev pub pages : ℕ → ℕ → ℕ → List ℕ
pages size pieces zero = []
pages size pieces (suc k) = pages size pieces k ++ page_of size pieces k

-- The pieces that all workers do, one worker behind the other.
unfoldable pub parallelize_optimize : ℕ → ℕ → List ℕ
parallelize_optimize workers pieces =
    let n = cap workers pieces in pages (page_size n pieces) pieces n
