-- ===== src/Pool/Calls.antt =====
-- internal/util/resource_pool.go: the calls of the pool, with the steps of those of AcquireWithTimeout
-- that run at the same time.
use xiaozhi_esp32_server_gol.Common.{
  ℕ, zero, suc, Bool, Option, none, some, List, [], ◌∷◌, ◌++◌, length, ltb, if◌then◌else◌,
}
use xiaozhi_esp32_server_gol.Common.Int.{ℤ}
use xiaozhi_esp32_server_gol.Pool.{Factory, Pool, Error, Borrower, looking, acquire_step, release}
use xiaozhi_esp32_server_gol.Pool.Upkeep.{close, cleanup, resize}

-- What clients, the cleanup goroutine and an administrator do: calls of AcquireWithTimeout and the
-- steps of those that run, by their number; Release, the cleanup, Close, and Resize with its fuel.
pub data Op : Type 0 where
  enters : Op
  moves : ℕ → Bool → ℕ → Op
  releases : ℕ → Option ℕ → Op
  cleans : ℕ → Op
  closes : Op
  resizes : ℕ → ℤ → Op

-- The pool with the calls of AcquireWithTimeout that passed the check of `closed`.
pub record System (W : Type 0) : Type 0 where
  pub pool : Pool W
  pub borrowers : List Borrower

abbrev pub set_borrower : ℕ → Borrower → List Borrower → List Borrower
set_borrower i b [] = []
set_borrower zero b (c ∷ cs) = b ∷ cs
set_borrower (suc i) b (c ∷ cs) = c ∷ set_borrower i b cs

abbrev pub borrower_at : ℕ → List Borrower → Borrower
borrower_at i [] = looking
borrower_at zero (c ∷ cs) = c
borrower_at (suc i) (c ∷ cs) = borrower_at i cs

module _ {W : Type 0} (f : Factory W) where
  abbrev pub on_pool : System W → Pool W → System W
  on_pool s p = record s { pool = p }

  abbrev pub resized : System W → Option (Option Error × Pool W) → Option (System W)
  resized s none = none
  resized s (some r) = some (on_pool s r.1)

  -- A Resize that does not return holds the pool's lock: then there is no next state.
  unfoldable pub step : Op → System W → Option (System W)
  step enters s =
      some (if s.pool.closed then s else record s { borrowers = s.borrowers ++ looking ∷ [] })
  step (moves i ended now) s =
      let r = acquire_step f ended now (borrower_at i s.borrowers) s.pool in
      some (
        if ltb i (length s.borrowers)
        then record { pool = r.1; borrowers = set_borrower i r.0 s.borrowers }
        else s)
  step (releases now r) s = some (on_pool s (release f now r s.pool).1)
  step (cleans now) s = some (on_pool s (cleanup f now s.pool))
  step closes s = some (on_pool s (close f s.pool))
  step (resizes fuel n) s = resized s (resize f fuel n s.pool)

  unfoldable pub run : List Op → System W → Option (System W)
  run [] s = some s
  run (o ∷ os) s = elim (step o s) [ none ↦ none | some t ↦ run os t ]
