-- ===== src/Parallel/Shares.antt =====
-- internal/util/workqueue/parallelizer.go: the pieces among the workers of ParallelizeUntil.
use xiaozhi_esp32_server_gol.Common.{
  ℕ, zero, suc, ◌+◌, ◌≡◌, refl, ap, ◌∙◌, true, false, Bool, All, if_both, List, [], ◌∷◌, ◌++◌,
  length, arith, ◌==◌, ltb, leb, if◌then◌else◌, Bool-cases, inl, inr,
}
use xiaozhi_esp32_server_gol.Parallel.{
  from, Outcome, stops, works, panics, Work, new_work, is_live, take_piece, turn, run,
}

-- How often a piece stands in a list.
abbrev pub count : ℕ → List ℕ → ℕ
count x [] = 0
count x (y ∷ ys) = (if y == x then 1 else 0) + count x ys

count-append : (x : ℕ) (ys zs : List ℕ) → count x (ys ++ zs) ≡ count x ys + count x zs
count-append x [] zs = omega arith
count-append x (y ∷ ys) zs = omega (arith, count-append x ys zs)

count-from :
    (x a n : ℕ) → count x (from a n) ≡ (if leb a x then if ltb x (a + n) then 1 else 0 else 0)
count-from x a zero = ground arith
count-from x a (suc n) = ground (arith, count-from x (suc a) n)

-- Where a piece is: begun, skipped or in the channel.
abbrev places : ℕ → Work → ℕ
places x w = count x w.begun + (count x w.skipped + count x w.to_process)

take-places :
    (x i : ℕ) (o : Outcome) (q : List ℕ) (w : Work)
    → w.to_process ≡ q
    → places x (take_piece i o q w) ≡ places x w
unfolding take_piece
take-places x i stops [] w e = refl
take-places x i works [] w e = refl
take-places x i panics [] w e = refl
take-places x i stops (y ∷ ys) w e =
    ground (arith, count-append x w.skipped (y ∷ []), ap (count x) e)
take-places x i works (y ∷ ys) w e = ground (arith, count-append x w.begun (y ∷ []), ap (count x) e)
take-places x i panics (y ∷ ys) w e =
    ground (arith, count-append x w.begun (y ∷ []), ap (count x) e)

turn-places : (x i : ℕ) (o : Outcome) (w : Work) → places x (turn i o w) ≡ places x w
unfolding turn
turn-places x i o w = elim (Bool-cases (is_live i w.live)) [
  | inl h ↦
      ap (λ b. places x (if b then take_piece i o w.to_process w else w)) h
      ∙ take-places x i o w.to_process w refl
  | inr h ↦ ap (λ b. places x (if b then take_piece i o w.to_process w else w)) h
]

run-places : (x : ℕ) (ts : List (ℕ × Outcome)) (w : Work) → places x (run ts w) ≡ places x w
unfolding run
run-places x [] w = refl
run-places x ((i, o) ∷ ts) w = run-places x ts (turn i o w) ∙ turn-places x i o w

-- The turns of one worker that meets neither the end of the context nor a panic.
abbrev pub turns_of : ℕ → ℕ → List (ℕ × Outcome)
turns_of i zero = []
turns_of i (suc n) = (i, works) ∷ turns_of i n

-- What a worker that runs on leaves in the channel.
works-rest :
    (i : ℕ) (x : ℕ) (xs : List ℕ) (w : Work)
    → is_live i w.live ≡ true
    → w.to_process ≡ x ∷ xs
    → ((turn i works w).to_process ≡ xs) × ((turn i works w).live ≡ w.live)
unfolding turn take_piece
works-rest i x xs w h e =
    let g : turn i works w ≡ take_piece i works (x ∷ xs) w =
      ap (λ b. if b then take_piece i works w.to_process w else w) h
      ∙ ap (λ q. take_piece i works q w) e in
    (ap (λ (v : Work). v.to_process) g, ap (λ (v : Work). v.live) g)

drain :
    (i : ℕ) (q : List ℕ) (w : Work)
    → w.to_process ≡ q
    → is_live i w.live ≡ true
    → (run (turns_of i (length q)) w).to_process ≡ []
unfolding run
drain i [] w e h = e
drain i (x ∷ xs) w e h =
    let (rest, same) = works-rest i x xs w h e in
    drain i xs (turn i works w) rest (ap (is_live i) same ∙ h)

abbrev pub runs_on : ℕ × Outcome → Bool
runs_on (i, stops) = false
runs_on (i, works) = true
runs_on (i, panics) = true

take-skipped :
    (i : ℕ) (o : Outcome) (q : List ℕ) (w : Work)
    → runs_on (i, o) ≡ true
    → (take_piece i o q w).skipped ≡ w.skipped
unfolding take_piece
take-skipped i stops [] w h = refl
take-skipped i works [] w h = refl
take-skipped i panics [] w h = refl
take-skipped i stops (x ∷ xs) w h = ground (arith, h)
take-skipped i works (x ∷ xs) w h = refl
take-skipped i panics (x ∷ xs) w h = refl

run-skipped :
    (ts : List (ℕ × Outcome)) (w : Work)
    → All (λ t. runs_on t ≡ true) ts
    → (run ts w).skipped ≡ w.skipped
unfolding run turn
run-skipped [] w h = refl
run-skipped ((i, o) ∷ ts) w (h, hs) =
    run-skipped ts (turn i o w) hs
    ∙ if_both (λ (v : Work). v.skipped ≡ w.skipped) (is_live i w.live) _ _
        (take-skipped i o w.to_process w h) refl

turns_of-runs_on : (i n : ℕ) → All (λ t. runs_on t ≡ true) (turns_of i n)
turns_of-runs_on i zero = tt
turns_of-runs_on i (suc n) = (refl, turns_of-runs_on i n)

-- Whatever turns the workers of ParallelizeUntil took while the context did not end, with panics: if
-- a worker is left that does, without a panic and before the end of the context, as many pieces
-- as the channel holds, the channel is empty, and every piece was begun once and nothing else was.
pub run_once :
    (workers pieces : ℕ) (ts : List (ℕ × Outcome)) (i x : ℕ)
    → All (λ t. runs_on t ≡ true) ts
    → is_live i (run ts (new_work workers pieces)).live ≡ true
    → let w = run ts (new_work workers pieces) in
      let v = run (turns_of i (length w.to_process)) w in
      (v.to_process ≡ []) × (count x v.begun ≡ (if ltb x pieces then 1 else 0))
unfolding new_work
run_once workers pieces ts i x on h =
    let w = run ts (new_work workers pieces) in
    let e = drain i w.to_process w refl h in
    let p = run-places x (turns_of i (length w.to_process)) w in
    let q = run-places x ts (new_work workers pieces) in
    let n = length w.to_process in
    let none : (run (turns_of i n) w).skipped ≡ [] =
      run-skipped (turns_of i n) w (turns_of-runs_on i n)
      ∙ run-skipped ts (new_work workers pieces) on in
    (e, ground (arith, p, q, ap (count x) e, ap (count x) none, count-from x 0 pieces))
