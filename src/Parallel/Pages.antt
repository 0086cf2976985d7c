-- ===== src/Parallel/Pages.antt =====
-- internal/util/workqueue/parallelizer.go: the pages of ParallelizeUntilOptimize.
use xiaozhi_esp32_server_gol.Common.{
  ℕ, zero, suc, ◌+◌, ◌-◌, ◌*◌, ◌≤◌, ◌<◌, ◌≡◌, ap, ◌∙◌, ◌∷◌, ◌++◌, leb, arith, if◌then◌else◌,
  append-nil, Bool-cases, inl, inr,
}
use native.Mathlib.Nat.{mod-lt, div-add-mod}
use xiaozhi_esp32_server_gol.Parallel.{from, cap, page_size, page_of, pages, parallelize_optimize}

from-append : (a n m : ℕ) → from a n ++ from (a + n) m ≡ from a (n + m)
from-append a zero m =
    let p : a + 0 ≡ a = omega arith in
    let q : m ≡ 0 + m = omega arith in ap (λ b. from b m) p ∙ ap (from a) q
from-append a (suc n) m =
    let p : a + suc n ≡ suc a + n = omega arith in
    let q : suc (n + m) ≡ suc n + m = omega arith in
    ap (λ b. a ∷ (from (suc a) n ++ from b m)) p
    ∙ ap (◌∷◌ a) (from-append (suc a) n m)
    ∙ ap (from a) q

abbrev upto : ℕ → ℕ → ℕ
upto a b = if leb b a then b else a

-- The page that begins at `s` behind the pieces before it.
append_page :
    (s size pieces : ℕ)
    → from 0 (upto s pieces) ++ from s ((if leb pieces (s + size) then pieces else s + size) - s)
      ≡ from 0 (upto (s + size) pieces)
append_page s size pieces = elim (Bool-cases (leb pieces s)) [
  | inl h ↦
      let e : (if leb pieces (s + size) then pieces else s + size) - s ≡ 0 = ground (arith, h) in
      let f : upto s pieces ≡ upto (s + size) pieces = ground (arith, h) in
      ap (λ n. from 0 (upto s pieces) ++ from s n) e
      ∙ append-nil (from 0 (upto s pieces))
      ∙ ap (from 0) f
  | inr h ↦
      let d = (if leb pieces (s + size) then pieces else s + size) - s in
      let e : upto s pieces ≡ s = ground (arith, h) in
      let z : s ≡ 0 + s = omega arith in
      let f : s + d ≡ upto (s + size) pieces = ground (arith, h) in
      ap (λ n. from 0 n ++ from s d) e
      ∙ ap (λ b. from 0 s ++ from b d) z
      ∙ from-append 0 s d
      ∙ ap (from 0) f
]

pages-upto : (size pieces k : ℕ) → pages size pieces k ≡ from 0 (upto (size * k) pieces)
pages-upto size pieces zero = let e : 0 ≡ upto (size * 0) pieces = ground arith in ap (from 0) e
pages-upto size pieces (suc k) =
    let e : size * k + size ≡ size * suc k = omega arith in
    ap (λ xs. xs ++ page_of size pieces k) (pages-upto size pieces k)
    ∙ append_page (size * k) size pieces
    ∙ ap (λ n. from 0 (upto n pieces)) e

covers : (n pieces : ℕ) → 0 < n → pieces ≤ n * page_size n pieces
covers n pieces l = omega (arith, div-add-mod (pieces + (n - 1)) n, mod-lt (pieces + (n - 1)) l, l)

-- With at least one worker the pages of all workers are the pieces, each of them once and in order.
pub optimize-from :
    (workers pieces : ℕ) → 0 < workers → parallelize_optimize workers pieces ≡ from 0 pieces
unfolding parallelize_optimize
optimize-from workers zero l =
    let n = cap workers 0 in
    let e : upto (page_size n 0 * n) 0 ≡ 0 = ground arith in
    pages-upto (page_size n 0) 0 n ∙ ap (from 0) e
optimize-from workers (suc p) l =
    let n = cap workers (suc p) in
    let m : 0 < n = ground (arith, l) in
    let c : n * page_size n (suc p) ≡ page_size n (suc p) * n = omega arith in
    let e : upto (page_size n (suc p) * n) (suc p) ≡ suc p =
      ground (arith, covers n (suc p) m, c) in
    pages-upto (page_size n (suc p)) (suc p) n ∙ ap (from 0) e
