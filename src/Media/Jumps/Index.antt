-- ===== src/Media/Jumps/Index.antt =====
-- internal/app/server/chat/media_player.go: the arithmetic of indices in jumpToRelative.
use xiaozhi_esp32_server_gol.Common.{
  ℕ, zero, suc, ◌-◌, ◌%◌, ◌<◌, ◌≡◌, refl, ap, ◌∙◌, some, List, [], ◌∷◌, length, get_elem?, arith,
  ◌==◌, if◌then◌else◌, if_given, Bool-cases, inl, inr,
}
use native.Mathlib.Nat.{mod-lt, mod-eq_of_lt, mod_self}
use xiaozhi_esp32_server_gol.Common.Int.{ℤ, pos, negsuc, ◌+ℤ◌}
use xiaozhi_esp32_server_gol.Media.Sources.{at}
use xiaozhi_esp32_server_gol.Media.{is_some}
use xiaozhi_esp32_server_gol.Media.Control.{wrap, next_index, is_negative}

-- An index below the length has an element.
pub get_elem_some :
    {A : Type 0} (xs : List A) (i : ℕ) → i < length xs → (x : A) × (get_elem? xs i ≡ some x)
get_elem_some [] i l = ground (arith, l)
get_elem_some (x ∷ xs) zero l = (x, refl)
get_elem_some (x ∷ xs) (suc i) l = get_elem_some xs i (omega (arith, l))

pub wrap-some :
    {A : Type 0} (i : ℤ) (xs : List A)
    → 0 < length xs
    → (x : A) × (at (wrap i (length xs)) xs ≡ some x)
wrap-some (pos k) xs l = get_elem_some xs (k % length xs) (mod-lt k l)
wrap-some {A} (negsuc k) xs l =
    let m = mod-lt (suc k) l in
    if_given (λ i. (x : A) × (at i xs ≡ some x)) (suc k % length xs == 0) _ _
      (λ e. get_elem_some xs 0 l)
      (λ e. get_elem_some xs (length xs - suc k % length xs) (ground (arith, e, m)))

at_lt : {A : Type 0} (xs : List A) (k : ℕ) (x : A) → get_elem? xs k ≡ some x → k < length xs
at_lt [] k x e = ground (arith, e)
at_lt (y ∷ ys) zero x e = omega arith
at_lt (y ∷ ys) (suc k) x e = omega (arith, at_lt ys k x e)

-- A jump from an index of the list.
next_index-at :
    {A : Type 0} (k : ℕ) (delta : ℤ) (xs : List A) (x : A)
    → get_elem? xs k ≡ some x
    → next_index (pos k) delta xs ≡ wrap (pos k +ℤ delta) (length xs)
unfolding next_index
next_index-at k delta xs x e =
    ap
      (λ o.
        wrap
          ((if is_some o then pos k else if is_negative delta then pos (length xs - 1) else pos 0)
            +ℤ delta)
          (length xs))
      e

add_one : (k : ℕ) → pos k +ℤ pos 1 ≡ pos (suc k)
unfolding ◌+ℤ◌
add_one k = ground arith

sub_one : (k : ℕ) → pos (suc k) +ℤ negsuc 0 ≡ pos k
unfolding ◌+ℤ◌
sub_one k = ground arith

wrap_last : (n : ℕ) → wrap (negsuc 0) (suc n) ≡ pos n
wrap_last zero = refl
wrap_last (suc n) =
    let m : 1 % suc (suc n) ≡ 1 = mod-eq_of_lt (omega arith) in
    ap (λ r. if r == 0 then pos 0 else pos (suc (suc n) - r)) m ∙ ap pos (omega arith)

pub next_index-back :
    {A : Type 0} (k : ℕ) (xs : List A) (x : A)
    → get_elem? xs k ≡ some x
    → next_index (next_index (pos k) (pos 1) xs) (negsuc 0) xs ≡ pos k
unfolding ◌+ℤ◌
next_index-back {A} k xs x e =
    let l = at_lt xs k x e in
    let n = length xs in
    let go : next_index (pos k) (pos 1) xs ≡ pos (suc k % n) =
      next_index-at k (pos 1) xs x e ∙ ap (λ i. wrap i n) (add_one k) in
    elim (Bool-cases (suc k == n)) [
      | inl h ↦
          let q : n ≡ suc k = ground (arith, h) in
          let z : suc k % n ≡ 0 = ap (λ m. suc k % m) q ∙ mod_self (suc k) in
          let (y, w) = get_elem_some xs 0 (omega (arith, l)) in
          ap (λ i. next_index i (negsuc 0) xs) (go ∙ ap pos z)
          ∙ next_index-at 0 (negsuc 0) xs y w
          ∙ ap (λ m. wrap (negsuc 0) m) q
          ∙ wrap_last k
      | inr h ↦
          let b : suc k < n = ground (arith, h, l) in
          let (y, w) = get_elem_some xs (suc k) b in
          ap (λ i. next_index i (negsuc 0) xs) (go ∙ ap pos (mod-eq_of_lt b))
          ∙ next_index-at (suc k) (negsuc 0) xs y w
          ∙ ap (λ i. wrap i n) (sub_one k)
          ∙ ap pos (mod-eq_of_lt l)
    ]
