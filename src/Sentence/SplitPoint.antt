-- ===== src/Sentence/SplitPoint.antt =====
-- internal/util/sentence.go: where findNextSplitPoint cuts.
use xiaozhi_esp32_server_gol.Common.{
  ℕ, zero, suc, ◌+◌, ◌-◌, ◌≤◌, ◌<◌, ◌≡◌, refl, ◌⊎◌, inl, inr, Bool, true, false, none, some, length,
  arith, ◌==◌, Bool-cases, Option-cases, min, subst, ==_iff,
}
use native.Mathlib.Nat.{add-zero, zero-add}
use xiaozhi_esp32_server_gol.Sentence.{
  Text, Unicode, newline, separators, at, cuts, is_digit_adjacent_colon, contains_from,
  contains_separator,
}
use xiaozhi_esp32_server_gol.Sentence.Smart.{numbered_next, split_within, split_beyond, find_split}

module _ (u : Unicode) (is_first : Bool) where
  -- A place to cut at: a newline, or a separator that is no digit's colon.
  abbrev pub IsCut : Text → ℕ → Type 0
  IsCut t i = (at t i ≡ newline) ⊎ (cuts u is_first t i ≡ true)

  IsCut-here :
      (t : Text) (i n j : ℕ) → IsCut t i → some i ≡ some j → (i ≤ j) × (j < i + suc n) × IsCut t j
  IsCut-here t i n j c p =
      let e : i ≡ j = cc in
      subst (λ k. (i ≤ k) × (k < i + suc n) × IsCut t k) e (omega arith, omega arith, c)

  IsCut-later :
      (t : Text) (i n j : ℕ)
      → (suc i ≤ j) × (j < suc i + n) × IsCut t j
      → (i ≤ j) × (j < i + suc n) × IsCut t j
  IsCut-later t i n j (a, b, c) = (omega arith, omega arith, c)

  split_within-IsCut :
      (t : Text) (stop i n j : ℕ)
      → split_within u is_first t stop i n ≡ some j
      → (i ≤ j) × (j < i + n) × IsCut t j
  unfolding split_within
  split_within-IsCut t stop i zero j h = cc
  split_within-IsCut t stop i (suc n) j h =
      let later = λ (k : split_within u is_first t stop (suc i) n ≡ some j).
        IsCut-later t i n j (split_within-IsCut t stop (suc i) n j k) in
      elim (Bool-cases (at t i == newline)) [
        | inl e ↦ elim (Bool-cases (numbered_next t i stop)) [
          | inl m ↦ IsCut-here t i n j (inl ((==_iff (at t i) newline).0 e)) (ground arith)
          | inr m ↦ later (ground arith)
        ]
        | inr e ↦ elim (Bool-cases (cuts u is_first t i)) [
          | inl c ↦ IsCut-here t i n j (inr c) (ground arith)
          | inr c ↦ later (ground arith)
        ]
      ]

  split_beyond-IsCut :
      (t : Text) (i n j : ℕ)
      → split_beyond u is_first t i n ≡ some j
      → (i ≤ j) × (j < i + n) × IsCut t j
  unfolding split_beyond
  split_beyond-IsCut t i zero j h = cc
  split_beyond-IsCut t i (suc n) j h = elim (Bool-cases (at t i == newline)) [
    | inl e ↦ IsCut-here t i n j (inl ((==_iff (at t i) newline).0 e)) (ground arith)
    | inr e ↦ elim (Bool-cases (cuts u is_first t i)) [
      | inl c ↦ IsCut-here t i n j (inr c) (ground arith)
      | inr c ↦ IsCut-later t i n j (split_beyond-IsCut t (suc i) n j (ground arith))
    ]
  ]

  -- A split point lies at or behind the start and within the text, and it is a newline or a
  -- separator that is not the colon between two digits.
  pub find_split-IsCut :
      (max_len : ℕ) (t : Text) (start j : ℕ)
      → start ≤ length t
      → find_split u is_first max_len t start ≡ some j
      → (start ≤ j) × (j < length t) × IsCut t j
  unfolding find_split
  find_split-IsCut max_len t start j s h =
      let stop = min (start + max_len) (length t) in
      elim (Option-cases (split_within u is_first t stop start (stop - start))) [
        | inl e ↦
            let (a, b, c) = split_beyond-IsCut t stop (length t - stop) j (ground arith) in
            (omega arith, omega arith, c)
        | inr (i, e) ↦
            let (a, b, c) = split_within-IsCut t stop start (stop - start) j (ground arith) in
            (omega arith, omega arith, c)
      ]

  no_colon : (t : Text) (i : ℕ) → at t i ≡ newline → is_digit_adjacent_colon u t i ≡ false
  unfolding is_digit_adjacent_colon
  no_colon t i e = ground arith

  newline_separates : (b : Bool) → separators b newline ≡ true
  unfolding separators
  newline_separates true = refl
  newline_separates false = refl

  newline-cuts : (t : Text) (i : ℕ) → at t i ≡ newline → cuts u is_first t i ≡ true
  newline-cuts t i e =
      let a : separators is_first (at t i) ≡ true = rw e (newline_separates is_first) in
      rw (a, no_colon t i e)

  -- Without a separator in sight there is no split point.
  split_within-none :
      (t : Text) (stop i n m : ℕ)
      → n ≤ m
      → contains_from u is_first t i m ≡ false
      → split_within u is_first t stop i n ≡ none
  unfolding split_within contains_from
  split_within-none t stop i zero m k h = refl
  split_within-none t stop i (suc n) zero k h = elim k [ ]
  split_within-none t stop i (suc n) (suc m) k h =
      ground (arith, newline-cuts t i, split_within-none t stop (suc i) n m)

  split_beyond-none :
      (t : Text) (i n : ℕ)
      → contains_from u is_first t i n ≡ false
      → split_beyond u is_first t i n ≡ none
  unfolding split_beyond contains_from
  split_beyond-none t i zero h = refl
  split_beyond-none t i (suc n) h = ground (arith, newline-cuts t i, split_beyond-none t (suc i) n)

  contains_from_later :
      (t : Text) (i k n : ℕ)
      → contains_from u is_first t i (k + n) ≡ false
      → contains_from u is_first t (i + k) n ≡ false
  unfolding contains_from
  contains_from_later t i zero n h = rw (add-zero i) (rw (zero-add n) at h)
  contains_from_later t i (suc k) n h =
      let e : suc k + n ≡ suc (k + n) = omega arith in
      let e' : i + suc k ≡ suc i + k = omega arith in
      let h' = subst (λ x. contains_from u is_first t i x ≡ false) e h in
      rw e' (contains_from_later t (suc i) k n (ground arith))

  contains_from_suffix :
      (t : Text) (k : ℕ)
      → k ≤ length t
      → contains_separator u is_first t ≡ false
      → contains_from u is_first t k (length t - k) ≡ false
  unfolding contains_separator
  contains_from_suffix t k a h =
      let e : length t ≡ k + (length t - k) = omega arith in
      let e' : 0 + k ≡ k = omega arith in
      let h' = subst (λ x. contains_from u is_first t 0 x ≡ false) e h in
      subst (λ x. contains_from u is_first t x (length t - k) ≡ false) e'
        (contains_from_later t 0 k (length t - k) h')

  pub find_split-none :
      (max_len : ℕ) (t : Text) (start : ℕ)
      → start ≤ length t
      → contains_separator u is_first t ≡ false
      → find_split u is_first max_len t start ≡ none
  unfolding find_split
  find_split-none max_len t start s h =
      let stop = min (start + max_len) (length t) in
      let a =
        split_within-none t stop start (stop - start) (length t - start) (omega arith)
          (contains_from_suffix t start s h) in
      let b =
        split_beyond-none t stop (length t - stop) (contains_from_suffix t stop (omega arith) h) in
      ground (arith, a, b)
