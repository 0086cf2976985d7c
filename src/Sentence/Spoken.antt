-- ===== src/Sentence/Spoken.antt =====
-- internal/util/sentence.go: what ExtractSmartSentences returns.
use mathlib.Core.List.{Sublist, nil-sublist}
use mathlib.Core.List.Sublist
use xiaozhi_esp32_server_gol.Common.{
  ℕ, zero, suc, ◌+◌, ◌-◌, ◌≤◌, ◌<◌, ◌≡◌, sym, ◌∙◌, ap, Bool, true, false, Option, none, some, List,
  [], ◌∷◌, ◌++◌, length, arith, leb, Bool-cases, Option-cases, inl, inr, drop, All, subst,
  take-append-drop, drop-add, drop-Sublist,
}
use xiaozhi_esp32_server_gol.Sentence.{Text, Unicode, is_trimmed, trim, contains_separator}
use xiaozhi_esp32_server_gol.Sentence.Trim.{StartsInked, EndsInked, trim_ends, trim-Sublist}
use xiaozhi_esp32_server_gol.Sentence.Complete.{flat}
use xiaozhi_esp32_server_gol.Sentence.SplitPoint.{find_split-IsCut, find_split-none}
use xiaozhi_esp32_server_gol.Sentence.Smart.{
  find_split, skip_white, slice, last_separates, qualifies, append_rest, replace_rest, smart_loop,
  extract_smart,
}

skip_white_bounds : (t : Text) (i n : ℕ) → (i ≤ skip_white t i n) × (skip_white t i n ≤ i + n)
unfolding skip_white
skip_white_bounds t i zero = omega arith
skip_white_bounds t i (suc n) = ground (arith, skip_white_bounds t (suc i) n)

-- A piece of the text and what lies behind it are part of what lies behind an earlier place.
slice-Sublist :
    (t a r : Text) (start begin i : ℕ)
    → start ≤ begin
    → begin ≤ i
    → Sublist a (slice t begin (suc i))
    → Sublist r (drop (suc i) t)
    → Sublist (a ++ r) (drop start t)
slice-Sublist t a r start begin i h k sa sr =
    let e : begin + (suc i - begin) ≡ suc i = omega arith in
    let e' : start + (begin - start) ≡ begin = omega arith in
    let tail : drop (suc i) t ≡ drop (suc i - begin) (drop begin t) =
      subst (λ n. drop n t ≡ drop (suc i - begin) (drop begin t)) e
        (drop-add begin (suc i - begin) t) in
    let front : drop begin t ≡ drop (begin - start) (drop start t) =
      subst (λ n. drop n t ≡ drop (begin - start) (drop start t)) e'
        (drop-add start (begin - start) t) in
    let joined : Sublist (a ++ r) (drop begin t) =
      subst (Sublist (a ++ r)) (take-append-drop (suc i - begin) (drop begin t))
        (Sublist.append sa (subst (Sublist r) tail sr)) in
    Sublist.trans joined (
      subst (λ l. Sublist l (drop start t)) (sym front)
        (drop-Sublist (begin - start) (drop start t)))

module _ (u : Unicode) (is_first : Bool) (min_len max_len : ℕ) where
  -- A sentence is long enough, ends in a separator, and has no white space at its ends.
  abbrev pub IsSentence : Text → Type 0
  IsSentence s =
      (min_len ≤ length s)
      × (last_separates u is_first s ≡ true)
      × StartsInked is_trimmed s
      × EndsInked is_trimmed s

  abbrev Result : Text → ℕ → Option (List Text × Text) → Type 0
  Result t start o =
      (r : List Text × Text) × (o ≡ some r) × All IsSentence r.0 × Sublist (flat r.0) (drop start t)

  module _ (t : Text) (start fuel : ℕ) (rest : Text) where
    abbrev begin_at : ℕ
    begin_at = skip_white t start (length t - start)

    abbrev segment_to : ℕ → Text
    segment_to i = trim is_trimmed (slice t begin_at (suc i))

    -- The four ways of a round of the loop.
    loop_done :
        length t ≤ begin_at
        → smart_loop u is_first (suc fuel) min_len max_len t start rest ≡ some ([], rest)
    unfolding smart_loop
    loop_done h = ground arith

    loop_tail :
        begin_at < length t
        → find_split u is_first max_len t begin_at ≡ none
        → smart_loop u is_first (suc fuel) min_len max_len t start rest
          ≡ some ([], replace_rest rest (trim is_trimmed (drop begin_at t)))
    unfolding smart_loop
    loop_tail h e = ground arith

    loop_keep :
        (i : ℕ) (r : List Text × Text)
        → begin_at < length t
        → find_split u is_first max_len t begin_at ≡ some i
        → qualifies u is_first min_len (segment_to i) ≡ true
        → smart_loop u is_first fuel min_len max_len t (suc i) rest ≡ some r
        → smart_loop u is_first (suc fuel) min_len max_len t start rest
          ≡ some (segment_to i ∷ r.0, r.1)
    unfolding smart_loop
    loop_keep i r h e q k = ground arith

    loop_skip :
        (i : ℕ)
        → begin_at < length t
        → find_split u is_first max_len t begin_at ≡ some i
        → qualifies u is_first min_len (segment_to i) ≡ false
        → smart_loop u is_first (suc fuel) min_len max_len t start rest
          ≡ smart_loop u is_first fuel min_len max_len t (suc i) (append_rest rest (segment_to i))
    unfolding smart_loop
    loop_skip i h e q = ground arith

  smart_loop-Result :
      (fuel : ℕ) (t : Text) (start : ℕ) (rest : Text)
      → start ≤ length t
      → length t - start < fuel
      → Result t start (smart_loop u is_first fuel min_len max_len t start rest)
  smart_loop-Result zero t start rest s h = elim h [ ]
  smart_loop-Result (suc fuel) t start rest s h =
      let begin = begin_at t start fuel rest in
      let (from, to) = skip_white_bounds t start (length t - start) in
      elim (Bool-cases (leb (length t) begin)) [
        | inl e ↦
            (([], rest), loop_done t start fuel rest (ground arith), tt, nil-sublist (drop start t))
        | inr e ↦ elim (Option-cases (find_split u is_first max_len t begin)) [
          | inl n ↦ (
            ([], replace_rest rest (trim is_trimmed (drop begin t))),
            loop_tail t start fuel rest (ground arith) n,
            tt,
            nil-sublist (drop start t),
          )
          | inr (i, f) ↦
              let (a, b, c) = find_split-IsCut u is_first max_len t begin i (omega arith) f in
              let segment = segment_to t start fuel rest i in
              let part = trim-Sublist is_trimmed (slice t begin (suc i)) in
              elim (Bool-cases (qualifies u is_first min_len segment)) [
                | inl q ↦
                    let (r, k, good, sub) =
                      smart_loop-Result fuel t (suc i) rest (omega arith) (omega arith) in
                    let (starts, ends) = trim_ends is_trimmed (slice t begin (suc i)) in
                    (
                      (segment ∷ r.0, r.1),
                      loop_keep t start fuel rest i r (ground arith) f q k,
                      ((ground arith, ground arith, starts, ends), good),
                      slice-Sublist t segment (flat r.0) start begin i from a part sub,
                    )
                | inr q ↦
                    let (r, k, good, sub) =
                      smart_loop-Result fuel t (suc i) (append_rest rest segment) (omega arith)
                        (omega arith) in
                    (
                      r,
                      loop_skip t start fuel rest i (ground arith) f q ∙ k,
                      good,
                      slice-Sublist t [] (flat r.0) start begin i from a (nil-sublist _) sub,
                    )
              ]
        ]
      ]

  -- ExtractSmartSentences ends on every text. Each sentence is at least `min_len` long, ends in a
  -- separator and has no white space at its ends, and the sentences together are part of the text,
  -- in order: nothing is added, repeated or moved.
  pub extract_smart_lem :
      (t : Text)
      → (r : List Text × Text) × (extract_smart u is_first min_len max_len t ≡ some r)
        × All IsSentence r.0
        × Sublist (flat r.0) t
  unfolding extract_smart
  extract_smart_lem t = smart_loop-Result (suc (length t)) t 0 [] (omega arith) (omega arith)

  -- A text with no separator, as ContainsSentenceSeparator reports it, gives no sentence.
  pub extract_smart-contains_separator :
      (t : Text)
      → contains_separator u is_first t ≡ false
      → (rest : Text) × (extract_smart u is_first min_len max_len t ≡ some ([], rest))
  unfolding extract_smart
  extract_smart-contains_separator t h =
      let (from, to) = skip_white_bounds t 0 (length t - 0) in
      let begin = begin_at t 0 (length t) [] in
      elim (Bool-cases (leb (length t) begin)) [
        | inl e ↦ ([], loop_done t 0 (length t) [] (ground arith))
        | inr e ↦ (
          replace_rest [] (trim is_trimmed (drop begin t)),
          loop_tail t 0 (length t) [] (ground arith)
              (find_split-none u is_first max_len t begin (omega arith) h),
        )
      ]

  -- What did not become a sentence is lost where a tail without a split point follows: if the first
  -- segment of the text does not qualify and what follows it has no split point and is not blank,
  -- the result holds the tail alone, without that segment.
  pub extract_smart_loses :
      (t : Text) (i c : ℕ) (tail : Text)
      → let begin = skip_white t 0 (length t - 0) in
        let next = skip_white t (suc i) (length t - suc i) in
        begin < length t
        → find_split u is_first max_len t begin ≡ some i
        → qualifies u is_first min_len (trim is_trimmed (slice t begin (suc i))) ≡ false
        → next < length t
        → find_split u is_first max_len t next ≡ none
        → trim is_trimmed (drop next t) ≡ c ∷ tail
        → extract_smart u is_first min_len max_len t ≡ some ([], c ∷ tail)
  unfolding extract_smart
  extract_smart_loses t i c tail h f q n g e =
      let rest = append_rest [] (segment_to t 0 (length t) [] i) in
      let size : suc (length t - 1) ≡ length t = omega arith in
      let tail_round =
        subst
          (λ k.
            smart_loop u is_first k min_len max_len t (suc i) rest
            ≡ some ([], replace_rest rest (trim is_trimmed (drop (begin_at t (suc i) 0 []) t))))
          size (loop_tail t (suc i) (length t - 1) rest n g) in
      loop_skip t 0 (length t) [] i h f q ∙ tail_round ∙ ap (λ x. some ([], replace_rest rest x)) e
