-- ===== src/Sentence/Smart.antt =====
-- internal/util/sentence.go: findNextSplitPoint and ExtractSmartSentences. An index is a number and
-- `none` stands for -1.
use xiaozhi_esp32_server_gol.Common.{
  ℕ, zero, suc, ◌+◌, ◌-◌, Bool, false, ◌&&◌, Option, none, some, List, [], ◌∷◌, ◌++◌, length, ltb,
  leb, ◌==◌, if◌then◌else◌, min, take, drop,
}
use xiaozhi_esp32_server_gol.Sentence.{
  Text, Unicode, newline, separators, at, is_ascii_digit, is_blank, is_trimmed, trim, cuts,
}

-- `for nextPos < endPos && blank { nextPos++ }`, with `n` characters to go.
unfoldable pub skip_blanks : Text → ℕ → ℕ → ℕ
skip_blanks t i zero = i
skip_blanks t i (suc n) = if is_blank (at t i) then skip_blanks t (suc i) n else i

-- Behind the newline at `i` a number follows, with room for two characters more before `stop`.
unfoldable pub numbered_next : Text → ℕ → ℕ → Bool
numbered_next t i stop =
    let next = skip_blanks t (suc i) (stop - suc i) in
    ltb (next + 2) stop && is_ascii_digit (at t next)

-- `for startPos < len && white { startPos++ }`
unfoldable pub skip_white : Text → ℕ → ℕ → ℕ
skip_white t i zero = i
skip_white t i (suc n) = if is_trimmed (at t i) then skip_white t (suc i) n else i

-- `text[start:end]`
abbrev pub slice : Text → ℕ → ℕ → Text
slice t start stop = take (stop - start) (drop start t)

-- `remaining += …`, with a space before it unless `remaining` is empty.
abbrev pub append_rest : Text → Text → Text
append_rest rest [] = rest
append_rest [] (c ∷ s) = c ∷ s
append_rest (d ∷ rest) (c ∷ s) = (d ∷ rest) ++ b' ' ∷ c ∷ s

-- The end of the loop, where there is no split point: the tail replaces what `remaining` held.
abbrev pub replace_rest : Text → Text → Text
replace_rest rest [] = rest
replace_rest rest (c ∷ s) = c ∷ s

module _ (u : Unicode) (is_first : Bool) where
  -- The first loop of `findNextSplitPoint`, which ends at `stop`.
  unfoldable pub split_within : Text → ℕ → ℕ → ℕ → Option ℕ
  split_within t stop i zero = none
  split_within t stop i (suc n) =
      let rest = split_within t stop (suc i) n in
      if at t i == newline
      then if numbered_next t i stop then some i else rest
      else if cuts u is_first t i
      then some i
      else rest

  -- The second loop, beyond the window.
  unfoldable pub split_beyond : Text → ℕ → ℕ → Option ℕ
  split_beyond t i zero = none
  split_beyond t i (suc n) =
      let rest = split_beyond t (suc i) n in
      if at t i == newline then some i else if cuts u is_first t i then some i else rest

  -- `findNextSplitPoint`
  unfoldable pub find_split : ℕ → Text → ℕ → Option ℕ
  find_split max_len t start =
      let stop = min (start + max_len) (length t) in
      elim (split_within t stop start (stop - start)) [
        | some i ↦ some i
        | none ↦ split_beyond t stop (length t - stop)
      ]

  abbrev pub last_separates : Text → Bool
  last_separates [] = false
  last_separates (c ∷ []) = separators is_first c
  last_separates (c ∷ d ∷ s) = last_separates (d ∷ s)

  -- A segment that is long enough and ends in a separator becomes a sentence.
  abbrev pub qualifies : ℕ → Text → Bool
  qualifies min_len s = leb min_len (length s) && last_separates s

  -- The loop of `ExtractSmartSentences` with fuel; `none` means that the fuel ran out.
  unfoldable pub smart_loop : ℕ → ℕ → ℕ → Text → ℕ → Text → Option (List Text × Text)
  smart_loop zero min_len max_len t start rest = none
  smart_loop (suc fuel) min_len max_len t start rest =
      let begin = skip_white t start (length t - start) in
      if leb (length t) begin then some ([], rest) else elim (find_split max_len t begin) [
        | none ↦ some ([], replace_rest rest (trim is_trimmed (drop begin t)))
        | some i ↦
            let segment = trim is_trimmed (slice t begin (suc i)) in
            let keep = smart_loop fuel min_len max_len t (suc i) rest in
            let skip = smart_loop fuel min_len max_len t (suc i) (append_rest rest segment) in
            if qualifies min_len segment
            then elim keep [ none ↦ none | some r ↦ some (segment ∷ r.0, r.1) ]
            else skip
      ]

  -- `ExtractSmartSentences`
  unfoldable pub extract_smart : ℕ → ℕ → Text → Option (List Text × Text)
  extract_smart min_len max_len t = smart_loop (suc (length t)) min_len max_len t 0 []
