-- ===== src/Sentence.antt =====
-- internal/util/sentence.go: cutting the text of a language model into sentences to be spoken. A
-- text is the list of its code points ([]rune). The tables of package unicode are a parameter.
pub mod Complete
pub mod Smart
pub mod Trim
pub mod SplitPoint
pub mod Spoken
pub mod Tests
use xiaozhi_esp32_server_gol.Common.{
  ℕ, zero, suc, ◌+◌, ◌-◌, Bool, true, false, not, ◌&&◌, ◌||◌, Option, none, some, List, [], ◌∷◌,
  ◌++◌, length, get_elem?, ltb, leb, ◌==◌, if◌then◌else◌, min,
}

abbrev pub Text : Type 0
Text = List ℕ

-- unicode.IsDigit and unicode.IsSpace, of which the code relies on little.
pub record Unicode : Type 0 where
  pub is_digit : ℕ → Bool
  pub is_space : ℕ → Bool

abbrev pub elem : ℕ → List ℕ → Bool
elem c [] = false
elem c (x ∷ xs) = c == x || elem c xs

abbrev pub newline : ℕ
newline = 10

abbrev pub dot : ℕ
dot = b'.'

-- The full stop, question mark, exclamation mark, semicolon, colon and comma in full width.
abbrev pub wide : List ℕ
wide = 0x3002 ∷ 0xff1f ∷ 0xff01 ∷ 0xff1b ∷ 0xff1a ∷ []

-- `punctuationMap`
abbrev pub punctuation : List ℕ
punctuation = wide ++ (newline ∷ dot ∷ b'?' ∷ b'!' ∷ b';' ∷ b':' ∷ [])

-- `firstPunctuation`, with both commas.
abbrev pub first_punctuation : List ℕ
first_punctuation = 0xff0c ∷ b',' ∷ punctuation

abbrev pub sentence_end : List ℕ
sentence_end = dot ∷ 0x3002 ∷ b'!' ∷ 0xff01 ∷ b'?' ∷ 0xff1f ∷ newline ∷ []

abbrev pub sentence_pause : List ℕ
sentence_pause = b',' ∷ 0xff0c ∷ b';' ∷ 0xff1b ∷ b':' ∷ 0xff1a ∷ []

-- `IsSentenceEndPunctuation`
unfoldable pub is_sentence_end : ℕ → Bool
is_sentence_end c = elem c sentence_end

-- `IsSentencePausePunctuation`
unfoldable pub is_sentence_pause : ℕ → Bool
is_sentence_pause c = elem c sentence_pause

unfoldable pub separators : Bool → ℕ → Bool
separators is_first c = elem c (if is_first then first_punctuation else punctuation)

-- `text[i]`; every index below is in range.
abbrev pub at : Text → ℕ → ℕ
at t i = elim (get_elem? t i) [ some c ↦ c | none ↦ 0 ]

abbrev pub is_ascii_digit : ℕ → Bool
is_ascii_digit c = leb b'0' c && leb c b'9'

abbrev pub is_blank : ℕ → Bool
is_blank c = c == b' ' || c == 9

-- What `trimSpaceRunes` trims.
abbrev pub is_trimmed : ℕ → Bool
is_trimmed c = is_blank c || c == newline

-- A trim of both ends by a predicate: strings.TrimSpace and `trimSpaceRunes`.
module _ (space : ℕ → Bool) where
  unfoldable pub trim_front : Text → Text
  trim_front [] = []
  trim_front (c ∷ t) = if space c then trim_front t else c ∷ t

  unfoldable pub trim_back : Text → Text
  trim_back [] = []
  trim_back (c ∷ t) = elim (trim_back t) [ [] ↦ if space c then [] else c ∷ [] | x ∷ r ↦ c ∷ x ∷ r ]

  unfoldable pub trim : Text → Text
  trim t = trim_back (trim_front t)

abbrev pub is_colon : ℕ → Bool
is_colon c = c == b':' || c == 0xff1a

module _ (u : Unicode) where
  -- A text whose last character is a dot and whose others are digits, with one digit at least.
  unfoldable pub digits_dot : Text → Bool
  digits_dot [] = false
  digits_dot (c ∷ []) = false
  digits_dot (c ∷ d ∷ []) = u.is_digit c && d == dot
  digits_dot (c ∷ d ∷ e ∷ t) = u.is_digit c && digits_dot (d ∷ e ∷ t)

  -- `IsNumberWithDot`, on single-byte characters.
  unfoldable pub is_number_with_dot : Text → Bool
  is_number_with_dot t = digits_dot (trim u.is_space t)

  -- `isDigitAdjacentColon`
  unfoldable pub is_digit_adjacent_colon : Text → ℕ → Bool
  is_digit_adjacent_colon t pos =
      if leb (length t) pos
      then false
      else if not (is_colon (at t pos))
      then false
      else if pos == 0 || not (u.is_digit (at t (pos - 1)))
      then false
      else if pos == length t - 1
      then true
      else u.is_digit (at t (pos + 1))

  -- A separator that is not the colon of a time or a ratio.
  abbrev pub cuts : Bool → Text → ℕ → Bool
  cuts is_first t i = separators is_first (at t i) && not (is_digit_adjacent_colon t i)

  -- The loop of `ContainsSentenceSeparator` from index `i`, with `n` characters to go.
  unfoldable pub contains_from : Bool → Text → ℕ → ℕ → Bool
  contains_from is_first t i zero = false
  contains_from is_first t i (suc n) = cuts is_first t i || contains_from is_first t (suc i) n

  unfoldable pub contains_separator : Bool → Text → Bool
  contains_separator is_first t = contains_from is_first t 0 (length t)

-- The two loops of `isNumberPrefix` go down from index `n - 1`; the second gives up at a fourth
-- digit.
unfoldable pub skip_blanks_back : Text → ℕ → ℕ
skip_blanks_back t zero = zero
skip_blanks_back t (suc n) = if is_blank (at t n) then skip_blanks_back t n else suc n

unfoldable pub count_digits_back : Text → ℕ → ℕ → Option (ℕ × ℕ)
count_digits_back t zero count = some (zero, count)
count_digits_back t (suc n) count =
    let more = count_digits_back t n (suc count) in
    if is_ascii_digit (at t n)
    then if ltb 3 (suc count) then none else more
    else some (suc n, count)

abbrev at_line_start : Text → Option (ℕ × ℕ) → Bool
at_line_start t none = false
at_line_start t (some (zero, count)) = ltb 0 count
at_line_start t (some (suc n, count)) = if not (is_trimmed (at t n)) then false else ltb 0 count

-- `isNumberPrefix`
unfoldable pub is_number_prefix : Text → ℕ → Bool
is_number_prefix t pos =
    if pos == 0 || not (at t pos == dot)
    then false
    else at_line_start t (count_digits_back t (skip_blanks_back t pos) 0)

-- `findLastPunctuation` from index `n - 1` down; `none` stands for -1.
unfoldable pub find_last : Unicode → Bool → Text → ℕ → Option ℕ
find_last u is_first t zero = none
find_last u is_first t (suc n) =
    let rest = find_last u is_first t n in
    if separators is_first (at t n)
    then if at t n == dot && is_number_prefix t n
      then rest
      else if is_digit_adjacent_colon u t n
      then rest
      else some n
    else rest
