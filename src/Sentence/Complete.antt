-- ===== src/Sentence/Complete.antt =====
-- internal/util/sentence.go: ExtractCompleteSentences.
use xiaozhi_esp32_server_gol.Common.{
  ◌≡◌, ◌≢◌, refl, ap, false, List, [], ◌∷◌, ◌++◌, if◌then◌else◌, append_assoc, append-nil,
  Bool-cases, if_both, inl, inr, ◌∙◌, All, All-append,
}
use mathlib.Core.List.{cons-ne-nil}
use xiaozhi_esp32_server_gol.Sentence.{Text, Unicode, is_sentence_end, trim}
use xiaozhi_esp32_server_gol.Sentence.Trim.{
  ink, ink-append, ink-trim, StartsInked, EndsInked, trim_ends, All-trim,
}

abbrev pub add_sentence : Text → List Text × Text → List Text × Text
add_sentence [] r = r
add_sentence (c ∷ t) r = ((c ∷ t) ∷ r.0, r.1)

abbrev pub flat : List Text → Text
flat [] = []
flat (s ∷ l) = s ++ flat l

module _ (u : Unicode) where
  -- The loop over the runes; the second text is `currentSentence`.
  unfoldable pub complete_loop : Text → Text → List Text × Text
  complete_loop [] cur = ([], cur)
  complete_loop (c ∷ t) cur =
      let ended = complete_loop t [] in
      let going = complete_loop t (cur ++ c ∷ []) in
      if is_sentence_end c then add_sentence (trim u.is_space (cur ++ c ∷ [])) ended else going

  -- `ExtractCompleteSentences`
  unfoldable pub extract_complete : Text → List Text × Text
  extract_complete t = let r = complete_loop t [] in (r.0, trim u.is_space r.1)

  ink-add_sentence :
      (s : Text) (r : List Text × Text)
      → ink u.is_space (flat (add_sentence s r).0 ++ (add_sentence s r).1)
        ≡ ink u.is_space s ++ ink u.is_space (flat r.0 ++ r.1)
  ink-add_sentence [] r = refl
  ink-add_sentence (c ∷ s) r =
      ap (ink u.is_space) (append_assoc (c ∷ s) (flat r.0) r.1)
      ∙ ink-append u.is_space (c ∷ s) (flat r.0 ++ r.1)

  ink-complete_loop :
      (t cur : Text)
      → ink u.is_space (flat (complete_loop t cur).0 ++ (complete_loop t cur).1)
        ≡ ink u.is_space (cur ++ t)
  unfolding complete_loop
  ink-complete_loop [] cur = rw (append-nil cur)
  ink-complete_loop (c ∷ t) cur = elim (Bool-cases (is_sentence_end c)) [
    | inl e ↦ rw e (
        cc (
          ink-add_sentence (trim u.is_space (cur ++ c ∷ [])) (complete_loop t []),
          ink-trim u.is_space (cur ++ c ∷ []),
          ink-complete_loop t [],
          ink-append u.is_space (cur ++ c ∷ []) t,
          append_assoc cur (c ∷ []) t,
        ))
    | inr e ↦ rw e (rw (← append_assoc cur (c ∷ []) t) (ink-complete_loop t (cur ++ c ∷ [])))
  ]

  -- A sentence is not empty, and starts and ends with a character that is no space.
  abbrev pub IsSpoken : Text → Type 0
  IsSpoken s = (s ≢ []) × StartsInked u.is_space s × EndsInked u.is_space s

  add_sentence-IsSpoken :
      (s : Text) (r : List Text × Text)
      → StartsInked u.is_space s × EndsInked u.is_space s
      → All IsSpoken r.0
      → All IsSpoken (add_sentence s r).0
  add_sentence-IsSpoken [] r h k = k
  add_sentence-IsSpoken (c ∷ s) r h k = ((cons-ne-nil c s, h.0, h.1), k)

  complete_loop-IsSpoken : (t cur : Text) → All IsSpoken (complete_loop t cur).0
  unfolding complete_loop
  complete_loop-IsSpoken [] cur = tt
  complete_loop-IsSpoken (c ∷ t) cur =
      if_both (λ (r : List Text × Text). All IsSpoken r.0) (is_sentence_end c) _ _
        (add_sentence-IsSpoken (trim u.is_space (cur ++ c ∷ [])) (complete_loop t [])
          (trim_ends u.is_space (cur ++ c ∷ [])) (complete_loop-IsSpoken t []))
        (complete_loop-IsSpoken t (cur ++ c ∷ []))

  add_sentence-rest : (s : Text) (r : List Text × Text) → (add_sentence s r).1 ≡ r.1
  add_sentence-rest [] r = refl
  add_sentence-rest (c ∷ s) r = refl

  complete_loop-rest :
      (t cur : Text)
      → All (λ c. is_sentence_end c ≡ false) cur
      → All (λ c. is_sentence_end c ≡ false) (complete_loop t cur).1
  unfolding complete_loop
  complete_loop-rest [] cur h = h
  complete_loop-rest (c ∷ t) cur h = elim (Bool-cases (is_sentence_end c)) [
    | inl e ↦
        rw (e, add_sentence-rest (trim u.is_space (cur ++ c ∷ [])) (complete_loop t []))
          (complete_loop-rest t [] tt)
    | inr e ↦ rw e (
        complete_loop-rest t (cur ++ c ∷ [])
          (All-append (λ c. is_sentence_end c ≡ false) cur (c ∷ []) h (e, tt)))
  ]

  -- ExtractCompleteSentences loses, adds and reorders no character but spaces: those of the
  -- sentences and of the remaining text, in order, are those of the text. Every sentence is
  -- trimmed and not empty, and the remaining text has no character that ends a sentence.
  pub extract_complete_lem :
      (t : Text)
      → let r = extract_complete t in
        (ink u.is_space (flat r.0 ++ r.1) ≡ ink u.is_space t)
        × All IsSpoken r.0
        × All (λ c. is_sentence_end c ≡ false) r.1
  unfolding extract_complete
  extract_complete_lem t =
      let r = complete_loop t [] in
      (
        cc (
          ink-append u.is_space (flat r.0) (trim u.is_space r.1),
          ink-append u.is_space (flat r.0) r.1,
          ink-trim u.is_space r.1,
          ink-complete_loop t [],
        ),
        complete_loop-IsSpoken t [],
        All-trim u.is_space (λ c. is_sentence_end c ≡ false) r.1 (complete_loop-rest t [] tt),
      )
