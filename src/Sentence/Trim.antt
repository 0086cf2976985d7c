-- ===== src/Sentence/Trim.antt =====
-- internal/util/sentence.go: what a trim keeps of a text.
use mathlib.Core.List.{Sublist, nil-sublist}
use mathlib.Core.List.Sublist
use xiaozhi_esp32_server_gol.Common.{
  ℕ, ◌≡◌, refl, Bool, false, [], ◌∷◌, ◌++◌, arith, All, if◌then◌else◌, List-cases, inl, inr, ◌∙◌,
  if_both, subst,
}
use xiaozhi_esp32_server_gol.Sentence.{Text, trim, trim_front, trim_back}

module _ (space : ℕ → Bool) where
  -- The characters of a text that are not spaces.
  abbrev pub ink : Text → Text
  ink [] = []
  ink (c ∷ t) = if space c then ink t else c ∷ ink t

  pub ink-append : (s t : Text) → ink (s ++ t) ≡ ink s ++ ink t
  ink-append [] t = refl
  ink-append (c ∷ s) t = ground (arith, ink-append s t)

  ink-trim_front : (t : Text) → ink (trim_front space t) ≡ ink t
  unfolding trim_front
  ink-trim_front [] = refl
  ink-trim_front (c ∷ t) = ground (arith, ink-trim_front t)

  ink-trim_back : (t : Text) → ink (trim_back space t) ≡ ink t
  unfolding trim_back
  ink-trim_back [] = refl
  ink-trim_back (c ∷ t) = ground (arith, ink-trim_back t)

  -- A trim drops spaces only.
  pub ink-trim : (t : Text) → ink (trim space t) ≡ ink t
  unfolding trim
  ink-trim t = ink-trim_back (trim_front space t) ∙ ink-trim_front t

  -- The first character of a text is no space, and so is the last.
  abbrev pub StartsInked : Text → Type 0
  StartsInked [] = Unit
  StartsInked (c ∷ t) = space c ≡ false

  abbrev pub EndsInked : Text → Type 0
  EndsInked [] = Unit
  EndsInked (c ∷ []) = space c ≡ false
  EndsInked (c ∷ d ∷ t) = EndsInked (d ∷ t)

  trim_front-StartsInked : (t : Text) → StartsInked (trim_front space t)
  unfolding trim_front
  trim_front-StartsInked [] = tt
  trim_front-StartsInked (c ∷ t) = ground (arith, trim_front-StartsInked t)

  trim_back-StartsInked : (t : Text) → StartsInked t → StartsInked (trim_back space t)
  unfolding trim_back
  trim_back-StartsInked [] h = tt
  trim_back-StartsInked (c ∷ t) h = ground arith

  trim_back-EndsInked : (t : Text) → EndsInked (trim_back space t)
  unfolding trim_back
  trim_back-EndsInked [] = tt
  trim_back-EndsInked (c ∷ t) = ground (arith, trim_back-EndsInked t)

  -- A trimmed text neither starts nor ends with a space.
  pub trim_ends : (t : Text) → StartsInked (trim space t) × EndsInked (trim space t)
  unfolding trim
  trim_ends t = (
    trim_back-StartsInked (trim_front space t) (trim_front-StartsInked t),
    trim_back-EndsInked (trim_front space t),
  )

  All-trim_front {κ} : (P : ℕ → Type κ) (t : Text) → All P t → All P (trim_front space t)
  unfolding trim_front
  All-trim_front P [] h = tt
  All-trim_front P (c ∷ t) h =
      if_both (All P) (space c) (trim_front space t) (c ∷ t) (All-trim_front P t h.1) h

  All-trim_back {κ} : (P : ℕ → Type κ) (t : Text) → All P t → All P (trim_back space t)
  unfolding trim_back
  All-trim_back P [] h = tt
  All-trim_back P (c ∷ t) h = elim (List-cases (trim_back space t)) [
    | inl e ↦ rw (e, trim_back) (if_both (All P) (space c) [] (c ∷ []) tt (h.0, tt))
    | inr (x, r, e) ↦ rw (e, trim_back) (h.0, subst (All P) e (All-trim_back P t h.1))
  ]

  -- What holds of every character of a text holds of every character of its trim.
  pub All-trim {κ} : (P : ℕ → Type κ) (t : Text) → All P t → All P (trim space t)
  unfolding trim
  All-trim P t h = All-trim_back P (trim_front space t) (All-trim_front P t h)

  trim_front-Sublist : (t : Text) → Sublist (trim_front space t) t
  unfolding trim_front
  trim_front-Sublist [] = Sublist.refl []
  trim_front-Sublist (c ∷ t) =
      if_both (λ s. Sublist s (c ∷ t)) (space c) (trim_front space t) (c ∷ t)
        (Sublist.cons c (trim_front-Sublist t)) (Sublist.refl (c ∷ t))

  trim_back-Sublist : (t : Text) → Sublist (trim_back space t) t
  unfolding trim_back
  trim_back-Sublist [] = Sublist.refl []
  trim_back-Sublist (c ∷ t) = elim (List-cases (trim_back space t)) [
    | inl e ↦
        rw (e, trim_back)
          (if_both (λ s. Sublist s (c ∷ t)) (space c) [] (c ∷ []) (nil-sublist (c ∷ t))
            (Sublist.cons-cons c (nil-sublist t)))
    | inr (x, r, e) ↦
        rw (e, trim_back) (Sublist.cons-cons c (subst (λ s. Sublist s t) e (trim_back-Sublist t)))
  ]

  -- A trim is part of the text, in order.
  pub trim-Sublist : (t : Text) → Sublist (trim space t) t
  unfolding trim
  trim-Sublist t = Sublist.trans (trim_back-Sublist (trim_front space t)) (trim_front-Sublist t)
