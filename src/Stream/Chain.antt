-- ===== src/Stream/Chain.antt =====
-- internal/domain/chat/streamtransform/pipeline.go: a chain of transformers in parts.
use xiaozhi_esp32_server_gol.Common.{
  ◌≡◌, refl, inl, inr, String, Option, none, some, Option-cases, List, [], ◌∷◌, ◌++◌,
}
use xiaozhi_esp32_server_gol.Stream.{
  Transformer, Item, Pushed, failed, stopped, pushed, push_items, push_steps, close_steps,
}

module _ {W C M E : Type 0} where
  -- What a chain does with the result of the chain before it.
  unfoldable pub then_steps : List (Transformer W C M E) → Pushed C M E × W → Pushed C M E × W
  then_steps ts (pushed is, w) = push_steps ts is w
  then_steps ts (failed n e, w) = (failed n e, w)
  then_steps ts (stopped is, w) = (stopped is, w)

  then_steps_assoc :
      (ss ts : List (Transformer W C M E)) (r : Pushed C M E × W)
      → ((is : List (Item C M)) (w : W)
          → push_steps (ss ++ ts) is w ≡ then_steps ts (push_steps ss is w))
      → then_steps (ss ++ ts) r ≡ then_steps ts (then_steps ss r)
  unfolding then_steps
  then_steps_assoc ss ts (pushed is, w) h = h is w
  then_steps_assoc ss ts (failed n e, w) h = refl
  then_steps_assoc ss ts (stopped is, w) h = refl

  push_steps-cons :
      (t : Transformer W C M E) (ts : List (Transformer W C M E)) (is : List (Item C M)) (w : W)
      → push_steps (t ∷ ts) is w ≡ then_steps ts (push_items t [] is w)
  unfolding push_steps then_steps
  push_steps-cons t ts is w = by_result (push_items t [] is w)
    where
      by_result :
          (r : Pushed C M E × W)
          → elim r.0 [ pushed js ↦ push_steps ts js r.1 | _ ↦ r ] ≡ then_steps ts r
      by_result (pushed js, v) = refl
      by_result (failed n e, v) = refl
      by_result (stopped js, v) = refl

  -- A chain in two parts is one part behind the other: the second part sees the items that the first one
  -- gives, and nothing at all if the first one fails or stops.
  pub push_steps-append :
      (ss ts : List (Transformer W C M E)) (is : List (Item C M)) (w : W)
      → push_steps (ss ++ ts) is w ≡ then_steps ts (push_steps ss is w)
  unfolding push_steps then_steps
  push_steps-append [] ts is w = refl
  push_steps-append (s ∷ ss) ts is w =
      rw (push_steps-cons s (ss ++ ts) is w, push_steps-cons s ss is w)
        (then_steps_assoc ss ts (push_items s [] is w) (push_steps-append ss ts))

  -- The states behind the transformers that are closed one after the other.
  abbrev pub closed_state : List (Transformer W C M E) → W → W
  closed_state [] w = w
  closed_state (t ∷ ts) w = closed_state ts (t.close w).1

  -- The first error in that order, with the name of its transformer.
  abbrev pub first_error : List (Transformer W C M E) → W → Option (String × E)
  first_error [] w = none
  first_error (t ∷ ts) w =
      let rest = first_error ts (t.close w).1 in
      elim (t.close w).0 [ none ↦ rest | some e ↦ some (t.name, e) ]

  keep_error :
      (e : String × E) (ts : List (Transformer W C M E)) (w : W)
      → close_steps (some e) ts w ≡ (some e, closed_state ts w)
  unfolding close_steps
  keep_error e [] w = refl
  keep_error e (t ∷ ts) w = keep_error e ts (t.close w).1

  -- Close closes every transformer, in order and also behind an error, and returns the first error.
  pub close_steps_lem :
      (ts : List (Transformer W C M E)) (w : W)
      → close_steps none ts w ≡ (first_error ts w, closed_state ts w)
  unfolding close_steps
  close_steps_lem [] w = refl
  close_steps_lem (t ∷ ts) w = elim (Option-cases (t.close w).0) [
    | inl e ↦ rw (close_steps, e) (close_steps_lem ts (t.close w).1)
    | inr (x, e) ↦ rw (close_steps, e) (keep_error (t.name, x) ts (t.close w).1)
  ]
