-- ===== src/Stream/Ending.antt =====
-- internal/app/server/chat/plugins/output_segmenter.go: the end of the text of a stream.
use xiaozhi_esp32_server_gol.Common.{
  ◌≡◌, refl, ap, ◌∙◌, true, false, some, List, [], ◌∷◌, ◌++◌, inl, inr, arith, Bool-cases,
}
use xiaozhi_esp32_server_gol.Sentence.{Unicode}
use xiaozhi_esp32_server_gol.Stream.{Item, text_delta}
use xiaozhi_esp32_server_gol.Stream.Segmenter.{
  Segmenter, is_empty, end_last, flush_tool_calls, flush_text, cut_text, finish_text,
  transform_text, transform_kind, transform,
}
use xiaozhi_esp32_server_gol.Stream.Calls.{flush_tool_calls_lem, flush_text-calls, cut_text-calls}

module _ {C M : Type 0} where
  -- The list is not empty, and its last item is an end.
  abbrev pub Ends : List (Item C M) → Type 0
  Ends [] = true ≡ false
  Ends (i ∷ []) = i.is_end ≡ true
  Ends (i ∷ j ∷ is) = Ends (j ∷ is)

  end_last-Ends : (is : List (Item C M)) → is_empty is ≡ false → Ends (end_last is)
  unfolding end_last
  end_last-Ends [] h = h
  end_last-Ends (i ∷ []) h = refl
  end_last-Ends (i ∷ j ∷ []) h = refl
  end_last-Ends (i ∷ j ∷ k ∷ is) h = end_last-Ends (j ∷ k ∷ is) refl

  -- The end of a text: the items end, and nothing is held back.
  pub record Finished (r : List (Item C M) × Segmenter C) : Type 0 where
    pub ends : Ends r.0
    pub buffer : r.1.text_buffer ≡ []
    pub pending : r.1.pending ≡ []

  module _ (u : Unicode) where
    flush_text-buffer :
        (meta : M) (s : Segmenter C) → (flush_text u meta true true s).1.text_buffer ≡ []
    unfolding flush_text
    flush_text-buffer meta s = ground arith

    finish_text-Finished :
        (i : Item C M) (out : List (Item C M)) (s : Segmenter C)
        → i.is_end ≡ true
        → s.pending ≡ []
        → Finished (finish_text u i out s)
    unfolding finish_text
    finish_text-Finished i out s t p =
        let r = flush_text u i.meta true true s in
        let b = flush_text-buffer i.meta s in
        let (_, q) = flush_text-calls u i.meta true true s in
        elim (Bool-cases (is_empty (out ++ r.0))) [
          | inl n ↦ rw (finish_text, t, n) record { ends = refl; buffer = b; pending = q ∙ p }
          | inr n ↦
              rw (finish_text, t, n)
                record { ends = end_last-Ends (out ++ r.0) n; buffer = b; pending = q ∙ p }
        ]

    delta_text :
        (i : Item C M) (s : Segmenter C) (c : List (Item C M) × Segmenter C)
        → let f = flush_tool_calls i.meta false s in
          cut_text u i f.1 ≡ some c
          → transform_kind u text_delta i s ≡ some (finish_text u i (f.0 ++ c.0) c.1)
    unfolding transform_kind transform_text
    delta_text i s c e = rw (transform_kind, transform_text, e) refl

    -- A delta of text that is the end of its stream gives items of which the last is an end, even if
    -- there is no text, and leaves neither text nor tool calls behind.
    pub transform-Finished :
        (i : Item C M) (s : Segmenter C)
        → i.kind ≡ text_delta
        → i.is_end ≡ true
        → (r : List (Item C M) × Segmenter C) × (transform u i s ≡ some r) × Finished r
    unfolding transform
    transform-Finished i s k t =
        let f = flush_tool_calls i.meta false s in
        let (a, b) = flush_tool_calls_lem i.meta false s in
        let (c, e, _, h) = cut_text-calls u i f.1 in
        (
          finish_text u i (f.0 ++ c.0) c.1,
          ap (λ x. transform_kind u x i s) k ∙ delta_text i s c e,
          finish_text-Finished i (f.0 ++ c.0) c.1 t (h ∙ b),
        )
