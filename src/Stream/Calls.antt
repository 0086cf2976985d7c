-- ===== src/Stream/Calls.antt =====
-- internal/app/server/chat/plugins/output_segmenter.go: tool calls on their way through the segmenter,
-- and the end of a stream.
use xiaozhi_esp32_server_gol.Common.{
  All, Bool, true, false, ◌&&◌, not, Option, none, some, List, [], ◌∷◌, ◌++◌, ◌≡◌, refl, ap, sym,
  ◌∙◌, inl, inr, append_assoc, append-nil, arith, Bool-cases, List-cases,
}
use xiaozhi_esp32_server_gol.Sentence.{Text, Unicode, contains_separator}
use xiaozhi_esp32_server_gol.Sentence.Spoken.{extract_smart_lem}
use xiaozhi_esp32_server_gol.Stream.{Kind, text_delta, text_segment, tool_calls, other, Item}
use xiaozhi_esp32_server_gol.Stream.Segmenter.{
  Segmenter, is_empty, end_last, flush_tool_calls, flush_text, segments, cut_text, finish_text,
  transform_text, transform_tool_calls, transform_other, transform_kind, transform,
}

module _ {C M : Type 0} where
  abbrev pub calls_of : List (Item C M) → List C
  calls_of [] = []
  calls_of (i ∷ is) = i.calls ++ calls_of is

  -- The calls that come out, and then those that are held back.
  abbrev pub all_calls : List (Item C M) × Segmenter C → List C
  all_calls r = calls_of r.0 ++ r.1.pending

  calls_of-append : (is js : List (Item C M)) → calls_of (is ++ js) ≡ calls_of is ++ calls_of js
  calls_of-append [] js = refl
  calls_of-append (i ∷ is) js =
      ap (◌++◌ i.calls) (calls_of-append is js)
      ∙ sym (append_assoc i.calls (calls_of is) (calls_of js))

  calls_of-end_last : (is : List (Item C M)) → calls_of (end_last is) ≡ calls_of is
  unfolding end_last
  calls_of-end_last [] = refl
  calls_of-end_last (i ∷ []) = refl
  calls_of-end_last (i ∷ j ∷ is) = ap (◌++◌ i.calls) (calls_of-end_last (j ∷ is))

  is_empty-calls : (is : List (Item C M)) → is_empty is ≡ true → calls_of is ≡ []
  is_empty-calls [] h = refl
  is_empty-calls (i ∷ is) h = ground arith

  pub flush_tool_calls_lem :
      (meta : M) (e : Bool) (s : Segmenter C)
      → (calls_of (flush_tool_calls meta e s).0 ≡ s.pending)
        × ((flush_tool_calls meta e s).1.pending ≡ [])
  unfolding flush_tool_calls
  flush_tool_calls_lem meta e s = elim (List-cases s.pending) [
    | inl q ↦ rw q (refl, refl)
    | inr (c, cs, q) ↦ rw q (append-nil (c ∷ cs), refl)
  ]

  module _ (u : Unicode) where
    pub flush_text-calls :
        (meta : M) (f e : Bool) (s : Segmenter C)
        → (calls_of (flush_text u meta f e s).0 ≡ [])
          × ((flush_text u meta f e s).1.pending ≡ s.pending)
    unfolding flush_text
    flush_text-calls meta f e s = (ground arith, ground arith)

    segments-calls :
        (meta : M) (ts : List Text) (s : Segmenter C)
        → (calls_of (segments u meta ts s).0 ≡ []) × ((segments u meta ts s).1.pending ≡ s.pending)
    unfolding segments
    segments-calls meta [] s = (refl, refl)
    segments-calls meta (t ∷ ts) s =
        let (a, b) = segments-calls meta ts s in
        let (c, d) = segments-calls meta ts (record s { is_first = false }) in
        (ground (arith, a, c), ground (arith, b, d))

    pub cut_text-calls :
        (i : Item C M) (s : Segmenter C)
        → (r : List (Item C M) × Segmenter C) × (cut_text u i s ≡ some r)
          × (calls_of r.0 ≡ [])
          × (r.1.pending ≡ s.pending)
    unfolding cut_text
    cut_text-calls i s =
        let b = record s { text_buffer = s.text_buffer ++ i.text } in
        let (c, e, _, _) = extract_smart_lem u s.is_first s.min_len s.max_len b.text_buffer in
        let k = record b { text_buffer = c.1 } in
        elim (Bool-cases (not (is_empty i.text) && contains_separator u s.is_first i.text)) [
          | inl t ↦
              let (g, h) = segments-calls i.meta c.0 k in
              (segments u i.meta c.0 k, rw (cut_text, t, e) refl, g, h)
          | inr t ↦ (([], b), rw (cut_text, t) refl, refl, refl)
        ]

    finish_text-calls :
        (i : Item C M) (out : List (Item C M)) (s : Segmenter C)
        → all_calls (finish_text u i out s) ≡ calls_of out ++ s.pending
    unfolding finish_text
    finish_text-calls i out s =
        let r = flush_text u i.meta true true s in
        let (a, b) = flush_text-calls i.meta true true s in
        let c = calls_of-append out r.0 in
        let d = calls_of-end_last (out ++ r.0) in
        let e = append-nil (calls_of out) in
        elim (Bool-cases i.is_end) [
          | inr t ↦ rw (finish_text, t) refl
          | inl t ↦ elim (Bool-cases (is_empty (out ++ r.0))) [
            | inl n ↦ let m = is_empty-calls (out ++ r.0) n in rw (finish_text, t, n) cc
            | inr n ↦ rw (finish_text, t, n) cc
          ]
        ]

    transform_text-calls :
        (i : Item C M) (s : Segmenter C)
        → (r : List (Item C M) × Segmenter C) × (transform_text u i s ≡ some r)
          × (all_calls r ≡ s.pending)
    unfolding transform_text
    transform_text-calls i s =
        let f = flush_tool_calls i.meta false s in
        let (a, b) = flush_tool_calls_lem i.meta false s in
        let (c, e, g, h) = cut_text-calls i f.1 in
        let z = finish_text-calls i (f.0 ++ c.0) c.1 in
        let y = calls_of-append f.0 c.0 in
        let m = append-nil s.pending in
        (finish_text u i (f.0 ++ c.0) c.1, rw (transform_text, e) refl, cc)

    transform_tool_calls-calls :
        (i : Item C M) (s : Segmenter C)
        → all_calls (transform_tool_calls u i s) ≡ s.pending ++ i.calls
    unfolding transform_tool_calls
    transform_tool_calls-calls i s =
        let f = flush_text u i.meta true false s in
        let (a, b) = flush_text-calls i.meta true false s in
        let q = record f.1 { pending = f.1.pending ++ i.calls } in
        let g = flush_tool_calls i.meta true q in
        let (c, d) = flush_tool_calls_lem i.meta true q in
        let e = calls_of-append f.0 g.0 in
        let h = calls_of-end_last (f.0 ++ g.0) in
        let n = append-nil (s.pending ++ i.calls) in
        elim (Bool-cases i.is_end) [
          | inl t ↦ rw (transform_tool_calls, t) cc
          | inr t ↦ rw (transform_tool_calls, t) cc
        ]

    transform_other-calls :
        (i : Item C M) (s : Segmenter C) → all_calls (transform_other u i s) ≡ s.pending ++ i.calls
    unfolding transform_other
    transform_other-calls i s =
        let f = flush_text u i.meta true false s in
        let (a, b) = flush_text-calls i.meta true false s in
        let g = flush_tool_calls i.meta false f.1 in
        let (c, d) = flush_tool_calls_lem i.meta false f.1 in
        let e = calls_of-append f.0 g.0 in
        let h = calls_of-append (f.0 ++ g.0) (i ∷ []) in
        let n = append-nil i.calls in let m = append-nil (s.pending ++ i.calls) in cc

    -- A delta of text carries no tool calls.
    abbrev pub Plain : Item C M → Type 0
    Plain i = i.kind ≡ text_delta → i.calls ≡ []

    kind-calls :
        (k : Kind) (i : Item C M) (s : Segmenter C)
        → (k ≡ text_delta → i.calls ≡ [])
        → (r : List (Item C M) × Segmenter C) × (transform_kind u k i s ≡ some r)
          × (all_calls r ≡ s.pending ++ i.calls)
    unfolding transform_kind
    kind-calls text_delta i s p =
        let (r, a, b) = transform_text-calls i s in
        (r, a, b ∙ sym (append-nil s.pending) ∙ ap (◌++◌ s.pending) (sym (p refl)))
    kind-calls text_segment i s p = (transform_other u i s, refl, transform_other-calls i s)
    kind-calls tool_calls i s p = (transform_tool_calls u i s, refl, transform_tool_calls-calls i s)
    kind-calls (other x) i s p = (transform_other u i s, refl, transform_other-calls i s)

    pub transform-calls :
        (i : Item C M) (s : Segmenter C)
        → Plain i
        → (r : List (Item C M) × Segmenter C) × (transform u i s ≡ some r)
          × (all_calls r ≡ s.pending ++ i.calls)
    unfolding transform
    transform-calls i s p = kind-calls i.kind i s p

    -- A stream of items, in order.
    unfoldable pub stream : List (Item C M) → Segmenter C → Option (List (Item C M) × Segmenter C)
    stream [] s = some ([], s)
    stream (i ∷ is) s = elim (transform u i s) [
      | none ↦ none
      | some r ↦ elim (stream is r.1) [ none ↦ none | some t ↦ some (r.0 ++ t.0, t.1) ]
    ]

    -- On every stream whose text deltas carry no tool calls the segmenter ends, and no tool call is
    -- lost, repeated or moved: those that came out, and then those that are held back, are those
    -- that were held back before and then those of the stream.
    pub stream-calls :
        (is : List (Item C M)) (s : Segmenter C)
        → All Plain is
        → (r : List (Item C M) × Segmenter C) × (stream is s ≡ some r)
          × (all_calls r ≡ s.pending ++ calls_of is)
    unfolding stream
    stream-calls [] s p = (([], s), refl, sym (append-nil s.pending))
    stream-calls (i ∷ is) s (p, ps) =
        let (r, a, b) = transform-calls i s p in
        let (t, c, d) = stream-calls is r.1 ps in
        let e = calls_of-append r.0 t.0 in
        let f = append_assoc (calls_of r.0) (calls_of t.0) t.1.pending in
        let g = append_assoc (calls_of r.0) r.1.pending (calls_of is) in
        let h = append_assoc s.pending i.calls (calls_of is) in
        ((r.0 ++ t.0, t.1), rw (stream, a, c) refl, cc)
