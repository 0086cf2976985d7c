-- ===== src/Stream/Segmenter.antt =====
-- internal/app/server/chat/plugins/output_segmenter.go: the transformer that turns the text of a
-- language model into sentences, and holds tool calls back until text or their end follows. A text
-- is the list of its code points; `none` stands for the fuel of the splitter.
use xiaozhi_esp32_server_gol.Common.{
  ℕ, Bool, true, false, ◌&&◌, not, Option, none, some, List, [], ◌∷◌, ◌++◌, if◌then◌else◌,
}
use xiaozhi_esp32_server_gol.Sentence.{Text, Unicode, contains_separator, trim}
use xiaozhi_esp32_server_gol.Sentence.Smart.{extract_smart}
use xiaozhi_esp32_server_gol.Stream.{Kind, text_delta, text_segment, tool_calls, other, Item}

abbrev pub is_empty {ℓ} : {A : Type ℓ} → List A → Bool
is_empty [] = true
is_empty (x ∷ xs) = false

pub record Segmenter (C : Type 0) : Type 0 where
  pub text_buffer : Text
  pub pending : List C
  pub min_len : ℕ
  pub max_len : ℕ
  pub is_first : Bool

-- `outputSegmenterFactory.New`
abbrev pub new_segmenter : {C : Type 0} → Segmenter C
new_segmenter = record {
  text_buffer = [];
  pending = [];
  min_len = 2;
  max_len = 100;
  is_first = true;
}

module _ {C M : Type 0} where
  -- `out[len(out)-1].IsEnd = true`
  unfoldable pub end_last : List (Item C M) → List (Item C M)
  end_last [] = []
  end_last (i ∷ []) = record i { is_end = true } ∷ []
  end_last (i ∷ j ∷ is) = i ∷ end_last (j ∷ is)

  unfoldable pub flush_tool_calls : M → Bool → Segmenter C → List (Item C M) × Segmenter C
  flush_tool_calls meta is_end s = if is_empty s.pending then ([], s) else (
    record { kind = tool_calls; text = []; calls = s.pending; is_end = is_end; meta = meta } ∷ [],
    record s { pending = [] },
  )

  module _ (u : Unicode) where
    unfoldable pub flush_text : M → Bool → Bool → Segmenter C → List (Item C M) × Segmenter C
    flush_text meta force is_end s =
        let buffered = trim u.is_space s.text_buffer in
        if is_empty buffered
        then ([], if is_end then record s { text_buffer = [] } else s)
        else if not force
        then ([], s)
        else (
          record { kind = text_segment; text = buffered; calls = []; is_end = is_end; meta = meta }
              ∷ [],
          record s { text_buffer = []; is_first = false },
        )

    -- The loop over the sentences.
    unfoldable pub segments : M → List Text → Segmenter C → List (Item C M) × Segmenter C
    segments meta [] s = ([], s)
    segments meta (t ∷ ts) s =
        let skip = segments meta ts s in
        let rest = segments meta ts (record s { is_first = false }) in
        if is_empty (trim u.is_space t) then skip else (
          record { kind = text_segment; text = t; calls = []; is_end = false; meta = meta }
              ∷ rest.0,
          rest.1,
        )

    -- The part of `transformText` that cuts the buffer into sentences.
    unfoldable pub cut_text : Item C M → Segmenter C → Option (List (Item C M) × Segmenter C)
    cut_text i s =
        let b = record s { text_buffer = s.text_buffer ++ i.text } in
        if not (is_empty i.text) && contains_separator u s.is_first i.text
        then elim (extract_smart u s.is_first s.min_len s.max_len b.text_buffer) [
          | none ↦ none
          | some r ↦ some (segments i.meta r.0 (record b { text_buffer = r.1 }))
        ]
        else some ([], b)

    -- The end of `transformText`, for the items so far.
    unfoldable pub finish_text :
        Item C M → List (Item C M) → Segmenter C → List (Item C M) × Segmenter C
    finish_text i out s =
        if not i.is_end
        then (out, s)
        else let r = flush_text i.meta true true s in
          if is_empty (out ++ r.0)
          then (
            record { kind = text_segment; text = []; calls = []; is_end = true; meta = i.meta }
                ∷ [],
            r.1,
          )
          else (end_last (out ++ r.0), r.1)

    unfoldable pub transform_text : Item C M → Segmenter C → Option (List (Item C M) × Segmenter C)
    transform_text i s =
        let f = flush_tool_calls i.meta false s in
        elim (cut_text i f.1) [ none ↦ none | some r ↦ some (finish_text i (f.0 ++ r.0) r.1) ]

    unfoldable pub transform_tool_calls : Item C M → Segmenter C → List (Item C M) × Segmenter C
    transform_tool_calls i s =
        let f = flush_text i.meta true false s in
        let q = record f.1 { pending = f.1.pending ++ i.calls } in
        let g = flush_tool_calls i.meta true q in
        if i.is_end then (end_last (f.0 ++ g.0), g.1) else (f.0, q)

    unfoldable pub transform_other : Item C M → Segmenter C → List (Item C M) × Segmenter C
    transform_other i s =
        let f = flush_text i.meta true false s in
        let g = flush_tool_calls i.meta false f.1 in ((f.0 ++ g.0) ++ i ∷ [], g.1)

    -- The `switch` of `Transform`.
    unfoldable pub transform_kind :
        Kind → Item C M → Segmenter C → Option (List (Item C M) × Segmenter C)
    transform_kind text_delta i s = transform_text i s
    transform_kind tool_calls i s = some (transform_tool_calls i s)
    transform_kind text_segment i s = some (transform_other i s)
    transform_kind (other x) i s = some (transform_other i s)

    -- `Transform`, which neither fails nor stops the pipeline.
    unfoldable pub transform : Item C M → Segmenter C → Option (List (Item C M) × Segmenter C)
    transform i s = transform_kind i.kind i s
