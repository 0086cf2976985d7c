-- ===== src/Dialogue/Aligned.antt =====
-- internal/data/client/client.go: the calls and the answers in aligned messages.
use xiaozhi_esp32_server_gol.Common.{
  ◌≡◌, refl, sym, ap, ◌∙◌, String, true, false, not, ◌&&◌, Option, none, some, List, [], ◌∷◌, All,
  All-append, All-imp, arith, ◌⊎◌, inl, inr, string_eq, beq_refl, if_given,
}
use xiaozhi_esp32_server_gol.Dialogue.{
  Role, role_user, role_assistant, role_tool, role_system, Message, is_empty, elem, proper,
  ids_called, ids_answered, called, answered, copies, kept, filter_messages, align,
}
use xiaozhi_esp32_server_gol.Dialogue.Ids.{elem-append, filter_called, filter_answered}

module _ {C : Type 0} where
  -- What is kept has its counterpart among the ids.
  record Fits (valid used : List String) (m : Message C) : Type 0 where
    pub answers :
        m.role ≡ role_tool → (elem m.tool_call_id valid ≡ true) × (elem m.tool_call_id used ≡ true)
    pub calls :
        m.role ≡ role_assistant
        → (m.tool_calls ≡ [])
          ⊎ ((s : String) × (elem s (proper m.tool_calls) ≡ true)
              × (elem s valid ≡ true)
              × (elem s used ≡ true))

  abbrev pub Each : (Message C → Type 0) → Option (Message C) → Type 0
  Each P none = ⊥
  Each P (some m) = P m

  copies-All :
      (P : Message C → Type 0) (used : List String) (m : Message C) (xs : List String)
      → ((s : String) → elem s (proper xs) ≡ true → elem s used ≡ true → P m)
      → All (Each P) (copies used m xs)
  unfolding copies
  copies-All P used m [] f = tt
  copies-All P used m (x ∷ xs) f =
      let rest : is_empty x ≡ false → All (Each P) (copies used m xs) =
        λ e. copies-All P used m xs (λ s h u. f s (ground (arith, e, h)) u) in
      if_given (All (Each P)) (is_empty x) _ _
        (λ e. copies-All P used m xs (λ s h u. f s (ground (arith, e, h)) u))
        (λ e.
          if_given (All (Each P)) (elem x used) _ _
            (λ u. (f x (ground (arith, e, beq_refl string_eq x)) u, rest e)) (λ u. rest e))

  kept_Fits :
      (valid used : List String) (r : Role) (cs : List String) (m : Message C)
      → m.role ≡ r
      → m.tool_calls ≡ cs
      → ((s : String) → elem s (ids_called r m) ≡ true → elem s valid ≡ true)
      → ((s : String) → elem s (ids_answered r m) ≡ true → elem s used ≡ true)
      → All (Each (Fits valid used)) (kept valid used r cs m)
  unfolding kept ids_called ids_answered
  kept_Fits valid used role_tool cs m r c f g =
      if_given (All (Each (Fits valid used)))
        (not (is_empty m.tool_call_id) && elem m.tool_call_id valid) _ _
        (λ e. (
          record {
            answers = λ x. (
              ground (arith, e),
              g m.tool_call_id (ground (arith, e, beq_refl string_eq m.tool_call_id)),
            );
            calls = λ x. absurd (ground (arith, sym r ∙ x));
          },
          tt,
        ))
        (λ e. tt)
  kept_Fits valid used role_assistant [] m r c f g =
      (record { answers = λ x. absurd (ground (arith, sym r ∙ x)); calls = λ x. inl c }, tt)
  kept_Fits valid used role_assistant (c ∷ cs) m r e f g =
      copies-All (Fits valid used) used m (c ∷ cs) (λ s h u.
        let h' = ap (λ xs. elem s (proper xs)) e ∙ h in
        record {
          answers = λ x. absurd (ground (arith, sym r ∙ x));
          calls = λ x. inr (s, h', f s h', u);
        })
  kept_Fits valid used role_user cs m r c f g = (
    record {
      answers = λ x. absurd (ground (arith, sym r ∙ x));
      calls = λ x. absurd (ground (arith, sym r ∙ x));
    },
    tt,
  )
  kept_Fits valid used role_system cs m r c f g = (
    record {
      answers = λ x. absurd (ground (arith, sym r ∙ x));
      calls = λ x. absurd (ground (arith, sym r ∙ x));
    },
    tt,
  )

  filter_Fits :
      (valid used : List String) (ms : List (Option (Message C)))
      → ((s : String) → elem s (called ms) ≡ true → elem s valid ≡ true)
      → ((s : String) → elem s (answered ms) ≡ true → elem s used ≡ true)
      → All (Each (Fits valid used)) (filter_messages valid used ms)
  unfolding filter_messages called answered
  filter_Fits valid used [] f g = tt
  filter_Fits valid used (none ∷ ms) f g = filter_Fits valid used ms f g
  filter_Fits valid used (some m ∷ ms) f g =
      All-append (Each (Fits valid used)) (kept valid used m.role m.tool_calls m) _
        (kept_Fits valid used m.role m.tool_calls m refl refl
          (λ s h. f s (ground (arith, elem-append s (ids_called m.role m) (called ms), h)))
          (λ s h. g s (ground (arith, elem-append s (ids_answered m.role m) (answered ms), h))))
        (filter_Fits valid used ms
          (λ s h. f s (ground (arith, elem-append s (ids_called m.role m) (called ms), h)))
          (λ s h. g s (ground (arith, elem-append s (ids_answered m.role m) (answered ms), h))))

  -- A message fits the messages `out`: an answer of a tool belongs to a call in them, and a message
  -- of the assistant with calls has a call that is answered in them.
  pub record Paired (out : List (Option (Message C))) (m : Message C) : Type 0 where
    pub answers : m.role ≡ role_tool → elem m.tool_call_id (called out) ≡ true
    pub calls :
        m.role ≡ role_assistant
        → (m.tool_calls ≡ [])
          ⊎ ((s : String) × (elem s (proper m.tool_calls) ≡ true) × (elem s (answered out) ≡ true))

  -- AlignToolMessages leaves no nil message, no answer of a tool without its call, and no message of
  -- the assistant of which no call is answered, where it has calls; each counterpart is among the
  -- messages that are left.
  pub align-Paired : (ms : List (Option (Message C))) → All (Each (Paired (align ms))) (align ms)
  unfolding align
  align-Paired ms =
      All-imp (Each (Fits (called ms) (answered ms))) (Each (Paired (align ms))) (align ms) go
        (filter_Fits (called ms) (answered ms) ms (λ s h. h) (λ s h. h))
    where
      pair : (m : Message C) → Fits (called ms) (answered ms) m → Paired (align ms) m
      pair m h = record {
        answers = λ x.
            let (v, u) = h.answers x in
            filter_called m.tool_call_id (called ms) (answered ms) ms v u;
        calls = λ x. elim (h.calls x) [
          | inl e ↦ inl e
          | inr (s, i, v, u) ↦ inr (s, i, filter_answered s (called ms) (answered ms) ms u v)
        ];
      }

      go :
          (o : Option (Message C))
          → Each (Fits (called ms) (answered ms)) o
          → Each (Paired (align ms)) o
      go none h = h
      go (some m) h = pair m h
