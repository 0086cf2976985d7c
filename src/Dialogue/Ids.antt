-- ===== src/Dialogue/Ids.antt =====
-- internal/data/client/client.go: the ids that are called and answered in aligned messages.
use xiaozhi_esp32_server_gol.Common.{
  ◌≡◌, refl, sym, ap, ◌∙◌, String, true, ◌||◌, Option, none, some, List, [], ◌∷◌, ◌++◌, arith,
  string_eq,
}
use xiaozhi_esp32_server_gol.Dialogue.{
  Role, role_user, role_assistant, role_tool, role_system, Message, elem, proper, ids_called,
  ids_answered, called, answered, copies, kept, filter_messages,
}

pub elem-append : (s : String) (xs ys : List String) → elem s (xs ++ ys) ≡ (elem s xs || elem s ys)
elem-append s [] ys = refl
elem-append s (x ∷ xs) ys = ground (arith, elem-append s xs ys)

module _ {C : Type 0} where
  called-append :
      (s : String) (xs ys : List (Option (Message C)))
      → elem s (called (xs ++ ys)) ≡ (elem s (called xs) || elem s (called ys))
  unfolding called
  called-append s [] ys = refl
  called-append s (none ∷ xs) ys = called-append s xs ys
  called-append s (some m ∷ xs) ys = ground (
    arith,
    elem-append s (ids_called m.role m) (called (xs ++ ys)),
    elem-append s (ids_called m.role m) (called xs),
    called-append s xs ys,
  )

  answered-append :
      (s : String) (xs ys : List (Option (Message C)))
      → elem s (answered (xs ++ ys)) ≡ (elem s (answered xs) || elem s (answered ys))
  unfolding answered
  answered-append s [] ys = refl
  answered-append s (none ∷ xs) ys = answered-append s xs ys
  answered-append s (some m ∷ xs) ys = ground (
    arith,
    elem-append s (ids_answered m.role m) (answered (xs ++ ys)),
    elem-append s (ids_answered m.role m) (answered xs),
    answered-append s xs ys,
  )

  -- A call that is answered brings its message.
  copies_call :
      (s : String) (used : List String) (m : Message C) (xs : List String)
      → m.role ≡ role_assistant
      → elem s (proper xs) ≡ true
      → elem s used ≡ true
      → elem s (proper m.tool_calls) ≡ true
      → elem s (called (copies used m xs)) ≡ true
  unfolding copies called ids_called
  copies_call s used m [] r h u k = ground (arith, h)
  copies_call s used m (x ∷ xs) r h u k =
      let rest = copies used m xs in
      let own : elem s (called (some m ∷ rest)) ≡ true =
        elem-append s (ids_called m.role m) (called rest)
        ∙ ground (arith, ap (λ o. elem s (ids_called o m)) r, k) in
      let go : elem s (proper xs) ≡ true → elem s (called rest) ≡ true =
        λ q. copies_call s used m xs r q u k in
      ground (arith, own, go, h, u, string_eq.beq_iff x s)

  kept_call :
      (s : String) (valid used : List String) (r : Role) (cs : List String) (m : Message C)
      → m.role ≡ r
      → m.tool_calls ≡ cs
      → elem s (ids_called r m) ≡ true
      → elem s used ≡ true
      → elem s (called (kept valid used r cs m)) ≡ true
  unfolding kept ids_called
  kept_call s valid used role_assistant [] m r c h u =
      ground (arith, h, ap (λ xs. elem s (proper xs)) c)
  kept_call s valid used role_assistant (c ∷ cs) m r e h u =
      copies_call s used m (c ∷ cs) r (ap (λ xs. elem s (proper xs)) (sym e) ∙ h) u h
  kept_call s valid used role_tool cs m r c h u = ground (arith, h)
  kept_call s valid used role_user cs m r c h u = ground (arith, h)
  kept_call s valid used role_system cs m r c h u = ground (arith, h)

  kept_answer :
      (s : String) (valid used : List String) (r : Role) (cs : List String) (m : Message C)
      → m.role ≡ r
      → elem s (ids_answered r m) ≡ true
      → elem s valid ≡ true
      → elem s (answered (kept valid used r cs m)) ≡ true
  unfolding kept ids_answered answered
  kept_answer s valid used role_tool cs m r h v =
      let own : elem s (answered (some m ∷ [])) ≡ true =
        elem-append s (ids_answered m.role m) []
        ∙ ground (arith, ap (λ o. elem s (ids_answered o m)) r, h) in
      let same : m.tool_call_id ≡ s = ground (arith, h, string_eq.beq_iff m.tool_call_id s) in
      let is_valid : elem m.tool_call_id valid ≡ true = ap (λ x. elem x valid) same ∙ v in
      ground (arith, own, h, is_valid)
  kept_answer s valid used role_assistant cs m r h v = ground (arith, h)
  kept_answer s valid used role_user cs m r h v = ground (arith, h)
  kept_answer s valid used role_system cs m r h v = ground (arith, h)

  -- What is called and answered stays so.
  pub filter_called :
      (s : String) (valid used : List String) (ms : List (Option (Message C)))
      → elem s (called ms) ≡ true
      → elem s used ≡ true
      → elem s (called (filter_messages valid used ms)) ≡ true
  unfolding filter_messages called
  filter_called s valid used [] h u = h
  filter_called s valid used (none ∷ ms) h u = filter_called s valid used ms h u
  filter_called s valid used (some m ∷ ms) h u = ground (
    arith,
    elem-append s (ids_called m.role m) (called ms),
    called-append s (kept valid used m.role m.tool_calls m) (filter_messages valid used ms),
    kept_call s valid used m.role m.tool_calls m refl refl,
    filter_called s valid used ms,
    h,
    u,
  )

  pub filter_answered :
      (s : String) (valid used : List String) (ms : List (Option (Message C)))
      → elem s (answered ms) ≡ true
      → elem s valid ≡ true
      → elem s (answered (filter_messages valid used ms)) ≡ true
  unfolding filter_messages answered
  filter_answered s valid used [] h u = h
  filter_answered s valid used (none ∷ ms) h u = filter_answered s valid used ms h u
  filter_answered s valid used (some m ∷ ms) h u = ground (
    arith,
    elem-append s (ids_answered m.role m) (answered ms),
    answered-append s (kept valid used m.role m.tool_calls m) (filter_messages valid used ms),
    kept_answer s valid used m.role m.tool_calls m refl,
    filter_answered s valid used ms,
    h,
    u,
  )
