-- ===== src/Media/Gate.antt =====
-- internal/app/server/chat/realtime_media_gate.go: what becomes of the recognised text of a device in
-- real-time mode, with removePunctuation of internal/app/server/chat/util.go. Texts are lists of
-- code points. The player's part is realtimeMcpAudioGateStatus of media_player.go.
use xiaozhi_esp32_server_gol.Common.{
  ℕ, ◌≡◌, ◌≢◌, refl, String, Bool, true, false, not, ◌&&◌, ◌||◌, Option, none, some, List, [], ◌∷◌,
  ◌==◌, ◌⊎◌, inl, inr, arith, if◌then◌else◌, if_given, if_both,
}
use xiaozhi_esp32_server_gol.Media.Sources.{
  SourceType, mcp_resource, inline_audio, source_unset, Source,
}
use xiaozhi_esp32_server_gol.Media.{
  Attachment, status_playing, Runtime, is_mcp_audio, is_some, is_playing, is_paused,
}

-- The source type that the gate looks at, and its two answers for an audio of an MCP tool.
abbrev pub gate_type : SourceType → Option Source → SourceType
gate_type source_unset (some s) = s.source_type
gate_type type o = type

unfoldable pub gate_with : Option ℕ → Bool → Runtime → Bool × Bool
gate_with none can_control r = (can_control, false)
gate_with (some p) can_control r =
    if is_some r.attachment && is_playing r.status
    then (true, not (r.heap p).paused)
    else (can_control, false)

-- `realtimeMcpAudioGateStatus`: whether a spoken request may control the playback, and whether
-- other speech is held back.
unfoldable pub gate_status : Runtime → Bool × Bool
gate_status r =
    let can_control = is_some r.active || (r.resume_on_attach || is_paused r.status) in
    if is_mcp_audio (gate_type r.current_source_type r.current_source)
    then gate_with r.active can_control r
    else (false, false)

-- What is used of the packages strings and unicode, and the code points of a keyword.
pub record Letters : Type 0 where
  pub trim_space : List ℕ → List ℕ
  pub to_lower : List ℕ → List ℕ
  pub is_punct : ℕ → Bool
  pub is_space : ℕ → Bool
  pub code_points : String → List ℕ

pub data Control : Type 0 where
  play_playlist enqueue_current resume pause stop next prev : Control

-- What tryHandleRealtimeMcpAudioASR does: the text goes on to the chat, ends it, controls the
-- player, or is ignored.
pub data Handling : Type 0 where
  passes exits ignores : Handling
  controls : Control → Handling

abbrev pub rules : List (Control × List String)
rules =
    (
      play_playlist,
      "play playlist" ∷ "play songs in playlist" ∷ "play playlist songs" ∷ "play the playlist" ∷ [],
    )
    ∷ (
      enqueue_current,
      "add to playlist" ∷ "add to playlist" ∷ "add to playlist" ∷ "add to playlist" ∷ [],
    )
    ∷ (
      resume,
      "resume" ∷ "resume playing" ∷ "keep listening" ∷ "keep playing" ∷ "continue playing" ∷ [],
    )
    ∷ (pause, "pause" ∷ "pause first" ∷ "stop a moment" ∷ [])
    ∷ (stop, "stop playing" ∷ "stop" ∷ "stop playing" ∷ "stop playing" ∷ [])
    ∷ (next, "next" ∷ "next song" ∷ "skip to next" ∷ "skip song" ∷ [])
    ∷ (prev, "previous" ∷ "previous song" ∷ "skip to previous" ∷ [])
    ∷ []

abbrev pub exit_keywords : List String
exit_keywords =
    "goodbye" ∷ "bye bye" ∷ "bye" ∷ "see you" ∷ "exit" ∷ "exit conversation" ∷ "step down" ∷ []

abbrev pub starts_with : List ℕ → List ℕ → Bool
starts_with xs [] = true
starts_with [] (y ∷ ys) = false
starts_with (x ∷ xs) (y ∷ ys) = x == y && starts_with xs ys

-- `strings.Contains`
abbrev pub contains : List ℕ → List ℕ → Bool
contains [] k = starts_with [] k
contains (x ∷ xs) k = starts_with (x ∷ xs) k || contains xs k

abbrev pub is_nil : List ℕ → Bool
is_nil [] = true
is_nil (x ∷ xs) = false

module _ (l : Letters) where
  abbrev pub remove_punctuation : List ℕ → List ℕ
  remove_punctuation [] = []
  remove_punctuation (x ∷ xs) =
      let rest = remove_punctuation xs in
      if not (l.is_punct x) && not (l.is_space x) then x ∷ rest else rest

  unfoldable pub normalize_text : List ℕ → List ℕ
  normalize_text s = remove_punctuation (l.to_lower (l.trim_space s))

  -- Whether the normalised text contains one of the keywords that are not empty.
  unfoldable pub has_keyword : List ℕ → List String → Bool
  has_keyword s [] = false
  has_keyword s (k ∷ ks) =
      let rest = has_keyword s ks in
      let w = normalize_text (l.code_points k) in
      if is_nil w then rest else if contains s w then true else rest

  unfoldable pub find_rule : List ℕ → List (Control × List String) → Option Control
  find_rule s [] = none
  find_rule s ((c, ks) ∷ rs) =
      let rest = find_rule s rs in if has_keyword s ks then some c else rest

  unfoldable pub detect_control : List ℕ → Option Control
  detect_control text = let s = normalize_text text in if is_nil s then none else find_rule s rules

  unfoldable pub is_exit_command : List ℕ → Bool
  is_exit_command text =
      let s = normalize_text text in if is_nil s then false else has_keyword s exit_keywords

  -- Behind the exit words: a control, or the gate.
  abbrev pub handle_control : Option Control → Bool → Handling
  handle_control (some c) gate = controls c
  handle_control none gate = if gate then ignores else passes

  -- `tryHandleRealtimeMcpAudioASR` of a session in real-time mode, or not, with its player.
  unfoldable pub try_handle : Bool → List ℕ → Runtime → Handling
  try_handle real_time text r =
      let gate = if real_time then (gate_status r).1 else false in
      let rest = handle_control (detect_control text) gate in
      if real_time && (gate_status r).0
      then if is_exit_command text then exits else rest
      else passes

with-control :
    (o : Option ℕ) (can : Bool) (r : Runtime)
    → (gate_with o can r).1 ≡ true
    → (gate_with o can r).0 ≡ true
unfolding gate_with
with-control none can r = λ h. ground (arith, h)
with-control (some p) can r =
    if_both (λ (z : Bool × Bool). z.1 ≡ true → z.0 ≡ true)
      (is_some r.attachment && is_playing r.status) _ _ (λ h. refl) (λ h. ground (arith, h))

control_handled :
    (l : Letters) (o : Option Control) (gate : Bool)
    → gate ≡ true
    → handle_control l o gate ≢ passes
control_handled l (some c) gate h e = ground (arith, e)
control_handled l none gate h e = ground (arith, h, e)

-- Speech is held back only where it may control the playback.
gate-control : (r : Runtime) → (gate_status r).1 ≡ true → (gate_status r).0 ≡ true
unfolding gate_status
gate-control r =
    if_both (λ (z : Bool × Bool). z.1 ≡ true → z.0 ≡ true)
      (is_mcp_audio (gate_type r.current_source_type r.current_source)) _ _
      (with-control r.active (is_some r.active || (r.resume_on_attach || is_paused r.status)) r)
      (λ h. ground (arith, h))

-- The type of the current source, which is that of the source where the player's field is empty.
abbrev pub IsTyped : SourceType → Runtime → Type 0
IsTyped t r =
    (r.current_source_type ≡ t)
    ⊎ ((r.current_source_type ≡ source_unset)
        × ((s : Source) × (r.current_source ≡ some s) × (s.source_type ≡ t)))

typed-mcp :
    (t : SourceType) (r : Runtime)
    → (t ≡ mcp_resource) ⊎ (t ≡ inline_audio)
    → IsTyped t r
    → is_mcp_audio (gate_type r.current_source_type r.current_source) ≡ true
typed-mcp t r (inl m) (inl h) = rw (h, m) refl
typed-mcp t r (inr m) (inl h) = rw (h, m) refl
typed-mcp t r (inl m) (inr (h, x)) = let (s, e, k) = x in rw (h, e, k, m) refl
typed-mcp t r (inr m) (inr (h, x)) = let (s, e, k) = x in rw (h, e, k, m) refl

-- The gate of a playing player.
playing-gate :
    (t : SourceType) (a : Attachment) (p : ℕ) (r : Runtime)
    → (t ≡ mcp_resource) ⊎ (t ≡ inline_audio)
    → IsTyped t r
    → r.attachment ≡ some a
    → r.status ≡ status_playing
    → r.active ≡ some p
    → (r.heap p).paused ≡ false
    → (gate_status r).1 ≡ true
unfolding gate_status gate_with
playing-gate t a p r m h b c e n = rw (gate_status, typed-mcp t r m h, e, b, c, n) refl

-- While a playback that is not paused plays an audio of an MCP tool, a resource or inline, on an
-- attached session in real-time mode, no recognised text goes on to the chat: it ends the chat,
-- controls the player or is ignored.
pub try_handle_gated :
    (l : Letters) (text : List ℕ) (t : SourceType) (a : Attachment) (p : ℕ) (r : Runtime)
    → (t ≡ mcp_resource) ⊎ (t ≡ inline_audio)
    → IsTyped t r
    → r.attachment ≡ some a
    → r.status ≡ status_playing
    → r.active ≡ some p
    → (r.heap p).paused ≡ false
    → try_handle l true text r ≢ passes
unfolding try_handle
try_handle_gated l text t a p r m ty b k e n' =
    let h = playing-gate t a p r m ty b k e n' in
    if_given (λ z. z ≢ passes) ((gate_status r).0) _ _
      (λ c.
        if_both (λ z. z ≢ passes) (is_exit_command l text) _ _ (λ e. ground (arith, e))
          (control_handled l (detect_control l text) (gate_status r).1 h))
      (λ n. absurd (ground (arith, gate-control r h, n)))
