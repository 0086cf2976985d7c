-- ===== src/Tts/Synthesis/Responses.antt =====
-- internal/app/server/chat/tts.go: handleStreamTts and handleDualStreamTts, which turn the responses of
-- a model into elements of the audio queue. The goroutine that feeds the texts of the responses to a
-- provider with two streams is not a part of the model.
use xiaozhi_esp32_server_gol.Common.{
  ℕ, Bool, true, false, Option, none, some, List, [], ◌∷◌, ◌++◌, if◌then◌else◌,
}
use xiaozhi_esp32_server_gol.Tts.{sentence_start, plain}
use xiaozhi_esp32_server_gol.Tts.Synthesis.{
  Sent, queued, refused, Response, Answer, no_provider, no_stream, no_channel, streaming, Course,
  done, closed, audio, Effect, acquired, released, request_started, request_finished, Run, after,
  call_end, last_elem, cancelled, start_elem, end_elem, frame_elem, reporting, generate,
}

-- The rounds of the loop over the responses of a model.
pub data Stream (F T E : Type 0) : Type 0 where
  context_done : E → Sent E → Stream F T E
  shut : Sent E → Option E → Stream F T E
  -- A response, with the answer, the result of sending its start (and for a failure its end), and
  -- the course of its audio.
  response : Response T → Answer E → Sent E → Sent E → Course F E → Stream F T E → Stream F T E

-- The events of a provider with streams in both directions, each its signals and then its audio.
pub data Events (F T E : Type 0) : Type 0 where
  over : Sent E → Option E → Events F T E
  starts ends : T → Sent E → Events F T E → Events F T E
  chunk : F → Sent E → Events F T E → Events F T E

-- What handleDualStreamTts finds: no provider in the pool, one without such streams, one whose
-- StreamingSynthesize fails, or its events.
pub data Dual (F T E : Type 0) : Type 0 where
  none_in_pool not_dual : Dual F T E
  not_started : E → Dual F T E
  events : Events F T E → Dual F T E

module _ {F T E : Type 0} where
  -- A run that goes on behind its effects unless it returned an error.
  abbrev pub unless_failed : List (Effect F T E) × Option E → Run F T E → Run F T E
  unless_failed (es, none) r = after es r
  unless_failed (es, some e) r = (es, some e)

  -- The loop of handleStreamTts over the audio of one response; no error means `goto nextResp`.
  unfoldable pub play_part : ℕ → Option ℕ → T → Bool → Course F E → Run F T E
  play_part g k t reported (done e) = cancelled k e
  play_part g k t reported (closed queued e) =
      (released ∷ request_finished none ∷ queued (end_elem g (some t)) ∷ [], none)
  play_part g k t reported (closed (refused e) e') =
      (released ∷ request_finished none ∷ call_end k (some e), none)
  play_part g k t reported (audio f queued c) =
      after (reporting reported ++ queued (frame_elem g f) ∷ []) (play_part g k t true c)
  play_part g k t reported (audio f (refused e) c) = after (reporting reported) (cancelled k e)

  unfoldable pub speak_part : ℕ → Option ℕ → Option ℕ → Response T → Sent E → Course F E → Run F T E
  speak_part g s k r queued c =
      after (queued (start_elem g r s) ∷ []) (play_part g k r.text false c)
  speak_part g s k r (refused e) c = cancelled k e

  -- How handleStreamTts ends when generateTtsOnly fails, where the flag says that no response
  -- was spoken.
  unfoldable pub give_up : ℕ → Bool → Option ℕ → Option ℕ → E → Sent E → Sent E → Run F T E
  give_up g false s k e sent sent' =
      (last_elem (record (end_elem g none) { err = some e }) k (some e) sent', some e)
  give_up g true s k e queued sent' = (
    queued (record (plain sentence_start) { generation = g; on_start = s })
        ∷ last_elem (record (end_elem g none) { err = some e }) k (some e) sent',
    some e,
  )
  give_up g true s k e (refused d) sent' = (call_end k (some d), some d)

  -- handleDualStreamTts behind StreamingSynthesize; `first` says that no sentence was started.
  unfoldable pub play_events : ℕ → Option ℕ → Option ℕ → Bool → Bool → Events F T E → Run F T E
  play_events g s k first reported (over sent e) =
      (request_finished none ∷ last_elem (end_elem g none) k none sent ++ released ∷ [], e)
  play_events g s k first reported (ends t queued es) =
      after (queued (end_elem g (some t)) ∷ []) (play_events g s k first reported es)
  play_events g s k first reported (ends t (refused e) es) =
      (request_finished (some e) ∷ call_end k (some e) ++ released ∷ [], some e)
  play_events g s k first reported (starts t queued es) =
      after
        (queued (start_elem g record { text = t; is_start = first } (if first then s else none))
          ∷ [])
        (play_events g s k false reported es)
  play_events g s k first reported (starts t (refused e) es) =
      (request_finished (some e) ∷ call_end k (some e) ++ released ∷ [], some e)
  play_events g s k first reported (chunk f queued es) =
      after (reporting reported ++ queued (frame_elem g f) ∷ []) (play_events g s k first true es)
  play_events g s k first reported (chunk f (refused e) es) =
      after (reporting reported)
        (request_finished (some e) ∷ call_end k (some e) ++ released ∷ [], some e)

  -- `handleDualStreamTts`: its effects, and the error if it has handled the item.
  unfoldable pub handle_dual_stream_tts :
      ℕ → Option ℕ → Option ℕ → Dual F T E → List (Effect F T E) × Option (Option E)
  handle_dual_stream_tts g s k none_in_pool = ([], none)
  handle_dual_stream_tts g s k not_dual = (acquired ∷ released ∷ [], none)
  handle_dual_stream_tts g s k (not_started e) =
      (acquired ∷ request_started ∷ request_finished (some e) ∷ released ∷ [], none)
  handle_dual_stream_tts g s k (events es) =
      let (fs, e) = play_events g s k true false es in (acquired ∷ request_started ∷ fs, some e)

  abbrev pub unless_handled : List (Effect F T E) × Option (Option E) → Run F T E → Run F T E
  unless_handled (es, none) r = after es r
  unless_handled (es, some e) r = (es, e)

  -- Behind a generateTtsOnly without an error: without a channel the loop goes on as if there had
  -- been no response.
  abbrev pub heard : Answer E → Run F T E → Run F T E → Run F T E
  heard no_channel skipped spoken = after (released ∷ []) skipped
  heard streaming skipped spoken = spoken
  heard (no_provider e) skipped spoken = spoken
  heard (no_stream e) skipped spoken = spoken

  -- One response in handleStreamTts, and the rest behind it, where it was spoken or not.
  unfoldable pub respond :
      ℕ
      → Option ℕ
      → Option ℕ
      → Bool
      → Response T
      → Answer E
      → Sent E
      → Sent E
      → Course F E
      → List (Effect F T E) × Option E
      → Run F T E
      → Run F T E
      → Run F T E
  respond g s k first r a sent sent' c (es, some e) skipped rest =
      after es (give_up g first s k e sent sent')
  respond g s k first r a sent sent' c (es, none) skipped rest =
      after es
        (heard a skipped (unless_failed (speak_part g (if first then s else none) k r sent c) rest))

module _ {F T E : Type 0} (is_blank : T → Bool) (generate_failed : E → E) where
  -- The loop of handleStreamTts; `first` says that no response was spoken yet.
  unfoldable pub stream_tts : ℕ → Option ℕ → Option ℕ → Bool → Stream F T E → Run F T E
  stream_tts g s k first (context_done e sent) =
      (last_elem (record (end_elem g none) { err = some e }) k (some e) sent, some e)
  stream_tts g s k first (shut sent e) = (last_elem (end_elem g none) k none sent, e)
  stream_tts g s k first (response r a sent sent' c rest) =
      let skipped = stream_tts g s k first rest in
      let spoken = stream_tts g s k false rest in
      if is_blank r.text
      then skipped
      else respond g s k first r a sent sent' c (generate generate_failed a) skipped spoken

  -- `handleStreamTts`, where `dual` is given if SupportsDualStream holds.
  unfoldable pub handle_stream_tts :
      ℕ → Option ℕ → Option ℕ → Option (Dual F T E) → Stream F T E → Run F T E
  handle_stream_tts g s k none c = stream_tts g s k true c
  handle_stream_tts g s k (some d) c =
      unless_handled (handle_dual_stream_tts g s k d) (stream_tts g s k true c)
