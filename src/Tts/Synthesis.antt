-- ===== src/Tts/Synthesis.antt =====
-- internal/app/server/chat/tts.go: generateTtsOnly and handleTts, which turn one item of the queue into
-- elements of the audio queue. What the context, the provider and the audio queue answer is the
-- course of a run; the result is the list of its effects and the error. A provider's stream is taken
-- to end or to be cancelled.
pub mod Spoken
pub mod Responses
pub mod Streamed
use xiaozhi_esp32_server_gol.Common.{
  ℕ, Bool, true, false, not, Option, none, some, List, [], ◌∷◌, ◌++◌, if◌then◌else◌,
}
use xiaozhi_esp32_server_gol.Tts.{Kind, frame, sentence_start, sentence_end, Elem, plain}

-- What `enqueueSessionElem` reports, where `refused` says that the context is done, with its error.
pub data Sent (E : Type 0) : Type 0 where
  queued : Sent E
  refused : E → Sent E

-- The fields of a response of the language model that are read here.
pub record Response (T : Type 0) : Type 0 where
  pub text : T
  pub is_start : Bool

-- What the provider answers: the pool has none, TextToSpeechStream fails, it gives a nil channel
-- without an error, or there is a stream.
pub data Answer (E : Type 0) : Type 0 where
  no_provider no_stream : E → Answer E
  no_channel streaming : Answer E

-- The rounds of the loop over a stream: its context is done, the stream is closed, or there is a
-- frame. Behind the close `Option E` is the error of the context.
pub data Course (F E : Type 0) : Type 0 where
  done : E → Course F E
  closed : Sent E → Option E → Course F E
  audio : F → Sent E → Course F E → Course F E

-- A provider is acquired from the pool and released, a request is opened and closed in the metrics,
-- an element is queued, or the end of the item is called.
pub data Effect (F T E : Type 0) : Type 0 where
  acquired released request_started first_audio : Effect F T E
  request_finished : Option E → Effect F T E
  queued : Elem F T E → Effect F T E
  end_called : ℕ → Option E → Effect F T E

abbrev pub Run : (F T E : Type 0) → Type 0
Run F T E = List (Effect F T E) × Option E

module _ {F T E : Type 0} where
  abbrev pub after : List (Effect F T E) → Run F T E → Run F T E
  after es (fs, e) = (es ++ fs, e)

  -- `if onEndFunc != nil { onEndFunc(err) }`
  unfoldable pub call_end : Option ℕ → Option E → List (Effect F T E)
  call_end none e = []
  call_end (some k) e = end_called k e ∷ []

  -- An element with the end of the item, or a call of it where the element is refused.
  unfoldable pub last_elem : Elem F T E → Option ℕ → Option E → Sent E → List (Effect F T E)
  last_elem x k e queued = queued (record x { on_end = k }) ∷ []
  last_elem x k e (refused d) = call_end k e

  -- How a run ends whose context is done.
  abbrev pub cancelled : Option ℕ → E → Run F T E
  cancelled k e = (released ∷ request_finished (some e) ∷ call_end k (some e), some e)

  abbrev pub start_elem : ℕ → Response T → Option ℕ → Elem F T E
  start_elem g r s = record (plain sentence_start) {
    text = some r.text;
    is_start = r.is_start;
    generation = g;
    on_start = s;
  }

  abbrev pub end_elem : ℕ → Option T → Elem F T E
  end_elem g t = record (plain sentence_end) { text = t; generation = g }

  abbrev pub frame_elem : ℕ → F → Elem F T E
  frame_elem g f = record (plain frame) { data_of = some f; generation = g }

  -- The report of the first frame of audio, once.
  abbrev pub reporting : Bool → List (Effect F T E)
  reporting reported = if reported then [] else first_audio ∷ []

  -- The loop of handleTts, which starts with nothing reported.
  unfoldable pub play : ℕ → Option ℕ → T → Bool → Course F E → Run F T E
  play g k t reported (done e) = cancelled k e
  play g k t reported (closed queued e) = (
    released ∷ request_finished none ∷ queued (record (end_elem g (some t)) { on_end = k }) ∷ [],
    e,
  )
  play g k t reported (closed (refused e) e') =
      (released ∷ request_finished none ∷ call_end k (some e), some e)
  play g k t reported (audio f queued c) =
      after (reporting reported ++ queued (frame_elem g f) ∷ []) (play g k t true c)
  play g k t reported (audio f (refused e) c) = after (reporting reported) (cancelled k e)

  -- handleTts behind a generateTtsOnly that gave a channel.
  unfoldable pub speak : ℕ → Option ℕ → Option ℕ → Response T → Sent E → Course F E → Run F T E
  speak g s k r queued c = after (queued (start_elem g r s) ∷ []) (play g k r.text false c)
  speak g s k r (refused e) c = cancelled k e

  -- handleTts behind a generateTtsOnly without an error, which may have given no channel.
  unfoldable pub speak_answer :
      Answer E → ℕ → Option ℕ → Option ℕ → Response T → Sent E → Course F E → Run F T E
  speak_answer no_channel g s k r sent c = (released ∷ call_end k none, none)
  speak_answer streaming g s k r sent c = speak g s k r sent c
  speak_answer (no_provider e) g s k r sent c = speak g s k r sent c
  speak_answer (no_stream e) g s k r sent c = speak g s k r sent c

  -- What handleTts does with that.
  abbrev pub or_end : Option ℕ → List (Effect F T E) × Option E → Run F T E → Run F T E
  or_end k (es, none) r = after es r
  or_end k (es, some e) r = (es ++ call_end k (some e), some e)

module _ {F T E : Type 0} (generate_failed : E → E) where
  -- `generateTtsOnly` for a text that is not blank: its effects and its error.
  unfoldable pub generate : Answer E → List (Effect F T E) × Option E
  generate (no_provider e) = ([], some e)
  generate (no_stream e) = (
    acquired ∷ request_started ∷ released ∷ request_finished (some e) ∷ [],
    some (generate_failed e),
  )
  generate no_channel = (acquired ∷ request_started ∷ [], none)
  generate streaming = (acquired ∷ request_started ∷ [], none)

module _ {F T E : Type 0} (is_blank : T → Bool) (generate_failed : E → E) where
  unfoldable pub handle_tts :
      ℕ → Option ℕ → Option ℕ → Response T → Answer E → Sent E → Course F E → Run F T E
  handle_tts g s k r a sent c =
      if is_blank r.text
      then (call_end k none, none)
      else or_end k (generate generate_failed a) (speak_answer a g s k r sent c)
