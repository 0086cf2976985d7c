-- ===== src/Tts/Sender.antt =====
-- internal/app/server/chat/tts.go: runSenderLoop, which sends the elements of the audio queue, the
-- goroutine that delays the sentences' texts, and the interrupts. Each step is what one goroutine
-- does between two waits, with what the client and the contexts answer. Where a `select` has several
-- ready cases any may be a step, also where the loop looks at the delayed sentences first. Times are
-- numbers of milliseconds, and so is the duration of a frame, which is positive in the program, that
-- divides by it. currentSentenceFrames, which is only written, is left out.
pub mod Loop
pub mod History
pub mod Turns
pub mod Current
pub mod Ends
pub mod Pace
pub mod Tests
use xiaozhi_esp32_server_gol.Common.{
  ℕ, suc, ◌+◌, ◌-◌, ◌*◌, ◌/◌, ◌%◌, ◌^◌, Bool, true, false, not, ◌&&◌, ◌||◌, Option, none, some,
  List, [], ◌∷◌, ◌++◌, length, ltb, leb, ◌==◌, if◌then◌else◌, is_some,
}
use xiaozhi_esp32_server_gol.Tts.{
  Kind, frame, sentence_start, sentence_end, tts_start, tts_stop, media_frame, Elem,
}

-- `delayedSentenceTask`
pub record Task (F T E : Type 0) : Type 0 where
  pub elem_of : Elem F T E
  pub execute_at : ℕ

-- Where runSenderLoop is: at its `select`, in a wait (for a frame, for the end of the playback, for
-- the client behind that), at a full queue of delayed sentences, or behind its end.
pub data Phase (F T E : Type 0) : Type 0 where
  selecting exited : Phase F T E
  pacing : Elem F T E → ℕ → Phase F T E
  tailing padding : ℕ → Phase F T E
  delaying : Task F T E → Phase F T E

-- Where runDelayedSentenceLoop is: at its `select`, at a full queue, or behind its end.
pub data Delayer (F T E : Type 0) : Type 0 where
  awaiting gone : Delayer F T E
  forwarding : Elem F T E → Delayer F T E

-- The fields of the manager and the variables of the two loops. A request of an interrupt names the
-- caller who waits for it, if any; the tail is the zero time where it is `none`.
pub record Sender (F T E : Type 0) : Type 0 where
  pub audio_queue : List (Elem F T E)
  pub delayed_queue : List (Task F T E)
  pub pending : List (Task F T E)
  pub ready_queue : List (Elem F T E)
  pub interrupt_ch : List (Option ℕ)
  pub audio_generation : ℕ
  pub tts_active : Bool
  pub stop_pending : Bool
  pub stop_sends : Bool
  pub stop_err : Option E
  pub history : List F
  pub phase : Phase F T E
  pub delayer : Delayer F T E
  pub playback_tail : Option ℕ
  pub total_frames : ℕ

-- What the client and the sessions see of it, and the callbacks of elements.
pub data Event (F T E : Type 0) : Type 0 where
  audio_sent : Elem F T E → Event F T E
  sentence_start_sent sentence_end_sent : Elem F T E → T → Event F T E
  start_hook start_sent stop_sent : Event F T E
  stop_hook : Option E → Event F T E
  start_called : Elem F T E → Event F T E
  end_called : Elem F T E → Option E → Event F T E
  error_called : Elem F T E → E → Event F T E
  interrupt_done : Option ℕ → Event F T E
  -- Not seen by anyone: a delayed sentence that goes with its loop, without a call of its callbacks.
  abandoned : Elem F T E → Event F T E

-- The answers in one step: the clock, the error of what is sent and of a TtsStop, whether the client is
-- in real-time mode, and the error of a context that is done.
pub record Answer (E : Type 0) : Type 0 where
  pub now : ℕ
  pub send_err : Option E
  pub stop_send_err : Option E
  pub realtime : Bool
  pub ctx_err : E

abbrev pub Ran : (F T E : Type 0) → Type 0
Ran F T E = List (Event F T E) × Sender F T E

abbrev pub queue_cap : ℕ
queue_cap = 150

-- How far frames go ahead of their time; also the delay of sentences.
abbrev pub allowed_ahead : ℕ → ℕ
allowed_ahead d = 120 / d * d

module _ {F T E : Type 0} where
  unfoldable pub all_later : Task F T E → List (Task F T E) → Bool
  all_later t [] = true
  all_later t (u ∷ us) = ltb t.execute_at u.execute_at && all_later t us

  -- `insertDelayedSentenceTask`: behind the last task that is not later.
  unfoldable pub insert_delayed : Task F T E → List (Task F T E) → List (Task F T E)
  insert_delayed t [] = t ∷ []
  insert_delayed t (u ∷ us) =
      let further = u ∷ insert_delayed t us in if all_later t (u ∷ us) then t ∷ u ∷ us else further

  abbrev pub calls_end : Elem F T E → Option E → List (Event F T E)
  calls_end x e = if is_some x.on_end then end_called x e ∷ [] else []

  abbrev pub calls_error : Elem F T E → E → List (Event F T E)
  calls_error x e = if is_some x.on_error then error_called x e ∷ [] else []

  abbrev pub calls_start : Elem F T E → List (Event F T E)
  calls_start x = if is_some x.on_start then start_called x ∷ [] else []

  -- `nextAudioGeneration`, on a uint64.
  unfoldable pub next_generation : Sender F T E → Sender F T E
  next_generation s = record s { audio_generation = suc s.audio_generation % 2 ^ 64 }

  unfoldable pub record_stop : Bool → Option E → Sender F T E → Sender F T E
  record_stop b e s =
      if s.stop_pending
      then record s {
        stop_sends = s.stop_sends || b;
        stop_err = if is_some s.stop_err then s.stop_err else e;
      }
      else record s { stop_pending = true; stop_sends = b; stop_err = e }

  -- `finishTtsStop`
  unfoldable pub finish_stop : Answer E → Bool → Option E → Sender F T E → Ran F T E
  finish_stop w b e s =
      let quiet = stop_hook e ∷ [] in
      let sent = stop_sent ∷ stop_hook e ∷ [] in
      let failed = stop_hook (if is_some e then e else w.stop_send_err) ∷ [] in
      if not s.tts_active then ([], s) else (
        (if b && not w.realtime then if is_some w.stop_send_err then failed else sent else quiet),
        record s { tts_active = false },
      )

  -- `consumePendingInterruptStop` and what its callers do with a pending stop.
  unfoldable pub finish_pending : Answer E → Sender F T E → Ran F T E
  finish_pending w s =
      let t = record s { stop_pending = false; stop_sends = false; stop_err = none } in
      let ends = finish_stop w s.stop_sends s.stop_err t in if s.stop_pending then ends else ([], s)

  -- `handleDelayedSentence` on the start of a sentence, with its text and the error of sending it.
  unfoldable pub speak_start : Elem F T E → Option T → Option E → List (Event F T E)
  speak_start x none e = []
  speak_start x (some t) none = sentence_start_sent x t ∷ []
  speak_start x (some t) (some e) = calls_error x e ++ calls_end x (some e)

  -- And on its end.
  unfoldable pub speak_end : Elem F T E → Option T → Option E → List (Event F T E)
  speak_end x none e = calls_end x x.err
  speak_end x (some t) none = sentence_end_sent x t ∷ calls_end x x.err
  speak_end x (some t) (some e) =
      calls_error x e ++ calls_end x (if is_some x.err then x.err else some e)

  unfoldable pub speak_sentence : Kind → Answer E → Elem F T E → List (Event F T E)
  speak_sentence sentence_start w x = calls_start x ++ speak_start x x.text w.send_err
  speak_sentence sentence_end w x = speak_end x x.text w.send_err
  speak_sentence _ w x = []

  abbrev pub emptied : Sender F T E → Sender F T E
  emptied s = record s { audio_queue = []; ready_queue = [] }

module _ {F T E : Type 0} (canceled : E) where
  -- `drainSessionAudioQueue` and `drainDelayedSentenceReadyQueue`: what they call.
  unfoldable pub drained : List (Elem F T E) → List (Event F T E)
  drained [] = []
  drained (x ∷ xs) = calls_end x (some canceled) ++ drained xs

  abbrev pub drained_all : Sender F T E → List (Event F T E)
  drained_all s = drained s.audio_queue ++ drained s.ready_queue

  -- `handleInterrupt` and the close of the request's channel.
  unfoldable pub handle_interrupt : Answer E → Option ℕ → Sender F T E → Ran F T E
  handle_interrupt w r s =
      let (es, t) = finish_pending w (emptied s) in
      (
        drained_all s ++ (es ++ interrupt_done r ∷ []),
        record t { phase = selecting; playback_tail = none; total_frames = 0 },
      )

  -- The end of the loop with its context.
  unfoldable pub exit_loop : Answer E → Sender F T E → Ran F T E
  exit_loop w s =
      let (es, t) = finish_stop w true (some w.ctx_err) (emptied s) in
      (drained_all s ++ es, record t { phase = exited })

  -- `handleDelayedSentence`
  unfoldable pub handle_delayed : Answer E → Elem F T E → Sender F T E → List (Event F T E)
  handle_delayed w x s =
      if x.generation == s.audio_generation
      then speak_sentence x.kind w x
      else calls_end x (some canceled)
