-- ===== src/Tts/Sender/Loop.antt =====
-- internal/app/server/chat/tts.go: the steps of runSenderLoop and runDelayedSentenceLoop.
use xiaozhi_esp32_server_gol.Common.{
  ℕ, suc, ◌+◌, ◌-◌, Bool, true, false, Option, none, some, List, [], ◌∷◌, ◌++◌, length, ltb, leb,
  ◌==◌, if◌then◌else◌,
}
use xiaozhi_esp32_server_gol.Tts.{
  Kind, frame, sentence_start, sentence_end, tts_start, tts_stop, media_frame, Elem,
}
use xiaozhi_esp32_server_gol.Tts.Sender.{
  Task, Phase, selecting, exited, pacing, tailing, padding, delaying, Delayer, awaiting, gone,
  forwarding, Sender, Event, audio_sent, start_hook, start_sent, abandoned, Answer, Ran, queue_cap,
  allowed_ahead, insert_delayed, calls_end, calls_error, finish_stop, handle_interrupt, exit_loop,
  handle_delayed,
}

-- The tail when a frame comes at `now`, and the time from which it may go.
abbrev pub tail_at : ℕ → Option ℕ → ℕ
tail_at now none = now
tail_at now (some p) = if ltb p now then now else p

abbrev pub kept_frames : {F : Type 0} → Kind → Option F → List F → List F
kept_frames frame (some f) fs = fs ++ f ∷ []
kept_frames _ f fs = fs

module _ {F T E : Type 0} where
  abbrev pub is_selecting : Phase F T E → Bool
  is_selecting selecting = true
  is_selecting _ = false

  -- Whether a `select` with the requests and the delayed sentences is open.
  abbrev pub is_open : Phase F T E → Bool
  is_open exited = false
  is_open (delaying x) = false
  is_open _ = true

  abbrev pub is_active : Phase F T E → Bool
  is_active exited = false
  is_active _ = true

  abbrev pub started : Option E → List (Event F T E)
  started none = start_sent ∷ []
  started (some e) = []

  -- The stop of the playback waits for the tail, and then for the client.
  unfoldable pub take_stop : Answer E → Option ℕ → Sender F T E → Ran F T E
  take_stop w none s = ([], record s { phase = padding (w.now + 150) })
  take_stop w (some p) s = ([], record s { phase = tailing p })

  unfoldable pub take_start : Answer E → Sender F T E → Ran F T E
  take_start w s = (
    start_hook ∷ started w.send_err,
    record s { tts_active = true; playback_tail = none; total_frames = 0 },
  )

  -- `enqueueDelayedSentenceTask`, when there is room.
  unfoldable pub delay : Phase F T E → Sender F T E → Ran F T E
  delay (delaying t) s =
      if ltb (length s.delayed_queue) queue_cap
      then ([], record s { phase = selecting; delayed_queue = s.delayed_queue ++ t ∷ [] })
      else ([], s)
  delay _ s = ([], s)

  abbrev pub sorting : List (Task F T E) → Sender F T E → Ran F T E
  sorting [] s = ([], s)
  sorting (t ∷ ts) s = ([], record s { delayed_queue = ts; pending = insert_delayed t s.pending })

  unfoldable pub forward : Delayer F T E → Sender F T E → Ran F T E
  forward (forwarding x) s =
      if ltb (length s.ready_queue) queue_cap
      then ([], record s { delayer = awaiting; ready_queue = s.ready_queue ++ x ∷ [] })
      else ([], s)
  forward _ s = ([], s)

  -- What is lost of the tasks when the loop returns.
  unfoldable pub abandons : List (Task F T E) → List (Event F T E)
  abandons [] = []
  abandons (t ∷ ts) = abandoned t.elem_of ∷ abandons ts

  -- The end of the context, at the `select` or in the wait for room.
  unfoldable pub end_delayed : Answer E → Delayer F T E → Sender F T E → Ran F T E
  end_delayed w (forwarding x) s = (
    calls_end x (some w.ctx_err) ++ abandons s.pending,
    record s { delayer = gone; pending = [] },
  )
  end_delayed w awaiting s = (abandons s.pending, record s { delayer = gone; pending = [] })
  end_delayed w gone s = ([], s)

module _ {F T E : Type 0} (d : ℕ) where
  -- SendAudio and what follows it, with the tail `p`.
  unfoldable pub send_frame : Elem F T E → ℕ → Option E → Sender F T E → Ran F T E
  send_frame x p (some e) s =
      (calls_error x e, record s { phase = selecting; playback_tail = some p })
  send_frame x p none s = (
    audio_sent x ∷ [],
    record s {
      phase = selecting;
      playback_tail = some (p + d);
      total_frames = suc s.total_frames;
      history = kept_frames x.kind x.data_of s.history;
    },
  )

  -- A frame that is taken: it waits where it is too early.
  unfoldable pub take_frame : Answer E → Elem F T E → Sender F T E → Ran F T E
  take_frame w x s =
      let p = tail_at w.now s.playback_tail in
      if ltb w.now (p - allowed_ahead d)
      then ([], record s { phase = pacing x (p - allowed_ahead d); playback_tail = some p })
      else send_frame x p w.send_err s

  abbrev task_of : Answer E → Elem F T E → Task F T E
  task_of w x = record { elem_of = x; execute_at = w.now + allowed_ahead d }

  -- An element of the current generation, by its kind.
  unfoldable pub take_kind : Kind → Answer E → Elem F T E → Sender F T E → Ran F T E
  take_kind sentence_start w x s = ([], record s { phase = delaying (task_of w x) })
  take_kind sentence_end w x s = ([], record s { phase = delaying (task_of w x) })
  take_kind frame w x s = take_frame w x s
  take_kind media_frame w x s = take_frame w x s
  take_kind tts_start w x s = take_start w s
  take_kind tts_stop w x s = take_stop w s.playback_tail s

  -- The end of a wait, if its time has come.
  unfoldable pub reach : Answer E → Phase F T E → Sender F T E → Ran F T E
  reach w (pacing x at) s =
      if leb at w.now then send_frame x (tail_at w.now s.playback_tail) w.send_err s else ([], s)
  reach w (tailing at) s =
      if leb at w.now then ([], record s { phase = padding (w.now + 150) }) else ([], s)
  reach w (padding at) s =
      let (es, t) = finish_stop w true none s in
      if leb at w.now
      then (es, record t { phase = selecting; playback_tail = none; total_frames = 0 })
      else ([], s)
  reach w _ s = ([], s)

module _ {F T E : Type 0} (canceled : E) where
  abbrev pub taking_ready : Answer E → List (Elem F T E) → Sender F T E → Ran F T E
  taking_ready w [] s = ([], s)
  taking_ready w (x ∷ xs) s = (handle_delayed canceled w x s, record s { ready_queue = xs })

  abbrev pub taking_request : Answer E → List (Option ℕ) → Sender F T E → Ran F T E
  taking_request w [] s = ([], s)
  taking_request w (r ∷ rs) s = handle_interrupt canceled w r (record s { interrupt_ch = rs })

  -- The end of the context, which a wait for room answers with the end of the sentence.
  unfoldable pub see_done : Answer E → Phase F T E → Sender F T E → Ran F T E
  see_done w exited s = ([], s)
  see_done w (delaying t) s = (calls_end t.elem_of (some w.ctx_err), record s { phase = selecting })
  see_done w _ s = exit_loop canceled w s

  -- The timer of the first task; a task of an old generation is dropped.
  unfoldable pub fire : Answer E → List (Task F T E) → Sender F T E → Ran F T E
  fire w [] s = ([], s)
  fire w (t ∷ ts) s =
      if leb t.execute_at w.now
      then if t.elem_of.generation == s.audio_generation
        then ([], record s { pending = ts; delayer = forwarding t.elem_of })
        else (calls_end t.elem_of (some canceled), record s { pending = ts })
      else ([], s)
