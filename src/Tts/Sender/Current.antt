-- ===== src/Tts/Sender/Current.antt =====
-- internal/app/server/chat/tts.go: the generations of what is sent, in a history.
pub mod Calls
pub mod Loops
use xiaozhi_esp32_server_gol.Common.{
  ℕ, suc, ◌+◌, ◌-◌, ◌≡◌, refl, sym, ap, ◌∙◌, Bool, true, false, not, ◌&&◌, Option, none, some, List,
  [], ◌∷◌, ◌++◌, length, ltb, leb, ◌==◌, ==_iff, if◌then◌else◌, if_both, if_given, is_some, arith,
  ◌⊎◌, inl, inr, All, All-append,
}
use xiaozhi_esp32_server_gol.Tts.{
  Kind, frame, sentence_start, sentence_end, tts_start, tts_stop, media_frame, Elem,
}
use xiaozhi_esp32_server_gol.Tts.Sender.{
  Task, Phase, selecting, exited, pacing, tailing, padding, delaying, Delayer, awaiting, gone,
  forwarding, Sender, Event, audio_sent, start_hook, start_sent, stop_hook, stop_sent,
  sentence_start_sent, sentence_end_sent, interrupt_done, Answer, Ran, queue_cap, allowed_ahead,
  calls_end, calls_error, calls_start, finish_stop, finish_pending, drained, drained_all, emptied,
  handle_interrupt, exit_loop, speak_start, speak_end, speak_sentence, handle_delayed, record_stop,
}
use xiaozhi_esp32_server_gol.Tts.Sender.Loop.{
  send_frame, tail_at, take_frame, take_stop, take_start, take_kind, reach, see_done, delay, fire,
  forward, end_delayed, started, taking_ready, taking_request, sorting, is_open, is_selecting,
  is_active,
}
use xiaozhi_esp32_server_gol.Tts.Sender.History.{
  Action, takes_ready, takes_request, takes_elem, sees_done, reaches, delays, sorts, fires,
  forwards, ends_delayed, enqueues, bumps, requests, requests_sync, records, finishes_if_exited,
  finishes, enqueue, request, step, run, take_elem, taking_elem, is_awaiting,
}
use xiaozhi_esp32_server_gol.Tts.Sender.Current.Calls.{
  held, Fresh, Due, Current, HoldsDue, calls_end-All, calls_error-All, drained-All, drained_all-All,
  speak_start-All, speak_end-All, speak_sentence-All, handle_delayed-All, finish_stop-Fresh,
  finish_pending-Fresh,
}
use xiaozhi_esp32_server_gol.Tts.Sender.Current.Loops.{
  leaving, behind, handle_interrupt-Fresh, exit_loop-Fresh, send_frame-Fresh, take_frame-Fresh,
  take_kind-Fresh, take_elem-Fresh, reach-Fresh, see_done-Fresh, taking-Fresh, taking_request-Fresh,
  fire-Fresh, sorting-Fresh, forward-Fresh, end_delayed-Fresh, delay-Fresh,
}

module _ {F T E : Type 0} where
  abbrev pub is_bump : Action F T E → Bool
  is_bump bumps = true
  is_bump _ = false

module _ {F T E : Type 0} (g : ℕ) (o : Option (Elem F T E)) where
  enqueue-Fresh :
      (h : ℕ) (x : Elem F T E) (s : Sender F T E)
      → Fresh g o ([], s)
      → Fresh g o ([], enqueue h x s)
  unfolding enqueue
  enqueue-Fresh h x s f = record {
    gen = ground (arith, f.gen);
    events = tt;
    holds = ground (arith, f.holds);
  }

  requests-Fresh :
      (r : Option ℕ) (rs : List (Option ℕ)) (s : Sender F T E)
      → Fresh g o ([], s)
      → Fresh g o ([], request r rs s)
  unfolding request
  requests-Fresh r rs s f = record {
    gen = ground (arith, f.gen);
    events = tt;
    holds = ground (arith, f.holds);
  }

  records-Fresh :
      (b : Bool) (e : Option E) (s : Sender F T E)
      → Fresh g o ([], s)
      → Fresh g o ([], record_stop b e s)
  unfolding record_stop
  records-Fresh b e s f = record {
    gen = ground (arith, f.gen);
    events = tt;
    holds = ground (arith, f.holds);
  }

  step-Fresh :
      (c : E) (d : ℕ) (a : Action F T E) (w : Answer E) (s : Sender F T E)
      → is_bump a ≡ false
      → Fresh g o ([], s)
      → Fresh g o (step c d a w s)
  unfolding step
  step-Fresh c d takes_ready w s n f =
      if_both (Fresh g o) (is_open s.phase) _ _ (taking-Fresh g o c d w s s.ready_queue f).1 f
  step-Fresh c d takes_request w s n f =
      if_both (Fresh g o) (is_open s.phase) _ _ (taking_request-Fresh g o c w s.interrupt_ch s f) f
  step-Fresh c d takes_elem w s n f =
      if_both (Fresh g o) (is_selecting s.phase) _ _ (taking-Fresh g o c d w s s.audio_queue f).0 f
  step-Fresh c d sees_done w s n f = see_done-Fresh g o c w s.phase s f
  step-Fresh c d reaches w s n f = reach-Fresh g o d w s.phase s f f.holds
  step-Fresh c d delays w s n f = delay-Fresh g o s.phase s f
  step-Fresh c d sorts w s n f =
      if_both (Fresh g o) (is_awaiting s.delayer) _ _ (sorting-Fresh g o s.delayed_queue s f) f
  step-Fresh c d fires w s n f =
      if_both (Fresh g o) (is_awaiting s.delayer) _ _ (fire-Fresh g o c w s.pending s f) f
  step-Fresh c d forwards w s n f = forward-Fresh g o s.delayer s f
  step-Fresh c d ends_delayed w s n f = end_delayed-Fresh g o w s.delayer s f
  step-Fresh c d (enqueues h x) w s n f = enqueue-Fresh h x s f
  step-Fresh c d bumps w s n f = cc
  step-Fresh c d requests w s n f = requests-Fresh none s.interrupt_ch s f
  step-Fresh c d (requests_sync k) w s n f = requests-Fresh (some k) s.interrupt_ch s f
  step-Fresh c d (records b e) w s n f = records-Fresh b e s f
  step-Fresh c d finishes_if_exited w s n f =
      if_both (Fresh g o) (is_active s.phase) _ _ f (finish_pending-Fresh g o w s f)
  step-Fresh c d (finishes b e) w s n f = finish_stop-Fresh g o w b e s f

  run-Fresh :
      (c : E) (d : ℕ) (xs : List (Action F T E × Answer E)) (s : Sender F T E)
      → All (λ x. is_bump x.0 ≡ false) xs
      → Fresh g o ([], s)
      → Fresh g o (run c d xs s)
  unfolding run
  run-Fresh c d [] s n f = f
  run-Fresh c d ((a, w) ∷ xs) s n f =
      let r = step-Fresh c d a w s n.0 f in
      behind g o (step c d a w s).0 (run c d xs (step c d a w s).1) r.events (
        run-Fresh c d xs (step c d a w s).1 n.1
          record { gen = r.gen; events = tt; holds = r.holds })

module _ {F T E : Type 0} where
  holds_held : (g : ℕ) (p : Phase F T E) → HoldsDue g (held p) p
  holds_held g selecting = tt
  holds_held g exited = tt
  holds_held g (pacing x at) = inr refl
  holds_held g (tailing at) = tt
  holds_held g (padding at) = tt
  holds_held g (delaying t) = tt

  -- Whatever is queued and whatever the loops do, from any state on and as long as no interrupt moves
  -- the generation, each text that is sent is of the generation that is current in this time, and so
  -- is each frame but the one that waited for its time at the beginning.
  pub run-Current :
      (c : E) (d : ℕ) (xs : List (Action F T E × Answer E)) (s : Sender F T E)
      → All (λ x. is_bump x.0 ≡ false) xs
      → All (Current s.audio_generation (held s.phase)) (run c d xs s).0
  run-Current c d xs s n =
      (run-Fresh s.audio_generation (held s.phase) c d xs s n
        record { gen = refl; events = tt; holds = holds_held s.audio_generation s.phase }).events
