-- ===== src/Tts/Sender/Pace.antt =====
-- internal/app/server/chat/tts.go: the tail of the playback, in the steps of the sender loop.
pub mod Counts
pub mod Frames
pub mod Whole
use xiaozhi_esp32_server_gol.Common.{
  ℕ, suc, ◌+◌, ◌-◌, ◌≡◌, refl, sym, ap, ◌∙◌, Bool, true, false, not, ◌&&◌, Option, none, some, List,
  [], ◌∷◌, ◌++◌, length, ltb, leb, ◌==◌, ==_iff, if◌then◌else◌, if_both, if_given, is_some, arith,
  ◌⊎◌, inl, inr, All, ◌*◌, ◌≤◌,
}
use xiaozhi_esp32_server_gol.Tts.{
  Kind, frame, sentence_start, sentence_end, tts_start, tts_stop, media_frame, Elem,
}
use xiaozhi_esp32_server_gol.Tts.Sender.{
  Task, Phase, selecting, exited, pacing, tailing, padding, delaying, Delayer, awaiting, gone,
  forwarding, Sender, Event, audio_sent, start_hook, start_sent, stop_hook, stop_sent,
  sentence_start_sent, sentence_end_sent, interrupt_done, Answer, Ran, queue_cap, allowed_ahead,
  calls_end, calls_error, calls_start, finish_stop, finish_pending, drained, drained_all, emptied,
  handle_interrupt, exit_loop, speak_start, speak_end, speak_sentence, handle_delayed, record_stop,
}
use xiaozhi_esp32_server_gol.Tts.Sender.Loop.{
  send_frame, tail_at, take_frame, take_stop, take_start, take_kind, reach, see_done, delay, fire,
  forward, end_delayed, started, taking_ready, taking_request, sorting, is_open, is_selecting,
  is_active,
}
use xiaozhi_esp32_server_gol.Tts.Sender.History.{
  Action, takes_ready, takes_request, takes_elem, sees_done, reaches, delays, sorts, fires,
  forwards, ends_delayed, enqueues, bumps, requests, requests_sync, records, finishes_if_exited,
  finishes, enqueue, request, step, run, take_elem, taking_elem, is_awaiting,
}

module _ (d t0 t1 : ℕ) where
  abbrev pub TailOk : Option ℕ → ℕ → Type 0
  TailOk none n = n ≡ 0
  TailOk (some p) n = (t0 + n * d ≤ p) × (p ≤ t1 + allowed_ahead d + d)

  abbrev pub Within : {E : Type 0} → Answer E → Type 0
  Within w = (t0 ≤ w.now) × (w.now ≤ t1)

  -- The tail of a frame that may go.
  abbrev Free : {E : Type 0} → Answer E → ℕ → ℕ → Type 0
  Free w p n = (t0 + n * d ≤ p) × (p ≤ w.now + allowed_ahead d)

  tail_at-le :
      {E : Type 0} (w : Answer E) (o : Option ℕ) (n : ℕ)
      → t0 ≤ w.now
      → TailOk o n
      → t0 + n * d ≤ tail_at w.now o
  tail_at-le w none n l h = ground (arith, h)
  tail_at-le w (some p) n l (h, m) = ground arith

  tail_at-high :
      {E : Type 0} (w : Answer E) (o : Option ℕ) (n : ℕ)
      → w.now ≤ t1
      → TailOk o n
      → tail_at w.now o ≤ t1 + allowed_ahead d + d
  tail_at-high w none n l h = omega arith
  tail_at-high w (some p) n l (h, m) = ground arith

  pub tail_bound :
      (o : Option ℕ) (n : ℕ) → t0 ≤ t1 → TailOk o n → t0 + n * d ≤ t1 + allowed_ahead d + d
  tail_bound none n l h = ground (arith, h)
  tail_bound (some p) n l (a, b) = omega (arith, a, b)

module _ {F T E : Type 0} (d t0 t1 : ℕ) where
  -- A frame that waits has a tail, for which it waits.
  abbrev pub WaitOk : Phase F T E → Option ℕ → Type 0
  WaitOk (pacing x at) (some p) = p ≤ at + allowed_ahead d
  WaitOk (pacing x at) none = ⊥
  WaitOk _ p = Unit

  abbrev pub Paced : Sender F T E → Type 0
  Paced s = TailOk d t0 t1 s.playback_tail s.total_frames × WaitOk s.phase s.playback_tail

  pub finish_stop-Paced :
      (w : Answer E) (b : Bool) (e : Option E) (s : Sender F T E)
      → Paced s
      → Paced (finish_stop w b e s).1
  unfolding finish_stop
  finish_stop-Paced w b e s i = if_both (λ (r : Ran F T E). Paced r.1) (not s.tts_active) _ _ i i

  pub finish_pending-Paced :
      (w : Answer E) (s : Sender F T E) → Paced s → Paced (finish_pending w s).1
  unfolding finish_pending
  finish_pending-Paced w s i =
      if_both (λ (r : Ran F T E). Paced r.1) s.stop_pending _ _
        (finish_stop-Paced w s.stop_sends s.stop_err _ i) i

  send_frame-Paced :
      (w : Answer E) (x : Elem F T E) (p : ℕ) (e : Option E) (s : Sender F T E)
      → Within d t0 t1 w
      → Free d t0 t1 w p s.total_frames
      → Paced (send_frame d x p e s).1
  unfolding send_frame
  send_frame-Paced w x p none s (a, b) (l, h) = ((omega (arith, l), omega (arith, h, b)), tt)
  send_frame-Paced w x p (some e) s (a, b) (l, h) = ((l, omega (arith, h, b)), tt)

  -- A start is taken where no frame waits.
  wait_none : (p : Phase F T E) → is_selecting p ≡ true → WaitOk p none
  wait_none selecting h = tt
  wait_none exited h = tt
  wait_none (pacing x at) h = cc
  wait_none (tailing at) h = tt
  wait_none (padding at) h = tt
  wait_none (delaying t) h = tt

  take_stop-Paced :
      (w : Answer E) (p : Option ℕ) (s : Sender F T E) → Paced s → Paced (take_stop w p s).1
  unfolding take_stop
  take_stop-Paced w none s (t, u) = (t, tt)
  take_stop-Paced w (some p) s (t, u) = (t, tt)

  waited :
      (w : Answer E) (x : Elem F T E) (at : ℕ) (o : Option ℕ)
      → WaitOk (pacing x at) o
      → leb at w.now ≡ true
      → tail_at w.now o ≤ w.now + allowed_ahead d
  waited w x at none u e = absurd u
  waited w x at (some p) u e = ground arith

  pub exits : (c : E) (w : Answer E) (s : Sender F T E) → Paced s → Paced (exit_loop c w s).1
  unfolding exit_loop
  exits c w s i = let (t, u) = finish_stop-Paced w true (some w.ctx_err) (emptied s) i in (t, tt)

  take_frame-Paced :
      (w : Answer E) (x : Elem F T E) (s : Sender F T E)
      → Within d t0 t1 w
      → Paced s
      → Paced (take_frame d w x s).1
  unfolding take_frame
  take_frame-Paced w x s (a, b) (t, u) =
      let p = tail_at w.now s.playback_tail in
      let l = tail_at-le d t0 t1 w s.playback_tail s.total_frames a t in
      let h = tail_at-high d t0 t1 w s.playback_tail s.total_frames b t in
      if_given (λ (r : Ran F T E). Paced r.1) (ltb w.now (p - allowed_ahead d)) _ _
        (λ e. ((l, h), omega arith))
        (λ e. send_frame-Paced w x p w.send_err s (a, b) (l, ground (arith, e)))

  take_kind-Paced :
      (k : Kind) (w : Answer E) (x : Elem F T E) (s : Sender F T E)
      → Within d t0 t1 w
      → is_selecting s.phase ≡ true
      → Paced s
      → Paced (take_kind d k w x s).1
  unfolding take_kind take_start
  take_kind-Paced sentence_start w x s n f (t, u) = (t, tt)
  take_kind-Paced sentence_end w x s n f (t, u) = (t, tt)
  take_kind-Paced frame w x s n f i = take_frame-Paced w x s n i
  take_kind-Paced media_frame w x s n f i = take_frame-Paced w x s n i
  take_kind-Paced tts_start w x s n f (t, u) = (refl, wait_none s.phase f)
  take_kind-Paced tts_stop w x s n f i = take_stop-Paced w s.playback_tail s i

  pub take_elem-Paced :
      (c : E) (w : Answer E) (x : Elem F T E) (s : Sender F T E)
      → Within d t0 t1 w
      → is_selecting s.phase ≡ true
      → Paced s
      → Paced (take_elem c d w x s).1
  take_elem-Paced c w x s n f i =
      if_both (λ (r : Ran F T E). Paced r.1) (x.generation == s.audio_generation) _ _
        (take_kind-Paced x.kind w x s n f i) i

  pub reach-Paced :
      (w : Answer E) (p : Phase F T E) (s : Sender F T E)
      → Within d t0 t1 w
      → WaitOk p s.playback_tail
      → Paced s
      → Paced (reach d w p s).1
  unfolding reach
  reach-Paced w selecting s n u i = i
  reach-Paced w exited s n u i = i
  reach-Paced w (delaying t) s n u i = i
  reach-Paced w (pacing x at) s (a, b) u (t, v) =
      let p = tail_at w.now s.playback_tail in
      let l = tail_at-le d t0 t1 w s.playback_tail s.total_frames a t in
      if_given (λ (r : Ran F T E). Paced r.1) (leb at w.now) _ _
        (λ e. send_frame-Paced w x p w.send_err s (a, b) (l, waited w x at s.playback_tail u e))
        (λ _. (t, v))
  reach-Paced w (tailing at) s n u (t, v) =
      if_both (λ (r : Ran F T E). Paced r.1) (leb at w.now) _ _ (t, tt) (t, v)
  reach-Paced w (padding at) s n u i =
      if_both (λ (r : Ran F T E). Paced r.1) (leb at w.now) _ _ (refl, tt) i

  pub see_done-Paced :
      (c : E) (w : Answer E) (p : Phase F T E) (s : Sender F T E)
      → Paced s
      → Paced (see_done c w p s).1
  unfolding see_done
  see_done-Paced c w exited s i = i
  see_done-Paced c w (delaying t) s (t', u) = (t', tt)
  see_done-Paced c w selecting s i = exits c w s i
  see_done-Paced c w (pacing x at) s i = exits c w s i
  see_done-Paced c w (tailing at) s i = exits c w s i
  see_done-Paced c w (padding at) s i = exits c w s i
