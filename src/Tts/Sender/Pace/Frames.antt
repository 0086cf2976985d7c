-- ===== src/Tts/Sender/Pace/Frames.antt =====
-- internal/app/server/chat/tts.go: the frames that are sent, in the steps of the two loops.
use xiaozhi_esp32_server_gol.Common.{
  ℕ, ◌-◌, refl, Option, none, some, List, [], ◌∷◌, ltb, leb, ◌==◌, if_both, arith,
}
use xiaozhi_esp32_server_gol.Tts.{
  Kind, frame, sentence_start, sentence_end, tts_start, tts_stop, media_frame, Elem,
}
use xiaozhi_esp32_server_gol.Tts.Sender.{
  Phase, selecting, exited, pacing, tailing, padding, delaying, Sender, Answer, allowed_ahead,
  calls_end, handle_interrupt, next_generation, record_stop,
}
use xiaozhi_esp32_server_gol.Tts.Sender.Loop.{
  send_frame, tail_at, take_frame, take_stop, take_start, take_kind, reach, see_done, taking_ready,
  taking_request, is_open, is_selecting, is_active,
}
use xiaozhi_esp32_server_gol.Tts.Sender.History.{
  Action, takes_ready, takes_request, takes_elem, sees_done, reaches, delays, sorts, fires,
  forwards, ends_delayed, enqueues, bumps, requests, requests_sync, records, finishes_if_exited,
  finishes, enqueue, request, step, take_elem, taking_elem, is_awaiting,
}
use xiaozhi_esp32_server_gol.Tts.Sender.Pace.Counts.{
  Sound, Counts, Still-Counts, quiet-Counts, sent-calls_end, sent-calls_error, sent-handle_delayed,
  finish_stop-Still, finish_pending-Still, exit_loop-Still, delay-Still, fire-Still, sorting-Still,
  forward-Still, end_delayed-Still,
}

module _ {F T E : Type 0} where
  send_frame-Counts :
      (d : ℕ) (x : Elem F T E) (p : ℕ) (e : Option E) (s : Sender F T E)
      → Sound s
      → Counts s (send_frame d x p e s)
  unfolding send_frame
  send_frame-Counts d x p none s h = omega (arith, h)
  send_frame-Counts d x p (some e) s h = omega (arith, h, sent-calls_error x e)

  take_frame-Counts :
      (d : ℕ) (w : Answer E) (x : Elem F T E) (s : Sender F T E)
      → Sound s
      → Counts s (take_frame d w x s)
  unfolding take_frame
  take_frame-Counts d w x s h =
      let p = tail_at w.now s.playback_tail in
      if_both (Counts s) (ltb w.now (p - allowed_ahead d)) _ _ (omega (arith, h))
        (send_frame-Counts d x p w.send_err s h)

  take_stop-Counts : (w : Answer E) (o : Option ℕ) (s : Sender F T E) → Counts s (take_stop w o s)
  unfolding take_stop
  take_stop-Counts w none s = quiet-Counts s [] refl
  take_stop-Counts w (some p) s = quiet-Counts s [] refl

  take_kind-Counts :
      (d : ℕ) (k : Kind) (w : Answer E) (x : Elem F T E) (s : Sender F T E)
      → Sound s
      → Counts s (take_kind d k w x s)
  unfolding take_kind take_start
  take_kind-Counts d sentence_start w x s h = quiet-Counts s [] refl
  take_kind-Counts d sentence_end w x s h = quiet-Counts s [] refl
  take_kind-Counts d frame w x s h = take_frame-Counts d w x s h
  take_kind-Counts d media_frame w x s h = take_frame-Counts d w x s h
  take_kind-Counts d tts_start w x s h = refl
  take_kind-Counts d tts_stop w x s h = take_stop-Counts w s.playback_tail s

  take_elem-Counts :
      (c : E) (d : ℕ) (w : Answer E) (x : Elem F T E) (s : Sender F T E)
      → Sound s
      → Counts s (take_elem c d w x s)
  take_elem-Counts c d w x s h =
      if_both (Counts s) (x.generation == s.audio_generation) _ _
        (take_kind-Counts d x.kind w x s h)
        (quiet-Counts s (calls_end x (some c)) (sent-calls_end x (some c)))

  reach-Counts :
      (d : ℕ) (w : Answer E) (p : Phase F T E) (s : Sender F T E)
      → Sound s
      → Counts s (reach d w p s)
  unfolding reach
  reach-Counts d w selecting s h = quiet-Counts s [] refl
  reach-Counts d w exited s h = quiet-Counts s [] refl
  reach-Counts d w (delaying t) s h = quiet-Counts s [] refl
  reach-Counts d w (pacing x at) s h =
      if_both (Counts s) (leb at w.now) _ _ (send_frame-Counts d x _ w.send_err s h)
        (quiet-Counts s [] refl)
  reach-Counts d w (tailing at) s h =
      if_both (Counts s) (leb at w.now) _ _ (quiet-Counts s [] refl) (quiet-Counts s [] refl)
  reach-Counts d w (padding at) s h =
      if_both (Counts s) (leb at w.now) _ _ refl (quiet-Counts s [] refl)

  see_done-Counts :
      (c : E) (w : Answer E) (p : Phase F T E) (s : Sender F T E) → Counts s (see_done c w p s)
  unfolding see_done
  see_done-Counts c w exited s = quiet-Counts s [] refl
  see_done-Counts c w (delaying t) s = quiet-Counts s _ (sent-calls_end t.elem_of _)
  see_done-Counts c w selecting s = Still-Counts s _ (exit_loop-Still c w s)
  see_done-Counts c w (pacing x at) s = Still-Counts s _ (exit_loop-Still c w s)
  see_done-Counts c w (tailing at) s = Still-Counts s _ (exit_loop-Still c w s)
  see_done-Counts c w (padding at) s = Still-Counts s _ (exit_loop-Still c w s)

  taking_elem-Counts :
      (c : E) (d : ℕ) (w : Answer E) (s : Sender F T E) (xs : List (Elem F T E))
      → Sound s
      → Counts s (taking_elem c d w xs s)
  taking_elem-Counts c d w s [] h = quiet-Counts s [] refl
  taking_elem-Counts c d w s (x ∷ xs) h = take_elem-Counts c d w x (record s { audio_queue = xs }) h

  taking_ready-Counts :
      (c : E) (w : Answer E) (s : Sender F T E) (xs : List (Elem F T E))
      → Counts s (taking_ready c w xs s)
  taking_ready-Counts c w s [] = quiet-Counts s [] refl
  taking_ready-Counts c w s (x ∷ xs) = quiet-Counts s _ (sent-handle_delayed c w x s)

  taking_request-Counts :
      (c : E) (w : Answer E) (rs : List (Option ℕ)) (s : Sender F T E)
      → Counts s (taking_request c w rs s)
  unfolding handle_interrupt
  taking_request-Counts c w [] s = quiet-Counts s [] refl
  taking_request-Counts c w (r ∷ rs) s = refl

  pub step-Counts :
      (c : E) (d : ℕ) (a : Action F T E) (w : Answer E) (s : Sender F T E)
      → Sound s
      → Counts s (step c d a w s)
  unfolding step next_generation request record_stop enqueue
  step-Counts c d takes_ready w s h =
      if_both (Counts s) (is_open s.phase) _ _ (taking_ready-Counts c w s s.ready_queue)
        (quiet-Counts s [] refl)
  step-Counts c d takes_request w s h =
      if_both (Counts s) (is_open s.phase) _ _ (taking_request-Counts c w s.interrupt_ch s)
        (quiet-Counts s [] refl)
  step-Counts c d takes_elem w s h =
      if_both (Counts s) (is_selecting s.phase) _ _ (taking_elem-Counts c d w s s.audio_queue h)
        (quiet-Counts s [] refl)
  step-Counts c d sees_done w s h = see_done-Counts c w s.phase s
  step-Counts c d reaches w s h = reach-Counts d w s.phase s h
  step-Counts c d delays w s h = Still-Counts s _ (delay-Still s.phase s)
  step-Counts c d sorts w s h =
      if_both (Counts s) (is_awaiting s.delayer) _ _
        (Still-Counts s _ (sorting-Still s.delayed_queue s)) (quiet-Counts s [] refl)
  step-Counts c d fires w s h =
      if_both (Counts s) (is_awaiting s.delayer) _ _ (Still-Counts s _ (fire-Still c w s.pending s))
        (quiet-Counts s [] refl)
  step-Counts c d forwards w s h = Still-Counts s _ (forward-Still s.delayer s)
  step-Counts c d ends_delayed w s h = Still-Counts s _ (end_delayed-Still w s.delayer s)
  step-Counts c d (enqueues g x) w s h =
      Still-Counts s (step c d (enqueues g x) w s)
        record { tail = ground arith; total = ground arith; quiet = refl }
  step-Counts c d bumps w s h = quiet-Counts s [] refl
  step-Counts c d requests w s h =
      Still-Counts s (step c d requests w s)
        record { tail = ground arith; total = ground arith; quiet = refl }
  step-Counts c d (requests_sync k) w s h =
      Still-Counts s (step c d (requests_sync k) w s)
        record { tail = ground arith; total = ground arith; quiet = refl }
  step-Counts c d (records b e) w s h =
      Still-Counts s (step c d (records b e) w s)
        record { tail = ground arith; total = ground arith; quiet = refl }
  step-Counts c d finishes_if_exited w s h =
      if_both (Counts s) (is_active s.phase) _ _ (quiet-Counts s [] refl)
        (Still-Counts s _ (finish_pending-Still w s))
  step-Counts c d (finishes b e) w s h = Still-Counts s _ (finish_stop-Still w b e s)
