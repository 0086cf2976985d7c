-- ===== src/Tts/Sender/Ends/Steps.antt =====
-- internal/app/server/chat/tts.go: the ends of sentences in the steps of the two loops.
use xiaozhi_esp32_server_gol.Common.{
  ℕ, ◌+◌, ◌-◌, ◌≡◌, refl, ap, true, Option, none, some, List, [], ◌∷◌, ◌++◌, length, ltb, leb, ◌==◌,
  if_both, arith, bit, count_if-append,
}
use xiaozhi_esp32_server_gol.Tts.{
  Kind, frame, sentence_start, sentence_end, tts_start, tts_stop, media_frame, Elem,
}
use xiaozhi_esp32_server_gol.Tts.Sender.{
  Task, Phase, selecting, exited, pacing, tailing, padding, delaying, Delayer, awaiting, gone,
  forwarding, Sender, interrupt_done, calls_end, Answer, Ran, queue_cap, allowed_ahead, finish_stop,
  finish_pending, drained_all, emptied, handle_interrupt, exit_loop, insert_delayed, all_later,
}
use xiaozhi_esp32_server_gol.Tts.Sender.Loop.{
  send_frame, tail_at, take_frame, take_stop, take_start, take_kind, reach, see_done, delay, fire,
  forward, abandons, end_delayed, started, taking_ready, taking_request, sorting,
}
use xiaozhi_esp32_server_gol.Tts.Sender.History.{take_elem, taking_elem}
use xiaozhi_esp32_server_gol.Tts.Sender.Ends.{
  is_end_of, over, ends_in, tasks_in, in_phase, in_delayer, waiting, Balanced, over-append,
  over-calls_end, over-calls_error, over-drained_all, over-handle_delayed, finish_stop-Idle,
  finish_pending-Idle,
}

module _ {F T E : Type 0} (k : ℕ) where
  pub ends-append : (xs ys : List (Elem F T E)) → ends_in k (xs ++ ys) ≡ ends_in k xs + ends_in k ys
  ends-append xs ys = count_if-append (is_end_of k) xs ys

  tasks-append : (xs ys : List (Task F T E)) → tasks_in k (xs ++ ys) ≡ tasks_in k xs + tasks_in k ys
  tasks-append xs ys = count_if-append (λ t. is_end_of k t.elem_of) xs ys

  tasks-insert_delayed :
      (t : Task F T E) (ts : List (Task F T E))
      → tasks_in k (insert_delayed t ts) ≡ bit (is_end_of k t.elem_of) + tasks_in k ts
  unfolding insert_delayed
  tasks-insert_delayed t [] = refl
  tasks-insert_delayed t (u ∷ us) =
      if_both (λ l. tasks_in k l ≡ bit (is_end_of k t.elem_of) + tasks_in k (u ∷ us))
        (all_later t (u ∷ us)) (t ∷ u ∷ us) (u ∷ insert_delayed t us) refl
        (omega (arith, tasks-insert_delayed t us))

  -- A phase in which no sentence waits.
  abbrev pub IsFree : Phase F T E → Type 0
  IsFree p = in_phase k p ≡ 0

  handle_interrupt-Balanced :
      (c : E) (w : Answer E) (r : Option ℕ) (s : Sender F T E)
      → IsFree s.phase
      → Balanced k s (handle_interrupt c w r s)
  unfolding handle_interrupt
  handle_interrupt-Balanced c w r s f =
      let i = finish_pending-Idle k w (emptied s) in
      let pend = (finish_pending w (emptied s)).0 in
      omega (
        arith,
        i.queues,
        i.quiet,
        f,
        over-drained_all k c s,
        over-append k (drained_all c s) (pend ++ interrupt_done r ∷ []),
        over-append k pend (interrupt_done r ∷ []),
      )

  exit_loop-Balanced :
      (c : E) (w : Answer E) (s : Sender F T E) → IsFree s.phase → Balanced k s (exit_loop c w s)
  unfolding exit_loop
  exit_loop-Balanced c w s f =
      let i = finish_stop-Idle k w true (some w.ctx_err) (emptied s) in
      omega (
        arith,
        i.queues,
        i.quiet,
        f,
        over-drained_all k c s,
        over-append k (drained_all c s) (finish_stop w true (some w.ctx_err) (emptied s)).0,
      )

  send_frame-Balanced :
      (d : ℕ) (x : Elem F T E) (p : ℕ) (e : Option E) (s : Sender F T E)
      → IsFree s.phase
      → Balanced k s (send_frame d x p e s)
  unfolding send_frame
  send_frame-Balanced d x p none s f = omega (arith, f)
  send_frame-Balanced d x p (some e) s f = omega (arith, f, over-calls_error k x e)

  take_frame-Balanced :
      (d : ℕ) (w : Answer E) (x : Elem F T E) (s : Sender F T E)
      → IsFree s.phase
      → Balanced k s (take_frame d w x s)
  unfolding take_frame
  take_frame-Balanced d w x s f =
      let p = tail_at w.now s.playback_tail in
      if_both (Balanced k s) (ltb w.now (p - allowed_ahead d)) _ _ (omega (arith, f))
        (send_frame-Balanced d x p w.send_err s f)

  take_stop-Balanced :
      (w : Answer E) (p : Option ℕ) (s : Sender F T E)
      → IsFree s.phase
      → Balanced k s (take_stop w p s)
  unfolding take_stop
  take_stop-Balanced w none s f = omega (arith, f)
  take_stop-Balanced w (some p) s f = omega (arith, f)

  -- The element that is taken is one more than what waits.
  abbrev Takes : Elem F T E → Sender F T E → Ran F T E → Type 0
  Takes x s r = waiting k r.1 + over k r.0 ≡ bit (is_end_of k x) + waiting k s

  take_kind-Takes :
      (d : ℕ) (n : Kind) (w : Answer E) (x : Elem F T E) (s : Sender F T E)
      → x.kind ≡ n
      → IsFree s.phase
      → Takes x s (take_kind d n w x s)
  unfolding take_kind take_start
  take_kind-Takes d sentence_start w x s h f = omega (arith, f)
  take_kind-Takes d sentence_end w x s h f = omega (arith, f)
  take_kind-Takes d frame w x s h f =
      let n : bit (is_end_of k x) ≡ 0 = ground arith in
      omega (arith, n, take_frame-Balanced d w x s f)
  take_kind-Takes d media_frame w x s h f =
      let n : bit (is_end_of k x) ≡ 0 = ground arith in
      omega (arith, n, take_frame-Balanced d w x s f)
  take_kind-Takes d tts_start w x s h f =
      let n : bit (is_end_of k x) ≡ 0 = ground arith in
      let q : over k (started {F = F} {T = T} w.send_err) ≡ 0 = ground arith in omega (arith, n, q)
  take_kind-Takes d tts_stop w x s h f =
      let n : bit (is_end_of k x) ≡ 0 = ground arith in
      omega (arith, n, take_stop-Balanced w s.playback_tail s f)

  take_elem-Takes :
      (c : E) (d : ℕ) (w : Answer E) (x : Elem F T E) (s : Sender F T E)
      → IsFree s.phase
      → Takes x s (take_elem c d w x s)
  take_elem-Takes c d w x s f =
      if_both (Takes x s) (x.generation == s.audio_generation) _ _
        (take_kind-Takes d x.kind w x s refl f) (omega (arith, over-calls_end k x (some c)))

  pub reach-Balanced :
      (d : ℕ) (w : Answer E) (p : Phase F T E) (s : Sender F T E)
      → s.phase ≡ p
      → Balanced k s (reach d w p s)
  unfolding reach
  reach-Balanced d w selecting s h = omega arith
  reach-Balanced d w exited s h = omega arith
  reach-Balanced d w (delaying t) s h = omega arith
  reach-Balanced d w (pacing x at) s h =
      if_both (Balanced k s) (leb at w.now) _ _
        (send_frame-Balanced d x _ w.send_err s (ap (in_phase k) h)) (omega arith)
  reach-Balanced d w (tailing at) s h =
      if_both (Balanced k s) (leb at w.now) _ _ (omega (arith, ap (in_phase k) h)) (omega arith)
  reach-Balanced d w (padding at) s h =
      let i = finish_stop-Idle k w true none s in
      if_both (Balanced k s) (leb at w.now) _ _
        (omega (arith, i.queues, i.quiet, ap (in_phase k) h)) (omega arith)

  pub see_done-Balanced :
      (c : E) (w : Answer E) (p : Phase F T E) (s : Sender F T E)
      → s.phase ≡ p
      → Balanced k s (see_done c w p s)
  unfolding see_done
  see_done-Balanced c w exited s h = omega arith
  see_done-Balanced c w (delaying t) s h =
      omega (arith, ap (in_phase k) h, over-calls_end k t.elem_of (some w.ctx_err))
  see_done-Balanced c w selecting s h = exit_loop-Balanced c w s (ap (in_phase k) h)
  see_done-Balanced c w (pacing x at) s h = exit_loop-Balanced c w s (ap (in_phase k) h)
  see_done-Balanced c w (tailing at) s h = exit_loop-Balanced c w s (ap (in_phase k) h)
  see_done-Balanced c w (padding at) s h = exit_loop-Balanced c w s (ap (in_phase k) h)

  pub taking_elem-Balanced :
      (c : E) (d : ℕ) (w : Answer E) (xs : List (Elem F T E)) (s : Sender F T E)
      → s.audio_queue ≡ xs
      → IsFree s.phase
      → Balanced k s (taking_elem c d w xs s)
  taking_elem-Balanced c d w [] s h f = omega arith
  taking_elem-Balanced c d w (x ∷ xs) s h f =
      omega (arith, ap (ends_in k) h, take_elem-Takes c d w x (record s { audio_queue = xs }) f)

  pub taking_ready-Balanced :
      (c : E) (w : Answer E) (xs : List (Elem F T E)) (s : Sender F T E)
      → s.ready_queue ≡ xs
      → Balanced k s (taking_ready c w xs s)
  taking_ready-Balanced c w [] s h = omega arith
  taking_ready-Balanced c w (x ∷ xs) s h =
      omega (arith, ap (ends_in k) h, over-handle_delayed k c w x s)

  pub taking_request-Balanced :
      (c : E) (w : Answer E) (rs : List (Option ℕ)) (s : Sender F T E)
      → IsFree s.phase
      → Balanced k s (taking_request c w rs s)
  taking_request-Balanced c w [] s f = omega arith
  taking_request-Balanced c w (r ∷ rs) s f =
      omega (arith, handle_interrupt-Balanced c w r (record s { interrupt_ch = rs }) f)

  pub delay-Balanced : (p : Phase F T E) (s : Sender F T E) → s.phase ≡ p → Balanced k s (delay p s)
  unfolding delay
  delay-Balanced selecting s h = omega arith
  delay-Balanced exited s h = omega arith
  delay-Balanced (pacing x at) s h = omega arith
  delay-Balanced (tailing at) s h = omega arith
  delay-Balanced (padding at) s h = omega arith
  delay-Balanced (delaying t) s h =
      if_both (Balanced k s) (ltb (length s.delayed_queue) queue_cap) _ _
        (omega (arith, ap (in_phase k) h, tasks-append s.delayed_queue (t ∷ []))) (omega arith)

  pub sorting-Balanced :
      (ts : List (Task F T E)) (s : Sender F T E)
      → s.delayed_queue ≡ ts
      → Balanced k s (sorting ts s)
  sorting-Balanced [] s h = omega arith
  sorting-Balanced (t ∷ ts) s h = omega (arith, ap (tasks_in k) h, tasks-insert_delayed t s.pending)

  pub fire-Balanced :
      (c : E) (w : Answer E) (ts : List (Task F T E)) (s : Sender F T E)
      → s.pending ≡ ts
      → s.delayer ≡ awaiting
      → Balanced k s (fire c w ts s)
  unfolding fire
  fire-Balanced c w [] s h a = omega arith
  fire-Balanced c w (t ∷ ts) s h a =
      if_both (Balanced k s) (leb t.execute_at w.now) _ _
        (if_both (Balanced k s) (t.elem_of.generation == s.audio_generation) _ _
          (omega (arith, ap (tasks_in k) h, ap (in_delayer k) a))
          (omega (arith, ap (tasks_in k) h, over-calls_end k t.elem_of (some c))))
        (omega arith)

  pub forward-Balanced :
      (l : Delayer F T E) (s : Sender F T E) → s.delayer ≡ l → Balanced k s (forward l s)
  unfolding forward
  forward-Balanced awaiting s h = omega arith
  forward-Balanced gone s h = omega arith
  forward-Balanced (forwarding x) s h =
      if_both (Balanced k s) (ltb (length s.ready_queue) queue_cap) _ _
        (omega (arith, ap (in_delayer k) h, ends-append s.ready_queue (x ∷ []))) (omega arith)

  over-abandons : (ts : List (Task F T E)) → over k (abandons ts) ≡ tasks_in k ts
  unfolding abandons
  over-abandons [] = refl
  over-abandons (t ∷ ts) = omega (arith, over-abandons ts)

  pub end_delayed-Balanced :
      (w : Answer E) (l : Delayer F T E) (s : Sender F T E)
      → s.delayer ≡ l
      → Balanced k s (end_delayed w l s)
  unfolding end_delayed
  end_delayed-Balanced w awaiting s h = omega (arith, ap (in_delayer k) h, over-abandons s.pending)
  end_delayed-Balanced w gone s h = omega arith
  end_delayed-Balanced w (forwarding x) s h = omega (
    arith,
    ap (in_delayer k) h,
    over-calls_end k x (some w.ctx_err),
    over-append k (calls_end x (some w.ctx_err)) (abandons s.pending),
    over-abandons s.pending,
  )
