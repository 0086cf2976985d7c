-- ===== src/Tts/Sender/Ends/Kept.antt =====
-- internal/app/server/chat/tts.go: the ends of sentences in a history.
use xiaozhi_esp32_server_gol.Common.{
  ℕ, ◌+◌, ◌≡◌, refl, true, List, [], ◌∷◌, length, ltb, if◌then◌else◌, if_both, Bool-cases, if_given,
  arith, inl, inr, bit,
}
use xiaozhi_esp32_server_gol.Tts.{Elem}
use xiaozhi_esp32_server_gol.Tts.Sender.{
  Phase, selecting, exited, pacing, tailing, padding, delaying, Delayer, awaiting, gone, forwarding,
  Sender, Answer, Ran, queue_cap, record_stop, next_generation,
}
use xiaozhi_esp32_server_gol.Tts.Sender.Loop.{is_open, is_selecting, is_active}
use xiaozhi_esp32_server_gol.Tts.Sender.History.{
  Action, takes_ready, takes_request, takes_elem, sees_done, reaches, delays, sorts, fires,
  forwards, ends_delayed, enqueues, bumps, requests, requests_sync, records, finishes_if_exited,
  finishes, enqueue, request, step, run, is_awaiting,
}
use xiaozhi_esp32_server_gol.Tts.Sender.Ends.{
  is_end_of, over, calls, losses, over-split, waiting, Balanced, over-append, finish_stop-Idle,
  finish_pending-Idle, Idle-Balanced,
}
use xiaozhi_esp32_server_gol.Tts.Sender.Ends.Steps.{
  IsFree, ends-append, reach-Balanced, see_done-Balanced, taking_elem-Balanced,
  taking_ready-Balanced, taking_request-Balanced, delay-Balanced, sorting-Balanced, fire-Balanced,
  forward-Balanced, end_delayed-Balanced,
}

module _ {F T E : Type 0} (k : ℕ) where
  -- Whether an end of a sentence with the callback `k` finds room in the audio queue.
  abbrev pub entering : Action F T E → Sender F T E → ℕ
  entering (enqueues g x) s =
      if ltb (length s.audio_queue) queue_cap then bit (is_end_of k x) else 0
  entering _ s = 0

  -- How many of them a history queues.
  abbrev pub entered : E → ℕ → List (Action F T E × Answer E) → Sender F T E → ℕ
  entered c d [] s = 0
  entered c d ((a, w) ∷ xs) s = entering a s + entered c d xs (step c d a w s).1

  open-IsFree : (p : Phase F T E) → is_open p ≡ true → IsFree k p
  open-IsFree selecting h = refl
  open-IsFree exited h = refl
  open-IsFree (pacing x at) h = refl
  open-IsFree (tailing at) h = refl
  open-IsFree (padding at) h = refl
  open-IsFree (delaying t) h = cc

  selecting-IsFree : (p : Phase F T E) → is_selecting p ≡ true → IsFree k p
  selecting-IsFree selecting h = refl
  selecting-IsFree exited h = refl
  selecting-IsFree (pacing x at) h = refl
  selecting-IsFree (tailing at) h = refl
  selecting-IsFree (padding at) h = refl
  selecting-IsFree (delaying t) h = cc

  awaits : (l : Delayer F T E) → is_awaiting l ≡ true → l ≡ awaiting
  awaits awaiting h = refl
  awaits gone h = cc
  awaits (forwarding x) h = cc

  enqueue-Balanced :
      (g : ℕ) (x : Elem F T E) (s : Sender F T E)
      → waiting k (enqueue g x s) ≡ waiting k s + entering (enqueues g x) s
  unfolding enqueue
  enqueue-Balanced g x s = elim (Bool-cases (ltb (length s.audio_queue) queue_cap)) [
    | inl e ↦
        rw (enqueue, e)
          (omega (arith, ends-append k s.audio_queue (record x { generation = g } ∷ [])))
    | inr e ↦ rw (enqueue, e) (omega arith)
  ]

  -- A step that queues nothing.
  none_entering :
      (s : Sender F T E) (r : Ran F T E)
      → Balanced k s r
      → waiting k r.1 + over k r.0 ≡ waiting k s + 0
  none_entering s r b = omega (arith, b)

  step-Balanced :
      (c : E) (d : ℕ) (a : Action F T E) (w : Answer E) (s : Sender F T E)
      → waiting k (step c d a w s).1 + over k (step c d a w s).0 ≡ waiting k s + entering a s
  unfolding step next_generation request record_stop
  step-Balanced c d takes_ready w s = none_entering s (step c d takes_ready w s) (
      if_both (Balanced k s) (is_open s.phase) _ _
        (taking_ready-Balanced k c w s.ready_queue s refl) (omega arith))
  step-Balanced c d takes_request w s = none_entering s (step c d takes_request w s) (
      if_given (Balanced k s) (is_open s.phase) _ _
        (λ e. taking_request-Balanced k c w s.interrupt_ch s (open-IsFree s.phase e))
        (λ _. omega arith))
  step-Balanced c d takes_elem w s = none_entering s (step c d takes_elem w s) (
      if_given (Balanced k s) (is_selecting s.phase) _ _
        (λ e. taking_elem-Balanced k c d w s.audio_queue s refl (selecting-IsFree s.phase e))
        (λ _. omega arith))
  step-Balanced c d sees_done w s =
      none_entering s (step c d sees_done w s) (see_done-Balanced k c w s.phase s refl)
  step-Balanced c d reaches w s =
      none_entering s (step c d reaches w s) (reach-Balanced k d w s.phase s refl)
  step-Balanced c d delays w s =
      none_entering s (step c d delays w s) (delay-Balanced k s.phase s refl)
  step-Balanced c d sorts w s = none_entering s (step c d sorts w s) (
      if_both (Balanced k s) (is_awaiting s.delayer) _ _ (sorting-Balanced k s.delayed_queue s refl)
        (omega arith))
  step-Balanced c d fires w s = none_entering s (step c d fires w s) (
      if_given (Balanced k s) (is_awaiting s.delayer) _ _
        (λ e. fire-Balanced k c w s.pending s refl (awaits s.delayer e)) (λ _. omega arith))
  step-Balanced c d forwards w s =
      none_entering s (step c d forwards w s) (forward-Balanced k s.delayer s refl)
  step-Balanced c d ends_delayed w s =
      none_entering s (step c d ends_delayed w s) (end_delayed-Balanced k w s.delayer s refl)
  step-Balanced c d (enqueues g x) w s = omega (arith, enqueue-Balanced g x s)
  step-Balanced c d bumps w s = omega arith
  step-Balanced c d requests w s = ground arith
  step-Balanced c d (requests_sync j) w s = ground arith
  step-Balanced c d (records b e) w s = ground arith
  step-Balanced c d finishes_if_exited w s = none_entering s (step c d finishes_if_exited w s) (
      if_both (Balanced k s) (is_active s.phase) _ _ (omega arith)
        (Idle-Balanced k s _ (finish_pending-Idle k w s)))
  step-Balanced c d (finishes b e) w s =
      none_entering s (step c d (finishes b e) w s)
        (Idle-Balanced k s _ (finish_stop-Idle k w b e s))

  run-over :
      (c : E) (d : ℕ) (xs : List (Action F T E × Answer E)) (s : Sender F T E)
      → waiting k (run c d xs s).1 + over k (run c d xs s).0 ≡ waiting k s + entered c d xs s
  unfolding run
  run-over c d [] s = omega arith
  run-over c d ((a, w) ∷ xs) s =
      let r = step c d a w s in
      omega
        (arith, step-Balanced c d a w s, run-over c d xs r.1, over-append k r.0 (run c d xs r.1).0)

  -- Whatever the loops, those who queue elements and those who interrupt do, in any order, the ends of
  -- sentences with the callback `k` that were queued, with those that waited at the beginning, are as
  -- many as the calls of it for ends of sentences, those that runDelayedSentenceLoop dropped without a
  -- call when it returned, and those that are still in a queue or in the hands of a loop.
  pub run-Balanced :
      (c : E) (d : ℕ) (xs : List (Action F T E × Answer E)) (s : Sender F T E)
      → let r = run c d xs s in
        waiting k r.1 + calls k r.0 + losses k r.0 ≡ waiting k s + entered c d xs s
  run-Balanced c d xs s = omega (arith, run-over c d xs s, over-split k (run c d xs s).0)
