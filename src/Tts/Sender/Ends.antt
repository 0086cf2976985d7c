-- ===== src/Tts/Sender/Ends.antt =====
-- internal/app/server/chat/tts.go: where the ends of sentences are, and the calls of them.
pub mod Steps
pub mod Kept
use xiaozhi_esp32_server_gol.Common.{
  ℕ, suc, ◌+◌, ◌-◌, ◌≡◌, refl, sym, ap, ◌∙◌, Bool, true, false, not, ◌&&◌, Option, none, some, List,
  [], ◌∷◌, ◌++◌, length, ltb, leb, ◌==◌, ==_iff, if◌then◌else◌, if_both, if_given, is_some, arith,
  ◌⊎◌, inl, inr, All, All-append, bit, count_if, count_if-append,
}
use xiaozhi_esp32_server_gol.Tts.{
  Kind, frame, sentence_start, sentence_end, tts_start, tts_stop, media_frame, Elem,
}
use xiaozhi_esp32_server_gol.Tts.Sender.{
  Task, Phase, selecting, exited, pacing, tailing, padding, delaying, Delayer, awaiting, gone,
  forwarding, Sender, Event, audio_sent, start_hook, start_sent, stop_hook, stop_sent,
  sentence_start_sent, sentence_end_sent, interrupt_done, end_called, abandoned, Answer, Ran,
  queue_cap, allowed_ahead, calls_end, calls_error, calls_start, finish_stop, finish_pending,
  drained, drained_all, emptied, handle_interrupt, exit_loop, speak_start, speak_end,
  speak_sentence, handle_delayed, record_stop,
}
use xiaozhi_esp32_server_gol.Tts.Sender.Loop.{
  send_frame, tail_at, take_frame, take_stop, take_start, take_kind, reach, see_done, delay, fire,
  forward, end_delayed, started, taking_ready, taking_request, sorting, is_open, is_selecting,
  is_active,
}
use xiaozhi_esp32_server_gol.Tts.Sender.History.{
  Action, takes_ready, takes_request, takes_elem, sees_done, reaches, delays, sorts, fires,
  forwards, ends_delayed, enqueues, bumps, requests, requests_sync, records, finishes_if_exited,
  finishes, enqueue, request, step, run, take_elem, taking_elem, is_awaiting,
}

abbrev pub is_sentence_end : Kind → Bool
is_sentence_end sentence_end = true
is_sentence_end _ = false

abbrev pub names : ℕ → Option ℕ → Bool
names k none = false
names k (some j) = j == k

module _ {F T E : Type 0} (k : ℕ) where
  -- The end of a sentence whose callback is `k`.
  abbrev pub is_end_of : Elem F T E → Bool
  is_end_of x = is_sentence_end x.kind && names k x.on_end

  abbrev pub is_call : Event F T E → Bool
  is_call (end_called x e) = is_end_of x
  is_call _ = false

  abbrev pub is_loss : Event F T E → Bool
  is_loss (abandoned x) = is_end_of x
  is_loss _ = false

  -- The calls of the callback for ends of sentences, and the ends that are lost without one.
  abbrev pub calls : List (Event F T E) → ℕ
  calls es = count_if is_call es

  abbrev pub losses : List (Event F T E) → ℕ
  losses es = count_if is_loss es

  abbrev pub is_over : Event F T E → Bool
  is_over (end_called x e) = is_end_of x
  is_over (abandoned x) = is_end_of x
  is_over _ = false

  abbrev pub over : List (Event F T E) → ℕ
  over es = count_if is_over es

  pub over-split : (es : List (Event F T E)) → over es ≡ calls es + losses es
  over-split [] = refl
  over-split (e ∷ es) =
      let one : bit (is_over e) ≡ bit (is_call e) + bit (is_loss e) = ground arith in
      omega (arith, one, over-split es)

  abbrev pub ends_in : List (Elem F T E) → ℕ
  ends_in xs = count_if is_end_of xs

  abbrev pub tasks_in : List (Task F T E) → ℕ
  tasks_in ts = count_if (λ t. is_end_of t.elem_of) ts

  abbrev pub in_phase : Phase F T E → ℕ
  in_phase (delaying t) = bit (is_end_of t.elem_of)
  in_phase _ = 0

  abbrev pub in_delayer : Delayer F T E → ℕ
  in_delayer (forwarding x) = bit (is_end_of x)
  in_delayer _ = 0

  -- How many ends of sentences with the callback wait in the queues, and how many in all.
  abbrev pub in_queues : Sender F T E → ℕ
  in_queues s =
      ends_in s.audio_queue
      + tasks_in s.delayed_queue
      + tasks_in s.pending
      + in_delayer s.delayer
      + ends_in s.ready_queue

  abbrev pub waiting : Sender F T E → ℕ
  waiting s = in_phase s.phase + in_queues s

  abbrev pub Balanced : Sender F T E → Ran F T E → Type 0
  Balanced s r = waiting r.1 + over r.0 ≡ waiting s

  pub over-append : (xs ys : List (Event F T E)) → over (xs ++ ys) ≡ over xs + over ys
  over-append xs ys = count_if-append is_over xs ys

  pub over-calls_end : (x : Elem F T E) (e : Option E) → over (calls_end x e) ≡ bit (is_end_of x)
  over-calls_end x e = ground arith

  pub over-calls_error : (x : Elem F T E) (e : E) → over (calls_error x e) ≡ 0
  over-calls_error x e = ground arith

  pub over-drained : (c : E) (xs : List (Elem F T E)) → over (drained c xs) ≡ ends_in xs
  unfolding drained
  over-drained c [] = refl
  over-drained c (x ∷ xs) = omega (
    arith,
    over-append (calls_end x (some c)) (drained c xs),
    over-calls_end x (some c),
    over-drained c xs,
  )

  pub over-drained_all :
      (c : E) (s : Sender F T E)
      → over (drained_all c s) ≡ ends_in s.audio_queue + ends_in s.ready_queue
  over-drained_all c s = omega (
    arith,
    over-append (drained c s.audio_queue) (drained c s.ready_queue),
    over-drained c s.audio_queue,
    over-drained c s.ready_queue,
  )

  pub over-speak_start :
      (x : Elem F T E) (t : Option T) (e : Option E)
      → x.kind ≡ sentence_start
      → over (speak_start x t e) ≡ 0
  unfolding speak_start
  over-speak_start x t e h = ground arith

  pub over-speak_end :
      (x : Elem F T E) (t : Option T) (e : Option E) → over (speak_end x t e) ≡ bit (is_end_of x)
  unfolding speak_end
  over-speak_end x none e = over-calls_end x x.err
  over-speak_end x (some t) none = omega (arith, over-calls_end x x.err)
  over-speak_end x (some t) (some e) =
      omega (arith, over-append (calls_error x e) _, over-calls_error x e, over-calls_end x _)

  pub over-speak_sentence :
      (n : Kind) (w : Answer E) (x : Elem F T E)
      → x.kind ≡ n
      → over (speak_sentence n w x) ≡ bit (is_end_of x)
  unfolding speak_sentence
  over-speak_sentence sentence_end w x h = over-speak_end x x.text w.send_err
  over-speak_sentence sentence_start w x h =
      let s : over (calls_start x) ≡ 0 = ground arith in
      let n : bit (is_end_of x) ≡ 0 = ground arith in
      omega (
        arith,
        s,
        n,
        over-append (calls_start x) (speak_start x x.text w.send_err),
        over-speak_start x x.text w.send_err h,
      )
  over-speak_sentence frame w x h = ground arith
  over-speak_sentence media_frame w x h = ground arith
  over-speak_sentence tts_start w x h = ground arith
  over-speak_sentence tts_stop w x h = ground arith

  pub over-handle_delayed :
      (c : E) (w : Answer E) (x : Elem F T E) (s : Sender F T E)
      → over (handle_delayed c w x s) ≡ bit (is_end_of x)
  unfolding handle_delayed
  over-handle_delayed c w x s =
      if_both (λ es. over es ≡ bit (is_end_of x)) (x.generation == s.audio_generation) _ _
        (over-speak_sentence x.kind w x refl) (over-calls_end x (some c))

  -- A step that calls and loses no end, and leaves the queues and the phase.
  pub record Idle (s : Sender F T E) (r : Ran F T E) : Type 0 where
    pub queues : in_queues r.1 ≡ in_queues s
    pub same_phase : r.1.phase ≡ s.phase
    pub quiet : over r.0 ≡ 0

  pub finish_stop-Idle :
      (w : Answer E) (b : Bool) (e : Option E) (s : Sender F T E) → Idle s (finish_stop w b e s)
  unfolding finish_stop
  finish_stop-Idle w b e s = record {
    queues = ground arith;
    same_phase = ground arith;
    quiet = ground arith;
  }

  pub finish_pending-Idle : (w : Answer E) (s : Sender F T E) → Idle s (finish_pending w s)
  unfolding finish_pending
  finish_pending-Idle w s =
      let t = record s { stop_pending = false; stop_sends = false; stop_err = none } in
      let f = finish_stop-Idle w s.stop_sends s.stop_err t in
      if_both (Idle s) s.stop_pending _ _
        record { queues = f.queues; same_phase = f.same_phase; quiet = f.quiet }
        record { queues = refl; same_phase = refl; quiet = refl }

  pub Idle-Balanced : (s : Sender F T E) (r : Ran F T E) → Idle s r → Balanced s r
  Idle-Balanced s r i = omega (arith, i.queues, i.quiet, ap in_phase i.same_phase)
