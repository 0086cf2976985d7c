-- ===== src/Tts/Sender/Current/Loops.antt =====
-- internal/app/server/chat/tts.go: the generations of what is sent, in the steps of the two loops.
use xiaozhi_esp32_server_gol.Common.{
  ℕ, ◌-◌, ◌≡◌, ◌∙◌, true, Option, none, some, List, [], ◌∷◌, ◌++◌, length, ltb, leb, ◌==◌, ==_iff,
  if_both, if_given, arith, inl, All, All-append,
}
use xiaozhi_esp32_server_gol.Tts.{
  Kind, frame, sentence_start, sentence_end, tts_start, tts_stop, media_frame, Elem,
}
use xiaozhi_esp32_server_gol.Tts.Sender.{
  Task, Phase, selecting, exited, pacing, tailing, padding, delaying, Delayer, awaiting, gone,
  forwarding, Sender, Event, calls_end, Answer, Ran, queue_cap, allowed_ahead, finish_pending,
  drained_all, emptied, handle_interrupt, exit_loop,
}
use xiaozhi_esp32_server_gol.Tts.Sender.Loop.{
  send_frame, tail_at, take_frame, take_stop, take_start, take_kind, reach, see_done, delay, fire,
  forward, abandons, end_delayed, taking_ready, taking_request, sorting,
}
use xiaozhi_esp32_server_gol.Tts.Sender.History.{take_elem, taking_elem}
use xiaozhi_esp32_server_gol.Tts.Sender.Current.Calls.{
  Fresh, Due, Current, HoldsDue, calls_end-All, calls_error-All, drained_all-All,
  handle_delayed-All, finish_stop-Fresh, finish_pending-Fresh,
}

module _ {F T E : Type 0} (g : ℕ) (o : Option (Elem F T E)) where
  -- Events and a phase of a step that leaves the generation.
  pub leaving :
      (s : Sender F T E) (es : List (Event F T E))
      → Fresh g o ([], s)
      → All (Current g o) es
      → Fresh g o (es, s)
  leaving s es f a = record { gen = f.gen; events = a; holds = f.holds }

  pub behind :
      (xs : List (Event F T E)) (r : Ran F T E)
      → All (Current g o) xs
      → Fresh g o r
      → Fresh g o (xs ++ r.0, r.1)
  behind xs r a f = record {
    gen = f.gen;
    events = All-append (Current g o) xs r.0 a f.events;
    holds = f.holds;
  }

  pub handle_interrupt-Fresh :
      (c : E) (w : Answer E) (r : Option ℕ) (s : Sender F T E)
      → Fresh g o ([], s)
      → Fresh g o (handle_interrupt c w r s)
  unfolding handle_interrupt
  handle_interrupt-Fresh c w r s f =
      let p =
        finish_pending-Fresh g o w (emptied s)
          record { gen = f.gen; events = tt; holds = f.holds } in
      record {
        gen = p.gen;
        events =
            All-append (Current g o) (drained_all c s) _ (drained_all-All g o c s)
              (All-append (Current g o) (finish_pending w (emptied s)).0 _ p.events (tt, tt));
        holds = tt;
      }

  pub exit_loop-Fresh :
      (c : E) (w : Answer E) (s : Sender F T E) → Fresh g o ([], s) → Fresh g o (exit_loop c w s)
  unfolding exit_loop
  exit_loop-Fresh c w s f =
      let p =
        finish_stop-Fresh g o w true (some w.ctx_err) (emptied s)
          record { gen = f.gen; events = tt; holds = f.holds } in
      record {
        gen = p.gen;
        events = All-append (Current g o) (drained_all c s) _ (drained_all-All g o c s) p.events;
        holds = tt;
      }

  pub send_frame-Fresh :
      (d : ℕ) (x : Elem F T E) (p : ℕ) (e : Option E) (s : Sender F T E)
      → s.audio_generation ≡ g
      → Due g o x
      → Fresh g o (send_frame d x p e s)
  unfolding send_frame
  send_frame-Fresh d x p none s h u = record { gen = h; events = (u, tt); holds = tt }
  send_frame-Fresh d x p (some e) s h u = record {
    gen = h;
    events = calls_error-All g o x e;
    holds = tt;
  }

  pub take_frame-Fresh :
      (d : ℕ) (w : Answer E) (x : Elem F T E) (s : Sender F T E)
      → s.audio_generation ≡ g
      → Due g o x
      → Fresh g o (take_frame d w x s)
  unfolding take_frame
  take_frame-Fresh d w x s h u =
      let p = tail_at w.now s.playback_tail in
      if_both (Fresh g o) (ltb w.now (p - allowed_ahead d)) _ _
        record { gen = h; events = tt; holds = u } (send_frame-Fresh d x p w.send_err s h u)

  pub take_kind-Fresh :
      (d : ℕ) (k : Kind) (w : Answer E) (x : Elem F T E) (s : Sender F T E)
      → Fresh g o ([], s)
      → Due g o x
      → Fresh g o (take_kind d k w x s)
  unfolding take_kind take_stop take_start
  take_kind-Fresh d sentence_start w x s f u = record { gen = f.gen; events = tt; holds = tt }
  take_kind-Fresh d sentence_end w x s f u = record { gen = f.gen; events = tt; holds = tt }
  take_kind-Fresh d frame w x s f u = take_frame-Fresh d w x s f.gen u
  take_kind-Fresh d media_frame w x s f u = take_frame-Fresh d w x s f.gen u
  take_kind-Fresh d tts_start w x s f u = record {
    gen = f.gen;
    events = ground arith;
    holds = f.holds;
  }
  take_kind-Fresh d tts_stop w x s f u = record {
    gen = ground (arith, f.gen);
    events = ground arith;
    holds = ground arith;
  }

  pub take_elem-Fresh :
      (c : E) (d : ℕ) (w : Answer E) (x : Elem F T E) (s : Sender F T E)
      → Fresh g o ([], s)
      → Fresh g o (take_elem c d w x s)
  take_elem-Fresh c d w x s f =
      if_given (Fresh g o) (x.generation == s.audio_generation) _ _
        (λ e.
          take_kind-Fresh d x.kind w x s f
            (inl ((==_iff x.generation s.audio_generation).0 e ∙ f.gen)))
        (λ _. leaving s _ f (calls_end-All g o x (some c)))

  pub reach-Fresh :
      (d : ℕ) (w : Answer E) (p : Phase F T E) (s : Sender F T E)
      → Fresh g o ([], s)
      → HoldsDue g o p
      → Fresh g o (reach d w p s)
  unfolding reach
  reach-Fresh d w selecting s f u = f
  reach-Fresh d w exited s f u = f
  reach-Fresh d w (delaying t) s f u = f
  reach-Fresh d w (pacing x at) s f u =
      if_both (Fresh g o) (leb at w.now) _ _ (send_frame-Fresh d x _ w.send_err s f.gen u) f
  reach-Fresh d w (tailing at) s f u =
      if_both (Fresh g o) (leb at w.now) _ _ record { gen = f.gen; events = tt; holds = tt } f
  reach-Fresh d w (padding at) s f u =
      let p = finish_stop-Fresh g o w true none s f in
      if_both (Fresh g o) (leb at w.now) _ _ record { gen = p.gen; events = p.events; holds = tt } f

  pub see_done-Fresh :
      (c : E) (w : Answer E) (p : Phase F T E) (s : Sender F T E)
      → Fresh g o ([], s)
      → Fresh g o (see_done c w p s)
  unfolding see_done
  see_done-Fresh c w exited s f = f
  see_done-Fresh c w (delaying t) s f = record {
    gen = f.gen;
    events = calls_end-All g o t.elem_of _;
    holds = tt;
  }
  see_done-Fresh c w selecting s f = exit_loop-Fresh c w s f
  see_done-Fresh c w (pacing x at) s f = exit_loop-Fresh c w s f
  see_done-Fresh c w (tailing at) s f = exit_loop-Fresh c w s f
  see_done-Fresh c w (padding at) s f = exit_loop-Fresh c w s f

  pub taking-Fresh :
      (c : E) (d : ℕ) (w : Answer E) (s : Sender F T E) (xs : List (Elem F T E))
      → Fresh g o ([], s)
      → Fresh g o (taking_elem c d w xs s) × Fresh g o (taking_ready c w xs s)
  taking-Fresh c d w s [] f = (f, f)
  taking-Fresh c d w s (x ∷ xs) f = (
    take_elem-Fresh c d w x _ record { gen = f.gen; events = tt; holds = f.holds },
    record { gen = f.gen; events = handle_delayed-All g o c w x s f.gen; holds = f.holds },
  )

  pub taking_request-Fresh :
      (c : E) (w : Answer E) (rs : List (Option ℕ)) (s : Sender F T E)
      → Fresh g o ([], s)
      → Fresh g o (taking_request c w rs s)
  taking_request-Fresh c w [] s f = f
  taking_request-Fresh c w (r ∷ rs) s f =
      handle_interrupt-Fresh c w r _ record { gen = f.gen; events = tt; holds = f.holds }

  pub fire-Fresh :
      (c : E) (w : Answer E) (ts : List (Task F T E)) (s : Sender F T E)
      → Fresh g o ([], s)
      → Fresh g o (fire c w ts s)
  unfolding fire
  fire-Fresh c w [] s f = f
  fire-Fresh c w (t ∷ ts) s f =
      if_both (Fresh g o) (leb t.execute_at w.now) _ _
        (if_both (Fresh g o) (t.elem_of.generation == s.audio_generation) _ _
          record { gen = f.gen; events = tt; holds = f.holds }
          record { gen = f.gen; events = calls_end-All g o t.elem_of _; holds = f.holds })
        f

  pub sorting-Fresh :
      (ts : List (Task F T E)) (s : Sender F T E) → Fresh g o ([], s) → Fresh g o (sorting ts s)
  sorting-Fresh [] s f = f
  sorting-Fresh (t ∷ ts) s f = record { gen = f.gen; events = tt; holds = f.holds }

  pub forward-Fresh :
      (l : Delayer F T E) (s : Sender F T E) → Fresh g o ([], s) → Fresh g o (forward l s)
  unfolding forward
  forward-Fresh awaiting s f = f
  forward-Fresh gone s f = f
  forward-Fresh (forwarding x) s f =
      if_both (Fresh g o) (ltb (length s.ready_queue) queue_cap) _ _
        record { gen = f.gen; events = tt; holds = f.holds } f

  abandons-All : (ts : List (Task F T E)) → All (Current g o) (abandons ts)
  unfolding abandons
  abandons-All [] = tt
  abandons-All (t ∷ ts) = (tt, abandons-All ts)

  pub end_delayed-Fresh :
      (w : Answer E) (l : Delayer F T E) (s : Sender F T E)
      → Fresh g o ([], s)
      → Fresh g o (end_delayed w l s)
  unfolding end_delayed
  end_delayed-Fresh w awaiting s f = record {
    gen = f.gen;
    events = abandons-All s.pending;
    holds = f.holds;
  }
  end_delayed-Fresh w gone s f = f
  end_delayed-Fresh w (forwarding x) s f = record {
    gen = f.gen;
    events =
        All-append (Current g o) (calls_end x (some w.ctx_err)) (abandons s.pending)
          (calls_end-All g o x _) (abandons-All s.pending);
    holds = f.holds;
  }

  pub delay-Fresh : (p : Phase F T E) (s : Sender F T E) → Fresh g o ([], s) → Fresh g o (delay p s)
  unfolding delay
  delay-Fresh selecting s f = f
  delay-Fresh exited s f = f
  delay-Fresh (pacing x at) s f = f
  delay-Fresh (tailing at) s f = f
  delay-Fresh (padding at) s f = f
  delay-Fresh (delaying t) s f =
      if_both (Fresh g o) (ltb (length s.delayed_queue) queue_cap) _ _
        record { gen = f.gen; events = tt; holds = tt } f
  -- The steps of the others.
