-- ===== src/Tts/Sender/Pace/Counts.antt =====
-- internal/app/server/chat/tts.go: the frames that are sent.
use xiaozhi_esp32_server_gol.Common.{
  ℕ, ◌≡◌, refl, Bool, true, count_if, count_if-append, ◌+◌, false, Option, none, some, List, [],
  ◌∷◌, ◌++◌, if_both, arith,
}
use xiaozhi_esp32_server_gol.Tts.{Elem}
use xiaozhi_esp32_server_gol.Tts.Sender.{
  Task, Phase, Delayer, awaiting, gone, forwarding, Sender, Event, audio_sent, Answer, Ran,
  calls_end, calls_error, finish_stop, finish_pending, drained, drained_all, emptied, exit_loop,
  speak_start, speak_end, speak_sentence, handle_delayed,
}
use xiaozhi_esp32_server_gol.Tts.Sender.Loop.{delay, fire, forward, abandons, end_delayed, sorting}
use xiaozhi_esp32_server_gol.Tts.Sender.History.{Action, step}

-- A count that counts nothing without a tail.
abbrev pub played : Option ℕ → ℕ → ℕ
played none n = 0
played (some p) n = n

played-still : (o : Option ℕ) (n m : ℕ) → m ≡ 0 → played o n ≡ played o (played o n + m)
played-still none n m h = refl
played-still (some p) n m h = omega (arith, h)

module _ {F T E : Type 0} where
  abbrev pub is_audio : Event F T E → Bool
  is_audio (audio_sent x) = true
  is_audio _ = false

  -- The frames among the events.
  abbrev pub sent : List (Event F T E) → ℕ
  sent es = count_if is_audio es

  -- The frames of a history, which begins with `n`, since the tail of the playback was last cleared.
  abbrev pub frames_since : E → ℕ → List (Action F T E × Answer E) → Sender F T E → ℕ → ℕ
  frames_since c d [] s n = n
  frames_since c d ((a, w) ∷ xs) s n =
      let r = step c d a w s in frames_since c d xs r.1 (played r.1.playback_tail (n + sent r.0))

  abbrev pub Sound : Sender F T E → Type 0
  Sound s = s.total_frames ≡ played s.playback_tail s.total_frames

  abbrev pub Counts : Sender F T E → Ran F T E → Type 0
  Counts s r =
      played r.1.playback_tail r.1.total_frames
      ≡ played r.1.playback_tail (played s.playback_tail s.total_frames + sent r.0)

  pub sent-append : (xs ys : List (Event F T E)) → sent (xs ++ ys) ≡ sent xs + sent ys
  sent-append xs ys = count_if-append is_audio xs ys

  -- A step that sends no frame and leaves the tail and the count of frames.
  pub record Still (s : Sender F T E) (r : Ran F T E) : Type 0 where
    pub tail : r.1.playback_tail ≡ s.playback_tail
    pub total : r.1.total_frames ≡ s.total_frames
    pub quiet : sent r.0 ≡ 0

  pub Still-Counts : (s : Sender F T E) (r : Ran F T E) → Still s r → Counts s r
  Still-Counts s r v =
      rw (v.tail, v.total) (played-still s.playback_tail s.total_frames (sent r.0) v.quiet)

  -- The same state but for its other fields, with events that send nothing.
  pub quiet-Counts : (s : Sender F T E) (es : List (Event F T E)) → sent es ≡ 0 → Counts s (es, s)
  quiet-Counts s es h = played-still s.playback_tail s.total_frames (sent es) h

  pub sent-calls_end : (x : Elem F T E) (e : Option E) → sent (calls_end x e) ≡ 0
  sent-calls_end x e = ground arith

  pub sent-calls_error : (x : Elem F T E) (e : E) → sent (calls_error x e) ≡ 0
  sent-calls_error x e = ground arith

  sent-drained : (c : E) (xs : List (Elem F T E)) → sent (drained c xs) ≡ 0
  unfolding drained
  sent-drained c [] = refl
  sent-drained c (x ∷ xs) = omega (
    arith,
    sent-append (calls_end x (some c)) (drained c xs),
    sent-calls_end x (some c),
    sent-drained c xs,
  )

  sent-drained_all : (c : E) (s : Sender F T E) → sent (drained_all c s) ≡ 0
  sent-drained_all c s = omega (
    arith,
    sent-append (drained c s.audio_queue) (drained c s.ready_queue),
    sent-drained c s.audio_queue,
    sent-drained c s.ready_queue,
  )

  pub sent-handle_delayed :
      (c : E) (w : Answer E) (x : Elem F T E) (s : Sender F T E) → sent (handle_delayed c w x s) ≡ 0
  unfolding handle_delayed speak_sentence speak_start speak_end
  sent-handle_delayed c w x s = ground arith

  sent-abandons : (ts : List (Task F T E)) → sent (abandons ts) ≡ 0
  unfolding abandons
  sent-abandons [] = refl
  sent-abandons (t ∷ ts) = omega (arith, sent-abandons ts)

  pub finish_stop-Still :
      (w : Answer E) (b : Bool) (e : Option E) (s : Sender F T E) → Still s (finish_stop w b e s)
  unfolding finish_stop
  finish_stop-Still w b e s = record {
    tail = ground arith;
    total = ground arith;
    quiet = ground arith;
  }

  pub finish_pending-Still : (w : Answer E) (s : Sender F T E) → Still s (finish_pending w s)
  unfolding finish_pending
  finish_pending-Still w s =
      let t = record s { stop_pending = false; stop_sends = false; stop_err = none } in
      let v = finish_stop-Still w s.stop_sends s.stop_err t in
      if_both (Still s) s.stop_pending _ _
        record { tail = v.tail; total = v.total; quiet = v.quiet }
        record { tail = refl; total = refl; quiet = refl }

  pub exit_loop-Still : (c : E) (w : Answer E) (s : Sender F T E) → Still s (exit_loop c w s)
  unfolding exit_loop
  exit_loop-Still c w s =
      let v = finish_stop-Still w true (some w.ctx_err) (emptied s) in
      record {
        tail = v.tail;
        total = v.total;
        quiet = omega (
          arith,
          sent-append (drained_all c s) (finish_stop w true (some w.ctx_err) (emptied s)).0,
          sent-drained_all c s,
          v.quiet,
        );
      }

  pub delay-Still : (p : Phase F T E) (s : Sender F T E) → Still s (delay p s)
  unfolding delay
  delay-Still p s = record { tail = ground arith; total = ground arith; quiet = ground arith }

  pub fire-Still :
      (c : E) (w : Answer E) (ts : List (Task F T E)) (s : Sender F T E) → Still s (fire c w ts s)
  unfolding fire
  fire-Still c w ts s = record { tail = ground arith; total = ground arith; quiet = ground arith }

  pub sorting-Still : (ts : List (Task F T E)) (s : Sender F T E) → Still s (sorting ts s)
  sorting-Still ts s = record { tail = ground arith; total = ground arith; quiet = ground arith }

  pub forward-Still : (l : Delayer F T E) (s : Sender F T E) → Still s (forward l s)
  unfolding forward
  forward-Still l s = record { tail = ground arith; total = ground arith; quiet = ground arith }

  pub end_delayed-Still :
      (w : Answer E) (l : Delayer F T E) (s : Sender F T E) → Still s (end_delayed w l s)
  unfolding end_delayed
  end_delayed-Still w awaiting s = record {
    tail = refl;
    total = refl;
    quiet = sent-abandons s.pending;
  }
  end_delayed-Still w gone s = record { tail = refl; total = refl; quiet = refl }
  end_delayed-Still w (forwarding x) s = record {
    tail = refl;
    total = refl;
    quiet = omega (
      arith,
      sent-append (calls_end x (some w.ctx_err)) (abandons s.pending),
      sent-calls_end x (some w.ctx_err),
      sent-abandons s.pending,
    );
  }
