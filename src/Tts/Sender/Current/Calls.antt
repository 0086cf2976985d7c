-- ===== src/Tts/Sender/Current/Calls.antt =====
-- internal/app/server/chat/tts.go: the generations of what is sent, in the parts of a step.
use xiaozhi_esp32_server_gol.Common.{
  ℕ, ◌≡◌, ◌∙◌, Bool, Option, none, some, List, [], ◌∷◌, ◌==◌, ==_iff, if_both, if_given, is_some,
  arith, ◌⊎◌, All, All-append,
}
use xiaozhi_esp32_server_gol.Tts.{
  Kind, frame, sentence_start, sentence_end, tts_start, tts_stop, media_frame, Elem,
}
use xiaozhi_esp32_server_gol.Tts.Sender.{
  Phase, pacing, Sender, Event, audio_sent, sentence_start_sent, sentence_end_sent, Answer, Ran,
  calls_end, calls_error, calls_start, finish_stop, finish_pending, drained, drained_all,
  speak_start, speak_end, speak_sentence, handle_delayed,
}

-- The frame that waits for its time.
abbrev pub held : {F T E : Type 0} → Phase F T E → Option (Elem F T E)
held (pacing x at) = some x
held _ = none

module _ {F T E : Type 0} (g : ℕ) (o : Option (Elem F T E)) where
  -- A frame of the generation `g`, or the one that waited.
  abbrev pub Due : Elem F T E → Type 0
  Due x = (x.generation ≡ g) ⊎ (o ≡ some x)

  -- Texts are of the generation `g`, and frames are due.
  abbrev pub Current : Event F T E → Type 0
  Current (audio_sent x) = Due x
  Current (sentence_start_sent x t) = x.generation ≡ g
  Current (sentence_end_sent x t) = x.generation ≡ g
  Current _ = Unit

  abbrev pub HoldsDue : Phase F T E → Type 0
  HoldsDue (pacing x at) = Due x
  HoldsDue _ = Unit

  pub record Fresh (r : Ran F T E) : Type 0 where
    pub gen : r.1.audio_generation ≡ g
    pub events : All Current r.0
    pub holds : HoldsDue r.1.phase

  pub calls_end-All : (x : Elem F T E) (e : Option E) → All Current (calls_end x e)
  calls_end-All x e = if_both (All Current) (is_some x.on_end) _ _ (tt, tt) tt

  pub calls_error-All : (x : Elem F T E) (e : E) → All Current (calls_error x e)
  calls_error-All x e = if_both (All Current) (is_some x.on_error) _ _ (tt, tt) tt

  pub drained-All : (c : E) (xs : List (Elem F T E)) → All Current (drained c xs)
  unfolding drained
  drained-All c [] = tt
  drained-All c (x ∷ xs) =
      All-append Current (calls_end x (some c)) (drained c xs) (calls_end-All x _)
        (drained-All c xs)

  pub drained_all-All : (c : E) (s : Sender F T E) → All Current (drained_all c s)
  drained_all-All c s =
      All-append Current (drained c s.audio_queue) (drained c s.ready_queue) (drained-All c _)
        (drained-All c _)

  pub speak_start-All :
      (x : Elem F T E) (t : Option T) (e : Option E)
      → x.generation ≡ g
      → All Current (speak_start x t e)
  unfolding speak_start
  speak_start-All x none e h = tt
  speak_start-All x (some t) none h = (h, tt)
  speak_start-All x (some t) (some e) h =
      All-append Current (calls_error x e) _ (calls_error-All x e) (calls_end-All x _)

  pub speak_end-All :
      (x : Elem F T E) (t : Option T) (e : Option E)
      → x.generation ≡ g
      → All Current (speak_end x t e)
  unfolding speak_end
  speak_end-All x none e h = calls_end-All x x.err
  speak_end-All x (some t) none h = (h, calls_end-All x x.err)
  speak_end-All x (some t) (some e) h =
      All-append Current (calls_error x e) _ (calls_error-All x e) (calls_end-All x _)

  pub speak_sentence-All :
      (k : Kind) (w : Answer E) (x : Elem F T E)
      → x.generation ≡ g
      → All Current (speak_sentence k w x)
  unfolding speak_sentence
  speak_sentence-All sentence_start w x h =
      All-append Current (calls_start x) _
        (if_both (All Current) (is_some x.on_start) _ _ (tt, tt) tt)
        (speak_start-All x x.text w.send_err h)
  speak_sentence-All sentence_end w x h = speak_end-All x x.text w.send_err h
  speak_sentence-All frame w x h = tt
  speak_sentence-All media_frame w x h = tt
  speak_sentence-All tts_start w x h = tt
  speak_sentence-All tts_stop w x h = tt

  pub handle_delayed-All :
      (c : E) (w : Answer E) (x : Elem F T E) (s : Sender F T E)
      → s.audio_generation ≡ g
      → All Current (handle_delayed c w x s)
  unfolding handle_delayed
  handle_delayed-All c w x s h =
      if_given (All Current) (x.generation == s.audio_generation) _ _
        (λ e. speak_sentence-All x.kind w x ((==_iff x.generation s.audio_generation).0 e ∙ h))
        (λ _. calls_end-All x (some c))

  pub finish_stop-Fresh :
      (w : Answer E) (b : Bool) (e : Option E) (s : Sender F T E)
      → Fresh ([], s)
      → Fresh (finish_stop w b e s)
  unfolding finish_stop
  finish_stop-Fresh w b e s f = record {
    gen = ground (arith, f.gen);
    events = ground arith;
    holds = ground (arith, f.holds);
  }

  pub finish_pending-Fresh :
      (w : Answer E) (s : Sender F T E) → Fresh ([], s) → Fresh (finish_pending w s)
  unfolding finish_pending
  finish_pending-Fresh w s f =
      if_both Fresh s.stop_pending _ _
        (finish_stop-Fresh w s.stop_sends s.stop_err _
          record { gen = f.gen; events = tt; holds = f.holds })
        f
