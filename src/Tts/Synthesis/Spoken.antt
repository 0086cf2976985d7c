-- ===== src/Tts/Synthesis/Spoken.antt =====
-- internal/app/server/chat/tts.go: what handleTts opens and settles.
use xiaozhi_esp32_server_gol.Common.{
  ℕ, ◌+◌, ◌≡◌, refl, ap, Bool, true, false, Option, none, some, List, [], ◌∷◌, ◌++◌, map, arith,
  All, All-append, append_assoc, bit, is_some, inl, inr, Bool-cases, if◌then◌else◌, count_if,
  count_if-append,
}
use xiaozhi_esp32_server_gol.Tts.{Elem}
use xiaozhi_esp32_server_gol.Tts.Synthesis.{
  Sent, queued, refused, Response, Answer, no_provider, no_stream, no_channel, streaming, Course,
  done, closed, audio, Effect, acquired, released, request_started, first_audio, request_finished,
  end_called, call_end, last_elem, cancelled, start_elem, end_elem, frame_elem, reporting, play,
  speak, speak_answer, generate, or_end, handle_tts,
}

abbrev pub once : Option ℕ → ℕ
once k = bit (is_some k)

-- A course on which nothing is cancelled.
abbrev pub plays : {F E : Type 0} → List F → Course F E
plays [] = closed queued none
plays (f ∷ fs) = audio f queued (plays fs)

module _ {F T E : Type 0} where
  abbrev pub is_acquired : Effect F T E → Bool
  is_acquired acquired = true
  is_acquired _ = false

  abbrev pub is_released : Effect F T E → Bool
  is_released released = true
  is_released _ = false

  abbrev pub is_started : Effect F T E → Bool
  is_started request_started = true
  is_started _ = false

  abbrev pub is_finished : Effect F T E → Bool
  is_finished (request_finished e) = true
  is_finished _ = false

  -- The end of an item is called, or goes with an element.
  abbrev pub is_end : Effect F T E → Bool
  is_end (end_called k e) = true
  is_end (queued x) = is_some x.on_end
  is_end _ = false

  abbrev pub queued_of : List (Effect F T E) → List (Elem F T E)
  queued_of [] = []
  queued_of (queued x ∷ es) = x ∷ queued_of es
  queued_of (_ ∷ es) = queued_of es

  pub queued_of-append :
      (xs ys : List (Effect F T E)) → queued_of (xs ++ ys) ≡ queued_of xs ++ queued_of ys
  queued_of-append [] ys = refl
  queued_of-append (acquired ∷ xs) ys = queued_of-append xs ys
  queued_of-append (released ∷ xs) ys = queued_of-append xs ys
  queued_of-append (request_started ∷ xs) ys = queued_of-append xs ys
  queued_of-append (first_audio ∷ xs) ys = queued_of-append xs ys
  queued_of-append (request_finished e ∷ xs) ys = queued_of-append xs ys
  queued_of-append (end_called k e ∷ xs) ys = queued_of-append xs ys
  queued_of-append (queued x ∷ xs) ys = ap (λ l. x ∷ l) (queued_of-append xs ys)

  abbrev OfGen : ℕ → Elem F T E → Type 0
  OfGen g x = x.generation ≡ g

  -- With `a` providers and `r` requests open the effects release all providers and finish all but `u`
  -- of the requests, give the end of the item `n` times, and queue elements of the generation `g`
  -- only.
  pub record Opened (g a r u n : ℕ) (es : List (Effect F T E)) : Type 0 where
    pub providers : count_if is_released es ≡ a + count_if is_acquired es
    pub requests : count_if is_finished es + u ≡ r + count_if is_started es
    pub item_ends : count_if is_end es ≡ n
    pub of_gen : All (OfGen g) (queued_of es)

  -- The same where every request is finished.
  abbrev pub Settled : ℕ → ℕ → ℕ → ℕ → List (Effect F T E) → Type 0
  Settled g a r n es = Opened g a r 0 n es

  pub Settled-after :
      {g a r u n a' r' n' : ℕ} (xs : List (Effect F T E)) {ys : List (Effect F T E)}
      → count_if is_released xs + a' ≡ a + count_if is_acquired xs
      → count_if is_finished xs + r' ≡ r + count_if is_started xs
      → count_if is_end xs + n' ≡ n
      → All (OfGen g) (queued_of xs)
      → Opened g a' r' u n' ys
      → Opened g a r u n (xs ++ ys)
  Settled-after {g} xs {ys} p q e s t = record {
    providers = omega (
      arith,
      p,
      t.providers,
      count_if-append is_released xs ys,
      count_if-append is_acquired xs ys,
    );
    requests =
        omega (
          arith,
          q,
          t.requests,
          count_if-append is_finished xs ys,
          count_if-append is_started xs ys,
        );
    item_ends = omega (arith, e, t.item_ends, count_if-append is_end xs ys);
    of_gen =
        rw (queued_of-append xs ys) (All-append (OfGen g) (queued_of xs) (queued_of ys) s t.of_gen);
  }

  pub call_end-Settled :
      (g : ℕ) (k : Option ℕ) (e : Option E) → Settled g 0 0 (once k) (call_end k e)
  unfolding call_end
  call_end-Settled g none e = record {
    providers = refl;
    requests = refl;
    item_ends = refl;
    of_gen = tt;
  }
  call_end-Settled g (some k) e = record {
    providers = refl;
    requests = refl;
    item_ends = refl;
    of_gen = tt;
  }

  pub cancelled-Settled : (g : ℕ) (k : Option ℕ) (e : E) → Settled g 1 1 (once k) (cancelled k e).0
  cancelled-Settled g k e =
      Settled-after (released ∷ request_finished (some e) ∷ []) (omega arith) (omega arith)
        (omega arith) tt (call_end-Settled g k (some e))

  pub reporting-Settled :
      {g a r u n : ℕ} (b : Bool) {ys : List (Effect F T E)}
      → Opened g a r u n ys
      → Opened g a r u n (reporting b ++ ys)
  reporting-Settled true s = s
  reporting-Settled false s =
      Settled-after (first_audio ∷ []) (omega arith) (omega arith) (omega arith) tt s

  pub queued-Settled :
      {g a r u n : ℕ} (x : Elem F T E) {ys : List (Effect F T E)}
      → x.generation ≡ g
      → x.on_end ≡ none
      → Opened g a r u n ys
      → Opened g a r u n (queued x ∷ ys)
  queued-Settled x h e s =
      Settled-after (queued x ∷ []) (omega arith) (omega arith) (ground arith) (h, tt) s

  pub last_elem-Settled :
      (g : ℕ) (x : Elem F T E) (k : Option ℕ) (e : Option E) (s : Sent E)
      → x.generation ≡ g
      → Settled g 0 0 (once k) (last_elem x k e s)
  unfolding last_elem
  last_elem-Settled g x k e queued h = record {
    providers = refl;
    requests = refl;
    item_ends = omega arith;
    of_gen = (h, tt);
  }
  last_elem-Settled g x k e (refused d) h = call_end-Settled g k e

  play-Settled :
      (g : ℕ) (k : Option ℕ) (t : T) (b : Bool) (c : Course F E)
      → Settled g 1 1 (once k) (play g k t b c).0
  unfolding play last_elem
  play-Settled g k t b (done e) = cancelled-Settled g k e
  play-Settled g k t b (closed queued e) =
      Settled-after (released ∷ request_finished none ∷ []) (omega arith) (omega arith)
        (omega arith) tt (last_elem-Settled g (end_elem g (some t)) k none queued refl)
  play-Settled g k t b (closed (refused e) e') =
      Settled-after (released ∷ request_finished none ∷ []) (omega arith) (omega arith)
        (omega arith) tt (call_end-Settled g k (some e))
  play-Settled g k t b (audio f queued c) =
      rw (append_assoc (reporting b) (queued (frame_elem g f) ∷ []) (play g k t true c).0) (
        reporting-Settled b (queued-Settled (frame_elem g f) refl refl (play-Settled g k t true c)))
  play-Settled g k t b (audio f (refused e) c) = reporting-Settled b (cancelled-Settled g k e)

  speak-Settled :
      (g : ℕ) (s k : Option ℕ) (r : Response T) (sent : Sent E) (c : Course F E)
      → Settled g 1 1 (once k) (speak g s k r sent c).0
  unfolding speak
  speak-Settled g s k r queued c =
      queued-Settled (start_elem g r s) refl refl (play-Settled g k r.text false c)
  speak-Settled g s k r (refused e) c = cancelled-Settled g k e

  play-plays :
      (g : ℕ) (k : Option ℕ) (t : T) (b : Bool) (fs : List F)
      → queued_of (play g k t b (plays fs)).0
        ≡ map (frame_elem g) fs ++ record (end_elem {E = E} g (some t)) { on_end = k } ∷ []
  unfolding play
  play-plays g k t b [] = refl
  play-plays g k t true (f ∷ fs) = ap (λ l. frame_elem g f ∷ l) (play-plays g k t true fs)
  play-plays g k t false (f ∷ fs) = ap (λ l. frame_elem g f ∷ l) (play-plays g k t true fs)

-- The requests of one answer that are not finished.
abbrev pub left_open : {E : Type 0} → Answer E → ℕ
left_open no_channel = 1
left_open _ = 0

module _ {F T E : Type 0} (generate_failed : E → E) where
  spoken-Opened :
      (g : ℕ) (s k : Option ℕ) (x : Response T) (a : Answer E) (sent : Sent E) (c : Course F E)
      → Opened g 0 0
          (left_open a)
          (once k)
          (or_end k (generate generate_failed a) (speak_answer a g s k x sent c)).0
  unfolding generate speak_answer
  spoken-Opened g s k x (no_provider e) sent c = call_end-Settled g k (some e)
  spoken-Opened g s k x (no_stream e) sent c =
      Settled-after (acquired ∷ request_started ∷ released ∷ request_finished (some e) ∷ [])
        (omega arith) (omega arith) (omega arith) tt (call_end-Settled g k _)
  spoken-Opened g s k x no_channel sent c =
      let v : Settled {F = F} {T = T} g 0 0 (once k) (call_end {E = E} k none) =
        call_end-Settled g k none in
      record {
        providers = omega (arith, v.providers);
        requests = omega (arith, v.requests);
        item_ends = omega (arith, v.item_ends);
        of_gen = v.of_gen;
      }
  spoken-Opened g s k x streaming sent c =
      Settled-after (acquired ∷ request_started ∷ []) (omega arith) (omega arith) (omega arith) tt
        (speak-Settled g s k x sent c)

module _ {F T E : Type 0} (is_blank : T → Bool) (generate_failed : E → E) where
  -- However the provider, the context and the audio queue answer, handleTts releases the provider
  -- that it acquired, finishes the request that it started but for one whose provider gives no
  -- channel, gives the end of its item exactly once, by a call or with the last element that it
  -- queues, and queues elements of its generation only.
  pub handle_tts-Settled :
      (g : ℕ) (s k : Option ℕ) (r : Response T) (a : Answer E) (sent : Sent E) (c : Course F E)
      → Opened g 0 0
          (if is_blank r.text then 0 else left_open a)
          (once k)
          (handle_tts is_blank generate_failed g s k r a sent c).0
  unfolding handle_tts
  handle_tts-Settled g s k r a sent c = elim (Bool-cases (is_blank r.text)) [
    | inl e ↦ rw e (call_end-Settled g k none)
    | inr e ↦ rw e (spoken-Opened generate_failed g s k r a sent c)
  ]

  -- Where the provider has a stream and nothing is cancelled, handleTts queues the start with the
  -- text, a frame for each of the stream's in order, and the end with the end of the item.
  pub handle_tts_elems :
      (g : ℕ) (s k : Option ℕ) (r : Response T) (fs : List F)
      → is_blank r.text ≡ false
      → queued_of (handle_tts is_blank generate_failed g s k r streaming queued (plays fs)).0
        ≡ start_elem g r s ∷ map (frame_elem g) fs
          ++ record (end_elem {E = E} g (some r.text)) { on_end = k } ∷ []
  unfolding handle_tts generate speak speak_answer
  handle_tts_elems g s k r fs n =
      rw n (ap (λ l. start_elem g r s ∷ l) (play-plays g k r.text false fs))
