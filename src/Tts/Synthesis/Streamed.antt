-- ===== src/Tts/Synthesis/Streamed.antt =====
-- internal/app/server/chat/tts.go: what handleStreamTts and handleDualStreamTts open and settle.
use xiaozhi_esp32_server_gol.Common.{
  ℕ, suc, ◌+◌, ◌≡◌, refl, Bool, true, false, Option, none, some, List, [], ◌∷◌, ◌++◌, arith,
  if◌then◌else◌, append_assoc, inl, inr, Bool-cases,
}
use xiaozhi_esp32_server_gol.Tts.{sentence_start, plain}
use xiaozhi_esp32_server_gol.Tts.Synthesis.{
  Sent, queued, refused, Response, Answer, no_provider, no_stream, no_channel, streaming, Course,
  done, closed, audio, Effect, acquired, released, request_started, request_finished, end_called,
  Run, after, call_end, cancelled, start_elem, end_elem, frame_elem, reporting, generate,
}
use xiaozhi_esp32_server_gol.Tts.Synthesis.Responses.{
  Stream, context_done, shut, response, Events, chunk, over, starts, ends, Dual, none_in_pool,
  not_dual, not_started, events, unless_failed, play_part, speak_part, give_up, play_events,
  handle_dual_stream_tts, respond, stream_tts, handle_stream_tts,
}
use xiaozhi_esp32_server_gol.Tts.Synthesis.Spoken.{
  once, Opened, Settled, Settled-after, call_end-Settled, cancelled-Settled, reporting-Settled,
  queued-Settled, last_elem-Settled,
}

-- Whether the end of a response is refused, and whether the loop goes on behind its audio.
abbrev pub lapses_of : {F E : Type 0} → Course F E → ℕ
lapses_of (closed (refused e) e') = 1
lapses_of (audio f queued c) = lapses_of c
lapses_of _ = 0

abbrev pub goes_on : {F E : Type 0} → Course F E → Bool
goes_on (closed sent e) = true
goes_on (audio f queued c) = goes_on c
goes_on _ = false

-- The lapses of one response, with those behind it.
abbrev pub lapses_with : {F E : Type 0} → Answer E → Sent E → Course F E → ℕ → ℕ
lapses_with no_channel _ c rest = rest
lapses_with streaming queued c rest = lapses_of c + (if goes_on c then rest else 0)
lapses_with _ _ c rest = 0

-- The requests of one response that are not finished, with those of the responses behind it.
abbrev pub unfinished_with : {F E : Type 0} → Answer E → Sent E → Course F E → ℕ → ℕ
unfinished_with no_channel _ c rest = suc rest
unfinished_with streaming queued c rest = if goes_on c then rest else 0
unfinished_with _ _ c rest = 0

module _ {F T E : Type 0} (is_blank : T → Bool) where
  -- How often the loop over the responses finds the end of one refused and goes on.
  abbrev pub lapses : Stream F T E → ℕ
  lapses (response r a sent sent' c rest) =
      let n = lapses rest in if is_blank r.text then n else lapses_with a sent c n
  lapses _ = 0

  -- How many requests the loop starts whose provider gives no channel.
  abbrev pub unfinished : Stream F T E → ℕ
  unfinished (response r a sent sent' c rest) =
      let n = unfinished rest in if is_blank r.text then n else unfinished_with a sent c n
  unfinished _ = 0

  abbrev pub unfinished_of_item : Option (Dual F T E) → Stream F T E → ℕ
  unfinished_of_item (some (events es)) c = 0
  unfinished_of_item _ c = unfinished c

  -- None where handleDualStreamTts handles the item.
  abbrev pub lapses_of_item : Option (Dual F T E) → Stream F T E → ℕ
  lapses_of_item (some (events es)) c = 0
  lapses_of_item _ c = lapses c

module _ {F T E : Type 0} where
  counted :
      {g a r u m n : ℕ} {es : List (Effect F T E)}
      → m ≡ n
      → Opened g a r u m es
      → Opened g a r u n es
  counted e s = record {
    providers = s.providers;
    requests = s.requests;
    item_ends = omega (arith, s.item_ends, e);
    of_gen = s.of_gen;
  }

  cancelled_part :
      (g k : ℕ) (e : E) (r : Run F T E) → Settled g 1 1 1 (unless_failed (cancelled (some k) e) r).0
  cancelled_part g k e r = cancelled-Settled g (some k) e

  after-unless_failed :
      (xs : List (Effect F T E)) (p r : Run F T E)
      → (unless_failed (after xs p) r).0 ≡ xs ++ (unless_failed p r).0
  after-unless_failed xs (es, none) r = append_assoc xs es r.0
  after-unless_failed xs (es, some e) r = refl

  play_part-Settled :
      (g u n k : ℕ) (t : T) (b : Bool) (c : Course F E) (r : Run F T E)
      → Opened g 0 0 u (suc n) r.0
      → Opened g 1 1
          (if goes_on c then u else 0)
          (suc (lapses_of c + (if goes_on c then n else 0)))
          (unless_failed (play_part g (some k) t b c) r).0
  unfolding play_part call_end
  play_part-Settled g u n k t b (done e) r s = cancelled-Settled g (some k) e
  play_part-Settled g u n k t b (closed queued e) r s =
      Settled-after (released ∷ request_finished none ∷ []) (omega arith) (omega arith)
        (omega arith) tt
        (queued-Settled (end_elem g (some t)) refl refl (counted {n = suc (0 + n)} (omega arith) s))
  play_part-Settled g u n k t b (closed (refused e) e') r s =
      Settled-after (released ∷ request_finished none ∷ end_called k (some e) ∷ []) (omega arith)
        (omega arith) (omega arith) tt s
  play_part-Settled g u n k t b (audio f queued c) r s =
      let rest = play_part-Settled g u n k t true c r s in
      rw
        (after-unless_failed (reporting b ++ queued (frame_elem g f) ∷ [])
          (play_part g (some k) t true c) r)
        (rw (append_assoc (reporting b))
          (reporting-Settled b (queued-Settled (frame_elem g f) refl refl rest)))
  play_part-Settled g u n k t b (audio f (refused e) c) r s =
      reporting-Settled b (cancelled-Settled g (some k) e)

  speak_part-Settled :
      (g u n k : ℕ) (s : Option ℕ) (x : Response T) (sent : Sent E) (c : Course F E) (r : Run F T E)
      → Opened g 0 0 u (suc n) r.0
      → Opened g 1 1
          (unfinished_with streaming sent c u)
          (suc (lapses_with streaming sent c n))
          (unless_failed (speak_part g s (some k) x sent c) r).0
  unfolding speak_part
  speak_part-Settled g u n k s x queued c r h =
      rw
        (after-unless_failed (queued (start_elem g x s) ∷ []) (play_part g (some k) x.text false c)
          r)
        (queued-Settled (start_elem g x s) refl refl (play_part-Settled g u n k x.text false c r h))
  speak_part-Settled g u n k s x (refused e) c r h = cancelled-Settled g (some k) e

  give_up-Settled :
      (g : ℕ) (first : Bool) (s k : Option ℕ) (e : E) (sent sent' : Sent E)
      → Settled g 0 0 (once k) (give_up {F = F} {T = T} g first s k e sent sent').0
  unfolding give_up
  give_up-Settled g false s k e sent sent' = last_elem-Settled g _ k (some e) sent' refl
  give_up-Settled g true s k e queued sent' =
      queued-Settled (record (plain sentence_start) { generation = g; on_start = s }) refl refl
        (last_elem-Settled g _ k (some e) sent' refl)
  give_up-Settled g true s k e (refused d) sent' = call_end-Settled g k (some d)

  respond-Settled :
      (failed : E → E) (g u n k : ℕ) (s : Option ℕ) (first : Bool) (x : Response T) (a : Answer E)
      (sent sent' : Sent E) (c : Course F E) (z r : Run F T E)
      → Opened g 0 0 u (suc n) z.0
      → Opened g 0 0 u (suc n) r.0
      → Opened g 0 0
          (unfinished_with a sent c u)
          (suc (lapses_with a sent c n))
          (respond g s (some k) first x a sent sent' c (generate failed a) z r).0
  unfolding respond generate
  respond-Settled failed g u n k s first x (no_provider e) sent sent' c z r v h =
      give_up-Settled g first s (some k) e sent sent'
  respond-Settled failed g u n k s first x (no_stream e) sent sent' c z r v h =
      Settled-after (acquired ∷ request_started ∷ released ∷ request_finished (some e) ∷ [])
        (omega arith) (omega arith) (omega arith) tt
        (give_up-Settled g first s (some k) _ sent sent')
  respond-Settled failed g u n k s first x no_channel sent sent' c z r v h = record {
    providers = omega (arith, v.providers);
    requests = omega (arith, v.requests);
    item_ends = omega (arith, v.item_ends);
    of_gen = v.of_gen;
  }
  respond-Settled failed g u n k s first x streaming sent sent' c z r v h =
      Settled-after (acquired ∷ request_started ∷ []) (omega arith) (omega arith) (omega arith) tt
        (speak_part-Settled g u n k (if first then s else none) x sent c r h)

  -- The ends of handleDualStreamTts.
  dual_end-Settled :
      (g : ℕ) (x : Option E) (es : List (Effect F T E))
      → Settled g 0 0 1 es
      → Settled g 1 1 1 (request_finished x ∷ es ++ released ∷ [])
  dual_end-Settled g x es s =
      let last : Settled g 1 0 0 (released ∷ []) = record {
        providers = refl;
        requests = refl;
        item_ends = refl;
        of_gen = tt;
      } in
      let behind : Settled g 1 0 1 (es ++ released ∷ []) =
        Settled-after es (omega (arith, s.providers)) (omega (arith, s.requests))
          (omega (arith, s.item_ends)) s.of_gen last in
      Settled-after (request_finished x ∷ []) (omega arith) (omega arith) (omega arith) tt behind

  play_events-Settled :
      (g k : ℕ) (s : Option ℕ) (first b : Bool) (c : Events F T E)
      → Settled g 1 1 1 (play_events g s (some k) first b c).0
  unfolding play_events
  play_events-Settled g k s first b (over sent e) =
      dual_end-Settled g none _ (last_elem-Settled g (end_elem g none) (some k) none sent refl)
  play_events-Settled g k s first b (ends t queued c) =
      queued-Settled (end_elem g (some t)) refl refl (play_events-Settled g k s first b c)
  play_events-Settled g k s first b (ends t (refused e) c) =
      dual_end-Settled g (some e) _ (call_end-Settled g (some k) (some e))
  play_events-Settled g k s first b (starts t queued c) =
      queued-Settled
        (start_elem g record { text = t; is_start = first } (if first then s else none)) refl refl
        (play_events-Settled g k s false b c)
  play_events-Settled g k s first b (starts t (refused e) c) =
      dual_end-Settled g (some e) _ (call_end-Settled g (some k) (some e))
  play_events-Settled g k s first b (chunk f queued c) = rw (append_assoc (reporting b)) (
      reporting-Settled b
        (queued-Settled (frame_elem g f) refl refl (play_events-Settled g k s first true c)))
  play_events-Settled g k s first b (chunk f (refused e) c) =
      reporting-Settled b (dual_end-Settled g (some e) _ (call_end-Settled g (some k) (some e)))

module _ {F T E : Type 0} (is_blank : T → Bool) (failed : E → E) where
  stream_tts-Settled :
      (g k : ℕ) (s : Option ℕ) (first : Bool) (c : Stream F T E)
      → Opened g 0 0
          (unfinished is_blank c)
          (suc (lapses is_blank c))
          (stream_tts is_blank failed g s (some k) first c).0
  unfolding stream_tts
  stream_tts-Settled g k s first (context_done e sent) =
      last_elem-Settled g _ (some k) (some e) sent refl
  stream_tts-Settled g k s first (shut sent e) = last_elem-Settled g _ (some k) none sent refl
  stream_tts-Settled g k s first (response x a sent sent' c rest) =
      elim (Bool-cases (is_blank x.text)) [
        | inl e ↦ rw e (stream_tts-Settled g k s first rest)
        | inr e ↦ rw e (
            respond-Settled failed g (unfinished is_blank rest) (lapses is_blank rest) k s first x a
              sent sent' c _ _ (stream_tts-Settled g k s first rest)
              (stream_tts-Settled g k s false rest))
      ]

  -- However the providers, the context and the audio queue answer, handleStreamTts, by two streams
  -- or response by response, releases the providers that it acquired, finishes the requests that it
  -- started but for those whose provider gives no channel, and queues elements of its generation
  -- only. The end of its item is given once, and
  -- once more each time that the end of a response was refused and the loop went on.
  pub handle_stream_tts-Settled :
      (g k : ℕ) (s : Option ℕ) (d : Option (Dual F T E)) (c : Stream F T E)
      → Opened g 0 0
          (unfinished_of_item is_blank d c)
          (suc (lapses_of_item is_blank d c))
          (handle_stream_tts is_blank failed g s (some k) d c).0
  unfolding handle_stream_tts handle_dual_stream_tts
  handle_stream_tts-Settled g k s none c = stream_tts-Settled g k s true c
  handle_stream_tts-Settled g k s (some none_in_pool) c = stream_tts-Settled g k s true c
  handle_stream_tts-Settled g k s (some not_dual) c =
      Settled-after (acquired ∷ released ∷ []) (omega arith) (omega arith) (omega arith) tt
        (stream_tts-Settled g k s true c)
  handle_stream_tts-Settled g k s (some (not_started e)) c =
      Settled-after (acquired ∷ request_started ∷ request_finished (some e) ∷ released ∷ [])
        (omega arith) (omega arith) (omega arith) tt (stream_tts-Settled g k s true c)
  handle_stream_tts-Settled g k s (some (events es)) c =
      Settled-after (acquired ∷ request_started ∷ []) (omega arith) (omega arith) (omega arith) tt
        (play_events-Settled g k s true false es)
