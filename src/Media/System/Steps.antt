-- ===== src/Media/System/Steps.antt =====
-- internal/app/server/chat/media_player.go: the balance of exclusive playback in the steps of playbacks.
use xiaozhi_esp32_server_gol.Common.{
  ℕ, zero, suc, ◌<◌, ◌≡◌, refl, String, Bool, Option, none, some, ◌∷◌, arith, if◌then◌else◌,
  if_both,
}
use xiaozhi_esp32_server_gol.Common.Int.{ℤ, pos, negsuc}
use xiaozhi_esp32_server_gol.Media.Sources.{Item, Texts}
use xiaozhi_esp32_server_gol.Media.{
  Runtime, Attachment, starts_sentence, sends_frame, ends_sentence, write, Status, is_active,
}
use xiaozhi_esp32_server_gol.Media.Control.{refresh}
use xiaozhi_esp32_server_gol.Media.Playback.{
  Phase, Track, leaving, resting, pulling, holding, attaching, advancing, claiming, Answer, ok,
  cancels, closes, fails, frame, mark, enter, fail_with, wait_if_paused, prepare, fail_attachment,
  advance,
}
use xiaozhi_esp32_server_gol.Media.Streaming.{
  retry, open_stream, pull, wait_for, start_sentence, send_frame, end_sentence, await_end,
}
use xiaozhi_esp32_server_gol.Media.System.Exclusive.{
  View, view, Inv, Kept, stay-Kept, trans-Kept, calls-Kept, Kept-Inv, phase-Inv, grip,
}
use xiaozhi_esp32_server_gol.Media.System.Requests.{
  Keeps, refl-Kept, fail_attachment-Kept, fail_attachment-next,
}

-- A step that neither begins nor takes note of an exclusive playback.
pub record Plain (r : Runtime) (x : Phase × Runtime) : Type 0 where
  pub keeps : Keeps r x.1
  pub free : (k : ℕ) → grip k x.0 ≡ 0

pub Plain-Inv :
    (p : ℕ) (f : ℕ → Phase) (r : Runtime) (x : Phase × Runtime)
    → p < r.next
    → ((k : ℕ) → grip k (f p) ≡ 0)
    → Plain r x
    → Inv (view r) f
    → Inv (view x.1) (write f p x.0)
Plain-Inv p f r x l g d i =
    Kept-Inv (view r) (view x.1) (write f p x.0) d.keeps (phase-Inv (view r) f p x.0 l g d.free i)

pub same-Plain : (ph : Phase) (r : Runtime) → ((k : ℕ) → grip k ph ≡ 0) → Plain r (ph, r)
same-Plain ph r g = record { keeps = refl-Kept (view r); free = g }

pub branch-Plain :
    (b : Bool) (x y : Phase × Runtime) (r : Runtime)
    → Plain r x
    → Plain r y
    → Plain r (if b then x else y)
branch-Plain b x y r = if_both (Plain r) b x y

-- The current playback ends.
ends-Kept : (v : View) → Kept v (record v { active = none })
ends-Kept v =
    stay-Kept v (record v { active = none }) refl refl (λ p x. ground (arith, x)) (λ p x. x) refl

module _ (t : Texts) (p : ℕ) where
  pub mark-Kept : (status : Status) (err : String) (r : Runtime) → Keeps r (mark t p status err r)
  unfolding mark refresh
  mark-Kept status err r =
      if_both (Keeps r) (is_active p r.active) _ _ (ends-Kept (view r)) (refl-Kept (view r))

  pub fail-Plain : (v : Answer) (r : Runtime) → Plain r (fail_with t p v r)
  fail-Plain (fails e) r = record { keeps = mark-Kept _ e r; free = λ k. refl }
  fail-Plain ok r = record { keeps = mark-Kept _ "" r; free = λ k. refl }
  fail-Plain cancels r = record { keeps = mark-Kept _ "" r; free = λ k. refl }
  fail-Plain closes r = record { keeps = mark-Kept _ "" r; free = λ k. refl }
  fail-Plain (frame n) r = record { keeps = mark-Kept _ "" r; free = λ k. refl }

  pub wait-Plain :
      (here next : Phase) (r : Runtime)
      → ((k : ℕ) → grip k here ≡ 0)
      → ((k : ℕ) → grip k next ≡ 0)
      → Plain r (wait_if_paused t p here next r)
  unfolding wait_if_paused
  wait-Plain here next r g h =
      branch-Plain (r.heap p).paused _ _ r
        (branch-Plain (r.heap p).cancelled _ _ r (fail-Plain cancels r) (same-Plain here r g))
        (same-Plain next r h)

  pub enter-Plain : (i : ℤ) (r : Runtime) → Plain r (enter p i r)
  unfolding enter
  enter-Plain (pos i) r = record {
    keeps = refl-Kept (view r);
    free = λ k. if_both (λ ph. grip k ph ≡ 0) (is_active p r.active) _ _ refl refl;
  }
  enter-Plain (negsuc i) r = same-Plain leaving r (λ k. refl)

  pub prepare-Plain : (i : ℤ) (o : Option Item) (r : Runtime) → Plain r (prepare t p i o r)
  unfolding prepare refresh
  prepare-Plain i none r = same-Plain leaving r (λ k. refl)
  prepare-Plain i (some item) r =
      branch-Plain (is_active p r.active) _ _ r
        record { keeps = refl-Kept (view r); free = λ k. refl } (same-Plain leaving r (λ k. refl))

  pub advance-Plain : (i : ℤ) (o : Option Item) (r : Runtime) → Plain r (advance t p i o r)
  unfolding advance refresh
  advance-Plain i none r =
      branch-Plain (is_active p r.active) _ _ r
        record { keeps = ends-Kept (view r); free = λ k. refl } (same-Plain leaving r (λ k. refl))
  advance-Plain i (some item) r =
      branch-Plain (is_active p r.active) _ _ r
        record { keeps = refl-Kept (view r); free = λ k. refl } (same-Plain leaving r (λ k. refl))

  pub retry-Plain : (k : Track) (a : Attachment) (r : Runtime) → Plain r (retry p k a r)
  retry-Plain k a r = record { keeps = fail_attachment-Kept p a r; free = λ j. refl }

  pub open-Plain : (k : Track) (v : Answer) (r : Runtime) → Plain r (open_stream t p k v r)
  open-Plain k ok r = same-Plain (resting k) r (λ j. refl)
  open-Plain k cancels r = fail-Plain cancels r
  open-Plain k closes r = fail-Plain closes r
  open-Plain k (fails e) r = fail-Plain (fails e) r
  open-Plain k (frame n) r = fail-Plain (frame n) r

  pub pull-Plain : (k : Track) (v : Answer) (r : Runtime) → Plain r (pull t p k v r)
  pull-Plain k (frame zero) r = same-Plain (resting k) r (λ j. refl)
  pull-Plain k (frame (suc n)) r = same-Plain (holding k) r (λ j. refl)
  pull-Plain k cancels r =
      branch-Plain (r.heap p).cancelled _ _ r (fail-Plain cancels r)
        (same-Plain (pulling k) r (λ j. refl))
  pull-Plain k closes r = record {
    keeps = refl-Kept (view r);
    free = λ j. if_both (λ ph. grip j ph ≡ 0) k.enqueued_frames _ _ refl refl;
  }
  pull-Plain k ok r = same-Plain (pulling k) r (λ j. refl)
  pull-Plain k (fails e) r = same-Plain (pulling k) r (λ j. refl)

  pub wait_for-Plain :
      (k : Track) (o : Option Attachment) (r : Runtime) → Plain r (wait_for t p k o r)
  wait_for-Plain k (some a) r = same-Plain (claiming k a) r (λ j. refl)
  wait_for-Plain k none r =
      branch-Plain (r.heap p).cancelled _ _ r (fail-Plain cancels r)
        (same-Plain (attaching k) r (λ j. refl))

  pub start-Plain :
      (k : Track) (a : Attachment) (v : Answer) (r : Runtime) → Plain r (start_sentence t p k a v r)
  start-Plain k a ok r = record {
    keeps = calls-Kept (view r) (starts_sentence a.ref ∷ r.calls) (λ j. refl) (λ j. refl);
    free = λ j. refl;
  }
  start-Plain k a cancels r = retry-Plain k a r
  start-Plain k a closes r = retry-Plain k a r
  start-Plain k a (fails e) r = retry-Plain k a r
  start-Plain k a (frame n) r = retry-Plain k a r

  pub send-Plain :
      (k : Track) (a : Attachment) (v : Answer) (r : Runtime) → Plain r (send_frame t p k a v r)
  send-Plain k a ok r = record {
    keeps =
        let c = calls-Kept (view r) (sends_frame a.ref ∷ r.calls) (λ j. refl) (λ j. refl) in
        if_both (Keeps r) (is_active p r.active) _ _ c c;
    free = λ j. refl;
  }
  send-Plain k a cancels r = retry-Plain k a r
  send-Plain k a closes r = retry-Plain k a r
  send-Plain k a (fails e) r = retry-Plain k a r
  send-Plain k a (frame n) r = retry-Plain k a r

  -- A failed end of the sentence, and then the end of the playback.
  lost-Plain :
      (a : Attachment) (v : Answer) (r : Runtime)
      → Plain r (fail_with t p v (fail_attachment p a r))
  lost-Plain a v r =
      let d = fail-Plain v (fail_attachment p a r) in
      record {
        keeps =
            trans-Kept (view r) (view (fail_attachment p a r)) _ (fail_attachment-next p a r)
              (fail_attachment-Kept p a r) d.keeps;
        free = d.free;
      }

  pub end-Plain :
      (k : Track) (o : Option Attachment) (v : Answer) (r : Runtime)
      → Plain r (end_sentence t p k o v r)
  end-Plain k none v r = same-Plain (advancing k) r (λ j. refl)
  end-Plain k (some a) ok r = record {
    keeps = calls-Kept (view r) (ends_sentence a.ref ∷ r.calls) (λ j. refl) (λ j. refl);
    free = λ j. refl;
  }
  end-Plain k (some a) cancels r = lost-Plain a cancels r
  end-Plain k (some a) closes r = lost-Plain a closes r
  end-Plain k (some a) (fails e) r = lost-Plain a (fails e) r
  end-Plain k (some a) (frame n) r = lost-Plain a (frame n) r

  pub await-Plain : (k : Track) (v : Answer) (r : Runtime) → Plain r (await_end t p k v r)
  await-Plain k ok r = same-Plain (advancing k) r (λ j. refl)
  await-Plain k cancels r = fail-Plain cancels r
  await-Plain k closes r = fail-Plain closes r
  await-Plain k (fails e) r = fail-Plain (fails e) r
  await-Plain k (frame n) r = fail-Plain (frame n) r
