-- ===== src/Media/System/Balance.antt =====
-- internal/app/server/chat/media_player.go: exclusive playback in the histories of a player.
use xiaozhi_esp32_server_gol.Common.{
  ℕ, ◌+◌, ◌<◌, ◌≡◌, refl, ap, ◌||◌, List, [], ◌∷◌, ltb, arith, if_given,
}
use xiaozhi_esp32_server_gol.Media.Sources.{Texts, at, is_empty}
use xiaozhi_esp32_server_gol.Media.{Runtime, write, is_attachment, is_active}
use xiaozhi_esp32_server_gol.Media.Playback.{
  Phase, entering, leaving, gone, gating, preparing, opening, resting, pulling, holding, attaching,
  advancing, ending, claiming, begun, starting, writing, awaiting, Answer, cancels, following,
  leave, queue_of, title_of,
}
use xiaozhi_esp32_server_gol.Media.Streaming.{is_same, step}
use xiaozhi_esp32_server_gol.Media.System.{
  Player, Event, requests, runs, happen, history, new_player,
}
use xiaozhi_esp32_server_gol.Media.System.Exclusive.{
  view, Inv, Kept-Inv, grip, holds, in_flight, count_begins, count_ends,
}
use xiaozhi_esp32_server_gol.Media.System.Requests.{leave-Kept}
use xiaozhi_esp32_server_gol.Media.System.Handled.{handle-Kept}
use xiaozhi_esp32_server_gol.Media.System.Steps.{
  Plain-Inv, same-Plain, fail-Plain, wait-Plain, enter-Plain, prepare-Plain, advance-Plain,
  open-Plain, pull-Plain, wait_for-Plain, start-Plain, send-Plain, end-Plain, await-Plain,
  branch-Plain,
}
use xiaozhi_esp32_server_gol.Media.System.Claims.{begin-Inv, claim-Inv}

module _ (t : Texts) (p : ℕ) where
  -- A step of a playback keeps the invariant.
  step-Inv :
      (f : ℕ → Phase) (ph : Phase) (v : Answer) (r : Runtime)
      → p < r.next
      → f p ≡ ph
      → Inv (view r) f
      → Inv (view (step t p ph v r).1) (write f p (step t p ph v r).0)
  unfolding step leave
  step-Inv f entering v r l e i =
      Plain-Inv p f r _ l (λ j. ap (grip j) e) (enter-Plain t p r.playback_index r) i
  step-Inv f (gating x) v r l e i =
      Plain-Inv p f r _ l (λ j. ap (grip j) e)
        (wait-Plain t p (gating x) (preparing x) r (λ j. refl) (λ j. refl)) i
  step-Inv f (preparing x) v r l e i =
      Plain-Inv p f r _ l (λ j. ap (grip j) e) (prepare-Plain t p x (at x (queue_of t r)) r) i
  step-Inv f (opening k) v r l e i =
      Plain-Inv p f r _ l (λ j. ap (grip j) e) (open-Plain t p k v r) i
  step-Inv f (resting k) v r l e i =
      Plain-Inv p f r _ l (λ j. ap (grip j) e)
        (wait-Plain t p (resting k) (pulling k) r (λ j. refl) (λ j. refl)) i
  step-Inv f (pulling k) v r l e i =
      Plain-Inv p f r _ l (λ j. ap (grip j) e) (pull-Plain t p k v r) i
  step-Inv f (holding k) v r l e i =
      Plain-Inv p f r _ l (λ j. ap (grip j) e)
        (wait-Plain t p (holding k) (attaching k) r (λ j. refl) (λ j. refl)) i
  step-Inv f (attaching k) v r l e i =
      Plain-Inv p f r _ l (λ j. ap (grip j) e)
        (branch-Plain (is_active p r.active) _ _ r (wait_for-Plain t p k r.attachment r)
          (fail-Plain t p cancels r))
        i
  step-Inv f (claiming k a) v r l e i =
      if_given (λ (x : Phase × Runtime). Inv (view x.1) (write f p x.0)) (is_same p a r) _ _
        (λ h.
          Plain-Inv p f r (starting k a, r) l (λ j. ap (grip j) e)
            (same-Plain (starting k a) r (λ j. refl)) i)
        (λ h. begin-Inv t p f k a v r l e h i)
  step-Inv f (begun k a) v r l e i = claim-Inv t p f k a r l e i
  step-Inv f (starting k a) v r l e i =
      Plain-Inv p f r _ l (λ j. ap (grip j) e)
        (branch-Plain (is_attachment a k.started_on || is_empty (title_of t k)) _ _ r
          (same-Plain (writing k a) r (λ j. refl)) (start-Plain t p k a v r))
        i
  step-Inv f (writing k a) v r l e i =
      Plain-Inv p f r _ l (λ j. ap (grip j) e) (send-Plain t p k a v r) i
  step-Inv f (ending k) v r l e i =
      Plain-Inv p f r _ l (λ j. ap (grip j) e)
        (branch-Plain (is_active p r.active) _ _ r (end-Plain t p k r.attachment v r)
          (same-Plain (advancing k) r (λ j. refl)))
        i
  step-Inv f (awaiting k) v r l e i =
      Plain-Inv p f r _ l (λ j. ap (grip j) e) (await-Plain t p k v r) i
  step-Inv f (advancing k) v r l e i =
      Plain-Inv p f r _ l (λ j. ap (grip j) e)
        (advance-Plain t p (following t k r) (at (following t k r) (queue_of t r)) r) i
  step-Inv f leaving v r l e i =
      Plain-Inv p f r (leave p r) l (λ j. ap (grip j) e)
        record { keeps = leave-Kept p r; free = λ j. refl } i
  step-Inv f gone v r l e i =
      Plain-Inv p f r _ l (λ j. ap (grip j) e) (same-Plain gone r (λ j. refl)) i

module _ (t : Texts) where
  happen-Inv :
      (e : Event) (s : Player)
      → Inv (view s.runtime) s.phases
      → Inv (view (happen t e s).runtime) (happen t e s).phases
  unfolding happen
  happen-Inv (requests q) s i = Kept-Inv (view s.runtime) _ s.phases (handle-Kept t q s.runtime) i
  happen-Inv (runs p v) s i =
      if_given (λ (z : Player). Inv (view z.runtime) z.phases) (ltb p s.runtime.next) _ _
        (λ h. step-Inv t p s.phases (s.phases p) v s.runtime (ground (arith, h)) refl i) (λ h. i)

  history-Inv :
      (es : List Event) (s : Player)
      → Inv (view s.runtime) s.phases
      → Inv (view (history t es s).runtime) (history t es s).phases
  unfolding history
  history-Inv [] s i = i
  history-Inv (e ∷ es) s i = history-Inv es (happen t e s) (happen-Inv e s i)

  -- Whatever requests, sessions and playbacks do with a new player, in any order: for every
  -- attachment exclusive playback on its bridge was begun as often as it was ended, and once more if
  -- the player holds it there, and once more for each playback that has begun it and not taken note
  -- of that yet. So no end is without its beginning, and what is not held has been ended.
  pub history_balance :
      (es : List Event) (k : ℕ)
      → let s = history t es new_player in
        count_begins k s.runtime.calls
        ≡ count_ends k s.runtime.calls
          + (holds k s.runtime.exclusive_attachment + in_flight k s.runtime.next s.phases)
  history_balance es k =
      (history-Inv es new_player record {
        balance = λ j. refl;
        held = λ a p x. ground (arith, x);
        fresh = λ p x. ground (arith, x);
        idle = λ p l. refl;
        clash = λ j p x. ground (arith, x);
      }).balance
        k
