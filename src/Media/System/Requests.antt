-- ===== src/Media/System/Requests.antt =====
-- internal/app/server/chat/media_player.go: the balance of exclusive playback in the operations of the
-- player.
use xiaozhi_esp32_server_gol.Common.{
  ℕ, suc, ◌≡◌, refl, sym, ap, String, Bool, true, false, ◌&&◌, Option, none, some, List, ◌∷◌, ◌==◌,
  arith, if◌then◌else◌, ◌⊎◌, inl, inr, ◌∙◌, if_both, if_given,
}
use xiaozhi_esp32_server_gol.Common.Int.{ℤ}
use xiaozhi_esp32_server_gol.Media.Sources.{Item, AudioConfig}
use xiaozhi_esp32_server_gol.Media.{
  Runtime, Attachment, Call, ends, PauseReason, release, stop_old, drop_held, set_held,
  replace_active, pause_at, recover_at, resume_if_interrupted, stop, attach, add_attachment,
  keep_for_attach, give_up, detach_from, is_attachment, is_active, is_playing, is_some,
  is_interrupt,
}
use xiaozhi_esp32_server_gol.Media.Control.{begin_playback}
use xiaozhi_esp32_server_gol.Media.Playback.{fail_attachment, lose_exclusive, leave}
use xiaozhi_esp32_server_gol.Media.System.Exclusive.{
  View, view, Kept, released, drop-Kept, stay-Kept, trans-Kept,
}

pub refl-Kept : (v : View) → Kept v v
refl-Kept v = stay-Kept v v refl refl (λ p x. x) (λ p x. x) refl

-- All of the view but what playbacks hold.
abbrev frame : Runtime → List Call × (Option Attachment × (Option ℕ × ℕ))
frame r = (r.calls, (r.exclusive_attachment, (r.active, r.next)))

frame-release :
    (e : Option Attachment) (r : Runtime)
    → frame (release e r) ≡ (released e r.calls, (r.exclusive_attachment, (r.active, r.next)))
unfolding release
frame-release none r = refl
frame-release (some a) r = refl

frame-stop_old : (o : Option ℕ) (r : Runtime) → frame (stop_old o r) ≡ frame r
unfolding stop_old
frame-stop_old none r = refl
frame-stop_old (some p) r = refl

frame-drop_held : (o : Option ℕ) (r : Runtime) → frame (drop_held o r) ≡ frame r
unfolding drop_held
frame-drop_held none r = refl
frame-drop_held (some p) r = refl

-- What starts, ends or interrupts a playback ends the exclusive one.
drops :
    (r s : Runtime) (o : Option ℕ) (n : ℕ)
    → frame s ≡ (released r.exclusive_attachment r.calls, (none, (o, n)))
    → ((p : ℕ) → o ≡ some p → (r.active ≡ some p) ⊎ ((p ≡ r.next) × (n ≡ suc r.next)))
    → (n ≡ r.next) ⊎ (n ≡ suc r.next)
    → Kept (view r) (view s)
drops r s o n e f g =
    let a : s.active ≡ o = ap (λ x. ((x.1).1).0) e in
    let m : s.next ≡ n = ap (λ x. ((x.1).1).1) e in
    drop-Kept (view r) (view s) (ap (λ x. x.0) e) (ap (λ x. (x.1).0) e)
      (λ p x. ground (arith, f p, sym a ∙ x, m)) (ground (arith, g, m))

-- What `s` is for the invariant, as a change of `r`.
abbrev pub Keeps : Runtime → Runtime → Type 0
Keeps r s = Kept (view r) (view s)

pub begin-Kept :
    (i : ℤ) (item : Item) (cfg : AudioConfig) (r : Runtime) → Keeps r (begin_playback i item cfg r)
unfolding begin_playback replace_active
begin-Kept i item cfg r =
    drops r (begin_playback i item cfg r) (some r.next) (suc r.next)
      (frame-stop_old r.active _
        ∙ frame-release r.exclusive_attachment _
        ∙ ap
            (λ x.
              (released r.exclusive_attachment x.0, (none, (some ((x.1).1).1, suc ((x.1).1).1))))
            (frame-drop_held r.active r))
      (λ p x. inr (ground (arith, x), refl)) (inr refl)

pub stop-Kept : (r : Runtime) → Keeps r (stop r)
unfolding stop
stop-Kept r =
    drops r (stop r) none r.next
      (frame-stop_old r.active _
        ∙ frame-release r.exclusive_attachment _
        ∙ ap (λ x. (released r.exclusive_attachment x.0, (none, (none, ((x.1).1).1))))
            (frame-drop_held r.active r))
      (λ p x. ground (arith, x)) (inl refl)

pub pause-Kept :
    (o : Option ℕ) (b : Bool) (y : PauseReason) (r : Runtime)
    → Keeps r (pause_at o r.exclusive_attachment b y r).1
unfolding pause_at
pause-Kept none b y r = refl-Kept (view r)
pause-Kept (some p) b y r =
    drops r (pause_at (some p) r.exclusive_attachment b y r).1 r.active r.next
      (frame-release r.exclusive_attachment _) (λ q x. inl x) (inl refl)

pub recover-Kept :
    (o : Option ℕ) (a : Option Attachment) (r : Runtime) → Keeps r (recover_at o a r).1
unfolding recover_at
recover-Kept none a r = refl-Kept (view r)
recover-Kept (some p) none r = refl-Kept (view r)
recover-Kept (some p) (some a) r =
    if_both (Keeps r) (r.heap p).paused _ _
      (stay-Kept (view r) _ refl refl (λ q x. x) (λ q x. ground (arith, x)) refl)
      (refl-Kept (view r))

pub interrupted-Kept : (r : Runtime) → Keeps r (resume_if_interrupted r).1
unfolding resume_if_interrupted
interrupted-Kept r =
    if_both (λ (x : (Bool × Option String) × Runtime). Keeps r x.1)
      (is_some r.active && is_interrupt r.pause_reason) _ _ (recover-Kept r.active r.attachment r)
      (refl-Kept (view r))

pub attach-Kept : (session : ℕ) (r : Runtime) → Keeps r (attach session r)
unfolding attach
attach-Kept session r =
    elim r.attachment
      as (λ o. Keeps r (elim o [
        | some a ↦ if a.session == session then r else add_attachment session r
        | none ↦ add_attachment session r
      ])) [
        | none ↦ refl-Kept (view r)
        | some a ↦
            if_both (Keeps r) (a.session == session) _ _ (refl-Kept (view r)) (refl-Kept (view r))
      ]

keep_for-Kept : (o : Option ℕ) (r : Runtime) → Keeps r (keep_for_attach o r)
keep_for-Kept none r = refl-Kept (view r)
keep_for-Kept (some p) r =
    if_both (Keeps r) (is_playing r.status) _ _
      (stay-Kept (view r) _ refl refl (λ q x. x) (λ q x. ground (arith, x)) refl)
      (refl-Kept (view r))

keep_for-next : (o : Option ℕ) (r : Runtime) → (keep_for_attach o r).next ≡ r.next
keep_for-next none r = refl
keep_for-next (some p) r =
    if_both (λ (s : Runtime). s.next ≡ r.next) (is_playing r.status) _ _ refl refl

released_own :
    (a : Attachment) (e : Option Attachment) (cs : List Call)
    → is_attachment a e ≡ true
    → ends a.ref ∷ cs ≡ released e cs
released_own a none cs h = ground (arith, h)
released_own a (some b) cs h = ground (arith, h)

give_up-Kept :
    (a : Attachment) (r : Runtime) → Keeps r (give_up a r.active r.exclusive_attachment r)
unfolding release
give_up-Kept a r =
    if_given (Keeps r) (is_attachment a r.exclusive_attachment) _ _
      (λ h.
        drops r
          (release (some a) (record (drop_held r.active (record r { attachment = none })) {
            exclusive_attachment = none;
          }))
          r.active r.next
          (ap (λ x. (ends a.ref ∷ x.0, (none, (x.1).1)))
              (frame-drop_held r.active (record r { attachment = none }))
            ∙ ap (λ cs. (cs, (none, (r.active, r.next))))
                (released_own a r.exclusive_attachment r.calls h))
          (λ p x. inl x) (inl refl))
      (λ h. refl-Kept (view r))

pub detach-Kept :
    (o : Option Attachment) (session : ℕ) (preserve : Bool) (r : Runtime)
    → Keeps r (detach_from o session preserve r)
unfolding detach_from
detach-Kept none session preserve r = refl-Kept (view r)
detach-Kept (some a) session preserve r =
    let s = if preserve then keep_for_attach r.active r else r in
    if_both (Keeps r) (a.session == session) _ _
      (trans-Kept (view r) (view s) _
        (if_both (λ (s : Runtime). s.next ≡ r.next) preserve _ _ (keep_for-next r.active r) refl)
        (if_both (Keeps r) preserve _ _ (keep_for-Kept r.active r) (refl-Kept (view r)))
        (give_up-Kept a s))
      (refl-Kept (view r))

pub fail_attachment-Kept : (p : ℕ) (a : Attachment) (r : Runtime) → Keeps r (fail_attachment p a r)
unfolding fail_attachment release
fail_attachment-Kept p a r =
    if_both (Keeps r) (is_attachment a r.attachment && is_active p r.active) _ _
      (trans-Kept (view r) (view (lose_exclusive p a r)) _
        (if_both (λ (s : Runtime). s.next ≡ r.next) (is_attachment a r.exclusive_attachment) _ _
          refl refl)
        (if_given (Keeps r) (is_attachment a r.exclusive_attachment) _ _
          (λ h.
            drop-Kept (view r) _ (released_own a r.exclusive_attachment r.calls h) refl
              (λ q x. inl x) (inl refl))
          (λ h. refl-Kept (view r)))
        (keep_for-Kept (some p) (lose_exclusive p a r)))
      (refl-Kept (view r))

pub fail_attachment-next :
    (p : ℕ) (a : Attachment) (r : Runtime) → (fail_attachment p a r).next ≡ r.next
unfolding fail_attachment release
fail_attachment-next p a r =
    if_both (λ (s : Runtime). s.next ≡ r.next)
      (is_attachment a r.attachment && is_active p r.active) _ _
      (keep_for-next (some p) (lose_exclusive p a r)
        ∙ if_both (λ (s : Runtime). s.next ≡ r.next) (is_attachment a r.exclusive_attachment) _ _
            refl refl)
      refl

pub leave-Kept : (p : ℕ) (r : Runtime) → Keeps r (leave p r).1
unfolding leave
leave-Kept p r =
    if_both (Keeps r) (r.heap p).exclusive_held _ _
      (drops r
        (release r.exclusive_attachment
          (record (set_held false p r) { exclusive_attachment = none }))
        r.active r.next (frame-release r.exclusive_attachment _) (λ q x. inl x) (inl refl))
      (refl-Kept (view r))
