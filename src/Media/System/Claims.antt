-- ===== src/Media/System/Claims.antt =====
-- internal/app/server/chat/media_player.go: the balance of exclusive playback in the two halves of
-- ensureExclusivePlayback.
use xiaozhi_esp32_server_gol.Common.{
  ℕ, ◌<◌, ◌≡◌, refl, sym, ap, subst, true, false, ◌&&◌, Option, none, some, ◌∷◌, ◌==◌, arith,
  if◌then◌else◌, inl, inr, ◌∙◌, if_given, Option-cases, Bool-cases,
}
use xiaozhi_esp32_server_gol.Media.Sources.{Texts}
use xiaozhi_esp32_server_gol.Media.{
  Runtime, Attachment, ends, write, release, is_attachment, is_active, set_held, status_stopped,
}
use xiaozhi_esp32_server_gol.Media.Playback.{
  Phase, Track, leaving, claiming, begun, starting, Answer, ok, cancels, closes, fails, frame,
  fail_with, claim,
}
use xiaozhi_esp32_server_gol.Media.Streaming.{is_same, begin}
use xiaozhi_esp32_server_gol.Media.System.Exclusive.{
  view, Inv, released, Kept-Inv, grip, holds, is_for, in_flight-write, begins-released,
  ends-released,
}
use xiaozhi_esp32_server_gol.Media.System.Steps.{Plain-Inv, mark-Kept, fail-Plain, retry-Plain}

-- The attachment of the exclusive playback is not `a`.
other_held :
    (p : ℕ) (a : Attachment) (r : Runtime) (f : ℕ → Phase)
    → is_same p a r ≡ false
    → r.active ≡ some p
    → Inv (view r) f
    → holds a.ref r.exclusive_attachment ≡ 0
other_held p a r f n x i = elim (Option-cases r.exclusive_attachment) [
  | inl e ↦ ap (holds a.ref) e
  | inr (b, e) ↦
      let h = i.held b p e x in
      let g : is_same p a r ≡ (b.ref == a.ref) = ground (arith, x, e, h) in
      ap (holds a.ref) e ∙ ground (arith, g, n)
]

view-release :
    (e : Option Attachment) (r : Runtime)
    → view (release e r) ≡ record (view r) { calls = released e r.calls }
unfolding release
view-release none r = refl
view-release (some a) r = refl

other_attachment :
    (a : Attachment) (e : Option Attachment) → holds a.ref e ≡ 0 → is_attachment a e ≡ false
other_attachment a none h = refl
other_attachment a (some b) h = ground (arith, h)

active_now : (p : ℕ) (o : Option ℕ) → is_active p o ≡ true → o ≡ some p
active_now p none h = ground (arith, h)
active_now p (some q) h = ap some (ground (arith, h))

some_same : (p q : ℕ) (o : Option ℕ) → o ≡ some p → o ≡ some q → p ≡ q
some_same p q o x y = ground (arith, sym x ∙ y)

module _ (t : Texts) (p : ℕ) where
  begin_clash :
      (f : ℕ → Phase) (k : Track) (a : Attachment) (r : Runtime)
      → p < r.next
      → is_same p a r ≡ false
      → Inv (view r) f
      → (j q : ℕ) → r.active ≡ some q
      → grip j (write f p (begun k a) q) ≡ 1
      → holds j r.exclusive_attachment ≡ 0
  begin_clash f k a r l n i j q x y = elim (Bool-cases (q == p)) [
    | inl e ↦
        let same : q ≡ p = ground (arith, e) in
        let h = other_held p a r f n (x ∙ ap some same) i in
        let m : a.ref ≡ j = ground (arith, y, e) in
        subst (λ z. holds z r.exclusive_attachment ≡ 0) m h
    | inr e ↦ i.clash j q x (ground (arith, y, e))
  ]

  -- BeginExclusiveMediaPlayback of a playback that does not have it yet.
  pub begin-Inv :
      (f : ℕ → Phase) (k : Track) (a : Attachment) (v : Answer) (r : Runtime)
      → p < r.next
      → f p ≡ claiming k a
      → is_same p a r ≡ false
      → Inv (view r) f
      → Inv (view (begin t p k a v r).1) (write f p (begin t p k a v r).0)
  begin-Inv f k a ok r l e n i = record {
    balance = λ j.
        let g : grip j (f p) ≡ 0 = ap (grip j) e in
        ground (arith, in_flight-write j p r.next f (begun k a) l, i.balance j, g);
    held = i.held;
    fresh = i.fresh;
    idle = λ q m. ground (arith, i.idle q, m, l);
    clash = λ j q x y. begin_clash f k a r l n i j q x y;
  }
  begin-Inv f k a cancels r l e n i =
      Plain-Inv p f r (fail_with t p cancels r) l (λ j. ap (grip j) e) (fail-Plain t p cancels r) i
  begin-Inv f k a closes r l e n i =
      Plain-Inv p f r _ l (λ j. ap (grip j) e) (retry-Plain t p k a r) i
  begin-Inv f k a (fails w) r l e n i =
      Plain-Inv p f r _ l (λ j. ap (grip j) e) (retry-Plain t p k a r) i
  begin-Inv f k a (frame w) r l e n i =
      Plain-Inv p f r _ l (λ j. ap (grip j) e) (retry-Plain t p k a r) i

  -- The lock behind BeginExclusiveMediaPlayback, of the current playback.
  taken-Inv :
      (f : ℕ → Phase) (k : Track) (a : Attachment) (r : Runtime)
      → p < r.next
      → f p ≡ begun k a
      → Inv (view r) f
      → r.active ≡ some p
      → let old = if is_attachment a r.exclusive_attachment then none else r.exclusive_attachment in
        Inv
          (view (release old (record (set_held true p r) { exclusive_attachment = some a })))
          (write f p (starting k a))
  taken-Inv f k a r l e i x =
      let claimed = record (set_held true p r) { exclusive_attachment = some a } in
      let own : is_for a.ref a.ref ≡ 1 = ground arith in
      let z = i.clash a.ref p x (ap (grip a.ref) e ∙ own) in
      let n =
        ap (λ b. if b then none else r.exclusive_attachment)
          (other_attachment a r.exclusive_attachment z) in
      let q = ap (λ o. view (release o claimed)) n ∙ view-release r.exclusive_attachment claimed in
      subst (λ v. Inv v (write f p (starting k a))) (sym q)
        record {
          balance = λ j.
              let g : grip j (f p) ≡ is_for j a.ref = ap (grip j) e in
              omega (
                arith,
                in_flight-write j p r.next f (starting k a) l,
                i.balance j,
                g,
                begins-released j r.exclusive_attachment r.calls,
                ends-released j r.exclusive_attachment r.calls,
              );
          held = λ b m y w. let h = some_same p m r.active x w in ground (arith, h);
          fresh = i.fresh;
          idle = λ m y. ground (arith, i.idle m, y, l);
          clash = λ j m y w. let h = some_same p m r.active x y in ground (arith, h, w);
        }

  pub claim-Inv :
      (f : ℕ → Phase) (k : Track) (a : Attachment) (r : Runtime)
      → p < r.next
      → f p ≡ begun k a
      → Inv (view r) f
      → Inv (view (claim t p k a r).1) (write f p (claim t p k a r).0)
  unfolding claim
  claim-Inv f k a r l e i =
      if_given (λ (x : Phase × Runtime). Inv (view x.1) (write f p x.0))
        (is_active p r.active && is_attachment a r.attachment) _ _
        (λ h. taken-Inv f k a r l e i (active_now p r.active (ground (arith, h))))
        (λ h.
          Kept-Inv (view (record r { calls = ends a.ref ∷ r.calls })) _ (write f p leaving)
            (mark-Kept t p status_stopped "" (record r { calls = ends a.ref ∷ r.calls }))
            given_back)
    where
      given_back : Inv (view (record r { calls = ends a.ref ∷ r.calls })) (write f p leaving)
      given_back = record {
        balance = λ j.
            let g : grip j (f p) ≡ is_for j a.ref = ap (grip j) e in
            omega (arith, in_flight-write j p r.next f leaving l, i.balance j, g);
        held = i.held;
        fresh = i.fresh;
        idle = λ q m. ground (arith, i.idle q, m, l);
        clash = λ j q x y. ground (arith, i.clash j q x, y);
      }
