-- ===== src/Media/System/Exclusive.antt =====
-- internal/app/server/chat/media_player.go: the balance of exclusive playback on an attachment's bridge.
use xiaozhi_esp32_server_gol.Common.{
  ℕ, zero, suc, ◌+◌, ◌≤◌, ◌<◌, ◌≡◌, refl, sym, ap, Bool, true, Option, none, some, List, [], ◌∷◌,
  ◌==◌, arith, if◌then◌else◌, ◌⊎◌, inl, inr, ◌∙◌,
}
use xiaozhi_esp32_server_gol.Media.{Runtime, Attachment, Call, begins, ends, write}
use xiaozhi_esp32_server_gol.Media.Playback.{Phase, entering, begun}

-- The calls for the attachment `k`.
abbrev pub is_for : ℕ → ℕ → ℕ
is_for k j = if j == k then 1 else 0

abbrev pub count_begins : ℕ → List Call → ℕ
count_begins k [] = 0
count_begins k (begins j ∷ cs) = is_for k j + count_begins k cs
count_begins k (_ ∷ cs) = count_begins k cs

abbrev pub count_ends : ℕ → List Call → ℕ
count_ends k [] = 0
count_ends k (ends j ∷ cs) = is_for k j + count_ends k cs
count_ends k (_ ∷ cs) = count_ends k cs

abbrev pub holds : ℕ → Option Attachment → ℕ
holds k none = 0
holds k (some a) = is_for k a.ref

-- A playback between the call that begins and the lock that takes note of it.
abbrev pub grip : ℕ → Phase → ℕ
grip k (begun t a) = is_for k a.ref
grip k _ = 0

abbrev pub in_flight : ℕ → ℕ → (ℕ → Phase) → ℕ
in_flight k zero f = 0
in_flight k (suc n) f = in_flight k n f + grip k (f n)

-- What the invariant is about.
pub record View : Type 0 where
  pub calls : List Call
  pub exclusive : Option Attachment
  pub active : Option ℕ
  pub held : ℕ → Bool
  pub next : ℕ

abbrev pub view : Runtime → View
view r = record {
  calls = r.calls;
  exclusive = r.exclusive_attachment;
  active = r.active;
  held = λ p. (r.heap p).exclusive_held;
  next = r.next;
}

pub record Inv (v : View) (f : ℕ → Phase) : Type 0 where
  pub balance :
      (k : ℕ)
      → count_begins k v.calls ≡ count_ends k v.calls + (holds k v.exclusive + in_flight k v.next f)
  pub held : (a : Attachment) (p : ℕ) → v.exclusive ≡ some a → v.active ≡ some p → v.held p ≡ true
  pub fresh : (p : ℕ) → v.active ≡ some p → p < v.next
  pub idle : (p : ℕ) → v.next ≤ p → f p ≡ entering
  pub clash : (k p : ℕ) → v.active ≡ some p → grip k (f p) ≡ 1 → holds k v.exclusive ≡ 0

-- A change that keeps the invariant for whatever the phases are.
pub record Kept (v w : View) : Type 0 where
  pub net :
      (k : ℕ)
      → count_begins k w.calls + (count_ends k v.calls + holds k v.exclusive)
        ≡ count_begins k v.calls + (count_ends k w.calls + holds k w.exclusive)
  pub held :
      (a : Attachment) (p : ℕ)
      → w.exclusive ≡ some a
      → w.active ≡ some p
      → (v.exclusive ≡ some a) × ((v.active ≡ some p) × (v.held p ≡ true → w.held p ≡ true))
  pub fresh :
      (p : ℕ) → w.active ≡ some p → (v.active ≡ some p) ⊎ ((p ≡ v.next) × (w.next ≡ suc v.next))
  pub grows : (w.next ≡ v.next) ⊎ (w.next ≡ suc v.next)
  pub fewer : (k : ℕ) → holds k v.exclusive ≡ 0 → holds k w.exclusive ≡ 0

abbrev pub released : Option Attachment → List Call → List Call
released none cs = cs
released (some a) cs = ends a.ref ∷ cs

pub begins-released :
    (k : ℕ) (e : Option Attachment) (cs : List Call)
    → count_begins k (released e cs) ≡ count_begins k cs
begins-released k none cs = refl
begins-released k (some a) cs = refl

pub ends-released :
    (k : ℕ) (e : Option Attachment) (cs : List Call)
    → count_ends k (released e cs) ≡ holds k e + count_ends k cs
ends-released k none cs = omega arith
ends-released k (some a) cs = refl

-- The exclusive playback ends, if there is one.
pub drop-Kept :
    (v w : View)
    → w.calls ≡ released v.exclusive v.calls
    → w.exclusive ≡ none
    → ((p : ℕ) → w.active ≡ some p → (v.active ≡ some p) ⊎ ((p ≡ v.next) × (w.next ≡ suc v.next)))
    → (w.next ≡ v.next) ⊎ (w.next ≡ suc v.next)
    → Kept v w
drop-Kept v w c e f g = record {
  net = λ k.
      ground
        (arith, c, e, begins-released k v.exclusive v.calls, ends-released k v.exclusive v.calls);
  held = λ a p x. ground (arith, e, x);
  fresh = f;
  grows = g;
  fewer = λ k h. ground (arith, e);
}

-- Calls and the exclusive playback stay, and so does the current playback or it ends.
pub stay-Kept :
    (v w : View)
    → w.calls ≡ v.calls
    → w.exclusive ≡ v.exclusive
    → ((p : ℕ) → w.active ≡ some p → v.active ≡ some p)
    → ((p : ℕ) → v.held p ≡ true → w.held p ≡ true)
    → w.next ≡ v.next
    → Kept v w
stay-Kept v w c e f h n = record {
  net = λ k. ground (arith, c, e);
  held = λ a p x y. (sym e ∙ x, (f p y, h p));
  fresh = λ p x. inl (f p x);
  grows = inl n;
  fewer = λ k z. ap (holds k) e ∙ z;
}

-- Calls of the bridge that neither begin nor end.
pub calls-Kept :
    (v : View) (cs : List Call)
    → ((k : ℕ) → count_begins k cs ≡ count_begins k v.calls)
    → ((k : ℕ) → count_ends k cs ≡ count_ends k v.calls)
    → Kept v (record v { calls = cs })
calls-Kept v cs b e = record {
  net = λ k. omega (arith, b k, e k);
  held = λ a p x y. (x, (y, λ h. h));
  fresh = λ p x. inl x;
  grows = inl refl;
  fewer = λ k h. h;
}

-- One change behind another, of which the first makes no playback.
pub trans-Kept : (u v w : View) → v.next ≡ u.next → Kept u v → Kept v w → Kept u w
trans-Kept u v w n a b = record {
  net = λ k. omega (arith, a.net k, b.net k);
  held = λ c p x y.
      let (x', (y', h)) = b.held c p x y in
      let (x'', (y'', g)) = a.held c p x' y' in (x'', (y'', λ t. h (g t)));
  fresh = λ p x. ground (arith, b.fresh p x, a.fresh p, n);
  grows = ground (arith, b.grows, n);
  fewer = λ k z. b.fewer k (a.fewer k z);
}

-- Nothing is in flight among playbacks that were not made yet.
in_flight_idle :
    (k n : ℕ) (f : ℕ → Phase) → f n ≡ entering → in_flight k (suc n) f ≡ in_flight k n f
in_flight_idle k n f e = ground (arith, ap (grip k) e)

in_flight_past :
    (k p n : ℕ) (f : ℕ → Phase) (ph : Phase)
    → n ≤ p
    → in_flight k n (write f p ph) ≡ in_flight k n f
in_flight_past k p zero f ph l = refl
in_flight_past k p (suc n) f ph l = ground (arith, in_flight_past k p n f ph)

pub in_flight-write :
    (k p n : ℕ) (f : ℕ → Phase) (ph : Phase)
    → p < n
    → in_flight k n (write f p ph) + grip k (f p) ≡ in_flight k n f + grip k ph
in_flight-write k p zero f ph l = omega (arith, l)
in_flight-write k p (suc n) f ph l =
    ground (arith, in_flight-write k p n f ph, in_flight_past k p n f ph)

in_flight-grows :
    (k n m : ℕ) (f : ℕ → Phase)
    → f n ≡ entering
    → (m ≡ n) ⊎ (m ≡ suc n)
    → in_flight k m f ≡ in_flight k n f
in_flight-grows k n m f e (inl h) = ap (λ x. in_flight k x f) h
in_flight-grows k n m f e (inr h) = ap (λ x. in_flight k x f) h ∙ in_flight_idle k n f e

-- A grip is no more than that of a playback that was made.
grip_made : (k p : ℕ) (v : View) (f : ℕ → Phase) → Inv v f → grip k (f p) ≡ 1 → p < v.next
grip_made k p v f i g = ground (arith, i.idle p, λ (h : f p ≡ entering). ap (grip k) h)

pub Kept-Inv : (v w : View) (f : ℕ → Phase) → Kept v w → Inv v f → Inv w f
Kept-Inv v w f c i = record {
  balance = λ k.
      let e = in_flight-grows k v.next w.next f (i.idle v.next (omega arith)) c.grows in
      omega (arith, c.net k, i.balance k, e);
  held = λ a p x y. let (x', (y', h)) = c.held a p x y in h (i.held a p x' y');
  fresh = λ p x. ground (arith, c.fresh p x, i.fresh p, c.grows);
  idle = λ p l. ground (arith, c.grows, i.idle p);
  clash = λ k p x g.
      let l = grip_made k p v f i g in
      let y : v.active ≡ some p = ground (arith, c.fresh p x, l) in c.fewer k (i.clash k p y g);
}

-- A playback that has no call in flight, before or behind its step.
pub phase-Inv :
    (v : View) (f : ℕ → Phase) (p : ℕ) (ph : Phase)
    → p < v.next
    → ((k : ℕ) → grip k (f p) ≡ 0)
    → ((k : ℕ) → grip k ph ≡ 0)
    → Inv v f
    → Inv v (write f p ph)
phase-Inv v f p ph l g h i = record {
  balance = λ k. omega (arith, in_flight-write k p v.next f ph l, g k, h k, i.balance k);
  held = i.held;
  fresh = i.fresh;
  idle = λ q m. ground (arith, i.idle q, m, l);
  clash = λ k q x y. ground (arith, i.clash k q x, y, h k);
}
