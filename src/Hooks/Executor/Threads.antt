-- ===== src/Hooks/Executor/Threads.antt =====
-- internal/pkg/hooks/hub.go: which threads are there, and what a signal does to them.
use xiaozhi_esp32_server_gol.Common.{
  ℕ, zero, suc, ◌-◌, ◌<◌, ◌≡◌, refl, Bool, true, false, ◌||◌, some, List, [], ◌∷◌, All, ltb, ◌==◌,
  if◌then◌else◌, get_elem?, arith, Bool-cases, inl, inr,
}
use xiaozhi_esp32_server_gol.Hooks.Executor.{
  Thread, ready, asleep, done, calling, blocked, resumed, returned, woken, waiters, wake, signal,
  broadcast, set_thread,
}

module _ {T : Type 0} where
  abbrev pub is_ready : Thread T → Bool
  is_ready ready = true
  is_ready _ = false

  -- A worker that has not ended.
  abbrev pub is_live : Thread T → Bool
  is_live ready = true
  is_live asleep = true
  is_live _ = false

  -- A caller between two parts of Submit.
  abbrev pub is_held : Thread T → Bool
  is_held (blocked t) = true
  is_held (resumed t) = true
  is_held _ = false

  abbrev pub any : (Thread T → Bool) → List (Thread T) → Bool
  any p [] = false
  any p (t ∷ ts) = p t || any p ts

  pub any_set :
      (p : Thread T → Bool) (i : ℕ) (t u : Thread T) (ts : List (Thread T))
      → get_elem? ts i ≡ some t
      → p t ≡ false
      → any p ts ≡ true
      → any p (set_thread i u ts) ≡ true
  unfolding set_thread
  any_set p i t u [] h n a = a
  any_set p zero t u (v ∷ ts) h n a = ground (arith, h, n, a)
  any_set p (suc i) t u (v ∷ ts) h n a = ground (arith, any_set p i t u ts h n)

  pub any_set_new :
      (p : Thread T → Bool) (i : ℕ) (t u : Thread T) (ts : List (Thread T))
      → get_elem? ts i ≡ some t
      → p u ≡ true
      → any p (set_thread i u ts) ≡ true
  unfolding set_thread
  any_set_new p i t u [] h n = ground (arith, h)
  any_set_new p zero t u (v ∷ ts) h n = ground (arith, n)
  any_set_new p (suc i) t u (v ∷ ts) h n = ground (arith, any_set_new p i t u ts h n)

  pub All-set_thread :
      (P : Thread T → Type 0) (i : ℕ) (u : Thread T) (ts : List (Thread T))
      → P u
      → All P ts
      → All P (set_thread i u ts)
  unfolding set_thread
  All-set_thread P i u [] pu h = h
  All-set_thread P zero u (t ∷ ts) pu (_, h) = (pu, h)
  All-set_thread P (suc i) u (t ∷ ts) pu (pt, h) = (pt, All-set_thread P i u ts pu h)

  woken_ready : (t : Thread T) → is_ready t ≡ true → is_ready (woken t) ≡ true
  woken_ready ready h = refl
  woken_ready t h = ground arith

  wake_keeps :
      (k : ℕ) (ts : List (Thread T)) → any is_ready ts ≡ true → any is_ready (wake k ts) ≡ true
  unfolding wake
  wake_keeps k [] h = h
  wake_keeps k (ready ∷ ts) h = refl
  wake_keeps k (asleep ∷ ts) h = ground (arith, wake_keeps (k - 1) ts h)
  wake_keeps k (blocked t ∷ ts) h = ground (arith, wake_keeps (k - 1) ts h)
  wake_keeps k (done ∷ ts) h = wake_keeps k ts h
  wake_keeps k (calling t ∷ ts) h = wake_keeps k ts h
  wake_keeps k (resumed t ∷ ts) h = wake_keeps k ts h
  wake_keeps k (returned t b ∷ ts) h = wake_keeps k ts h

  wake_ready :
      (k : ℕ) (ts : List (Thread T))
      → All (λ t. is_held t ≡ false) ts
      → k < waiters ts
      → any is_ready (wake k ts) ≡ true
  unfolding wake
  wake_ready k [] h l = elim l [ ]
  wake_ready k (ready ∷ ts) h l = refl
  wake_ready k (asleep ∷ ts) (_, h) l = ground (arith, wake_ready (k - 1) ts h)
  wake_ready k (blocked t ∷ ts) (n, h) l = ground (arith, n)
  wake_ready k (done ∷ ts) (_, h) l = wake_ready k ts h (omega (arith, l))
  wake_ready k (calling t ∷ ts) (_, h) l = wake_ready k ts h (omega (arith, l))
  wake_ready k (resumed t ∷ ts) (_, h) l = wake_ready k ts h (omega (arith, l))
  wake_ready k (returned t b ∷ ts) (_, h) l = wake_ready k ts h (omega (arith, l))

  -- Without a waiter, a live worker is ready.
  none_waiting :
      (ts : List (Thread T)) → waiters ts ≡ 0 → any is_live ts ≡ true → any is_ready ts ≡ true
  none_waiting [] w h = h
  none_waiting (ready ∷ ts) w h = refl
  none_waiting (asleep ∷ ts) w h = absurd (omega (arith, w))
  none_waiting (blocked t ∷ ts) w h = absurd (omega (arith, w))
  none_waiting (done ∷ ts) w h = none_waiting ts (omega (arith, w)) h
  none_waiting (calling t ∷ ts) w h = none_waiting ts (omega (arith, w)) h
  none_waiting (resumed t ∷ ts) w h = none_waiting ts (omega (arith, w)) h
  none_waiting (returned t b ∷ ts) w h = none_waiting ts (omega (arith, w)) h

  -- Where no caller waits, a signal leaves a worker ready if there is a live one.
  pub signal_ready :
      (k : ℕ) (ts : List (Thread T))
      → All (λ t. is_held t ≡ false) ts
      → any is_live ts ≡ true
      → any is_ready (signal k ts) ≡ true
  unfolding signal
  signal_ready k ts h a = elim (Bool-cases (waiters ts == 0)) [
    | inl w ↦
        wake_keeps (if ltb k (waiters ts) then k else 0) ts (none_waiting ts (ground (arith, w)) a)
    | inr w ↦ wake_ready (if ltb k (waiters ts) then k else 0) ts h (ground (arith, w))
  ]

  wake_live :
      (k : ℕ) (ts : List (Thread T)) → any is_live ts ≡ true → any is_live (wake k ts) ≡ true
  unfolding wake
  wake_live k [] h = h
  wake_live k (ready ∷ ts) h = refl
  wake_live k (asleep ∷ ts) h = ground arith
  wake_live k (blocked t ∷ ts) h = ground (arith, wake_live (k - 1) ts h)
  wake_live k (done ∷ ts) h = wake_live k ts h
  wake_live k (calling t ∷ ts) h = wake_live k ts h
  wake_live k (resumed t ∷ ts) h = wake_live k ts h
  wake_live k (returned t b ∷ ts) h = wake_live k ts h

  pub signal_live :
      (k : ℕ) (ts : List (Thread T)) → any is_live ts ≡ true → any is_live (signal k ts) ≡ true
  unfolding signal
  signal_live k ts h = wake_live (if ltb k (waiters ts) then k else 0) ts h

  wake_free :
      (k : ℕ) (ts : List (Thread T))
      → All (λ t. is_held t ≡ false) ts
      → All (λ t. is_held t ≡ false) (wake k ts)
  unfolding wake
  wake_free k [] h = h
  wake_free k (ready ∷ ts) (a, h) = (a, wake_free k ts h)
  wake_free k (asleep ∷ ts) (a, h) = ground (arith, wake_free (k - 1) ts h)
  wake_free k (blocked t ∷ ts) (a, h) = ground (arith, a)
  wake_free k (done ∷ ts) (a, h) = (a, wake_free k ts h)
  wake_free k (calling t ∷ ts) (a, h) = (a, wake_free k ts h)
  wake_free k (resumed t ∷ ts) (a, h) = (a, wake_free k ts h)
  wake_free k (returned t b ∷ ts) (a, h) = (a, wake_free k ts h)

  pub signal_free :
      (k : ℕ) (ts : List (Thread T))
      → All (λ t. is_held t ≡ false) ts
      → All (λ t. is_held t ≡ false) (signal k ts)
  unfolding signal
  signal_free k ts h = wake_free (if ltb k (waiters ts) then k else 0) ts h

  pub broadcast_keeps :
      (ts : List (Thread T))
      → All (λ t. is_held t ≡ false) ts
      → (any is_ready ts ≡ true → any is_ready (broadcast ts) ≡ true)
        × All (λ t. is_held t ≡ false) (broadcast ts)
  unfolding broadcast
  broadcast_keeps [] h = (λ e. e, tt)
  broadcast_keeps (ready ∷ ts) (a, h) = (λ e. refl, (refl, (broadcast_keeps ts h).1))
  broadcast_keeps (asleep ∷ ts) (a, h) = (λ e. refl, (refl, (broadcast_keeps ts h).1))
  broadcast_keeps (blocked t ∷ ts) (a, h) = absurd (ground (arith, a))
  broadcast_keeps (done ∷ ts) (a, h) = let (f, g) = broadcast_keeps ts h in (f, (a, g))
  broadcast_keeps (calling t ∷ ts) (a, h) = let (f, g) = broadcast_keeps ts h in (f, (a, g))
  broadcast_keeps (resumed t ∷ ts) (a, h) = absurd (ground (arith, a))
  broadcast_keeps (returned t b ∷ ts) (a, h) = let (f, g) = broadcast_keeps ts h in (f, (a, g))

  pub find_ready :
      (ts : List (Thread T)) → any is_ready ts ≡ true → (i : ℕ) × (get_elem? ts i ≡ some ready)
  find_ready [] h = absurd (ground (arith, h))
  find_ready (ready ∷ ts) h = (0, refl)
  find_ready (asleep ∷ ts) h = let (i, e) = find_ready ts h in (suc i, e)
  find_ready (done ∷ ts) h = let (i, e) = find_ready ts h in (suc i, e)
  find_ready (calling t ∷ ts) h = let (i, e) = find_ready ts h in (suc i, e)
  find_ready (blocked t ∷ ts) h = let (i, e) = find_ready ts h in (suc i, e)
  find_ready (resumed t ∷ ts) h = let (i, e) = find_ready ts h in (suc i, e)
  find_ready (returned t b ∷ ts) h = let (i, e) = find_ready ts h in (suc i, e)
