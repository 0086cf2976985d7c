-- ===== src/Hooks/Executor/Progress.antt =====
-- internal/pkg/hooks/hub.go: the workers of an executor that drops tasks when it is full.
use xiaozhi_esp32_server_gol.Common.{
  ℕ, zero, suc, ◌≡◌, refl, sym, ap, subst, ◌∙◌, List-cases, Bool, true, false, some, List, [], ◌∷◌,
  ◌++◌, length, append_assoc, append-nil, leb, get_elem?, arith, Option-cases, Bool-cases, ◌⊎◌, inl,
  inr, All, All-append,
}
use xiaozhi_esp32_server_gol.Common.Int.{ℤ, pos, negsuc}
use xiaozhi_esp32_server_gol.Hooks.Executor.{
  Thread, ready, asleep, done, calling, blocked, resumed, returned, Exec, becomes, enqueue, accepts,
  refuses, enter_submit, settle, work, act, turn, close, Action, turns, calls, closes, cancels,
  step, run, or_default, workers, new_executor,
}
use xiaozhi_esp32_server_gol.Hooks.Executor.Threads.{
  is_ready, is_live, is_held, any, any_set, any_set_new, All-set_thread, signal_ready, signal_live,
  signal_free, broadcast_keeps, find_ready,
}
use xiaozhi_esp32_server_gol.Hooks.Executor.Order.{InOrder, new_executor-InOrder}

workers_free : (T : Type 0) (n : ℕ) → All (λ u. is_held u ≡ false) (workers {T = T} n)
workers_free T zero = tt
workers_free T (suc n) = (refl, workers_free T n)

some_worker : (T : Type 0) (z : ℤ) → any is_live (workers {T = T} (or_default 1 z)) ≡ true
some_worker T (pos zero) = refl
some_worker T (pos (suc n)) = refl
some_worker T (negsuc n) = refl

module _ {T : Type 0} where
  abbrev no_tasks : List T → Bool
  no_tasks [] = true
  no_tasks (t ∷ ts) = false

  -- No caller waits; there is a live worker until the executor is cancelled, and a ready one while
  -- there are tasks.
  record Awake (e : Exec T) : Type 0 where
    drops : e.drop_when_full ≡ true
    free : All (λ t. is_held t ≡ false) e.threads
    live : e.cancelled ≡ false → any is_live e.threads ≡ true
    awake : no_tasks e.queue ≡ false → any is_ready e.threads ≡ true

  returns-Awake :
      (i : ℕ) (t : T) (b : Bool) (e : Exec T)
      → get_elem? e.threads i ≡ some (calling t)
      → Awake e
      → Awake (becomes i (returned t b) e)
  returns-Awake i t b e h v = record {
    drops = v.drops;
    free = All-set_thread (λ u. is_held u ≡ false) i (returned t b) e.threads refl v.free;
    live = λ c. any_set is_live i (calling t) (returned t b) e.threads h refl (v.live c);
    awake = λ q. any_set is_ready i (calling t) (returned t b) e.threads h refl (v.awake q);
  }

  enqueue-Awake :
      (k : ℕ) (t : T) (e : Exec T) → e.cancelled ≡ false → Awake e → Awake (enqueue k t e)
  unfolding enqueue
  enqueue-Awake k t e c v = record {
    drops = v.drops;
    free = signal_free k e.threads v.free;
    live = λ _. signal_live k e.threads (v.live c);
    awake = λ _. signal_ready k e.threads v.free (v.live c);
  }

  -- Where tasks are dropped, a call of Submit does not wait.
  pub entry_cases :
      (late : Bool) (e : Exec T)
      → e.drop_when_full ≡ true
      → (enter_submit late e ≡ refuses) ⊎ ((enter_submit late e ≡ accepts) × (e.cancelled ≡ false))
  unfolding enter_submit
  entry_cases late e d = elim (Bool-cases e.cancelled) [
    | inl c ↦ inl (ground (arith, c))
    | inr c ↦ elim (Bool-cases (leb e.size (length e.queue))) [
      | inl f ↦ inl (ground (arith, c, f, d))
      | inr f ↦ inr (ground (arith, c, f), c)
    ]
  ]

  call-Awake :
      (i k : ℕ) (late : Bool) (t : T) (e : Exec T)
      → get_elem? e.threads i ≡ some (calling t)
      → Awake e
      → Awake (settle i k t (enter_submit late e) e)
  unfolding settle
  call-Awake i k late t e h v = elim (entry_cases late e v.drops) [
    | inl r ↦ rw r (returns-Awake i t false e h v)
    | inr (r, c) ↦
        rw r (enqueue-Awake k t (becomes i (returned t true) e) c (returns-Awake i t true e h v))
  ]

  work-Awake :
      (i : ℕ) (q : List T) (e : Exec T)
      → get_elem? e.threads i ≡ some ready
      → e.queue ≡ q
      → Awake e
      → Awake (work i q e)
  unfolding work
  work-Awake i [] e h q v = elim (Bool-cases e.cancelled) [
    | inl c ↦
        rw (work, c)
          record {
            drops = v.drops;
            free = All-set_thread (λ u. is_held u ≡ false) i done e.threads refl v.free;
            live = λ n. absurd (ground (arith, n, c));
            awake = λ n. absurd (ground (arith, n, q));
          }
    | inr c ↦
        rw (work, c)
          record {
            drops = v.drops;
            free = All-set_thread (λ u. is_held u ≡ false) i asleep e.threads refl v.free;
            live = λ n. any_set_new is_live i ready asleep e.threads h refl;
            awake = λ n. absurd (ground (arith, n, q));
          }
  ]
  work-Awake i (t ∷ ts) e h q v = record {
    drops = v.drops;
    free = v.free;
    live = v.live;
    awake = λ n. v.awake (ground (arith, q));
  }

  held_out :
      (i : ℕ) (t : Thread T) (ts : List (Thread T))
      → get_elem? ts i ≡ some t
      → All (λ u. is_held u ≡ false) ts
      → is_held t ≡ false
  held_out i t [] h a = absurd (ground (arith, h))
  held_out zero t (u ∷ ts) h (a, _) = ground (arith, h, a)
  held_out (suc i) t (u ∷ ts) h (_, a) = held_out i t ts h a

  act-Awake :
      (i k : ℕ) (late : Bool) (t : Thread T) (e : Exec T)
      → get_elem? e.threads i ≡ some t
      → Awake e
      → Awake (act i k late t e)
  unfolding act
  act-Awake i k late ready e h v = work-Awake i e.queue e h refl v
  act-Awake i k late (calling t) e h v = call-Awake i k late t e h v
  act-Awake i k late (resumed t) e h v =
      absurd (ground (arith, held_out i (resumed t) e.threads h v.free))
  act-Awake i k late asleep e h v = v
  act-Awake i k late done e h v = v
  act-Awake i k late (blocked t) e h v = v
  act-Awake i k late (returned t b) e h v = v

  turn-Awake : (i k : ℕ) (late : Bool) (e : Exec T) → Awake e → Awake (turn i k late e)
  unfolding turn
  turn-Awake i k late e v = elim (Option-cases (get_elem? e.threads i)) [
    | inl n ↦ rw (turn, n) v
    | inr (t, n) ↦ rw (turn, n) (act-Awake i k late t e n v)
  ]

  any_append :
      (p : Thread T → Bool) (ts us : List (Thread T)) → any p ts ≡ true → any p (ts ++ us) ≡ true
  any_append p [] us h = absurd (ground (arith, h))
  any_append p (t ∷ ts) us h = ground (arith, any_append p ts us, h)

  step-Awake : (a : Action T) (e : Exec T) → Awake e → Awake (step a e)
  unfolding step close
  step-Awake (turns i k late) e v = turn-Awake i k late e v
  step-Awake (calls t) e v = record {
    drops = v.drops;
    free = All-append (λ u. is_held u ≡ false) e.threads (calling t ∷ []) v.free (refl, tt);
    live = λ c. any_append is_live e.threads (calling t ∷ []) (v.live c);
    awake = λ q. any_append is_ready e.threads (calling t ∷ []) (v.awake q);
  }
  step-Awake closes e v =
      let (r, f) = broadcast_keeps e.threads v.free in
      record {
        drops = v.drops;
        free = f;
        live = λ c. absurd (ground (arith, c));
        awake = λ q. r (v.awake q);
      }
  step-Awake cancels e v = record {
    drops = v.drops;
    free = v.free;
    live = λ c. absurd (ground (arith, c));
    awake = v.awake;
  }

  run-Awake : (xs : List (Action T)) (e : Exec T) → Awake e → Awake (run xs e)
  unfolding run
  run-Awake [] e v = v
  run-Awake (a ∷ xs) e v = run-Awake xs (step a e) (step-Awake a e v)

  new-Awake : (size count : ℤ) → Awake (new_executor {T = T} size count true)
  unfolding new_executor
  new-Awake size count = record {
    drops = refl;
    free = workers_free T (or_default 1 count);
    live = λ _. some_worker T count;
    awake = λ q. absurd (ground (arith, q));
  }

  -- `n` turns of the thread at `i`.
  abbrev pub turns_of : ℕ → ℕ → List (Action T)
  turns_of i zero = []
  turns_of i (suc n) = turns i 0 false ∷ turns_of i n

  work_head :
      (i : ℕ) (t : T) (ts : List T) (e : Exec T)
      → e.queue ≡ t ∷ ts
      → work i e.queue e ≡ record e { queue = ts; popped = e.popped ++ t ∷ [] }
  unfolding work
  work_head i t ts e h = ap (λ q. work i q e) h

  turn_work :
      (i : ℕ) (t : T) (ts : List T) (e : Exec T)
      → e.queue ≡ t ∷ ts
      → get_elem? e.threads i ≡ some ready
      → turn i 0 false e ≡ record e { queue = ts; popped = e.popped ++ t ∷ [] }
  unfolding turn act
  turn_work i t ts e h r =
      let worked : work i e.queue e ≡ record e { queue = ts; popped = e.popped ++ t ∷ [] } =
        work_head i t ts e h in
      rw (turn, r) worked

  drain :
      (i : ℕ) (q : List T) (e : Exec T)
      → e.queue ≡ q
      → get_elem? e.threads i ≡ some ready
      → let f = run (turns_of i (length q)) e in (f.queue ≡ []) × (f.popped ≡ e.popped ++ q)
  unfolding run step
  drain i [] e h r = (h, sym (append-nil e.popped))
  drain i (t ∷ ts) e h r =
      let next = record e { queue = ts; popped = e.popped ++ t ∷ [] } in
      let (a, b) = drain i ts next refl r in
      subst
        (λ n.
          let f = run (turns_of i (length ts)) n in
          (f.queue ≡ []) × (f.popped ≡ e.popped ++ t ∷ ts))
        (sym (turn_work i t ts e h r)) (a, b ∙ append_assoc e.popped (t ∷ []) ts)

  drains_from :
      (e : Exec T)
      → Awake e
      → InOrder e
      → (i : ℕ) × (let f = run (turns_of i (length e.queue)) e in
          (f.queue ≡ []) × (f.popped ≡ e.accepted))
  unfolding run
  drains_from e v o = elim (List-cases e.queue) [
    | inl q ↦
        let all : e.popped ≡ e.accepted =
          sym (append-nil e.popped) ∙ sym (ap (λ z. e.popped ++ z) q) ∙ o.once in
        (
          0,
          subst (λ n. let f = run (turns_of 0 n) e in (f.queue ≡ []) × (f.popped ≡ e.accepted))
              (sym (ap length q)) (q, all),
        )
    | inr (t, ts, q) ↦
        let (i, r) = find_ready e.threads (v.awake (ap no_tasks q)) in
        let (a, b) = drain i e.queue e refl r in (i, (a, b ∙ o.once))
  ]

  -- Whatever threads did with a new executor that drops tasks when it is full: some worker, if it runs
  -- alone for as many turns as there are tasks in the queue, pops all of them, so that all that
  -- Submit ever accepted was popped, in the order in which it was accepted.
  pub drains :
      (size count : ℤ) (xs : List (Action T))
      → let e = run xs (new_executor size count true) in
        (i : ℕ) × (let f = run (turns_of i (length e.queue)) e in
          (f.queue ≡ []) × (f.popped ≡ e.accepted))
  drains size count xs =
      let e = run xs (new_executor size count true) in
      let v = run-Awake xs (new_executor size count true) (new-Awake size count) in
      let o = new_executor-InOrder size count true xs in drains_from e v o
