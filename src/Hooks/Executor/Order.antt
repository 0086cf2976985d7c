-- ===== src/Hooks/Executor/Order.antt =====
-- internal/pkg/hooks/hub.go: the order of tasks in AsyncExecutor.
use xiaozhi_esp32_server_gol.Common.{
  ℕ, suc, ◌≤◌, ◌<◌, ◌≡◌, refl, sym, ap, ◌∙◌, Bool, true, List, [], ◌∷◌, ◌++◌, length, length-append,
  append_assoc, get_elem?, arith, Option-cases, inl, inr,
}
use xiaozhi_esp32_server_gol.Common.Int.{ℤ}
use xiaozhi_esp32_server_gol.Hooks.Executor.{
  Thread, ready, asleep, done, calling, blocked, resumed, returned, Exec, becomes, enqueue, Entry,
  accepts, refuses, waits, enter_submit, resume_submit, settle, work, act, turn, close, Action,
  turns, calls, closes, cancels, step, run, new_executor,
}

module _ {T : Type 0} where
  -- Every accepted task was popped or is in the queue, in the order of acceptance, and the queue
  -- keeps its size.
  pub record InOrder (e : Exec T) : Type 0 where
    pub once : e.popped ++ e.queue ≡ e.accepted
    pub bound : length e.queue ≤ e.size

  enqueue-InOrder :
      (k : ℕ) (t : T) (e : Exec T) → length e.queue < e.size → InOrder e → InOrder (enqueue k t e)
  unfolding enqueue
  enqueue-InOrder k t e l v = record {
    once = sym (append_assoc e.popped e.queue (t ∷ [])) ∙ ap (λ ts. ts ++ t ∷ []) v.once;
    bound = omega (arith, length-append e.queue (t ∷ []), l);
  }

  settle-InOrder :
      (i k : ℕ) (t : T) (r : Entry) (e : Exec T)
      → (r ≡ accepts → length e.queue < e.size)
      → InOrder e
      → InOrder (settle i k t r e)
  unfolding settle
  settle-InOrder i k t accepts e l v =
      enqueue-InOrder k t (becomes i (returned t true) e) (l refl)
        record { once = v.once; bound = v.bound }
  settle-InOrder i k t refuses e l v = record { once = v.once; bound = v.bound }
  settle-InOrder i k t waits e l v = record { once = v.once; bound = v.bound }

  enter_room : (late : Bool) (e : Exec T) → enter_submit late e ≡ accepts → length e.queue < e.size
  unfolding enter_submit
  enter_room late e h = ground arith

  resume_room :
      (late : Bool) (e : Exec T) → resume_submit late e ≡ accepts → length e.queue < e.size
  unfolding resume_submit
  resume_room late e h = ground arith

  work-InOrder : (i : ℕ) (q : List T) (e : Exec T) → e.queue ≡ q → InOrder e → InOrder (work i q e)
  unfolding work
  work-InOrder i [] e h v = record {
    once = ground (arith, v.once);
    bound = ground (arith, v.bound);
  }
  work-InOrder i (t ∷ ts) e h v =
      let bound : suc (length ts) ≤ e.size = ground (arith, h, v.bound) in
      record {
        once = append_assoc e.popped (t ∷ []) ts ∙ sym (ap (λ q. e.popped ++ q) h) ∙ v.once;
        bound = omega (arith, bound);
      }

  act-InOrder :
      (i k : ℕ) (late : Bool) (t : Thread T) (e : Exec T) → InOrder e → InOrder (act i k late t e)
  unfolding act
  act-InOrder i k late ready e v = work-InOrder i e.queue e refl v
  act-InOrder i k late (calling t) e v =
      settle-InOrder i k t (enter_submit late e) e (enter_room late e) v
  act-InOrder i k late (resumed t) e v =
      settle-InOrder i k t (resume_submit late e) e (resume_room late e) v
  act-InOrder i k late asleep e v = v
  act-InOrder i k late done e v = v
  act-InOrder i k late (blocked t) e v = v
  act-InOrder i k late (returned t b) e v = v

  turn-InOrder : (i k : ℕ) (late : Bool) (e : Exec T) → InOrder e → InOrder (turn i k late e)
  unfolding turn
  turn-InOrder i k late e v = elim (Option-cases (get_elem? e.threads i)) [
    | inl n ↦ rw (turn, n) v
    | inr (t, n) ↦ rw (turn, n) (act-InOrder i k late t e v)
  ]

  step-InOrder : (a : Action T) (e : Exec T) → InOrder e → InOrder (step a e)
  unfolding step close
  step-InOrder (turns i k late) e v = turn-InOrder i k late e v
  step-InOrder (calls t) e v = record { once = v.once; bound = v.bound }
  step-InOrder closes e v = record { once = v.once; bound = v.bound }
  step-InOrder cancels e v = record { once = v.once; bound = v.bound }

  pub run-InOrder : (xs : List (Action T)) (e : Exec T) → InOrder e → InOrder (run xs e)
  unfolding run
  run-InOrder [] e v = v
  run-InOrder (a ∷ xs) e v = run-InOrder xs (step a e) (step-InOrder a e v)

  -- Whatever threads do with a new executor, every task that Submit accepted was popped once or is
  -- in the queue, in the order in which they were accepted, and the queue never exceeds its size.
  pub new_executor-InOrder :
      (size count : ℤ) (drop : Bool) (xs : List (Action T))
      → InOrder (run xs (new_executor size count drop))
  unfolding new_executor
  new_executor-InOrder size count drop xs =
      run-InOrder xs (new_executor size count drop) record { once = refl; bound = omega arith }
