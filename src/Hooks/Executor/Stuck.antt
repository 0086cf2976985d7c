-- ===== src/Hooks/Executor/Stuck.antt =====
-- internal/pkg/hooks/hub.go: a caller of Submit that waits for room.
use xiaozhi_esp32_server_gol.Common.{
  ℕ, zero, suc, ◌≡◌, refl, Bool, true, false, some, List, [], ◌∷◌, get_elem?, arith, Option-cases,
  if_both, inl, inr, All,
}
use xiaozhi_esp32_server_gol.Hooks.Executor.{
  Thread, ready, asleep, done, calling, blocked, resumed, returned, Exec, becomes, set_thread, work,
  act, turn, Action, turns, run, step,
}
use xiaozhi_esp32_server_gol.Hooks.Executor.Threads.{All-set_thread}

module _ {T : Type 0} where
  -- A thread that is not in Submit, or waits there.
  abbrev pub is_quiet : Thread T → Bool
  is_quiet (calling t) = false
  is_quiet (resumed t) = false
  is_quiet _ = true

  record Waits (j : ℕ) (t : T) (e : Exec T) : Type 0 where
    quiet : All (λ u. is_quiet u ≡ true) e.threads
    waits : get_elem? e.threads j ≡ some (blocked t)

  set_other :
      (i j : ℕ) (t : T) (v : Thread T) (ts : List (Thread T))
      → get_elem? ts i ≡ some ready
      → get_elem? ts j ≡ some (blocked t)
      → get_elem? (set_thread i v ts) j ≡ some (blocked t)
  unfolding set_thread
  set_other i j t v [] h w = w
  set_other zero zero t v (u ∷ ts) h w = ground (arith, h, w)
  set_other zero (suc j) t v (u ∷ ts) h w = w
  set_other (suc i) zero t v (u ∷ ts) h w = w
  set_other (suc i) (suc j) t v (u ∷ ts) h w = set_other i j t v ts h w

  becomes-Waits :
      (i j : ℕ) (t : T) (v : Thread T) (e : Exec T)
      → is_quiet v ≡ true
      → get_elem? e.threads i ≡ some ready
      → Waits j t e
      → Waits j t (becomes i v e)
  becomes-Waits i j t v e q h w = record {
    quiet = All-set_thread (λ u. is_quiet u ≡ true) i v e.threads q w.quiet;
    waits = set_other i j t v e.threads h w.waits;
  }

  work-Waits :
      (i j : ℕ) (t : T) (q : List T) (e : Exec T)
      → get_elem? e.threads i ≡ some ready
      → Waits j t e
      → Waits j t (work i q e)
  unfolding work
  work-Waits i j t [] e h w =
      if_both (Waits j t) e.cancelled (becomes i done e) (becomes i asleep e)
        (becomes-Waits i j t done e refl h w) (becomes-Waits i j t asleep e refl h w)
  work-Waits i j t (u ∷ us) e h w = record { quiet = w.quiet; waits = w.waits }

  quiet_at :
      (i : ℕ) (u : Thread T) (ts : List (Thread T))
      → get_elem? ts i ≡ some u
      → All (λ v. is_quiet v ≡ true) ts
      → is_quiet u ≡ true
  quiet_at i u [] h a = absurd (ground (arith, h))
  quiet_at zero u (v ∷ ts) h (a, _) = ground (arith, h, a)
  quiet_at (suc i) u (v ∷ ts) h (_, a) = quiet_at i u ts h a

  act-Waits :
      (i j k : ℕ) (late : Bool) (t : T) (u : Thread T) (e : Exec T)
      → get_elem? e.threads i ≡ some u
      → Waits j t e
      → Waits j t (act i k late u e)
  unfolding act
  act-Waits i j k late t ready e h w = work-Waits i j t e.queue e h w
  act-Waits i j k late t (calling u) e h w =
      absurd (ground (arith, quiet_at i (calling u) e.threads h w.quiet))
  act-Waits i j k late t (resumed u) e h w =
      absurd (ground (arith, quiet_at i (resumed u) e.threads h w.quiet))
  act-Waits i j k late t asleep e h w = w
  act-Waits i j k late t done e h w = w
  act-Waits i j k late t (blocked u) e h w = w
  act-Waits i j k late t (returned u b) e h w = w

  turn-Waits :
      (i j k : ℕ) (late : Bool) (t : T) (e : Exec T) → Waits j t e → Waits j t (turn i k late e)
  unfolding turn
  turn-Waits i j k late t e w = elim (Option-cases (get_elem? e.threads i)) [
    | inl n ↦ rw (turn, n) w
    | inr (u, n) ↦ rw (turn, n) (act-Waits i j k late t u e n w)
  ]

  -- The turns of threads: the index, the waiter to wake, and whether the caller's second is over.
  abbrev pub turns_only : List (ℕ × ℕ × Bool) → List (Action T)
  turns_only [] = []
  turns_only ((i, k, late) ∷ ts) = turns i k late ∷ turns_only ts

  -- A caller that waits in Submit for room is never woken by the workers: whatever turns the threads
  -- take, also when the queue has become empty and the caller's second is over, it waits on, unless
  -- another thread enters Submit or is on its way through it.
  pub submit_stuck :
      (ts : List (ℕ × ℕ × Bool)) (j : ℕ) (t : T) (e : Exec T)
      → All (λ u. is_quiet u ≡ true) e.threads
      → get_elem? e.threads j ≡ some (blocked t)
      → get_elem? (run (turns_only ts) e).threads j ≡ some (blocked t)
  unfolding run step
  submit_stuck [] j t e q w = w
  submit_stuck ((i, k, late) ∷ ts) j t e q w =
      let v = turn-Waits i j k late t e record { quiet = q; waits = w } in
      submit_stuck ts j t (turn i k late e) v.quiet v.waits
