-- ===== src/Pool/Bound.antt =====
-- internal/util/resource_pool.go: the number of resources stays within MaxSize.
use xiaozhi_esp32_server_gol.Common.{
  ℕ, zero, suc, ◌+◌, ◌-◌, ◌≤◌, ◌≡◌, refl, subst, true, false, not, Option, none, some, List, [],
  ◌∷◌, ◌++◌, length, ltb, arith, Option-cases, lookup, nat_eq, length-insert, inl, inr, if_both,
  All,
}
use xiaozhi_esp32_server_gol.Common.Int.{ℤ, pos, pos_part, leb_ℤ, ltb_ℤ, ◌≤ℤ◌}
use xiaozhi_esp32_server_gol.Pool.{
  Config, Factory, Pool, Error, register, pre_create, destroy, release,
}
use xiaozhi_esp32_server_gol.Pool.Upkeep.{
  collect_idle, fresh_pool, new_pool, destroy_all, shut_down, close, cleanup, shrink, resize,
  with_max,
}
use xiaozhi_esp32_server_gol.Pool.Calls.{
  Op, enters, moves, releases, cleans, closes, resizes, System, borrower_at, resized, step, run,
}
use xiaozhi_esp32_server_gol.Pool.Size.{
  Within, destroy-Shrinks, Shrinks-Within, destroy_all-Shrinks, destroy_entries-Shrinks,
  acquire_step-Within, put_back-Within,
}

-- A Resize to at most `n`; other operations do not change MaxSize.
abbrev pub IsWithin : ℤ → Op → Type 0
IsWithin n (resizes fuel m) = m ≤ℤ n
IsWithin n _ = Unit

abbrev Each : {A : Type 0} → (A → Type 0) → Option A → Type 0
Each P none = Unit
Each P (some x) = P x

module _ {W : Type 0} (f : Factory W) where
  shrunk :
      (P : Pool W → Type 0) (o : Option (Pool W))
      → Each P o
      → Each
          (λ (r : Option Error × Pool W). P r.1)
          (elim o [ none ↦ none | some p' ↦ some (none, p') ])
  shrunk P none h = tt
  shrunk P (some p) h = h

  resized-pool :
      (P : Pool W → Type 0) (s : System W) (o : Option (Option Error × Pool W))
      → Each (λ (r : Option Error × Pool W). P r.1) o
      → Each (λ (t : System W). P t.pool) (resized f s o)
  resized-pool P s none h = tt
  resized-pool P s (some r) h = h

  then-run :
      (P : System W → Type 0) (os : List Op) (o : Option (System W))
      → Each P o
      → ((t : System W) → P t → Each P (run f os t))
      → Each P (elim o [ none ↦ none | some t ↦ run f os t ])
  then-run P os none h g = tt
  then-run P os (some t) h g = g t h

  module _ {n : ℤ} where
    release-Within :
        (now : ℕ) (o : Option ℕ) (p : Pool W) → Within n p → Within n (release f now o p).1
    unfolding release
    release-Within now none p b = b
    release-Within now (some r) p b = elim (Option-cases (lookup r p.resources)) [
      | inl e ↦ rw e (if_both (λ (r : Option Error × Pool W). Within n r.1) p.closed _ _ b b)
      | inr (q, e) ↦ rw e (
          if_both (λ (r : Option Error × Pool W). Within n r.1) p.closed _ _ b
            (if_both (λ (r : Option Error × Pool W). Within n r.1) (not (p.heap q).in_use) _ _ b
              (put_back-Within f now p r q b)))
    ]

    cleanup-Within : (now : ℕ) (p : Pool W) → Within n p → Within n (cleanup f now p)
    unfolding cleanup
    cleanup-Within now p b =
        let found = collect_idle f p now p.available in
        let same : Within n (record p { available = found.1 }) = record {
          max_within = b.max_within;
          bounded = b.bounded;
        } in
        if_both (Within n) p.closed _ _ b
          (Shrinks-Within f (destroy_all-Shrinks f found.0 (record p { available = found.1 })) same)

    close-Within : (p : Pool W) → Within n p → Within n (close f p)
    unfolding close shut_down
    close-Within p b =
        let emptied = record p { closed = true; chan_closed = true; available = [] } in
        let same : Within n emptied = record { max_within = b.max_within; bounded = b.bounded } in
        let drained = destroy_all f p.available emptied in
        let rest = Shrinks-Within f (destroy_all-Shrinks f p.available emptied) same in
        if_both (Within n) p.closed _ _ b
          (Shrinks-Within f (destroy_entries-Shrinks f drained.resources drained) rest)

    shrink-Within :
        (fuel excess : ℕ) (qs : List ℕ) (p : Pool W)
        → Within n p
        → Each (Within n) (shrink f fuel excess qs p)
    unfolding shrink
    shrink-Within zero excess qs p b = tt
    shrink-Within (suc fuel) zero qs p b = b
    shrink-Within (suc fuel) (suc excess) [] p b = shrink-Within fuel (suc excess) [] p b
    shrink-Within (suc fuel) (suc excess) (j ∷ qs) p b =
        let taken = record p { available = qs } in
        let same : Within n taken = record { max_within = b.max_within; bounded = b.bounded } in
        shrink-Within fuel excess qs (destroy f taken j)
          (Shrinks-Within f (destroy-Shrinks f taken j) same)

    resize-Within :
        (fuel : ℕ) (m : ℤ) (p : Pool W)
        → m ≤ℤ n
        → Within n p
        → Each (λ (r : Option Error × Pool W). Within n r.1) (resize f fuel m p)
    unfolding resize
    resize-Within fuel m p l b =
        let q : Pool W = with_max f p m in
        let sized : Within n q = record { max_within = l; bounded = b.bounded } in
        if_both (Each _) (leb_ℤ m (pos 0)) _ _ b (
          if_both (Each _) p.closed _ _ b (
            if_both (Each _) (ltb_ℤ m p.config.max_size) _ _
              (shrunk (Within n) _
                (shrink-Within fuel (length p.resources - pos_part m) p.available q sized))
              sized))

    step-Within :
        (o : Op) (s : System W)
        → IsWithin n o
        → Within n s.pool
        → Each (λ (t : System W). Within n t.pool) (step f o s)
    unfolding step
    step-Within enters s l b = if_both (λ (t : System W). Within n t.pool) s.pool.closed _ _ b b
    step-Within (moves i ended now) s l b =
        if_both (λ (t : System W). Within n t.pool) (ltb i (length s.borrowers)) _ _
          (acquire_step-Within f ended now (borrower_at i s.borrowers) s.pool b) b
    step-Within (releases now r) s l b = release-Within now r s.pool b
    step-Within (cleans now) s l b = cleanup-Within now s.pool b
    step-Within closes s l b = close-Within s.pool b
    step-Within (resizes fuel m) s l b =
        resized-pool (Within n) s (resize f fuel m s.pool) (resize-Within fuel m s.pool l b)

    run-Within :
        (os : List Op) (s : System W)
        → All (IsWithin n) os
        → Within n s.pool
        → Each (λ (t : System W). Within n t.pool) (run f os s)
    unfolding run
    run-Within [] s l b = b
    run-Within (o ∷ os) s l b =
        then-run (λ (t : System W). Within n t.pool) os (step f o s) (step-Within o s l.0 b)
          (λ t c. run-Within os t l.1 c)

  pre_create-length :
      (n now : ℕ) (p : Pool W)
      → ((pre_create f n now p).1.config ≡ p.config)
        × (length (pre_create f n now p).1.resources ≤ n + length p.resources)
  unfolding pre_create register
  pre_create-length zero now p = (refl, omega arith)
  pre_create-length (suc n) now p = elim (Option-cases (f.create p.world).0) [
    | inl e ↦ ground arith
    | inr (r, e) ↦
        let p' = record (register f p r now false (f.create p.world).1) {
          available = p.available ++ p.next ∷ [];
        } in
        ground (arith, pre_create-length n now p', length-insert r p.next p.resources)
  ]

  -- NewResourcePool, where it succeeds, gives a pool that never holds more than `n` resources, if `n` is
  -- at least its MaxSize and the new size of each Resize: so it is behind every interleaving of
  -- steps of AcquireWithTimeout with Release, the cleanup, Close and Resize in which each Resize
  -- returns.
  pub run-new_pool-Within :
      (c : Config) (n : ℤ) (now : ℕ) (w : W) (os : List Op) (t : System W)
      → (new_pool f c now w).0 ≡ none
      → c.max_size ≤ℤ n
      → All (IsWithin n) os
      → run f os (record { pool = (new_pool f c now w).1; borrowers = [] }) ≡ some t
      → Within n t.pool
  unfolding new_pool
  run-new_pool-Within c n now w os t h l ls e =
      let p = (new_pool f c now w).1 in
      let (same, fewer) = pre_create-length (pos_part c.min_size) now (fresh_pool f c w) in
      let b : Within n p = record {
        max_within = ground (arith, h, same, l);
        bounded = ground (arith, h, fewer, l);
      } in
      subst (Each (λ (t : System W). Within n t.pool)) e
        (run-Within os (record { pool = p; borrowers = [] }) ls b)
