-- ===== src/Pool/Shrink.antt =====
-- internal/util/resource_pool.go: Resize to a smaller size.
use xiaozhi_esp32_server_gol.Common.{
  ℕ, zero, suc, ◌+◌, ◌-◌, ◌≤◌, ◌<◌, ◌≡◌, refl, false, none, some, List, [], ◌∷◌, length, arith,
  nat_eq, length-delete_lt,
}
use xiaozhi_esp32_server_gol.Common.Int.{pos, ◌≤ℤ◌}
use xiaozhi_esp32_server_gol.Pool.{Factory, Pool, destroy}
use xiaozhi_esp32_server_gol.Pool.Upkeep.{shrink, resize, with_max}
use xiaozhi_esp32_server_gol.Pool.Ownership.{Fresh, Inv, destroy-Inv}

module _ {W : Type 0} (f : Factory W) where
  shrink_stuck :
      (fuel excess : ℕ) (qs : List ℕ) (p : Pool W)
      → length qs < excess
      → shrink f fuel excess qs p ≡ none
  unfolding shrink
  shrink_stuck zero excess qs p h = refl
  shrink_stuck (suc fuel) zero qs p h = elim h [ ]
  shrink_stuck (suc fuel) (suc excess) [] p h = shrink_stuck fuel (suc excess) [] p h
  shrink_stuck (suc fuel) (suc excess) (q ∷ qs) p h =
      shrink_stuck fuel excess qs (destroy f (record p { available = qs }) q) (omega arith)

  -- Resize to a smaller positive size never returns, however many rounds it is given, where more
  -- resources than the queue holds would have to go: those in use cannot be removed, and the loop
  -- keeps the pool's lock.
  pub resize_stuck :
      (fuel n : ℕ) (p : Pool W)
      → 0 < n
      → p.closed ≡ false
      → pos (n + 1) ≤ℤ p.config.max_size
      → length p.available + n < length p.resources
      → resize f fuel (pos n) p ≡ none
  unfolding resize
  resize_stuck fuel n p h c m big = ground (
    arith,
    shrink_stuck fuel (length p.resources - n) p.available (with_max f p (pos n)) (omega arith),
  )

  shrink-some :
      (fr : Fresh f) (fuel excess : ℕ) (qs : List ℕ) (p : Pool W)
      → Inv fr (record p { available = qs })
      → excess ≤ length qs
      → excess < fuel
      → (p' : Pool W) × (shrink f fuel excess qs p ≡ some p')
        × (length p'.resources + excess ≤ length p.resources)
  unfolding shrink destroy
  shrink-some fr zero excess qs p v h k = elim k [ ]
  shrink-some fr (suc fuel) zero qs p v h k = (p, refl, omega arith)
  shrink-some fr (suc fuel) (suc excess) [] p v h k = elim h [ ]
  shrink-some fr (suc fuel) (suc excess) (q ∷ qs) p v h k =
      let taken = record p { available = qs } in
      let v' : Inv fr taken = record {
        idle = v.idle.1;
        distinct = v.distinct.1;
        entries = v.entries;
      } in
      let (p', e, l) =
        shrink-some fr fuel excess qs (destroy f taken q)
          (destroy-Inv fr taken q v' v.idle.0.0 v.distinct.0) (omega arith) (omega arith) in
      (p', e, omega (arith, length-delete_lt (p.heap q).resource q p.resources v.idle.0.0.0))

  -- Where the idle resources suffice, Resize to a smaller size returns without an error and leaves
  -- at most the new number of resources.
  pub resize_shrinks :
      (fr : Fresh f) (fuel n : ℕ) (p : Pool W)
      → Inv fr p
      → 0 < n
      → p.closed ≡ false
      → pos (n + 1) ≤ℤ p.config.max_size
      → length p.resources ≤ length p.available + n
      → length p.resources < fuel
      → (p' : Pool W) × (resize f fuel (pos n) p ≡ some (none, p')) × (length p'.resources ≤ n)
  unfolding resize
  resize_shrinks fr fuel n p v h c m idle k =
      let (p', e, l) =
        shrink-some fr fuel (length p.resources - n) p.available (with_max f p (pos n))
          (record { idle = v.idle; distinct = v.distinct; entries = v.entries }) (omega arith)
          (omega arith) in
      (p', ground arith, omega arith)
