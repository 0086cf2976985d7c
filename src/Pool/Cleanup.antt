-- ===== src/Pool/Cleanup.antt =====
-- internal/util/resource_pool.go: cleanupIdleResources.
use xiaozhi_esp32_server_gol.Common.{
  ℕ, ◌≡◌, ◌≢◌, refl, sym, true, false, none, some, List, [], ◌∷◌, ◌++◌, arith, nat_eq, lookup, All,
  All-imp, All-append, Distinct, Distinct-concat, inl, inr, Bool-cases, ◌⊎◌, ap, subst,
  Distinct-append, All-append_left, All-append_right,
}
use xiaozhi_esp32_server_gol.Pool.{Factory, Pool}
use xiaozhi_esp32_server_gol.Pool.Upkeep.{destroy_all, collect_idle, timed_out_idle, cleanup}
use xiaozhi_esp32_server_gol.Pool.Ownership.{Fresh, Inv, IsIdle, IsRegistered}
use xiaozhi_esp32_server_gol.Pool.Destroy.{destroy_all-Cleared, destroy_all-Steady}

module _ {W : Type 0} (f : Factory W) where
  -- How the queue `qs` is divided: the cells `gone` at its front have timed out; behind them comes
  -- nothing, or a cell that has not and goes to the back of the rest.
  abbrev pub IsDivided : Pool W → ℕ → List ℕ → List ℕ → List ℕ → Type 0
  IsDivided p now qs gone left =
      All (λ q. timed_out_idle f p now q ≡ true) gone
      × (((qs ≡ gone) × (left ≡ []))
          ⊎ ((q : ℕ) × (rest : List ℕ) × (timed_out_idle f p now q ≡ false)
              × (qs ≡ gone ++ (q ∷ rest))
              × (left ≡ rest ++ q ∷ [])))

  IsDivided-cons :
      (p : Pool W) (now q : ℕ) (qs gone left : List ℕ)
      → timed_out_idle f p now q ≡ true
      → IsDivided p now qs gone left
      → IsDivided p now (q ∷ qs) (q ∷ gone) left
  IsDivided-cons p now q qs gone left t (h, inl (a, b)) = ((t, h), inl (ap (◌∷◌ q) a, b))
  IsDivided-cons p now q qs gone left t (h, inr (i, rest, u, a, b)) =
      ((t, h), inr (i, rest, u, ap (◌∷◌ q) a, b))

  collect_idle-IsDivided :
      (p : Pool W) (now : ℕ) (qs : List ℕ)
      → IsDivided p now qs (collect_idle f p now qs).0 (collect_idle f p now qs).1
  unfolding collect_idle
  collect_idle-IsDivided p now [] = (tt, inl (refl, refl))
  collect_idle-IsDivided p now (q ∷ qs) = elim (Bool-cases (timed_out_idle f p now q)) [
    | inl t ↦ rw t (IsDivided-cons p now q qs _ _ t (collect_idle-IsDivided p now qs))
    | inr t ↦ rw t (tt, inr (q, qs, t, refl, refl))
  ]

  module _ (fr : Fresh f) where
    -- What a division keeps of the idle cells.
    record Parts (p : Pool W) (gone left : List ℕ) : Type 0 where
      gone_idle : All (IsIdle fr p) gone
      left_idle : All (IsIdle fr p) left
      gone_distinct : Distinct gone
      left_distinct : Distinct left
      apart : All (λ q. All (λ j. j ≢ q) left) gone

    none_left : (qs : List ℕ) → All (λ q. All (λ j. j ≢ q) []) qs
    none_left [] = tt
    none_left (q ∷ qs) = (tt, none_left qs)

    IsDivided-Parts :
        (p : Pool W) (now : ℕ) (qs gone left : List ℕ)
        → IsDivided p now qs gone left
        → All (IsIdle fr p) qs
        → Distinct qs
        → Parts p gone left
    IsDivided-Parts p now qs gone left (h, inl (a, b)) idle d =
        subst (Parts p gone) (sym b) (record {
          gone_idle = subst (All (IsIdle fr p)) a idle;
          left_idle = tt;
          gone_distinct = subst Distinct a d;
          left_distinct = tt;
          apart = none_left gone;
        })
    IsDivided-Parts p now qs gone left (h, inr (q, rest, u, a, b)) idle d =
        let idle' = subst (All (IsIdle fr p)) a idle in
        let (x, y, z) = Distinct-append gone (q ∷ rest) (subst Distinct a d) in
        let behind = All-append_right (IsIdle fr p) gone (q ∷ rest) idle' in
        subst (Parts p gone) (sym b) (record {
          gone_idle = All-append_left (IsIdle fr p) gone (q ∷ rest) idle';
          left_idle = All-append (IsIdle fr p) rest (q ∷ []) behind.1 (behind.0, tt);
          gone_distinct = x;
          left_distinct = Distinct-concat rest q y.1 y.0;
          apart =
              All-imp (λ i. All (λ j. j ≢ i) (q ∷ rest)) (λ i. All (λ j. j ≢ i) (rest ++ q ∷ []))
                gone (λ i k. All-append (λ j. j ≢ i) rest (q ∷ []) k.1 (k.0, tt)) z;
        })

    -- cleanupIdleResources of an open pool takes the timed-out cells from the front of the queue,
    -- up to the first that has not timed out, which goes to the back. The resources of those cells
    -- are gone from the map, every other resource keeps its cell, and the pool stays well-formed.
    pub cleanup_lem :
        (now : ℕ) (p : Pool W)
        → Inv fr p
        → p.closed ≡ false
        → (gone : List ℕ) × (left : List ℕ) × IsDivided p now p.available gone left
          × ((cleanup f now p).available ≡ left)
          × All (λ q. lookup (p.heap q).resource (cleanup f now p).resources ≡ none) gone
          × ((r q : ℕ)
              → lookup r p.resources ≡ some q
              → All (λ j. j ≢ q) gone
              → lookup r (cleanup f now p).resources ≡ some q)
          × Inv fr (cleanup f now p)
    unfolding cleanup
    cleanup_lem now p v c =
        let found = collect_idle f p now p.available in
        let divided = collect_idle-IsDivided p now p.available in
        let parts = IsDivided-Parts p now p.available found.0 found.1 divided v.idle v.distinct in
        let queued = record p { available = found.1 } in
        let steady = destroy_all-Steady f found.0 queued in
        let c' =
          destroy_all-Cleared f fr found.0 queued
            (record { idle = parts.left_idle; distinct = parts.left_distinct; entries = v.entries })
            (All-imp (IsIdle fr p) (IsRegistered fr queued) found.0 (λ j h. h.0) parts.gone_idle)
            parts.gone_distinct parts.apart in
        let e : cleanup f now p ≡ destroy_all f found.0 queued = ground arith in
        (found.0, found.1, divided, rw e steady.same_queue, rw e c'.gone, rw e c'.kept, rw e c'.inv)
