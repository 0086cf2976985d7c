-- ===== src/Pool/Shutdown.antt =====
-- internal/util/resource_pool.go: Close, alone and in a race with AcquireWithTimeout.
use xiaozhi_esp32_server_gol.Common.{
  ℕ, ◌≡◌, ◌≢◌, Bool, true, false, none, some, List, [], ◌∷◌, arith, nat_eq, lookup, All, All-imp,
  Option-cases, inl, inr, ◌∙◌,
}
use xiaozhi_esp32_server_gol.Pool.{
  Factory, Pool, pool_closed, panic, acquire, acquire_step, looking, back, receive, release,
}
use xiaozhi_esp32_server_gol.Pool.Upkeep.{destroy_all, shut_down, close}
use xiaozhi_esp32_server_gol.Pool.Ownership.{Fresh, Inv, IsIdle, IsRegistered}
use xiaozhi_esp32_server_gol.Pool.Destroy.{
  IsEmpty, destroy_entries-gone, destroy_entries-entry, destroy_all-Cleared, destroy_all-Steady,
  destroy_entries-Steady,
}

module _ {W : Type 0} (f : Factory W) where
  shut_down-Steady :
      (p : Pool W)
      → ((shut_down f p).available ≡ [])
        × ((shut_down f p).closed ≡ true)
        × ((shut_down f p).chan_closed ≡ true)
  unfolding shut_down
  shut_down-Steady p =
      let emptied = record p { closed = true; chan_closed = true; available = [] } in
      let a = destroy_all-Steady f p.available emptied in
      let drained = destroy_all f p.available emptied in
      let b = destroy_entries-Steady f drained.resources drained in
      (b.same_queue ∙ a.same_queue, b.same_closed ∙ a.same_closed, b.same_chan ∙ a.same_chan)

  -- A client whose check of `closed` came before a Close, and whose select takes the closed queue
  -- before the ended context, dereferences nil.
  pub acquire-close_panics :
      (now : ℕ) (p : Pool W)
      → p.closed ≡ false
      → acquire_step f false now looking (close f p) ≡ (back panic, close f p)
  unfolding close acquire_step receive
  acquire-close_panics now p c = let (a, b, d) = shut_down-Steady p in ground (arith, a, b, d)

  module _ (fr : Fresh f) where
    All-none : (p : Pool W) (qs : List ℕ) → All (λ q. All (λ j. j ≢ q) []) qs
    All-none p [] = tt
    All-none p (q ∷ qs) = (tt, All-none p qs)

    shut_down-IsEmpty : (p : Pool W) → Inv fr p → IsEmpty f (shut_down f p)
    unfolding shut_down
    shut_down-IsEmpty p v r =
        let emptied = record p { closed = true; chan_closed = true; available = [] } in
        let drained = destroy_all f p.available emptied in
        let c =
          destroy_all-Cleared f fr p.available emptied
            (record { idle = tt; distinct = tt; entries = v.entries })
            (All-imp (IsIdle fr p) (IsRegistered fr emptied) p.available (λ j h. h.0) v.idle)
            v.distinct (All-none p p.available) in
        elim (Option-cases (lookup r drained.resources)) [
          | inl e ↦ destroy_entries-gone f drained.resources drained r e
          | inr (q, e) ↦
              destroy_entries-entry f drained.resources drained r q e ((c.inv).entries r q e).0
        ]

    -- Close of an open pool leaves no resource in the map and nothing in the queue. From then on
    -- AcquireWithTimeout and Release report an error, and a second Close does nothing.
    pub close_lem :
        (p : Pool W)
        → Inv fr p
        → p.closed ≡ false
        → let q = close f p in
          IsEmpty f q
          × (q.available ≡ [])
          × ((rs : List (Bool × ℕ × (Pool W → Pool W))) → acquire f rs q ≡ none)
          × ((now r : ℕ) → release f now (some r) q ≡ (some pool_closed, q))
          × (close f q ≡ q)
    unfolding close acquire release
    close_lem p v c =
        let (a, b, d) = shut_down-Steady p in
        let e : close f p ≡ shut_down f p = ground arith in
        rw e (
          shut_down-IsEmpty p v,
          a,
          λ rs. ground (arith, b),
          λ now r. ground (arith, b),
          ground (arith, b),
        )
