-- ===== src/Pool/Ownership/Return.antt =====
-- internal/util/resource_pool.go: Release of a held resource.
use xiaozhi_esp32_server_gol.Common.{
  ℕ, ◌≡◌, ◌≢◌, refl, true, false, not, Option, none, some, [], ◌∷◌, if_given, Option-cases, inl,
  inr, lookup, lookup-delete, ◌++◌, length, arith, ltb, nat_eq, if_both, All, All-imp, All-zip,
  All-append, Distinct-concat,
}
use xiaozhi_esp32_server_gol.Common.Int.{pos, leb_ℤ}
use xiaozhi_esp32_server_gol.Pool.{
  Factory, Pool, Error, looking, creating, received, resetting, marking, removing, back, destroy,
  set_cell, put_back, rejected, release,
}
use xiaozhi_esp32_server_gol.Pool.Ownership.{
  Fresh, IsRegistered, IsIdle, Inv, Holds, Taken, LeavesHanded, destroy-Inv,
}

module _ {W : Type 0} {f : Factory W} (fr : Fresh f) where
  enqueue-Inv :
      (now : ℕ) (p : Pool W) (q : ℕ)
      → Inv fr p
      → IsRegistered fr p q
      → All (λ j. j ≢ q) p.available
      → Inv fr (record p {
        heap = set_cell p.heap q (record (p.heap q) { in_use = false; last_used = now });
        available = p.available ++ q ∷ [];
      })
  enqueue-Inv now p q v reg away =
      let p' = record p {
        heap = set_cell p.heap q (record (p.heap q) { in_use = false; last_used = now });
        available = p.available ++ q ∷ [];
      } in
      record {
        idle =
            All-append (IsIdle fr p') p.available (q ∷ [])
              (All-imp _ (IsIdle fr p') p.available (λ j h. ground arith)
                (All-zip (IsIdle fr p) (λ j. j ≢ q) p.available v.idle away))
              ((ground (arith, reg), tt));
        distinct = Distinct-concat p.available q v.distinct away;
        entries = λ s i h. ground (arith, v.entries s i);
      }

  marked-Inv :
      (now : ℕ) (p : Pool W) (q : ℕ)
      → Inv fr p
      → All (λ j. j ≢ q) p.available
      → Inv fr (record p {
        heap = set_cell p.heap q (record (p.heap q) { in_use = false; last_used = now });
      })
  marked-Inv now p q v away =
      let p' = record p {
        heap = set_cell p.heap q (record (p.heap q) { in_use = false; last_used = now });
      } in
      record {
        idle =
            All-imp _ (IsIdle fr p') p.available (λ j h. ground arith)
              (All-zip (IsIdle fr p) (λ j. j ≢ q) p.available v.idle away);
        distinct = v.distinct;
        entries = λ s i h. ground (arith, v.entries s i);
      }

  put_back-Inv :
      (now : ℕ) (p : Pool W) (r q : ℕ)
      → Inv fr p
      → IsRegistered fr p q
      → All (λ j. j ≢ q) p.available
      → Inv fr (put_back f now p r q)
  unfolding put_back
  put_back-Inv now p r q v reg away =
      let gone = destroy-Inv fr p q v reg away in
      let marked = record p {
        heap = set_cell p.heap q (record (p.heap q) { in_use = false; last_used = now });
      } in
      if_both (Inv fr) (rejected f p r) _ _ gone (
        if_both (Inv fr) (leb_ℤ p.config.max_idle (pos (length p.available))) _ _ gone (
          if_both (Inv fr) (ltb (length p.available) p.capacity) _ _
            (enqueue-Inv now p q v reg away)
            (destroy-Inv fr marked q (marked-Inv now p q v away) (ground arith) away)))

  -- Releasing a held resource succeeds and keeps the pool well-formed.
  pub release-Holds :
      (now r : ℕ) (p : Pool W)
      → Inv fr p
      → p.closed ≡ false
      → Holds fr p r
      → ((release f now (some r) p).0 ≡ none) × Inv fr (release f now (some r) p).1
  unfolding release
  release-Holds now r p v c (q, e, used, away) =
      let entry = v.entries r q e in
      let reg : IsRegistered fr p q = (ground (arith, entry), entry.1) in
      simp (c, e, used) (refl, put_back-Inv now p r q v reg away)

  -- A held cell is not in the queue.
  held_away :
      (p : Pool W) (q : ℕ) → Inv fr p → (p.heap q).in_use ≡ true → All (λ j. j ≢ q) p.available
  held_away p q v used =
      All-imp (IsIdle fr p) (λ j. j ≢ q) p.available (λ j h e. ground arith) v.idle

  destroy-Taken :
      (p : Pool W) (i q : ℕ)
      → IsRegistered fr p i
      → i ≢ q
      → Taken fr p q
      → Taken fr (destroy f p i) q
  unfolding destroy
  destroy-Taken p i q reg n t = (
    (
      (
        ground
            (arith, reg, t.0.0, lookup-delete (p.heap i).resource (p.heap q).resource p.resources),
        t.0.0.1,
      ),
      t.0.1,
    ),
    t.1,
  )

  put_back-Taken :
      (now : ℕ) (p : Pool W) (r i q : ℕ)
      → IsRegistered fr p i
      → i ≢ q
      → Taken fr p q
      → Taken fr (put_back f now p r i) q
  unfolding put_back
  put_back-Taken now p r i q reg n t =
      let gone = destroy-Taken p i q reg n t in
      let marked = record p {
        heap = set_cell p.heap i (record (p.heap i) { in_use = false; last_used = now });
      } in
      let kept : Taken fr marked q = ((ground (arith, t.0.0), ground (arith, t.0.1)), t.1) in
      let queued : Taken fr (record marked { available = p.available ++ i ∷ [] }) q =
        (kept.0, All-append (λ j. j ≢ q) p.available (i ∷ []) t.1 (n, tt)) in
      if_both (λ p'. Taken fr p' q) (rejected f p r) _ _ gone
        (if_both (λ p'. Taken fr p' q) (leb_ℤ p.config.max_idle (pos (length p.available))) _ _ gone
          (if_both (λ p'. Taken fr p' q) (ltb (length p.available) p.capacity) _ _ queued
            (destroy-Taken marked i q (ground (arith, reg)) n kept)))

  -- What holds of the pool before and behind a put back holds behind Release.
  release-any :
      (P : Pool W → Type 0) (now : ℕ) (o : Option ℕ) (p : Pool W)
      → P p
      → ((r i : ℕ)
          → lookup r p.resources ≡ some i
          → (p.heap i).in_use ≡ true
          → P (put_back f now p r i))
      → P (release f now o p).1
  unfolding release
  release-any P now none p b g = b
  release-any P now (some r) p b g = elim (Option-cases (lookup r p.resources)) [
    | inl e ↦ rw e (if_both (λ (x : Option Error × Pool W). P x.1) p.closed _ _ b b)
    | inr (i, e) ↦ rw e (
        if_both (λ (x : Option Error × Pool W). P x.1) p.closed _ _ b
          (if_given (λ (x : Option Error × Pool W). P x.1) (not (p.heap i).in_use) _ _ (λ _. b)
            (λ n. g r i e (ground arith))))
  ]

  release-Inv : (now : ℕ) (o : Option ℕ) (p : Pool W) → Inv fr p → Inv fr (release f now o p).1
  release-Inv now o p v = release-any (Inv fr) now o p v (λ r i e used.
      let entry = v.entries r i e in
      put_back-Inv now p r i v (ground (arith, entry), entry.1) (held_away p i v used))

  release-Taken :
      (now : ℕ) (o : Option ℕ) (p : Pool W) (q : ℕ)
      → Inv fr p
      → Taken fr p q
      → Inv fr (release f now o p).1 × Taken fr (release f now o p).1 q
  release-Taken now o p q v t = (
    release-Inv now o p v,
    release-any (λ p'. Taken fr p' q) now o p t
        (λ r i e used.
          let entry = v.entries r i e in
          put_back-Taken now p r i q (ground (arith, entry), entry.1) (λ s. ground arith) t),
  )

  -- A Release by another client leaves to a call what it has in its hands.
  pub release-LeavesHanded : (now : ℕ) (o : Option ℕ) → LeavesHanded fr (λ p. (release f now o p).1)
  release-LeavesHanded now o looking p n v = release-Inv now o p v
  release-LeavesHanded now o creating p n v = release-Inv now o p v
  release-LeavesHanded now o (received q) p n (v, t) = release-Taken now o p q v t
  release-LeavesHanded now o (resetting q) p n (v, t) = release-Taken now o p q v t
  release-LeavesHanded now o (marking q) p n (v, t) = release-Taken now o p q v t
  release-LeavesHanded now o (removing q b) p n (v, t) = release-Taken now o p q v t
  release-LeavesHanded now o (back x) p n v = absurd (ground (arith, n))
