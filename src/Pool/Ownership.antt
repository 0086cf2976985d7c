-- ===== src/Pool/Ownership.antt =====
-- internal/util/resource_pool.go: who holds a resource. The queue holds each idle resource once,
-- and what a client holds is registered, marked in use and not in the queue. The children prove
-- it of borrowing and of returning.
pub mod Borrow
pub mod Return
use xiaozhi_esp32_server_gol.Common.{
  ℕ, zero, suc, ◌+◌, ◌≤◌, ◌<◌, ◌≡◌, ◌≢◌, refl, sym, ap, Bool, true, false, Option, none, some, List,
  [], ◌∷◌, ◌++◌, length, arith, if◌then◌else◌, nat_eq, Bool-cases, if_both, inl, inr, ◌∙◌,
  Option-cases, lookup, insert, delete, not, All, All-imp, All-zip, All-append, Distinct,
  Distinct-concat, lookup-insert, lookup-delete, ◌==◌,
}
use xiaozhi_esp32_server_gol.Common.Int.{pos, leb_ℤ}
use xiaozhi_esp32_server_gol.Pool.{
  Factory, Pool, Pooled, Outcome, got, timed_out, panic, Borrower, looking, creating, received,
  resetting, marking, removing, back, is_back, or_again, register, set_cell, new_cell, destroy,
  try_create, put_back, rejected, release, usable,
}

-- What a factory promises: a resource that it creates is none of those that it made before. `Made`
-- is the set of those, which grows only.
pub record Fresh {W : Type 0} (f : Factory W) : Type 1 where
  pub Made : W → ℕ → Type 0
  pub create_new : (w : W) (r : ℕ) → (f.create w).0 ≡ some r → ¬ Made w r
  pub create_made : (w : W) (r : ℕ) → (f.create w).0 ≡ some r → Made (f.create w).1 r
  pub create_keeps : (w : W) (r : ℕ) → Made w r → Made (f.create w).1 r
  pub reset_keeps : (w : W) (s r : ℕ) → Made w r → Made (f.reset w s).1 r
  pub close_keeps : (w : W) (s r : ℕ) → Made w r → Made (f.close w s) r

module _ {W : Type 0} {f : Factory W} (fr : Fresh f) where
  open fr use {Made, create_new, create_made, create_keeps, reset_keeps, close_keeps}

  -- The cell `q` is the one registered for its resource.
  abbrev pub IsRegistered : Pool W → ℕ → Type 0
  IsRegistered p q = (lookup (p.heap q).resource p.resources ≡ some q) × (q < p.next)

  abbrev pub IsIdle : Pool W → ℕ → Type 0
  IsIdle p q = IsRegistered p q × ((p.heap q).in_use ≡ false)

  abbrev pub EntryOk : Pool W → ℕ → ℕ → Type 0
  EntryOk p r q = ((p.heap q).resource ≡ r) × (q < p.next) × Made p.world r

  pub record Inv (p : Pool W) : Type 0 where
    pub idle : All (IsIdle p) p.available
    pub distinct : Distinct p.available
    pub entries : (r q : ℕ) → lookup r p.resources ≡ some q → EntryOk p r q

  -- A client holds `r`: it is registered, in use, and its cell is not in the queue.
  abbrev pub Holds : Pool W → ℕ → Type 0
  Holds p r =
      (q : ℕ) × (lookup r p.resources ≡ some q)
      × ((p.heap q).in_use ≡ true)
      × All (λ j. j ≢ q) p.available

  pub destroy-Inv :
      (p : Pool W) (q : ℕ)
      → Inv p
      → IsRegistered p q
      → All (λ j. j ≢ q) p.available
      → Inv (destroy f p q)
  unfolding destroy
  destroy-Inv p q v reg away = record {
    idle =
        All-imp _ (IsIdle (destroy f p q)) p.available
          (λ j h. ground (arith, lookup-delete (p.heap q).resource (p.heap j).resource p.resources))
          (All-zip (IsIdle p) (λ j. j ≢ q) p.available v.idle away);
    distinct = v.distinct;
    entries = λ r i h. ground (
      arith,
      lookup-delete (p.heap q).resource r p.resources,
      v.entries r i,
      close_keeps p.world (p.heap q).resource r,
    );
  }

  pub register-Inv :
      (now : ℕ) (p : Pool W) (r : ℕ)
      → (f.create p.world).0 ≡ some r
      → Inv p
      → Inv (register f p r now true (f.create p.world).1)
  unfolding register
  register-Inv now p r e v =
      let p' = register f p r now true (f.create p.world).1 in
      let unknown : (q : ℕ) → lookup r p.resources ≢ some q =
        λ q h. create_new p.world r e (v.entries r q h).2 in
      record {
        idle =
            All-imp (IsIdle p) (IsIdle p') p.available
              (λ j h.
                ground (arith, lookup-insert r (p.heap j).resource p.next p.resources, unknown j))
              v.idle;
        distinct = v.distinct;
        entries = λ s i h. ground (
          arith,
          lookup-insert r s p.next p.resources,
          v.entries s i,
          create_made p.world r e,
          create_keeps p.world s,
        );
      }

  pub register-Holds :
      (now : ℕ) (p : Pool W) (r : ℕ)
      → Inv p
      → Holds (register f p r now true (f.create p.world).1) r
  unfolding register
  register-Holds now p r v = (
    p.next,
    ground (arith, lookup-insert r r p.next p.resources),
    ground arith,
    All-imp (IsIdle p) (λ j. j ≢ p.next) p.available (λ j h e. ground arith) v.idle,
  )

  -- A cell that was taken from the queue and is not marked yet.
  abbrev pub Taken : Pool W → ℕ → Type 0
  Taken p q = IsIdle p q × All (λ j. j ≢ q) p.available

  -- The pool and what a call of AcquireWithTimeout has in its hands.
  abbrev pub Handed : Borrower → Pool W → Type 0
  Handed (back (got r)) p = Inv p × Holds p r
  Handed (received q) p = Inv p × Taken p q
  Handed (resetting q) p = Inv p × Taken p q
  Handed (marking q) p = Inv p × Taken p q
  Handed (removing q b) p = Inv p × Taken p q
  Handed _ p = Inv p

  -- What others do that leaves to the call what it has in its hands.
  abbrev pub LeavesHanded : (Pool W → Pool W) → Type 0
  LeavesHanded others =
      (b : Borrower) (p : Pool W) → is_back b ≡ false → Handed b p → Handed b (others p)

  pub same_world-Inv :
      (p : Pool W) (w : W)
      → ((r : ℕ) → Made p.world r → Made w r)
      → Inv p
      → Inv (record p { world = w })
  same_world-Inv p w keeps v = record {
    idle = v.idle;
    distinct = v.distinct;
    entries = λ r q h. let e = v.entries r q h in (e.0, e.1, keeps r e.2);
  }

  pub try_create-Handed :
      (now : ℕ) (p : Pool W) → Inv p → let r = or_again (try_create f now p) in Handed r.0 r.1
  unfolding try_create
  try_create-Handed now p v =
      elim (Bool-cases (leb_ℤ p.config.max_size (pos (length p.resources)))) [
        | inl full ↦ rw full v
        | inr room ↦ rw room (elim (Option-cases (f.create p.world).0) [
          | inl e ↦ rw e (same_world-Inv p (f.create p.world).1 (create_keeps p.world) v)
          | inr (r, e) ↦ rw e (register-Inv now p r e v, register-Holds now p r v)
        ])
      ]

  pub take-Inv :
      (now : ℕ) (p : Pool W) (q : ℕ)
      → Inv p
      → IsRegistered p q
      → All (λ j. j ≢ q) p.available
      → let p' = record p {
        heap = set_cell p.heap q (record (p.heap q) { in_use = true; last_used = now });
      } in
        Inv p' × Holds p' (p.heap q).resource
  take-Inv now p q v reg away =
      let p' = record p {
        heap = set_cell p.heap q (record (p.heap q) { in_use = true; last_used = now });
      } in
      (
        record {
          idle =
              All-imp _ (IsIdle p') p.available (λ j h. ground arith)
                (All-zip (IsIdle p) (λ j. j ≢ q) p.available v.idle away);
          distinct = v.distinct;
          entries = λ s i h. ground (arith, v.entries s i);
        },
        (q, reg.0, ground arith, away),
      )
