-- ===== src/Pool.antt =====
-- internal/util/resource_pool.go: the generic resource pool (types, creation, borrowing, returning).
-- The maintenance operations are in Pool/Upkeep. A resource is a number; a `pooledResource` is a
-- cell of a heap that the queue `available` and the map `resources` both point to. Methods run
-- under the pool's lock and take the time as an argument, but for AcquireWithTimeout, which holds the
-- lock for some of its steps only; the factory is a parameter.
pub mod Upkeep
pub mod Calls
pub mod Size
pub mod Bound
pub mod Lease
pub mod Ownership
pub mod Shrink
pub mod Destroy
pub mod Shutdown
pub mod Cleanup
pub mod Tests
use xiaozhi_esp32_server_gol.Common.{
  ℕ, suc, ◌+◌, Bool, true, false, not, ◌&&◌, ◌||◌, Option, none, some, List, [], ◌∷◌, ◌++◌, length,
  ltb, leb, ◌==◌, if◌then◌else◌, lookup, insert, delete, nat_eq,
}
use xiaozhi_esp32_server_gol.Common.Int.{ℤ, pos, leb_ℤ, ltb_ℤ}

pub record Config : Type 0 where
  pub max_size : ℤ
  pub min_size : ℤ
  pub max_idle : ℤ
  pub idle_timeout : ℤ
  pub validate_on_borrow : Bool
  pub validate_on_return : Bool

-- `ResourceFactory` and `Resource`, which the pool's clients implement. `W` is whatever state they
-- keep; `create` fails with `none`, `reset` with `false`.
pub record Factory (W : Type 0) : Type 0 where
  pub create : W → Option ℕ × W
  pub validate : W → ℕ → Bool
  pub is_valid : W → ℕ → Bool
  pub reset : W → ℕ → Bool × W
  pub close : W → ℕ → W

pub record Pooled : Type 0 where
  pub resource : ℕ
  pub create_time : ℕ
  pub last_used : ℕ
  pub in_use : Bool

-- `capacity` is that of the channel `available`, whose items are `available`, oldest first.
pub record Pool (W : Type 0) : Type 0 where
  pub config : Config
  pub capacity : ℕ
  pub available : List ℕ
  pub chan_closed : Bool
  pub resources : List (ℕ × ℕ)
  pub heap : ℕ → Pooled
  pub next : ℕ
  pub closed : Bool
  pub world : W

pub data Error : Type 0 where
  bad_max_size bad_min_size min_above_max create_failed : Error
  pool_closed nil_resource not_managed not_in_use : Error

-- A write through the pointer `q`.
abbrev pub set_cell : (ℕ → Pooled) → ℕ → Pooled → ℕ → Pooled
set_cell h q c i = if q == i then c else h i

abbrev pub blank : Pooled
blank = record { resource = 0; create_time = 0; last_used = 0; in_use = false }

abbrev pub new_cell : ℕ → ℕ → Bool → Pooled
new_cell r now used = record { resource = r; create_time = now; last_used = now; in_use = used }

-- How `AcquireWithTimeout` ends. `panic` is the nil dereference on a receive from the closed queue.
pub data Outcome : Type 0 where
  got : ℕ → Outcome
  timed_out panic : Outcome

-- Where a call of `AcquireWithTimeout` is behind its check of `closed`: at its `select`, about to create
-- a resource, with a received pointer that is to be validated, reset or marked, about to destroy one
-- and then to create one or not, or back. Others may act at each of these places.
pub data Borrower : Type 0 where
  looking creating : Borrower
  received resetting marking : ℕ → Borrower
  removing : ℕ → Bool → Borrower
  back : Outcome → Borrower

abbrev pub is_back : Borrower → Bool
is_back (back o) = true
is_back _ = false

abbrev pub or_again : {W : Type 0} → Option ℕ × Pool W → Borrower × Pool W
or_again (some r, p) = (back (got r), p)
or_again (none, p) = (looking, p)

module _ {W : Type 0} (f : Factory W) where
  -- `&pooledResource{…}` for `r`, entered in the map.
  unfoldable pub register : Pool W → ℕ → ℕ → Bool → W → Pool W
  register p r now used w = record p {
    heap = set_cell p.heap p.next (new_cell r now used);
    next = suc p.next;
    resources = insert r p.next p.resources;
    world = w;
  }

  -- `preCreateResources`: `MinSize` rounds.
  unfoldable pub pre_create : ℕ → ℕ → Pool W → Bool × Pool W
  pre_create ℕ.zero now p = (true, p)
  pre_create (suc n) now p =
      let (made, w) = f.create p.world in
      elim made [
        | none ↦ (false, record p { world = w })
        | some r ↦
            pre_create n now
              (record (register p r now false w) { available = p.available ++ p.next ∷ [] })
      ]

  -- `destroyResourceUnsafe`; `destroyResource` is the same under the lock.
  unfoldable pub destroy : Pool W → ℕ → Pool W
  destroy p q = record p {
    world = f.close p.world (p.heap q).resource;
    resources = delete (p.heap q).resource p.resources;
  }

  -- `tryCreateResource`: `none` when the pool is full or the factory fails.
  unfoldable pub try_create : ℕ → Pool W → Option ℕ × Pool W
  try_create now p =
      if leb_ℤ p.config.max_size (pos (length p.resources))
      then (none, p)
      else elim (f.create p.world).0 [
        | none ↦ (none, record p { world = (f.create p.world).1 })
        | some r ↦ (some r, register p r now true (f.create p.world).1)
      ]

  abbrev pub usable : Pool W → ℕ → Bool
  usable p q =
      not p.config.validate_on_borrow
      || (f.is_valid p.world (p.heap q).resource && f.validate p.world (p.heap q).resource)

  -- The `select` on the content of the queue: whether the context has ended and its case is taken is
  -- the scheduler's choice.
  unfoldable pub receive : Bool → List ℕ → Pool W → Borrower × Pool W
  receive true qs p = (back timed_out, p)
  receive false (q ∷ qs) p = (received q, record p { available = qs })
  receive false [] p = if p.chan_closed then (back panic, p) else (creating, p)

  unfoldable pub reset_cell : ℕ → Pool W → Borrower × Pool W
  reset_cell q p =
      let r = f.reset p.world (p.heap q).resource in
      (if r.0 then marking q else removing q false, record p { world = r.1 })

  -- One step of the loop in `AcquireWithTimeout`.
  unfoldable pub acquire_step : Bool → ℕ → Borrower → Pool W → Borrower × Pool W
  acquire_step ended now looking p = receive ended p.available p
  acquire_step ended now (received q) p = (if usable p q then resetting q else removing q true, p)
  acquire_step ended now (resetting q) p = reset_cell q p
  acquire_step ended now (removing q creates) p =
      (if creates then creating else looking, destroy p q)
  acquire_step ended now creating p = or_again (try_create now p)
  acquire_step ended now (marking q) p = (
    back (got (p.heap q).resource),
    record p { heap = set_cell p.heap q (record (p.heap q) { in_use = true; last_used = now }) },
  )
  acquire_step ended now (back o) p = (back o, p)

  -- The steps that are scheduled for a call, each with what others do with the pool behind it.
  unfoldable pub acquire_steps :
      List (Bool × ℕ × (Pool W → Pool W)) → Borrower → Pool W → Borrower × Pool W
  acquire_steps [] b p = (b, p)
  acquire_steps ((ended, now, others) ∷ rs) b p =
      let r = acquire_step ended now b p in
      let rest = acquire_steps rs r.0 (others r.1) in if is_back r.0 then r else rest

  -- `AcquireWithTimeout`, where `none` is the error of a closed pool.
  unfoldable pub acquire : List (Bool × ℕ × (Pool W → Pool W)) → Pool W → Option (Borrower × Pool W)
  acquire rs p = if p.closed then none else some (acquire_steps rs looking p)

  abbrev pub rejected : Pool W → ℕ → Bool
  rejected p r = p.config.validate_on_return && not (f.is_valid p.world r && f.validate p.world r)

  -- The part of `Release` behind its guards, for the cell `q` of resource `r`.
  unfoldable pub put_back : ℕ → Pool W → ℕ → ℕ → Pool W
  put_back now p r q =
      if rejected p r
      then destroy p q
      else if leb_ℤ p.config.max_idle (pos (length p.available))
      then destroy p q
      else let p' = record p {
        heap = set_cell p.heap q (record (p.heap q) { in_use = false; last_used = now });
      } in
        if ltb (length p.available) p.capacity
        then record p' { available = p.available ++ q ∷ [] }
        else destroy p' q

  -- `Release`: `inl` is the error, which leaves the pool as it was.
  unfoldable pub release : ℕ → Option ℕ → Pool W → Option Error × Pool W
  release now none p = (some nil_resource, p)
  release now (some r) p = if p.closed then (some pool_closed, p) else elim (lookup r p.resources) [
    | none ↦ (some not_managed, p)
    | some q ↦ if not (p.heap q).in_use then (some not_in_use, p) else (none, put_back now p r q)
  ]
