-- ===== src/Pool/Upkeep.antt =====
-- internal/util/resource_pool.go: construction, `Stats`, `Resize`, the cleanup of idle resources
-- and `Close`.
use xiaozhi_esp32_server_gol.Common.{
  ℕ, zero, suc, ◌-◌, Bool, true, false, Option, none, some, List, [], ◌∷◌, ◌++◌, length,
  if◌then◌else◌, nat_eq,
}
use xiaozhi_esp32_server_gol.Common.Int.{ℤ, pos, pos_part, leb_ℤ, ltb_ℤ}
use xiaozhi_esp32_server_gol.Pool.{
  Config, Factory, Pool, Error, bad_max_size, bad_min_size, min_above_max, create_failed,
  pool_closed, blank, pre_create, destroy,
}

pub record Stats : Type 0 where
  pub total : ℕ
  pub idle : ℕ
  pub in_use : ℕ
  pub is_closed : Bool

-- The cells of the map's entries that are marked in use.
abbrev pub count_in_use : {W : Type 0} → Pool W → List (ℕ × ℕ) → ℕ
count_in_use p [] = 0
count_in_use p ((r, q) ∷ m) =
    let rest = count_in_use p m in if (p.heap q).in_use then suc rest else rest

unfoldable pub stats : {W : Type 0} → Pool W → Stats
stats p = record {
  total = length p.resources;
  idle = length p.available;
  in_use = count_in_use p p.resources;
  is_closed = p.closed;
}

module _ {W : Type 0} (f : Factory W) where
  abbrev pub fresh_pool : Config → W → Pool W
  fresh_pool c w = record {
    config = c;
    capacity = pos_part c.max_size;
    available = [];
    chan_closed = false;
    resources = [];
    heap = λ _. blank;
    next = 0;
    closed = false;
    world = w;
  }

  -- `for item := range ch` over a closed channel, and `for _, pooled := range toRemove`.
  unfoldable pub destroy_all : List ℕ → Pool W → Pool W
  destroy_all [] p = p
  destroy_all (q ∷ qs) p = destroy_all qs (destroy f p q)

  -- `range p.resources`: each entry is destroyed, which deletes the key of its own cell.
  unfoldable pub destroy_entries : List (ℕ × ℕ) → Pool W → Pool W
  destroy_entries [] p = p
  destroy_entries ((r, q) ∷ m) p = destroy_entries m (destroy f p q)

  -- `Close` behind its guard; the cleanup goroutine has ended when it closes the queue.
  unfoldable pub shut_down : Pool W → Pool W
  shut_down p =
      let drained =
        destroy_all p.available (record p { closed = true; chan_closed = true; available = [] }) in
      destroy_entries drained.resources drained

  unfoldable pub close : Pool W → Pool W
  close p = if p.closed then p else shut_down p

  -- `NewResourcePool` with a configuration and a factory that are not nil.
  unfoldable pub new_pool : Config → ℕ → W → Option Error × Pool W
  new_pool c now w =
      let p = fresh_pool c w in
      if leb_ℤ c.max_size (pos 0)
      then (some bad_max_size, p)
      else if ltb_ℤ c.min_size (pos 0)
      then (some bad_min_size, p)
      else if ltb_ℤ c.max_size c.min_size
      then (some min_above_max, p)
      else elim (pre_create f (pos_part c.min_size) now p).0 [
        | true ↦ (none, (pre_create f (pos_part c.min_size) now p).1)
        | false ↦ (some create_failed, close (pre_create f (pos_part c.min_size) now p).1)
      ]

  -- `for excess > 0` in `Resize`, with fuel: the `break` of the default case leaves the `select`
  -- only, so the loop goes on. `none` means that the fuel ran out. The list is `p.available`.
  unfoldable pub shrink : ℕ → ℕ → List ℕ → Pool W → Option (Pool W)
  shrink zero excess qs p = none
  shrink (suc fuel) zero qs p = some p
  shrink (suc fuel) (suc excess) [] p = shrink fuel (suc excess) [] p
  shrink (suc fuel) (suc excess) (q ∷ qs) p =
      shrink fuel excess qs (destroy f (record p { available = qs }) q)

  abbrev pub with_max : Pool W → ℤ → Pool W
  with_max p n = record p { config = record (p.config) { max_size = n } }

  -- `Resize`; `excess` is not positive where the truncated difference is 0.
  unfoldable pub resize : ℕ → ℤ → Pool W → Option (Option Error × Pool W)
  resize fuel n p =
      if leb_ℤ n (pos 0)
      then some (some bad_max_size, p)
      else if p.closed
      then some (some pool_closed, p)
      else if ltb_ℤ n p.config.max_size
      then elim (shrink fuel (length p.resources - pos_part n) p.available (with_max p n)) [
        | none ↦ none
        | some p' ↦ some (none, p')
      ]
      else some (none, with_max p n)

  abbrev pub timed_out_idle : Pool W → ℕ → ℕ → Bool
  timed_out_idle p now q = ltb_ℤ p.config.idle_timeout (pos (now - (p.heap q).last_used))

  -- The first loop of `cleanupIdleResources`: what it removes, and the queue that it leaves. The
  -- first item that has not timed out goes to the back.
  unfoldable pub collect_idle : Pool W → ℕ → List ℕ → List ℕ × List ℕ
  collect_idle p now [] = ([], [])
  collect_idle p now (q ∷ qs) =
      let rest = collect_idle p now qs in
      if timed_out_idle p now q then (q ∷ rest.0, rest.1) else ([], qs ++ q ∷ [])

  -- `cleanupIdleResources`
  unfoldable pub cleanup : ℕ → Pool W → Pool W
  cleanup now p =
      if p.closed
      then p
      else let found = collect_idle p now p.available in
        destroy_all found.0 (record p { available = found.1 })
