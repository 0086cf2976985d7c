-- ===== src/Pool/Destroy.antt =====
-- internal/util/resource_pool.go: what destroying several resources leaves.
use xiaozhi_esp32_server_gol.Common.{
  ℕ, ◌≡◌, ◌≢◌, refl, none, some, List, [], ◌∷◌, arith, nat_eq, lookup, lookup-delete,
  lookup-delete_self, All, All-imp, All-zip, Distinct, inl, inr, Bool-cases, ◌==◌,
}
use xiaozhi_esp32_server_gol.Pool.{Factory, Pool, destroy}
use xiaozhi_esp32_server_gol.Pool.Upkeep.{destroy_all, destroy_entries}
use xiaozhi_esp32_server_gol.Pool.Ownership.{Fresh, Inv, IsRegistered, destroy-Inv}

module _ {W : Type 0} (f : Factory W) where
  -- No resource is in the map.
  abbrev pub IsEmpty : Pool W → Type 0
  IsEmpty p = (r : ℕ) → lookup r p.resources ≡ none

  pub destroy-gone :
      (p : Pool W) (q r : ℕ)
      → lookup r p.resources ≡ none
      → lookup r (destroy f p q).resources ≡ none
  unfolding destroy
  destroy-gone p q r h = ground (arith, lookup-delete (p.heap q).resource r p.resources)

  pub destroy_entries-gone :
      (m : List (ℕ × ℕ)) (p : Pool W) (r : ℕ)
      → lookup r p.resources ≡ none
      → lookup r (destroy_entries f m p).resources ≡ none
  unfolding destroy_entries
  destroy_entries-gone [] p r h = h
  destroy_entries-gone ((s, q) ∷ m) p r h =
      destroy_entries-gone m (destroy f p q) r (destroy-gone p q r h)

  pub destroy_entries-entry :
      (m : List (ℕ × ℕ)) (p : Pool W) (r q : ℕ)
      → lookup r m ≡ some q
      → (p.heap q).resource ≡ r
      → lookup r (destroy_entries f m p).resources ≡ none
  unfolding destroy_entries lookup
  destroy_entries-entry [] p r q h e = cc
  destroy_entries-entry ((s, i) ∷ m) p r q h e = elim (Bool-cases (s == r)) [
    | inl hit ↦
        destroy_entries-gone m (destroy f p i) r
          (unfold destroy in ground (arith, lookup-delete_self r p.resources))
    | inr miss ↦ destroy_entries-entry m (destroy f p i) r q (ground arith) (unfold destroy in e)
  ]

  module _ (fr : Fresh f) where
    -- What destroying a list of idle cells leaves.
    pub record Cleared (qs : List ℕ) (p p' : Pool W) : Type 0 where
      pub inv : Inv fr p'
      pub kept_cells : p'.heap ≡ p.heap
      pub gone : All (λ q. lookup (p.heap q).resource p'.resources ≡ none) qs
      pub kept :
          (r q : ℕ)
          → lookup r p.resources ≡ some q
          → All (λ j. j ≢ q) qs
          → lookup r p'.resources ≡ some q

    pub destroy_all-gone :
        (qs : List ℕ) (p : Pool W) (r : ℕ)
        → lookup r p.resources ≡ none
        → lookup r (destroy_all f qs p).resources ≡ none
    unfolding destroy_all
    destroy_all-gone [] p r h = h
    destroy_all-gone (q ∷ qs) p r h = destroy_all-gone qs (destroy f p q) r (destroy-gone p q r h)

    pub destroy_all-Cleared :
        (qs : List ℕ) (p : Pool W)
        → Inv fr p
        → All (IsRegistered fr p) qs
        → Distinct qs
        → All (λ q. All (λ j. j ≢ q) p.available) qs
        → Cleared qs p (destroy_all f qs p)
    unfolding destroy_all destroy
    destroy_all-Cleared [] p v reg d away = record {
      inv = v;
      kept_cells = refl;
      gone = tt;
      kept = λ r q h a. h;
    }
    destroy_all-Cleared (q ∷ qs) p v reg d away =
        let rest =
          destroy_all-Cleared qs (destroy f p q) (destroy-Inv fr p q v reg.0 away.0)
            (All-imp _ (IsRegistered fr (destroy f p q)) qs
              (λ j h.
                ground (arith, lookup-delete (p.heap q).resource (p.heap j).resource p.resources))
              (All-zip (IsRegistered fr p) (λ j. j ≢ q) qs reg.1 d.0))
            d.1 away.1 in
        record {
          inv = rest.inv;
          kept_cells = rest.kept_cells;
          gone = (
            destroy_all-gone qs (destroy f p q) (p.heap q).resource
                (lookup-delete_self (p.heap q).resource p.resources),
            rest.gone,
          );
          kept = λ r i h a.
              rest.kept r i
                (ground (arith, lookup-delete (p.heap q).resource r p.resources, reg.0, a.0)) a.1;
        }

  -- Destroying cells changes neither the queue nor the flags.
  pub record Steady (p p' : Pool W) : Type 0 where
    pub same_queue : p'.available ≡ p.available
    pub same_closed : p'.closed ≡ p.closed
    pub same_chan : p'.chan_closed ≡ p.chan_closed

  pub destroy_all-Steady : (qs : List ℕ) (p : Pool W) → Steady p (destroy_all f qs p)
  unfolding destroy_all destroy
  destroy_all-Steady [] p = record { same_queue = refl; same_closed = refl; same_chan = refl }
  destroy_all-Steady (q ∷ qs) p =
      let s = destroy_all-Steady qs (destroy f p q) in
      record { same_queue = s.same_queue; same_closed = s.same_closed; same_chan = s.same_chan }

  pub destroy_entries-Steady : (m : List (ℕ × ℕ)) (p : Pool W) → Steady p (destroy_entries f m p)
  unfolding destroy_entries destroy
  destroy_entries-Steady [] p = record { same_queue = refl; same_closed = refl; same_chan = refl }
  destroy_entries-Steady ((r, q) ∷ m) p =
      let s = destroy_entries-Steady m (destroy f p q) in
      record { same_queue = s.same_queue; same_closed = s.same_closed; same_chan = s.same_chan }
