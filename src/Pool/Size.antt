-- ===== src/Pool/Size.antt =====
-- internal/util/resource_pool.go: what changes the number of resources.
use xiaozhi_esp32_server_gol.Common.{
  ℕ, ◌≤◌, ◌≡◌, refl, sym, subst, Bool, true, false, Option, none, some, List, [], ◌∷◌, length,
  arith, ◌∙◌, Option-cases, nat_eq, length-insert, length-delete, inl, inr, if_both,
}
use xiaozhi_esp32_server_gol.Common.Int.{ℤ, pos, ◌≤ℤ◌}
use xiaozhi_esp32_server_gol.Pool.{
  Config, Factory, Pool, Borrower, looking, creating, received, resetting, marking, removing, back,
  or_again, register, destroy, try_create, receive, reset_cell, acquire_step, put_back,
}
use xiaozhi_esp32_server_gol.Pool.Upkeep.{destroy_all, destroy_entries}

-- MaxSize and the number of resources are at most `n`.
pub record Within {W : Type 0} (n : ℤ) (p : Pool W) : Type 0 where
  pub max_within : p.config.max_size ≤ℤ n
  pub bounded : pos (length p.resources) ≤ℤ n

module _ {W : Type 0} (f : Factory W) where
  -- A change that keeps the configuration and does not add resources.
  pub record Shrinks (p q : Pool W) : Type 0 where
    pub config_same : q.config ≡ p.config
    pub fewer : length q.resources ≤ length p.resources

  pub destroy-Shrinks : (p : Pool W) (i : ℕ) → Shrinks p (destroy f p i)
  unfolding destroy
  destroy-Shrinks p i = record {
    config_same = refl;
    fewer = length-delete (p.heap i).resource p.resources;
  }

  Shrinks-trans : {p q r : Pool W} → Shrinks p q → Shrinks q r → Shrinks p r
  Shrinks-trans a b = record {
    config_same = b.config_same ∙ a.config_same;
    fewer = omega (arith, a.fewer, b.fewer);
  }

  pub Shrinks-Within : {n : ℤ} {p q : Pool W} → Shrinks p q → Within n p → Within n q
  Shrinks-Within {n} s b = record {
    max_within = subst (λ (c : Config). c.max_size ≤ℤ n) (sym s.config_same) b.max_within;
    bounded = omega (arith, s.fewer, b.bounded);
  }

  pub destroy_all-Shrinks : (qs : List ℕ) (p : Pool W) → Shrinks p (destroy_all f qs p)
  unfolding destroy_all
  destroy_all-Shrinks [] p = record { config_same = refl; fewer = omega arith }
  destroy_all-Shrinks (q ∷ qs) p =
      Shrinks-trans (destroy-Shrinks p q) (destroy_all-Shrinks qs (destroy f p q))

  pub destroy_entries-Shrinks : (m : List (ℕ × ℕ)) (p : Pool W) → Shrinks p (destroy_entries f m p)
  unfolding destroy_entries
  destroy_entries-Shrinks [] p = record { config_same = refl; fewer = omega arith }
  destroy_entries-Shrinks ((r, q) ∷ m) p =
      Shrinks-trans (destroy-Shrinks p q) (destroy_entries-Shrinks m (destroy f p q))

  module _ {n : ℤ} where
    try_create-Within : (now : ℕ) (p : Pool W) → Within n p → Within n (try_create f now p).1
    unfolding try_create register
    try_create-Within now p b = elim (Option-cases (f.create p.world).0) [
      | inl e ↦ record {
        max_within = ground (arith, b.max_within);
        bounded = ground (arith, b.bounded);
      }
      | inr (r, e) ↦ record {
        max_within = ground (arith, b.max_within);
        bounded = ground (arith, b.max_within, b.bounded, length-insert r p.next p.resources);
      }
    ]

    or_again-Within : (r : Option ℕ × Pool W) → Within n r.1 → Within n (or_again r).1
    or_again-Within (some r, p) b = b
    or_again-Within (none, p) b = b

    receive-Within :
        (ended : Bool) (qs : List ℕ) (p : Pool W) → Within n p → Within n (receive f ended qs p).1
    unfolding receive
    receive-Within true qs p b = b
    receive-Within false [] p b =
        if_both (λ (r : Borrower × Pool W). Within n r.1) p.chan_closed _ _ b b
    receive-Within false (q ∷ qs) p b = record { max_within = b.max_within; bounded = b.bounded }

    pub acquire_step-Within :
        (ended : Bool) (now : ℕ) (c : Borrower) (p : Pool W)
        → Within n p
        → Within n (acquire_step f ended now c p).1
    unfolding acquire_step reset_cell
    acquire_step-Within ended now looking p b = receive-Within ended p.available p b
    acquire_step-Within ended now creating p b =
        or_again-Within (try_create f now p) (try_create-Within now p b)
    acquire_step-Within ended now (received q) p b = b
    acquire_step-Within ended now (resetting q) p b = record {
      max_within = b.max_within;
      bounded = b.bounded;
    }
    acquire_step-Within ended now (removing q creates) p b = Shrinks-Within (destroy-Shrinks p q) b
    acquire_step-Within ended now (marking q) p b = record {
      max_within = b.max_within;
      bounded = b.bounded;
    }
    acquire_step-Within ended now (back o) p b = b

    pub put_back-Within :
        (now : ℕ) (p : Pool W) (r q : ℕ) → Within n p → Within n (put_back f now p r q)
    unfolding put_back destroy
    put_back-Within now p r q b = record {
      max_within = ground (arith, b.max_within);
      bounded = ground (arith, b.bounded, length-delete (p.heap q).resource p.resources);
    }
