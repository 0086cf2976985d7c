-- ===== src/Common/Sorting.antt =====
-- Stable sorting by a signed priority, lowest first, and where a new item comes to stand.
use mathlib.Core.Path.{◌≡◌, refl, ap, sym, ◌∙◌}
use mathlib.Core.Logic.{inl, inr}
use mathlib.Core.Bool.{true, false}
use mathlib.Core.List.{List, [], ◌∷◌, ◌++◌, append_assoc, append-nil}
use native.Mathlib.Omega.{arith}
use xiaozhi_esp32_server_gol.Common.Tests.{if◌then◌else◌, if_both, Bool-cases}
use xiaozhi_esp32_server_gol.Common.Lists.{All, All-append, All-imp, All-zip}
use xiaozhi_esp32_server_gol.Common.Int.{ℤ, ◌≤ℤ◌, ltb_ℤ}

module _ {A : Type 0} (priority : A → ℤ) where
  -- Before the first item of a greater priority.
  unfoldable pub insert_sorted : A → List A → List A
  insert_sorted f [] = f ∷ []
  insert_sorted f (g ∷ gs) =
      if ltb_ℤ (priority f) (priority g) then f ∷ g ∷ gs else g ∷ insert_sorted f gs

  -- `sort.SliceStable` by priority, behind the items that are sorted already.
  unfoldable pub sort_onto : List A → List A → List A
  sort_onto acc [] = acc
  sort_onto acc (f ∷ fs) = sort_onto (insert_sorted f acc) fs

  abbrev pub Sorted : List (A) → Type 0
  Sorted [] = Unit
  Sorted (f ∷ fs) = All (λ g. priority f ≤ℤ priority g) fs × Sorted fs

  insert_last :
      (f : A) (fs : List (A))
      → All (λ g. priority g ≤ℤ priority f) fs
      → insert_sorted f fs ≡ fs ++ f ∷ []
  unfolding insert_sorted
  insert_last f [] h = refl
  insert_last f (g ∷ gs) (l, h) =
      let b : ltb_ℤ (priority f) (priority g) ≡ false = ground arith in
      rw (insert_sorted, b) (ap (◌∷◌ g) (insert_last f gs h))

  -- A list that is in order already, behind one below it, stays.
  sort_onto-Sorted :
      (acc fs : List (A))
      → All (λ f. All (λ g. priority g ≤ℤ priority f) acc) fs
      → Sorted fs
      → sort_onto acc fs ≡ acc ++ fs
  unfolding sort_onto
  sort_onto-Sorted acc [] h s = sym (append-nil acc)
  sort_onto-Sorted acc (f ∷ fs) (hf, h) (sf, s) =
      let e = insert_last f acc hf in
      let next =
        sort_onto-Sorted (acc ++ f ∷ []) fs
          (All-imp (λ k. All (λ g. priority g ≤ℤ priority k) acc × (priority f ≤ℤ priority k))
            (λ k. All (λ g. priority g ≤ℤ priority k) (acc ++ f ∷ [])) fs
            (λ k (p, q). All-append (λ g. priority g ≤ℤ priority k) acc (f ∷ []) p (q, tt))
            (All-zip (λ k. All (λ g. priority g ≤ℤ priority k) acc) (λ k. priority f ≤ℤ priority k)
              fs h sf))
          s in
      rw (sort_onto, e) (next ∙ append_assoc acc (f ∷ []) fs)

  sort_onto-concat :
      (acc fs : List (A)) (f : A)
      → sort_onto acc (fs ++ f ∷ []) ≡ insert_sorted f (sort_onto acc fs)
  unfolding sort_onto
  sort_onto-concat acc [] f = refl
  sort_onto-concat acc (g ∷ gs) f = sort_onto-concat (insert_sorted g acc) gs f

  below_nil : (fs : List (A)) → All (λ (f : A). All (λ (g : A). priority g ≤ℤ priority f) []) fs
  below_nil [] = tt
  below_nil (f ∷ fs) = (tt, below_nil fs)

  pub sort_onto-insert :
      (f : A) (fs : List A) → Sorted fs → sort_onto [] (fs ++ f ∷ []) ≡ insert_sorted f fs
  sort_onto-insert f fs s =
      sort_onto-concat [] fs f ∙ ap (insert_sorted f) (sort_onto-Sorted [] fs (below_nil fs) s)

  insert-All :
      (P : A → Type 0) (f : A) (fs : List (A)) → P f → All P fs → All P (insert_sorted f fs)
  unfolding insert_sorted
  insert-All P f [] pf h = (pf, tt)
  insert-All P f (g ∷ gs) pf (pg, h) =
      if_both (All P) (ltb_ℤ (priority f) (priority g)) (f ∷ g ∷ gs) (g ∷ insert_sorted f gs)
        (pf, (pg, h)) (pg, insert-All P f gs pf h)

  insert-Sorted : (f : A) (fs : List (A)) → Sorted fs → Sorted (insert_sorted f fs)
  unfolding insert_sorted
  insert-Sorted f [] s = (tt, tt)
  insert-Sorted f (g ∷ gs) (sg, s) = elim (Bool-cases (ltb_ℤ (priority f) (priority g))) [
    | inl t ↦
        rw (insert_sorted, t)
          (
            (
              omega (arith, ltb-le f g t),
              All-imp (λ k. priority g ≤ℤ priority k) (λ k. priority f ≤ℤ priority k) gs
                  (λ k q. omega (arith, q, ltb-le f g t)) sg,
            ),
            (sg, s),
          )
    | inr t ↦
        rw (insert_sorted, t)
          (
            insert-All (λ k. priority g ≤ℤ priority k) f gs (ground (arith, t)) sg,
            insert-Sorted f gs s,
          )
  ]
    where
      ltb-le : (f g : A) → ltb_ℤ (priority f) (priority g) ≡ true → priority f ≤ℤ priority g
      ltb-le f g t = ground (arith, t)

  -- Where `f` stands in the new list: behind those of its priority and below, before those above.
  pub record Placed (f : A) (fs : List (A)) (r : List (A)) : Type 0 where
    pub front : List (A)
    pub back : List (A)
    pub old : fs ≡ front ++ back
    pub new : r ≡ front ++ f ∷ back
    pub lower : All (λ g. priority g ≤ℤ priority f) front

  insert-Placed : (f : A) (fs : List (A)) → Placed f fs (insert_sorted f fs)
  unfolding insert_sorted
  insert-Placed f [] = record { front = []; back = []; old = refl; new = refl; lower = tt }
  insert-Placed f (g ∷ gs) =
      let p = insert-Placed f gs in
      elim (Bool-cases (ltb_ℤ (priority f) (priority g))) [
        | inl t ↦
            rw (insert_sorted, t)
              record { front = []; back = g ∷ gs; old = refl; new = refl; lower = tt }
        | inr t ↦
            rw (insert_sorted, t)
              record {
                front = g ∷ p.front;
                back = p.back;
                old = ap (◌∷◌ g) p.old;
                new = ap (◌∷◌ g) p.new;
                lower = (ground (arith, t), p.lower);
              }
      ]

  pub sort-Sorted :
      (f : A) (fs : List A)
      → Sorted fs
      → Sorted (sort_onto [] (fs ++ f ∷ [])) × Placed f fs (sort_onto [] (fs ++ f ∷ []))
  sort-Sorted f fs s = rw (sort_onto-insert f fs s) (insert-Sorted f fs s, insert-Placed f fs)
