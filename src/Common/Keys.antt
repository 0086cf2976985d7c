-- ===== src/Common/Keys.antt =====
-- The keys of an association list, each of which a Go map holds once.
use mathlib.Core.Path.{◌≡◌, sym, subst, ◌∙◌}
use mathlib.Core.Logic.{◌≢◌, inl, inr}
use mathlib.Core.List.{List, [], ◌∷◌}
use mathlib.Core.Option.{some}
use native.Mathlib.Omega.{arith}
use xiaozhi_esp32_server_gol.Common.Tests.{Eq, Bool-cases}
use xiaozhi_esp32_server_gol.Common.Lists.{All, All-imp, Distinct}
use xiaozhi_esp32_server_gol.Common.Assoc.{lookup, insert, delete}

module _ {ℓ κ} {K : Type ℓ} {V : Type κ} ⦃e : Eq K⦄ where
  abbrev pub keys : List (K × V) → List K
  keys [] = []
  keys ((k, v) ∷ m) = k ∷ keys m

  All-insert :
      (P : K → Type ℓ) (k : K) (v : V) (m : List (K × V))
      → P k
      → All P (keys m)
      → All P (keys (insert k v m))
  unfolding insert
  All-insert P k v [] pk h = (pk, tt)
  All-insert P k v ((j, w) ∷ m) pk (pj, h) = elim (Bool-cases (e.beq j k)) [
    | inl t ↦ rw (insert, t) (pk, h)
    | inr t ↦ rw (insert, t) (pj, All-insert P k v m pk h)
  ]

  All-delete :
      (P : K → Type ℓ) (k : K) (m : List (K × V)) → All P (keys m) → All P (keys (delete k m))
  unfolding delete
  All-delete P k [] h = h
  All-delete P k ((j, w) ∷ m) (pj, h) = elim (Bool-cases (e.beq j k)) [
    | inl t ↦ rw (delete, t) (All-delete P k m h)
    | inr t ↦ rw (delete, t) (pj, All-delete P k m h)
  ]

  pub insert-Distinct :
      (k : K) (v : V) (m : List (K × V)) → Distinct (keys m) → Distinct (keys (insert k v m))
  unfolding insert
  insert-Distinct k v [] h = (tt, tt)
  insert-Distinct k v ((j, w) ∷ m) (hj, h) = elim (Bool-cases (e.beq j k)) [
    | inl t ↦
        let q = (e.beq_iff j k).0 t in
        rw (insert, t) (All-imp (λ y. y ≢ j) (λ y. y ≢ k) (keys m) (λ y n p. n (p ∙ sym q)) hj, h)
    | inr t ↦
        rw (insert, t)
          (
            All-insert (λ y. y ≢ j) k v m (λ p. ground (arith, e.beq_iff j k, sym p, t)) hj,
            insert-Distinct k v m h,
          )
  ]

  pub delete-Distinct :
      (k : K) (m : List (K × V)) → Distinct (keys m) → Distinct (keys (delete k m))
  unfolding delete
  delete-Distinct k [] h = h
  delete-Distinct k ((j, w) ∷ m) (hj, h) = elim (Bool-cases (e.beq j k)) [
    | inl t ↦ rw (delete, t) (delete-Distinct k m h)
    | inr t ↦ rw (delete, t) (All-delete (λ y. y ≢ j) k m hj, delete-Distinct k m h)
  ]

  no_entry :
      (k : K) (P : V → Type κ) (m : List (K × V))
      → All (λ y. y ≢ k) (keys m)
      → All (λ x. x.0 ≡ k → P x.1) m
  no_entry k P [] h = tt
  no_entry k P ((j, w) ∷ m) (n, h) = (λ q. absurd (n q), no_entry k P m h)

  -- What holds of the value found under a key holds of every entry of that key.
  pub lookup-All :
      (k : K) (P : V → Type κ) (v : V) (m : List (K × V))
      → Distinct (keys m)
      → lookup k m ≡ some v
      → P v
      → All (λ x. x.0 ≡ k → P x.1) m
  unfolding lookup
  lookup-All k P v [] d h pv = tt
  lookup-All k P v ((j, w) ∷ m) (dj, d) h pv = elim (Bool-cases (e.beq j k)) [
    | inl t ↦
        let q = (e.beq_iff j k).0 t in
        let r : w ≡ v = ground (arith, t, h) in
        (
          λ _. subst P (sym r) pv,
          no_entry k P m (All-imp (λ y. y ≢ j) (λ y. y ≢ k) (keys m) (λ y n p. n (p ∙ sym q)) dj),
        )
    | inr t ↦ (
      λ q. absurd (ground (arith, t, (e.beq_iff j k).1 q)),
      lookup-All k P v m d (ground (arith, t, h)) pv,
    )
  ]
