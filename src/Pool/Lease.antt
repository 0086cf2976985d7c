-- ===== src/Pool/Lease.antt =====
-- internal/util/resource_pool.go: what Release refuses.
use xiaozhi_esp32_server_gol.Common.{
  ℕ, ◌≡◌, ◌≢◌, refl, false, Option, none, some, arith, nat_eq, lookup, lookup-delete_self,
  Option-cases, inl, inr, length, ltb, if_both,
}
use xiaozhi_esp32_server_gol.Common.Int.{pos, leb_ℤ}
use xiaozhi_esp32_server_gol.Pool.{Factory, Pool, Error, destroy, put_back, release, rejected}
use xiaozhi_esp32_server_gol.Pool.Ownership.{Fresh, Inv}

module _ {W : Type 0} (f : Factory W) where
  -- A Release that fails leaves the pool as it was.
  pub release_error_unchanged :
      (now : ℕ) (r : Option ℕ) (p : Pool W) (e : Error)
      → (release f now r p).0 ≡ some e
      → (release f now r p).1 ≡ p
  unfolding release
  release_error_unchanged now none p e h = refl
  release_error_unchanged now (some r) p e h = ground arith

  -- A Release of `r` fails, and changes nothing.
  abbrev pub Refuses : Pool W → ℕ → Type 0
  Refuses p r =
      (later : ℕ) → ((release f later (some r) p).0 ≢ none) × ((release f later (some r) p).1 ≡ p)

  gone-Refuses : (p : Pool W) (r : ℕ) → lookup r p.resources ≡ none → Refuses p r
  unfolding release
  gone-Refuses p r h later = ground arith

  idle-Refuses :
      (p : Pool W) (r q : ℕ)
      → lookup r p.resources ≡ some q
      → (p.heap q).in_use ≡ false
      → Refuses p r
  unfolding release
  idle-Refuses p r q h u later = ground arith

  put_back-Refuses :
      (now : ℕ) (p : Pool W) (r q : ℕ)
      → lookup r p.resources ≡ some q
      → (p.heap q).resource ≡ r
      → Refuses (put_back f now p r q) r
  unfolding put_back destroy
  put_back-Refuses now p r q h e =
      let R = λ (x : Pool W). Refuses x r in
      let gone = lookup-delete_self r p.resources in
      if_both R (rejected f p r) _ _ (gone-Refuses _ r (ground (arith, gone))) (
        if_both R (leb_ℤ p.config.max_idle (pos (length p.available))) _ _
          (gone-Refuses _ r (ground (arith, gone)))
          (if_both R (ltb (length p.available) p.capacity) _ _ (idle-Refuses _ r q h (ground arith))
            (gone-Refuses _ r (ground (arith, gone)))))

  release_ok :
      (now r : ℕ) (p : Pool W)
      → (release f now (some r) p).0 ≡ none
      → (q : ℕ) × (lookup r p.resources ≡ some q)
        × ((release f now (some r) p).1 ≡ put_back f now p r q)
  unfolding release
  release_ok now r p ok = elim (Option-cases (lookup r p.resources)) [
    | inl e ↦ absurd (ground arith)
    | inr (q, e) ↦ (q, e, ground arith)
  ]

  -- A resource is released once: behind a Release of `r` that succeeds, a second one fails and
  -- changes nothing, whether the first put it back or destroyed it.
  pub release_twice :
      (fr : Fresh f) (now later r : ℕ) (p : Pool W)
      → Inv fr p
      → (release f now (some r) p).0 ≡ none
      → ((release f later (some r) (release f now (some r) p).1).0 ≢ none)
        × ((release f later (some r) (release f now (some r) p).1).1 ≡ (release f now (some r) p).1)
  release_twice fr now later r p v ok =
      let (q, e, done) = release_ok now r p ok in
      rw done (put_back-Refuses now p r q e (v.entries r q e).0 later)
