-- ===== src/Ogg/Lacing.antt =====
-- internal/util/ogg_opus.go: the lengths of segments.
use xiaozhi_esp32_server_gol.Common.{
  ℕ, zero, suc, ◌+◌, ◌-◌, ◌/◌, ◌%◌, ◌≤◌, ◌<◌, ◌≡◌, refl, ap, sym, ◌∙◌, [], ◌∷◌, ◌++◌, leb, arith,
  Bool-cases, inl, inr,
}
use xiaozhi_esp32_server_gol.Ogg.{Bytes, segments_loop, build_segments}

abbrev pub total : Bytes → ℕ
total [] = 0
total (b ∷ bs) = b + total bs

-- The values of `k` full segments.
abbrev pub full : ℕ → Bytes
full zero = []
full (suc k) = 255 ∷ full k

segments_loop_lem :
    (fuel n : ℕ)
    → n ≤ fuel
    → (segments_loop fuel n ≡ full (n / 255) ++ (n % 255) ∷ []) × (total (segments_loop fuel n) ≡ n)
unfolding segments_loop
segments_loop_lem zero n h = let z : n ≡ 0 = omega (arith, h) in rw z (refl, refl)
segments_loop_lem (suc fuel) n h = elim (Bool-cases (leb 255 n)) [
  | inl t ↦
      let l : 255 ≤ n = ground (arith, t) in
      let (e, b) = segments_loop_lem fuel (n - 255) (omega arith) in
      let q : n / 255 ≡ suc ((n - 255) / 255) = omega (arith, l) in
      let r : n % 255 ≡ (n - 255) % 255 = omega (arith, l) in
      rw (segments_loop, t) (ap (λ s. 255 ∷ s) e ∙ sym (rw (q, r) refl), omega (arith, b, l))
  | inr t ↦
      let l : n < 255 = ground (arith, t) in
      let q : n / 255 ≡ 0 = omega (arith, l) in
      let r : n % 255 ≡ n = omega (arith, l) in
      rw (segments_loop, t) (sym (rw (q, r) refl), omega arith)
]

-- The segments of a packet of each length are as many full ones as there is room for and a last one,
-- shorter than 255 and perhaps empty, which ends the packet; together they are as long as it.
pub build_segments_lem :
    (n : ℕ) → (build_segments n ≡ full (n / 255) ++ (n % 255) ∷ []) × (total (build_segments n) ≡ n)
unfolding build_segments
build_segments_lem n = segments_loop_lem n n (omega arith)
