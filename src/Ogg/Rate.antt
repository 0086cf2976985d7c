-- ===== src/Ogg/Rate.antt =====
-- internal/util/ogg_opus.go: the sample rate that an encoder takes.
use xiaozhi_esp32_server_gol.Common.{ℕ, suc, ◌≤◌, List, [], ◌∷◌, All, arith, ltb, if◌then◌else◌}
use xiaozhi_esp32_server_gol.Common.Int.{pos}
use xiaozhi_esp32_server_gol.Ogg.{supported, distance, nearest, normalize_rate}

nearest_lem :
    (r best : ℕ) (cs : List ℕ)
    → (distance r (nearest r best cs) ≤ distance r best)
      × All (λ c. distance r (nearest r best cs) ≤ distance r c) cs
unfolding nearest
nearest_lem r best [] = (omega arith, tt)
nearest_lem r best (c ∷ cs) =
    let (a, b) = nearest_lem r (if ltb (distance r c) (distance r best) then c else best) cs in
    (ground (arith, a), (ground (arith, a), b))

-- The rate for a positive rate is as near to it as any that Opus supports.
pub normalize_rate_lem :
    (n : ℕ)
    → All (λ c. distance (suc n) (normalize_rate (pos (suc n))) ≤ distance (suc n) c) supported
unfolding normalize_rate
normalize_rate_lem n = nearest_lem (suc n) 8000 (12000 ∷ 16000 ∷ 24000 ∷ 48000 ∷ [])
