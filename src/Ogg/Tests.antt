-- ===== src/Ogg/Tests.antt =====
-- Runs of the Ogg writer, and each theorem about it at a concrete input.
use xiaozhi_esp32_server_gol.Common.{◌≡◌, refl, [], ◌∷◌}
use xiaozhi_esp32_server_gol.Common.Int.{pos}
use xiaozhi_esp32_server_gol.Ogg.{nearest, normalize_rate, build_segments, segments_loop}
use xiaozhi_esp32_server_gol.Ogg.Lacing.{total, build_segments_lem}

near : normalize_rate (pos 44100) ≡ 48000
unfolding normalize_rate nearest
near = refl

laced : build_segments 255 ≡ 255 ∷ 0 ∷ []
unfolding build_segments segments_loop
laced = refl

build_segments_lem_example :
    (build_segments 510 ≡ 255 ∷ 255 ∷ 0 ∷ []) × (total (build_segments 510) ≡ 510)
build_segments_lem_example = build_segments_lem 510
