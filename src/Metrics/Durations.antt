-- ===== src/Metrics/Durations.antt =====
-- internal/domain/chat/hooks/statistic_plugin.go: the durations that are logged.
use xiaozhi_esp32_server_gol.Common.{ℕ, suc, ◌+◌, ◌≡◌, arith, All, if◌then◌else◌}
use xiaozhi_esp32_server_gol.Common.Int.{ℤ, pos, negsuc, ◌≤ℤ◌, ◌-ℤ◌}
use xiaozhi_esp32_server_gol.Metrics.{Turn, is_zero, calc_delta, durations}

calc_delta-pos : (a b : ℤ) → pos 0 ≤ℤ calc_delta a b
unfolding calc_delta ◌-ℤ◌
calc_delta-pos (pos a) (pos b) = ground arith
calc_delta-pos (pos a) (negsuc b) = ground arith
calc_delta-pos (negsuc a) (pos b) = ground arith
calc_delta-pos (negsuc a) (negsuc b) = ground arith

-- Between two set stamps in order it is their difference.
pub calc_delta_lem : (a d : ℕ) → calc_delta (pos (suc a)) (pos (suc a + d)) ≡ pos d
unfolding calc_delta ◌-ℤ◌
calc_delta_lem a d = ground arith

-- No logged duration is negative, whatever the stamps are.
pub durations_lem : (t : Turn) → All (λ d. pos 0 ≤ℤ d) (durations t)
unfolding durations
durations_lem t =
    let stop = if is_zero t.turn_end_ts then t.tts_stop_ts else t.turn_end_ts in
    (
      calc_delta-pos t.turn_start_ts t.asr_first_text_ts,
      (
        calc_delta-pos t.asr_first_text_ts t.asr_final_text_ts,
        (
          calc_delta-pos t.llm_start_ts t.llm_first_token_ts,
          (
            calc_delta-pos t.llm_start_ts t.llm_end_ts,
            (
              calc_delta-pos t.tts_start_ts t.tts_first_frame_ts,
              (
                calc_delta-pos t.tts_start_ts t.tts_stop_ts,
                (
                  calc_delta-pos t.turn_start_ts t.tts_first_frame_ts,
                  (calc_delta-pos t.turn_start_ts stop, tt),
                ),
              ),
            ),
          ),
        ),
      ),
    )
