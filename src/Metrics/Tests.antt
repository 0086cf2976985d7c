-- ===== src/Metrics/Tests.antt =====
-- Runs of the statistic plugin, and each theorem about it at a concrete input.
use xiaozhi_esp32_server_gol.Common.{
  ◌≡◌, refl, false, none, some, [], ◌∷◌, arith, lookup, insert, string_eq,
}
use xiaozhi_esp32_server_gol.Common.Int.{pos}
use xiaozhi_esp32_server_gol.Metrics.{
  Turn, Plugin, turn_start, turn_end, asr_first_text, stamp, new_plugin, new_turn, on_metric, see,
  record_metric, apply_found, get_turn, start_new_turn, apply_metric, is_start, is_end, is_late,
  is_zero, is_positive,
}
use xiaozhi_esp32_server_gol.Metrics.Kept.{Inv}
use xiaozhi_esp32_server_gol.Metrics.Turns.{run, history-Inv}
use xiaozhi_esp32_server_gol.Metrics.TurnEnd.{Ended, with_end, turn_end_once}

new-Inv : Inv new_plugin
unfolding lookup
new-Inv = record {
  once = tt;
  seen = λ k h. (refl, refl);
  numbered = λ k t h. ground arith;
  ordered = λ k t h. ground arith;
}

abbrev started : Turn
started = stamp turn_start (pos 10) (new_turn 1)

abbrev one_turn : Plugin
one_turn = run (("s", some (turn_start, pos 10), 7) ∷ []) new_plugin

one_turn-Inv : Inv one_turn
one_turn-Inv = history-Inv (("s", some (turn_start, pos 10), 7) ∷ []) new_plugin new-Inv

one_turn_current : lookup "s" one_turn.current ≡ some started
unfolding run on_metric see record_metric apply_found get_turn start_new_turn apply_metric is_start
    is_end is_late is_zero is_positive stamp lookup insert
one_turn_current = refl

started_early : is_late turn_end (pos 50) started ≡ false
unfolding is_late is_start is_positive is_zero stamp
started_early = refl

-- A plugin at its 99th metric, which saw the session `old` long ago.
abbrev crowded : Plugin
crowded = record {
  next_turn = ("old", 3) ∷ [];
  current = [];
  last_seen = ("old", 1) ∷ [];
  cleanup_counter = 99;
}

crowded-Inv : Inv crowded
unfolding lookup
crowded-Inv = record {
  once = (tt, tt);
  seen = λ k h. ground arith;
  numbered = λ k t h. ground arith;
  ordered = λ k t h. ground arith;
}

old_seen : lookup "old" (insert "s" 200000 crowded.last_seen) ≡ some 1
unfolding lookup insert
old_seen = refl

history-Inv_example : Inv (
    run
      (("s", some (turn_start, pos 10), 7) ∷ ("s", some (asr_first_text, pos 12), 8) ∷ [])
      new_plugin)
history-Inv_example =
    history-Inv (("s", some (turn_start, pos 10), 7) ∷ ("s", some (asr_first_text, pos 12), 8) ∷ [])
      new_plugin new-Inv

turn_end_once_example :
    let r = on_metric "s" (some (turn_end, pos 50)) 9 one_turn in
    Ended "s" started (with_end (pos 50) started) r
    × ((on_metric "s" (some (turn_end, pos 60)) 10 r.1).0 ≡ none)
turn_end_once_example =
    turn_end_once "s" (pos 50) (pos 60) 9 10 started one_turn one_turn-Inv refl one_turn_current
      started_early
