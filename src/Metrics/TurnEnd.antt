-- ===== src/Metrics/TurnEnd.antt =====
-- internal/domain/chat/hooks/statistic_plugin.go: the end of a turn.
use xiaozhi_esp32_server_gol.Common.{
  ℕ, ◌≡◌, refl, ◌∙◌, subst, String, false, if◌then◌else◌, Option, none, some, lookup, string_eq,
  lookup-delete_self,
}
use xiaozhi_esp32_server_gol.Common.Int.{ℤ}
use xiaozhi_esp32_server_gol.Metrics.{
  Stage, turn_end, Turn, Plugin, is_zero, see, stamp, get_turn, apply_metric, is_late, is_end,
  is_start, record_metric, apply_found, on_metric, can_start,
}
use xiaozhi_esp32_server_gol.Metrics.Kept.{Inv}
use xiaozhi_esp32_server_gol.Metrics.Cleanup.{see_keeps}
use xiaozhi_esp32_server_gol.Metrics.Turns.{on_metric-Inv}

is_start_end : is_start turn_end ≡ false
unfolding is_start
is_start_end = refl

can_start_end : can_start turn_end ≡ false
unfolding can_start
can_start_end = refl

get_known :
    (k : String) (g : Stage) (t : Turn) (p : Plugin)
    → is_start g ≡ false
    → lookup k p.current ≡ some t
    → get_turn k g p ≡ (some t, p)
unfolding get_turn
get_known k g t p b e = rw (get_turn, b, e) refl

get_none :
    (k : String) (g : Stage) (p : Plugin)
    → is_start g ≡ false
    → can_start g ≡ false
    → lookup k p.current ≡ none
    → get_turn k g p ≡ (none, p)
unfolding get_turn
get_none k g p b c e = rw (get_turn, b, e, c) refl

-- What is left when a metric has ended the turn `t` of the session `k`.
pub record Ended (k : String) (t u : Turn) (r : Option Turn × Plugin) : Type 0 where
  pub reported : r.0 ≡ some u
  pub gone : lookup k r.1.current ≡ none
  pub counted : lookup k r.1.next_turn ≡ some t.turn_id

end_step :
    (k : String) (ts : ℤ) (now : ℕ) (t : Turn) (p : Plugin)
    → Inv p
    → string_eq.beq k "" ≡ false
    → lookup k p.current ≡ some t
    → is_late turn_end ts t ≡ false
    → Ended k t (stamp turn_end ts t) (on_metric k (some (turn_end, ts)) now p)
unfolding on_metric record_metric apply_found apply_metric is_end
end_step k ts now t p v b e l =
    let (a, n, c) = see_keeps k now p v in
    let got = get_known k turn_end t (see k now p) is_start_end (a ∙ e) in
    rw (on_metric, b, record_metric, got, apply_metric, l)
      record {
        reported = refl;
        gone = lookup-delete_self k (see k now p).current;
        counted = n ∙ v.numbered k t e;
      }

end_idle :
    (k : String) (ts : ℤ) (now : ℕ) (p : Plugin)
    → Inv p
    → string_eq.beq k "" ≡ false
    → lookup k p.current ≡ none
    → (on_metric k (some (turn_end, ts)) now p).0 ≡ none
unfolding on_metric record_metric apply_found
end_idle k ts now p v b e =
    let (a, n, c) = see_keeps k now p v in
    let got = get_none k turn_end (see k now p) is_start_end can_start_end (a ∙ e) in
    rw (on_metric, b, record_metric, got) refl

-- What a TurnEnd makes of a turn: an end that is not set yet is set to its time.
abbrev pub with_end : ℤ → Turn → Turn
with_end ts t = record t { turn_end_ts = if is_zero t.turn_end_ts then ts else t.turn_end_ts }

end-stamp : (ts : ℤ) (t : Turn) → stamp turn_end ts t ≡ with_end ts t
unfolding stamp
end-stamp ts t = refl

-- The end of a turn is reported once: a TurnEnd that is not older than the turn gives the turn, with
-- its time as the time of the end unless that was set before and all else as it was. The turn is
-- then no longer current, while the counter stays at its number; a second TurnEnd gives nothing.
pub turn_end_once :
    (k : String) (ts later : ℤ) (now after : ℕ) (t : Turn) (p : Plugin)
    → Inv p
    → string_eq.beq k "" ≡ false
    → lookup k p.current ≡ some t
    → is_late turn_end ts t ≡ false
    → let r = on_metric k (some (turn_end, ts)) now p in
      Ended k t (with_end ts t) r × ((on_metric k (some (turn_end, later)) after r.1).0 ≡ none)
turn_end_once k ts later now after t p v b e l =
    let q = end_step k ts now t p v b e l in
    let r = on_metric k (some (turn_end, ts)) now p in
    (
      subst (λ u. Ended k t u r) (end-stamp ts t) q,
      end_idle k later after r.1 (on_metric-Inv k (some (turn_end, ts)) now p v) b q.gone,
    )
