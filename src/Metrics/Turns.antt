-- ===== src/Metrics/Turns.antt =====
-- internal/domain/chat/hooks/statistic_plugin.go: the turns of a session.
use xiaozhi_esp32_server_gol.Common.{
  ℕ, suc, ◌≡◌, refl, ◌∙◌, inl, inr, arith, String, Option, none, some, List, [], ◌∷◌, lookup,
  insert, string_eq, lookup-insert, lookup-delete, Option-cases, Bool-cases, lookup-insert_self,
  insert_all,
}
use xiaozhi_esp32_server_gol.Common.Int.{ℤ}
use xiaozhi_esp32_server_gol.Metrics.{
  Stage, Turn, Plugin, see, stamp, is_zero, new_turn, start_new_turn, get_turn, turns, apply_metric,
  is_late, is_end, is_start, record_metric, apply_found, on_metric, can_start, can_reuse,
}
use xiaozhi_esp32_server_gol.Metrics.Kept.{Ordered, Inv, stamp-Ordered, stamp-turn_id, see-Inv}
use xiaozhi_esp32_server_gol.Metrics.Cleanup.{see_keeps}

new-Ordered : (n : ℕ) → Ordered (new_turn n)
unfolding is_zero
new-Ordered n = record {
  token = λ h. ground arith;
  llm = λ h. ground arith;
  frame = λ h. ground arith;
  tts = λ h. ground arith;
}

-- The turn that a metric is for is the session's current one.
record Current (k : String) (p : Plugin) (r : Option Turn × Plugin) : Type 0 where
  inv : Inv r.1
  held : (t : Turn) → r.0 ≡ some t → lookup k r.1.current ≡ some t
  last : r.1.last_seen ≡ p.last_seen

start-Current :
    (k : String) (s : ℕ) (p : Plugin)
    → lookup k p.last_seen ≡ some s
    → Inv p
    → Current k p (some (start_new_turn k p).0, (start_new_turn k p).1)
unfolding start_new_turn
start-Current k s p h v =
    let n = suc (turns k p) in
    record {
      inv = record {
        once = v.once;
        seen = λ j e. ground (
          arith,
          v.seen j e,
          h,
          e,
          lookup-insert k j n p.next_turn,
          lookup-insert k j (new_turn n) p.current,
          string_eq.beq_iff k j,
        );
        numbered = λ j t e. ground (
          arith,
          v.numbered j t,
          lookup-insert k j n p.next_turn,
          lookup-insert k j (new_turn n) p.current,
        );
        ordered =
            λ j t e. insert_all Ordered k (new_turn n) p.current (new-Ordered n) v.ordered j t e;
      };
      held = λ t e. ground (arith, e, lookup-insert_self k (new_turn n) p.current);
      last = refl;
    }

old-Current :
    (k : String) (t : Turn) (p : Plugin)
    → lookup k p.current ≡ some t
    → Inv p
    → Current k p (some t, p)
old-Current k t p e v = record { inv = v; held = λ u q. e ∙ q; last = refl }

no-Current : (k : String) (p : Plugin) → Inv p → Current k p (none, p)
no-Current k p v = record { inv = v; held = λ u q. ground (arith, q); last = refl }

-- Whether there is a current turn decides.
get-Current :
    (k : String) (g : Stage) (s : ℕ) (p : Plugin)
    → lookup k p.last_seen ≡ some s
    → Inv p
    → Current k p (get_turn k g p)
unfolding get_turn
get-Current k g s p h v =
    let fresh = start-Current k s p h v in
    elim (Bool-cases (is_start g)) [
      | inl b ↦ elim (Option-cases (lookup k p.current)) [
        | inl e ↦ rw (get_turn, b, e) fresh
        | inr (t, e) ↦ elim (Bool-cases (can_reuse t)) [
          | inl c ↦ rw (get_turn, b, e, c) (old-Current k t p e v)
          | inr c ↦ rw (get_turn, b, e, c) fresh
        ]
      ]
      | inr b ↦ elim (Option-cases (lookup k p.current)) [
        | inl e ↦ elim (Bool-cases (can_start g)) [
          | inl c ↦ rw (get_turn, b, e, c) fresh
          | inr c ↦ rw (get_turn, b, e, c) (no-Current k p v)
        ]
        | inr (t, e) ↦ rw (get_turn, b, e) (old-Current k t p e v)
      ]
    ]

stamped-Inv :
    (k : String) (t : Turn) (g : Stage) (ts : ℤ) (s : ℕ) (p : Plugin)
    → lookup k p.last_seen ≡ some s
    → lookup k p.current ≡ some t
    → Inv p
    → Inv (record p { current = insert k (stamp g ts t) p.current })
stamped-Inv k t g ts s p h c v = record {
  once = v.once;
  seen = λ j e.
      ground (
        arith,
        v.seen j e,
        h,
        e,
        lookup-insert k j (stamp g ts t) p.current,
        string_eq.beq_iff k j,
      );
  numbered = λ j u e. ground (
    arith,
    v.numbered j u,
    v.numbered k t c,
    stamp-turn_id g ts t,
    lookup-insert k j (stamp g ts t) p.current,
    string_eq.beq_iff k j,
  );
  ordered = λ j u e.
      insert_all Ordered k (stamp g ts t) p.current (stamp-Ordered g ts t (v.ordered k t c))
        v.ordered j u e;
}

apply-Inv :
    (k : String) (t : Turn) (g : Stage) (ts : ℤ) (s : ℕ) (p : Plugin)
    → lookup k p.last_seen ≡ some s
    → lookup k p.current ≡ some t
    → Inv p
    → Inv (apply_metric k t g ts p).1
unfolding apply_metric
apply-Inv k t g ts s p h c v = elim (Bool-cases (is_late g ts t)) [
  | inl b ↦ rw (apply_metric, b) v
  | inr b ↦ elim (Bool-cases (is_end g)) [
    | inl d ↦
        rw (apply_metric, b, d)
          record {
            once = v.once;
            seen = λ j e. ground (arith, v.seen j e, lookup-delete k j p.current);
            numbered = λ j u e. v.numbered j u (ground (arith, e, lookup-delete k j p.current));
            ordered = λ j u e. v.ordered j u (ground (arith, e, lookup-delete k j p.current));
          }
    | inr d ↦ rw (apply_metric, b, d) (stamped-Inv k t g ts s p h c v)
  ]
]

record-Inv :
    (k : String) (g : Stage) (ts : ℤ) (s : ℕ) (p : Plugin)
    → lookup k p.last_seen ≡ some s
    → Inv p
    → Inv (record_metric k g ts p).1
unfolding record_metric apply_found
record-Inv k g ts s p h v =
    let c = get-Current k g s p h v in
    elim (Option-cases (get_turn k g p).0) [
      | inl e ↦ rw (record_metric, apply_found, e) c.inv
      | inr (t, e) ↦
          rw (record_metric, apply_found, e)
            (apply-Inv k t g ts s (get_turn k g p).1 (rw c.last h) (c.held t e) c.inv)
    ]

pub on_metric-Inv :
    (k : String) (d : Option (Stage × ℤ)) (now : ℕ) (p : Plugin)
    → Inv p
    → Inv (on_metric k d now p).1
unfolding on_metric
on_metric-Inv k none now p v = v
on_metric-Inv k (some (g, ts)) now p v = elim (Bool-cases (string_eq.beq k "")) [
  | inl b ↦ rw (on_metric, b) v
  | inr b ↦
      let (_, _, c) = see_keeps k now p v in
      rw (on_metric, b) (record-Inv k g ts now (see k now p) c (see-Inv k now p v))
]

-- The metrics that arrive, in order.
unfoldable pub run : List (String × Option (Stage × ℤ) × ℕ) → Plugin → Plugin
run [] p = p
run ((k, d, now) ∷ es) p = run es (on_metric k d now p).1

-- Whatever metrics arrive at a plugin where this holds, such as a new one, a session with a turn was
-- seen, its turn has the number that the plugin counts, and each stamp that is taken behind a start
-- is set only if that start is set.
pub history-Inv :
    (es : List (String × Option (Stage × ℤ) × ℕ)) (p : Plugin) → Inv p → Inv (run es p)
unfolding run
history-Inv [] p v = v
history-Inv ((k, d, now) ∷ es) p v =
    history-Inv es (on_metric k d now p).1 (on_metric-Inv k d now p v)
