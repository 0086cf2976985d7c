-- ===== src/Metrics/Kept.antt =====
-- internal/domain/chat/hooks/statistic_plugin.go: what holds of the plugin's maps and turns.
use xiaozhi_esp32_server_gol.Common.{
  ℕ, zero, suc, ◌-◌, ◌%◌, ◌≡◌, refl, Distinct, keys, delete-Distinct, insert-Distinct, arith,
  String, true, false, none, some, List, [], ◌∷◌, leb, ◌==◌, if◌then◌else◌, lookup, insert,
  string_eq, lookup-insert, lookup-delete, if_both,
}
use xiaozhi_esp32_server_gol.Common.Int.{ℤ, pos}
use xiaozhi_esp32_server_gol.Metrics.{
  Stage, turn_start, turn_end, asr_first_text, asr_final_text, llm_start, llm_first_token, llm_end,
  tts_start, tts_first_frame, tts_stop, unknown, Turn, Plugin, ttl, drop_session, cleanup_stale,
  see, stamp, is_zero, is_positive, cleanup_threshold,
}

-- A stamp behind a start is set only with the start.
pub record Ordered (t : Turn) : Type 0 where
  pub token : is_zero t.llm_first_token_ts ≡ false → is_positive t.llm_start_ts ≡ true
  pub llm : is_zero t.llm_end_ts ≡ false → is_positive t.llm_start_ts ≡ true
  pub frame : is_zero t.tts_first_frame_ts ≡ false → is_positive t.tts_start_ts ≡ true
  pub tts : is_zero t.tts_stop_ts ≡ false → is_positive t.tts_start_ts ≡ true

-- A session with a turn was seen, its turn has the number that the plugin counts, and is in order.
pub record Inv (p : Plugin) : Type 0 where
  pub once : Distinct (keys p.last_seen)
  pub seen :
      (k : String)
      → lookup k p.last_seen ≡ none
      → (lookup k p.next_turn ≡ none) × (lookup k p.current ≡ none)
  pub numbered :
      (k : String) (t : Turn) → lookup k p.current ≡ some t → lookup k p.next_turn ≡ some t.turn_id
  pub ordered : (k : String) (t : Turn) → lookup k p.current ≡ some t → Ordered t

positive_set : (x : ℤ) → is_positive x ≡ true → is_zero x ≡ false
unfolding is_positive is_zero
positive_set (pos zero) h = ground arith
positive_set (pos (suc n)) h = refl
positive_set (ℤ.negsuc n) h = refl

pub stamp-Ordered : (g : Stage) (ts : ℤ) (t : Turn) → Ordered t → Ordered (stamp g ts t)
unfolding stamp
stamp-Ordered turn_start ts t o = record {
  token = o.token;
  llm = o.llm;
  frame = o.frame;
  tts = o.tts;
}
stamp-Ordered turn_end ts t o = record {
  token = o.token;
  llm = o.llm;
  frame = o.frame;
  tts = o.tts;
}
stamp-Ordered asr_first_text ts t o = record {
  token = o.token;
  llm = o.llm;
  frame = o.frame;
  tts = o.tts;
}
stamp-Ordered asr_final_text ts t o = record {
  token = o.token;
  llm = o.llm;
  frame = o.frame;
  tts = o.tts;
}
stamp-Ordered llm_start ts t o = record {
  token = λ h. ground (arith, o.token h, positive_set t.llm_start_ts);
  llm = λ h. ground (arith, o.llm h, positive_set t.llm_start_ts);
  frame = o.frame;
  tts = o.tts;
}
stamp-Ordered llm_first_token ts t o = record {
  token = λ h. ground (arith, o.token);
  llm = o.llm;
  frame = o.frame;
  tts = o.tts;
}
stamp-Ordered llm_end ts t o = record {
  token = o.token;
  llm = λ h. ground (arith, o.llm);
  frame = o.frame;
  tts = o.tts;
}
stamp-Ordered tts_start ts t o = record {
  token = o.token;
  llm = o.llm;
  frame = λ h. ground (arith, o.frame h, positive_set t.tts_start_ts);
  tts = λ h. ground (arith, o.tts h, positive_set t.tts_start_ts);
}
stamp-Ordered tts_first_frame ts t o = record {
  token = o.token;
  llm = o.llm;
  frame = λ h. ground (arith, o.frame);
  tts = o.tts;
}
stamp-Ordered tts_stop ts t o = record {
  token = o.token;
  llm = o.llm;
  frame = o.frame;
  tts = λ h. ground (arith, o.tts);
}
stamp-Ordered unknown ts t o = o

-- The number of a turn never changes.
pub stamp-turn_id : (g : Stage) (ts : ℤ) (t : Turn) → (stamp g ts t).turn_id ≡ t.turn_id
unfolding stamp
stamp-turn_id turn_start ts t = refl
stamp-turn_id turn_end ts t = refl
stamp-turn_id asr_first_text ts t = refl
stamp-turn_id asr_final_text ts t = refl
stamp-turn_id llm_start ts t = refl
stamp-turn_id llm_first_token ts t = refl
stamp-turn_id llm_end ts t = refl
stamp-turn_id tts_start ts t = refl
stamp-turn_id tts_first_frame ts t = refl
stamp-turn_id tts_stop ts t = refl
stamp-turn_id unknown ts t = refl

drop-Inv : (k : String) (p : Plugin) → Inv p → Inv (drop_session k p)
drop-Inv k p v = record {
  once = delete-Distinct k p.last_seen v.once;
  seen = λ j h. ground (
    arith,
    v.seen j,
    lookup-delete k j p.last_seen,
    lookup-delete k j p.next_turn,
    lookup-delete k j p.current,
  );
  numbered = λ j t h.
      ground (arith, v.numbered j t, lookup-delete k j p.next_turn, lookup-delete k j p.current);
  ordered = λ j t h. v.ordered j t (ground (arith, lookup-delete k j p.current));
}

cleanup-Inv : (now : ℕ) (es : List (String × ℕ)) (p : Plugin) → Inv p → Inv (cleanup_stale now es p)
unfolding cleanup_stale
cleanup-Inv now [] p v = v
cleanup-Inv now ((k, s) ∷ es) p v =
    cleanup-Inv now es (if leb (now - s) ttl then p else drop_session k p)
      (if_both Inv (leb (now - s) ttl) p (drop_session k p) v (drop-Inv k p v))

pub see-Inv : (k : String) (now : ℕ) (p : Plugin) → Inv p → Inv (see k now p)
unfolding see
see-Inv k now p v =
    let q = record p {
      last_seen = insert k now p.last_seen;
      cleanup_counter = suc p.cleanup_counter;
    } in
    let w : Inv q = record {
      once = insert-Distinct k now p.last_seen v.once;
      seen = λ j h. v.seen j (ground (arith, lookup-insert k j now p.last_seen));
      numbered = v.numbered;
      ordered = v.ordered;
    } in
    if_both Inv (q.cleanup_counter % cleanup_threshold == 0) (cleanup_stale now q.last_seen q) q
      (cleanup-Inv now q.last_seen q w) w
