-- ===== src/Metrics.antt =====
-- internal/domain/chat/hooks/statistic_plugin.go: the plugin that measures the turns of a chat. A
-- time stamp of a metric is a signed number, 0 when it is not set; the clock is an argument.
pub mod Kept
pub mod Cleanup
pub mod Durations
pub mod Turns
pub mod TurnEnd
pub mod Tests
use xiaozhi_esp32_server_gol.Common.{
  ℕ, zero, suc, ◌+◌, ◌-◌, ◌%◌, String, Bool, true, false, not, ◌&&◌, ◌||◌, Option, none, some, List,
  [], ◌∷◌, ltb, leb, ◌==◌, if◌then◌else◌, lookup, insert, delete, string_eq,
}
use xiaozhi_esp32_server_gol.Common.Int.{ℤ, pos, negsuc, ltb_ℤ, leb_ℤ, ◌-ℤ◌}

pub data Stage : Type 0 where
  turn_start turn_end asr_first_text asr_final_text llm_start : Stage
  llm_first_token llm_end tts_start tts_first_frame tts_stop : Stage
  -- Any other string.
  unknown : Stage

pub record Turn : Type 0 where
  pub turn_id : ℕ
  pub turn_start_ts : ℤ
  pub turn_end_ts : ℤ
  pub asr_first_text_ts : ℤ
  pub asr_final_text_ts : ℤ
  pub llm_start_ts : ℤ
  pub llm_first_token_ts : ℤ
  pub llm_end_ts : ℤ
  pub tts_start_ts : ℤ
  pub tts_first_frame_ts : ℤ
  pub tts_stop_ts : ℤ

pub record Plugin : Type 0 where
  pub next_turn : List (String × ℕ)
  pub current : List (String × Turn)
  pub last_seen : List (String × ℕ)
  pub cleanup_counter : ℕ

abbrev pub cleanup_threshold : ℕ
cleanup_threshold = 100

abbrev pub new_plugin : Plugin
new_plugin = record { next_turn = []; current = []; last_seen = []; cleanup_counter = 0 }

unfoldable pub is_zero : ℤ → Bool
is_zero (pos zero) = true
is_zero _ = false

unfoldable pub is_positive : ℤ → Bool
is_positive (pos (suc n)) = true
is_positive _ = false

unfoldable pub can_reuse : Turn → Bool
can_reuse t =
    is_zero t.turn_start_ts
    && is_zero t.llm_start_ts
    && is_zero t.tts_start_ts
    && is_zero t.tts_stop_ts

unfoldable pub can_start : Stage → Bool
can_start asr_first_text = true
can_start asr_final_text = true
can_start llm_start = true
can_start tts_start = true
can_start _ = false

abbrev pub new_turn : ℕ → Turn
new_turn n = record {
  turn_id = n;
  turn_start_ts = pos 0;
  turn_end_ts = pos 0;
  asr_first_text_ts = pos 0;
  asr_final_text_ts = pos 0;
  llm_start_ts = pos 0;
  llm_first_token_ts = pos 0;
  llm_end_ts = pos 0;
  tts_start_ts = pos 0;
  tts_first_frame_ts = pos 0;
  tts_stop_ts = pos 0;
}

-- `p.nextTurn[sessionID]`
abbrev pub turns : String → Plugin → ℕ
turns sid p = elim (lookup sid p.next_turn) [ none ↦ 0 | some n ↦ n ]

unfoldable pub start_new_turn : String → Plugin → Turn × Plugin
start_new_turn sid p =
    let t = new_turn (suc (turns sid p)) in
    (
      t,
      record p {
        next_turn = insert sid (suc (turns sid p)) p.next_turn;
        current = insert sid t p.current;
      },
    )

-- `stage == MetricTurnStart`
unfoldable pub is_start : Stage → Bool
is_start turn_start = true
is_start _ = false

unfoldable pub get_turn : String → Stage → Plugin → Option Turn × Plugin
get_turn sid stage p =
    let fresh = start_new_turn sid p in
    if is_start stage
    then elim (lookup sid p.current) [
      | none ↦ (some fresh.0, fresh.1)
      | some t ↦ if can_reuse t then (some t, p) else (some fresh.0, fresh.1)
    ]
    else elim (lookup sid p.current) [
      | some t ↦ (some t, p)
      | none ↦ if can_start stage then (some fresh.0, fresh.1) else (none, p)
    ]

-- A stamp that is set once.
abbrev pub first : ℤ → ℤ → ℤ
first old ts = if is_zero old then ts else old

-- A stamp that is set once, behind the start `from`.
abbrev pub first_behind : ℤ → ℤ → ℤ → ℤ
first_behind from old ts = if is_positive from && is_zero old then ts else old

-- The `switch` of `applyMetricLocked`, on the fields of the turn.
unfoldable pub stamp : Stage → ℤ → Turn → Turn
stamp turn_start ts t = record t {
  turn_start_ts =
      if is_zero t.turn_start_ts || is_positive ts && ltb_ℤ ts t.turn_start_ts
      then ts
      else t.turn_start_ts;
}
stamp turn_end ts t = record t { turn_end_ts = first t.turn_end_ts ts }
stamp asr_first_text ts t = record t { asr_first_text_ts = first t.asr_first_text_ts ts }
stamp asr_final_text ts t = record t { asr_final_text_ts = first t.asr_final_text_ts ts }
stamp llm_start ts t = record t { llm_start_ts = first t.llm_start_ts ts }
stamp llm_first_token ts t = record t {
  llm_first_token_ts = first_behind t.llm_start_ts t.llm_first_token_ts ts;
}
stamp llm_end ts t = record t { llm_end_ts = first_behind t.llm_start_ts t.llm_end_ts ts }
stamp tts_start ts t = record t { tts_start_ts = first t.tts_start_ts ts }
stamp tts_first_frame ts t = record t {
  tts_first_frame_ts = first_behind t.tts_start_ts t.tts_first_frame_ts ts;
}
stamp tts_stop ts t = record t { tts_stop_ts = first_behind t.tts_start_ts t.tts_stop_ts ts }
stamp unknown ts t = t

unfoldable pub is_end : Stage → Bool
is_end turn_end = true
is_end _ = false

-- The metric is older than the turn.
unfoldable pub is_late : Stage → ℤ → Turn → Bool
is_late stage ts t =
    not (is_start stage)
    && is_positive t.turn_start_ts
    && is_positive ts
    && ltb_ℤ ts t.turn_start_ts

-- `applyMetricLocked` on the session's current turn: the completed turn, if it ends.
unfoldable pub apply_metric : String → Turn → Stage → ℤ → Plugin → Option Turn × Plugin
apply_metric sid t stage ts p =
    if is_late stage ts t
    then (none, p)
    else if is_end stage
    then (some (stamp stage ts t), record p { current = delete sid p.current })
    else (none, record p { current = insert sid (stamp stage ts t) p.current })

-- Two minutes, in milliseconds.
abbrev pub ttl : ℕ
ttl = 120000

abbrev pub drop_session : String → Plugin → Plugin
drop_session sid p = record p {
  last_seen = delete sid p.last_seen;
  current = delete sid p.current;
  next_turn = delete sid p.next_turn;
}

-- The loop of `cleanupStaleLocked` over the entries of `lastSeen`.
unfoldable pub cleanup_stale : ℕ → List (String × ℕ) → Plugin → Plugin
cleanup_stale now [] p = p
cleanup_stale now ((sid, seen) ∷ es) p =
    cleanup_stale now es (if leb (now - seen) ttl then p else drop_session sid p)

-- The first half of `onMetric`: the session is seen, and every 100th time there is a cleanup.
unfoldable pub see : String → ℕ → Plugin → Plugin
see sid now p =
    let q = record p {
      last_seen = insert sid now p.last_seen;
      cleanup_counter = suc p.cleanup_counter;
    } in
    if q.cleanup_counter % cleanup_threshold == 0 then cleanup_stale now q.last_seen q else q

-- `if tm != nil { completed = p.applyMetricLocked(…) }`
unfoldable pub apply_found : String → Stage → ℤ → Option Turn × Plugin → Option Turn × Plugin
apply_found sid stage ts (none, p) = (none, p)
apply_found sid stage ts (some t, p) = apply_metric sid t stage ts p

-- The second half: the turn that the metric completes, which is logged.
unfoldable pub record_metric : String → Stage → ℤ → Plugin → Option Turn × Plugin
record_metric sid stage ts p = apply_found sid stage ts (get_turn sid stage p)

-- `onMetric`; `none` is a payload of another type.
unfoldable pub on_metric : String → Option (Stage × ℤ) → ℕ → Plugin → Option Turn × Plugin
on_metric sid none now p = (none, p)
on_metric sid (some (stage, ts)) now p =
    if string_eq.beq sid "" then (none, p) else record_metric sid stage ts (see sid now p)

unfoldable pub calc_delta : ℤ → ℤ → ℤ
calc_delta start stop =
    if leb_ℤ start (pos 0) || leb_ℤ stop (pos 0) || ltb_ℤ stop start then pos 0 else stop -ℤ start

-- The durations of `logTurnMetric`, in the order of the message.
unfoldable pub durations : Turn → List ℤ
durations t =
    let stop = if is_zero t.turn_end_ts then t.tts_stop_ts else t.turn_end_ts in
    calc_delta t.turn_start_ts t.asr_first_text_ts
    ∷ calc_delta t.asr_first_text_ts t.asr_final_text_ts
    ∷ calc_delta t.llm_start_ts t.llm_first_token_ts
    ∷ calc_delta t.llm_start_ts t.llm_end_ts
    ∷ calc_delta t.tts_start_ts t.tts_first_frame_ts
    ∷ calc_delta t.tts_start_ts t.tts_stop_ts
    ∷ calc_delta t.turn_start_ts t.tts_first_frame_ts
    ∷ calc_delta t.turn_start_ts stop
    ∷ []
