-- ===== src/Tts/Cycle.antt =====
-- internal/app/server/chat/tts.go: the metrics of one turn's speech output. Items of the queue and
-- requests to a provider report to the cycle in which they were made; its end is traced when the
-- turn end was requested and none of them is open. A method is one step, with the traces that it
-- emits; the clock is an argument, in milliseconds, and errors are values.
pub mod Calm
pub mod Told
pub mod Late
use xiaozhi_esp32_server_gol.Common.{
  ℕ, suc, ◌+◌, ◌-◌, ◌%◌, ◌^◌, Bool, true, false, not, ◌&&◌, ◌||◌, Option, none, List, [], ◌∷◌, ◌++◌,
  ltb, ◌==◌, if◌then◌else◌,
}

-- `ttsMetricState`
pub record Cycle : Type 0 where
  pub cycle_id : ℕ
  pub pending_items : ℕ
  pub active_requests : ℕ
  pub turn_end_requested : Bool
  pub started : Bool
  pub first_audio : Bool
  pub tts_stopped : Bool
  pub turn_ended : Bool

-- The fields of the client's statistic that the methods set.
pub record Stamps : Type 0 where
  pub tts_start_ts : ℕ
  pub tts_first_frame_ts : ℕ
  pub tts_stop_ts : ℕ

pub record Meter : Type 0 where
  pub cycle : Cycle
  pub stamps : Stamps

-- What the session is told: TraceTtsStart, TraceTtsFirstFrame, TraceTtsStop and TraceTurnEnd.
pub data Trace (E : Type 0) : Type 0 where
  start_traced first_frame_traced : ℕ → Trace E
  stop_traced turn_end_traced : ℕ → Option E → Trace E

pub record Completion (E : Type 0) : Type 0 where
  pub err : Option E
  pub tts_stop_ts : ℕ
  pub turn_end_ts : ℕ
  pub trace_tts_stop : Bool
  pub trace_turn_end : Bool

-- The calls that the manager makes, each with its clock where it reads it.
pub data Action (E : Type 0) : Type 0 where
  starts_cycle : Action E
  registers_item : ℕ → Action E
  finishes_item finishes_request : ℕ → ℕ → Option E → Action E
  starts_request hears_audio : ℕ → ℕ → Action E
  requests_end forces_stop : ℕ → Option E → Action E

abbrev pub fresh : ℕ → Cycle
fresh c = record {
  cycle_id = c;
  pending_items = 0;
  active_requests = 0;
  turn_end_requested = false;
  started = false;
  first_audio = false;
  tts_stopped = false;
  turn_ended = false;
}

-- The cycle's number is a uint64.
unfoldable pub start_cycle : Meter → Meter
start_cycle m = record m { cycle = fresh (suc m.cycle.cycle_id % 2 ^ 64) }

abbrev pub of_cycle : ℕ → Meter → Bool
of_cycle c m = not (c == 0) && m.cycle.cycle_id == c

unfoldable pub register_item : ℕ → Meter → Meter
register_item c m =
    if of_cycle c m && not m.cycle.turn_ended
    then record m { cycle = record m.cycle { pending_items = suc m.cycle.pending_items } }
    else m

abbrev pub asking_end : Meter → Meter
asking_end m = record m { cycle = record m.cycle { turn_end_requested = true } }

module _ {E : Type 0} where
  abbrev pub no_completion : Completion E
  no_completion = record {
    err = none;
    tts_stop_ts = 0;
    turn_end_ts = 0;
    trace_tts_stop = false;
    trace_turn_end = false;
  }

  -- `finalizeTtsMetricLocked`
  unfoldable pub finalize : ℕ → Option E → Meter → Completion E × Meter
  finalize now e m =
      if m.cycle.turn_ended
      then (no_completion, m)
      else if m.cycle.started && not m.cycle.tts_stopped
      then (
        record {
          err = e;
          tts_stop_ts = now;
          turn_end_ts = now;
          trace_tts_stop = true;
          trace_turn_end = true;
        },
        record {
          cycle = record m.cycle { tts_stopped = true; turn_ended = true };
          stamps = record m.stamps { tts_stop_ts = now };
        },
      )
      else (
        record no_completion { err = e; turn_end_ts = now; trace_turn_end = true },
        record m { cycle = record m.cycle { turn_ended = true } },
      )

  unfoldable pub maybe_finalize : ℕ → Option E → Meter → Completion E × Meter
  maybe_finalize now e m =
      let ending = finalize now e m in
      if not m.cycle.turn_end_requested || m.cycle.turn_ended
      then (no_completion, m)
      else if ltb 0 m.cycle.pending_items || ltb 0 m.cycle.active_requests
      then (no_completion, m)
      else ending

  -- `emitTtsMetricCompletion`, for a manager that has a session.
  unfoldable pub emit : Completion E → List (Trace E)
  emit c =
      (if c.trace_tts_stop then stop_traced c.tts_stop_ts c.err ∷ [] else [])
      ++ (if c.trace_turn_end then turn_end_traced c.turn_end_ts c.err ∷ [] else [])

  abbrev pub emitting : Completion E × Meter → List (Trace E) × Meter
  emitting (c, m) = (emit c, m)

  unfoldable pub finish_item : ℕ → ℕ → Option E → Meter → List (Trace E) × Meter
  finish_item now c e m =
      let left = record m.cycle { pending_items = m.cycle.pending_items - 1 } in
      let ending = emitting (maybe_finalize now e (record m { cycle = left })) in
      if of_cycle c m then ending else ([], m)

  unfoldable pub finish_request : ℕ → ℕ → Option E → Meter → List (Trace E) × Meter
  finish_request now c e m =
      let left = record m.cycle { active_requests = m.cycle.active_requests - 1 } in
      let ending = emitting (maybe_finalize now e (record m { cycle = left })) in
      if of_cycle c m then ending else ([], m)

  -- The first request of a cycle marks and traces the start of its speech.
  unfoldable pub mark_request_start : ℕ → ℕ → Meter → List (Trace E) × Meter
  mark_request_start now c m =
      let asked = record m.cycle { active_requests = suc m.cycle.active_requests } in
      if not (of_cycle c m && not m.cycle.turn_ended)
      then ([], m)
      else if m.cycle.started
      then ([], record m { cycle = asked })
      else (
        (if ltb 0 now then start_traced now ∷ [] else []),
        record {
          cycle = record asked { started = true };
          stamps = record { tts_start_ts = now; tts_first_frame_ts = 0; tts_stop_ts = 0 };
        },
      )

  unfoldable pub mark_first_audio : ℕ → ℕ → Meter → List (Trace E) × Meter
  mark_first_audio now c m =
      let old = m.stamps.tts_first_frame_ts in
      let ts = if old == 0 then now else old in
      if of_cycle c m && m.cycle.started && not m.cycle.first_audio && not m.cycle.turn_ended
      then (
        (if ltb 0 ts then first_frame_traced ts ∷ [] else []),
        record {
          cycle = record m.cycle { first_audio = true };
          stamps = record m.stamps { tts_first_frame_ts = ts };
        },
      )
      else ([], m)

  unfoldable pub request_turn_end : ℕ → Option E → Meter → List (Trace E) × Meter
  request_turn_end now e m =
      if m.cycle.cycle_id == 0 then ([], m) else emitting (maybe_finalize now e (asking_end m))

  unfoldable pub force_stop : ℕ → Option E → Meter → List (Trace E) × Meter
  force_stop now e m =
      if m.cycle.cycle_id == 0 || m.cycle.turn_ended
      then ([], m)
      else emitting (finalize now e (asking_end m))

  unfoldable pub step : Action E → Meter → List (Trace E) × Meter
  step starts_cycle m = ([], start_cycle m)
  step (registers_item c) m = ([], register_item c m)
  step (finishes_item now c e) m = finish_item now c e m
  step (finishes_request now c e) m = finish_request now c e m
  step (starts_request now c) m = mark_request_start now c m
  step (hears_audio now c) m = mark_first_audio now c m
  step (requests_end now e) m = request_turn_end now e m
  step (forces_stop now e) m = force_stop now e m

  unfoldable pub run : List (Action E) → Meter → List (Trace E) × Meter
  run [] m = ([], m)
  run (a ∷ as') m = let (t, m') = step a m in let (ts, last) = run as' m' in (t ++ ts, last)
