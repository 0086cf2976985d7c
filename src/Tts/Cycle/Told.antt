-- ===== src/Tts/Cycle/Told.antt =====
-- internal/app/server/chat/tts.go: what a cycle tells the session, and when.
use xiaozhi_esp32_server_gol.Common.{
  ℕ, ◌+◌, ◌-◌, ◌≤◌, ◌≡◌, refl, Bool, true, false, not, ◌&&◌, Option, List, [], ◌∷◌, ◌++◌, arith,
  if_both, bit, count_if, count_if-append, ◌==◌, ◌||◌, All,
}
use xiaozhi_esp32_server_gol.Tts.Cycle.Calm.{Calm, forced, run-Calm}
use xiaozhi_esp32_server_gol.Tts.Cycle.{
  Meter, Trace, start_traced, first_frame_traced, stop_traced, turn_end_traced, Action,
  starts_cycle, registers_item, finishes_item, finishes_request, starts_request, hears_audio,
  requests_end, forces_stop, start_cycle, register_item, finalize, maybe_finalize, emit, emitting,
  finish_item, finish_request, mark_request_start, mark_first_audio, request_turn_end, force_stop,
  step, run, of_cycle, asking_end,
}

-- A cycle that has ended was asked to, has ended its speech if it had begun, and one that was
-- asked to end and has not has an open item or request.
pub record Sound (m : Meter) : Type 0 where
  pub paired : m.cycle.tts_stopped ≡ (m.cycle.started && m.cycle.turn_ended)
  pub asked : m.cycle.turn_ended ≡ true → m.cycle.turn_end_requested ≡ true
  pub busy :
      m.cycle.turn_end_requested ≡ true
      → m.cycle.turn_ended ≡ false
      → 1 ≤ m.cycle.pending_items + m.cycle.active_requests

start_cycle-Sound : (m : Meter) → Sound (start_cycle m)
unfolding start_cycle
start_cycle-Sound m = record { paired = refl; asked = λ p. p; busy = λ p. cc }

module _ {E : Type 0} where
  abbrev pub is_turn_end : Trace E → Bool
  is_turn_end (turn_end_traced ts e) = true
  is_turn_end _ = false

  abbrev pub is_stop : Trace E → Bool
  is_stop (stop_traced ts e) = true
  is_stop _ = false

  abbrev pub is_start : Trace E → Bool
  is_start (start_traced ts) = true
  is_start _ = false

  abbrev pub is_first_frame : Trace E → Bool
  is_first_frame (first_frame_traced ts) = true
  is_first_frame _ = false

  -- What the traces `ts` report is what has changed in the cycle since.
  pub record Told (ts : List (Trace E)) (m m' : Meter) : Type 0 where
    pub ends : count_if is_turn_end ts + bit m.cycle.turn_ended ≡ bit m'.cycle.turn_ended
    pub stops : count_if is_stop ts + bit m.cycle.tts_stopped ≡ bit m'.cycle.tts_stopped
    pub starts : count_if is_start ts + bit m.cycle.started ≤ bit m'.cycle.started
    pub frames : count_if is_first_frame ts + bit m.cycle.first_audio ≤ bit m'.cycle.first_audio

  pub record Good (m : Meter) (r : List (Trace E) × Meter) : Type 0 where
    pub told : Told r.0 m r.1
    pub sound : Sound r.1

  Told-refl : (m : Meter) → Told [] m m
  Told-refl m = record {
    ends = omega arith;
    stops = omega arith;
    starts = omega arith;
    frames = omega arith;
  }

  Told-trans :
      {xs ys : List (Trace E)} {a b c : Meter} → Told xs a b → Told ys b c → Told (xs ++ ys) a c
  Told-trans {xs} {ys} t u = record {
    ends = omega (arith, t.ends, u.ends, count_if-append is_turn_end xs ys);
    stops = omega (arith, t.stops, u.stops, count_if-append is_stop xs ys);
    starts = omega (arith, t.starts, u.starts, count_if-append is_start xs ys);
    frames = omega (arith, t.frames, u.frames, count_if-append is_first_frame xs ys);
  }

  finalize-Good :
      (now : ℕ) (e : Option E) (m : Meter)
      → m.cycle.turn_end_requested ≡ true
      → m.cycle.tts_stopped ≡ (m.cycle.started && m.cycle.turn_ended)
      → Good m (emitting (finalize now e m))
  unfolding finalize emit
  finalize-Good now e m asked paired = record {
    told = record {
      ends = ground arith;
      stops = ground arith;
      starts = ground arith;
      frames = ground arith;
    };
    sound = record { paired = ground arith; asked = ground arith; busy = ground arith };
  }

  -- What `maybe_finalize` needs of the state behind a change to the counts or the request.
  maybe_finalize-Good :
      (now : ℕ) (e : Option E) (m : Meter)
      → m.cycle.tts_stopped ≡ (m.cycle.started && m.cycle.turn_ended)
      → (m.cycle.turn_ended ≡ true → m.cycle.turn_end_requested ≡ true)
      → Good m (emitting (maybe_finalize now e m))
  unfolding maybe_finalize finalize emit
  maybe_finalize-Good now e m paired asked = record {
    told = record {
      ends = ground arith;
      stops = ground arith;
      starts = ground arith;
      frames = ground arith;
    };
    sound = record { paired = ground arith; asked = ground arith; busy = ground arith };
  }

  -- Other counts and another request before it change nothing of this.
  recount :
      (m : Meter) (p a : ℕ) (r : Bool)
      → Told [] m record m {
        cycle = record m.cycle { pending_items = p; active_requests = a; turn_end_requested = r };
      }
  recount m p a r = record {
    ends = omega arith;
    stops = omega arith;
    starts = omega arith;
    frames = omega arith;
  }

  still : (m : Meter) → Sound m → Good m ([], m)
  still m s = record { told = Told-refl m; sound = s }

  finish_item-Good :
      (now c : ℕ) (e : Option E) (m : Meter) → Sound m → Good m (finish_item now c e m)
  unfolding finish_item
  finish_item-Good now c e m s =
      let left = record m {
        cycle = record m.cycle { pending_items = m.cycle.pending_items - 1 };
      } in
      let g = maybe_finalize-Good now e left s.paired s.asked in
      if_both (Good m) (of_cycle c m) _ _
        record { told = Told-trans (recount m _ _ _) g.told; sound = g.sound } (still m s)

  finish_request-Good :
      (now c : ℕ) (e : Option E) (m : Meter) → Sound m → Good m (finish_request now c e m)
  unfolding finish_request
  finish_request-Good now c e m s =
      let left = record m {
        cycle = record m.cycle { active_requests = m.cycle.active_requests - 1 };
      } in
      let g = maybe_finalize-Good now e left s.paired s.asked in
      if_both (Good m) (of_cycle c m) _ _
        record { told = Told-trans (recount m _ _ _) g.told; sound = g.sound } (still m s)

  request_turn_end-Good :
      (now : ℕ) (e : Option E) (m : Meter) → Sound m → Good m (request_turn_end now e m)
  unfolding request_turn_end
  request_turn_end-Good now e m s =
      let g = maybe_finalize-Good now e (asking_end m) s.paired (λ _. refl) in
      if_both (Good m) (m.cycle.cycle_id == 0) _ _ (still m s)
        record { told = Told-trans (recount m _ _ _) g.told; sound = g.sound }

  force_stop-Good : (now : ℕ) (e : Option E) (m : Meter) → Sound m → Good m (force_stop now e m)
  unfolding force_stop
  force_stop-Good now e m s =
      let g = finalize-Good now e (asking_end m) refl s.paired in
      if_both (Good m) (m.cycle.cycle_id == 0 || m.cycle.turn_ended) _ _ (still m s)
        record { told = Told-trans (recount m _ _ _) g.told; sound = g.sound }

  register_item-Good : (c : ℕ) (m : Meter) → Sound m → Good m ([], register_item c m)
  unfolding register_item
  register_item-Good c m s =
      if_both (λ m'. Good m ([], m')) (of_cycle c m && not m.cycle.turn_ended) _ _
        record {
          told = recount m _ _ _;
          sound = record { paired = s.paired; asked = s.asked; busy = λ a n. omega arith };
        }
        (still m s)

  mark_request_start-Good : (now c : ℕ) (m : Meter) → Sound m → Good m (mark_request_start now c m)
  unfolding mark_request_start
  mark_request_start-Good now c m s = record {
    told = record {
      ends = ground arith;
      stops = ground arith;
      starts = ground arith;
      frames = ground arith;
    };
    sound = record {
      paired = ground (arith, s.paired);
      asked = ground (arith, s.asked);
      busy = ground (arith, s.busy);
    };
  }

  mark_first_audio-Good : (now c : ℕ) (m : Meter) → Sound m → Good m (mark_first_audio now c m)
  unfolding mark_first_audio
  mark_first_audio-Good now c m s = record {
    told = record {
      ends = ground arith;
      stops = ground arith;
      starts = ground arith;
      frames = ground arith;
    };
    sound = record {
      paired = ground (arith, s.paired);
      asked = ground (arith, s.asked);
      busy = ground (arith, s.busy);
    };
  }

  abbrev pub is_restart : Action E → Bool
  is_restart starts_cycle = true
  is_restart _ = false

  step-Good : (a : Action E) (m : Meter) → is_restart a ≡ false → Sound m → Good m (step a m)
  unfolding step
  step-Good starts_cycle m n s = cc
  step-Good (registers_item c) m n s = register_item-Good c m s
  step-Good (finishes_item now c e) m n s = finish_item-Good now c e m s
  step-Good (finishes_request now c e) m n s = finish_request-Good now c e m s
  step-Good (starts_request now c) m n s = mark_request_start-Good now c m s
  step-Good (hears_audio now c) m n s = mark_first_audio-Good now c m s
  step-Good (requests_end now e) m n s = request_turn_end-Good now e m s
  step-Good (forces_stop now e) m n s = force_stop-Good now e m s

  run-Good :
      (xs : List (Action E)) (m : Meter)
      → All (λ a. is_restart a ≡ false) xs
      → Sound m
      → Good m (run xs m)
  unfolding run
  run-Good [] m n s = still m s
  run-Good (a ∷ xs) m n s =
      let g = step-Good a m n.0 s in
      let h = run-Good xs (step a m).1 n.1 g.sound in
      record { told = Told-trans g.told h.told; sound = h.sound }

  -- Whatever items and requests do from one startTtsMetricCycle to the next, in any order, the end
  -- of the turn and the end of its speech are traced once if the cycle has come to them and not
  -- otherwise, and the start and the first frame at most once. The turn ends only when that was
  -- asked for, with the end of the speech if that had started, and it has no open item or request
  -- then unless it was forced to end; one that was asked to end and has not has one.
  pub cycle_told :
      (m : Meter) (xs : List (Action E))
      → All (λ a. is_restart a ≡ false) xs
      → Good (start_cycle m) (run xs (start_cycle m)) × Calm (forced xs) (run xs (start_cycle m)).1
  unfolding start_cycle
  cycle_told m xs n =
      (run-Good xs (start_cycle m) n (start_cycle-Sound m), run-Calm xs (start_cycle m) refl)
