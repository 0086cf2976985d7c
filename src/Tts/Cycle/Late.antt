-- ===== src/Tts/Cycle/Late.antt =====
-- internal/app/server/chat/tts.go: pushTTSQueueItem registers an item with its cycle behind the push,
-- when a consumer may have finished it already.
use xiaozhi_esp32_server_gol.Common.{
  ℕ, ◌-◌, ◌≤◌, ◌≡◌, refl, Bool, true, false, Option, List, [], ◌∷◌, arith, if_both, count_if,
  count_if-append, ◌==◌, All, ◌≢◌,
}
use xiaozhi_esp32_server_gol.Tts.Cycle.{
  Meter, Trace, Action, starts_cycle, registers_item, finishes_item, finishes_request,
  starts_request, hears_audio, requests_end, forces_stop, register_item, maybe_finalize, finalize,
  emit, emitting, finish_item, finish_request, mark_request_start, mark_first_audio,
  request_turn_end, step, run, of_cycle, asking_end,
}
use xiaozhi_esp32_server_gol.Tts.Cycle.Told.{is_turn_end}

module _ {E : Type 0} where
  -- Actions that neither start a cycle, nor force the end of one, nor finish an item.
  abbrev pub is_quiet : Action E → Bool
  is_quiet starts_cycle = false
  is_quiet (finishes_item now c e) = false
  is_quiet (forces_stop now e) = false
  is_quiet _ = true

  -- An item is open and the turn has not ended.
  record Waiting (r : List (Trace E) × Meter) : Type 0 where
    silent : count_if is_turn_end r.0 ≡ 0
    item : 1 ≤ r.1.cycle.pending_items
    unended : r.1.cycle.turn_ended ≡ false

  maybe_finalize-Waiting :
      (now : ℕ) (e : Option E) (m : Meter)
      → 1 ≤ m.cycle.pending_items
      → m.cycle.turn_ended ≡ false
      → Waiting (emitting (maybe_finalize now e m))
  unfolding maybe_finalize finalize emit
  maybe_finalize-Waiting now e m p n = record {
    silent = ground arith;
    item = ground arith;
    unended = ground arith;
  }

  step-Waiting :
      (a : Action E) (m : Meter) → is_quiet a ≡ true → Waiting ([], m) → Waiting (step a m)
  unfolding step register_item finish_request mark_request_start mark_first_audio request_turn_end
      emit
  step-Waiting starts_cycle m q w = cc
  step-Waiting (registers_item c) m q w = record {
    silent = refl;
    item = ground (arith, w.item);
    unended = ground (arith, w.unended);
  }
  step-Waiting (finishes_item now c e) m q w = cc
  step-Waiting (finishes_request now c e) m q w =
      let g =
        maybe_finalize-Waiting now e
          record m { cycle = record m.cycle { active_requests = m.cycle.active_requests - 1 } }
          w.item w.unended in
      if_both Waiting (of_cycle c m) _ _ g w
  step-Waiting (starts_request now c) m q w = record {
    silent = ground arith;
    item = ground (arith, w.item);
    unended = ground (arith, w.unended);
  }
  step-Waiting (hears_audio now c) m q w = record {
    silent = ground arith;
    item = ground (arith, w.item);
    unended = ground (arith, w.unended);
  }
  step-Waiting (requests_end now e) m q w =
      if_both Waiting (m.cycle.cycle_id == 0) _ _ w
        (maybe_finalize-Waiting now e (asking_end m) w.item w.unended)
  step-Waiting (forces_stop now e) m q w = cc

  run-Waiting :
      (xs : List (Action E)) (m : Meter)
      → All (λ a. is_quiet a ≡ true) xs
      → Waiting ([], m)
      → Waiting (run xs m)
  unfolding run
  run-Waiting [] m q w = w
  run-Waiting (a ∷ xs) m q w =
      let g = step-Waiting a m q.0 w in
      let h =
        run-Waiting xs (step a m).1 q.1
          record { silent = refl; item = g.item; unended = g.unended } in
      record {
        silent = omega (
          arith,
          g.silent,
          h.silent,
          count_if-append is_turn_end (step a m).0 (run xs (step a m).1).0,
        );
        item = h.item;
        unended = h.unended;
      }

  -- Where a consumer finishes an item of the running cycle before pushTTSQueueItem registers it, and
  -- no other item is open, the end of the turn is not traced, whatever requests and registrations
  -- follow and also when it is asked for, as long as no item finishes, no end is forced and no cycle
  -- starts.
  pub late_registration :
      (now c : ℕ) (e : Option E) (m : Meter) (xs : List (Action E))
      → c ≢ 0
      → m.cycle.cycle_id ≡ c
      → m.cycle.pending_items ≡ 0
      → m.cycle.turn_end_requested ≡ false
      → m.cycle.turn_ended ≡ false
      → All (λ a. is_quiet a ≡ true) xs
      → count_if is_turn_end (run (finishes_item now c e ∷ registers_item c ∷ xs) m).0 ≡ 0
  unfolding run step finish_item register_item maybe_finalize emit
  late_registration now c e m xs nz i p r n q =
      let m1 = (finish_item now c e m).1 in
      let first : count_if is_turn_end (finish_item now c e m).0 ≡ 0 = ground arith in
      let w : Waiting ([], register_item c m1) = record {
        silent = refl;
        item = ground arith;
        unended = ground arith;
      } in
      let h = run-Waiting xs (register_item c m1) q w in
      omega (
        arith,
        first,
        h.silent,
        count_if-append is_turn_end (finish_item now c e m).0 (run xs (register_item c m1)).0,
      )
