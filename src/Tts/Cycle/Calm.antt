-- ===== src/Tts/Cycle/Calm.antt =====
-- internal/app/server/chat/tts.go: the open items and requests at the end of a turn.
use xiaozhi_esp32_server_gol.Common.{
  ℕ, ◌+◌, ◌-◌, ◌≡◌, refl, Bool, true, false, not, ◌||◌, Option, List, [], ◌∷◌, if_both, ◌==◌, arith,
}
use xiaozhi_esp32_server_gol.Tts.Cycle.{
  Meter, Action, starts_cycle, registers_item, finishes_item, finishes_request, starts_request,
  hears_audio, requests_end, forces_stop, start_cycle, register_item, finalize, maybe_finalize,
  emitting, finish_item, finish_request, mark_request_start, mark_first_audio, request_turn_end,
  step, run, of_cycle, asking_end, Trace,
}

-- The turn has not ended, no item or request of it is open, or it was forced to end.
abbrev pub Calm : Bool → Meter → Type 0
Calm f m =
    (f || not m.cycle.turn_ended || m.cycle.pending_items + m.cycle.active_requests == 0) ≡ true

module _ {E : Type 0} where
  abbrev pub is_force : Action E → Bool
  is_force (forces_stop now e) = true
  is_force _ = false

  abbrev pub forced : List (Action E) → Bool
  forced [] = false
  forced (a ∷ xs) = is_force a || forced xs

  maybe_finalize-Calm :
      (f : Bool) (now : ℕ) (e : Option E) (m : Meter)
      → Calm f m
      → Calm f (emitting (maybe_finalize now e m)).1
  unfolding maybe_finalize finalize
  maybe_finalize-Calm f now e m c = ground (arith, c)

  step-Calm : (f : Bool) (a : Action E) (m : Meter) → Calm f m → Calm (f || is_force a) (step a m).1
  unfolding step start_cycle register_item finish_item finish_request mark_request_start
      mark_first_audio request_turn_end
  step-Calm true a m c = refl
  step-Calm false starts_cycle m c = refl
  step-Calm false (registers_item i) m c = ground (arith, c)
  step-Calm false (finishes_item now i e) m c =
      let left = record m.cycle { pending_items = m.cycle.pending_items - 1 } in
      if_both (λ (r : List (Trace E) × Meter). Calm false r.1) (of_cycle i m) _ _
        (maybe_finalize-Calm false now e (record m { cycle = left }) (ground (arith, c))) c
  step-Calm false (finishes_request now i e) m c =
      let left = record m.cycle { active_requests = m.cycle.active_requests - 1 } in
      if_both (λ (r : List (Trace E) × Meter). Calm false r.1) (of_cycle i m) _ _
        (maybe_finalize-Calm false now e (record m { cycle = left }) (ground (arith, c))) c
  step-Calm false (starts_request now i) m c = ground (arith, c)
  step-Calm false (hears_audio now i) m c = ground (arith, c)
  step-Calm false (requests_end now e) m c =
      if_both (λ (r : List (Trace E) × Meter). Calm false r.1) (m.cycle.cycle_id == 0) _ _ c
        (maybe_finalize-Calm false now e (asking_end m) c)
  step-Calm false (forces_stop now e) m c = refl

  run-Calm-from :
      (f : Bool) (xs : List (Action E)) (m : Meter) → Calm f m → Calm (f || forced xs) (run xs m).1
  unfolding run
  run-Calm-from true xs m c = refl
  run-Calm-from false [] m c = c
  run-Calm-from false (a ∷ xs) m c =
      run-Calm-from (is_force a) xs (step a m).1 (step-Calm false a m c)

  pub run-Calm : (xs : List (Action E)) (m : Meter) → Calm false m → Calm (forced xs) (run xs m).1
  run-Calm xs m c = run-Calm-from false xs m c
