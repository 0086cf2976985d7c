-- ===== src/Hooks/Tests.antt =====
-- Runs of the executor and the hub, and each theorem about them at a concrete input.
use xiaozhi_esp32_server_gol.Common.{
  ℕ, suc, ◌+◌, ◌≡◌, refl, String, true, false, none, some, List, [], ◌∷◌, length, get_elem?, lookup,
  insert, string_eq, if◌then◌else◌,
}
use xiaozhi_esp32_server_gol.Common.Int.{pos}
use xiaozhi_esp32_server_gol.Common.Sorting.{sort_onto, insert_sorted}
use xiaozhi_esp32_server_gol.Hooks.Executor.{
  ready, blocked, returned, Exec, Action, turns, calls, turn, act, settle, enter_submit, enqueue,
  work, signal, wake, set_thread, step, run, new_executor,
}
use xiaozhi_esp32_server_gol.Hooks.Executor.Order.{InOrder, new_executor-InOrder}
use xiaozhi_esp32_server_gol.Hooks.Executor.Progress.{turns_of, drains}
use xiaozhi_esp32_server_gol.Hooks.Executor.Stuck.{turns_only, submit_stuck}
use xiaozhi_esp32_server_gol.Hooks.Hub.{
  Handled, Hub, PluginMeta, interceptor, hooks_of, emit, register_sync, register_async,
}
use xiaozhi_esp32_server_gol.Hooks.Hub.Chain.{active, chain, Ran}
use xiaozhi_esp32_server_gol.Hooks.Hub.Emission.{Offered, emit_lem}
use xiaozhi_esp32_server_gol.Hooks.Hub.Enabled.{enabled_under}

-- Two calls to a queue for one task: the second waits.
abbrev two_calls : List (Action ℕ)
two_calls = calls 7 ∷ calls 8 ∷ turns 1 0 false ∷ turns 2 0 false ∷ []

second_waits :
    get_elem? (run two_calls (new_executor (pos 1) (pos 1) false)).threads 2 ≡ some (blocked 8)
unfolding run step new_executor turn act settle enter_submit enqueue signal wake set_thread
second_waits = refl

new_executor-InOrder_example : InOrder (run two_calls (new_executor (pos 1) (pos 1) false))
new_executor-InOrder_example = new_executor-InOrder (pos 1) (pos 1) false two_calls

drains_example :
    let e = run two_calls (new_executor (pos 1) (pos 1) true) in
    (i : ℕ) × (let f = run (turns_of i (length e.queue)) e in
      (f.queue ≡ []) × (f.popped ≡ e.accepted))
drains_example = drains (pos 1) (pos 1) two_calls

-- An executor with a full queue, a worker and a caller that waits.
abbrev waiting : Exec ℕ
waiting = record {
  queue = 7 ∷ [];
  size = 1;
  drop_when_full = false;
  cancelled = false;
  threads = ready ∷ returned 7 true ∷ blocked 8 ∷ [];
  accepted = 7 ∷ [];
  popped = [];
}

-- The worker takes the one task, finds nothing more and sleeps.
emptied : (run (turns_only ((0, 0, true) ∷ (0, 0, true) ∷ (2, 0, true) ∷ [])) waiting).queue ≡ []
unfolding run step turn act work set_thread
emptied = refl

submit_stuck_example :
    get_elem? (run (turns_only ((0, 0, true) ∷ (0, 0, true) ∷ (2, 0, true) ∷ [])) waiting).threads 2
    ≡ some (blocked 8)
submit_stuck_example =
    submit_stuck ((0, 0, true) ∷ (0, 0, true) ∷ (2, 0, true) ∷ []) 2 8 waiting
      (refl, (refl, (refl, tt))) refl

abbrev meta : String → ℕ → PluginMeta
meta n k = record { name = n; priority = pos k; kind = interceptor; stage = "e"; enabled = true }

-- Its handlers add to the payload and count their calls.
abbrev empty : Hub ℕ ℕ ℕ
empty = record {
  syncs = [];
  asyncs = [];
  exec = new_executor (pos 2) (pos 1) true;
  cancelled = false;
  dropped_async = 0;
  plugin_stats = [];
  plugin_meta = [];
  world = 0;
}

abbrev add : ℕ → ℕ → ℕ → Handled ℕ ℕ × ℕ
add n p w = (record { next = p + n; stop = false; err = none; ms = 1 }, suc w)

abbrev filled : Hub ℕ ℕ ℕ
filled =
    register_async "e" (meta "log" 1) (λ p w. (1, suc w))
      (register_sync "e" (meta "late" 9) (add 10) (
        register_sync "f" (meta "early" 2) (add 2)
          (register_sync "e" (meta "early" 1) (add 1) empty)))

filled_exec : filled.exec.drop_when_full ≡ true
unfolding register_async register_sync new_executor
filled_exec = refl

filled_open : filled.cancelled ≡ false
unfolding register_async register_sync
filled_open = refl

emit_lem_example :
    let c = chain (active (hooks_of "e" filled.syncs)) 5 filled.world in
    (g : Hub ℕ ℕ ℕ) × (emit (λ n. 0) "e" 5 filled ≡ some ((c.0).1, g))
    × ((k : Hub ℕ ℕ ℕ) × Ran c filled k
        × Offered (if (c.0).0 then active (hooks_of "e" filled.asyncs) else []) ((c.0).1).out k g)
emit_lem_example = emit_lem (λ n. 0) "e" 5 filled filled_exec filled_open

both_early : enabled_under "early" filled.syncs ≡ 2
unfolding register_async register_sync lookup insert sort_onto insert_sorted
both_early = refl
