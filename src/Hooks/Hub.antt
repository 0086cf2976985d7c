-- ===== src/Hooks/Hub.antt =====
-- internal/pkg/hooks/hub.go: the hub. Payloads, errors and the state of the handlers are type
-- parameters; how long a handler took is a part of its result.
pub mod Chain
pub mod Emission
pub mod Enabled
use xiaozhi_esp32_server_gol.Common.{
  ℕ, suc, ◌+◌, String, Bool, true, false, not, Option, none, some, List, [], ◌∷◌, ◌++◌,
  if◌then◌else◌, lookup, insert, string_eq,
}
use xiaozhi_esp32_server_gol.Common.Int.{ℤ}
use xiaozhi_esp32_server_gol.Common.Sorting.{sort_onto}
use xiaozhi_esp32_server_gol.Hooks.Executor.{
  Exec, Entry, accepts, refuses, waits, enter_submit, enqueue, close,
}

pub data PluginKind : Type 0 where
  interceptor observer : PluginKind

pub record PluginMeta : Type 0 where
  pub name : String
  pub priority : ℤ
  pub kind : PluginKind
  pub stage : String
  pub enabled : Bool

-- What a synchronous handler returns, and the milliseconds that it took.
pub record Handled (P E : Type 0) : Type 0 where
  pub next : P
  pub stop : Bool
  pub err : Option E
  pub ms : ℕ

-- `namedSync` and `namedAsync`, for the handlers `H`.
pub record Named (H : Type 0) : Type 0 where
  pub meta : PluginMeta
  pub enabled : Bool
  pub handler : H

pub record PluginStats : Type 0 where
  pub invocations : ℕ
  pub errors : ℕ
  pub stops : ℕ
  pub timeouts : ℕ
  pub dropped_async : ℕ
  pub total_duration_ms : ℕ

abbrev pub no_stats : PluginStats
no_stats = record {
  invocations = 0;
  errors = 0;
  stops = 0;
  timeouts = 0;
  dropped_async = 0;
  total_duration_ms = 0;
}

abbrev pub Stats : Type 0
Stats = List (String × PluginStats)

-- `ensurePluginStatsLocked`
abbrev pub stats_of : String → Stats → PluginStats
stats_of n m = elim (lookup n m) [ none ↦ no_stats | some s ↦ s ]

unfoldable pub update_stats : String → (PluginStats → PluginStats) → Stats → Stats
update_stats n f m = insert n (f (stats_of n m)) m

abbrev pub invoked : PluginStats → PluginStats
invoked s = record s { invocations = suc s.invocations }

abbrev pub failed : PluginStats → PluginStats
failed s = record s { errors = suc s.errors }

abbrev pub stopped : PluginStats → PluginStats
stopped s = record s { stops = suc s.stops }

abbrev pub timed_out : PluginStats → PluginStats
timed_out s = record s { timeouts = suc s.timeouts }

abbrev pub dropped : PluginStats → PluginStats
dropped s = record s { dropped_async = suc s.dropped_async }

abbrev pub lasted : ℕ → PluginStats → PluginStats
lasted ms s = record s { total_duration_ms = s.total_duration_ms + ms }

abbrev pub Sync : Type 0 → Type 0 → Type 0 → Type 0
Sync W P E = Named (P → W → Handled P E × W)

-- An asynchronous handler only has effects; the time that it takes is its result.
abbrev pub Async : Type 0 → Type 0 → Type 0
Async W P = Named (P → W → ℕ × W)

-- `cancelled` is that of the hub's own context, from which the executor's is derived.
pub record Hub (W P E : Type 0) : Type 0 where
  pub syncs : List (String × List (Sync W P E))
  pub asyncs : List (String × List (Async W P))
  pub exec : Exec (Async W P × P)
  pub cancelled : Bool
  pub dropped_async : ℕ
  pub plugin_stats : Stats
  pub plugin_meta : List (String × PluginMeta)
  pub world : W

abbrev pub hooks_of : {A : Type 0} → String → List (String × List A) → List A
hooks_of event m = elim (lookup event m) [ none ↦ [] | some hs ↦ hs ]

-- What `Emit` returns: the payload, the stop, and an error with the name of its hook.
pub record Emitted (P E : Type 0) : Type 0 where
  pub out : P
  pub stop : Bool
  pub err : Option (String × E)

-- The name, kind and stage that both registrations set.
abbrev pub complete : String → PluginKind → PluginMeta → PluginMeta
complete event k m = record m {
  name = if string_eq.beq m.name "" then event else m.name;
  kind = k;
  stage = event;
}

-- The flag that both registrations compute: `enabled := meta.Enabled; if !meta.Enabled { … }`.
abbrev pub registered_enabled : PluginMeta → Bool
registered_enabled m = if not m.enabled then true else m.enabled

abbrev pub named : {H : Type 0} → PluginMeta → H → Named H
named m f = record { meta = m; enabled = registered_enabled m; handler = f }

abbrev pub rank : {H : Type 0} → Named H → ℤ
rank n = n.meta.priority

module _ {W P E : Type 0} where
  abbrev pub count : String → (PluginStats → PluginStats) → Hub W P E → Hub W P E
  count n f h = record h { plugin_stats = update_stats n f h.plugin_stats }

  -- `emitAsync` for a hook that is enabled, where its call of Submit does not have to wait.
  unfoldable pub offer : ℕ → Async W P → P → Entry → Hub W P E → Hub W P E
  offer k a p accepts h = record h { exec = enqueue k (a, p) h.exec }
  offer k a p _ h = count a.meta.name dropped (record h { dropped_async = suc h.dropped_async })

  -- `emitAsync`. A Submit that finds the queue full either refuses at once or waits, for which
  -- `none` stands; the numbers say which waiter each Submit wakes.
  unfoldable pub emit_async : (ℕ → ℕ) → List (Async W P) → P → Hub W P E → Option (Hub W P E)
  emit_async wake [] p h = some h
  emit_async wake (a ∷ as') p h =
      let skip = emit_async (λ n. wake (suc n)) as' p h in
      let entry = enter_submit false h.exec in
      let next = emit_async (λ n. wake (suc n)) as' p (offer (wake 0) a p entry h) in
      if not a.enabled
      then skip
      else if h.cancelled
      then some h
      else elim entry [ waits ↦ none | _ ↦ next ]

  -- The end of `Emit`, behind the synchronous hooks.
  abbrev pub with_async :
      (ℕ → ℕ) → String → Emitted P E → Hub W P E → Option (Emitted P E × Hub W P E)
  with_async wake event r h = elim (emit_async wake (hooks_of event h.asyncs) r.out h) [
    | none ↦ none
    | some g ↦ some (r, g)
  ]

  -- A call of the hook's handler, with what is recorded of it in any case.
  unfoldable pub call : Sync W P E → P → Hub W P E → Handled P E × Hub W P E
  call s p h =
      let r = s.handler p h.world in
      (
        r.0,
        count s.meta.name (lasted r.0.ms) (count s.meta.name invoked (record h { world = r.1 })),
      )

  -- How a loop of `Emit` goes on behind a call with result `r`, whose error and stop are given again:
  -- by an error, by a stop, or with the next hook. The Bool of the result says whether the
  -- asynchronous hooks follow.
  unfoldable pub conclude :
      String
      → P
      → Handled P E
      → Option E
      → Bool
      → Hub W P E
      → (Bool × Emitted P E) × Hub W P E
      → (Bool × Emitted P E) × Hub W P E
  conclude n p r (some e) stop h next =
      ((false, record { out = p; stop = stop; err = some (n, e) }), count n failed h)
  conclude n p r none true h next =
      ((true, record { out = r.next; stop = true; err = none }), count n stopped h)
  conclude n p r none false h next = next

  -- The loop of `Emit` over the synchronous hooks.
  unfoldable pub run_syncs : List (Sync W P E) → P → Hub W P E → (Bool × Emitted P E) × Hub W P E
  run_syncs [] p h = ((true, record { out = p; stop = false; err = none }), h)
  run_syncs (s ∷ ss) p h =
      let skip = run_syncs ss p h in
      let c = call s p h in
      let next = run_syncs ss c.0.next c.1 in
      if not s.enabled then skip else conclude s.meta.name p c.0 c.0.err c.0.stop c.1 next

  -- What `Emit` does behind its loop.
  unfoldable pub finish_emit :
      (ℕ → ℕ) → String → (Bool × Emitted P E) × Hub W P E → Option (Emitted P E × Hub W P E)
  finish_emit wake event ((true, r), h) = with_async wake event r h
  finish_emit wake event ((false, r), h) = some (r, h)

  -- `Emit`. It takes both lists of hooks before it calls the first, and no handler changes them.
  unfoldable pub emit : (ℕ → ℕ) → String → P → Hub W P E → Option (Emitted P E × Hub W P E)
  emit wake event p h = finish_emit wake event (run_syncs (hooks_of event h.syncs) p h)

  -- `runAsyncHandler` in a worker; `late` holds the milliseconds until the deadline, where that came
  -- first. The handler goes on behind it, and its effects count as done.
  unfoldable pub run_async : Option ℕ → Async W P → P → Hub W P E → Hub W P E
  run_async late a p h =
      let r = a.handler p h.world in
      let g = count a.meta.name invoked (record h { world = r.1 }) in
      elim late [
        | none ↦ count a.meta.name (lasted r.0) g
        | some ms ↦ count a.meta.name (lasted ms) (count a.meta.name timed_out g)
      ]

  abbrev pub known : PluginMeta → Hub W P E → Hub W P E
  known m h = record h {
    plugin_meta = insert m.name m h.plugin_meta;
    plugin_stats = update_stats m.name (λ s. s) h.plugin_stats;
  }

  unfoldable pub register_sync :
      String → PluginMeta → (P → W → Handled P E × W) → Hub W P E → Hub W P E
  register_sync event m f h =
      let c = complete event interceptor m in
      let g = known c h in
      record g {
        syncs = insert event (sort_onto rank [] (hooks_of event h.syncs ++ named c f ∷ [])) h.syncs;
      }

  unfoldable pub register_async : String → PluginMeta → (P → W → ℕ × W) → Hub W P E → Hub W P E
  register_async event m f h =
      let c = complete event observer m in
      let g = known c h in
      record g {
        asyncs =
            insert event (sort_onto rank [] (hooks_of event h.asyncs ++ named c f ∷ [])) h.asyncs;
      }

  -- `Hub.Close` but for the wait for the workers; `owns` says that the hub made its executor.
  unfoldable pub close_hub : Bool → Hub W P E → Hub W P E
  close_hub owns h = record h { cancelled = true; exec = if owns then close h.exec else h.exec }

-- The inner loops of `setPluginEnabled`: the first hook of that name, if there is one.
unfoldable pub set_first : {H : Type 0} → String → Bool → List (Named H) → Option (List (Named H))
set_first name on [] = none
set_first name on (x ∷ xs) =
    let rest = set_first name on xs in
    if string_eq.beq x.meta.name name
    then some (record x { enabled = on } ∷ xs)
    else elim rest [ none ↦ none | some ys ↦ some (x ∷ ys) ]

-- The outer loop over the events, in the order in which the map gives them.
unfoldable pub set_in :
    {H : Type 0}
    → String
    → Bool
    → List String
    → List (String × List (Named H))
    → Option (List (String × List (Named H)))
set_in name on [] m = none
set_in name on (event ∷ events) m =
    let rest = set_in name on events m in
    elim (set_first name on (hooks_of event m)) [ none ↦ rest | some hs ↦ some (insert event hs m) ]

module _ {W P E : Type 0} where
  -- `setPluginEnabled`
  unfoldable pub set_plugin_enabled :
      List String → List String → String → Bool → Hub W P E → Hub W P E
  set_plugin_enabled sync_events async_events name on h =
      elim (set_in name on sync_events h.syncs) [
        | some m ↦ record h { syncs = m }
        | none ↦ elim (set_in name on async_events h.asyncs) [
          | some m ↦ record h { asyncs = m }
          | none ↦ h
        ]
      ]
