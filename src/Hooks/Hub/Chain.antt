-- ===== src/Hooks/Hub/Chain.antt =====
-- internal/pkg/hooks/hub.go: the synchronous part of Emit against a plain chain of the enabled hooks.
use xiaozhi_esp32_server_gol.Common.{
  ℕ, ◌+◌, ◌≡◌, refl, ◌∙◌, String, Bool, true, false, not, Option, none, some, List, [], ◌∷◌,
  if◌then◌else◌, string_eq, lookup-insert, arith, Bool-cases, inl, inr,
}
use xiaozhi_esp32_server_gol.Hooks.Hub.{
  Named, Handled, PluginStats, stats_of, update_stats, Sync, Hub, Emitted, count, call, conclude,
  run_syncs, failed, stopped, invoked, lasted,
}

abbrev pub active : {H : Type 0} → List (Named H) → List (Named H)
active [] = []
active (x ∷ xs) = let rest = active xs in if x.enabled then x ∷ rest else rest

abbrev pub occurrences : String → List String → ℕ
occurrences k [] = 0
occurrences k (n ∷ ns) = (if string_eq.beq n k then 1 else 0) + occurrences k ns

module _ {W P E : Type 0} where
  -- The payload goes from hook to hook, up to an error or a stop. With the result comes the state of
  -- the handlers, and the names of the hooks that were called, in order.
  abbrev pub chain_call :
      String
      → P
      → Handled P E
      → Option E
      → Bool
      → W
      → (Bool × Emitted P E) × W × List String
      → (Bool × Emitted P E) × W × List String
  chain_call n p r (some e) stop w rest =
      ((false, record { out = p; stop = stop; err = some (n, e) }), w, n ∷ [])
  chain_call n p r none true w rest =
      ((true, record { out = r.next; stop = true; err = none }), w, n ∷ [])
  chain_call n p r none false w rest = (rest.0, rest.1, n ∷ rest.2)

  abbrev pub chain : List (Sync W P E) → P → W → (Bool × Emitted P E) × W × List String
  chain [] p w = ((true, record { out = p; stop = false; err = none }), w, [])
  chain (s ∷ ss) p w =
      let r = s.handler p w in
      chain_call s.meta.name p r.0 r.0.err r.0.stop r.1 (chain ss r.0.next r.1)

  abbrev pub invocations_of : String → Hub W P E → ℕ
  invocations_of k h = (stats_of k h.plugin_stats).invocations

  count_same :
      (k n : String) (f : PluginStats → PluginStats) (h : Hub W P E)
      → ((s : PluginStats) → (f s).invocations ≡ s.invocations)
      → invocations_of k (count n f h) ≡ invocations_of k h
  unfolding update_stats
  count_same k n f h q = elim (Bool-cases (string_eq.beq n k)) [
    | inl t ↦ ground (
      arith,
      t,
      lookup-insert n k (f (stats_of n h.plugin_stats)) h.plugin_stats,
      string_eq.beq_iff n k,
      q (stats_of n h.plugin_stats),
    )
    | inr t ↦ ground (arith, t, lookup-insert n k (f (stats_of n h.plugin_stats)) h.plugin_stats)
  ]

  count-invoked :
      (k n : String) (h : Hub W P E)
      → invocations_of k (count n invoked h)
        ≡ (if string_eq.beq n k then 1 else 0) + invocations_of k h
  unfolding update_stats
  count-invoked k n h = elim (Bool-cases (string_eq.beq n k)) [
    | inl t ↦ ground (
      arith,
      t,
      lookup-insert n k (invoked (stats_of n h.plugin_stats)) h.plugin_stats,
      string_eq.beq_iff n k,
    )
    | inr t ↦
        ground (arith, t, lookup-insert n k (invoked (stats_of n h.plugin_stats)) h.plugin_stats)
  ]

  -- A hub behind synchronous hooks that ended as `c`.
  pub record Ran (c : (Bool × Emitted P E) × W × List String) (h g : Hub W P E) : Type 0 where
    pub world : g.world ≡ c.1
    pub counts : (k : String) → invocations_of k g ≡ occurrences k c.2 + invocations_of k h
    pub exec : g.exec ≡ h.exec
    pub asyncs : g.asyncs ≡ h.asyncs
    pub dropped_async : g.dropped_async ≡ h.dropped_async
    pub cancelled : g.cancelled ≡ h.cancelled

  call_counts :
      (k : String) (s : Sync W P E) (p : P) (h : Hub W P E)
      → invocations_of k (call s p h).1
        ≡ (if string_eq.beq s.meta.name k then 1 else 0) + invocations_of k h
  unfolding call
  call_counts k s p h =
      let r = s.handler p h.world in
      let g = count s.meta.name invoked (record h { world = r.1 }) in
      count_same k s.meta.name (lasted r.0.ms) g (λ t. refl)
      ∙ count-invoked k s.meta.name (record h { world = r.1 })

  -- A hub behind one call, with a last count that leaves the invocations alone.
  called-Ran :
      (s : Sync W P E) (p : P) (h : Hub W P E) (f : PluginStats → PluginStats)
      (b : Bool × Emitted P E)
      → ((t : PluginStats) → (f t).invocations ≡ t.invocations)
      → Ran (b, (s.handler p h.world).1, s.meta.name ∷ []) h (count s.meta.name f (call s p h).1)
  unfolding call
  called-Ran s p h f b q = record {
    world = refl;
    counts = λ k. count_same k s.meta.name f (call s p h).1 q ∙ call_counts k s p h ∙ omega arith;
    exec = refl;
    asyncs = refl;
    dropped_async = refl;
    cancelled = refl;
  }

  then-Ran :
      (s : Sync W P E) (p : P) (h g : Hub W P E) (c : (Bool × Emitted P E) × W × List String)
      → Ran c (call s p h).1 g
      → Ran (c.0, c.1, s.meta.name ∷ c.2) h g
  unfolding call
  then-Ran s p h g c r = record {
    world = r.world;
    counts = λ k. omega (arith, r.counts k, call_counts k s p h);
    exec = r.exec;
    asyncs = r.asyncs;
    dropped_async = r.dropped_async;
    cancelled = r.cancelled;
  }

  abbrev pub Agrees : List (Sync W P E) → P → Hub W P E → (Bool × Emitted P E) × Hub W P E → Type 0
  Agrees ss p h r = let c = chain ss p h.world in (r.0 ≡ c.0) × Ran c h r.1

  conclude-Agrees :
      (s : Sync W P E) (p : P) (h : Hub W P E) (err : Option E) (stop : Bool)
      (c : (Bool × Emitted P E) × W × List String) (next : (Bool × Emitted P E) × Hub W P E)
      → (next.0 ≡ c.0) × Ran c (call s p h).1 next.1
      → let r = s.handler p h.world in
        let d = chain_call s.meta.name p r.0 err stop r.1 c in
        let a = conclude s.meta.name p r.0 err stop (call s p h).1 next in (a.0 ≡ d.0) × Ran d h a.1
  unfolding conclude
  conclude-Agrees s p h (some e) stop c next a = (
    refl,
    called-Ran s p h failed (false, record { out = p; stop = stop; err = some (s.meta.name, e) })
        (λ t. refl),
  )
  conclude-Agrees s p h none true c next a =
      let r = s.handler p h.world in
      (
        refl,
        called-Ran s p h stopped (true, record { out = r.0.next; stop = true; err = none })
            (λ t. refl),
      )
  conclude-Agrees s p h none false c next (e, a) = (e, then-Ran s p h next.1 c a)

  enabled-Agrees :
      (s : Sync W P E) (ss : List (Sync W P E)) (p : P) (h : Hub W P E)
      → ((q : P) (g : Hub W P E) → Agrees (active ss) q g (run_syncs ss q g))
      → Agrees (s ∷ active ss) p h (
          let c = call s p h in
          conclude s.meta.name p c.0 c.0.err c.0.stop c.1 (run_syncs ss c.0.next c.1))
  unfolding call
  enabled-Agrees s ss p h ih =
      let r = s.handler p h.world in
      let g = (call s p h).1 in
      conclude-Agrees s p h r.0.err r.0.stop (chain (active ss) r.0.next r.1)
        (run_syncs ss r.0.next g) (ih r.0.next g)

  -- The loop of Emit over the synchronous hooks is the plain chain of those that are enabled: the same
  -- result and state of the handlers, each hook's invocations counted as often as it is called, and
  -- neither the executor nor the asynchronous hooks nor the count of dropped ones changed.
  pub run_syncs_lem :
      (ss : List (Sync W P E)) (p : P) (h : Hub W P E) → Agrees (active ss) p h (run_syncs ss p h)
  unfolding run_syncs
  run_syncs_lem [] p h = (
    refl,
    record {
      world = refl;
      counts = λ k. omega arith;
      exec = refl;
      asyncs = refl;
      dropped_async = refl;
      cancelled = refl;
    },
  )
  run_syncs_lem (s ∷ ss) p h =
      let c = call s p h in
      elim s.enabled
        as (λ b. Agrees (if b then s ∷ active ss else active ss) p h (
          if not b
          then run_syncs ss p h
          else conclude s.meta.name p c.0 c.0.err c.0.stop c.1 (run_syncs ss c.0.next c.1))) [
            | true ↦ enabled-Agrees s ss p h (λ q g. run_syncs_lem ss q g)
            | false ↦ run_syncs_lem ss p h
          ]
