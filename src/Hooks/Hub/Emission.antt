-- ===== src/Hooks/Hub/Emission.antt =====
-- internal/pkg/hooks/hub.go: Emit as a whole, with an executor that drops tasks when it is full.
use xiaozhi_esp32_server_gol.Common.{
  ℕ, suc, ◌+◌, ◌≡◌, ◌≢◌, refl, ap, sym, subst, ◌∙◌, String, Bool, true, false, some, List, [], ◌∷◌,
  ◌++◌, map, length, append_assoc, append-nil, if◌then◌else◌, arith, Bool-cases, inl, inr,
}
use mathlib.Core.List.{Sublist}
use mathlib.Core.List.Sublist
use xiaozhi_esp32_server_gol.Hooks.Executor.{
  Exec, Entry, accepts, refuses, waits, enter_submit, enqueue,
}
use xiaozhi_esp32_server_gol.Hooks.Executor.Progress.{entry_cases}
use xiaozhi_esp32_server_gol.Hooks.Hub.{
  Named, Async, Hub, Emitted, hooks_of, offer, emit_async, with_async, run_syncs, finish_emit, emit,
}
use xiaozhi_esp32_server_gol.Hooks.Hub.Chain.{active, chain, Ran, run_syncs_lem}

active_off :
    {H : Type 0} (a : Named H) (xs : List (Named H))
    → a.enabled ≡ false
    → active (a ∷ xs) ≡ active xs
active_off a xs e = ground (arith, e)

active_on :
    {H : Type 0} (a : Named H) (xs : List (Named H))
    → a.enabled ≡ true
    → active (a ∷ xs) ≡ a ∷ active xs
active_on a xs e = ground (arith, e)

module _ {W P E : Type 0} where
  -- `g` is the hub `h` behind the offer of the hooks `xs` for the payload `p`: some of them were queued,
  -- in order, and the others counted as dropped.
  pub record Offered (xs : List (Async W P)) (p : P) (h g : Hub W P E) : Type 0 where
    pub queued : List (Async W P × P)
    pub accepted : g.exec.accepted ≡ h.exec.accepted ++ queued
    pub in_order : Sublist queued (map (λ (a : Async W P). (a, p)) xs)
    pub all : length queued + g.dropped_async ≡ length xs + h.dropped_async
    pub world : g.world ≡ h.world
    pub same_drop : g.exec.drop_when_full ≡ h.exec.drop_when_full
    pub same_cancel : g.cancelled ≡ h.cancelled

  none-Offered : (p : P) (h : Hub W P E) → Offered [] p h h
  none-Offered p h = record {
    queued = [];
    accepted = sym (append-nil h.exec.accepted);
    in_order = Sublist.refl [];
    all = refl;
    world = refl;
    same_drop = refl;
    same_cancel = refl;
  }

  accept-Offered :
      (k : ℕ) (a : Async W P) (xs : List (Async W P)) (p : P) (h g : Hub W P E)
      → Offered xs p (offer k a p accepts h) g
      → Offered (a ∷ xs) p h g
  unfolding offer enqueue
  accept-Offered k a xs p h g v = record {
    queued = (a, p) ∷ v.queued;
    accepted = v.accepted ∙ append_assoc h.exec.accepted ((a, p) ∷ []) v.queued;
    in_order = Sublist.cons-cons (a, p) v.in_order;
    all = omega (arith, v.all);
    world = v.world;
    same_drop = v.same_drop;
    same_cancel = v.same_cancel;
  }

  refuse-Offered :
      (k : ℕ) (a : Async W P) (xs : List (Async W P)) (p : P) (h g : Hub W P E)
      → Offered xs p (offer k a p refuses h) g
      → Offered (a ∷ xs) p h g
  unfolding offer
  refuse-Offered k a xs p h g v = record {
    queued = v.queued;
    accepted = v.accepted;
    in_order = Sublist.cons (a, p) v.in_order;
    all = omega (arith, v.all);
    world = v.world;
    same_drop = v.same_drop;
    same_cancel = v.same_cancel;
  }

  step_skip :
      (wake : ℕ → ℕ) (a : Async W P) (as' : List (Async W P)) (p : P) (h : Hub W P E)
      → a.enabled ≡ false
      → emit_async wake (a ∷ as') p h ≡ emit_async (λ n. wake (suc n)) as' p h
  unfolding emit_async
  step_skip wake a as' p h e = ground (arith, e)

  step_next :
      (wake : ℕ → ℕ) (a : Async W P) (as' : List (Async W P)) (p : P) (h : Hub W P E) (r : Entry)
      → a.enabled ≡ true
      → h.cancelled ≡ false
      → enter_submit false h.exec ≡ r
      → r ≢ waits
      → emit_async wake (a ∷ as') p h
        ≡ emit_async (λ n. wake (suc n)) as' p (offer (wake 0) a p r h)
  unfolding emit_async
  step_next wake a as' p h accepts e c q n = ground (arith, e, c, q)
  step_next wake a as' p h refuses e c q n = ground (arith, e, c, q)
  step_next wake a as' p h waits e c q n = absurd (n refl)

  kept_drop :
      (k : ℕ) (a : Async W P) (p : P) (r : Entry) (h : Hub W P E)
      → h.exec.drop_when_full ≡ true
      → (offer k a p r h).exec.drop_when_full ≡ true
  unfolding offer enqueue
  kept_drop k a p accepts h d = d
  kept_drop k a p refuses h d = d
  kept_drop k a p waits h d = d

  kept_cancel :
      (k : ℕ) (a : Async W P) (p : P) (r : Entry) (h : Hub W P E)
      → h.cancelled ≡ false
      → (offer k a p r h).cancelled ≡ false
  unfolding offer
  kept_cancel k a p accepts h c = c
  kept_cancel k a p refuses h c = c
  kept_cancel k a p waits h c = c

  emit_async_lem :
      (wake : ℕ → ℕ) (xs : List (Async W P)) (p : P) (h : Hub W P E)
      → h.exec.drop_when_full ≡ true
      → h.cancelled ≡ false
      → (g : Hub W P E) × (emit_async wake xs p h ≡ some g) × Offered (active xs) p h g
  unfolding emit_async
  emit_async_lem wake [] p h d c = (h, refl, none-Offered p h)
  emit_async_lem wake (a ∷ xs) p h d c = elim (Bool-cases a.enabled) [
    | inr off ↦
        let (g, e, v) = emit_async_lem (λ n. wake (suc n)) xs p h d c in
        (
          g,
          step_skip wake a xs p h off ∙ e,
          subst (λ ys. Offered ys p h g) (sym (active_off a xs off)) v,
        )
    | inl on ↦ elim (entry_cases false h.exec d) [
      | inr (q, _) ↦
          let (g, e, v) =
            emit_async_lem (λ n. wake (suc n)) xs p (offer (wake 0) a p accepts h)
              (kept_drop (wake 0) a p accepts h d) (kept_cancel (wake 0) a p accepts h c) in
          (
            g,
            step_next wake a xs p h accepts on c q (λ z. ground arith) ∙ e,
            subst (λ ys. Offered ys p h g) (sym (active_on a xs on))
                (accept-Offered (wake 0) a (active xs) p h g v),
          )
      | inl q ↦
          let (g, e, v) =
            emit_async_lem (λ n. wake (suc n)) xs p (offer (wake 0) a p refuses h)
              (kept_drop (wake 0) a p refuses h d) (kept_cancel (wake 0) a p refuses h c) in
          (
            g,
            step_next wake a xs p h refuses on c q (λ z. ground arith) ∙ e,
            subst (λ ys. Offered ys p h g) (sym (active_on a xs on))
                (refuse-Offered (wake 0) a (active xs) p h g v),
          )
    ]
  ]

  with_async-some :
      (wake : ℕ → ℕ) (event : String) (r : Emitted P E) (h g : Hub W P E)
      → emit_async wake (hooks_of event h.asyncs) r.out h ≡ some g
      → with_async wake event r h ≡ some (r, g)
  with_async-some wake event r h g e = ground (arith, e)

  finish_lem :
      (wake : ℕ → ℕ) (event : String) (r : (Bool × Emitted P E) × Hub W P E)
      → r.1.exec.drop_when_full ≡ true
      → r.1.cancelled ≡ false
      → (g : Hub W P E) × (finish_emit wake event r ≡ some ((r.0).1, g))
        × Offered (if (r.0).0 then active (hooks_of event r.1.asyncs) else []) ((r.0).1).out r.1 g
  unfolding finish_emit
  finish_lem wake event ((false, r), h) d c = (h, refl, none-Offered r.out h)
  finish_lem wake event ((true, r), h) d c =
      let (g, e, v) = emit_async_lem wake (hooks_of event h.asyncs) r.out h d c in
      (g, with_async-some wake event r h g e, v)

  -- On a hub that is not closed, with an executor that drops tasks when it is full, Emit returns, with the result of the plain chain
  -- of the enabled synchronous hooks. If that chain ends without an error, also where a hook stops
  -- it, each enabled asynchronous hook is queued with the last payload, in order, or counted as
  -- dropped; after an error none is.
  pub emit_lem :
      (wake : ℕ → ℕ) (event : String) (p : P) (h : Hub W P E)
      → h.exec.drop_when_full ≡ true
      → h.cancelled ≡ false
      → let c = chain (active (hooks_of event h.syncs)) p h.world in
        (g : Hub W P E) × (emit wake event p h ≡ some ((c.0).1, g))
        × ((k : Hub W P E) × Ran c h k
            × Offered (if (c.0).0 then active (hooks_of event h.asyncs) else []) ((c.0).1).out k g)
  unfolding emit
  emit_lem wake event p h d c =
      let r = run_syncs (hooks_of event h.syncs) p h in
      let (e, v) = run_syncs_lem (hooks_of event h.syncs) p h in
      let (g, f, o) =
        finish_lem wake event r (ap (λ (x : Exec (Async W P × P)). x.drop_when_full) v.exec ∙ d)
          (v.cancelled ∙ c) in
      (
        g,
        subst (λ x. finish_emit wake event r ≡ some (x.1, g)) e f,
        (
          r.1,
          v,
          subst
              (λ x. Offered (if x.0 then active (hooks_of event h.asyncs) else []) (x.1).out r.1 g)
              e
              (subst
                (λ m.
                  Offered (if (r.0).0 then active (hooks_of event m) else []) ((r.0).1).out r.1 g)
                v.asyncs o),
        ),
      )
