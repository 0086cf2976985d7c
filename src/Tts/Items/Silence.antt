-- ===== src/Tts/Items/Silence.antt =====
-- internal/app/server/chat/tts.go: the items while media plays exclusively.
use xiaozhi_esp32_server_gol.Common.{
  ℕ, suc, ◌+◌, ◌^◌, ◌≤◌, ◌<◌, ◌≡◌, refl, Bool, true, false, List, [], ◌∷◌, length, ltb, if_both,
  if_given, map, arith, All, All-append, subst, ◌∙◌,
}
use xiaozhi_esp32_server_gol.Tts.Items.{
  Item, Consumer, popping, waiting, passed, speaking, Items, Event, spoken, dismissed, Action,
  numbers, pushes, push_fails, pops, releases, cancels, decides, finishes, begins, ends, marks,
  drains, item_cap, number, push_item, should_drop, pop_item, release_item, cancel_item, decide,
  finish_speaking, is_popping, begin_exclusive, mark_dropped, drain_items, step, run, no_items,
}
use xiaozhi_esp32_server_gol.Tts.Items.Numbers.{
  ConsumerBelow, Numbered, step-Numbered, run-Numbered, new-Numbered,
}

module _ {P : Type 0} where
  abbrev pub is_spoken : Event P → Bool
  is_spoken (spoken i) = true
  is_spoken (dismissed i) = false

  abbrev pub Silent : List (Event P) → Type 0
  Silent es = All (λ e. is_spoken e ≡ false) es

  abbrev pub is_ends : Action P → Bool
  is_ends ends = true
  is_ends _ = false

  abbrev Dropped : ℕ → Consumer P → Type 0
  Dropped d (passed i) = (1 ≤ i.enqueue_seq) × (i.enqueue_seq ≤ d)
  Dropped d _ = Unit

  -- Media plays, and an item that came behind the wait is to be dropped.
  record Exclusive (s : Items P) : Type 0 where
    active : s.playback_active ≡ true
    dropped : Dropped s.dropped_seq s.consumer

  record Hushed (r : List (Event P) × Items P) : Type 0 where
    silent : Silent r.0
    exclusive : Exclusive r.1

  hush :
      (s t : Items P)
      → Exclusive s
      → t.playback_active ≡ s.playback_active
      → Dropped t.dropped_seq t.consumer
      → Hushed ([], t)
  hush s t x e d = record { silent = tt; exclusive = record { active = e ∙ x.active; dropped = d } }

  hushed : (s : Items P) → Exclusive s → Hushed ([], s)
  hushed s x = record { silent = tt; exclusive = x }

  pop_item-Hushed : (is : List (Item P)) (s : Items P) → Exclusive s → Hushed (pop_item is s)
  unfolding pop_item
  pop_item-Hushed [] s x = hushed s x
  pop_item-Hushed (i ∷ is) s x =
      if_both Hushed (should_drop i s) _ _
        record {
          silent = (refl, tt);
          exclusive = record { active = x.active; dropped = x.dropped };
        }
        record { silent = tt; exclusive = record { active = x.active; dropped = tt } }

  drops :
      (i : Item P) (s : Items P) → Dropped s.dropped_seq (passed i) → should_drop i s ≡ false → ⊥
  unfolding should_drop
  drops i s (p, q) e = ground (arith, p, q, e)

  consumer-Hushed :
      (c : Consumer P) (s : Items P)
      → s.consumer ≡ c
      → Exclusive s
      → Hushed (release_item c s)
        × Hushed (cancel_item c s)
        × Hushed (decide c s)
        × Hushed ([], finish_speaking c s)
  unfolding release_item cancel_item decide finish_speaking
  consumer-Hushed popping s h x = (hushed s x, hushed s x, hushed s x, hushed s x)
  consumer-Hushed (waiting i) s h x = (
    if_given Hushed s.playback_active _ _ (λ _. hushed s x) (λ e. cc (x.active, e)),
    record { silent = (refl, tt); exclusive = record { active = x.active; dropped = tt } },
    hushed s x,
    hushed s x,
  )
  consumer-Hushed (passed i) s h x = (
    hushed s x,
    hushed s x,
    if_given Hushed (should_drop i s) _ _
        (λ _. record {
          silent = (refl, tt);
          exclusive = record { active = x.active; dropped = tt };
        })
        (λ e. absurd (drops i s (subst (Dropped s.dropped_seq) h x.dropped) e)),
    hushed s x,
  )
  consumer-Hushed (speaking i) s h x = (
    hushed s x,
    hushed s x,
    hushed s x,
    record { silent = tt; exclusive = record { active = x.active; dropped = tt } },
  )

  dropped_below : {d e : ℕ} (c : Consumer P) → d ≤ e → Dropped d c → Dropped e c
  dropped_below popping l b = tt
  dropped_below (waiting i) l b = tt
  dropped_below (passed i) l (p, q) = (p, omega (arith, q, l))
  dropped_below (speaking i) l b = tt

  map-Silent : (is : List (Item P)) → Silent (map dismissed is)
  map-Silent [] = tt
  map-Silent (i ∷ is) = (refl, map-Silent is)

  step-Hushed :
      (m : ℕ) (a : Action P) (s : Items P)
      → is_ends a ≡ false
      → Numbered m s
      → Exclusive s
      → Hushed (step a s)
  unfolding step number push_item begin_exclusive mark_dropped drain_items
  step-Hushed m (numbers p) s n v x = hush s _ x refl x.dropped
  step-Hushed m (pushes k) s n v x =
      if_both (λ t. Hushed ([], t)) (ltb (length s.queue) item_cap) _ _ (hush s _ x refl x.dropped)
        (hushed s x)
  step-Hushed m (push_fails k) s n v x = hush s _ x refl x.dropped
  step-Hushed m pops s n v x =
      if_both Hushed (is_popping s.consumer) _ _ (pop_item-Hushed s.queue s x) (hushed s x)
  step-Hushed m releases s n v x = (consumer-Hushed s.consumer s refl x).0
  step-Hushed m cancels s n v x = (consumer-Hushed s.consumer s refl x).1
  step-Hushed m decides s n v x = (consumer-Hushed s.consumer s refl x).2
  step-Hushed m finishes s n v x = (consumer-Hushed s.consumer s refl x).3
  step-Hushed m begins s n v x =
      if_both (λ (r : Bool × Items P). Hushed ([], r.1)) s.playback_active _ _ (hushed s x)
        record { silent = tt; exclusive = record { active = refl; dropped = x.dropped } }
  step-Hushed m ends s n v x = cc
  step-Hushed m marks s n v x = hush s _ x refl (dropped_below s.consumer v.old x.dropped)
  step-Hushed m drains s n v x = record {
    silent = map-Silent s.queue;
    exclusive = record { active = x.active; dropped = x.dropped };
  }

  run-Hushed :
      (m : ℕ) (xs : List (Action P)) (s : Items P)
      → m + length xs < 2 ^ 64
      → All (λ a. is_ends a ≡ false) xs
      → Numbered m s
      → Exclusive s
      → Silent (run xs s).0
  unfolding run
  run-Hushed m [] s l n v x = tt
  run-Hushed m (a ∷ xs) s l n v x =
      let h = step-Hushed m a s n.0 v x in
      All-append (λ e. is_spoken e ≡ false) (step a s).0 _ h.silent
        (run-Hushed (suc m) xs (step a s).1 (omega (arith, l)) n.1
          (step-Numbered m a s (omega (arith, l)) v) h.exclusive)

  marked :
      (s : Items P) (m : ℕ) → s.playback_active ≡ true → Numbered m s → Exclusive (mark_dropped s)
  unfolding mark_dropped
  marked s m a v = record { active = a; dropped = from_below s.consumer v.consumed }
    where
      from_below : (c : Consumer P) → ConsumerBelow s.queue_seq c → Dropped s.queue_seq c
      from_below popping b = tt
      from_below (waiting i) b = tt
      from_below (passed i) b = b
      from_below (speaking i) b = tt

  -- Behind any history in which exclusive playback has begun and not ended, from the time at which
  -- ClearTTSQueue notes the numbers to the end of the playback the synthesis of no item begins,
  -- whatever is pushed, popped and cleared in between; the history has fewer than 2^64 steps.
  pub exclusive-Silent :
      (xs ys : List (Action P))
      → length xs + suc (length ys) < 2 ^ 64
      → (run xs (no_items {P = P})).1.playback_active ≡ true
      → All (λ a. is_ends a ≡ false) ys
      → Silent (run (marks ∷ ys) (run xs (no_items {P = P})).1).0
  unfolding run step
  exclusive-Silent xs ys l a n =
      let s = (run xs (no_items {P = P})).1 in
      let v = run-Numbered 0 xs no_items (omega (arith, l)) new-Numbered in
      run-Hushed (suc (0 + length xs)) ys (mark_dropped s) (omega (arith, l)) n
        (step-Numbered (0 + length xs) marks s (omega (arith, l)) v) (marked s (0 + length xs) a v)
