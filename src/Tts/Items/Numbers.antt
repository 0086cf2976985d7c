-- ===== src/Tts/Items/Numbers.antt =====
-- internal/app/server/chat/tts.go: the numbers of items.
use xiaozhi_esp32_server_gol.Common.{
  ℕ, zero, suc, ◌+◌, ◌%◌, ◌^◌, ◌≤◌, ◌<◌, ◌≡◌, Bool, List, [], ◌∷◌, length, ltb, if_both, arith, All,
  All-append, subst,
}
use xiaozhi_esp32_server_gol.Tts.Items.{
  Item, Consumer, popping, waiting, passed, speaking, Items, Event, Action, numbers, pushes,
  push_fails, pops, releases, cancels, decides, finishes, begins, ends, marks, drains, item_cap,
  without, at_index, number, push_item, should_drop, pop_item, release_item, cancel_item, decide,
  finish_speaking, is_popping, begin_exclusive, end_exclusive, mark_dropped, drain_items, step, run,
  no_items,
}

module _ {P : Type 0} where
  -- The number of an item is not 0 and not above `n`.
  abbrev pub Below : ℕ → Item P → Type 0
  Below n i = (1 ≤ i.enqueue_seq) × (i.enqueue_seq ≤ n)

  abbrev pub ConsumerBelow : ℕ → Consumer P → Type 0
  ConsumerBelow n popping = Unit
  ConsumerBelow n (waiting i) = Below n i
  ConsumerBelow n (passed i) = Below n i
  ConsumerBelow n (speaking i) = Unit

  -- After `m` steps: numbers are given out in order.
  pub record Numbered (m : ℕ) (s : Items P) : Type 0 where
    pub queued : All (Below s.queue_seq) s.queue
    pub unpushed : All (Below s.queue_seq) s.pushing
    pub consumed : ConsumerBelow s.queue_seq s.consumer
    pub given : s.queue_seq ≤ m
    pub old : s.dropped_seq ≤ s.queue_seq

  All-without : (n k : ℕ) (xs : List (Item P)) → All (Below n) xs → All (Below n) (without k xs)
  All-without n k [] a = tt
  All-without n zero (x ∷ xs) a = a.1
  All-without n (suc k) (x ∷ xs) a = (a.0, All-without n k xs a.1)

  All-at_index : (n k : ℕ) (xs : List (Item P)) → All (Below n) xs → All (Below n) (at_index k xs)
  All-at_index n k [] a = tt
  All-at_index n zero (x ∷ xs) a = (a.0, tt)
  All-at_index n (suc k) (x ∷ xs) a = All-at_index n k xs a.1

  All-Below : {m n : ℕ} (xs : List (Item P)) → m ≤ n → All (Below m) xs → All (Below n) xs
  All-Below [] l a = tt
  All-Below (x ∷ xs) l ((p, q), a) = ((p, omega (arith, q, l)), All-Below xs l a)

  consumer_below : {m n : ℕ} (c : Consumer P) → m ≤ n → ConsumerBelow m c → ConsumerBelow n c
  consumer_below popping l b = tt
  consumer_below (waiting i) l (p, q) = (p, omega (arith, q, l))
  consumer_below (passed i) l (p, q) = (p, omega (arith, q, l))
  consumer_below (speaking i) l b = tt

  number-Numbered :
      (m : ℕ) (p : P) (s : Items P) → suc m < 2 ^ 64 → Numbered m s → Numbered (suc m) (number p s)
  unfolding number
  number-Numbered m p s l v =
      let n = suc s.queue_seq % 2 ^ 64 in
      let e : n ≡ suc s.queue_seq = omega (arith, v.given, l) in
      let up : s.queue_seq ≤ n = omega (arith, e) in
      record {
        queued = All-Below s.queue up v.queued;
        unpushed =
            All-append (Below n) s.pushing _ (All-Below s.pushing up v.unpushed)
              ((omega (arith, e), omega arith), tt);
        consumed = consumer_below s.consumer up v.consumed;
        given = omega (arith, e, v.given);
        old = omega (arith, e, v.old);
      }

  -- The same state, a step later.
  later : (m : ℕ) (s : Items P) → Numbered m s → Numbered (suc m) s
  later m s v = record {
    queued = v.queued;
    unpushed = v.unpushed;
    consumed = v.consumed;
    given = omega (arith, v.given);
    old = v.old;
  }

  push_item-Numbered : (m k : ℕ) (s : Items P) → Numbered m s → Numbered m (push_item k s)
  unfolding push_item
  push_item-Numbered m k s v =
      if_both (Numbered m) (ltb (length s.queue) item_cap) _ _
        record {
          queued =
              All-append (Below s.queue_seq) s.queue _ v.queued
                (All-at_index s.queue_seq k s.pushing v.unpushed);
          unpushed = All-without s.queue_seq k s.pushing v.unpushed;
          consumed = v.consumed;
          given = v.given;
          old = v.old;
        }
        v

  -- A step that leaves the counters and what is to be pushed.
  consuming :
      (m : ℕ) (s : Items P) (q : List (Item P)) (c : Consumer P)
      → Numbered m s
      → All (Below s.queue_seq) q
      → ConsumerBelow s.queue_seq c
      → Numbered m (record s { queue = q; consumer = c })
  consuming m s q c v a b = record {
    queued = a;
    unpushed = v.unpushed;
    consumed = b;
    given = v.given;
    old = v.old;
  }

  pop_item-Numbered :
      (m : ℕ) (is : List (Item P)) (s : Items P)
      → All (Below s.queue_seq) is
      → Numbered m s
      → Numbered m (pop_item is s).1
  unfolding pop_item
  pop_item-Numbered m [] s a v = v
  pop_item-Numbered m (i ∷ is) s (b, a) v =
      if_both (λ (r : List (Event P) × Items P). Numbered m r.1) (should_drop i s) _ _
        (consuming m s is s.consumer v a v.consumed) (consuming m s is (waiting i) v a b)

  consumer-Numbered :
      (m : ℕ) (c : Consumer P) (s : Items P)
      → ConsumerBelow s.queue_seq c
      → Numbered m s
      → Numbered m (release_item c s).1
        × Numbered m (cancel_item c s).1
        × Numbered m (decide c s).1
        × Numbered m (finish_speaking c s)
  unfolding release_item cancel_item decide finish_speaking
  consumer-Numbered m popping s b v = (v, v, v, v)
  consumer-Numbered m (waiting i) s b v = (
    if_both (λ (r : List (Event P) × Items P). Numbered m r.1) s.playback_active _ _ v
        (consuming m s s.queue (passed i) v v.queued b),
    consuming m s s.queue popping v v.queued tt,
    v,
    v,
  )
  consumer-Numbered m (passed i) s b v = (
    v,
    v,
    if_both (λ (r : List (Event P) × Items P). Numbered m r.1) (should_drop i s) _ _
        (consuming m s s.queue popping v v.queued tt)
        (consuming m s s.queue (speaking i) v v.queued tt),
    v,
  )
  consumer-Numbered m (speaking i) s b v = (v, v, v, consuming m s s.queue popping v v.queued tt)

  pub step-Numbered :
      (m : ℕ) (a : Action P) (s : Items P)
      → suc m < 2 ^ 64
      → Numbered m s
      → Numbered (suc m) (step a s).1
  unfolding step begin_exclusive end_exclusive mark_dropped drain_items
  step-Numbered m (numbers p) s l v = number-Numbered m p s l v
  step-Numbered m (pushes k) s l v = later m _ (push_item-Numbered m k s v)
  step-Numbered m (push_fails k) s l v = later m _ record {
    queued = v.queued;
    unpushed = All-without s.queue_seq k s.pushing v.unpushed;
    consumed = v.consumed;
    given = v.given;
    old = v.old;
  }
  step-Numbered m pops s l v = later m _ (
      if_both (λ (r : List (Event P) × Items P). Numbered m r.1) (is_popping s.consumer) _ _
        (pop_item-Numbered m s.queue s v.queued v) v)
  step-Numbered m releases s l v = later m _ (consumer-Numbered m s.consumer s v.consumed v).0
  step-Numbered m cancels s l v = later m _ (consumer-Numbered m s.consumer s v.consumed v).1
  step-Numbered m decides s l v = later m _ (consumer-Numbered m s.consumer s v.consumed v).2
  step-Numbered m finishes s l v = later m _ (consumer-Numbered m s.consumer s v.consumed v).3
  step-Numbered m begins s l v = later m _ (
      if_both (λ (r : Bool × Items P). Numbered m r.1) s.playback_active _ _ v
        record {
          queued = v.queued;
          unpushed = v.unpushed;
          consumed = v.consumed;
          given = v.given;
          old = v.old;
        })
  step-Numbered m ends s l v = later m _ record {
    queued = v.queued;
    unpushed = v.unpushed;
    consumed = v.consumed;
    given = v.given;
    old = v.old;
  }
  step-Numbered m marks s l v = later m _ record {
    queued = v.queued;
    unpushed = v.unpushed;
    consumed = v.consumed;
    given = v.given;
    old = omega arith;
  }
  step-Numbered m drains s l v = later m _ (consuming m s [] s.consumer v tt v.consumed)

  pub run-Numbered :
      (m : ℕ) (xs : List (Action P)) (s : Items P)
      → m + length xs < 2 ^ 64
      → Numbered m s
      → Numbered (m + length xs) (run xs s).1
  unfolding run
  run-Numbered m [] s l v = record {
    queued = v.queued;
    unpushed = v.unpushed;
    consumed = v.consumed;
    given = omega (arith, v.given);
    old = v.old;
  }
  run-Numbered m (a ∷ xs) s l v =
      let r =
        run-Numbered (suc m) xs (step a s).1 (omega (arith, l))
          (step-Numbered m a s (omega (arith, l)) v) in
      subst (λ n. Numbered n (run xs (step a s).1).1) (omega arith) r

  pub new-Numbered : Numbered 0 (no_items {P = P})
  new-Numbered = record {
    queued = tt;
    unpushed = tt;
    consumed = tt;
    given = omega arith;
    old = omega arith;
  }
