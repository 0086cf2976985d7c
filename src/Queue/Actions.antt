-- ===== src/Queue/Actions.antt =====
-- internal/util/queue.go: goroutines that share a queue. A schedule is a list of atomic actions; a
-- caller may still use any channel that it saw earlier.
use xiaozhi_esp32_server_gol.Common.{
  ℕ, ◌≤◌, ◌<◌, ◌≡◌, refl, Bool, true, false, Option, none, some, List, [], ◌∷◌, ◌++◌, arith, leb,
  if◌then◌else◌, ◌==◌, append_assoc, Bool-cases, List-cases, if_both, inl, inr,
}
use xiaozhi_esp32_server_gol.Queue.{Queue, Sent, sent, new_queue, send, recv, swap, close}

pub data Action {ℓ} (A : Type ℓ) : Type ℓ where
  sends : Bool → ℕ → A → Action A
  receives : ℕ → Action A
  swaps : Action A
  closes : Action A

-- The queue with what every channel has accepted and given out so far.
pub record System {ℓ} (A : Type ℓ) : Type ℓ where
  pub queue : Queue A
  pub accepted : ℕ → List A
  pub taken : ℕ → List A

module _ {ℓ} {A : Type ℓ} where
  abbrev pub log : (ℕ → List A) → ℕ → A → ℕ → List A
  log f c v i = if c == i then f i ++ v ∷ [] else f i

  abbrev after_send : System A → ℕ → A → Sent × Queue A → System A
  after_send s c v (sent, q) = record s { queue = q; accepted = log s.accepted c v }
  after_send s c v (r, q) = record s { queue = q }

  abbrev after_recv : System A → ℕ → Option (Option A × Queue A) → System A
  after_recv s c (some (some x, q)) = record s { queue = q; taken = log s.taken c x }
  after_recv s c (some (none, q)) = record s { queue = q }
  after_recv s c none = s

  -- A Push sends only on a channel that it has seen: none that is still to come.
  unfoldable pub act : Action A → System A → System A
  act (sends late c v) s = if leb c s.queue.cur then after_send s c v (send late c v s.queue) else s
  act (receives c) s = after_recv s c (recv c s.queue)
  act swaps s = record s { queue = (swap s.queue).1 }
  act closes s = record s { queue = close s.queue }

  unfoldable pub run : List (Action A) → System A → System A
  run [] s = s
  run (a ∷ rest) s = run rest (act a s)

  unfoldable pub start : ℕ → System A
  start capacity = record { queue = new_queue capacity; accepted = λ _. []; taken = λ _. [] }

  -- The channels behind the current one are closed, and the current one is if the queue is.
  pub record IsSwapped (q : Queue A) : Type ℓ where
    pub past : (c : ℕ) → c < q.cur → (q.chans c).shut ≡ true
    pub now : (q.chans q.cur).shut ≡ q.closed

  -- What may have happened to a queue: a new generation comes with every change of the channel and
  -- with the closing.
  pub record Later (q q' : Queue A) : Type 0 where
    pub gen_grows : q.gen ≤ q'.gen
    pub cur_grows : q.cur ≤ q'.cur
    pub same_gen : q'.gen ≡ q.gen → (q'.cur ≡ q.cur) × (q'.closed ≡ q.closed)

  pub Later-trans : {p q r : Queue A} → Later p q → Later q r → Later p r
  Later-trans a b = record {
    gen_grows = omega (arith, a.gen_grows, b.gen_grows);
    cur_grows = omega (arith, a.cur_grows, b.cur_grows);
    same_gen = λ e. ground (arith, a.gen_grows, b.gen_grows, a.same_gen, b.same_gen);
  }

  -- Each channel has given out what it accepted, in order, but for what it still buffers, and the
  -- channels to come are fresh.
  pub record IsFifo (s : System A) : Type ℓ where
    pub future : (c : ℕ) → s.queue.cur < c → (s.accepted c ≡ []) × (s.taken c ≡ [])
    pub order : (c : ℕ) → s.accepted c ≡ s.taken c ++ (s.queue.chans c).items

  pub act-IsSwapped : (a : Action A) (s : System A) → IsSwapped s.queue → IsSwapped (act a s).queue
  unfolding act send recv swap close
  act-IsSwapped (sends true c v) s i =
      if_both (λ (t : System A). IsSwapped t.queue) (leb c s.queue.cur) _ _ i i
  act-IsSwapped (sends false c v) s i = record {
    past = λ d h. ground (arith, i.past d);
    now = ground (arith, i.now);
  }
  act-IsSwapped (receives c) s i = record {
    past = λ d h. ground (arith, i.past d);
    now = ground (arith, i.now);
  }
  act-IsSwapped swaps s i = record {
    past = λ d h. ground (arith, i.past d);
    now = ground (arith, i.now);
  }
  act-IsSwapped closes s i = record {
    past = λ d h. ground (arith, i.past d);
    now = ground (arith, i.now);
  }

  pub act-Later : (a : Action A) (s : System A) → Later s.queue (act a s).queue
  unfolding act send recv swap close
  act-Later (sends late c v) s = elim (Bool-cases late) [
    | inl e ↦ rw e (ground arith)
    | inr e ↦ rw e (ground arith)
  ]
  act-Later (receives c) s = ground arith
  act-Later swaps s = ground arith
  act-Later closes s = ground arith

  act-IsFifo : (a : Action A) (s : System A) → IsFifo s → IsFifo (act a s)
  unfolding act send recv swap close
  act-IsFifo (sends true c v) s i = if_both IsFifo (leb c s.queue.cur) _ _ i i
  act-IsFifo (sends false c v) s i = record {
    future = λ d h. ground (arith, i.future d);
    order =
        λ d. ground (arith, i.order d, append_assoc (s.taken d) (s.queue.chans d).items (v ∷ []));
  }
  act-IsFifo (receives c) s i = record {
    future = λ d h. ground (arith, i.future d, i.order d);
    order = λ d. elim (List-cases (s.queue.chans c).items) [
      | inl e ↦ ground (arith, i.order d)
      | inr (x, xs, e) ↦ ground (arith, i.order d, append_assoc (s.taken d) (x ∷ []) xs)
    ];
  }
  act-IsFifo swaps s i = record {
    future = λ d h. ground (arith, i.future d);
    order = λ d. ground (arith, i.order d, i.future d);
  }
  act-IsFifo closes s i = record {
    future = λ d h. ground (arith, i.future d);
    order = λ d. ground (arith, i.order d);
  }

  pub run-IsSwapped :
      (l : List (Action A)) (s : System A) → IsSwapped s.queue → IsSwapped (run l s).queue
  unfolding run
  run-IsSwapped [] s i = i
  run-IsSwapped (a ∷ l) s i = run-IsSwapped l (act a s) (act-IsSwapped a s i)

  pub run-Later : (l : List (Action A)) (s : System A) → Later s.queue (run l s).queue
  unfolding run
  run-Later [] s = ground arith
  run-Later (a ∷ l) s = Later-trans (act-Later a s) (run-Later l (act a s))

  run-IsFifo : (l : List (Action A)) (s : System A) → IsFifo s → IsFifo (run l s)
  unfolding run
  run-IsFifo [] s i = i
  run-IsFifo (a ∷ l) s i = run-IsFifo l (act a s) (act-IsFifo a s i)

  -- Whatever the goroutines do with a new queue, every channel gives out what it accepted, in order
  -- and once: what it accepted is what was taken from it followed by what it still buffers. All
  -- channels but the current one are closed.
  pub run-start :
      (capacity : ℕ) (l : List (Action A))
      → let s = run l (start capacity) in
        ((c : ℕ) → s.accepted c ≡ s.taken c ++ (s.queue.chans c).items)
        × ((c : ℕ) → c < s.queue.cur → (s.queue.chans c).shut ≡ true)
  unfolding start new_queue
  run-start capacity l =
      let fifo =
        run-IsFifo l (start capacity)
          (record { future = λ c h. (refl, refl); order = λ c. refl }) in
      let swapped =
        run-IsSwapped l (start capacity)
          (record { past = λ c h. absurd (omega arith); now = refl }) in
      (fifo.order, swapped.past)
