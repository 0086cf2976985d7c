-- ===== src/Queue.antt =====
-- internal/util/queue.go: the queue over a Go channel. ClearAndDrain swaps the channel and closes
-- the old one, which callers may still hold, so channels stand in a store and are named by numbers.
-- Each function below is one atomic part of a method: what runs under the lock, or one channel
-- operation. Push and Pop take what other goroutines do between their parts as arguments.
pub mod Actions
pub mod Pushes
pub mod Content
pub mod Tests
use xiaozhi_esp32_server_gol.Common.{
  ℕ, suc, ◌+◌, Bool, true, false, not, ◌&&◌, Option, none, some, List, [], ◌∷◌, ◌++◌, length, ltb,
  ◌==◌, if◌then◌else◌,
}

-- A Go channel: what is buffered, oldest first, and whether it is closed.
pub record Chan {ℓ} (A : Type ℓ) : Type ℓ where
  pub items : List A
  pub shut : Bool

pub record Queue {ℓ} (A : Type ℓ) : Type ℓ where
  pub cap : ℕ
  pub cur : ℕ
  pub gen : ℕ
  pub closed : Bool
  pub chans : ℕ → Chan A

pub data Error : Type 0 where
  queue_closed queue_timeout queue_empty ctx_done push_timeout : Error

-- What `safeQueueSendWithTimeout` reports: sent, timed out, or a recovered panic.
pub data Sent : Type 0 where
  sent timed_out closed_chan : Sent

-- How a round of Push ends: it returns, or goes round the loop again.
pub data Pushed : Type 0 where
  ok : Pushed
  failed : Error → Pushed
  retry : Pushed

pub data Popped {ℓ} (A : Type ℓ) : Type ℓ where
  item : A → Popped A
  error : Error → Popped A
  blocked : Popped A

-- The case that a `select` of Pop takes, where more than one may be ready.
pub data Choice : Type 0 where
  receive timer ctx : Choice

-- The sign of the timeout of Pop.
pub data Mode : Type 0 where
  non_blocking blocking bounded : Mode

module _ {ℓ} {A : Type ℓ} where
  abbrev pub empty_chan : Chan A
  empty_chan = record { items = []; shut = false }

  abbrev pub set_chan : (ℕ → Chan A) → ℕ → Chan A → ℕ → Chan A
  set_chan cs c x i = if c == i then x else cs i

  unfoldable pub new_queue : ℕ → Queue A
  new_queue capacity = record {
    cap = capacity;
    cur = 0;
    gen = 0;
    closed = false;
    chans = λ _. empty_chan;
  }

  -- `safeQueueSendWithTimeout` on channel `c`, where `late` says that the timer's case is taken. A
  -- send waits for room, so with the buffer full it is the timer that ends it.
  unfoldable pub send : Bool → ℕ → A → Queue A → Sent × Queue A
  send true c v q = (timed_out, q)
  send false c v q =
      let ch = q.chans c in
      if ch.shut
      then (closed_chan, q)
      else if ltb (length ch.items) q.cap
      then (
        sent,
        record q { chans = set_chan q.chans c (record ch { items = ch.items ++ v ∷ [] }) },
      )
      else (timed_out, q)

  -- What Push does with the result; `gen` is the generation that it started from.
  unfoldable pub settle : Sent → ℕ → Queue A → Pushed
  settle sent gen q = ok
  settle timed_out gen q = failed push_timeout
  settle closed_chan gen q =
      if q.closed
      then failed queue_closed
      else if not (q.gen == gen)
      then retry
      else failed queue_closed

  -- One round of Push: others act (`env`) between the lock and the send, and (`env'`) between the
  -- send and the second lock.
  unfoldable pub push_round :
      Bool → (Queue A → Queue A) → (Queue A → Queue A) → A → Queue A → Pushed × Queue A
  push_round late env env' v q =
      if q.closed
      then (failed queue_closed, q)
      else let s = send late q.cur v (env q) in let q' = env' s.1 in (settle s.0 q.gen q', q')

  -- A receive from channel `c` that is ready: `none` as the value says that it is closed.
  unfoldable pub recv : ℕ → Queue A → Option (Option A × Queue A)
  recv c q = elim (q.chans c).items [
    | x ∷ xs ↦
        some (some x, record q { chans = set_chan q.chans c (record (q.chans c) { items = xs }) })
    | [] ↦ if (q.chans c).shut then some (none, q) else none
  ]

  abbrev pub received : Queue A → Option (Option A × Queue A) → Popped A → Popped A × Queue A
  received q none waits = (waits, q)
  received q (some (none, q')) waits = (error queue_closed, q')
  received q (some (some x, q')) waits = (item x, q')

  -- The `select` of Pop on channel `c`. A timed Pop reports its context's own error.
  unfoldable pub select : Mode → Choice → ℕ → Queue A → Popped A × Queue A
  select non_blocking ch c q = received q (recv c q) (error queue_empty)
  select blocking ctx c q = (error ctx_done, q)
  select blocking ch c q = received q (recv c q) blocked
  select bounded ctx c q = (error ctx_done, q)
  select bounded timer c q = (error queue_timeout, q)
  select bounded receive c q = received q (recv c q) blocked

  unfoldable pub pop : Mode → Choice → (Queue A → Queue A) → Queue A → Popped A × Queue A
  pop m ch env q = if q.closed then (error queue_closed, q) else select m ch q.cur (env q)

  -- The part of ClearAndDrain under the lock: the old channel, unless the queue is closed.
  unfoldable pub swap : Queue A → Option ℕ × Queue A
  swap q = if q.closed then (none, q) else (
    some q.cur,
    record q {
      cur = suc q.cur;
      gen = suc q.gen;
      chans =
          set_chan (set_chan q.chans q.cur (record (q.chans q.cur) { shut = true })) (suc q.cur)
            empty_chan;
    },
  )

  -- `for item := range oldCh`: what it collects when nobody else receives from `c`.
  unfoldable pub drain : ℕ → Queue A → List A × Queue A
  drain c q = (
    (q.chans c).items,
    record q { chans = set_chan q.chans c (record (q.chans c) { items = [] }) },
  )

  unfoldable pub clear_and_drain : Queue A → List A × Queue A
  clear_and_drain q = let (old, q') = swap q in elim old [ none ↦ ([], q') | some c ↦ drain c q' ]

  unfoldable pub close : Queue A → Queue A
  close q = if q.closed then q else record q {
    closed = true;
    gen = suc q.gen;
    chans = set_chan q.chans q.cur (record (q.chans q.cur) { shut = true });
  }
