-- ===== src/Hooks/Executor.antt =====
-- internal/pkg/hooks/hub.go: AsyncExecutor, a queue of tasks between callers of Submit and workers. A
-- thread runs from one wait on the condition to the next under the lock, so that a history is a list
-- of turns. A worker runs the task that it popped when it has left the lock, so that the tasks of
-- several workers may begin in another order than they were popped; the run of a task is not part of
-- the model. Signal wakes any one waiter, which the scheduler chooses. Close, which does not take the
-- lock, acts between two turns; that it acts within one is not modelled.
pub mod Order
pub mod Threads
pub mod Progress
pub mod Stuck
use xiaozhi_esp32_server_gol.Common.{
  ℕ, zero, suc, ◌+◌, ◌-◌, Bool, true, false, Option, none, some, List, [], ◌∷◌, ◌++◌, map, length,
  ltb, leb, ◌==◌, if◌then◌else◌, get_elem?,
}
use xiaozhi_esp32_server_gol.Common.Int.{ℤ, pos, negsuc}

-- A worker is `ready` to look at the queue, `asleep` in its wait, or `done`. A caller of Submit is
-- about to enter, `blocked` in its wait, woken from it, or back with a result.
pub data Thread (T : Type 0) : Type 0 where
  ready asleep done : Thread T
  calling blocked resumed : T → Thread T
  returned : T → Bool → Thread T

-- `accepted` and `popped` are the tasks that were queued and taken by workers so far, in order.
pub record Exec (T : Type 0) : Type 0 where
  pub queue : List T
  pub size : ℕ
  pub drop_when_full : Bool
  pub cancelled : Bool
  pub threads : List (Thread T)
  pub accepted : List T
  pub popped : List T

-- How far `Submit` comes before it waits or ends; `late` says that the second of `waitCtx` is over.
pub data Entry : Type 0 where
  accepts refuses waits : Entry

-- A thread's turn, a new call of Submit, Close, and the end of the parent's context.
pub data Action (T : Type 0) : Type 0 where
  turns : ℕ → ℕ → Bool → Action T
  calls : T → Action T
  closes cancels : Action T

abbrev pub or_default : ℕ → ℤ → ℕ
or_default d (pos zero) = d
or_default d (pos (suc n)) = suc n
or_default d (negsuc n) = d

module _ {T : Type 0} where
  abbrev pub is_waiting : Thread T → Bool
  is_waiting asleep = true
  is_waiting (blocked t) = true
  is_waiting _ = false

  abbrev pub woken : Thread T → Thread T
  woken asleep = ready
  woken (blocked t) = resumed t
  woken other = other

  abbrev pub waiters : List (Thread T) → ℕ
  waiters [] = 0
  waiters (t ∷ ts) = (if is_waiting t then 1 else 0) + waiters ts

  -- Wakes the waiter with `k` waiters before it.
  unfoldable pub wake : ℕ → List (Thread T) → List (Thread T)
  wake k [] = []
  wake k (t ∷ ts) =
      let here = if k == 0 then woken t ∷ ts else t ∷ wake (k - 1) ts in
      let past = t ∷ wake k ts in if is_waiting t then here else past

  -- `cond.Signal()` and `cond.Broadcast()`
  unfoldable pub signal : ℕ → List (Thread T) → List (Thread T)
  signal k ts = wake (if ltb k (waiters ts) then k else 0) ts

  unfoldable pub broadcast : List (Thread T) → List (Thread T)
  broadcast ts = map woken ts

  unfoldable pub set_thread : ℕ → Thread T → List (Thread T) → List (Thread T)
  set_thread i t [] = []
  set_thread zero t (u ∷ us) = t ∷ us
  set_thread (suc i) t (u ∷ us) = u ∷ set_thread i t us

  abbrev pub becomes : ℕ → Thread T → Exec T → Exec T
  becomes i t e = record e { threads = set_thread i t e.threads }

  -- The end of `Submit`: the task is queued and a waiter woken.
  unfoldable pub enqueue : ℕ → T → Exec T → Exec T
  enqueue k t e = record e {
    queue = e.queue ++ t ∷ [];
    accepted = e.accepted ++ t ∷ [];
    threads = signal k e.threads;
  }

  unfoldable pub enter_submit : Bool → Exec T → Entry
  enter_submit late e =
      if e.cancelled
      then refuses
      else if leb e.size (length e.queue)
      then if e.drop_when_full then refuses else if late then refuses else waits
      else accepts

  -- From the return of `cond.Wait` on.
  unfoldable pub resume_submit : Bool → Exec T → Entry
  resume_submit late e =
      if late then refuses else if leb e.size (length e.queue) then waits else accepts

  -- What the caller at `i` does with that.
  unfoldable pub settle : ℕ → ℕ → T → Entry → Exec T → Exec T
  settle i k t accepts e = enqueue k t (becomes i (returned t true) e)
  settle i k t refuses e = becomes i (returned t false) e
  settle i k t waits e = becomes i (blocked t) e

  -- `pop` on the content of the queue.
  unfoldable pub work : ℕ → List T → Exec T → Exec T
  work i [] e = if e.cancelled then becomes i done e else becomes i asleep e
  work i (t ∷ ts) e = record e { queue = ts; popped = e.popped ++ t ∷ [] }

  -- The turn of a thread at `i`.
  unfoldable pub act : ℕ → ℕ → Bool → Thread T → Exec T → Exec T
  act i k late ready e = work i e.queue e
  act i k late (calling t) e = settle i k t (enter_submit late e) e
  act i k late (resumed t) e = settle i k t (resume_submit late e) e
  act i k late asleep e = e
  act i k late done e = e
  act i k late (blocked t) e = e
  act i k late (returned t b) e = e

  unfoldable pub turn : ℕ → ℕ → Bool → Exec T → Exec T
  turn i k late e = elim (get_elem? e.threads i) [ none ↦ e | some t ↦ act i k late t e ]

  -- `Close` but for the wait for the workers.
  unfoldable pub close : Exec T → Exec T
  close e = record e { cancelled = true; threads = broadcast e.threads }

  unfoldable pub step : Action T → Exec T → Exec T
  step (turns i k late) e = turn i k late e
  step (calls t) e = record e { threads = e.threads ++ calling t ∷ [] }
  step closes e = close e
  step cancels e = record e { cancelled = true }

  unfoldable pub run : List (Action T) → Exec T → Exec T
  run [] e = e
  run (a ∷ as') e = run as' (step a e)

  abbrev pub workers : ℕ → List (Thread T)
  workers zero = []
  workers (suc n) = ready ∷ workers n

  -- `NewAsyncExecutor`
  unfoldable pub new_executor : ℤ → ℤ → Bool → Exec T
  new_executor queue_size worker_count drop = record {
    queue = [];
    size = or_default 1024 queue_size;
    drop_when_full = drop;
    cancelled = false;
    threads = workers (or_default 1 worker_count);
    accepted = [];
    popped = [];
  }
