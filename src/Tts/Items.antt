-- ===== src/Tts/Items.antt =====
-- internal/app/server/chat/tts.go: the items of the TTS queue from pushTTSQueueItem to processTTSQueue,
-- ClearTTSQueue, and the exclusive playback of media. The queue is the list that util.Queue holds, and
-- a step is what one goroutine does between two accesses to shared state; that ClearTTSQueue copies
-- one counter into the other is one step. Streams of responses are left out.
pub mod Numbers
pub mod Silence
use xiaozhi_esp32_server_gol.Common.{
  ℕ, zero, suc, ◌-◌, ◌%◌, ◌^◌, Bool, true, false, not, ◌&&◌, Option, none, some, List, [], ◌∷◌,
  ◌++◌, length, ltb, leb, ◌==◌, if◌then◌else◌, map,
}

-- `TTSQueueItem`, with all but its number as `payload`.
pub record Item (P : Type 0) : Type 0 where
  pub enqueue_seq : ℕ
  pub payload : P

-- Where processTTSQueue is: at Pop, waiting for the end of exclusive playback, behind that wait, or at
-- the synthesis of an item.
pub data Consumer (P : Type 0) : Type 0 where
  popping : Consumer P
  waiting passed speaking : Item P → Consumer P

-- The fields of the manager for this; `pushing` are the items that have a number and are not pushed.
pub record Items (P : Type 0) : Type 0 where
  pub queue : List (Item P)
  pub pushing : List (Item P)
  pub queue_seq : ℕ
  pub dropped_seq : ℕ
  pub playback_active : Bool
  pub consumer : Consumer P

-- The synthesis of an item begins, or it is dismissed.
pub data Event (P : Type 0) : Type 0 where
  spoken dismissed : Item P → Event P

-- A caller of pushTTSQueueItem takes a number, and later pushes or fails; the consumer pops, comes
-- behind the exclusive playback, or finds its context done, decides, and ends an item; others begin
-- and end exclusive playback, and take the two parts of ClearTTSQueue.
pub data Action (P : Type 0) : Type 0 where
  numbers : P → Action P
  pushes push_fails : ℕ → Action P
  pops releases cancels decides finishes : Action P
  begins ends marks drains : Action P

abbrev pub item_cap : ℕ
item_cap = 10

module _ {P : Type 0} where
  abbrev pub without : ℕ → List (Item P) → List (Item P)
  without k [] = []
  without zero (x ∷ xs) = xs
  without (suc k) (x ∷ xs) = x ∷ without k xs

  abbrev pub at_index : ℕ → List (Item P) → List (Item P)
  at_index k [] = []
  at_index zero (x ∷ xs) = x ∷ []
  at_index (suc k) (x ∷ xs) = at_index k xs

  -- `pushTTSQueueItem` up to the push, on a uint64.
  unfoldable pub number : P → Items P → Items P
  number p s =
      let n = suc s.queue_seq % 2 ^ 64 in
      record s {
        queue_seq = n;
        pushing = s.pushing ++ record { enqueue_seq = n; payload = p } ∷ [];
      }

  -- The push of the item at `k`, when there is room, and its failure.
  unfoldable pub push_item : ℕ → Items P → Items P
  push_item k s =
      if ltb (length s.queue) item_cap
      then record s { queue = s.queue ++ at_index k s.pushing; pushing = without k s.pushing }
      else s

  -- `shouldDropTTSQueueItem`
  unfoldable pub should_drop : Item P → Items P → Bool
  should_drop i s = not (i.enqueue_seq == 0) && leb i.enqueue_seq s.dropped_seq

  -- Pop and the first look at the number.
  unfoldable pub pop_item : List (Item P) → Items P → List (Event P) × Items P
  pop_item [] s = ([], s)
  pop_item (i ∷ is) s =
      if should_drop i s
      then (dismissed i ∷ [], record s { queue = is })
      else ([], record s { queue = is; consumer = waiting i })

  -- `waitForMediaPlaybackRelease`
  unfoldable pub release_item : Consumer P → Items P → List (Event P) × Items P
  release_item (waiting i) s =
      if s.playback_active then ([], s) else ([], record s { consumer = passed i })
  release_item _ s = ([], s)

  unfoldable pub cancel_item : Consumer P → Items P → List (Event P) × Items P
  cancel_item (waiting i) s = (dismissed i ∷ [], record s { consumer = popping })
  cancel_item _ s = ([], s)

  -- The second look at the number.
  unfoldable pub decide : Consumer P → Items P → List (Event P) × Items P
  decide (passed i) s =
      if should_drop i s
      then (dismissed i ∷ [], record s { consumer = popping })
      else (spoken i ∷ [], record s { consumer = speaking i })
  decide _ s = ([], s)

  unfoldable pub finish_speaking : Consumer P → Items P → Items P
  finish_speaking (speaking i) s = record s { consumer = popping }
  finish_speaking _ s = s

  abbrev pub is_popping : Consumer P → Bool
  is_popping popping = true
  is_popping _ = false

  -- BeginExclusiveMediaPlayback, which fails where one is active, and EndExclusiveMediaPlayback.
  unfoldable pub begin_exclusive : Items P → Bool × Items P
  begin_exclusive s =
      if s.playback_active then (false, s) else (true, record s { playback_active = true })

  unfoldable pub end_exclusive : Items P → Items P
  end_exclusive s = record s { playback_active = false }

  -- The parts of ClearTTSQueue.
  unfoldable pub mark_dropped : Items P → Items P
  mark_dropped s = record s { dropped_seq = s.queue_seq }

  unfoldable pub drain_items : Items P → List (Event P) × Items P
  drain_items s = (map dismissed s.queue, record s { queue = [] })

  unfoldable pub step : Action P → Items P → List (Event P) × Items P
  step (numbers p) s = ([], number p s)
  step (pushes k) s = ([], push_item k s)
  step (push_fails k) s = ([], record s { pushing = without k s.pushing })
  step pops s = if is_popping s.consumer then pop_item s.queue s else ([], s)
  step releases s = release_item s.consumer s
  step cancels s = cancel_item s.consumer s
  step decides s = decide s.consumer s
  step finishes s = ([], finish_speaking s.consumer s)
  step begins s = ([], (begin_exclusive s).1)
  step ends s = ([], end_exclusive s)
  step marks s = ([], mark_dropped s)
  step drains s = drain_items s

  unfoldable pub run : List (Action P) → Items P → List (Event P) × Items P
  run [] s = ([], s)
  run (a ∷ as') s = let (es, t) = step a s in let (fs, last) = run as' t in (es ++ fs, last)

abbrev pub no_items : {P : Type 0} → Items P
no_items = record {
  queue = [];
  pushing = [];
  queue_seq = 0;
  dropped_seq = 0;
  playback_active = false;
  consumer = popping;
}
