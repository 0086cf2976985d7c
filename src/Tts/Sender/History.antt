-- ===== src/Tts/Sender/History.antt =====
-- internal/app/server/chat/tts.go: those who queue elements and interrupt, and the histories in which
-- they interleave with the two loops.
use xiaozhi_esp32_server_gol.Common.{
  ℕ, Bool, true, false, Option, none, some, List, [], ◌∷◌, ◌++◌, length, ltb, ◌==◌, if◌then◌else◌,
}
use xiaozhi_esp32_server_gol.Tts.{Elem}
use xiaozhi_esp32_server_gol.Tts.Sender.{
  selecting, Delayer, awaiting, Sender, Answer, Ran, queue_cap, calls_end, next_generation,
  record_stop, finish_stop, finish_pending,
}
use xiaozhi_esp32_server_gol.Tts.Sender.Loop.{
  is_selecting, is_open, is_active, take_kind, reach, delay, sorting, forward, end_delayed,
  taking_ready, taking_request, see_done, fire,
}

-- runSenderLoop takes a delayed sentence, a request, an element or the end of its context, comes to the
-- end of a wait, or finds room for a sentence. runDelayedSentenceLoop takes a sentence, comes to the
-- time of one, finds room for it, or ends. Others queue elements, and take the parts of interrupts.
pub data Action (F T E : Type 0) : Type 0 where
  takes_ready takes_request takes_elem sees_done reaches delays : Action F T E
  sorts fires forwards ends_delayed : Action F T E
  enqueues : ℕ → Elem F T E → Action F T E
  bumps requests : Action F T E
  requests_sync : ℕ → Action F T E
  records : Bool → Option E → Action F T E
  finishes_if_exited : Action F T E
  finishes : Bool → Option E → Action F T E

module _ {F T E : Type 0} where
  -- InterruptAndClearQueue, InterruptAndStop and InterruptAndStopSync, whose caller is `k`, as the
  -- steps that they take, between which others act.
  abbrev pub interrupt_and_clear : List (Action F T E)
  interrupt_and_clear = bumps ∷ requests ∷ []

  abbrev pub interrupt_and_stop : Bool → Option E → List (Action F T E)
  interrupt_and_stop b e = records b e ∷ interrupt_and_clear ++ finishes_if_exited ∷ []

  abbrev pub interrupt_and_stop_sync : ℕ → Bool → Option E → List (Action F T E)
  interrupt_and_stop_sync k b e = records b e ∷ bumps ∷ requests_sync k ∷ finishes_if_exited ∷ []

  -- `enqueueSessionElem`, when there is room.
  unfoldable pub enqueue : ℕ → Elem F T E → Sender F T E → Sender F T E
  enqueue g x s =
      if ltb (length s.audio_queue) queue_cap
      then record s { audio_queue = s.audio_queue ++ record x { generation = g } ∷ [] }
      else s

  -- The request of InterruptAndClearQueue, which gives up where one is there, and of its
  -- synchronous form, where a channel without room is a step that does nothing.
  unfoldable pub request : Option ℕ → List (Option ℕ) → Sender F T E → Sender F T E
  request r [] s = if is_active s.phase then record s { interrupt_ch = r ∷ [] } else s
  request r (_ ∷ _) s = s

  abbrev pub is_awaiting : Delayer F T E → Bool
  is_awaiting awaiting = true
  is_awaiting _ = false

module _ {F T E : Type 0} (canceled : E) (d : ℕ) where
  abbrev pub take_elem : Answer E → Elem F T E → Sender F T E → Ran F T E
  take_elem w x s =
      if x.generation == s.audio_generation
      then take_kind d x.kind w x s
      else (calls_end x (some canceled), s)

  abbrev pub taking_elem : Answer E → List (Elem F T E) → Sender F T E → Ran F T E
  taking_elem w [] s = ([], s)
  taking_elem w (x ∷ xs) s = take_elem w x (record s { audio_queue = xs })

  unfoldable pub step : Action F T E → Answer E → Sender F T E → Ran F T E
  step takes_ready w s =
      if is_open s.phase then taking_ready canceled w s.ready_queue s else ([], s)
  step takes_request w s =
      if is_open s.phase then taking_request canceled w s.interrupt_ch s else ([], s)
  step takes_elem w s = if is_selecting s.phase then taking_elem w s.audio_queue s else ([], s)
  step sees_done w s = see_done canceled w s.phase s
  step reaches w s = reach d w s.phase s
  step delays w s = delay s.phase s
  step sorts w s = if is_awaiting s.delayer then sorting s.delayed_queue s else ([], s)
  step fires w s = if is_awaiting s.delayer then fire canceled w s.pending s else ([], s)
  step forwards w s = forward s.delayer s
  step ends_delayed w s = end_delayed w s.delayer s
  step (enqueues g x) w s = ([], enqueue g x s)
  step bumps w s = ([], next_generation s)
  step requests w s = ([], request none s.interrupt_ch s)
  step (requests_sync k) w s = ([], request (some k) s.interrupt_ch s)
  step (records b e) w s = ([], record_stop b e s)
  step finishes_if_exited w s = if is_active s.phase then ([], s) else finish_pending w s
  step (finishes b e) w s = finish_stop w b e s

  unfoldable pub run : List (Action F T E × Answer E) → Sender F T E → Ran F T E
  run [] s = ([], s)
  run ((a, w) ∷ xs) s = let (es, t) = step a w s in let (fs, last) = run xs t in (es ++ fs, last)

abbrev pub new_sender : {F T E : Type 0} → Sender F T E
new_sender = record {
  audio_queue = [];
  delayed_queue = [];
  pending = [];
  ready_queue = [];
  interrupt_ch = [];
  audio_generation = 1;
  tts_active = false;
  stop_pending = false;
  stop_sends = false;
  stop_err = none;
  history = [];
  phase = selecting;
  delayer = awaiting;
  playback_tail = none;
  total_frames = 0;
}
