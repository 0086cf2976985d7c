-- ===== src/Tts/Sender/Tests.antt =====
-- internal/app/server/chat/tts.go: a start, frames and the end of a sentence through the sender loop,
-- with an interrupt between, at frames of 60 ms.
use xiaozhi_esp32_server_gol.Common.{
  ℕ, ◌+◌, ◌≡◌, refl, true, false, none, some, List, [], ◌∷◌, ◌++◌, All,
}
use xiaozhi_esp32_server_gol.Tts.{frame, sentence_end, tts_start, Elem, plain}
use xiaozhi_esp32_server_gol.Tts.Sender.{
  Sender, Event, audio_sent, start_hook, start_sent, stop_hook, stop_sent, end_called,
  interrupt_done, sentence_end_sent, Answer, finish_stop, finish_pending, drained, handle_interrupt,
  handle_delayed, speak_sentence, speak_end, insert_delayed, all_later, next_generation,
  record_stop,
}
use xiaozhi_esp32_server_gol.Tts.Sender.Loop.{
  send_frame, take_frame, take_kind, take_start, delay, fire, forward, reach,
}
use xiaozhi_esp32_server_gol.Tts.Sender.History.{
  Action, takes_ready, takes_request, takes_elem, reaches, delays, sorts, fires, forwards, enqueues,
  bumps, requests, records, step, run, enqueue, request, new_sender,
}
use xiaozhi_esp32_server_gol.Tts.Sender.Current.Calls.{Current, held}
use xiaozhi_esp32_server_gol.Tts.Sender.Current.{run-Current}
use xiaozhi_esp32_server_gol.Tts.Sender.Ends.{waiting, calls, losses}
use xiaozhi_esp32_server_gol.Tts.Sender.Ends.Kept.{entered, run-Balanced}

abbrev Act : Type 0
Act = Action ℕ ℕ ℕ × Answer ℕ

-- An answer at a time at which all goes well.
abbrev at_time : ℕ → Answer ℕ
at_time t = record { now = t; send_err = none; stop_send_err = none; realtime = false; ctx_err = 9 }

abbrev start_of_output : Elem ℕ ℕ ℕ
start_of_output = plain tts_start

abbrev a_frame : Elem ℕ ℕ ℕ
a_frame = record (plain frame) { data_of = some 3 }

abbrev an_end : Elem ℕ ℕ ℕ
an_end = record (plain sentence_end) { text = some 4; on_end = some 7 }

-- The fourth frame waits for its time.
abbrev first_part : List Act
first_part =
    (enqueues 1 start_of_output, at_time 0)
    ∷ (takes_elem, at_time 0)
    ∷ (enqueues 1 a_frame, at_time 0)
    ∷ (enqueues 1 a_frame, at_time 0)
    ∷ (enqueues 1 a_frame, at_time 0)
    ∷ (enqueues 1 a_frame, at_time 0)
    ∷ (enqueues 1 an_end, at_time 0)
    ∷ (takes_elem, at_time 10)
    ∷ (takes_elem, at_time 10)
    ∷ (takes_elem, at_time 10)
    ∷ (takes_elem, at_time 10)
    ∷ []

-- The end of the sentence goes to the client behind its delay.
abbrev ending : List Act
ending =
    (reaches, at_time 70)
    ∷ (takes_elem, at_time 71)
    ∷ (delays, at_time 71)
    ∷ (sorts, at_time 72)
    ∷ (fires, at_time 191)
    ∷ (forwards, at_time 191)
    ∷ (takes_ready, at_time 192)
    ∷ []

-- The interrupt comes first, and drops the end of the sentence.
abbrev interrupted : List Act
interrupted =
    (records true (some 5), at_time 20)
    ∷ (bumps, at_time 20)
    ∷ (requests, at_time 20)
    ∷ (takes_request, at_time 21)
    ∷ []

abbrev sent : Event ℕ ℕ ℕ
sent = audio_sent (record a_frame { generation = 1 })

abbrev ended : Elem ℕ ℕ ℕ
ended = record an_end { generation = 1 }

spoken :
    (run 8 60 (first_part ++ ending) new_sender).0
    ≡ start_hook
      ∷ start_sent
      ∷ sent
      ∷ sent
      ∷ sent
      ∷ sent
      ∷ sentence_end_sent ended 4
      ∷ end_called ended none
      ∷ []
unfolding run step enqueue take_kind take_start take_frame send_frame reach delay insert_delayed
    all_later fire forward handle_delayed speak_sentence speak_end
spoken = refl

cut_off :
    (run 8 60 (first_part ++ interrupted) new_sender).0
    ≡ start_hook
      ∷ start_sent
      ∷ sent
      ∷ sent
      ∷ sent
      ∷ end_called ended (some 8)
      ∷ stop_sent
      ∷ stop_hook (some 5)
      ∷ interrupt_done none
      ∷ []
unfolding run step enqueue take_kind take_start take_frame send_frame record_stop next_generation
    request handle_interrupt drained finish_pending finish_stop
cut_off = refl

-- Behind the interrupt, with the fourth frame still waiting.
abbrev behind_interrupt : Sender ℕ ℕ ℕ
behind_interrupt = (run 8 60 (first_part ++ (bumps, at_time 20) ∷ []) new_sender).1

run-Current_example :
    All
      (Current behind_interrupt.audio_generation (held behind_interrupt.phase))
      (run 8 60 ((reaches, at_time 70) ∷ (takes_elem, at_time 71) ∷ []) behind_interrupt).0
run-Current_example =
    run-Current 8 60 ((reaches, at_time 70) ∷ (takes_elem, at_time 71) ∷ []) behind_interrupt
      (refl, (refl, tt))

run-Balanced_example :
    waiting 7 (run 8 60 (first_part ++ interrupted) new_sender).1
      + calls 7 (run 8 60 (first_part ++ interrupted) new_sender).0
      + losses 7 (run 8 60 (first_part ++ interrupted) new_sender).0
    ≡ waiting 7 (new_sender {F = ℕ} {T = ℕ} {E = ℕ})
      + entered 7 8 60 (first_part ++ interrupted) new_sender
run-Balanced_example = run-Balanced 7 8 60 (first_part ++ interrupted) new_sender
