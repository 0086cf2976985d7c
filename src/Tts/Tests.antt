-- ===== src/Tts/Tests.antt =====
-- internal/app/server/chat/tts.go on concrete inputs: a turn with a late registration, an item with two
-- frames, and one of two responses.
use xiaozhi_esp32_server_gol.Common.{
  ℕ, zero, suc, ◌≡◌, refl, Bool, true, false, none, some, List, [], ◌∷◌, count_if, arith,
}
use xiaozhi_esp32_server_gol.Tts.Cycle.{
  Meter, Action, registers_item, finishes_item, finishes_request, starts_request, hears_audio,
  requests_end, start_cycle, run, fresh,
}
use xiaozhi_esp32_server_gol.Tts.Cycle.Calm.{Calm, forced}
use xiaozhi_esp32_server_gol.Tts.Cycle.Told.{Good, cycle_told, is_turn_end}
use xiaozhi_esp32_server_gol.Tts.Cycle.Late.{late_registration}
use xiaozhi_esp32_server_gol.Tts.Synthesis.{
  queued, refused, Response, no_stream, streaming, Course, done, closed, audio, handle_tts,
  generate, call_end, end_called, acquired, request_started, released, request_finished,
}
use xiaozhi_esp32_server_gol.Tts.Synthesis.Responses.{
  Stream, context_done, response, not_started, handle_stream_tts,
}
use xiaozhi_esp32_server_gol.Tts.Synthesis.Spoken.{Settled, handle_tts-Settled}
use xiaozhi_esp32_server_gol.Tts.Synthesis.Streamed.{handle_stream_tts-Settled}
use xiaozhi_esp32_server_gol.Tts.Items
use xiaozhi_esp32_server_gol.Tts.Items.{
  numbers, pushes, pops, releases, decides, begins, marks, no_items, number, push_item, pop_item,
  release_item, begin_exclusive, should_drop,
}
use xiaozhi_esp32_server_gol.Tts.Items.Silence.{Silent, exclusive-Silent}

abbrev new_meter : Meter
new_meter = record {
  cycle = fresh 0;
  stamps = record { tts_start_ts = 0; tts_first_frame_ts = 0; tts_stop_ts = 0 };
}

-- An item whose request is heard from; the turn end is requested before both are over.
abbrev some_turn : List (Action ℕ)
some_turn =
    registers_item 1
    ∷ starts_request 10 1
    ∷ hears_audio 20 1
    ∷ requests_end 25 none
    ∷ finishes_request 30 1 none
    ∷ finishes_item 40 1 none
    ∷ []

cycle_told_example :
    Good (start_cycle new_meter) (run some_turn (start_cycle new_meter))
    × Calm (forced some_turn) (run some_turn (start_cycle new_meter)).1
cycle_told_example =
    cycle_told new_meter some_turn (refl, (refl, (refl, (refl, (refl, (refl, tt))))))

late_registration_example :
    count_if
      (is_turn_end {E = ℕ})
      (run
        (finishes_item 10 1 none ∷ registers_item 1 ∷ requests_end 20 (some 7) ∷ [])
        (start_cycle new_meter)).0
    ≡ 0
unfolding start_cycle
late_registration_example =
    late_registration 10 1 none (start_cycle new_meter) (requests_end 20 (some 7) ∷ [])
      (λ e. omega (arith, e)) refl refl refl refl (refl, tt)

-- A text is blank if it is 0.
abbrev is_zero : ℕ → Bool
is_zero zero = true
is_zero (suc n) = false

abbrev hello : Response ℕ
hello = record { text = 5; is_start = true }

abbrev lost_course : Course ℕ ℕ
lost_course = audio 1 queued (audio 2 (refused 9) (done 9))

handle_tts-Settled_example :
    Settled 3 0 0 1
      (handle_tts is_zero suc 3 (some 1) (some 2) hello streaming queued lost_course).0
handle_tts-Settled_example =
    handle_tts-Settled is_zero suc 3 (some 1) (some 2) hello streaming queued lost_course

-- The end of a response is refused, and then the loop finds its context done.
abbrev lost_stream : Stream ℕ ℕ ℕ
lost_stream =
    response hello streaming queued queued (audio 7 queued (closed (refused 9) (some 9)))
      (context_done 9 (refused 9))

handle_stream_tts-Settled_example :
    Settled 3 0 0 2
      (handle_stream_tts is_zero suc 3 (some 1) (some 2) (some (not_started 4)) lost_stream).0
handle_stream_tts-Settled_example =
    handle_stream_tts-Settled is_zero suc 3 2 (some 1) (some (not_started 4)) lost_stream

-- A provider that fails at once: its request is finished and the end of the item called.
failing : handle_tts {F = ℕ} is_zero suc 3 (some 1) (some 2) hello (no_stream 4) queued (done 0) ≡ (
  acquired ∷ request_started ∷ released ∷ request_finished (some 4) ∷ end_called 2 (some 5) ∷ [],
  some 5,
)
unfolding handle_tts generate call_end
failing = refl

-- One item is behind its wait and one in the queue when media begins to play.
abbrev before_media : List (Items.Action ℕ)
before_media = numbers 5 ∷ pushes 0 ∷ numbers 6 ∷ pushes 0 ∷ pops ∷ releases ∷ begins ∷ []

exclusive-Silent_example :
    Silent (Items.run (marks ∷ decides ∷ pops ∷ decides ∷ []) (Items.run before_media no_items).1).0
unfolding Items.run Items.step number push_item pop_item release_item begin_exclusive should_drop
exclusive-Silent_example =
    exclusive-Silent before_media (decides ∷ pops ∷ decides ∷ []) (omega arith) refl
      (refl, (refl, (refl, tt)))
