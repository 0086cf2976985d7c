-- ===== src/Tts/Sender/Turns.antt =====
-- internal/app/server/chat/tts.go: the starts and stops of the output.
use xiaozhi_esp32_server_gol.Common.{◌≡◌, Bool, Option, none, some, List, [], ◌∷◌, if◌then◌else◌}
use xiaozhi_esp32_server_gol.Tts.Sender.{Sender, Event, start_hook, stop_hook, stop_sent, Ran}

-- The output: off, on, or between a TtsStop and its hook.
pub data Output : Type 0 where
  off on stopping : Output

abbrev pub output_of : Bool → Output
output_of b = if b then on else off

module _ {F T E : Type 0} where
  -- The output behind the events, if each stop falls behind a start and each TtsStop, once, before the
  -- hook of its stop.
  abbrev pub output : Output → List (Event F T E) → Option Output
  output o [] = some o
  output o (start_hook ∷ es) = output on es
  output on (stop_sent ∷ es) = output stopping es
  output off (stop_sent ∷ es) = none
  output stopping (stop_sent ∷ es) = none
  output on (stop_hook e ∷ es) = output off es
  output stopping (stop_hook e ∷ es) = output off es
  output off (stop_hook e ∷ es) = none
  output o (_ ∷ es) = output o es

  abbrev Turns : Sender F T E → Ran F T E → Type 0
  Turns s r = output (output_of s.tts_active) r.0 ≡ some (output_of r.1.tts_active)

  -- Events that are no start and no stop.
  abbrev Silent : List (Event F T E) → Type 0
  Silent es = (b : Output) → output b es ≡ some b
