-- ===== src/Tts/Sender/Pace/Whole.antt =====
-- internal/app/server/chat/tts.go: the tail of the playback, in a history.
use xiaozhi_esp32_server_gol.Common.{ℕ}
use xiaozhi_esp32_server_gol.Tts.Sender.{Sender, Ran}
use xiaozhi_esp32_server_gol.Tts.Sender.Pace.{Paced}

module _ {F T E : Type 0} (d t0 t1 : ℕ) where
  abbrev Keeps : Ran F T E → Type 0
  Keeps r = Paced d t0 t1 r.1
