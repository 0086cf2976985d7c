-- ===== src/Media/System.antt =====
-- internal/app/server/chat/media_player.go: histories of a device's player, made of requests and of
-- steps of its playbacks in any order.
pub mod Exclusive
pub mod Requests
pub mod Handled
pub mod Steps
pub mod Claims
pub mod Balance
use xiaozhi_esp32_server_gol.Common.{
  ℕ, String, Bool, true, false, ◌≡◌, Option, none, some, List, [], ◌∷◌, ltb, if◌then◌else◌,
}
use xiaozhi_esp32_server_gol.Common.Int.{ℤ}
use xiaozhi_esp32_server_gol.Media.Sources.{
  Source, Item, Playlists, AudioConfig, Texts, append_to_playlist,
}
use xiaozhi_esp32_server_gol.Media.{
  Runtime, Attachment, new_runtime, write, pause, suspend, recover_active, resume_if_interrupted,
  stop, attach, detach,
}
use xiaozhi_esp32_server_gol.Media.Control.{
  replace_standalone, play_index, play_playlist, recover_playback, jump, refresh,
}
use xiaozhi_esp32_server_gol.Media.Append.{append_current}
use xiaozhi_esp32_server_gol.Media.Playback.{Phase, entering, Answer, fail_attachment}
use xiaozhi_esp32_server_gol.Media.Streaming.{step}

-- `shares` is an append by another device, `reports` the error callback that a playback gave a bridge,
-- and `recovers true` the goroutine of attachSession.
pub data Request : Type 0 where
  replaces : ℕ → List Source → ℤ → AudioConfig → Request
  plays_index : String → ℤ → AudioConfig → Request
  plays_playlist : String → AudioConfig → Request
  recovers : ℕ → Bool → AudioConfig → Request
  jumps : ℤ → AudioConfig → Request
  appends : ℕ → String → Request
  shares : ℕ → String → Source → Request
  attaches : ℕ → Request
  detaches : ℕ → Bool → Request
  reports : ℕ → Attachment → Request
  pauses suspends resumes resumes_interrupted stops shows : Request

abbrev pub share : Option ((Item × List Item) × Playlists) → Runtime → Runtime
share none r = r
share (some (i, m)) r = record r { playlists = m }

-- The runtime behind a request, whatever it returns.
unfoldable pub handle : Texts → Request → Runtime → Runtime
handle t (replaces now ss i cfg) r = (replace_standalone t now ss i cfg r).1
handle t (plays_index agent i cfg) r = (play_index t agent i cfg r).1
handle t (plays_playlist agent cfg) r = (play_playlist t agent cfg r).1
handle t (recovers now attached cfg) r = (recover_playback t now attached cfg r).1
handle t (jumps delta cfg) r = (jump t delta cfg r).1
handle t (appends now agent) r = (append_current t now agent r).1
handle t (shares now agent s) r = share (append_to_playlist t now agent s r.playlists) r
handle t (attaches session) r = attach session r
handle t (detaches session preserve) r = detach session preserve r
handle t (reports p a) r = fail_attachment p a r
handle t pauses r = (pause r).1
handle t suspends r = (suspend r).1
handle t resumes r = (recover_active r).1
handle t resumes_interrupted r = (resume_if_interrupted r).1
handle t stops r = stop r
handle t shows r = refresh t r

-- The player with the phases of its playbacks, and what happens to it.
pub record Player : Type 0 where
  pub runtime : Runtime
  pub phases : ℕ → Phase

pub data Event : Type 0 where
  requests : Request → Event
  runs : ℕ → Answer → Event

unfoldable pub happen : Texts → Event → Player → Player
happen t (requests q) s = record s { runtime = handle t q s.runtime }
happen t (runs p v) s =
    let (ph, r) = step t p (s.phases p) v s.runtime in
    if ltb p s.runtime.next then record { runtime = r; phases = write s.phases p ph } else s

unfoldable pub history : Texts → List Event → Player → Player
history t [] s = s
history t (e ∷ es) s = history t es (happen t e s)

abbrev pub new_player : Player
new_player = record { runtime = new_runtime; phases = λ p. entering }
