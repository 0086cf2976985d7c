-- ===== src/Media/Tests.antt =====
-- Runs of a player, and each theorem about it at a concrete input.
use Prim.Native.Char.{code}
use xiaozhi_esp32_server_gol.Common.{
  inl, inr, ℕ, ◌+◌, ◌≡◌, ◌≢◌, ◌==◌, refl, String, Bool, true, false, Option, none, some, List, [],
  ◌∷◌, ◌++◌, ltb, lookup, insert, if◌then◌else◌,
}
use xiaozhi_esp32_server_gol.Common.Int.{ℤ, pos, negsuc}
use xiaozhi_esp32_server_gol.Media.Sources.{
  Source, Item, at, Texts, AudioConfig, http_url, inline_audio, build_items, snapshot, derive_title,
}
use xiaozhi_esp32_server_gol.Media.{
  Runtime, status_playing, agent_playlist, new_runtime, release, stop_old, drop_held,
  replace_active, attach, pause_at,
}
use xiaozhi_esp32_server_gol.Media.Control.{
  begin_playback, start_standalone, replace_standalone, refresh, next_index, jump,
}
use xiaozhi_esp32_server_gol.Media.Playback.{
  Answer, ok, closes, frame, enter, wait_if_paused, prepare, claim, advance, leave, mark,
}
use xiaozhi_esp32_server_gol.Media.Streaming.{step}
use xiaozhi_esp32_server_gol.Media.System.{
  Event, requests, runs, attaches, replaces, pauses, history, happen, handle, new_player,
}
use xiaozhi_esp32_server_gol.Media.System.Exclusive.{count_begins, count_ends, holds, in_flight}
use xiaozhi_esp32_server_gol.Media.System.Balance.{history_balance}
use xiaozhi_esp32_server_gol.Media.Jumps.{Starts, jump_lem}
use xiaozhi_esp32_server_gol.Media.Gate.{
  gate_status, gate_with, Letters, passes, ignores, controls, next, try_handle, try_handle_gated,
  detect_control, is_exit_command, find_rule, has_keyword, normalize_text,
}

-- The code points of a constant.
abbrev codes : String → List ℕ
codes String.[] = []
codes (String.◌∷◌ c s) = code c ∷ codes s

abbrev texts : Texts
texts = record {
  trim_space = λ s. s;
  url_path = λ s. none;
  last_part = λ s. s;
  media_id = λ n. "m";
  media_id_at = λ n i. "m";
}

abbrev song : Source
song = record {
  id = "1";
  title = "Song";
  mime_type = "audio/mpeg";
  source_type = http_url;
  meta = [];
  mcp = none;
  http = some "http://host/song.mp3";
  local = none;
  inline = none;
}

abbrev config : AudioConfig
config = record { sample_rate = pos 16000; frame_duration = pos 60 }

abbrev steps : ℕ → List Answer → List Event
steps p [] = []
steps p (v ∷ vs) = runs p v ∷ steps p vs

-- A playback up to its hold of the bridge: it enters, waits, prepares, opens, rests, gets a frame,
-- waits, finds the attachment, begins and takes note of that.
abbrev until_held : ℕ → List Event
until_held p = steps p (ok ∷ ok ∷ ok ∷ ok ∷ ok ∷ frame 9 ∷ ok ∷ ok ∷ ok ∷ ok ∷ [])

abbrev plays : List Event
plays = requests (attaches 5) ∷ requests (replaces 0 (song ∷ []) (pos 0) config) ∷ until_held 0

history_balance_example :
    let s = history texts plays new_player in
    count_begins 0 s.runtime.calls
    ≡ count_ends 0 s.runtime.calls
      + (holds 0 s.runtime.exclusive_attachment + in_flight 0 s.runtime.next s.phases)
history_balance_example = history_balance texts plays 0

-- The song plays and is held.
is_held :
    (history texts plays new_player).runtime.exclusive_attachment
    ≡ some (record { ref = 0; session = 5 })
unfolding history happen handle step attach replace_standalone start_standalone begin_playback
    replace_active drop_held stop_old release enter wait_if_paused prepare claim refresh build_items
    snapshot
is_held = refl

-- The song ends, and another one starts before the goroutine of the first has left.
abbrev overtakes : List Event
overtakes =
    plays
    ++ steps 0 (ok ∷ ok ∷ ok ∷ closes ∷ ok ∷ ok ∷ ok ∷ [])
    ++ requests (replaces 1 (song ∷ []) (pos 0) config) ∷ until_held 1
    ++ runs 0 ok ∷ []

-- The second one is the current playback, and the first has ended its hold.
loses_hold :
    let r = (history texts overtakes new_player).runtime in
    (r.active ≡ some 1) × (r.exclusive_attachment ≡ none)
unfolding history happen handle step attach replace_standalone start_standalone begin_playback
    replace_active drop_held stop_old release enter wait_if_paused prepare claim refresh build_items
    snapshot advance leave mark derive_title xiaozhi_esp32_server_gol.Common.Int.◌+ℤ◌
loses_hold = (refl, refl)

-- Two songs in the playlist of an agent, of which the second is the current one.
abbrev item_of : String → Item
item_of n = record { id = n; source = record song { id = n; title = n }; added_at = 0 }

abbrev in_playlist : Runtime
in_playlist = record new_runtime {
  mode = agent_playlist;
  playlist_agent_id = "a";
  playback_index = pos 1;
  playlists = ("a", item_of "x" ∷ item_of "y" ∷ []) ∷ [];
}

two_songs : snapshot texts "a" in_playlist.playlists ≡ item_of "x" ∷ item_of "y" ∷ []
unfolding snapshot lookup
two_songs = refl

jump_lem_example :
    let i = next_index (pos 1) (pos 1) (item_of "x" ∷ item_of "y" ∷ []) in
    (item : Item) × (at i (item_of "x" ∷ item_of "y" ∷ []) ≡ some item)
    × Starts i "a" item in_playlist (jump texts (pos 1) config in_playlist)
jump_lem_example =
    jump_lem texts config (pos 1) in_playlist (item_of "x") (item_of "y" ∷ []) refl refl refl
      two_songs

-- Next comes round to the first song.
comes_round : next_index (pos 1) (pos 1) (item_of "x" ∷ item_of "y" ∷ []) ≡ pos 0
unfolding next_index xiaozhi_esp32_server_gol.Common.Int.◌+ℤ◌
comes_round = refl

-- Spaces are the code point 32, nothing is punctuation, and letters are lower case.
abbrev letters : Letters
letters = record {
  trim_space = λ s. s;
  to_lower = λ s. s;
  is_punct = λ c. false;
  is_space = λ c. c == 32;
  code_points = codes;
}

-- Inline audio that plays on an attachment.
abbrev speaks : Runtime
speaks = record new_runtime {
  current_source_type = inline_audio;
  status = status_playing;
  active = some 0;
  next = 1;
  attachment = some (record { ref = 0; session = 5 });
}

try_handle_gated_example : try_handle letters true (codes "hello there") speaks ≢ passes
try_handle_gated_example =
    try_handle_gated letters (codes "hello there") inline_audio (record { ref = 0; session = 5 }) 0
      speaks (inr refl) (inl refl) refl refl refl refl

ignored : try_handle letters true (codes "hello there") speaks ≡ ignores
unfolding try_handle gate_status gate_with detect_control is_exit_command find_rule has_keyword
    normalize_text
ignored = refl

-- The words for the next song, and the same words to a player that does not play.
next_song : try_handle letters true (codes "next song please") speaks ≡ controls next
unfolding try_handle gate_status gate_with detect_control is_exit_command find_rule has_keyword
    normalize_text
next_song = refl

to_chat : try_handle letters true (codes "next song please") new_runtime ≡ passes
unfolding try_handle gate_status gate_with
to_chat = refl

-- A user pauses while the end of the first of two songs is awaited; then the next song is made ready.
abbrev pauses_at_end : List Event
pauses_at_end =
    requests (attaches 5)
    ∷ requests (replaces 0 (song ∷ song ∷ []) (pos 0) config)
    ∷ (until_held 0
        ++ steps 0 (ok ∷ ok ∷ ok ∷ closes ∷ ok ∷ [])
        ++ requests pauses ∷ steps 0 (ok ∷ ok ∷ []))

-- The player shows that it plays, and the playback is paused.
shows_playing :
    let r = (history texts pauses_at_end new_player).runtime in
    (r.status ≡ status_playing) × ((r.heap 0).paused ≡ true)
unfolding history happen handle step attach replace_standalone start_standalone begin_playback
    replace_active drop_held stop_old release enter wait_if_paused prepare claim refresh build_items
    snapshot advance leave mark derive_title pause_at xiaozhi_esp32_server_gol.Common.Int.◌+ℤ◌
shows_playing = (refl, refl)
