-- ===== src/Media/Control.antt =====
-- internal/app/server/chat/media_player.go: requests that start a playback, move in a playlist or
-- extend it, and what the player shows.
use xiaozhi_esp32_server_gol.Common.{
  ℕ, suc, ◌-◌, ◌%◌, ◌==◌, String, Bool, true, false, not, ◌&&◌, Option, none, some, List, [], ◌∷◌,
  length, if◌then◌else◌, string_eq,
}
use xiaozhi_esp32_server_gol.Common.Int.{ℤ, pos, negsuc, ◌+ℤ◌}
use xiaozhi_esp32_server_gol.Media.Sources.{
  Source, Item, AudioConfig, Texts, is_empty, at, normalize_config, build_items, snapshot,
}
use xiaozhi_esp32_server_gol.Media.{
  Runtime, Mode, standalone, agent_playlist, reason_none, status_playing, is_some, replace_active,
  release, stop_old, stop, recover_active,
}

-- What both kinds of start do under the lock and behind it, but for the fields of the playlist.
unfoldable pub begin_playback : ℤ → Item → AudioConfig → Runtime → Runtime
begin_playback i item cfg r = stop_old r.active (
    release r.exclusive_attachment (record (replace_active r) {
      playback_index = i;
      audio_config = normalize_config cfg r.audio_config;
      current_source = some item.source;
      pause_reason = reason_none;
      resume_on_attach = false;
      status = status_playing;
      current_title = item.source.title;
      current_source_type = item.source.source_type;
      position_ms = 0;
      err_msg = "";
    }))

abbrev pub invalid_index : String
invalid_index = "invalid playback start index"

-- Behind the test of the list in both: the item at the index.
unfoldable pub start_standalone :
    Option Item → ℤ → List Item → AudioConfig → Runtime → Option String × Runtime
start_standalone none i items cfg r = (some invalid_index, r)
start_standalone (some item) i items cfg r = (
  none,
  begin_playback i item cfg (record r {
    mode = standalone;
    playlist_agent_id = "";
    standalone_items = items;
    playlist = [];
    current_index = negsuc 0;
  }),
)

unfoldable pub start_agent :
    Option Item → ℤ → String → List Item → AudioConfig → Runtime → Option String × Runtime
start_agent none i agent items cfg r = (some invalid_index, r)
start_agent (some item) i agent items cfg r = (
  none,
  begin_playback i item cfg (record r {
    mode = agent_playlist;
    playlist_agent_id = agent;
    standalone_items = [];
    playlist = items;
    current_index = i;
  }),
)

-- `(currentIndex + delta) % n`, which has the sign of the sum, made positive again.
abbrev pub wrap : ℤ → ℕ → ℤ
wrap (pos k) n = pos (k % n)
wrap (negsuc k) n = if suc k % n == 0 then pos 0 else pos (n - suc k % n)

abbrev pub is_agent : Mode → Bool
is_agent agent_playlist = true
is_agent standalone = false

abbrev pub is_negative : ℤ → Bool
is_negative (pos n) = false
is_negative (negsuc n) = true

-- Where jumpToRelative starts to count, and the index that it plays, in a list of items.
abbrev pub start_index : {A : Type 0} → ℤ → ℤ → List A → ℤ
start_index i delta items =
    if is_some (at i items) then i else if is_negative delta then pos (length items - 1) else pos 0

unfoldable pub next_index : {A : Type 0} → ℤ → ℤ → List A → ℤ
next_index i delta items = wrap (start_index i delta items +ℤ delta) (length items)

module _ (t : Texts) where
  unfoldable pub replace_standalone :
      ℕ → List Source → ℤ → AudioConfig → Runtime → Option String × Runtime
  replace_standalone now [] i cfg r = (none, stop r)
  replace_standalone now (s ∷ ss) i cfg r =
      let items = build_items t now (s ∷ ss) in start_standalone (at i items) i items cfg r

  -- `PlayAgentPlaylistIndex` on the content of the playlist.
  abbrev pub play_items : List Item → String → ℤ → AudioConfig → Runtime → Option String × Runtime
  play_items [] agent i cfg r = (some "playlist is empty", r)
  play_items (x ∷ xs) agent i cfg r = start_agent (at i (x ∷ xs)) i agent (x ∷ xs) cfg r

  unfoldable pub play_index : String → ℤ → AudioConfig → Runtime → Option String × Runtime
  play_index agent i cfg r =
      let a = t.trim_space agent in
      if is_empty a
      then (some "agentID cannot be empty", r)
      else play_items (snapshot t a r.playlists) a i cfg r

  abbrev pub play_playlist_items :
      List Item → String → AudioConfig → Runtime → Option String × Runtime
  play_playlist_items [] a cfg r = (some "playlist is empty", r)
  play_playlist_items (x ∷ xs) a cfg r =
      let current =
        is_agent r.mode
        && string_eq.beq r.playlist_agent_id a
        && is_some (at r.playback_index (x ∷ xs)) in
      play_index a (if current then r.playback_index else pos 0) cfg r

  -- `PlayAgentPlaylist`
  unfoldable pub play_playlist : String → AudioConfig → Runtime → Option String × Runtime
  play_playlist agent cfg r =
      let a = t.trim_space agent in
      if is_empty a
      then (some "agentID cannot be empty", r)
      else play_playlist_items (snapshot t a r.playlists) a cfg r

  -- The cases of RecoverPlayback without a playback.
  abbrev pub recover_items : List Item → AudioConfig → Runtime → Option String × Runtime
  recover_items [] cfg r = (some "playlist is empty", r)
  recover_items (x ∷ xs) cfg r =
      let i = if is_some (at r.playback_index (x ∷ xs)) then r.playback_index else pos 0 in
      play_index r.playlist_agent_id i cfg r

  abbrev pub recover_source : ℕ → Option Source → AudioConfig → Runtime → Option String × Runtime
  recover_source now none cfg r = (some "current media not playable", r)
  recover_source now (some s) cfg r = replace_standalone now (s ∷ []) (pos 0) cfg r

  unfoldable pub recover_mode : ℕ → Mode → AudioConfig → Runtime → Option String × Runtime
  recover_mode now agent_playlist cfg r =
      recover_items (snapshot t r.playlist_agent_id r.playlists) cfg r
  recover_mode now standalone cfg r = recover_source now r.current_source cfg r

  -- `RecoverPlayback`; `attached` says that its trigger is an attachment.
  unfoldable pub recover_from :
      ℕ → Bool → Option ℕ → AudioConfig → Runtime → Option String × Runtime
  recover_from now attached none cfg r = recover_mode now r.mode cfg r
  recover_from now attached (some p) cfg r =
      if (r.heap p).paused
      then recover_active r
      else (none, if attached then record r { resume_on_attach = false } else r)

  unfoldable pub recover_playback : ℕ → Bool → AudioConfig → Runtime → Option String × Runtime
  recover_playback now attached cfg r =
      if attached && not r.resume_on_attach
      then (none, r)
      else recover_from now attached r.active cfg r

  abbrev pub jump_items : List Item → ℤ → AudioConfig → Runtime → Option String × Runtime
  jump_items [] delta cfg r = (some "playlist is empty", r)
  jump_items (x ∷ xs) delta cfg r =
      play_index r.playlist_agent_id (next_index r.playback_index delta (x ∷ xs)) cfg r

  -- `jumpToRelative`, and Next and Prev.
  unfoldable pub jump : ℤ → AudioConfig → Runtime → Option String × Runtime
  jump delta cfg r =
      if is_agent r.mode
      then jump_items (snapshot t r.playlist_agent_id r.playlists) delta cfg r
      else (some "current playback not in agent playlist, please execute enqueue_current first", r)

  abbrev pub play_next : AudioConfig → Runtime → Option String × Runtime
  play_next cfg r = jump (pos 1) cfg r

  abbrev pub play_prev : AudioConfig → Runtime → Option String × Runtime
  play_prev cfg r = jump (negsuc 0) cfg r

  -- `refreshPublicStateLocked`
  unfoldable pub refresh : Runtime → Runtime
  refresh r =
      let items = if is_agent r.mode then snapshot t r.playlist_agent_id r.playlists else [] in
      record r {
        playlist = items;
        current_index = if is_some (at r.playback_index items) then r.playback_index else negsuc 0;
      }
