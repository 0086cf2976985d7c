-- ===== src/Media/Append.antt =====
-- internal/app/server/chat/media_player.go: a request that adds the current media to the playlist of an
-- agent.
use xiaozhi_esp32_server_gol.Common.{
  ℕ, ◌-◌, String, Bool, true, false, ◌&&◌, Option, none, some, List, length, if◌then◌else◌,
  string_eq,
}
use xiaozhi_esp32_server_gol.Common.Int.{ℤ, pos}
use xiaozhi_esp32_server_gol.Media.Sources.{
  Source, Item, Texts, inline_audio, SourceType, Playlists, at, append_to_playlist,
}
use xiaozhi_esp32_server_gol.Media.{Runtime, Status, agent_playlist, is_some}
use xiaozhi_esp32_server_gol.Media.Control.{is_agent}

-- What AppendCurrentToAgentPlaylist returns.
pub record Appended : Type 0 where
  pub added_title : String
  pub playlist_length : ℕ
  pub index : ℤ
  pub status : Status
  pub source_type : SourceType
  pub position : ℕ

abbrev pub is_inline : SourceType → Bool
is_inline inline_audio = true
is_inline _ = false

module _ (t : Texts) where
  -- Behind a successful append, of `item` at the end of `items`.
  unfoldable pub join_playlist : String → Source → Item → List Item → Runtime → Appended × Runtime
  join_playlist a s item items r =
      let stays =
        is_agent r.mode
        && string_eq.beq r.playlist_agent_id a
        && is_some (at r.playback_index items) in
      let i = if stays then r.playback_index else pos (length items - 1) in
      (
        record {
          added_title = item.source.title;
          playlist_length = length items;
          index = i;
          status = r.status;
          source_type = item.source.source_type;
          position = r.position_ms;
        },
        record r {
          mode = agent_playlist;
          playlist_agent_id = a;
          playback_index = i;
          current_source = some s;
          playlist = items;
          current_index = i;
          current_title = s.title;
          current_source_type = s.source_type;
        },
      )

  abbrev pub append_source :
      Option ((Item × List Item) × Playlists)
      → String
      → Source
      → Runtime
      → Option Appended × Runtime
  append_source none a s r = (none, r)
  append_source (some ((item, items), m)) a s r =
      let (v, r') = join_playlist a s item items (record r { playlists = m }) in (some v, r')

  abbrev pub append_found : ℕ → String → Option Source → Runtime → Option Appended × Runtime
  append_found now a none r = (none, r)
  append_found now a (some s) r =
      if is_inline s.source_type
      then (none, r)
      else append_source (append_to_playlist t now a s r.playlists) a s r

  -- `AppendCurrentToAgentPlaylist`; `none` is an error: there is no media, it is inline, or the
  -- agent has no id.
  unfoldable pub append_current : ℕ → String → Runtime → Option Appended × Runtime
  append_current now agent r = append_found now (t.trim_space agent) r.current_source r
