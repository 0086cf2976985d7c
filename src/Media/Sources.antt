-- ===== src/Media/Sources.antt =====
-- internal/app/server/chat/media_player.go: sources of media, playlists and the audio settings. A
-- copy of a source is the source itself; the arguments and the client that a source of an MCP
-- server is read with are left out.
use xiaozhi_esp32_server_gol.Common.{
  ℕ, suc, String, Bool, not, Option, none, some, List, [], ◌∷◌, ◌++◌, get_elem?, if◌then◌else◌,
  lookup, insert, string_eq,
}
use xiaozhi_esp32_server_gol.Common.Int.{ℤ, pos, negsuc, ltb_ℤ}

-- `MediaSourceType`; `source_unset` is the empty string.
pub data SourceType : Type 0 where
  mcp_resource http_url local_file inline_audio source_unset : SourceType

pub record Mcp : Type 0 where
  pub server_name : String
  pub endpoint_snapshot : String
  pub tool_name : String
  pub resource_uri : String
  pub direct_audio_url : String
  pub description : String
  pub page_size : ℤ

-- `MediaSourceDescriptor`; the pointers may be nil.
pub record Source : Type 0 where
  pub id : String
  pub title : String
  pub mime_type : String
  pub source_type : SourceType
  pub meta : List (String × String)
  pub mcp : Option Mcp
  pub http : Option String
  pub local : Option String
  pub inline : Option (List ℕ)

pub record Item : Type 0 where
  pub id : String
  pub source : Source
  pub added_at : ℕ

pub record AudioConfig : Type 0 where
  pub sample_rate : ℤ
  pub frame_duration : ℤ

-- What is used of the packages strings, net/url and fmt: TrimSpace, the path of a URL that parses,
-- the part of a text behind its last slash, and the ids that are made from the time.
pub record Texts : Type 0 where
  pub trim_space : String → String
  pub url_path : String → Option String
  pub last_part : String → String
  pub media_id : ℕ → String
  pub media_id_at : ℕ → ℕ → String

abbrev pub is_empty : String → Bool
is_empty s = string_eq.beq s ""

-- The element at a Go index.
abbrev pub at : {A : Type 0} → ℤ → List A → Option A
at (pos i) xs = get_elem? xs i
at (negsuc i) xs = none

abbrev pub default_sample_rate : ℤ
default_sample_rate = pos 16000

abbrev pub default_frame_duration : ℤ
default_frame_duration = pos 60

-- `if primary > 0 { cfg = primary }`, and then `if cfg <= 0 { cfg = default }`.
abbrev pub choose : ℤ → ℤ → ℤ → ℤ
choose primary fallback default =
    let cfg = if ltb_ℤ (pos 0) primary then primary else fallback in
    if ltb_ℤ (pos 0) cfg then cfg else default

unfoldable pub normalize_config : AudioConfig → AudioConfig → AudioConfig
normalize_config primary fallback = record {
  sample_rate = choose primary.sample_rate fallback.sample_rate default_sample_rate;
  frame_duration = choose primary.frame_duration fallback.frame_duration default_frame_duration;
}

module _ (t : Texts) where
  abbrev pub http_title : Option String → String
  http_title none = "unknown audio"
  http_title (some u) = elim (t.url_path u) [
    | none ↦ t.trim_space u
    | some p ↦
        if is_empty (t.trim_space p)
        then t.trim_space u
        else t.trim_space (t.last_part (t.trim_space p))
  ]

  abbrev pub is_blank : String → Bool
  is_blank s = is_empty (t.trim_space s)

  abbrev pub mcp_title : Option Mcp → String
  mcp_title none = "unknown audio"
  mcp_title (some m) =
      if not (is_blank m.description)
      then t.trim_space m.description
      else if not (is_blank m.direct_audio_url)
      then t.trim_space m.direct_audio_url
      else t.trim_space m.resource_uri

  abbrev pub type_title : SourceType → Source → String
  type_title http_url s = http_title s.http
  type_title local_file s = elim s.local [ none ↦ "unknown audio" | some p ↦ t.trim_space p ]
  type_title mcp_resource s = mcp_title s.mcp
  type_title inline_audio s = "unknown audio"
  type_title source_unset s = "unknown audio"

  unfoldable pub derive_title : Source → String
  derive_title s =
      if is_empty (t.trim_space s.title) then type_title s.source_type s else t.trim_space s.title

  -- The item for a source, with the id that it gets where it has none.
  abbrev pub new_item : String → ℕ → Source → Item
  new_item fresh now s =
      let c = record s {
        id = if is_empty s.id then fresh else s.id;
        title = if is_empty s.title then derive_title s else s.title;
      } in
      record { id = c.id; source = c; added_at = now }

  abbrev pub build_from : ℕ → ℕ → List Source → List Item
  build_from i now [] = []
  build_from i now (s ∷ ss) = new_item (t.media_id_at now i) now s ∷ build_from (suc i) now ss

  -- `buildMediaPlaylistItems`
  unfoldable pub build_items : ℕ → List Source → List Item
  build_items now ss = build_from 0 now ss

-- The agents' playlists, which all devices share. A list that does not exist is created empty.
abbrev pub Playlists : Type 0
Playlists = List (String × List Item)

abbrev pub list_of : String → Playlists → List Item
list_of agent m = elim (lookup agent m) [ none ↦ [] | some items ↦ items ]

module _ (t : Texts) where
  unfoldable pub snapshot : String → Playlists → List Item
  snapshot agent m = let a = t.trim_space agent in if is_empty a then [] else list_of a m

  -- `appendToAgentPlaylist`, which has the error of an empty agent id.
  unfoldable pub append_to_playlist :
      ℕ → String → Source → Playlists → Option ((Item × List Item) × Playlists)
  append_to_playlist now agent s m =
      let a = t.trim_space agent in
      let item = new_item t (t.media_id now) now s in
      let items = list_of a m ++ item ∷ [] in
      if is_empty a then none else some ((item, items), insert a items m)
