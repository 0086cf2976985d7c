-- ===== src/Media.antt =====
-- internal/app/server/chat/media_player.go: the media player of a device, deviceMediaRuntime, and what
-- a user's requests and the coming and going of sessions do to it. Media/Playback has the goroutine
-- that plays. A method runs as a whole; times of updates are left out. The `activeMediaPlayback`
-- objects are cells of a heap, an attachment is known by its number.
pub mod Sources
pub mod Control
pub mod Append
pub mod Playback
pub mod Streaming
pub mod System
pub mod Jumps
pub mod Gate
pub mod Tests
use xiaozhi_esp32_server_gol.Common.{
  ℕ, suc, String, Bool, true, false, not, ◌&&◌, Option, none, some, List, [], ◌∷◌, ◌==◌,
  if◌then◌else◌,
}
use xiaozhi_esp32_server_gol.Common.Int.{ℤ, pos, negsuc}
use xiaozhi_esp32_server_gol.Media.Sources.{
  SourceType, source_unset, mcp_resource, http_url, local_file, inline_audio, Source, Item,
  AudioConfig, Playlists,
}

pub data Status : Type 0 where
  status_idle status_playing status_paused status_stopped status_error : Status

-- `mediaPlaybackMode`; `standalone` also stands for the mode of a new runtime.
pub data Mode : Type 0 where
  standalone agent_playlist : Mode

pub data PauseReason : Type 0 where
  reason_none reason_user reason_interrupt : PauseReason

-- `activeMediaPlayback`: `paused` says that `resumeCh` is open, `cancelled` that of its context.
pub record Active : Type 0 where
  pub paused : Bool
  pub exclusive_held : Bool
  pub cancelled : Bool

-- `mediaSessionAttachment`, made new by each attachSession.
pub record Attachment : Type 0 where
  pub ref : ℕ
  pub session : ℕ

-- The calls of an attachment's bridge that succeeded.
pub data Call : Type 0 where
  begins ends starts_sentence sends_frame ends_sentence : ℕ → Call

-- `deviceMediaRuntime` with its `state`, the agents' playlists, the playbacks and the number of the
-- attachments made so far, and the calls of bridges, the latest first. An index of -1 is none.
pub record Runtime : Type 0 where
  pub status : Status
  pub playlist : List Item
  pub current_index : ℤ
  pub current_title : String
  pub current_source_type : SourceType
  pub position_ms : ℕ
  pub err_msg : String
  pub mode : Mode
  pub playlist_agent_id : String
  pub standalone_items : List Item
  pub playback_index : ℤ
  pub audio_config : AudioConfig
  pub current_source : Option Source
  pub active : Option ℕ
  pub pause_reason : PauseReason
  pub attachment : Option Attachment
  pub resume_on_attach : Bool
  pub exclusive_attachment : Option Attachment
  pub playlists : Playlists
  pub heap : ℕ → Active
  pub next : ℕ
  pub made : ℕ
  pub calls : List Call

-- `newActiveMediaPlayback`
abbrev pub new_active : Active
new_active = record { paused = false; exclusive_held = false; cancelled = false }

-- `newDeviceMediaRuntime`
abbrev pub new_runtime : Runtime
new_runtime = record {
  status = status_idle;
  playlist = [];
  current_index = negsuc 0;
  current_title = "";
  current_source_type = source_unset;
  position_ms = 0;
  err_msg = "";
  mode = standalone;
  playlist_agent_id = "";
  standalone_items = [];
  playback_index = negsuc 0;
  audio_config = record { sample_rate = pos 0; frame_duration = pos 0 };
  current_source = none;
  active = none;
  pause_reason = reason_none;
  attachment = none;
  resume_on_attach = false;
  exclusive_attachment = none;
  playlists = [];
  heap = λ p. new_active;
  next = 0;
  made = 0;
  calls = [];
}

abbrev pub write : {A : Type 0} → (ℕ → A) → ℕ → A → ℕ → A
write f p x q = if q == p then x else f q

-- `setPaused`, whose result says whether `paused` was other before, and `setExclusiveHeld`.
abbrev pub set_paused : Bool → ℕ → Runtime → Runtime
set_paused on p r = record r { heap = write r.heap p (record (r.heap p) { paused = on }) }

abbrev pub set_held : Bool → ℕ → Runtime → Runtime
set_held on p r = record r { heap = write r.heap p (record (r.heap p) { exclusive_held = on }) }

abbrev pub is_some : {A : Type 0} → Option A → Bool
is_some none = false
is_some (some x) = true

abbrev pub is_active : ℕ → Option ℕ → Bool
is_active p none = false
is_active p (some q) = q == p

abbrev pub is_attachment : Attachment → Option Attachment → Bool
is_attachment a none = false
is_attachment a (some b) = b.ref == a.ref

abbrev pub is_playing : Status → Bool
is_playing status_playing = true
is_playing _ = false

abbrev pub is_paused : Status → Bool
is_paused status_paused = true
is_paused _ = false

-- `releaseMediaAttachment`
unfoldable pub release : Option Attachment → Runtime → Runtime
release none r = r
release (some a) r = record r { calls = ends a.ref ∷ r.calls }

-- `stopOldPlayback` but for the wait, of at most two seconds.
unfoldable pub stop_old : Option ℕ → Runtime → Runtime
stop_old none r = r
stop_old (some p) r = record r { heap = write r.heap p (record (r.heap p) { cancelled = true }) }

unfoldable pub drop_held : Option ℕ → Runtime → Runtime
drop_held none r = r
drop_held (some p) r = set_held false p r

-- `replaceActivePlaybackLocked` by a new playback, but for what it returns.
unfoldable pub replace_active : Runtime → Runtime
replace_active r =
    let s = drop_held r.active r in
    record s {
      heap = write s.heap s.next new_active;
      active = some s.next;
      exclusive_attachment = none;
      next = suc s.next;
    }

-- `pausePlayback` with the current playback and the attachment that is held.
unfoldable pub pause_at :
    Option ℕ → Option Attachment → Bool → PauseReason → Runtime → Option String × Runtime
pause_at none held require_active reason r =
    (if require_active then some "current media not playing" else none, r)
pause_at (some p) held require_active reason r = (
  none,
  release held (record (set_held false p (set_paused true p r)) {
    exclusive_attachment = none;
    pause_reason = reason;
    resume_on_attach = false;
    status = status_paused;
  }),
)

abbrev pub pause_playback : Bool → PauseReason → Runtime → Option String × Runtime
pause_playback require_active reason r =
    pause_at r.active r.exclusive_attachment require_active reason r

abbrev pub pause : Runtime → Option String × Runtime
pause r = pause_playback true reason_user r

abbrev pub suspend : Runtime → Option String × Runtime
suspend r = pause_playback false reason_interrupt r

-- `recoverActivePlayback`
unfoldable pub recover_at : Option ℕ → Option Attachment → Runtime → Option String × Runtime
recover_at none a r = (some "current media not playing", r)
recover_at (some p) none r = (some "no available playback channel", r)
recover_at (some p) (some a) r = (
  none,
  if (r.heap p).paused
      then record (set_paused false p r) {
        pause_reason = reason_none;
        resume_on_attach = false;
        status = status_playing;
      }
      else record r { resume_on_attach = false },
)

abbrev pub recover_active : Runtime → Option String × Runtime
recover_active r = recover_at r.active r.attachment r

abbrev pub is_interrupt : PauseReason → Bool
is_interrupt reason_interrupt = true
is_interrupt _ = false

-- `ResumeIfInterruptedPause`: whether playback went on, or the error.
unfoldable pub resume_if_interrupted : Runtime → (Bool × Option String) × Runtime
resume_if_interrupted r =
    let (e, s) = recover_active r in
    if is_some r.active && is_interrupt r.pause_reason
    then ((not (is_some e), e), s)
    else ((false, none), r)

-- `Stop`
unfoldable pub stop : Runtime → Runtime
stop r = stop_old r.active (
    release r.exclusive_attachment (record (drop_held r.active r) {
      active = none;
      pause_reason = reason_none;
      exclusive_attachment = none;
      resume_on_attach = false;
      status = status_stopped;
      position_ms = 0;
      err_msg = "";
    }))

-- A new attachment of the session.
abbrev pub add_attachment : ℕ → Runtime → Runtime
add_attachment session r = record r {
  attachment = some (record { ref = r.made; session = session });
  made = suc r.made;
}

-- `attachSession` of a session that has its managers; its goroutine, where `resume_on_attach` is set,
-- is a call of RecoverPlayback later.
unfoldable pub attach : ℕ → Runtime → Runtime
attach session r = elim r.attachment [
  | some a ↦ if a.session == session then r else add_attachment session r
  | none ↦ add_attachment session r
]

-- The end of `detachSession`: the attachment goes, and with it the exclusive playback on it.
abbrev pub give_up : Attachment → Option ℕ → Option Attachment → Runtime → Runtime
give_up a active held r =
    let s = record r { attachment = none } in
    if is_attachment a held
    then release (some a) (record (drop_held active s) { exclusive_attachment = none })
    else s

-- Where a playback that plays waits for the next attachment.
abbrev pub keep_for_attach : Option ℕ → Runtime → Runtime
keep_for_attach none r = r
keep_for_attach (some p) r =
    if is_playing r.status
    then record (set_paused true p r) { status = status_paused; resume_on_attach = true }
    else r

unfoldable pub detach_from : Option Attachment → ℕ → Bool → Runtime → Runtime
detach_from none session preserve r = r
detach_from (some a) session preserve r =
    let s = if preserve then keep_for_attach r.active r else r in
    if a.session == session then give_up a s.active s.exclusive_attachment s else r

abbrev pub detach : ℕ → Bool → Runtime → Runtime
detach session preserve r = detach_from r.attachment session preserve r

abbrev pub is_mcp_audio : SourceType → Bool
is_mcp_audio t = elim t [
  | mcp_resource ↦ true
  | inline_audio ↦ true
  | http_url ↦ false
  | local_file ↦ false
  | source_unset ↦ false
]
