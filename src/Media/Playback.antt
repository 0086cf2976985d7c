-- ===== src/Media/Playback.antt =====
-- internal/app/server/chat/media_player.go: runPlayback, the goroutine of a playback, as steps between
-- which others act. A step is a section under the lock, a call of the bridge, or a wait; what the
-- call or the wait gave is an argument.
use xiaozhi_esp32_server_gol.Common.{
  ℕ, String, Bool, true, false, ◌&&◌, Option, none, some, List, ◌∷◌, if◌then◌else◌,
}
use xiaozhi_esp32_server_gol.Common.Int.{ℤ, pos, negsuc, ◌+ℤ◌}
use xiaozhi_esp32_server_gol.Media.Sources.{Item, Texts, at, derive_title, snapshot}
use xiaozhi_esp32_server_gol.Media.{
  Runtime, Status, status_playing, status_paused, status_stopped, status_error, reason_none,
  Attachment, ends, set_held, is_active, is_attachment, is_some, keep_for_attach, release,
}
use xiaozhi_esp32_server_gol.Media.Control.{is_agent, refresh}

-- The locals of streamMediaAudio and of the loop around it: `started_on` is the attachment that has
-- the start of the sentence.
pub record Track : Type 0 where
  pub index : ℤ
  pub item : Item
  pub started_on : Option Attachment
  pub enqueued_frames : Bool

-- Where the goroutine is.
pub data Phase : Type 0 where
  entering leaving gone : Phase
  gating preparing : ℤ → Phase
  opening resting pulling holding attaching advancing ending : Track → Phase
  claiming begun starting writing : Track → Attachment → Phase
  awaiting : Track → Phase

-- What a call or a wait gives: a result, an error, the error of a context that ended, a frame of
-- that many bytes, or the end of the stream.
pub data Answer : Type 0 where
  ok cancels closes : Answer
  fails : String → Answer
  frame : ℕ → Answer

abbrev pub add_suc : ℤ → ℤ
add_suc i = i +ℤ pos 1

-- `markPlaybackError` and `markPlaybackStopped`
unfoldable pub mark : Texts → ℕ → Status → String → Runtime → Runtime
mark t p status err r =
    if is_active p r.active
    then refresh t (record r {
      active = none;
      pause_reason = reason_none;
      resume_on_attach = false;
      status = status;
      err_msg = err;
    })
    else r

-- `currentPlaybackQueueLocked`
abbrev pub queue_of : Texts → Runtime → List Item
queue_of t r =
    if is_agent r.mode then snapshot t r.playlist_agent_id r.playlists else r.standalone_items

abbrev pub title_of : Texts → Track → String
title_of t k = derive_title t k.item.source

-- `currentIndexForActive`, on the playback's index, and the test of the loop.
unfoldable pub enter : ℕ → ℤ → Runtime → Phase × Runtime
enter p (pos i) r = (if is_active p r.active then gating (pos i) else leaving, r)
enter p (negsuc i) r = (leaving, r)

-- The failure of a track or a wait, in runPlayback.
abbrev pub fail_with : Texts → ℕ → Answer → Runtime → Phase × Runtime
fail_with t p (fails e) r = (leaving, mark t p status_error e r)
fail_with t p _ r = (leaving, mark t p status_stopped "" r)

-- `waitIfPaused`, and then the phase `next`.
unfoldable pub wait_if_paused : Texts → ℕ → Phase → Phase → Runtime → Phase × Runtime
wait_if_paused t p here next r =
    if (r.heap p).paused
    then if (r.heap p).cancelled then fail_with t p cancels r else (here, r)
    else (next, r)

-- `prepareTrack` with the item at the index.
unfoldable pub prepare : Texts → ℕ → ℤ → Option Item → Runtime → Phase × Runtime
prepare t p i none r = (leaving, r)
prepare t p i (some item) r =
    if is_active p r.active
    then (
      opening (record { index = i; item = item; started_on = none; enqueued_frames = false }),
      refresh t (record r {
        playback_index = i;
        current_source = some item.source;
        current_title = item.source.title;
        current_source_type = item.source.source_type;
        position_ms = 0;
        err_msg = "";
        status = if (r.heap p).paused then status_paused else status_playing;
      }),
    )
    else (leaving, r)

abbrev pub lose_exclusive : ℕ → Attachment → Runtime → Runtime
lose_exclusive p a r =
    if is_attachment a r.exclusive_attachment
    then release (some a) (record (set_held false p r) { exclusive_attachment = none })
    else r

-- `handleAttachmentFailure`, which the bridge also calls back.
unfoldable pub fail_attachment : ℕ → Attachment → Runtime → Runtime
fail_attachment p a r =
    if is_attachment a r.attachment && is_active p r.active
    then record (keep_for_attach (some p) (lose_exclusive p a r)) { attachment = none }
    else r

-- The part of `ensureExclusivePlayback` under the lock, behind BeginExclusiveMediaPlayback.
unfoldable pub claim : Texts → ℕ → Track → Attachment → Runtime → Phase × Runtime
claim t p k a r =
    let old = if is_attachment a r.exclusive_attachment then none else r.exclusive_attachment in
    if is_active p r.active && is_attachment a r.attachment
    then (starting k a, release old (record (set_held true p r) { exclusive_attachment = some a }))
    else fail_with t p cancels (record r { calls = ends a.ref ∷ r.calls })

-- `advanceAfterTrack` with the next item, at `i`.
unfoldable pub advance : Texts → ℕ → ℤ → Option Item → Runtime → Phase × Runtime
advance t p i none r =
    if is_active p r.active
    then (
      leaving,
      refresh t (record r {
        active = none;
        pause_reason = reason_none;
        resume_on_attach = false;
        status = status_stopped;
        position_ms = 0;
      }),
    )
    else (leaving, r)
advance t p i (some item) r =
    if is_active p r.active
    then (
      gating i,
      refresh t (record r {
        playback_index = i;
        current_source = some item.source;
        current_title = item.source.title;
        current_source_type = item.source.source_type;
        position_ms = 0;
        status = status_playing;
      }),
    )
    else (leaving, r)

abbrev pub following : Texts → Track → Runtime → ℤ
following t k r =
    add_suc (if is_some (at r.playback_index (queue_of t r)) then r.playback_index else k.index)

-- `releaseExclusivePlayback`
unfoldable pub leave : ℕ → Runtime → Phase × Runtime
leave p r = (
  gone,
  if (r.heap p).exclusive_held
      then release r.exclusive_attachment
          (record (set_held false p r) { exclusive_attachment = none })
      else r,
)
