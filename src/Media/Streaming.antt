-- ===== src/Media/Streaming.antt =====
-- internal/app/server/chat/media_player.go: streamMediaAudio and the loop of runPlayback as steps, one
-- function for each place where the goroutine of the playback `p` can be.
use xiaozhi_esp32_server_gol.Common.{
  ℕ, zero, suc, ◌+◌, Bool, true, ◌&&◌, ◌||◌, Option, none, some, ◌∷◌, if◌then◌else◌,
}
use xiaozhi_esp32_server_gol.Common.Int.{pos, negsuc}
use xiaozhi_esp32_server_gol.Media.Sources.{Texts, is_empty, at}
use xiaozhi_esp32_server_gol.Media.{
  Runtime, Attachment, Call, begins, starts_sentence, sends_frame, ends_sentence, is_active,
  is_attachment,
}
use xiaozhi_esp32_server_gol.Media.Playback.{
  Track, Phase, entering, leaving, gone, gating, preparing, opening, resting, pulling, holding,
  attaching, advancing, ending, claiming, begun, starting, writing, awaiting, Answer, ok, cancels,
  closes, fails, frame, fail_with, wait_if_paused, enter, prepare, fail_attachment, claim, advance,
  following, leave, queue_of, title_of,
}

-- Whether the exclusive playback is that of `p` on `a` already.
abbrev pub is_same : ℕ → Attachment → Runtime → Bool
is_same p a r =
    is_active p r.active && (is_attachment a r.exclusive_attachment && (r.heap p).exclusive_held)

abbrev pub frame_ms : Runtime → ℕ
frame_ms r = elim r.audio_config.frame_duration [
  | pos zero ↦ 60
  | pos (suc n) ↦ suc n
  | negsuc n ↦ 60
]

-- `incrementPlaybackPosition`
abbrev pub move : ℕ → Runtime → Runtime
move p r = if is_active p r.active then record r { position_ms = r.position_ms + frame_ms r } else r

abbrev pub log_call : Call → Runtime → Runtime
log_call c r = record r { calls = c ∷ r.calls }

-- A failed call of the bridge: the frame is tried again.
abbrev pub retry : ℕ → Track → Attachment → Runtime → Phase × Runtime
retry p k a r = (holding k, fail_attachment p a r)

module _ (t : Texts) (p : ℕ) where
  -- `openSourceAudioStream`
  abbrev pub open_stream : Track → Answer → Runtime → Phase × Runtime
  open_stream k ok r = (resting k, r)
  open_stream k v r = fail_with t p v r

  -- What the audio channel gives, or the end of the context.
  abbrev pub pull : Track → Answer → Runtime → Phase × Runtime
  pull k (frame zero) r = (resting k, r)
  pull k (frame (suc n)) r = (holding k, r)
  pull k cancels r = if (r.heap p).cancelled then fail_with t p cancels r else (pulling k, r)
  pull k closes r = (if k.enqueued_frames then ending k else advancing k, r)
  pull k ok r = (pulling k, r)
  pull k (fails e) r = (pulling k, r)

  -- `waitForAttachment`, of a playback that is the current one.
  abbrev pub wait_for : Track → Option Attachment → Runtime → Phase × Runtime
  wait_for k (some a) r = (claiming k a, r)
  wait_for k none r = if (r.heap p).cancelled then fail_with t p cancels r else (attaching k, r)

  -- BeginExclusiveMediaPlayback
  abbrev pub begin : Track → Attachment → Answer → Runtime → Phase × Runtime
  begin k a ok r = (begun k a, log_call (begins a.ref) r)
  begin k a cancels r = fail_with t p cancels r
  begin k a closes r = retry p k a r
  begin k a (fails e) r = retry p k a r
  begin k a (frame n) r = retry p k a r

  abbrev pub start_sentence : Track → Attachment → Answer → Runtime → Phase × Runtime
  start_sentence k a ok r =
      (writing (record k { started_on = some a }) a, log_call (starts_sentence a.ref) r)
  start_sentence k a v r = retry p k a r

  abbrev pub send_frame : Track → Attachment → Answer → Runtime → Phase × Runtime
  send_frame k a ok r =
      (resting (record k { enqueued_frames = true }), move p (log_call (sends_frame a.ref) r))
  send_frame k a v r = retry p k a r

  -- The start of `waitMediaSentenceEnd`, of a playback that is the current one, and its wait.
  abbrev pub end_sentence : Track → Option Attachment → Answer → Runtime → Phase × Runtime
  end_sentence k none v r = (advancing k, r)
  end_sentence k (some a) ok r = (awaiting k, log_call (ends_sentence a.ref) r)
  end_sentence k (some a) v r = fail_with t p v (fail_attachment p a r)

  abbrev pub await_end : Track → Answer → Runtime → Phase × Runtime
  await_end k ok r = (advancing k, r)
  await_end k v r = fail_with t p v r

  -- A step from a phase, with the answer where it needs one.
  unfoldable pub step : Phase → Answer → Runtime → Phase × Runtime
  step entering v r = enter p r.playback_index r
  step (gating i) v r = wait_if_paused t p (gating i) (preparing i) r
  step (preparing i) v r = prepare t p i (at i (queue_of t r)) r
  step (opening k) v r = open_stream k v r
  step (resting k) v r = wait_if_paused t p (resting k) (pulling k) r
  step (pulling k) v r = pull k v r
  step (holding k) v r = wait_if_paused t p (holding k) (attaching k) r
  step (attaching k) v r =
      if is_active p r.active then wait_for k r.attachment r else fail_with t p cancels r
  step (claiming k a) v r = if is_same p a r then (starting k a, r) else begin k a v r
  step (begun k a) v r = claim t p k a r
  step (starting k a) v r =
      if is_attachment a k.started_on || is_empty (title_of t k)
      then (writing k a, r)
      else start_sentence k a v r
  step (writing k a) v r = send_frame k a v r
  step (ending k) v r =
      if is_active p r.active then end_sentence k r.attachment v r else (advancing k, r)
  step (awaiting k) v r = await_end k v r
  step (advancing k) v r = let i = following t k r in advance t p i (at i (queue_of t r)) r
  step leaving v r = leave p r
  step gone v r = (gone, r)
