-- ===== src/Tts.antt =====
-- internal/app/server/chat/tts.go: the manager of the speech output of a session, and here the
-- elements of the audio queue between the synthesis of speech and the sender.
pub mod Cycle
pub mod Sender
pub mod Items
pub mod Synthesis
pub mod Tests
use xiaozhi_esp32_server_gol.Common.{ℕ, Bool, true, false, Option, none, List}

pub data Kind : Type 0 where
  frame sentence_start sentence_end tts_start tts_stop media_frame : Kind

-- `AudioQueueElem` for frames `F`, texts `T` and errors `E`. Callbacks are named by numbers, nil is
-- `none`, and so is the text or the frame that an element does not set.
pub record Elem (F T E : Type 0) : Type 0 where
  pub kind : Kind
  pub data_of : Option F
  pub text : Option T
  pub err : Option E
  pub is_start : Bool
  pub generation : ℕ
  pub on_start : Option ℕ
  pub on_end : Option ℕ
  pub on_error : Option ℕ

module _ {F T E : Type 0} where
  abbrev pub plain : Kind → Elem F T E
  plain k = record {
    kind = k;
    data_of = none;
    text = none;
    err = none;
    is_start = false;
    generation = 0;
    on_start = none;
    on_end = none;
    on_error = none;
  }
