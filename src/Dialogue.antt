-- ===== src/Dialogue.antt =====
-- internal/data/client/client.go: the dialogue of a client, whose messages are aligned before a model
-- sees them. The type of the messages is a third party's; the fields used here are modelled.
pub mod Ids
pub mod Aligned
pub mod Tests
use xiaozhi_esp32_server_gol.Common.{
  ℕ, ◌-◌, String, Bool, true, false, not, ◌&&◌, ◌||◌, Option, none, some, List, [], ◌∷◌, ◌++◌,
  length, drop, ltb, if◌then◌else◌, string_eq,
}
use xiaozhi_esp32_server_gol.Common.Int.{ℤ, pos, negsuc}

pub data Role : Type 0 where
  role_user role_assistant role_tool role_system : Role

-- `schema.Message`; `tool_calls` has the ids of the calls.
pub record Message (C : Type 0) : Type 0 where
  pub role : Role
  pub content : C
  pub tool_calls : List String
  pub tool_call_id : String

abbrev pub is_empty : String → Bool
is_empty s = string_eq.beq s ""

abbrev pub elem : String → List String → Bool
elem s [] = false
elem s (x ∷ xs) = string_eq.beq x s || elem s xs

-- Ids that are not empty.
abbrev pub proper : List String → List String
proper [] = []
proper (x ∷ xs) = if is_empty x then proper xs else x ∷ proper xs

module _ {C : Type 0} where
  -- The keys that a message adds to `validToolCallIDs` and to `usedToolCallIDs`.
  unfoldable pub ids_called : Role → Message C → List String
  ids_called role_assistant m = proper m.tool_calls
  ids_called _ m = []

  unfoldable pub ids_answered : Role → Message C → List String
  ids_answered role_tool m = proper (m.tool_call_id ∷ [])
  ids_answered _ m = []

  -- The first pass over the messages, some of which may be nil.
  unfoldable pub called : List (Option (Message C)) → List String
  called [] = []
  called (none ∷ ms) = called ms
  called (some m ∷ ms) = ids_called m.role m ++ called ms

  unfoldable pub answered : List (Option (Message C)) → List String
  answered [] = []
  answered (none ∷ ms) = answered ms
  answered (some m ∷ ms) = ids_answered m.role m ++ answered ms

  -- The loop over the calls of a message, which appends it for each that is answered.
  unfoldable pub copies : List String → Message C → List String → List (Option (Message C))
  copies used m [] = []
  copies used m (x ∷ xs) =
      let rest = copies used m xs in
      if is_empty x then rest else if elem x used then some m ∷ rest else rest

  -- What the second pass appends for a message.
  unfoldable pub kept :
      List String → List String → Role → List String → Message C → List (Option (Message C))
  kept valid used role_tool calls m =
      if not (is_empty m.tool_call_id) && elem m.tool_call_id valid then some m ∷ [] else []
  kept valid used role_assistant [] m = some m ∷ []
  kept valid used role_assistant (c ∷ cs) m = copies used m (c ∷ cs)
  kept valid used role_user calls m = some m ∷ []
  kept valid used role_system calls m = some m ∷ []

  unfoldable pub filter_messages :
      List String → List String → List (Option (Message C)) → List (Option (Message C))
  filter_messages valid used [] = []
  filter_messages valid used (none ∷ ms) = filter_messages valid used ms
  filter_messages valid used (some m ∷ ms) =
      kept valid used m.role m.tool_calls m ++ filter_messages valid used ms

  -- `AlignToolMessages`
  unfoldable pub align : List (Option (Message C)) → List (Option (Message C))
  align ms = filter_messages (called ms) (answered ms) ms

  -- `Dialogue.Messages` under AddMessage, InitMessages and GetMessages, where `none` is the panic of
  -- a slice that begins behind the end.
  abbrev pub add_message :
      Option (Message C) → List (Option (Message C)) → List (Option (Message C))
  add_message none ms = ms
  add_message (some m) ms = ms ++ some m ∷ []

  abbrev pub init_messages : List (Option (Message C)) → List (Option (Message C))
  init_messages ms = align ms

  unfoldable pub get_messages : ℤ → List (Option (Message C)) → Option (List (Option (Message C)))
  get_messages count [] = some []
  get_messages (negsuc n) (m ∷ ms) = none
  get_messages (pos n) (m ∷ ms) = some (align (drop (length (m ∷ ms) - n) (m ∷ ms)))
