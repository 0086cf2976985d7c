-- ===== src/Dialogue/Tests.antt =====
-- Dialogues with tools, and the theorem about them at a concrete input.
use xiaozhi_esp32_server_gol.Common.{ℕ, ◌≡◌, refl, String, Option, none, some, List, [], ◌∷◌, All}
use xiaozhi_esp32_server_gol.Common.Int.{pos, negsuc}
use xiaozhi_esp32_server_gol.Dialogue.{
  Message, role_user, role_assistant, role_tool, align, filter_messages, called, answered,
  ids_called, ids_answered, kept, copies, get_messages,
}
use xiaozhi_esp32_server_gol.Dialogue.Aligned.{Each, Paired, align-Paired}

abbrev asks : Option (Message ℕ)
asks = some (record { role = role_user; content = 1; tool_calls = []; tool_call_id = "" })

abbrev calls_of : List String → Option (Message ℕ)
calls_of ids =
    some (record { role = role_assistant; content = 2; tool_calls = ids; tool_call_id = "" })

abbrev answer_to : String → Option (Message ℕ)
answer_to id = some (record { role = role_tool; content = 3; tool_calls = []; tool_call_id = id })

abbrev talk : List (Option (Message ℕ))
talk = asks ∷ calls_of ("a" ∷ "b" ∷ []) ∷ answer_to "a" ∷ answer_to "c" ∷ none ∷ []

align-Paired_example : All (Each (Paired (align talk))) (align talk)
align-Paired_example = align-Paired talk

-- The answer without a call goes; the call without an answer stays in its message.
aligned : align talk ≡ asks ∷ calls_of ("a" ∷ "b" ∷ []) ∷ answer_to "a" ∷ []
unfolding align filter_messages called answered ids_called ids_answered kept copies
aligned = refl

-- A message with two answered calls stands there twice.
repeated :
    align (calls_of ("a" ∷ "b" ∷ []) ∷ answer_to "a" ∷ answer_to "b" ∷ [])
    ≡ calls_of ("a" ∷ "b" ∷ []) ∷ calls_of ("a" ∷ "b" ∷ []) ∷ answer_to "a" ∷ answer_to "b" ∷ []
unfolding align filter_messages called answered ids_called ids_answered kept copies
repeated = refl

-- A negative count panics.
panics : get_messages (negsuc 0) talk ≡ none
unfolding get_messages
panics = refl

-- The last two messages have an answer only, whose call is not among them.
last_two : get_messages (pos 2) (calls_of ("a" ∷ []) ∷ answer_to "a" ∷ asks ∷ []) ≡ some (asks ∷ [])
unfolding get_messages align filter_messages called answered ids_called ids_answered kept copies
last_two = refl
