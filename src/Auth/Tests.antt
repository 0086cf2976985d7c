-- ===== src/Auth/Tests.antt =====
-- Sessions of two devices, and the theorem about them at a concrete input.
use xiaozhi_esp32_server_gol.Common.{
  ◌≡◌, refl, true, none, some, List, [], ◌∷◌, ◌++◌, lookup, insert, delete, string_eq,
}
use xiaozhi_esp32_server_gol.Common.Int.{pos}
use xiaozhi_esp32_server_gol.Auth.{
  new_manager, create_session, touch, expire, cleanup_sessions, validate_token, bearer,
  register_token, remove_token,
}
use xiaozhi_esp32_server_gol.Auth.Lifetime.{
  Call, creates, gets, cleans, run, handle, seen, run-accesses,
}

-- The first session is accessed again at 60.
abbrev calls : List Call
calls = creates (some "a") "d1" 10 ∷ creates (some "b") "d2" 20 ∷ gets "a" 60 ∷ []

run-accesses_example :
    seen (lookup "a" (run (calls ++ cleans 100 (pos 50) ∷ []) new_manager).sessions) ≡ some 60
run-accesses_example = run-accesses (calls ++ cleans 100 (pos 50) ∷ []) "a"

removes_b : lookup "b" (cleanup_sessions 100 (pos 50) (run calls new_manager)).sessions ≡ none
unfolding run handle create_session touch expire lookup insert delete
removes_b = refl

-- A token that nobody registered is valid.
any_token : validate_token (1 ∷ []) new_manager ≡ true
any_token = refl

-- The prefix makes no difference to the tokens.
prefix_dropped :
    (remove_token (9 ∷ []) (register_token (bearer ++ 9 ∷ []) "d1" new_manager)).tokens ≡ []
unfolding remove_token register_token insert delete
prefix_dropped = refl
