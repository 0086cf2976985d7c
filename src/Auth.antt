-- ===== src/Auth.antt =====
-- internal/app/server/auth/auth.go: sessions and tokens. A session is a value in the map, whose only
-- field that changes is the time of the last access; times are in milliseconds, and the random id
-- that CreateSession makes, or its error, is an argument.
pub mod Lifetime
pub mod Tests
use xiaozhi_esp32_server_gol.Common.{
  ℕ, String, Bool, true, false, ◌&&◌, Option, none, some, List, [], ◌∷◌, length, take, drop, ltb,
  ◌==◌, if◌then◌else◌, lookup, insert, delete, string_eq, Eq, ◌≡◌, refl, ap, subst, ◌∙◌, arith,
}
use xiaozhi_esp32_server_gol.Common.Int.{ℤ, ltb_ℤ, sub_ℕ}

pub record ClientSession : Type 0 where
  pub id : String
  pub device_id : String
  pub created_at : ℕ
  pub last_seen : ℕ

-- A token is its bytes.
abbrev pub Token : Type 0
Token = List ℕ

abbrev pub token_beq : Token → Token → Bool
token_beq [] [] = true
token_beq [] (y ∷ ys) = false
token_beq (x ∷ xs) [] = false
token_beq (x ∷ xs) (y ∷ ys) = x == y && token_beq xs ys

pub record AuthManager : Type 0 where
  pub sessions : List (String × ClientSession)
  pub tokens : List (Token × String)

abbrev pub new_manager : AuthManager
new_manager = record { sessions = []; tokens = [] }

abbrev pub new_session : String → String → ℕ → ClientSession
new_session id device now = record {
  id = id;
  device_id = device;
  created_at = now;
  last_seen = now;
}

unfoldable pub create_session :
    Option String → String → ℕ → AuthManager → Option ClientSession × AuthManager
create_session none device now am = (none, am)
create_session (some id) device now am = (
  some (new_session id device now),
  record am { sessions = insert id (new_session id device now) am.sessions },
)

unfoldable pub touch :
    Option ClientSession → String → ℕ → AuthManager → Option ClientSession × AuthManager
touch none id now am = (none, am)
touch (some s) id now am = (
  some (record s { last_seen = now }),
  record am { sessions = insert id (record s { last_seen = now }) am.sessions },
)

-- `GetSession`, where `none` is the error of an unknown session.
abbrev pub get_session : String → ℕ → AuthManager → Option ClientSession × AuthManager
get_session id now am = touch (lookup id am.sessions) id now am

abbrev pub remove_session : String → AuthManager → AuthManager
remove_session id am = record am { sessions = delete id am.sessions }

abbrev pub is_old : ℕ → ℤ → ClientSession → Bool
is_old now max_age s = ltb_ℤ max_age (sub_ℕ now s.last_seen)

-- The loop of `CleanupSessions` over the entries.
unfoldable pub expire :
    ℕ
    → ℤ
    → List (String × ClientSession)
    → List (String × ClientSession)
    → List (String × ClientSession)
expire now max_age [] m = m
expire now max_age ((id, s) ∷ es) m =
    expire now max_age es (if is_old now max_age s then delete id m else m)

abbrev pub cleanup_sessions : ℕ → ℤ → AuthManager → AuthManager
cleanup_sessions now max_age am = record am {
  sessions = expire now max_age am.sessions am.sessions;
}

-- "Bearer " in ASCII.
abbrev pub bearer : Token
bearer = 66 ∷ 101 ∷ 97 ∷ 114 ∷ 101 ∷ 114 ∷ 32 ∷ []

abbrev pub strip : Token → Token
strip t = if ltb 7 (length t) && token_beq (take 7 t) bearer then drop 7 t else t

pub token_beq_eq : (a b : Token) → token_beq a b ≡ true → a ≡ b
token_beq_eq [] [] h = refl
token_beq_eq [] (y ∷ ys) h = ground (arith, h)
token_beq_eq (x ∷ xs) [] h = ground (arith, h)
token_beq_eq (x ∷ xs) (y ∷ ys) h =
    let p : x ≡ y = ground (arith, h) in
    let q = token_beq_eq xs ys (ground (arith, h)) in ap (λ z. z ∷ xs) p ∙ ap (◌∷◌ y) q

pub token_beq_self : (a : Token) → token_beq a a ≡ true
token_beq_self [] = refl
token_beq_self (x ∷ xs) = ground (arith, token_beq_self xs)

instance abbrev pub token_eq : Eq Token
token_eq = record {
  beq = token_beq;
  beq_iff = λ a b. (token_beq_eq a b, λ p. subst (λ c. token_beq a c ≡ true) p (token_beq_self a));
}

unfoldable pub register_token : Token → String → AuthManager → AuthManager
register_token t device am = record am { tokens = insert (strip t) device am.tokens }

unfoldable pub remove_token : Token → AuthManager → AuthManager
remove_token t am = record am { tokens = delete (strip t) am.tokens }

-- `ValidateToken`, whose look at the tokens stands behind a return.
abbrev pub validate_token : Token → AuthManager → Bool
validate_token t am = true
