-- ===== src/Auth/Lifetime.antt =====
-- internal/app/server/auth/auth.go: how long a session stays.
use xiaozhi_esp32_server_gol.Common.{
  ℕ, ◌≡◌, ◌≢◌, refl, String, Bool, true, false, Option, none, some, List, [], ◌∷◌, All, Distinct,
  arith, if◌then◌else◌, if_both, lookup, delete, keys, lookup-delete, lookup-insert, Bool-cases,
  inl, inr, subst, sym, ap, ◌∙◌, insert-Distinct, delete-Distinct, string_eq,
}
use xiaozhi_esp32_server_gol.Common.Int.{ℤ, ltb_ℤ, sub_ℕ}
use xiaozhi_esp32_server_gol.Auth.{
  ClientSession, AuthManager, new_manager, new_session, create_session, touch, get_session,
  remove_session, is_old, expire, cleanup_sessions,
}

-- What a cleanup leaves of a session.
abbrev pub unless_old : ℕ → ℤ → Option ClientSession → Option ClientSession → Option ClientSession
unless_old now age none x = x
unless_old now age (some s) x = if is_old now age s then none else x

missing :
    (k : String) (m : List (String × ClientSession)) → All (λ y. y ≢ k) (keys m) → lookup k m ≡ none
unfolding lookup
missing k [] h = refl
missing k ((j, v) ∷ m) (n, h) = ground (arith, string_eq.beq_iff j k, n, missing k m h)

lookup-if :
    (k : String) (b : Bool) (m n : List (String × ClientSession))
    → lookup k (if b then m else n) ≡ (if b then lookup k m else lookup k n)
lookup-if k true m n = refl
lookup-if k false m n = refl

lookup-expire :
    (now : ℕ) (age : ℤ) (k : String) (es m : List (String × ClientSession))
    → Distinct (keys es)
    → lookup k (expire now age es m) ≡ unless_old now age (lookup k es) (lookup k m)
unfolding expire lookup
lookup-expire now age k [] m d = refl
lookup-expire now age k ((j, s) ∷ es) m (n, d) =
    let z = if is_old now age s then delete j m else m in
    let rest = lookup-expire now age k es z d in
    let left = lookup-if k (is_old now age s) (delete j m) m in
    ground (arith, rest, left, missing j es n, lookup-delete j k m, string_eq.beq_iff j k)

-- Calls of the manager.
pub data Call : Type 0 where
  creates : Option String → String → ℕ → Call
  gets : String → ℕ → Call
  removes : String → Call
  cleans : ℕ → ℤ → Call

unfoldable pub handle : Call → AuthManager → AuthManager
handle (creates id device now) am = (create_session id device now am).1
handle (gets id now) am = (get_session id now am).1
handle (removes id) am = remove_session id am
handle (cleans now age) am = cleanup_sessions now age am

unfoldable pub run : List Call → AuthManager → AuthManager
run [] am = am
run (c ∷ cs) am = run cs (handle c am)

expire-Distinct :
    (now : ℕ) (age : ℤ) (es m : List (String × ClientSession))
    → Distinct (keys m)
    → Distinct (keys (expire now age es m))
unfolding expire
expire-Distinct now age [] m d = d
expire-Distinct now age ((j, s) ∷ es) m d =
    expire-Distinct now age es (if is_old now age s then delete j m else m)
      (if_both (λ z. Distinct (keys z)) (is_old now age s) (delete j m) m (delete-Distinct j m d) d)

touch-Distinct :
    (o : Option ClientSession) (id : String) (now : ℕ) (am : AuthManager)
    → Distinct (keys am.sessions)
    → Distinct (keys (touch o id now am).1.sessions)
unfolding touch
touch-Distinct none id now am d = d
touch-Distinct (some s) id now am d =
    insert-Distinct id (record s { last_seen = now }) am.sessions d

run-Distinct :
    (cs : List Call) (am : AuthManager)
    → Distinct (keys am.sessions)
    → Distinct (keys (run cs am).sessions)
unfolding run handle create_session
run-Distinct [] am d = d
run-Distinct (creates none device now ∷ cs) am d = run-Distinct cs am d
run-Distinct (creates (some id) device now ∷ cs) am d =
    run-Distinct cs _ (insert-Distinct id _ am.sessions d)
run-Distinct (gets id now ∷ cs) am d =
    run-Distinct cs _ (touch-Distinct (lookup id am.sessions) id now am d)
run-Distinct (removes id ∷ cs) am d = run-Distinct cs _ (delete-Distinct id am.sessions d)
run-Distinct (cleans now age ∷ cs) am d =
    run-Distinct cs _ (expire-Distinct now age am.sessions am.sessions d)

-- The time of the last access of each session that there is, as the calls tell it.
abbrev pub Accesses : Type 0
Accesses = String → Option ℕ

abbrev pub accessed : ℕ → Option ℕ → Option ℕ
accessed now none = none
accessed now (some t) = some now

-- An access is forgotten when it is longer ago than the age.
abbrev pub forgotten : ℕ → ℤ → Option ℕ → Option ℕ
forgotten now age none = none
forgotten now age (some t) = if ltb_ℤ age (sub_ℕ now t) then none else some t

abbrev pub access : Call → Accesses → Accesses
access (creates none device now) a k = a k
access (creates (some id) device now) a k = if string_eq.beq id k then some now else a k
access (gets id now) a k = if string_eq.beq id k then accessed now (a k) else a k
access (removes id) a k = if string_eq.beq id k then none else a k
access (cleans now age) a k = forgotten now age (a k)

abbrev pub accesses : List Call → Accesses → Accesses
accesses [] a = a
accesses (c ∷ cs) a = accesses cs (access c a)

abbrev pub seen : Option ClientSession → Option ℕ
seen none = none
seen (some s) = some s.last_seen

-- The manager's sessions are those of the accesses.
abbrev Shows : AuthManager → Accesses → Type 0
Shows am a = (k : String) → seen (lookup k am.sessions) ≡ a k

touch-Shows :
    (o : Option ClientSession) (id : String) (now : ℕ) (am : AuthManager) (a : Accesses)
    → lookup id am.sessions ≡ o
    → Shows am a
    → Shows (touch o id now am).1 (access (gets id now) a)
unfolding touch
touch-Shows none id now am a h v k = elim (Bool-cases (string_eq.beq id k)) [
  | inl e ↦
      let same : id ≡ k = (string_eq.beq_iff id k).0 e in
      let n : lookup k am.sessions ≡ none = subst (λ j. lookup j am.sessions ≡ none) same h in
      rw (e, sym (v k), n) refl
  | inr e ↦ rw e (v k)
]
touch-Shows (some s) id now am a h v k =
    let l = lookup-insert id k (record s { last_seen = now }) am.sessions in
    elim (Bool-cases (string_eq.beq id k)) [
      | inl e ↦
          let same : id ≡ k = (string_eq.beq_iff id k).0 e in
          let n : lookup k am.sessions ≡ some s =
            subst (λ j. lookup j am.sessions ≡ some s) same h in
          rw (l, e, sym (v k), n) refl
      | inr e ↦ rw (l, e) (v k)
    ]

seen-unless_old :
    (now : ℕ) (age : ℤ) (o : Option ClientSession)
    → seen (unless_old now age o o) ≡ forgotten now age (seen o)
seen-unless_old now age none = refl
seen-unless_old now age (some s) = ground arith

handle-Shows :
    (c : Call) (am : AuthManager) (a : Accesses)
    → Distinct (keys am.sessions)
    → Shows am a
    → Shows (handle c am) (access c a)
unfolding handle create_session
handle-Shows (creates none device now) am a d v k = v k
handle-Shows (creates (some id) device now) am a d v k =
    let l = lookup-insert id k (new_session id device now) am.sessions in ground (arith, l, v k)
handle-Shows (gets id now) am a d v k = touch-Shows (lookup id am.sessions) id now am a refl v k
handle-Shows (removes id) am a d v k =
    let l = lookup-delete id k am.sessions in ground (arith, l, v k)
handle-Shows (cleans now age) am a d v k =
    ap seen (lookup-expire now age k am.sessions am.sessions d)
    ∙ seen-unless_old now age (lookup k am.sessions)
    ∙ ap (forgotten now age) (v k)

run-Shows :
    (cs : List Call) (am : AuthManager) (a : Accesses)
    → Distinct (keys am.sessions)
    → Shows am a
    → Shows (run cs am) (accesses cs a)
unfolding run
run-Shows [] am a d v = v
run-Shows (c ∷ cs) am a d v =
    run-Shows cs (handle c am) (access c a) (run-Distinct (c ∷ []) am d) (handle-Shows c am a d v)

-- Behind every sequence of calls on a new manager, the cleanups among them included, there is a session
-- of an id if and only if one was created and neither removed since nor left, when a cleanup ran,
-- without an access for longer than the cleanup's age, and it has the time of its last access.
pub run-accesses :
    (cs : List Call) (id : String)
    → seen (lookup id (run cs new_manager).sessions) ≡ accesses cs (λ k. none) id
unfolding lookup
run-accesses cs id = run-Shows cs new_manager (λ k. none) tt (λ k. refl) id
