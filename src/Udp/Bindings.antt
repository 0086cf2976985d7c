-- ===== src/Udp/Bindings.antt =====
-- internal/app/server/mqtt_udp/udp_server.go: what holds of the maps, and that the functions which
-- bind and unbind addresses keep it.
use xiaozhi_esp32_server_gol.Common.{
  ℕ, ◌<◌, ◌≡◌, ◌≢◌, refl, ◌⊎◌, inl, inr, String, false, none, some, List, [], ◌∷◌, arith, ◌==◌,
  if◌then◌else◌, lookup, delete, lookup-insert, lookup-delete, string_eq, beq_refl, Option-cases,
  Bool-cases,
}
use xiaozhi_esp32_server_gol.Udp.{set_remote_addr}
use xiaozhi_esp32_server_gol.Udp.Server.{
  Server, unbind, clear_session_addr_bindings, rebind_session_addr, settle_addr,
}

-- The map from addresses points to sessions whose own address is that one; the map from connection
-- ids points to open sessions of that id; the channels of a session are closed with it.
pub record Inv (s : Server) : Type 0 where
  pub bound :
      (a : String) (i : ℕ) → lookup a s.addr2session ≡ some i → (s.heap i).remote_addr ≡ some a
  pub live : (a : String) (i : ℕ) → lookup a s.addr2session ≡ some i → i < s.next
  pub known : (c : String) (i : ℕ) → lookup c s.nonce2session ≡ some i → i < s.next
  pub named : (c : String) (i : ℕ) → lookup c s.nonce2session ≡ some i → (s.heap i).conn_id ≡ c
  pub is_open : (c : String) (i : ℕ) → lookup c s.nonce2session ≡ some i → (s.heap i).closed ≡ false
  pub sound : (i : ℕ) → i < s.next → (s.heap i).shut ≡ (s.heap i).closed

-- An entry is deleted or stays.
pub lookup-unbind :
    (i : ℕ) (a : String) (es m : List (String × ℕ))
    → (lookup a (unbind i es m) ≡ none) ⊎ (lookup a (unbind i es m) ≡ lookup a m)
unfolding unbind
lookup-unbind i a [] m = inr refl
lookup-unbind i a ((b, j) ∷ es) m =
    ground (arith, lookup-unbind i a es (if j == i then delete b m else m), lookup-delete b a m)

-- What the entries map to the session is deleted.
unbind_gone :
    (i : ℕ) (a : String) (es m : List (String × ℕ))
    → lookup a es ≡ some i
    → lookup a (unbind i es m) ≡ none
unfolding unbind lookup
unbind_gone i a [] m h = ground arith
unbind_gone i a ((b, j) ∷ es) m h = ground (
  arith,
  unbind_gone i a es (if j == i then delete b m else m),
  lookup-unbind i a es (if j == i then delete b m else m),
  lookup-delete b a m,
  string_eq.beq_iff b a,
  beq_refl string_eq a,
)

-- What is left points elsewhere, and was there before.
pub unbind_lem :
    (i j : ℕ) (a : String) (m : List (String × ℕ))
    → lookup a (unbind i m m) ≡ some j
    → (lookup a m ≡ some j) × (j ≢ i)
unbind_lem i j a m h =
    let kept : lookup a m ≡ some j = ground (arith, lookup-unbind i a m m) in
    (kept, λ e. ground (arith, unbind_gone i a m m, kept, e))

pub clear-Inv : (i : ℕ) (s : Server) → i < s.next → Inv s → Inv (clear_session_addr_bindings i s)
unfolding clear_session_addr_bindings set_remote_addr
clear-Inv i s l v = record {
  bound = λ a j h. ground (arith, unbind_lem i j a s.addr2session, v.bound a j);
  live = λ a j h. ground (arith, unbind_lem i j a s.addr2session, v.live a j);
  known = v.known;
  named = λ c j h. ground (arith, v.named c j);
  is_open = λ c j h. ground (arith, v.is_open c j);
  sound = λ j h. ground (arith, v.sound j);
}

-- The session at `i` has the address `a`, in the map too, and is still there under its ids.
pub record Bound (a : String) (i : ℕ) (s t : Server) : Type 0 where
  pub mapped : lookup a t.addr2session ≡ some i
  pub remote : (t.heap i).remote_addr ≡ some a
  pub ids : t.nonce2session ≡ s.nonce2session
  pub next : t.next ≡ s.next
  pub recv : (t.heap i).recv ≡ (s.heap i).recv
  pub key : (t.heap i).aes_key ≡ (s.heap i).aes_key
  pub others : (j : ℕ) → j ≢ i → t.heap j ≡ s.heap j

pub rebind-Inv :
    (a : String) (i : ℕ) (s : Server) → i < s.next → Inv s → Inv (rebind_session_addr a i s)
unfolding rebind_session_addr clear_session_addr_bindings set_remote_addr
rebind-Inv a i s l v =
    let c = clear-Inv i s l v in
    record {
      bound = λ b j h. ground (
        arith,
        unbind_lem i j b s.addr2session,
        v.bound b j,
        lookup-insert a b i (unbind i s.addr2session s.addr2session),
        string_eq.beq_iff a b,
      );
      live = λ b j h. ground (
        arith,
        unbind_lem i j b s.addr2session,
        v.live b j,
        lookup-insert a b i (unbind i s.addr2session s.addr2session),
      );
      known = v.known;
      named = λ c j h. ground (arith, v.named c j);
      is_open = λ c j h. ground (arith, v.is_open c j);
      sound = λ j h. ground (arith, v.sound j);
    }

unbound-Inv :
    (a : String) (s : Server) → Inv s → Inv (record s { addr2session = delete a s.addr2session })
unbound-Inv a s v = record {
  bound = λ b j h. v.bound b j (ground (arith, lookup-delete a b s.addr2session));
  live = λ b j h. v.live b j (ground (arith, lookup-delete a b s.addr2session));
  known = v.known;
  named = v.named;
  is_open = v.is_open;
  sound = v.sound;
}

rebind-Bound : (a : String) (i : ℕ) (s : Server) → Bound a i s (rebind_session_addr a i s)
unfolding rebind_session_addr clear_session_addr_bindings set_remote_addr
rebind-Bound a i s = record {
  mapped =
      ground
        (arith, lookup-insert a a i (unbind i s.addr2session s.addr2session), beq_refl string_eq a);
  remote = ground arith;
  ids = refl;
  next = refl;
  recv = ground arith;
  key = ground arith;
  others = λ j d. ground (arith, d);
}

-- The three ways of `settle_addr`.
settle_cases {ℓ} :
    (P : Server → Type ℓ) (a : String) (i : ℕ) (s : Server)
    → (lookup a s.addr2session ≡ some i → P s)
    → P (rebind_session_addr a i s)
    → P (rebind_session_addr a i (record s { addr2session = delete a s.addr2session }))
    → P (settle_addr a i s)
unfolding settle_addr
settle_cases P a i s here fresh moved = elim (Option-cases (lookup a s.addr2session)) [
  | inl e ↦ rw (settle_addr, e) fresh
  | inr (j, e) ↦ elim (Bool-cases (j == i)) [
    | inl t ↦ rw (settle_addr, e, t) (here (ground (arith, e, t)))
    | inr t ↦ rw (settle_addr, e, t) moved
  ]
]

pub settle-Inv : (a : String) (i : ℕ) (s : Server) → i < s.next → Inv s → Inv (settle_addr a i s)
settle-Inv a i s l v =
    settle_cases Inv a i s (λ h. v) (rebind-Inv a i s l v)
      (rebind-Inv a i (record s { addr2session = delete a s.addr2session }) l (unbound-Inv a s v))

-- After the binding is settled the session has the address, in the map and its own field.
pub settle-Bound : (a : String) (i : ℕ) (s : Server) → Inv s → Bound a i s (settle_addr a i s)
settle-Bound a i s v =
    settle_cases (Bound a i s) a i s
      (λ h. record {
        mapped = h;
        remote = v.bound a i h;
        ids = refl;
        next = refl;
        recv = refl;
        key = refl;
        others = λ j d. refl;
      })
      (rebind-Bound a i s)
      (let b = rebind-Bound a i (record s { addr2session = delete a s.addr2session }) in
        record {
          mapped = b.mapped;
          remote = b.remote;
          ids = b.ids;
          next = b.next;
          recv = b.recv;
          key = b.key;
          others = b.others;
        })
