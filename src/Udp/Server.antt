-- ===== src/Udp/Server.antt =====
-- internal/app/server/mqtt_udp/udp_server.go: the maps from connection ids and from addresses to
-- sessions, which are cells of a heap that both maps point to.
use xiaozhi_esp32_server_gol.Common.{
  ℕ, suc, ◌-◌, ◌*◌, ◌^◌, String, Bool, false, Option, none, some, List, [], ◌∷◌, ◌++◌, ◌⊎◌, inl,
  inr, length, ltb, ◌==◌, if◌then◌else◌, lookup, insert, delete, string_eq, take, drop,
}
use xiaozhi_esp32_server_gol.Udp.{
  Bytes, Session, Offered, set_remote_addr, recv_data, destroy, decrypt, encrypt, put_uint32,
  drain_pending_audio,
}

pub record Server : Type 0 where
  pub nonce2session : List (String × ℕ)
  pub addr2session : List (String × ℕ)
  pub heap : ℕ → Session
  pub next : ℕ

abbrev pub set_cell : (ℕ → Session) → ℕ → Session → ℕ → Session
set_cell h i c j = if i == j then c else h j

-- A call of a method of the session at `i`.
abbrev pub at_session : ℕ → (Session → Session) → Server → Server
at_session i f s = record s { heap = set_cell s.heap i (f (s.heap i)) }

-- The `Range` over the entries of the map, which deletes those that hold the session.
unfoldable pub unbind : ℕ → List (String × ℕ) → List (String × ℕ) → List (String × ℕ)
unbind i [] m = m
unbind i ((a, j) ∷ es) m = unbind i es (if j == i then delete a m else m)

unfoldable pub clear_session_addr_bindings : ℕ → Server → Server
clear_session_addr_bindings i s =
    at_session i (set_remote_addr none)
      (record s { addr2session = unbind i s.addr2session s.addr2session })

unfoldable pub rebind_session_addr : String → ℕ → Server → Server
rebind_session_addr a i s =
    let t = at_session i (set_remote_addr (some a)) (clear_session_addr_bindings i s) in
    record t { addr2session = insert a i t.addr2session }

unfoldable pub clear_session_addr_binding : String → Server → Server
clear_session_addr_binding c s = elim (lookup c s.nonce2session) [
  | none ↦ s
  | some i ↦ clear_session_addr_bindings i s
]

unfoldable pub close_session_by_ref : ℕ → Server → Server
close_session_by_ref i s =
    let t = clear_session_addr_bindings i s in
    at_session i (λ c. (destroy c).1)
      (record t { nonce2session = delete (t.heap i).conn_id t.nonce2session })

unfoldable pub close_session : String → Server → Server
close_session c s = elim (lookup c s.nonce2session) [ none ↦ s | some i ↦ close_session_by_ref i s ]

-- The addresses as `processPacket` leaves them.
unfoldable pub settle_addr : String → ℕ → Server → Server
settle_addr a i s = elim (lookup a s.addr2session) [
  | none ↦ rebind_session_addr a i s
  | some j ↦
      if j == i
      then s
      else rebind_session_addr a i (record s { addr2session = delete a s.addr2session })
]

-- One entry of the `Range` in `cleanupSessions`: five minutes, in nanoseconds.
abbrev pub expired : ℕ → Session → Bool
expired now c = ltb (300 * 10 ^ 9) (now - c.last_active)

unfoldable pub cleanup :
    (ℕ → Session) → ℕ → List (String × ℕ) → List (String × ℕ) → List (String × ℕ)
cleanup h now [] m = m
cleanup h now ((c, i) ∷ es) m = cleanup h now es (if expired now (h i) then delete c m else m)

-- One tick of `cleanupSessions`.
unfoldable pub cleanup_sessions : ℕ → Server → Server
cleanup_sessions now s = record s {
  nonce2session = cleanup s.heap now s.nonce2session s.nonce2session;
}

-- `CreateSession`, with the random bytes of the session id, the key and the connection id, and the
-- bytes of the time.
unfoldable pub create_session :
    (Bytes → String) → String → String → Bytes → Bytes → Bytes → ℕ → ℕ → Server → Server
create_session hex device client sid key conn unix now s = record s {
  heap = set_cell s.heap s.next record {
    id = hex sid;
    conn_id = hex conn;
    client_id = client;
    device_id = device;
    aes_key = key;
    nonce = conn ++ put_uint32 unix;
    created_at = now;
    last_active = now;
    remote_addr = none;
    local_seq = 0;
    remote_seq = 0;
    recv = [];
    send = [];
    shut = false;
    closed = false;
  };
  next = suc s.next;
  nonce2session = insert (hex conn) s.next s.nonce2session;
}

-- What `processPacket` does with a packet.
pub data Processed : Type 0 where
  too_small no_session : Processed
  offered : Offered → Processed

module _ (hex : Bytes → String) (ctr : Bytes → Bytes → Bytes → Bytes) where
  -- `processPacket` behind the look-up of its session: `LastActive`, `Decrypt` and `RecvData`.
  unfoldable pub accept : ℕ → Bytes → ℕ → Server → Processed × Server
  accept now p i s =
      let r = decrypt ctr p (record (s.heap i) { last_active = now }) in
      let o = recv_data r.0 r.1 in (offered o.0, at_session i (λ _. o.1) s)

  unfoldable pub process_packet : ℕ → String → Bytes → Server → Processed × Server
  process_packet now a p s =
      if ltb (length p) 16
      then (too_small, s)
      else elim (lookup (hex (take 4 (drop 4 p))) s.nonce2session) [
        | none ↦ (no_session, s)
        | some i ↦ accept now p i (settle_addr a i s)
      ]

  -- The goroutine of a session, for the audio at the front of its channel and the address that
  -- `WaitRemoteAddr` gave: the packet and where it is written, or the number of dropped items.
  unfoldable pub deliver : Option String → ℕ → Server → Option ((String × Bytes) ⊎ ℕ) × Server
  deliver a i s = elim (s.heap i).send [
    | [] ↦ (none, s)
    | d ∷ ds ↦ elim a [
      | none ↦
          let r = drain_pending_audio (record (s.heap i) { send = ds }) in
          (some (inr (suc r.0)), at_session i (λ _. r.1) s)
      | some b ↦
          let r = encrypt ctr d (record (s.heap i) { send = ds }) in
          (some (inl (b, r.0)), at_session i (λ _. r.1) s)
    ]
  ]
