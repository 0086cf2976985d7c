-- ===== src/Udp/Steps.antt =====
-- internal/app/server/mqtt_udp/udp_server.go: what callers may do with the server, as steps, each
-- method run as a whole.
use xiaozhi_esp32_server_gol.Common.{
  ℕ, ◌<◌, ◌≡◌, refl, String, Option, none, some, List, [], ◌∷◌, arith, ltb, if◌then◌else◌, lookup,
  delete, lookup-insert, lookup-delete, string_eq, beq_refl, Option-cases, List-cases, Bool-cases,
  inl, inr, length, take, drop, ltb→lt,
}
use xiaozhi_esp32_server_gol.Udp.{
  Bytes, Session, set_remote_addr, destroy, recv_data, send_audio_data, decrypt, encrypt,
  drain_pending_audio,
}
use xiaozhi_esp32_server_gol.Udp.Server.{
  Server, at_session, clear_session_addr_bindings, clear_session_addr_binding, close_session_by_ref,
  close_session, cleanup, cleanup_sessions, create_session, accept, process_packet, deliver,
  settle_addr,
}
use xiaozhi_esp32_server_gol.Udp.Bindings.{Inv, clear-Inv, unbind_lem, settle-Inv}

-- A session's method that leaves its address, its ids and its being open as they are.
pub record Keeps (c d : Session) : Type 0 where
  pub addr : d.remote_addr ≡ c.remote_addr
  pub conn : d.conn_id ≡ c.conn_id
  pub closed : d.closed ≡ c.closed
  pub shut : d.shut ≡ c.shut

pub at_session-Inv :
    (i : ℕ) (f : Session → Session) (s : Server)
    → Keeps (s.heap i) (f (s.heap i))
    → Inv s
    → Inv (at_session i f s)
at_session-Inv i f s k v = record {
  bound = λ a j h. ground (arith, v.bound a j, k.addr);
  live = v.live;
  known = v.known;
  named = λ c j h. ground (arith, v.named c j, k.conn);
  is_open = λ c j h. ground (arith, v.is_open c j, k.closed);
  sound = λ j h. ground (arith, v.sound j, k.closed, k.shut);
}

close_by_ref-Inv : (i : ℕ) (s : Server) → i < s.next → Inv s → Inv (close_session_by_ref i s)
unfolding close_session_by_ref destroy set_remote_addr clear_session_addr_bindings
close_by_ref-Inv i s l v = record {
  bound = λ a j h. ground (arith, unbind_lem i j a s.addr2session, v.bound a j);
  live = λ a j h. ground (arith, unbind_lem i j a s.addr2session, v.live a j);
  known = λ c j h. ground (arith, v.known c j, lookup-delete (s.heap i).conn_id c s.nonce2session);
  named = λ c j h. ground (arith, v.named c j, lookup-delete (s.heap i).conn_id c s.nonce2session);
  is_open = λ c j h. ground (
    arith,
    v.is_open c j,
    v.named c j,
    lookup-delete (s.heap i).conn_id c s.nonce2session,
    beq_refl string_eq c,
  );
  sound = λ j h. ground (arith, v.sound j);
}

create-Inv :
    (hex : Bytes → String) (dev client : String) (sid key conn : Bytes) (unix now : ℕ) (s : Server)
    → Inv s
    → Inv (create_session hex dev client sid key conn unix now s)
unfolding create_session
create-Inv hex dev client sid key conn unix now s v = record {
  bound = λ a j h. ground (arith, v.bound a j, v.live a j);
  live = λ a j h. ground (arith, v.live a j);
  known = λ c j h. ground (arith, v.known c j, lookup-insert (hex conn) c s.next s.nonce2session);
  named = λ c j h. ground (
    arith,
    v.known c j,
    v.named c j,
    lookup-insert (hex conn) c s.next s.nonce2session,
    string_eq.beq_iff (hex conn) c,
  );
  is_open = λ c j h.
      ground (arith, v.known c j, v.is_open c j, lookup-insert (hex conn) c s.next s.nonce2session);
  sound = λ j h. ground (arith, v.sound j);
}

recv-Keeps : (b : Bytes) (c : Session) → Keeps c (recv_data b c).1
unfolding recv_data
recv-Keeps b c = record {
  addr = ground arith;
  conn = ground arith;
  closed = ground arith;
  shut = ground arith;
}

send-Keeps : (b : Bytes) (c : Session) → Keeps c (send_audio_data b c).1
unfolding send_audio_data
send-Keeps b c = record {
  addr = ground arith;
  conn = ground arith;
  closed = ground arith;
  shut = ground arith;
}

cleanup_sub :
    (h : ℕ → Session) (now : ℕ) (c : String) (i : ℕ) (es m : List (String × ℕ))
    → lookup c (cleanup h now es m) ≡ some i
    → lookup c m ≡ some i
unfolding cleanup
cleanup_sub h now c i [] m e = e
cleanup_sub h now c i ((b, j) ∷ es) m e =
    ground (
      arith,
      cleanup_sub h now c i es (delete b m),
      cleanup_sub h now c i es m,
      lookup-delete b c m,
    )

cleanup-Inv : (now : ℕ) (s : Server) → Inv s → Inv (cleanup_sessions now s)
unfolding cleanup_sessions
cleanup-Inv now s v = record {
  bound = v.bound;
  live = v.live;
  known = λ c i h. v.known c i (cleanup_sub s.heap now c i s.nonce2session s.nonce2session h);
  named = λ c i h. v.named c i (cleanup_sub s.heap now c i s.nonce2session s.nonce2session h);
  is_open = λ c i h. v.is_open c i (cleanup_sub s.heap now c i s.nonce2session s.nonce2session h);
  sound = v.sound;
}

module _ (hex : Bytes → String) (ctr : Bytes → Bytes → Bytes → Bytes) where
  accept-Inv : (now : ℕ) (p : Bytes) (i : ℕ) (s : Server) → Inv s → Inv (accept hex ctr now p i s).1
  unfolding accept decrypt recv_data
  accept-Inv now p i s v =
      let r = decrypt ctr p (record (s.heap i) { last_active = now }) in
      let k = recv-Keeps r.0 r.1 in
      at_session-Inv i (λ _. (recv_data r.0 r.1).1) s
        record { addr = k.addr; conn = k.conn; closed = k.closed; shut = k.shut } v

  pub process-Inv :
      (now : ℕ) (a : String) (p : Bytes) (s : Server)
      → Inv s
      → Inv (process_packet hex ctr now a p s).1
  unfolding process_packet
  process-Inv now a p s v = elim (Bool-cases (ltb (length p) 16)) [
    | inl t ↦ rw t v
    | inr t ↦ elim (Option-cases (lookup (hex (take 4 (drop 4 p))) s.nonce2session)) [
      | inl e ↦ rw (t, e) v
      | inr (i, e) ↦
          rw (t, e)
            (accept-Inv now p i (settle_addr a i s)
              (settle-Inv a i s (v.known (hex (take 4 (drop 4 p))) i e) v))
    ]
  ]

  deliver-Inv : (a : Option String) (i : ℕ) (s : Server) → Inv s → Inv (deliver hex ctr a i s).1
  unfolding deliver encrypt drain_pending_audio
  deliver-Inv none i s v = elim (List-cases (s.heap i).send) [
    | inl e ↦ rw (deliver, e) v
    | inr (d, ds, e) ↦
        rw (deliver, e)
          (at_session-Inv i (λ _. (drain_pending_audio (record (s.heap i) { send = ds })).1) s
            record { addr = refl; conn = refl; closed = refl; shut = refl } v)
  ]
  deliver-Inv (some b) i s v = elim (List-cases (s.heap i).send) [
    | inl e ↦ rw (deliver, e) v
    | inr (d, ds, e) ↦
        rw (deliver, e)
          (at_session-Inv i (λ _. (encrypt ctr d (record (s.heap i) { send = ds })).1) s
            record { addr = refl; conn = refl; closed = refl; shut = refl } v)
  ]

  -- What happens to the server: a packet, `CreateSession`, the two ways to close a session,
  -- `ClearSessionAddrBinding`, `SendAudioData` on a session, its goroutine, and a tick of
  -- `cleanupSessions`. Only a session that was created can be referred to.
  pub data Action : Type 0 where
    packet : ℕ → String → Bytes → Action
    create : String → String → Bytes → Bytes → Bytes → ℕ → ℕ → Action
    close clear : String → Action
    close_ref : ℕ → Action
    audio : Bytes → ℕ → Action
    goroutine : Option String → ℕ → Action
    tick : ℕ → Action

  unfoldable pub step : Action → Server → Server
  step (packet now a p) s = (process_packet hex ctr now a p s).1
  step (create dev client sid key conn unix now) s =
      create_session hex dev client sid key conn unix now s
  step (close c) s = close_session c s
  step (clear c) s = clear_session_addr_binding c s
  step (close_ref i) s = if ltb i s.next then close_session_by_ref i s else s
  step (audio d i) s = at_session i (λ c. (send_audio_data d c).1) s
  step (goroutine a i) s = (deliver hex ctr a i s).1
  step (tick now) s = cleanup_sessions now s

  unfoldable pub run : List Action → Server → Server
  run [] s = s
  run (x ∷ xs) s = run xs (step x s)

  step-Inv : (x : Action) (s : Server) → Inv s → Inv (step x s)
  unfolding step close_session lookup clear_session_addr_binding
  step-Inv (packet now a p) s v = process-Inv now a p s v
  step-Inv (create dev client sid key conn unix now) s v =
      create-Inv hex dev client sid key conn unix now s v
  step-Inv (close c) s v = elim (Option-cases (lookup c s.nonce2session)) [
    | inl e ↦ rw (step, close_session, e) v
    | inr (i, e) ↦ rw (step, close_session, e) (close_by_ref-Inv i s (v.known c i e) v)
  ]
  step-Inv (clear c) s v = elim (Option-cases (lookup c s.nonce2session)) [
    | inl e ↦ rw (step, clear_session_addr_binding, e) v
    | inr (i, e) ↦ rw (step, clear_session_addr_binding, e) (clear-Inv i s (v.known c i e) v)
  ]
  step-Inv (close_ref i) s v = elim (Bool-cases (ltb i s.next)) [
    | inl t ↦ rw (step, t) (close_by_ref-Inv i s (ltb→lt i s.next t) v)
    | inr t ↦ rw (step, t) v
  ]
  step-Inv (audio d i) s v =
      at_session-Inv i (λ c. (send_audio_data d c).1) s (send-Keeps d (s.heap i)) v
  step-Inv (goroutine a i) s v = deliver-Inv a i s v
  step-Inv (tick now) s v = cleanup-Inv now s v

  -- Whatever is done with the server, each address in the map leads to a session that has it as its own,
  -- each connection id leads to an open session of that id, and the channels of a session are
  -- closed exactly with it, so that nothing is sent on a closed one.
  pub run-Inv : (xs : List Action) (s : Server) → Inv s → Inv (run xs s)
  unfolding run
  run-Inv [] s v = v
  run-Inv (x ∷ xs) s v = run-Inv xs (step x s) (step-Inv x s v)
