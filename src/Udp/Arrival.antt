-- ===== src/Udp/Arrival.antt =====
-- internal/app/server/mqtt_udp/udp_server.go: what processPacket does with a packet, and what is left
-- of a session that was closed.
use xiaozhi_esp32_server_gol.Common.{
  ℕ, ◌≤◌, ◌≡◌, ◌≢◌, refl, sym, ◌∙◌, String, true, false, none, some, [], ◌∷◌, ◌++◌, arith, ltb,
  if◌then◌else◌, lookup, string_eq, length, take, drop, lookup-delete_self,
}
use xiaozhi_esp32_server_gol.Udp.{
  Bytes, set_remote_addr, destroy, recv_data, decrypt, taken, chan_full, uint32,
}
use xiaozhi_esp32_server_gol.Udp.Server.{
  Server, clear_session_addr_bindings, close_session_by_ref, close_session, accept, process_packet,
  offered, settle_addr, no_session,
}
use xiaozhi_esp32_server_gol.Udp.Bindings.{Inv, Bound, settle-Inv, settle-Bound, unbind_lem}

-- Of the server `t` behind a packet `p` from `a` for the session at `i`, whose data are `d`.
pub record Arrived (a : String) (p d : Bytes) (i now : ℕ) (s t : Server) : Type 0 where
  pub mapped : lookup a t.addr2session ≡ some i
  pub remote : (t.heap i).remote_addr ≡ some a
  pub seq : (t.heap i).remote_seq ≡ uint32 (drop 12 p)
  pub active : (t.heap i).last_active ≡ now
  pub recv :
      (t.heap i).recv
      ≡ (if ltb (length (s.heap i).recv) 100 then (s.heap i).recv ++ d ∷ [] else (s.heap i).recv)
  pub others : (j : ℕ) → j ≢ i → t.heap j ≡ s.heap j
  pub ids : t.nonce2session ≡ s.nonce2session

close_session_found :
    (c : String) (i : ℕ) (s : Server)
    → lookup c s.nonce2session ≡ some i
    → close_session c s ≡ close_session_by_ref i s
unfolding close_session
close_session_found c i s e = rw (close_session, e) refl

close_ref_gone :
    (i : ℕ) (s : Server) → lookup (s.heap i).conn_id (close_session_by_ref i s).nonce2session ≡ none
unfolding close_session_by_ref clear_session_addr_bindings set_remote_addr
close_ref_gone i s = ground (arith, lookup-delete_self (s.heap i).conn_id s.nonce2session)

close_ref_closes :
    (i : ℕ) (s : Server)
    → (s.heap i).closed ≡ false
    → let t = close_session_by_ref i s in
      ((t.heap i).closed ≡ true)
      × ((t.heap i).shut ≡ true)
      × ((a : String) → lookup a t.addr2session ≢ some i)
unfolding close_session_by_ref clear_session_addr_bindings set_remote_addr destroy
close_ref_closes i s o =
    (ground arith, ground arith, λ a h. ground (arith, unbind_lem i i a s.addr2session h))

module _ (hex : Bytes → String) (ctr : Bytes → Bytes → Bytes → Bytes) where
  accept_lem :
      (now : ℕ) (a : String) (p : Bytes) (i : ℕ) (s t : Server)
      → Bound a i s t
      → (t.heap i).closed ≡ false
      → (t.heap i).shut ≡ false
      → let r = accept hex ctr now p i t in
        (r.0 ≡ offered (if ltb (length (s.heap i).recv) 100 then taken else chan_full))
        × Arrived a p (ctr (s.heap i).aes_key (take 16 p) (drop 16 p)) i now s r.1
  unfolding accept decrypt recv_data
  accept_lem now a p i s t b o u = (
    ground (arith, o, u, b.recv),
    record {
      mapped = b.mapped;
      remote = ground (arith, o, u, b.remote);
      seq = ground (arith, o, u);
      active = ground (arith, o, u);
      recv = ground (arith, o, u, b.recv, b.key);
      others = λ j d. ground (arith, d, b.others j);
      ids = b.ids;
    },
  )

  -- A packet of at least 16 bytes whose connection id belongs to a session is bound to the address it
  -- came from, its sequence number is noted, and its data go to the channel of that session if
  -- there is room; no other session changes.
  pub process_packet_lem :
      (now : ℕ) (a : String) (p : Bytes) (i : ℕ) (s : Server)
      → Inv s
      → 16 ≤ length p
      → lookup (hex (take 4 (drop 4 p))) s.nonce2session ≡ some i
      → let r = process_packet hex ctr now a p s in
        (r.0 ≡ offered (if ltb (length (s.heap i).recv) 100 then taken else chan_full))
        × Arrived a p (ctr (s.heap i).aes_key (take 16 p) (drop 16 p)) i now s r.1
  unfolding process_packet
  process_packet_lem now a p i s v l e =
      let long : ltb (length p) 16 ≡ false = ground arith in
      let b = settle-Bound a i s v in
      let t = settle-Inv a i s (v.known (hex (take 4 (drop 4 p))) i e) v in
      let o = t.is_open (hex (take 4 (drop 4 p))) i (rw b.ids e) in
      let u = t.sound i (rw b.next (v.known (hex (take 4 (drop 4 p))) i e)) in
      rw (long, e) (accept_lem now a p i s (settle_addr a i s) b o (ground (arith, o, u)))

  packet-close_ref :
      (i now : ℕ) (a : String) (p : Bytes) (s : Server)
      → 16 ≤ length p
      → hex (take 4 (drop 4 p)) ≡ (s.heap i).conn_id
      → process_packet hex ctr now a p (close_session_by_ref i s)
        ≡ (no_session, close_session_by_ref i s)
  unfolding process_packet
  packet-close_ref i now a p s l e =
      let long : ltb (length p) 16 ≡ false = ground arith in
      let gone = close_ref_gone i s in rw (long, e, gone) refl

  -- Behind CloseSession no address leads to the session, its channels are closed, and a packet with its
  -- connection id changes nothing.
  pub close_session_lem :
      (c : String) (i : ℕ) (s : Server)
      → Inv s
      → lookup c s.nonce2session ≡ some i
      → let t = close_session c s in
        ((t.heap i).closed ≡ true)
        × ((t.heap i).shut ≡ true)
        × ((a : String) → lookup a t.addr2session ≢ some i)
        × ((now : ℕ) (a : String) (p : Bytes)
            → 16 ≤ length p
            → hex (take 4 (drop 4 p)) ≡ c
            → process_packet hex ctr now a p t ≡ (no_session, t))
  close_session_lem c i s v e =
      let (o, u, away) = close_ref_closes i s (v.is_open c i e) in
      let name = v.named c i e in
      rw (close_session_found c i s e)
        (o, u, away, λ now a p l h. packet-close_ref i now a p s l (h ∙ sym name))
