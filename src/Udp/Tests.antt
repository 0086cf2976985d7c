-- ===== src/Udp/Tests.antt =====
-- Runs of the UDP server, and each theorem about it at a concrete input. The cipher is one that
-- returns its data.
use xiaozhi_esp32_server_gol.Common.{
  ℕ, suc, ◌≤◌, ◌≡◌, ◌≢◌, refl, String, true, false, none, some, [], ◌∷◌, arith, lookup, insert,
  string_eq, length, if◌then◌else◌, ltb, ◌==◌, take, drop, map, Distinct, ◌%◌, ◌^◌,
}
use xiaozhi_esp32_server_gol.Udp.{
  Bytes, Session, set_remote_addr, recv_data, taken, chan_full, decrypt, encrypt, header,
}
use xiaozhi_esp32_server_gol.Udp.Server.{
  Server, create_session, process_packet, accept, settle_addr, rebind_session_addr,
  clear_session_addr_bindings, unbind, close_session, offered, no_session,
}
use xiaozhi_esp32_server_gol.Udp.Bindings.{Inv}
use xiaozhi_esp32_server_gol.Udp.Packet.{decrypt-encrypt, packets, packets-Distinct}
use xiaozhi_esp32_server_gol.Udp.Steps.{create, run, step, run-Inv}
use xiaozhi_esp32_server_gol.Udp.Arrival.{process_packet_lem, close_session_lem, Arrived}

abbrev plain : Bytes → Bytes → Bytes → Bytes
plain k iv d = d

-- The first byte of a connection id tells these tests' sessions apart.
abbrev hex : Bytes → String
hex [] = "00"
hex (c ∷ _) = if c == 1 then "01" else "00"

abbrev session : Session
session = record {
  id = "s";
  conn_id = "01";
  client_id = "c";
  device_id = "d";
  aes_key = [];
  nonce = 1 ∷ 0 ∷ 0 ∷ 0 ∷ 0 ∷ 0 ∷ 0 ∷ 9 ∷ [];
  created_at = 5;
  last_active = 5;
  remote_addr = none;
  local_seq = 0;
  remote_seq = 0;
  recv = [];
  send = [];
  shut = false;
  closed = false;
}

abbrev empty : Server
empty = record { nonce2session = []; addr2session = []; heap = λ i. session; next = 0 }

abbrev started : Server
started = create_session hex "d" "c" [] [] (1 ∷ 0 ∷ 0 ∷ 0 ∷ []) 9 5 empty

abbrev sample : Bytes
sample = 1 ∷ 0 ∷ 0 ∷ 2 ∷ 1 ∷ 0 ∷ 0 ∷ 0 ∷ 0 ∷ 0 ∷ 0 ∷ 9 ∷ 0 ∷ 0 ∷ 1 ∷ 4 ∷ 77 ∷ 78 ∷ []

empty-Inv : Inv empty
unfolding lookup
empty-Inv = record {
  bound = λ a i h. ground arith;
  live = λ a i h. ground arith;
  known = λ c i h. ground arith;
  named = λ c i h. ground arith;
  is_open = λ c i h. ground arith;
  sound = λ i h. refl;
}

accepted : (process_packet hex plain 6 "a:1" sample started).0 ≡ offered taken
unfolding create_session process_packet accept settle_addr rebind_session_addr
    clear_session_addr_bindings unbind set_remote_addr decrypt recv_data lookup insert
accepted = refl

noted : ((process_packet hex plain 6 "a:1" sample started).1.heap 0).remote_seq ≡ 260
unfolding create_session process_packet accept settle_addr rebind_session_addr
    clear_session_addr_bindings unbind set_remote_addr decrypt recv_data lookup insert
noted = refl

started-Inv : Inv started
unfolding run step
started-Inv = run-Inv hex plain (create "d" "c" [] [] (1 ∷ 0 ∷ 0 ∷ 0 ∷ []) 9 5 ∷ []) empty empty-Inv

started_id : lookup (hex (1 ∷ 0 ∷ 0 ∷ 0 ∷ [])) started.nonce2session ≡ some 0
unfolding create_session lookup insert
started_id = refl

started_idle : length (started.heap 0).recv ≡ 0
unfolding create_session
started_idle = refl

process_packet_lem_example :
    let r = process_packet hex plain 6 "a:1" sample started in
    (r.0 ≡ offered (if ltb (length (started.heap 0).recv) 100 then taken else chan_full))
    × Arrived "a:1" sample
        (plain (started.heap 0).aes_key (take 16 sample) (drop 16 sample))
        0
        6
        started
        r.1
process_packet_lem_example =
    process_packet_lem hex plain 6 "a:1" sample 0 started started-Inv (omega arith) started_id

close_session_lem_example :
    let t = close_session "01" started in
    ((t.heap 0).closed ≡ true)
    × ((t.heap 0).shut ≡ true)
    × ((a : String) → lookup a t.addr2session ≢ some 0)
    × ((now : ℕ) (a : String) (p : Bytes)
        → 16 ≤ length p
        → hex (take 4 (drop 4 p)) ≡ "01"
        → process_packet hex plain now a p t ≡ (no_session, t))
close_session_lem_example = close_session_lem hex plain "01" 0 started started-Inv started_id

decrypt-encrypt_example :
    let r = encrypt plain (7 ∷ []) session in
    ((decrypt plain r.0 session).0 ≡ 7 ∷ [])
    × ((decrypt plain r.0 session).1.remote_seq ≡ r.1.local_seq)
    × (r.1.local_seq ≡ suc session.local_seq % 2 ^ 32)
    × (take 16 r.0 ≡ header 1 session.nonce r.1.local_seq)
decrypt-encrypt_example = decrypt-encrypt plain (7 ∷ []) session session (λ k iv x. refl) refl refl

packets-Distinct_example :
    Distinct (map (take 16) (packets plain ((7 ∷ []) ∷ (7 ∷ []) ∷ []) session))
packets-Distinct_example =
    packets-Distinct plain ((7 ∷ []) ∷ (7 ∷ []) ∷ []) session refl (omega arith)
