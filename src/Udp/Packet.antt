-- ===== src/Udp/Packet.antt =====
-- internal/app/server/mqtt_udp/udp.go: the layout of packets.
use xiaozhi_esp32_server_gol.Common.{
  take_append, drop_append, ℕ, suc, ◌+◌, ◌%◌, ◌^◌, ◌≤◌, ◌<◌, ◌≡◌, ◌≢◌, refl, ap, append_assoc,
  append-nil, map, All-imp, All-map, ◌∙◌, List, [], ◌∷◌, ◌++◌, arith, length, length-append, take,
  drop, All, Distinct,
}
use xiaozhi_esp32_server_gol.Udp.{Bytes, Session, put_uint32, uint32, header, encrypt, decrypt}

uint32-put : (n : ℕ) → n < 2 ^ 32 → uint32 (put_uint32 n) ≡ n
uint32-put n h = omega arith

length-header :
    (size : ℕ) (nonce : Bytes) (seq : ℕ) → length nonce ≡ 8 → length (header size nonce seq) ≡ 16
unfolding header
length-header size nonce seq h = ground (arith, length-append nonce (put_uint32 seq))

-- The last four bytes of the header are the sequence number.
header_seq :
    (size : ℕ) (nonce : Bytes) (seq : ℕ) (c : Bytes)
    → length nonce ≡ 8
    → seq < 2 ^ 32
    → uint32 (drop 12 (header size nonce seq ++ c)) ≡ seq
unfolding header
header_seq size nonce seq c h b =
    rw (append_assoc nonce (put_uint32 seq) c, drop_append 8 nonce (put_uint32 seq ++ c) h)
      (uint32-put seq b)

header_own_seq :
    (size : ℕ) (nonce : Bytes) (seq : ℕ)
    → length nonce ≡ 8
    → seq < 2 ^ 32
    → uint32 (drop 12 (header size nonce seq)) ≡ seq
header_own_seq size nonce seq h b =
    let r = header_seq size nonce seq [] h b in rw (append-nil (header size nonce seq)) at r

module _ (ctr : Bytes → Bytes → Bytes → Bytes) where
  -- A packet that `encrypt` makes, decrypted under the same key: the data come back, and the sequence
  -- number that the receiver notes is the one the sender is at. The cipher in counter mode undoes
  -- itself.
  pub decrypt-encrypt :
      (d : Bytes) (s t : Session)
      → ((k iv x : Bytes) → ctr k iv (ctr k iv x) ≡ x)
      → s.aes_key ≡ t.aes_key
      → length s.nonce ≡ 8
      → let r = encrypt ctr d s in
        ((decrypt ctr r.0 t).0 ≡ d)
        × ((decrypt ctr r.0 t).1.remote_seq ≡ r.1.local_seq)
        × (r.1.local_seq ≡ suc s.local_seq % 2 ^ 32)
        × (take 16 r.0 ≡ header (length d) s.nonce r.1.local_seq)
  unfolding encrypt decrypt
  decrypt-encrypt d s t twice keys h =
      let n = suc s.local_seq % 2 ^ 32 in
      let hd = header (length d) s.nonce n in
      let c = ctr s.aes_key hd d in
      let l = length-header (length d) s.nonce n h in
      let front = take_append 16 hd c l in
      let behind = drop_append 16 hd c l in
      let seq = header_seq (length d) s.nonce n c h (omega arith) in
      let back = twice s.aes_key hd d in (cc, seq, refl, front)

  encrypt-seq :
      (d : Bytes) (s : Session)
      → length s.nonce ≡ 8
      → uint32 (drop 12 (take 16 (encrypt ctr d s).0)) ≡ suc s.local_seq % 2 ^ 32
  unfolding encrypt
  encrypt-seq d s h =
      let n = suc s.local_seq % 2 ^ 32 in
      let hd = header (length d) s.nonce n in
      rw (take_append 16 hd (ctr s.aes_key hd d) (length-header (length d) s.nonce n h))
        (header_own_seq (length d) s.nonce n h (omega arith))

  -- The packets of a session for the given data, in order.
  unfoldable pub packets : List Bytes → Session → List Bytes
  packets [] s = []
  packets (d ∷ ds) s = (encrypt ctr d s).0 ∷ packets ds (encrypt ctr d s).1

  abbrev seq_of : Bytes → ℕ
  seq_of p = uint32 (drop 12 (take 16 p))

  packets_later :
      (ds : List Bytes) (s : Session) (x m : ℕ)
      → length s.nonce ≡ 8
      → x < 2 ^ 32
      → s.local_seq ≡ (x + m) % 2 ^ 32
      → length ds + m < 2 ^ 32
      → All (λ p. seq_of p ≢ x) (packets ds s)
  unfolding packets encrypt
  packets_later [] s x m h b e l = tt
  packets_later (d ∷ ds) s x m h b e l =
      let n = suc s.local_seq % 2 ^ 32 in
      let now : n ≡ (x + suc m) % 2 ^ 32 = omega (arith, e) in
      let first = encrypt-seq d s h in
      (
        λ q. omega (arith, first, q, now, b, l),
        packets_later ds (encrypt ctr d s).1 x (suc m) h b now (omega (arith, l)),
      )

  -- The initial blocks of up to 2 ^ 32 packets of a session differ from each other.
  pub packets-Distinct :
      (ds : List Bytes) (s : Session)
      → length s.nonce ≡ 8
      → length ds ≤ 2 ^ 32
      → Distinct (map (take 16) (packets ds s))
  unfolding packets encrypt
  packets-Distinct [] s h l = tt
  packets-Distinct (d ∷ ds) s h l =
      let t = (encrypt ctr d s).1 in
      let p = (encrypt ctr d s).0 in
      let first = encrypt-seq d s h in
      let x = suc s.local_seq % 2 ^ 32 in
      let later = packets_later ds t x 0 h (omega arith) (omega arith) (omega (arith, l)) in
      (
        All-map (λ y. y ≢ take 16 p) (take 16) (packets ds t)
            (All-imp (λ q. seq_of q ≢ x) (λ q. take 16 q ≢ take 16 p) (packets ds t)
              (λ q n e. n (ap (λ y. uint32 (drop 12 y)) e ∙ first)) later),
        packets-Distinct ds t h (omega (arith, l)),
      )
