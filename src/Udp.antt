-- ===== src/Udp.antt =====
-- internal/app/server/mqtt_udp/udp.go: a UDP session, and udp_server.go: the server's two maps to its
-- sessions (Udp/Server). A byte is a number below 256, an address or a connection id a string, as
-- it is in the maps. The cipher of a session's key is a parameter, as is the clock.
pub mod Packet
pub mod Server
pub mod Bindings
pub mod Steps
pub mod Arrival
pub mod Tests
use xiaozhi_esp32_server_gol.Common.{
  ℕ, suc, ◌+◌, ◌*◌, ◌/◌, ◌%◌, ◌^◌, String, Bool, true, false, Option, none, some, List, [], ◌∷◌,
  ◌++◌, length, ltb, leb, if◌then◌else◌, take, drop,
}

abbrev pub Bytes : Type 0
Bytes = List ℕ

-- The fields that the methods use. `shut` says that `close` was called on both channels, whose
-- items are `recv` and `send`, oldest first; each has room for 100.
pub record Session : Type 0 where
  pub id : String
  pub conn_id : String
  pub client_id : String
  pub device_id : String
  pub aes_key : Bytes
  pub nonce : Bytes
  pub created_at : ℕ
  pub last_active : ℕ
  pub remote_addr : Option String
  pub local_seq : ℕ
  pub remote_seq : ℕ
  pub recv : List Bytes
  pub send : List Bytes
  pub shut : Bool
  pub closed : Bool

abbrev pub chan_cap : ℕ
chan_cap = 100

-- `panic` is a send on a closed channel or a second close of one.
pub data Offered : Type 0 where
  taken session_closed chan_full panic : Offered

unfoldable pub set_remote_addr : Option String → Session → Session
set_remote_addr a s = record s { remote_addr = a }

unfoldable pub recv_data : Bytes → Session → Offered × Session
recv_data d s =
    if s.closed
    then (session_closed, s)
    else if s.shut
    then (panic, s)
    else if ltb (length s.recv) chan_cap
    then (taken, record s { recv = s.recv ++ d ∷ [] })
    else (chan_full, s)

unfoldable pub send_audio_data : Bytes → Session → Offered × Session
send_audio_data d s =
    if s.closed
    then (session_closed, s)
    else if s.shut
    then (panic, s)
    else if ltb (length s.send) chan_cap
    then (taken, record s { send = s.send ++ d ∷ [] })
    else (chan_full, s)

-- `DrainPendingAudio`, which nobody disturbs: the count and the empty channel.
unfoldable pub drain_pending_audio : Session → ℕ × Session
drain_pending_audio s = (length s.send, record s { send = [] })

-- `Destroy`: false is the panic.
unfoldable pub destroy : Session → Bool × Session
destroy s =
    if s.closed
    then (true, s)
    else (if s.shut then false else true, record s { closed = true; shut = true })

-- `WaitRemoteAddr`: for each round of its loop the session that `GetRemoteAddr` sees, the one that
-- `IsClosed` sees and the time. `none` means that it still waits.
unfoldable pub wait_remote_addr : ℕ → List (Session × Session × ℕ) → Option (Option String)
wait_remote_addr deadline [] = none
wait_remote_addr deadline ((s, t, now) ∷ rounds) =
    let rest = wait_remote_addr deadline rounds in
    elim s.remote_addr [
      | some a ↦ some (some a)
      | none ↦ if t.closed then some none else if leb deadline now then some none else rest
    ]

-- `binary.BigEndian` on two and four bytes.
abbrev pub put_uint16 : ℕ → Bytes
put_uint16 n = (n / 256 % 256) ∷ (n % 256) ∷ []

abbrev pub put_uint32 : ℕ → Bytes
put_uint32 n = (n / 16777216 % 256) ∷ (n / 65536 % 256) ∷ (n / 256 % 256) ∷ (n % 256) ∷ []

abbrev pub uint32 : Bytes → ℕ
uint32 (a ∷ b ∷ c ∷ d ∷ _) = a * 16777216 + b * 65536 + c * 256 + d
uint32 _ = 0

-- The first 16 bytes of a packet, which are also the initial counter block.
unfoldable pub header : ℕ → Bytes → ℕ → Bytes
header size nonce seq = 1 ∷ 0 ∷ put_uint16 (size % 2 ^ 16) ++ nonce ++ put_uint32 seq

-- The cipher in counter mode: a key, an initial block and the data.
module _ (ctr : Bytes → Bytes → Bytes → Bytes) where
  -- `encrypt`: `LocalSeq++` wraps around at 32 bits.
  unfoldable pub encrypt : Bytes → Session → Bytes × Session
  encrypt d s =
      let seq = (suc s.local_seq) % 2 ^ 32 in
      let h = header (length d) s.nonce seq in
      (h ++ ctr s.aes_key h d, record s { local_seq = seq })

  -- `decrypt` on a packet of at least 16 bytes.
  unfoldable pub decrypt : Bytes → Session → Bytes × Session
  decrypt p s =
      (ctr s.aes_key (take 16 p) (drop 16 p), record s { remote_seq = uint32 (drop 12 p) })
