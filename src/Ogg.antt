-- ===== src/Ogg.antt =====
-- internal/util/ogg_opus.go: wrapping Opus packets into pages of an Ogg stream. The checksum of
-- package hash/crc32 is a parameter, the encoder is not a part of the model.
pub mod Rate
pub mod Lacing
pub mod Tests
use xiaozhi_esp32_server_gol.Common.{
  ℕ, zero, suc, ◌+◌, ◌-◌, ◌*◌, ◌/◌, ◌%◌, ◌^◌, List, [], ◌∷◌, ◌++◌, length, ltb, leb, if◌then◌else◌,
}
use xiaozhi_esp32_server_gol.Common.Int.{ℤ, pos, negsuc, leb_ℤ}

abbrev pub Bytes : Type 0
Bytes = List ℕ

abbrev pub supported : List ℕ
supported = 8000 ∷ 12000 ∷ 16000 ∷ 24000 ∷ 48000 ∷ []

-- `absInt(a - b)`
abbrev pub distance : ℕ → ℕ → ℕ
distance a b = (a - b) + (b - a)

-- The loop of `NormalizeOpusSampleRate`.
unfoldable pub nearest : ℕ → ℕ → List ℕ → ℕ
nearest rate best [] = best
nearest rate best (c ∷ cs) =
    nearest rate (if ltb (distance rate c) (distance rate best) then c else best) cs

unfoldable pub normalize_rate : ℤ → ℕ
normalize_rate (negsuc n) = 16000
normalize_rate (pos zero) = 16000
normalize_rate (pos (suc n)) = nearest (suc n) 8000 (12000 ∷ 16000 ∷ 24000 ∷ 48000 ∷ [])

-- The loop of `buildOggSegments`, with fuel.
unfoldable pub segments_loop : ℕ → ℕ → Bytes
segments_loop zero n = n ∷ []
segments_loop (suc fuel) n =
    let rest = segments_loop fuel (n - 255) in if leb 255 n then 255 ∷ rest else n ∷ []

-- Each round takes 255, so that the length itself is more than enough fuel.
unfoldable pub build_segments : ℕ → Bytes
build_segments n = segments_loop n n

-- Little-endian numbers.
abbrev pub le16 : ℕ → Bytes
le16 n = (n % 256) ∷ (n / 256 % 256) ∷ []

abbrev pub le32 : ℕ → Bytes
le32 n = (n % 256) ∷ (n / 256 % 256) ∷ (n / 65536 % 256) ∷ (n / 16777216 % 256) ∷ []

abbrev pub le64 : ℕ → Bytes
le64 n = le32 n ++ le32 (n / 4294967296)

-- A page with the given bytes of the checksum.
abbrev pub page : Bytes → ℕ → ℕ → ℕ → ℕ → Bytes → Bytes
page sum serial sequence kind granule packet =
    let table = build_segments (length packet) in
    b'O'
      ∷ b'g'
      ∷ b'g'
      ∷ b'S'
      ∷ 0
      ∷ kind
      ∷ (le64 granule ++ le32 serial ++ le32 sequence ++ sum ++ (length table % 256) ∷ [])
    ++ table
    ++ packet

abbrev pub head_packet : ℕ → ℕ → Bytes
head_packet rate channels =
    b'O'
    ∷ b'p'
    ∷ b'u'
    ∷ b's'
    ∷ b'H'
    ∷ b'e'
    ∷ b'a'
    ∷ b'd'
    ∷ 1
    ∷ (channels % 256)
    ∷ (le16 0 ++ le32 rate ++ le16 0 ++ 0 ∷ [])

abbrev vendor : Bytes
vendor =
    b'x' ∷ b'i' ∷ b'a' ∷ b'o' ∷ b'z' ∷ b'h' ∷ b'i' ∷ b'-' ∷ b'm' ∷ b'o' ∷ b'c' ∷ b'k' ∷ b'-' ∷ b'a'
    ∷ b'i' ∷ b'-' ∷ b's' ∷ b'e' ∷ b'r' ∷ b'v' ∷ b'e' ∷ b'r' ∷ []

abbrev pub tags_packet : Bytes
tags_packet =
    b'O'
    ∷ b'p'
    ∷ b'u'
    ∷ b's'
    ∷ b'T'
    ∷ b'a'
    ∷ b'g'
    ∷ b's'
    ∷ (le32 (length vendor) ++ vendor ++ le32 0)

abbrev pub serial : ℕ
serial = 0x58495a48

module _ (crc : Bytes → ℕ) where
  -- `buildOggPage`: the checksum is that of the page with zeros in its place.
  unfoldable pub build_page : ℕ → ℕ → ℕ → Bytes → Bytes
  build_page sequence kind granule packet =
      page (le32 (crc (page (le32 0) serial sequence kind granule packet))) serial sequence kind
        granule packet

  -- The loop of `WrapOggOpusPackets`: the index of the next packet and the position so far.
  unfoldable pub wrap_from : ℕ → ℕ → ℕ → List Bytes → Bytes
  wrap_from frame i granule [] = []
  wrap_from frame i granule (p ∷ []) =
      build_page ((i + 2) % 2 ^ 32) 4 ((granule + frame) % 2 ^ 64) p
  wrap_from frame i granule (p ∷ q ∷ ps) =
      build_page ((i + 2) % 2 ^ 32) 0 ((granule + frame) % 2 ^ 64) p
      ++ wrap_from frame (suc i) ((granule + frame) % 2 ^ 64) (q ∷ ps)

  unfoldable pub wrap_packets : List Bytes → ℕ → ℕ → ℕ → Bytes
  wrap_packets ps rate channels frame =
      build_page 0 2 0 (head_packet rate channels)
      ++ (build_page 1 0 0 tags_packet ++ wrap_from frame 0 0 ps)
