-- ===== src/Capture/Pcap/Records.antt =====
-- Records of a capture file as bytes, include/net/capture/pcap.h.
use pcap_analyzer.Prelude.{
  ℕ, ◌+◌, ◌*◌, ◌/◌, ◌%◌, ◌≤◌, ◌<◌, ◌≡◌, List, [], ◌∷◌, ◌++◌, length, drop, IsU32, arith,
}
use pcap_analyzer.Util.ParseError.{ok}
use pcap_analyzer.Util.Endian.{Endian, to_host32, bswap32, read32}
use pcap_analyzer.Capture.Pcap.{PacketHeader, packet_header_of, parse_packet_header}

-- A 32-bit field in the byte order of the file.
abbrev pub encode32 : ℕ → Endian → List ℕ
encode32 w Endian.little = w % 256 ∷ w / 256 % 256 ∷ w / 65536 % 256 ∷ w / 16777216 ∷ []
encode32 w Endian.big = w / 16777216 ∷ w / 65536 % 256 ∷ w / 256 % 256 ∷ w % 256 ∷ []

abbrev pub encode : PacketHeader → Endian → List ℕ
encode h endian =
    encode32 h.ts_sec endian
    ++ encode32 h.ts_usec endian
    ++ encode32 h.incl_len endian
    ++ encode32 h.orig_len endian

-- The words of a record header, and a header that the reader accepts.
pub record IsRecord (h : PacketHeader) : Type 0 where
  pub ts_sec32 : IsU32 h.ts_sec
  pub ts_usec32 : IsU32 h.ts_usec
  pub incl_len32 : IsU32 h.incl_len
  pub orig_len32 : IsU32 h.orig_len
  pub some_data : 0 < h.incl_len
  pub not_longer : h.incl_len ≤ h.orig_len

decode32_little :
    (w : ℕ)
    → IsU32 w
    → w % 256 + w / 256 % 256 * 256 + w / 65536 % 256 * 65536 + w / 16777216 * 16777216 ≡ w
decode32_little w h = omega arith

decode32_big :
    (w : ℕ)
    → IsU32 w
    → bswap32 (w / 16777216 + w / 65536 % 256 * 256 + w / 256 % 256 * 65536 + w % 256 * 16777216)
      ≡ w
unfolding bswap32
decode32_big w h = omega arith

same_header :
    (h : PacketHeader) {a b c d : ℕ}
    → a ≡ h.ts_sec
    → b ≡ h.ts_usec
    → c ≡ h.incl_len
    → d ≡ h.orig_len
    → record { ts_sec = a; ts_usec = b; incl_len = c; orig_len = d } ≡ h
same_header h ea eb ec ed = cc

packet_header_of-encode :
    (h : PacketHeader) (endian : Endian) (rest : List ℕ)
    → IsRecord h
    → packet_header_of (encode h endian ++ rest) endian ≡ h
unfolding packet_header_of read32 to_host32 bswap32
packet_header_of-encode h Endian.little rest v =
    same_header h (decode32_little h.ts_sec v.ts_sec32) (decode32_little h.ts_usec v.ts_usec32)
      (decode32_little h.incl_len v.incl_len32) (decode32_little h.orig_len v.orig_len32)
packet_header_of-encode h Endian.big rest v =
    same_header h (decode32_big h.ts_sec v.ts_sec32) (decode32_big h.ts_usec v.ts_usec32)
      (decode32_big h.incl_len v.incl_len32) (decode32_big h.orig_len v.orig_len32)

parsed :
    (bytes : List ℕ) (endian : Endian) (h : PacketHeader)
    → packet_header_of bytes endian ≡ h
    → 16 ≤ length bytes
    → IsRecord h
    → parse_packet_header bytes endian ≡ ok (h, drop 16 bytes)
unfolding parse_packet_header
parsed bytes endian h e l v = let p = v.some_data in let q = v.not_longer in ground arith

-- A record header that is written in the byte order of the file, with data in it and not more than
-- the packet had, is read back unchanged, and the reader stands behind it.
pub parse_packet_header-encode :
    (h : PacketHeader) (endian : Endian) (rest : List ℕ)
    → IsRecord h
    → parse_packet_header (encode h endian ++ rest) endian ≡ ok (h, rest)
parse_packet_header-encode h Endian.little rest v =
    parsed (encode h Endian.little ++ rest) Endian.little h
      (packet_header_of-encode h Endian.little rest v) (omega arith) v
parse_packet_header-encode h Endian.big rest v =
    parsed (encode h Endian.big ++ rest) Endian.big h (packet_header_of-encode h Endian.big rest v)
      (omega arith) v
