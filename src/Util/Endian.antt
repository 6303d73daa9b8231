-- ===== src/Util/Endian.antt =====
-- include/net/util/endian.h, and the fields that `memcpy` reads from a buffer.
-- The halves that `|` joins have no bit in common, so `|` is written `+`.
use pcap_analyzer.Prelude.{ℕ, ◌+◌, ◌*◌, ◌/◌, ◌%◌, List, get_or}

pub data Endian : Type 0 where
  big little : Endian

unfoldable pub bswap16 : ℕ → ℕ
bswap16 x = x / 256 + x % 256 * 256

unfoldable pub bswap32 : ℕ → ℕ
bswap32 x = x / 16777216 % 256 + x / 65536 % 256 * 256 + x / 256 % 256 * 65536 + x % 256 * 16777216

unfoldable pub to_host16 : ℕ → Endian → ℕ
unfolding bswap16
to_host16 v Endian.big = bswap16 v
to_host16 v Endian.little = v

unfoldable pub to_host32 : ℕ → Endian → ℕ
unfolding bswap32
to_host32 v Endian.big = bswap32 v
to_host32 v Endian.little = v

-- The byte at an offset; the parsers read only below the size that they have checked.
abbrev pub byte_at : List ℕ → ℕ → ℕ
byte_at span i = get_or span i 0

-- What `memcpy` into a field of two or four bytes gives on the little-endian host.
unfoldable pub read16 : List ℕ → ℕ → ℕ
read16 span i = byte_at span i + byte_at span (i + 1) * 256

unfoldable pub read32 : List ℕ → ℕ → ℕ
read32 span i =
    byte_at span i
    + byte_at span (i + 1) * 256
    + byte_at span (i + 2) * 65536
    + byte_at span (i + 3) * 16777216
