-- ===== src/Util/Checksum.antt =====
-- src/net/util/checksum.cpp. `std::memcpy` of 4 and 8 bytes reads little-endian words; the `uint64_t`
-- sums wrap at 2 ^ 64.
use pcap_analyzer.Prelude.{
  ℕ, zero, suc, ◌+◌, ◌-◌, ◌*◌, ◌/◌, ◌%◌, Bool, ◌==◌, if◌then◌else◌, List, [], ◌∷◌, length, drop,
  u16_mod, u32_mod, add64,
}
use pcap_analyzer.Util.Endian.{bswap16, read32}
pub mod Fold

-- The four accumulators.
pub record Sums : Type 0 where
  pub a : ℕ
  pub b : ℕ
  pub c : ℕ
  pub d : ℕ

-- `(w & 0xFFFFFFFF) + (w >> 32)` of the 8-byte word at `i`.
unfoldable pub halves : List ℕ → ℕ → ℕ
unfolding read32
halves bytes i =
    let w = read32 bytes i + read32 bytes (i + 4) * u32_mod in w % u32_mod + w / u32_mod

-- The loop over blocks of 32 bytes, with the rounds that are left, and the bytes it leaves.
unfoldable pub sum_blocks : ℕ → List ℕ → Sums → Sums
unfolding halves add64
sum_blocks zero bytes s = s
sum_blocks (suc rounds) bytes s = sum_blocks rounds (drop 32 bytes) (record {
  a = add64 s.a (halves bytes 0);
  b = add64 s.b (halves bytes 8);
  c = add64 s.c (halves bytes 16);
  d = add64 s.d (halves bytes 24);
})

-- The loop over words of 4 bytes.
unfoldable pub sum_words : ℕ → List ℕ → ℕ → ℕ
unfolding read32 add64
sum_words zero bytes swapped = swapped
sum_words (suc rounds) bytes swapped =
    sum_words rounds (drop 4 bytes) (add64 swapped (read32 bytes 0))

-- `while (s >> 16) s = (s & 0xFFFF) + (s >> 16);` with fuel.
unfoldable pub fold_loop : ℕ → ℕ → ℕ
fold_loop zero s = s
fold_loop (suc fuel) s =
    let rest = fold_loop fuel (s % u16_mod + s / u16_mod) in if s / u16_mod == 0 then s else rest

-- Each round makes the sum smaller, so the sum itself is enough fuel.
unfoldable pub fold : ℕ → ℕ
unfolding fold_loop
fold s = fold_loop s s

-- The loop over pairs of bytes, and the odd byte at the end.
unfoldable pub sum_pairs : List ℕ → ℕ → ℕ
unfolding add64
sum_pairs [] sum = sum
sum_pairs (hi ∷ []) sum = add64 sum (hi * 256)
sum_pairs (hi ∷ lo ∷ rest) sum = sum_pairs rest (add64 sum (hi * 256 + lo))

-- `bytes` are the `len` bytes from `data` on.
unfoldable pub verify_checksum : List ℕ → ℕ → Bool
unfolding sum_blocks sum_words fold sum_pairs bswap16 add64
verify_checksum bytes pseudo_header_sum =
    let blocks = length bytes / 32 in
    let rest = drop (32 * blocks) bytes in
    let words = length rest / 4 in
    let s = sum_blocks blocks bytes (record { a = 0; b = 0; c = 0; d = 0 }) in
    let swapped = sum_words words rest (add64 (add64 (add64 s.a s.b) s.c) s.d) in
    let sum = add64 pseudo_header_sum (bswap16 (fold swapped % u16_mod)) in
    let total = fold (sum_pairs (drop (4 * words) rest) sum) in u16_mod - 1 - total % u16_mod == 0
