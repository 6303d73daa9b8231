-- ===== src/Util/Checksum/Fold.antt =====
-- The loops that fold a checksum to 16 bits, src/net/util/checksum.cpp.
use pcap_analyzer.Prelude.{ℕ, zero, suc, ◌+◌, ◌/◌, ◌%◌, ◌≤◌, ◌<◌, ◌≡◌, ◌⊎◌, arith}
use pcap_analyzer.Util.Checksum.{fold_loop, fold}

fold_loop_ends :
    (fuel s : ℕ)
    → s ≤ fuel
    → (fold_loop fuel s < 65536)
      × (fold_loop fuel s % 65535 ≡ s % 65535)
      × (((s ≡ 0) × (fold_loop fuel s ≡ 0)) ⊎ ((0 < s) × (0 < fold_loop fuel s)))
unfolding fold_loop
fold_loop_ends zero s h = ground arith
fold_loop_ends (suc fuel) s h = ground (arith, fold_loop_ends fuel (s % 65536 + s / 65536))

-- The fold loop ends for every sum, in a 16-bit word with the same remainder modulo 65535 that is
-- zero only for the sum zero: what one's complement addition of the sum's 16-bit parts gives.
pub fold_ends :
    (s : ℕ)
    → (fold s < 65536)
      × (fold s % 65535 ≡ s % 65535)
      × (((s ≡ 0) × (fold s ≡ 0)) ⊎ ((0 < s) × (0 < fold s)))
unfolding fold
fold_ends s = fold_loop_ends s s (omega arith)
