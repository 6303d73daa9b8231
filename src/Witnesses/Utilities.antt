-- ===== src/Witnesses/Utilities.antt =====
-- Concrete sums and texts, src/net/util.
use pcap_analyzer.Prelude.{ℕ, ◌<◌, ◌≤◌, ◌≡◌, ◌≢◌, ◌↔◌, ◌⊎◌, ◌%◌, List, [], ◌∷◌, some, All, arith}
use pcap_analyzer.Util.Checksum.{fold}
use pcap_analyzer.Util.Checksum.Fold.{fold_ends}
use pcap_analyzer.Util.Text.{parse_uint}
use pcap_analyzer.Util.Text.Numbers.{IsDigit, number, parse_uint_iff}

fold_ends_example :
    (fold 200000 < 65536)
    × (fold 200000 % 65535 ≡ 200000 % 65535)
    × ((◌≡◌ {A = ℕ} 200000 0 × (fold 200000 ≡ 0)) ⊎ ((0 < 200000) × (0 < fold 200000)))
fold_ends_example = fold_ends 200000

abbrev text : List ℕ
text = 54 ∷ 53 ∷ 53 ∷ 51 ∷ 53 ∷ []

parse_uint_iff_example :
    (parse_uint text 65535 ≡ some 65535)
    ↔ ((text ≢ []) × All IsDigit text × ◌≡◌ {A = ℕ} 65535 (number text 0) × (65535 ≤ 65535))
parse_uint_iff_example = parse_uint_iff text 65535 65535 (omega arith) (omega arith)
