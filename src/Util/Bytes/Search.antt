-- ===== src/Util/Bytes/Search.antt =====
-- Searching a byte, as `std::string_view::find` does.
use pcap_analyzer.Prelude.{
  ℕ, zero, suc, ◌≤◌, ◌<◌, ◌≡◌, refl, ap, List, [], ◌∷◌, ◌++◌, length, get_or, take, some,
  Option-cases, inl, inr, arith,
}
use pcap_analyzer.Util.Bytes.{index_of}

pub index_of-bound : (c : ℕ) (bs : List ℕ) (i : ℕ) → index_of c bs ≡ some i → i < length bs
unfolding index_of
index_of-bound c [] i e = cc
index_of-bound c (b ∷ bs) i e = elim (Option-cases (index_of c bs)) [
  | inl n ↦ ground (arith, n)
  | inr (j, n) ↦ ground (arith, n, index_of-bound c bs j n)
]

pub index_of-append :
    (c : ℕ) (bs more : List ℕ) (i : ℕ) → index_of c bs ≡ some i → index_of c (bs ++ more) ≡ some i
unfolding index_of
index_of-append c [] more i e = cc
index_of-append c (b ∷ bs) more i e = elim (Option-cases (index_of c bs)) [
  | inl n ↦ ground (arith, n)
  | inr (j, n) ↦ ground (arith, n, index_of-append c bs more j n)
]

pub get_or-append :
    (bs more : List ℕ) (i d : ℕ) → i < length bs → get_or (bs ++ more) i d ≡ get_or bs i d
get_or-append [] more i d h = absurd (omega arith)
get_or-append (b ∷ bs) more zero d h = refl
get_or-append (b ∷ bs) more (suc i) d h = get_or-append bs more i d (omega arith)

pub take-append : (n : ℕ) (bs more : List ℕ) → n ≤ length bs → take n (bs ++ more) ≡ take n bs
take-append zero bs more h = refl
take-append (suc n) [] more h = absurd (omega arith)
take-append (suc n) (b ∷ bs) more h = ap (◌∷◌ b) (take-append n bs more (omega arith))
