-- ===== src/Flow/FlowKey/Laws.antt =====
-- How keys are compared and normalized, src/net/flow/flow_key.cpp.
use pcap_analyzer.Prelude.{
  ℕ, ◌≡◌, ◌≢◌, ◌↔◌, ◌⊎◌, inl, inr, refl, sym, ap, ◌∙◌, Bool, true, false, not, ◌&&◌, ◌||◌, ◌==◌,
  ==_iff, if◌then◌else◌, List, [], ◌∷◌, arith,
}
use pcap_analyzer.Flow.FlowKey.{
  Sign, below, same, above, memcmp, is_same, FlowKey, same_family, equals, swap, normalize,
  any_non_zero, matches,
}

abbrev opposite : Sign → Sign
opposite below = above
opposite same = same
opposite above = below

memcmp_refl : (xs : List ℕ) → memcmp xs xs ≡ same
unfolding memcmp
memcmp_refl [] = refl
memcmp_refl (x ∷ xs) = ground (arith, memcmp_refl xs)

memcmp_same : (xs ys : List ℕ) → memcmp xs ys ≡ same → xs ≡ ys
unfolding memcmp
memcmp_same [] [] h = refl
memcmp_same [] (y ∷ ys) h = cc
memcmp_same (x ∷ xs) [] h = cc
memcmp_same (x ∷ xs) (y ∷ ys) h = ground (arith, memcmp_same xs ys)

memcmp_flip : (xs ys : List ℕ) → memcmp ys xs ≡ opposite (memcmp xs ys)
unfolding memcmp
memcmp_flip [] [] = refl
memcmp_flip [] (y ∷ ys) = refl
memcmp_flip (x ∷ xs) [] = refl
memcmp_flip (x ∷ xs) (y ∷ ys) = ground (arith, memcmp_flip xs ys)

pub is_same-memcmp : (xs ys : List ℕ) → (is_same (memcmp xs ys) ≡ true) ↔ (xs ≡ ys)
is_same-memcmp xs ys = ground (arith, memcmp_same xs ys, memcmp_refl xs)

pub same_family_iff : (a b : Bool) → (same_family a b ≡ true) ↔ (a ≡ b)
same_family_iff true b = ground arith
same_family_iff false b = ground arith

-- Two keys are equal to the table when they are equal in every field.
pub equals_iff : (k o : FlowKey) → (equals k o ≡ true) ↔ (k ≡ o)
unfolding equals
equals_iff k o = ground (
  arith,
  is_same-memcmp k.src_ip o.src_ip,
  is_same-memcmp k.dst_ip o.dst_ip,
  ==_iff k.src_port o.src_port,
  ==_iff k.dst_port o.dst_port,
  ==_iff k.protocol o.protocol,
  same_family_iff k.is_ipv4 o.is_ipv4,
)

pub normalize_cases : (k : FlowKey) → (normalize k ≡ (k, false)) ⊎ (normalize k ≡ (swap k, true))
unfolding normalize
normalize_cases k = ground arith

-- A key and the key of the opposite direction have one normal form.
normalize-swap : (k : FlowKey) → (normalize (swap k)).0 ≡ (normalize k).0
unfolding normalize
normalize-swap k = ground (arith, memcmp_flip k.src_ip k.dst_ip, memcmp_same k.src_ip k.dst_ip)

-- Two keys have the same normal form exactly if they are equal or belong to the two directions of
-- one flow.
pub normalize_iff : (j k : FlowKey) → ((normalize j).0 ≡ (normalize k).0) ↔ ((j ≡ k) ⊎ (j ≡ swap k))
normalize_iff j k = (λ h. forth h (normalize_cases j) (normalize_cases k), back)
  where
    forth :
        (normalize j).0 ≡ (normalize k).0
        → (normalize j ≡ (j, false)) ⊎ (normalize j ≡ (swap j, true))
        → (normalize k ≡ (k, false)) ⊎ (normalize k ≡ (swap k, true))
        → (j ≡ k) ⊎ (j ≡ swap k)
    forth h (inl a) (inl b) = inl (sym (ap (λ p. p.0) a) ∙ h ∙ ap (λ p. p.0) b)
    forth h (inl a) (inr b) = inr (sym (ap (λ p. p.0) a) ∙ h ∙ ap (λ p. p.0) b)
    forth h (inr a) (inl b) = inr (ap swap (sym (ap (λ p. p.0) a) ∙ h ∙ ap (λ p. p.0) b))
    forth h (inr a) (inr b) = inl (ap swap (sym (ap (λ p. p.0) a) ∙ h ∙ ap (λ p. p.0) b))

    back : (j ≡ k) ⊎ (j ≡ swap k) → (normalize j).0 ≡ (normalize k).0
    back (inl e) = ap (λ q. (normalize q).0) e
    back (inr e) = ap (λ q. (normalize q).0) e ∙ normalize-swap k

-- A packet of the opposite direction is filed with the opposite flag, unless its two end points are
-- the same.
pub normalize_direction :
    (k : FlowKey)
    → (k.src_ip ≢ k.dst_ip) ⊎ (k.src_port ≢ k.dst_port)
    → (normalize (swap k)).1 ≡ not (normalize k).1
unfolding normalize
normalize_direction k h =
    ground (arith, memcmp_flip k.src_ip k.dst_ip, memcmp_same k.src_ip k.dst_ip)

abbrev pub IsZero : List ℕ → Type 0
IsZero [] = Unit {0}
IsZero (b ∷ bs) = (b ≡ 0) × IsZero bs

-- An address of a filter is left open when it is zero.
abbrev pub Selects : FlowKey → FlowKey → List ℕ → List ℕ → Type 0
Selects k pkt wanted found = IsZero wanted ⊎ ((k.is_ipv4 ≡ pkt.is_ipv4) × (wanted ≡ found))

abbrev pub Passes : FlowKey → FlowKey → Type 0
Passes k pkt =
    ((k.protocol ≡ 0) ⊎ (k.protocol ≡ pkt.protocol))
    × ((k.src_port ≡ 0) ⊎ (k.src_port ≡ pkt.src_port))
    × ((k.dst_port ≡ 0) ⊎ (k.dst_port ≡ pkt.dst_port))
    × Selects k pkt k.src_ip pkt.src_ip
    × Selects k pkt k.dst_ip pkt.dst_ip

pub any_non_zero_iff : (bs : List ℕ) → (any_non_zero bs ≡ false) ↔ IsZero bs
unfolding any_non_zero
any_non_zero_iff [] = (λ h. tt, λ h. refl)
any_non_zero_iff (b ∷ bs) = ground (arith, any_non_zero_iff bs)

field_iff : (a b : ℕ) → ((not (a == 0) && not (a == b)) ≡ false) ↔ ((a ≡ 0) ⊎ (a ≡ b))
field_iff a b = ground (arith, ==_iff a 0, ==_iff a b)

address_iff :
    (k pkt : FlowKey) (wanted found : List ℕ)
    → ((any_non_zero wanted
          && (not (same_family k.is_ipv4 pkt.is_ipv4) || not (is_same (memcmp wanted found))))
        ≡ false)
      ↔ Selects k pkt wanted found
address_iff k pkt wanted found = ground (
  arith,
  any_non_zero_iff wanted,
  is_same-memcmp wanted found,
  same_family_iff k.is_ipv4 pkt.is_ipv4,
)

five_tests :
    (a b c d e : Bool)
    → ((if a
          then false
          else if b
          then false
          else if c
          then false
          else if d
          then false
          else if e
          then false
          else true)
        ≡ true)
      ↔ ((a ≡ false) × (b ≡ false) × (c ≡ false) × (d ≡ false) × (e ≡ false))
five_tests a b c d e = ground arith

-- A filter lets a key through exactly if each of its fields is zero or equal to the key's, where an
-- address is equal only within its family.
pub matches_iff : (k pkt : FlowKey) → (matches k pkt ≡ true) ↔ Passes k pkt
unfolding matches
matches_iff k pkt =
    let all = five_tests _ _ _ _ _ in
    let p = field_iff k.protocol pkt.protocol in
    let s = field_iff k.src_port pkt.src_port in
    let d = field_iff k.dst_port pkt.dst_port in
    let a = address_iff k pkt k.src_ip pkt.src_ip in
    let b = address_iff k pkt k.dst_ip pkt.dst_ip in
    (
      λ h. let t = all.0 h in (p.0 t.0, s.0 t.1, d.0 t.2, a.0 t.3, b.0 t.4),
      λ h. all.1 (p.1 h.0, s.1 h.1, d.1 h.2, a.1 h.3, b.1 h.4),
    )
