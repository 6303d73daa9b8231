-- ===== src/Analysis/DnsTable/Answers.antt =====
-- What the table knows after a message, src/net/analysis/dns_table.cpp.
use pcap_analyzer.Prelude.{
  ℕ, ◌≡◌, ◌≢◌, ◌↔◌, ◌⊎◌, inl, inr, sym, subst, true, false, Bool-cases, Option-cases, ==_iff, List,
  [], ◌∷◌, ◌++◌, length, replicate, Option, none, some, arith,
}
use pcap_analyzer.Protocols.Dns.{ResourceRecord, Header, is_response}
use pcap_analyzer.Flow.FlowKey.Laws.{same_family_iff, is_same-memcmp}
use pcap_analyzer.Analysis.DnsTable.{
  IpKey, DnsTable, same_key, key_of, contains, add_name, add_for, record_one, record_records,
  record_message, find_names,
}

pub same_key_iff : (k o : IpKey) → (same_key k o ≡ true) ↔ (k ≡ o)
unfolding same_key
same_key_iff k o = ground (arith, is_same-memcmp k.ip o.ip, same_family_iff k.is_ipv4 o.is_ipv4)

-- The names that the table has for an address.
abbrev pub names_in : Option (List (List ℕ)) → List (List ℕ)
names_in none = []
names_in (some names) = names

abbrev pub Knows : DnsTable → IpKey → List ℕ → Type 0
Knows t key name = contains name (names_in (find_names key t)) ≡ true

-- A record holds an address: type 1 (A) and 4 bytes, which are an IPv4 address, filled up with zeros
-- to the 16 bytes of a key, or type 28 (AAAA) and 16 bytes, which are an IPv6 address.
abbrev pub Holds : ResourceRecord → IpKey → Type 0
Holds rr key =
    ((rr.type ≡ 1)
      × (length rr.rdata ≡ 4)
      × (key.is_ipv4 ≡ true)
      × (key.ip ≡ rr.rdata ++ replicate 12 0))
    ⊎ ((rr.type ≡ 28) × (length rr.rdata ≡ 16) × (key.is_ipv4 ≡ false) × (key.ip ≡ rr.rdata))

key_of_iff : (rr : ResourceRecord) (key : IpKey) → (key_of rr ≡ some key) ↔ Holds rr key
unfolding key_of
key_of_iff rr key = ground (arith, ==_iff rr.type 1, ==_iff rr.type 28)

-- Some record of the list holds the address and carries the name.
abbrev pub Given : List ResourceRecord → IpKey → List ℕ → Type 0
Given [] key name = ⊥
Given (rr ∷ rrs) key name = (Holds rr key × (rr.name ≡ name)) ⊎ Given rrs key name

pub contains_behind :
    (m n : List ℕ) (names : List (List ℕ))
    → (contains m (names ++ n ∷ []) ≡ true) ↔ ((contains m names ≡ true) ⊎ (n ≡ m))
unfolding contains
contains_behind m n [] = ground (arith, is_same-memcmp n m)
contains_behind m n (o ∷ names) = ground (arith, contains_behind m n names)

contains-add_name :
    (m n : List ℕ) (names : List (List ℕ))
    → (contains m (add_name n names) ≡ true) ↔ ((contains m names ≡ true) ⊎ (n ≡ m))
unfolding add_name
contains-add_name m n names = elim (Bool-cases (contains n names)) [
  | inl e ↦ rw (e) ((λ h. inl h), back e)
  | inr e ↦ rw (e) (contains_behind m n names)
]
  where
    back : contains n names ≡ true → (contains m names ≡ true) ⊎ (n ≡ m) → contains m names ≡ true
    back e (inl h) = h
    back e (inr h) = subst (λ x. contains x names ≡ true) h e

find_names-add_for :
    (key : IpKey) (name : List ℕ) (t : DnsTable)
    → names_in (find_names key (add_for key name t)) ≡ add_name name (names_in (find_names key t))
unfolding find_names add_for
find_names-add_for key name [] = ground (arith, same_key_iff key key)
find_names-add_for key name ((k, names) ∷ rest) =
    ground (arith, same_key_iff k key, find_names-add_for key name rest)

pub find_names-add_for_other :
    (other key : IpKey) (name : List ℕ) (t : DnsTable)
    → key ≢ other
    → find_names other (add_for key name t) ≡ find_names other t
unfolding find_names add_for
find_names-add_for_other other key name [] h = ground (arith, same_key_iff key other)
find_names-add_for_other other key name ((k, names) ∷ rest) h = ground (
  arith,
  same_key_iff k key,
  same_key_iff k other,
  find_names-add_for_other other key name rest h,
)

add_for_iff :
    (k : IpKey) (n : List ℕ) (t : DnsTable) (key : IpKey) (name : List ℕ)
    → Knows (add_for k n t) key name ↔ (Knows t key name ⊎ ((k ≡ key) × (n ≡ name)))
add_for_iff k n t key name = elim (Bool-cases (same_key k key)) [
  | inl e ↦ here ((same_key_iff k key).0 e)
  | inr e ↦
      let other : k ≢ key = λ p. ground (arith, same_key_iff k key) in
      let same = find_names-add_for_other key k n t other in
      (
        λ h. inl (subst (λ o. contains name (names_in o) ≡ true) same h),
        λ h. back other (subst (λ o. contains name (names_in o) ≡ true) (sym same)) h,
      )
]
  where
    back :
        k ≢ key
        → (Knows t key name → Knows (add_for k n t) key name)
        → Knows t key name ⊎ ((k ≡ key) × (n ≡ name))
        → Knows (add_for k n t) key name
    back other f (inl h) = f h
    back other f (inr h) = absurd (other h.0)

    here : k ≡ key → Knows (add_for k n t) key name ↔ (Knows t key name ⊎ ((k ≡ key) × (n ≡ name)))
    here e =
        let same : names_in (find_names key (add_for k n t))
            ≡ add_name n (names_in (find_names key t)) =
          subst
            (λ j. names_in (find_names j (add_for k n t)) ≡ add_name n (names_in (find_names j t)))
            e (find_names-add_for k n t) in
        let both = contains-add_name name n (names_in (find_names key t)) in
        rw same (ground (arith, both, e))

record_one_iff :
    (t : DnsTable) (rr : ResourceRecord) (key : IpKey) (name : List ℕ)
    → Knows (record_one t rr) key name ↔ (Knows t key name ⊎ (Holds rr key × (rr.name ≡ name)))
unfolding record_one
record_one_iff t rr key name = elim (Option-cases (key_of rr)) [
  | inl e ↦ ground (arith, key_of_iff rr key)
  | inr (k, e) ↦ ground (arith, key_of_iff rr key, add_for_iff k rr.name t key name)
]

record_records_iff :
    (rrs : List ResourceRecord) (t : DnsTable) (key : IpKey) (name : List ℕ)
    → Knows (record_records rrs t) key name ↔ (Knows t key name ⊎ Given rrs key name)
unfolding record_records
record_records_iff [] t key name = ground arith
record_records_iff (rr ∷ rrs) t key name =
    let one = record_one_iff t rr key name in
    let more = record_records_iff rrs (record_one t rr) key name in
    (λ h. split one.0 (more.0 h), λ h. more.1 (merge one.1 h))
  where
    split : {A B C D : Type 0} → (A → B ⊎ C) → A ⊎ D → B ⊎ (C ⊎ D)
    split f (inl a) = elim (f a) [ inl b ↦ inl b | inr c ↦ inr (inl c) ]
    split f (inr d) = inr (inr d)

    merge : {A B C D : Type 0} → (B ⊎ C → A) → B ⊎ (C ⊎ D) → A ⊎ D
    merge f (inl b) = inl (f (inl b))
    merge f (inr (inl c)) = inl (f (inr c))
    merge f (inr (inr d)) = inr d

-- After a message, a name is known for an address exactly if it was known before, or if the message
-- is a response and one of its answers or additional records carries the name and holds the address:
-- with type 1 and 4 bytes for IPv4, or with type 28 and 16 bytes for IPv6.
pub record_message_iff :
    (message : Header) (t : DnsTable) (key : IpKey) (name : List ℕ)
    → Knows (record_message message t) key name ↔ (
        Knows t key name
        ⊎ ((is_response message ≡ true)
            × (Given message.answers key name ⊎ Given message.additional key name)))
unfolding record_message
record_message_iff message t key name =
    let one = record_records_iff message.answers t key name in
    let two = record_records_iff message.additional (record_records message.answers t) key name in
    elim (Bool-cases (is_response message)) [
      | inl e ↦ rw (e) (ground (arith, one, two))
      | inr e ↦ rw (e) (ground arith)
    ]
