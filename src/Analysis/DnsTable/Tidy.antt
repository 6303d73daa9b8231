-- ===== src/Analysis/DnsTable/Tidy.antt =====
-- The shape of the table, src/net/analysis/dns_table.cpp.
use pcap_analyzer.Prelude.{
  ℕ, ◌≡◌, ◌≢◌, inl, inr, refl, ◌∙◌, false, Bool-cases, Option-cases, List, [], ◌∷◌, ◌++◌, none,
  arith,
}
use pcap_analyzer.Protocols.Dns.{ResourceRecord, Header, is_response}
use pcap_analyzer.Flow.FlowKey.Laws.{is_same-memcmp}
use pcap_analyzer.Analysis.DnsTable.{
  IpKey, DnsTable, same_key, key_of, contains, add_name, add_for, record_one, record_records,
  record_message, find_names,
}
use pcap_analyzer.Analysis.DnsTable.Answers.{
  same_key_iff, contains_behind, find_names-add_for_other,
}

abbrev pub NoRepeat : List (List ℕ) → Type 0
NoRepeat [] = Unit {0}
NoRepeat (n ∷ names) = (contains n names ≡ false) × NoRepeat names

-- No address stands twice, and each has some names, none of them twice.
abbrev pub Tidy : DnsTable → Type 0
Tidy [] = Unit {0}
Tidy ((k, names) ∷ rest) = (find_names k rest ≡ none) × NoRepeat names × (names ≢ []) × Tidy rest

behind-NoRepeat :
    (n : List ℕ) (names : List (List ℕ))
    → contains n names ≡ false
    → NoRepeat names
    → NoRepeat (names ++ n ∷ [])
unfolding contains
behind-NoRepeat n [] e h = ground arith
behind-NoRepeat n (o ∷ names) e h = ground (
  arith,
  behind-NoRepeat n names,
  contains_behind o n names,
  is_same-memcmp o n,
  is_same-memcmp n n,
)

not_empty : (names : List (List ℕ)) (n : List ℕ) → names ++ n ∷ [] ≢ []
not_empty [] n = λ p. cc
not_empty (o ∷ names) n = λ p. cc

add_name-NoRepeat :
    (n : List ℕ) (names : List (List ℕ))
    → NoRepeat names
    → NoRepeat (add_name n names) × (add_name n names ≢ [])
unfolding add_name
add_name-NoRepeat n [] h = unfold contains in ground arith
add_name-NoRepeat n (o ∷ names) h = elim (Bool-cases (contains n (o ∷ names))) [
  | inl e ↦ rw (e) (h, λ p. cc)
  | inr e ↦ rw (e) (behind-NoRepeat n (o ∷ names) e h, not_empty (o ∷ names) n)
]

add_for-Tidy : (key : IpKey) (name : List ℕ) (t : DnsTable) → Tidy t → Tidy (add_for key name t)
unfolding add_for
add_for-Tidy key name [] h =
    let (unique, full) = add_name-NoRepeat name [] tt in
    (unfold find_names in refl, unique, full, tt)
add_for-Tidy key name ((k, names) ∷ rest) (lone, unique, full, tidy) =
    elim (Bool-cases (same_key k key)) [
      | inl e ↦
          let (unique2, full2) = add_name-NoRepeat name names unique in
          rw (e) (lone, unique2, full2, tidy)
      | inr e ↦
          let other : key ≢ k = λ p. ground (arith, same_key_iff k key) in
          rw (e) (
            find_names-add_for_other k key name rest other ∙ lone,
            unique,
            full,
            add_for-Tidy key name rest tidy,
          )
    ]

record_one-Tidy : (t : DnsTable) (rr : ResourceRecord) → Tidy t → Tidy (record_one t rr)
unfolding record_one
record_one-Tidy t rr h = elim (Option-cases (key_of rr)) [
  | inl e ↦ rw (e, record_one) h
  | inr (k, e) ↦ rw (e, record_one) (add_for-Tidy k rr.name t h)
]

record_records-Tidy :
    (rrs : List ResourceRecord) (t : DnsTable) → Tidy t → Tidy (record_records rrs t)
unfolding record_records
record_records-Tidy [] t h = h
record_records-Tidy (rr ∷ rrs) t h =
    record_records-Tidy rrs (record_one t rr) (record_one-Tidy t rr h)

-- Recording a message keeps the table tidy: no address gets a second entry, and each entry keeps at
-- least one name and none twice.
pub record_message-Tidy :
    (message : Header) (t : DnsTable) → Tidy t → Tidy (record_message message t)
unfolding record_message
record_message-Tidy message t h =
    let one = record_records-Tidy message.answers t h in
    let two = record_records-Tidy message.additional (record_records message.answers t) one in
    elim (Bool-cases (is_response message)) [ inl e ↦ rw (e) two | inr e ↦ rw (e) h ]
