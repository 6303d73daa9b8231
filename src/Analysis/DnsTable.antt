-- ===== src/Analysis/DnsTable.antt =====
-- include/net/analysis/dns_table.h and src/net/analysis/dns_table.cpp: the names that DNS answers gave
-- for an address. The hash map is a list of its entries, in some order. Answers and Tidy prove.
use pcap_analyzer.Prelude.{
  ℕ, Bool, true, false, not, ◌&&◌, ◌==◌, if◌then◌else◌, List, [], ◌∷◌, ◌++◌, length, replicate,
  Option, none, some,
}
use pcap_analyzer.Protocols.Dns.{ResourceRecord, Header, is_response, type_a, type_aaaa}
use pcap_analyzer.Flow.FlowKey.{memcmp, is_same, same_family}
pub mod Answers
pub mod Tidy

-- The array of 16 bytes is a list.
pub record IpKey : Type 0 where
  pub is_ipv4 : Bool
  pub ip : List ℕ

-- `IpKey::operator==`
unfoldable pub same_key : IpKey → IpKey → Bool
unfolding memcmp
same_key k o = same_family k.is_ipv4 o.is_ipv4 && is_same (memcmp k.ip o.ip)

abbrev pub DnsTable : Type 0
DnsTable = List (IpKey × List (List ℕ))

-- The address of a record of type A or AAAA, if it has the right size.
unfoldable pub key_of : ResourceRecord → Option IpKey
key_of rr =
    if rr.type == type_a && length rr.rdata == 4
    then some (record { is_ipv4 = true; ip = rr.rdata ++ replicate 12 0 })
    else if rr.type == type_aaaa && length rr.rdata == 16
    then some (record { is_ipv4 = false; ip = rr.rdata })
    else none

-- `std::find(names.begin(), names.end(), name) != names.end()`
unfoldable pub contains : List ℕ → List (List ℕ) → Bool
unfolding memcmp
contains name [] = false
contains name (n ∷ names) =
    let rest = contains name names in if is_same (memcmp n name) then true else rest

unfoldable pub add_name : List ℕ → List (List ℕ) → List (List ℕ)
unfolding contains
add_name name names = if contains name names then names else names ++ name ∷ []

-- The entry of a key, made when there is none, takes a name.
unfoldable pub add_for : IpKey → List ℕ → DnsTable → DnsTable
unfolding same_key add_name
add_for key name [] = (key, add_name name []) ∷ []
add_for key name ((k, names) ∷ rest) =
    let later = add_for key name rest in
    if same_key k key then (k, add_name name names) ∷ rest else (k, names) ∷ later

unfoldable pub record_one : DnsTable → ResourceRecord → DnsTable
unfolding key_of add_for
record_one t rr = elim (key_of rr) [ none ↦ t | some key ↦ add_for key rr.name t ]

unfoldable pub record_records : List ResourceRecord → DnsTable → DnsTable
unfolding record_one
record_records [] t = t
record_records (rr ∷ rrs) t = record_records rrs (record_one t rr)

-- `DnsTable::record`
unfoldable pub record_message : Header → DnsTable → DnsTable
unfolding is_response record_records
record_message message t =
    if not (is_response message)
    then t
    else record_records message.additional (record_records message.answers t)

unfoldable pub find_names : IpKey → DnsTable → Option (List (List ℕ))
unfolding same_key
find_names key [] = none
find_names key ((k, names) ∷ rest) =
    let later = find_names key rest in if same_key k key then some names else later

unfoldable pub domains_for : List ℕ → Bool → DnsTable → Option (List (List ℕ))
unfolding find_names
domains_for ip is_ipv4 t = find_names (record { is_ipv4 = is_ipv4; ip = ip }) t

unfoldable pub size : DnsTable → ℕ
size t = length t
