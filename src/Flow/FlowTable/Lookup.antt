-- ===== src/Flow/FlowTable/Lookup.antt =====
-- The entries of the flow table, src/net/flow/flow_table.cpp: one for each key, and a packet changes
-- the entry of its own key only.
use pcap_analyzer.Prelude.{
  ◌≡◌, ◌≢◌, inl, inr, refl, sym, ◌∙◌, true, false, Bool-cases, List, [], ◌∷◌, none, some, arith,
}
use pcap_analyzer.Flow.FlowKey.{FlowKey, equals}
use pcap_analyzer.Flow.FlowKey.Laws.{equals_iff}
use pcap_analyzer.Flow.FlowTable.{Flow, find, erase, put}

-- No key stands twice.
abbrev pub Distinct : List (FlowKey × Flow) → Type 0
Distinct [] = Unit {0}
Distinct ((k, f) ∷ rest) = (find k rest ≡ none) × Distinct rest

equals_refl : (k : FlowKey) → equals k k ≡ true
equals_refl k = (equals_iff k k).1 refl

pub equals_ne : (k o : FlowKey) → k ≢ o → equals k o ≡ false
equals_ne k o h = ground (arith, equals_iff k o)

pub keys_ne : (k o : FlowKey) → equals k o ≡ false → k ≢ o
keys_ne k o h = ground (arith, equals_iff k o)

pub find-put :
    (key : FlowKey) (flow : Flow) (l : List (FlowKey × Flow))
    → find key (put key flow l) ≡ some flow
unfolding find put
find-put key flow [] = ground (arith, equals_refl key)
find-put key flow ((k, f) ∷ rest) = ground (arith, find-put key flow rest)

pub find-put_other :
    (other key : FlowKey) (flow : Flow) (l : List (FlowKey × Flow))
    → other ≢ key
    → find other (put key flow l) ≡ find other l
unfolding find put
find-put_other other key flow [] h = ground (arith, equals_ne key other (λ e. h (sym e)))
find-put_other other key flow ((k, f) ∷ rest) h =
    ground (arith, find-put_other other key flow rest, equals_iff k key, equals_iff k other)

pub find-erase_other :
    (other key : FlowKey) (l : List (FlowKey × Flow))
    → other ≢ key
    → find other (erase key l) ≡ find other l
unfolding find erase
find-erase_other other key [] h = refl
find-erase_other other key ((k, f) ∷ rest) h =
    ground (arith, find-erase_other other key rest h, equals_iff k key, equals_iff k other)

pub find-erase :
    (key : FlowKey) (l : List (FlowKey × Flow)) → Distinct l → find key (erase key l) ≡ none
unfolding find erase
find-erase key [] h = refl
find-erase key ((k, f) ∷ rest) h = ground (arith, find-erase key rest, equals_iff k key, h.0)

pub put-Distinct :
    (key : FlowKey) (flow : Flow) (l : List (FlowKey × Flow))
    → Distinct l
    → Distinct (put key flow l)
unfolding put
put-Distinct key flow [] h = (unfold find in refl, tt)
put-Distinct key flow ((k, f) ∷ rest) h = elim (Bool-cases (equals k key)) [
  | inl e ↦ rw e h
  | inr e ↦
      rw e (find-put_other k key flow rest (keys_ne k key e) ∙ h.0, put-Distinct key flow rest h.1)
]

pub erase-Distinct :
    (key : FlowKey) (l : List (FlowKey × Flow)) → Distinct l → Distinct (erase key l)
unfolding erase
erase-Distinct key [] h = tt
erase-Distinct key ((k, f) ∷ rest) h = elim (Bool-cases (equals k key)) [
  | inl e ↦ rw e h.1
  | inr e ↦ rw e (find-erase_other k key rest (keys_ne k key e) ∙ h.0, erase-Distinct key rest h.1)
]
