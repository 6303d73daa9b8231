-- ===== src/Decode/Selection.antt =====
-- Which frames the decoder takes, src/net/decode/decoder.cpp.
use pcap_analyzer.Prelude.{
  ℕ, ◌≡◌, ◌≢◌, ◌↔◌, ◌⊎◌, inl, inr, refl, sym, ap, subst, ◌∙◌, Bool, true, false, not, ◌&&◌, ==_iff,
  Bool-cases, then_of, else_of, List, arith,
}
use pcap_analyzer.Util.ParseError.{ParseError, Result, ok, err, filtered, ◌>>=◌}
use pcap_analyzer.Decode.Packet.{Packet, reset, is_arp}
use pcap_analyzer.Decode.PacketDecoder.{decode_packet}
use pcap_analyzer.Decode.Decoder.{
  Config, Decoder, selected, decode, file_decoded, settle_filed, filtered_out,
}
use pcap_analyzer.Decode.Outcomes.{filter_cases}
use pcap_analyzer.Flow.FlowKey.{FlowKey, normalize, is_non_zero}
use pcap_analyzer.Flow.FlowKey.Laws.{IsZero, Passes, any_non_zero_iff, matches_iff}
use pcap_analyzer.Flow.FlowTable.{
  Flow, FlowTable, Filed, no_flow, filed, Capture, file_packet, key_from_packet, add_packet,
}

-- A filter without any field.
abbrev pub IsBlank : FlowKey → Type 0
IsBlank k =
    (k.protocol ≡ 0) × (k.src_port ≡ 0) × (k.dst_port ≡ 0) × IsZero k.src_ip × IsZero k.dst_ip

abbrev pub HasKey : Packet → Type 0
HasKey pkt = (key : FlowKey) × (key_from_packet pkt ≡ ok key)

-- A filter selects a packet when it is blank, or when the packet has a key that passes it.
abbrev pub IsSelected : FlowKey → Packet → Type 0
IsSelected filter pkt =
    IsBlank filter ⊎ ((key : FlowKey) × (key_from_packet pkt ≡ ok key) × Passes filter key)

is_non_zero_iff : (k : FlowKey) → (is_non_zero k ≡ false) ↔ IsBlank k
unfolding is_non_zero
is_non_zero_iff k = ground (
  arith,
  ==_iff k.protocol 0,
  ==_iff k.src_port 0,
  ==_iff k.dst_port 0,
  any_non_zero_iff k.src_ip,
  any_non_zero_iff k.dst_ip,
)

selected_iff :
    (filter : FlowKey) (r : Result FlowKey)
    → (selected filter r ≡ true) ↔ ((key : FlowKey) × (r ≡ ok key) × Passes filter key)
selected_iff filter (err code) = (λ e. cc, λ (key, e, p). cc)
selected_iff filter (ok k) = (
  λ e. (k, refl, (matches_iff filter k).0 e),
  λ (key, e, p).
      let same : key ≡ k = cc in (matches_iff filter k).1 (subst (λ j. Passes filter j) same p),
)

two_tests : (a b : Bool) → ((a && not b) ≡ false) ↔ ((a ≡ false) ⊎ (b ≡ true))
two_tests a b = ground arith

kept_iff :
    (config : Config) (pkt : Packet)
    → (filtered_out config pkt ≡ false) ↔ IsSelected config.filter pkt
unfolding filtered_out
kept_iff config pkt =
    let blank = is_non_zero_iff config.filter in
    let passing = selected_iff config.filter (key_from_packet pkt) in
    let both = two_tests (is_non_zero config.filter) _ in
    (
      λ h. elim (both.0 h) [ inl a ↦ inl (blank.0 a) | inr b ↦ inr (passing.0 b) ],
      λ h. both.1 (elim h [ inl a ↦ inl (blank.1 a) | inr b ↦ inr (passing.1 b) ]),
    )

key_refused : (pkt : Packet) {code : ParseError} → key_from_packet pkt ≡ err code → code ≢ filtered
unfolding key_from_packet
key_refused pkt e = ground arith

-- ARP is let through without a flow; any other packet needs a key.
abbrev pub IsFiled : Packet → Type 0
IsFiled pkt = (is_arp pkt.network ≡ true) ⊎ HasKey pkt

abbrev placed : FlowTable → Capture → FlowKey → FlowTable × Filed
placed t c key =
    let (normal, reversed) = normalize key in
    let (t', is_new) = file_packet t normal reversed c in (t', filed normal is_new)

add_packet-keyed :
    (t : FlowTable) (c : Capture) (r : Result FlowKey)
    → is_arp c.pkt.network ≡ false
    → key_from_packet c.pkt ≡ r
    → add_packet t c ≡ (r >>= λ key. ok (placed t c key))
unfolding add_packet
add_packet-keyed t c r e k = else_of _ _ e ∙ ap (λ q. q >>= λ key. ok (placed t c key)) k

none_filed :
    (pkt : Packet) {code : ParseError}
    → is_arp pkt.network ≡ false
    → key_from_packet pkt ≡ err code
    → IsFiled pkt
    → ⊥
none_filed pkt e k (inl a) = cc
none_filed pkt e k (inr (key, h)) = cc

-- A packet is filed, or the error is not that of the filter.
add_packet_cases :
    (t : FlowTable) (c : Capture)
    → (IsFiled c.pkt × ((r : FlowTable × Filed) × (add_packet t c ≡ ok r)))
      ⊎ ((IsFiled c.pkt → ⊥)
          × ((code : ParseError) × (code ≢ filtered) × (add_packet t c ≡ err code)))
unfolding add_packet
add_packet_cases t c = elim (Bool-cases (is_arp c.pkt.network)) [
  | inl e ↦ inl (inl e, ((t, no_flow), then_of _ _ e))
  | inr e ↦ keyed e (key_from_packet c.pkt) refl
]
  where
    keyed :
        is_arp c.pkt.network ≡ false
        → (r : Result FlowKey) → key_from_packet c.pkt ≡ r
        → (IsFiled c.pkt × ((r : FlowTable × Filed) × (add_packet t c ≡ ok r)))
          ⊎ ((IsFiled c.pkt → ⊥)
              × ((code : ParseError) × (code ≢ filtered) × (add_packet t c ≡ err code)))
    keyed e (ok key) k = inl (inr (key, k), (placed t c key, add_packet-keyed t c (ok key) e k))
    keyed e (err code) k =
        inr (none_filed c.pkt e k, (code, key_refused c.pkt k, add_packet-keyed t c (err code) e k))

-- What a call comes to: the packet is not selected, or it cannot be filed, or it is taken.
abbrev pub Outcome : FlowKey → Packet → Result Packet → Type 0
Outcome filter pkt r =
    ((¬ IsSelected filter pkt) × (r ≡ err filtered))
    ⊎ ((IsSelected filter pkt
          × (¬ IsFiled pkt)
          × ((code : ParseError) × (code ≢ filtered) × (r ≡ err code)))
        ⊎ (IsSelected filter pkt × IsFiled pkt × (r ≡ ok pkt)))

not_both : (b : Bool) → b ≡ true → b ≡ false → ⊥
not_both b e f = cc

module _ {ℓ} {A : Type ℓ} (poll : FlowKey → Flow → Bool → Packet → A → Flow × A) where
  settled_ok :
      (d : Decoder A) (pkt : Packet) (r : Result (FlowTable × Filed)) {p : FlowTable × Filed}
      → r ≡ ok p
      → (settle_filed poll d pkt r).1 ≡ ok pkt
  unfolding settle_filed
  settled_ok d pkt (ok p) e = refl
  settled_ok d pkt (err code) e = cc

  settled_err :
      (d : Decoder A) (pkt : Packet) (r : Result (FlowTable × Filed)) {code : ParseError}
      → r ≡ err code
      → (settle_filed poll d pkt r).1 ≡ err code
  unfolding settle_filed
  settled_err d pkt (ok p) e = cc
  settled_err d pkt (err c) e = cc

  file_decoded-Outcome :
      (d : Decoder A) (incl_len ts_us : ℕ) (pkt : Packet)
      → Outcome d.config.filter pkt (file_decoded poll d incl_len ts_us (ok pkt)).1
  file_decoded-Outcome d incl_len ts_us pkt =
      let selects = kept_iff d.config pkt in
      let c : Capture = record { pkt = pkt; incl_len = incl_len; ts_us = ts_us } in
      elim (filter_cases poll d incl_len ts_us pkt) [
        | inl (dropped, e) ↦ inl ((λ s. not_both _ dropped (selects.1 s)), ap (λ p. p.1) e)
        | inr (kept, e) ↦ elim (add_packet_cases d.flow_table c) [
          | inl (files, (p, q)) ↦
              inr (inr (selects.0 kept, files, ap (λ p. p.1) e ∙ settled_ok d pkt _ q))
          | inr (lost, (code, other, q)) ↦
              inr
                (inl (selects.0 kept, lost, (code, other, ap (λ p. p.1) e ∙ settled_err d pkt _ q)))
        ]
      ]

  -- For a frame whose layers are parsed into a packet, from a blank one: the packet counts as selected
  -- when no field of the filter is set, or when `key_from_packet` gives it a key each of whose fields
  -- is zero in the filter or equal, an address within its family. The call is refused as filtered
  -- exactly when the packet is not selected. When it is selected, the packet is returned exactly when
  -- it is ARP or has a key, and otherwise the call is refused with an error that is not the filter's.
  pub decode-Outcome :
      (d : Decoder A) (span : List ℕ) (pkt : Packet) (incl_len ts_us : ℕ) {out : Packet}
      → decode_packet span (reset pkt) d.config.verify_checksum ≡ ok out
      → Outcome d.config.filter out (decode poll d span pkt incl_len ts_us).1
  unfolding decode
  decode-Outcome d span pkt incl_len ts_us {out = out} e =
      subst (λ r. Outcome d.config.filter out (file_decoded poll d incl_len ts_us r).1) (sym e)
        (file_decoded-Outcome d incl_len ts_us out)
