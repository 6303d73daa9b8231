-- ===== src/Decode/Outcomes.antt =====
-- What one call of the decoder leaves behind, src/net/decode/decoder.cpp.
use pcap_analyzer.Prelude.{
  ℕ, ◌≡◌, refl, sym, ap, ◌∙◌, ◌⊎◌, inl, inr, Bool, true, false, Bool-cases, if◌then◌else◌, List,
}
use pcap_analyzer.Util.ParseError.{ParseError, Result, ok, err, filtered}
use pcap_analyzer.Decode.Packet.{Packet}
use pcap_analyzer.Decode.Decoder.{Decoder, decode, file_decoded, settle_filed, filtered_out}
use pcap_analyzer.Flow.FlowKey.{FlowKey}
use pcap_analyzer.Flow.FlowTable.{Flow, FlowTable, Filed, add_packet}

module _ {ℓ} {A : Type ℓ} (poll : FlowKey → Flow → Bool → Packet → A → Flow × A) where
  settle_error :
      (d : Decoder A) (pkt : Packet) (r : Result (FlowTable × Filed)) {code : ParseError}
      → (settle_filed poll d pkt r).1 ≡ err code
      → (settle_filed poll d pkt r).0 ≡ d
  unfolding settle_filed
  settle_error d pkt (err e) h = refl
  settle_error d pkt (ok r) h = cc

  pub filter_cases :
      (d : Decoder A) (incl_len ts_us : ℕ) (pkt : Packet)
      → ((filtered_out d.config pkt ≡ true)
          × (file_decoded poll d incl_len ts_us (ok pkt) ≡ (d, err filtered)))
        ⊎ ((filtered_out d.config pkt ≡ false)
            × (file_decoded poll d incl_len ts_us (ok pkt)
                ≡ settle_filed poll d pkt (
                    add_packet d.flow_table
                      (record { pkt = pkt; incl_len = incl_len; ts_us = ts_us }))))
  unfolding file_decoded
  filter_cases d incl_len ts_us pkt = elim (Bool-cases (filtered_out d.config pkt)) [
    | inl out ↦ inl (
      out,
      ap
          (λ b.
            if b
            then (d, err filtered)
            else settle_filed poll d pkt (
                add_packet d.flow_table (record { pkt = pkt; incl_len = incl_len; ts_us = ts_us })))
          out,
    )
    | inr kept ↦ inr (
      kept,
      ap
          (λ b.
            if b
            then (d, err filtered)
            else settle_filed poll d pkt (
                add_packet d.flow_table (record { pkt = pkt; incl_len = incl_len; ts_us = ts_us })))
          kept,
    )
  ]

  file_error :
      (d : Decoder A) (incl_len ts_us : ℕ) (result : Result Packet) {code : ParseError}
      → (file_decoded poll d incl_len ts_us result).1 ≡ err code
      → (file_decoded poll d incl_len ts_us result).0 ≡ d
  unfolding file_decoded
  file_error d incl_len ts_us (err e) h = refl
  file_error d incl_len ts_us (ok pkt) h = elim (filter_cases d incl_len ts_us pkt) [
    | inl (out, e) ↦ ap (λ p. p.0) e
    | inr (kept, e) ↦ ap (λ p. p.0) e ∙ settle_error d pkt _ (sym (ap (λ p. p.1) e) ∙ h)
  ]

  -- A frame that is not decoded, selected or filed, whatever the error, leaves the flow table, the
  -- applications and the counter as they were.
  pub decode_error :
      (d : Decoder A) (span : List ℕ) (pkt : Packet) (incl_len ts_us : ℕ) {code : ParseError}
      → (decode poll d span pkt incl_len ts_us).1 ≡ err code
      → (decode poll d span pkt incl_len ts_us).0 ≡ d
  unfolding decode
  decode_error d span pkt incl_len ts_us h = file_error d incl_len ts_us _ h
