-- ===== src/Flow/FlowTable/Filing.antt =====
-- What one call of `addPacket` does, src/net/flow/flow_table.cpp.
use pcap_analyzer.Prelude.{
  ℕ, ◌+◌, ◌%◌, ◌≡◌, ◌≢◌, ◌⊎◌, inl, inr, refl, ◌∙◌, Bool, false, Option-cases, some, add64, u64_mod,
  arith,
}
use pcap_analyzer.Flow.FlowKey.{FlowKey}
use pcap_analyzer.Flow.FlowTable.{
  Flow, FlowTable, Capture, find, retire, flow_of, touch, file_packet, new_flow,
}
use pcap_analyzer.Flow.FlowTable.Lookup.{
  Distinct, find-put, find-put_other, find-erase_other, erase-Distinct, put-Distinct,
}
use pcap_analyzer.Flow.FlowTable.Counting.{
  bytes, packets, total, retire_cases, retire-total, put_flow-total,
}

touch-bytes :
    (f : Flow) (reversed : Bool) (c : Capture)
    → bytes (touch f reversed c) % u64_mod ≡ (bytes f + c.incl_len) % u64_mod
unfolding touch
touch-bytes f reversed c = ground arith

touch-packets :
    (f : Flow) (reversed : Bool) (c : Capture)
    → packets (touch f reversed c) % u64_mod ≡ (packets f + 1) % u64_mod
unfolding touch
touch-packets f reversed c = ground arith

retire-total_bytes :
    (t : FlowTable) (key : FlowKey) (ts : ℕ) → (retire t key ts).total_bytes ≡ t.total_bytes
retire-total_bytes t key ts =
    retire_cases (λ s. s.total_bytes ≡ t.total_bytes) t key ts refl (λ f e. refl)

retire-Distinct :
    (t : FlowTable) (key : FlowKey) (ts : ℕ) → Distinct t.flows → Distinct (retire t key ts).flows
retire-Distinct t key ts h =
    retire_cases (λ s. Distinct s.flows) t key ts h (λ f e. erase-Distinct key t.flows h)

retire-find_other :
    (t : FlowTable) (other key : FlowKey) (ts : ℕ)
    → other ≢ key
    → find other (retire t key ts).flows ≡ find other t.flows
retire-find_other t other key ts h =
    retire_cases (λ s. find other s.flows ≡ find other t.flows) t key ts refl
      (λ f e. find-erase_other other key t.flows h)

touch-last_seen :
    (f : Flow) (reversed : Bool) (c : Capture) → (touch f reversed c).last_seen ≡ c.ts_us
unfolding touch
touch-last_seen f reversed c = ground arith

touch-first_seen :
    (f : Flow) (reversed : Bool) (c : Capture) → (touch f reversed c).first_seen ≡ f.first_seen
unfolding touch
touch-first_seen f reversed c = ground arith

flow_of-first_seen :
    (t : FlowTable) (key : FlowKey) (ts : ℕ)
    → ((flow_of t key ts).1 ≡ false) ⊎ ((flow_of t key ts).0.first_seen ≡ ts)
unfolding flow_of new_flow
flow_of-first_seen t key ts = elim (Option-cases (find key t.flows)) [
  | inl e ↦ rw (e, flow_of) (inr refl)
  | inr (f, e) ↦ rw (e, flow_of) (inl refl)
]

module _ (t : FlowTable) (key : FlowKey) (reversed : Bool) (c : Capture) where
  abbrev noted : FlowTable
  noted = record t { total_bytes = add64 t.total_bytes c.incl_len }

  pub file_packet-total_bytes :
      (file_packet t key reversed c).0.total_bytes ≡ add64 t.total_bytes c.incl_len
  unfolding file_packet
  file_packet-total_bytes = retire-total_bytes noted key c.ts_us

  pub file_packet-Distinct : Distinct t.flows → Distinct (file_packet t key reversed c).0.flows
  unfolding file_packet
  file_packet-Distinct h = put-Distinct key _ _ (retire-Distinct noted key c.ts_us h)

  pub file_packet-find_other :
      (other : FlowKey)
      → other ≢ key
      → find other (file_packet t key reversed c).0.flows ≡ find other t.flows
  unfolding file_packet
  file_packet-find_other other h =
      find-put_other other key _ _ h ∙ retire-find_other noted other key c.ts_us h

  pub file_packet-find :
      (f : Flow) × (find key (file_packet t key reversed c).0.flows ≡ some f)
      × (f.last_seen ≡ c.ts_us)
      × (((file_packet t key reversed c).1 ≡ false) ⊎ (f.first_seen ≡ c.ts_us))
  unfolding file_packet
  file_packet-find =
      let (flow, is_new) = flow_of (retire noted key c.ts_us) key c.ts_us in
      (
        touch flow reversed c,
        find-put key _ _,
        touch-last_seen flow reversed c,
        first_or (flow_of-first_seen (retire noted key c.ts_us) key c.ts_us),
      )
    where
      first_or :
          ((flow_of (retire noted key c.ts_us) key c.ts_us).1 ≡ false)
            ⊎ ((flow_of (retire noted key c.ts_us) key c.ts_us).0.first_seen ≡ c.ts_us)
          → ((file_packet t key reversed c).1 ≡ false)
            ⊎ ((touch (flow_of (retire noted key c.ts_us) key c.ts_us).0 reversed c).first_seen
                ≡ c.ts_us)
      first_or (inl e) = inl (unfold file_packet in e)
      first_or (inr e) =
          inr (touch-first_seen (flow_of (retire noted key c.ts_us) key c.ts_us).0 reversed c ∙ e)

  file_packet-total :
      (w : Flow → ℕ) (n : ℕ)
      → ((ts : ℕ) → w (new_flow key ts) ≡ 0)
      → ((f : Flow) → w (touch f reversed c) % u64_mod ≡ (w f + n) % u64_mod)
      → total w (file_packet t key reversed c).0 % u64_mod ≡ (total w t + n) % u64_mod
  unfolding file_packet
  file_packet-total w n zero_new more =
      let t' = retire noted key c.ts_us in
      let f = (flow_of t' key c.ts_us).0 in
      omega (
        arith,
        retire-total w noted key c.ts_us,
        put_flow-total w t' key reversed c zero_new,
        more f,
      )

  pub file_packet-bytes :
      total bytes (file_packet t key reversed c).0 % u64_mod
      ≡ (total bytes t + c.incl_len) % u64_mod
  file_packet-bytes =
      file_packet-total bytes c.incl_len (λ ts. unfold new_flow in refl)
        (λ f. touch-bytes f reversed c)

  pub file_packet-packets :
      total packets (file_packet t key reversed c).0 % u64_mod ≡ (total packets t + 1) % u64_mod
  file_packet-packets =
      file_packet-total packets 1 (λ ts. unfold new_flow in refl) (λ f. touch-packets f reversed c)
