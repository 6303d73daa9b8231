-- ===== src/Flow/FlowTable/Counting.antt =====
-- What the flow table counts, src/net/flow/flow_table.cpp: every packet in one flow, once.
use pcap_analyzer.Prelude.{
  ℕ, ◌+◌, ◌≡◌, inl, inr, refl, Bool, Bool-cases, Option-cases, List, [], ◌∷◌, ◌++◌, none, some,
  arith,
}
use pcap_analyzer.Flow.FlowKey.{FlowKey}
use pcap_analyzer.Flow.FlowTable.{
  Flow, FlowTable, Capture, find, erase, put, retire, flow_of, touch, is_expired, new_flow,
}

-- `totalBytes` and `totalPackets` of a flow, before they wrap.
abbrev pub bytes : Flow → ℕ
bytes f = f.fwd_stats.bytes + f.rev_stats.bytes

abbrev pub packets : Flow → ℕ
packets f = f.fwd_stats.packets + f.rev_stats.packets

abbrev pub sum : (Flow → ℕ) → List (FlowKey × Flow) → ℕ
sum w [] = 0
sum w ((k, f) ∷ rest) = w f + sum w rest

-- Over all flows, completed and current.
abbrev pub total : (Flow → ℕ) → FlowTable → ℕ
total w t = sum w t.completed + sum w t.flows

-- After the possible expiry of the flow of `key`.
pub retire_cases {ℓ} :
    (P : FlowTable → Type ℓ) (t : FlowTable) (key : FlowKey) (ts : ℕ)
    → P t
    → ((f : Flow)
        → find key t.flows ≡ some f
        → P (record t { completed = t.completed ++ (key, f) ∷ []; flows = erase key t.flows }))
    → P (retire t key ts)
unfolding retire
retire_cases P t key ts stay move = elim (Option-cases (find key t.flows)) [
  | inl e ↦ rw (e, retire) stay
  | inr (f, e) ↦ elim (Bool-cases (is_expired t f ts)) [
    | inl old ↦ rw (e, old, retire) (move f e)
    | inr young ↦ rw (e, young, retire) stay
  ]
]

pub flow_of_cases {ℓ} :
    (P : Flow → Type ℓ) (t : FlowTable) (key : FlowKey) (ts : ℕ)
    → (find key t.flows ≡ none → P (new_flow key ts))
    → ((f : Flow) → find key t.flows ≡ some f → P f)
    → P (flow_of t key ts).0
unfolding flow_of
flow_of_cases P t key ts fresh old = elim (Option-cases (find key t.flows)) [
  | inl e ↦ rw (e, flow_of) (fresh e)
  | inr (f, e) ↦ rw (e, flow_of) (old f e)
]

module _ (w : Flow → ℕ) where
  pub sum-append : (xs ys : List (FlowKey × Flow)) → sum w (xs ++ ys) ≡ sum w xs + sum w ys
  sum-append [] ys = omega arith
  sum-append ((k, f) ∷ xs) ys = omega (arith, sum-append xs ys)

  sum-erase :
      (key : FlowKey) (f : Flow) (l : List (FlowKey × Flow))
      → find key l ≡ some f
      → sum w (erase key l) + w f ≡ sum w l
  unfolding find erase
  sum-erase key f [] h = cc
  sum-erase key f ((k, g) ∷ rest) h = ground (arith, sum-erase key f rest)

  sum-put_new :
      (key : FlowKey) (f : Flow) (l : List (FlowKey × Flow))
      → find key l ≡ none
      → sum w (put key f l) ≡ sum w l + w f
  unfolding find put
  sum-put_new key f [] h = omega arith
  sum-put_new key f ((k, g) ∷ rest) h = ground (arith, sum-put_new key f rest)

  sum-put_old :
      (key : FlowKey) (f g : Flow) (l : List (FlowKey × Flow))
      → find key l ≡ some g
      → sum w (put key f l) + w g ≡ sum w l + w f
  unfolding find put
  sum-put_old key f g [] h = cc
  sum-put_old key f g ((k, o) ∷ rest) h = ground (arith, sum-put_old key f g rest)

  pub retire-total :
      (t : FlowTable) (key : FlowKey) (ts : ℕ) → total w (retire t key ts) ≡ total w t
  retire-total t key ts =
      retire_cases (λ s. total w s ≡ total w t) t key ts refl
        (λ f e. omega (arith, sum-erase key f t.flows e, sum-append t.completed ((key, f) ∷ [])))

  pub put_flow-total :
      (t : FlowTable) (key : FlowKey) (reversed : Bool) (capture : Capture)
      → ((ts : ℕ) → w (new_flow key ts) ≡ 0)
      → sum w (put key (touch (flow_of t key capture.ts_us).0 reversed capture) t.flows)
          + w (flow_of t key capture.ts_us).0
        ≡ sum w t.flows + w (touch (flow_of t key capture.ts_us).0 reversed capture)
  put_flow-total t key reversed capture zero_new =
      flow_of_cases
        (λ f.
          sum w (put key (touch f reversed capture) t.flows) + w f
          ≡ sum w t.flows + w (touch f reversed capture))
        t key capture.ts_us
        (λ e. omega (arith, sum-put_new key _ t.flows e, zero_new capture.ts_us))
        (λ f e. sum-put_old key _ f t.flows e)
