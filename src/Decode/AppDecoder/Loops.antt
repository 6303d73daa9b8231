-- ===== src/Decode/AppDecoder/Loops.antt =====
-- The loops of `pollStream` have enough rounds, src/net/decode/app_decoder.cpp.
use pcap_analyzer.Prelude.{
  ℕ, zero, suc, ◌+◌, ◌-◌, ◌<◌, ◌≡◌, ◌⊎◌, inl, inr, refl, subst, Bool-cases, ltb, arith,
}
use pcap_analyzer.Flow.TcpReassembler.Reading.{available, peek}
use pcap_analyzer.Decode.AppDecoder.HttpRound.{Http, Round, stop, again, http_round}
use pcap_analyzer.Decode.AppDecoder.Streams.{DnsStream, dns_round, dns_loop, msg_len, http_loop}
use pcap_analyzer.Decode.AppDecoder.Ends.{Shrinks, http_round-Shrinks, available-consume}

-- The HTTP loop without a bound: what it ends with from a state, where each round that goes on has
-- consumed bytes of the stream.
pub data Loop : Http → Http → Type 0 where
  stopped : {s t : Http} → http_round s ≡ stop t → Loop s t
  went_on :
      {s t u : Http}
      → http_round s ≡ again t
      → available t.stream < available s.stream
      → Loop t u
      → Loop s u

less_left : (s t : Http) → http_round s ≡ again t → available t.stream < available s.stream
unfolding Shrinks
less_left s t e = subst (Shrinks (available s.stream)) e (http_round-Shrinks s)

pick :
    (fuel : ℕ) (s : Http) (r : Round)
    → http_round s ≡ r
    → ((t : Http) → r ≡ again t → Loop t (http_loop fuel t))
    → Loop s (http_loop (suc fuel) s)
unfolding http_loop
pick fuel s (stop t) e k = rw (e, http_loop) (stopped e)
pick fuel s (again t) e k = rw (e, http_loop) (went_on e (less_left s t e) (k t refl))

http_loop-Loop : (fuel : ℕ) (s : Http) → available s.stream < fuel → Loop s (http_loop fuel s)
http_loop-Loop zero s l = absurd (omega arith)
http_loop-Loop (suc fuel) s l =
    pick fuel s (http_round s) refl
      (λ t e. let less = less_left s t e in http_loop-Loop fuel t (omega arith))

-- The HTTP loop of a poll ends on every stream and state: each round that goes on has consumed a byte
-- at least, and what the poll returns is what the loop without any bound on its rounds ends with.
pub http_loop-ends : (s : Http) → Loop s (http_loop (available s.stream + 1) s)
http_loop-ends s = http_loop-Loop (available s.stream + 1) s (omega arith)

abbrev pub NoMessage : DnsStream → Type 0
NoMessage s = (available s.stream < 2) ⊎ (available s.stream < 2 + msg_len (peek s.stream))

consumed :
    (s : DnsStream) (len : ℕ) → available (dns_round s len).stream ≡ available s.stream - (2 + len)
unfolding dns_round
consumed s len = available-consume s.stream (2 + len)

dns_loop-NoMessage :
    (fuel : ℕ) (s : DnsStream) → available s.stream < fuel → NoMessage (dns_loop fuel s)
unfolding dns_loop
dns_loop-NoMessage zero s l = absurd (omega arith)
dns_loop-NoMessage (suc fuel) s l =
    let len = msg_len (peek s.stream) in
    elim (Bool-cases (ltb (available s.stream) 2)) [
      | inl e ↦ rw (e, dns_loop) (inl (ground arith))
      | inr e ↦ elim (Bool-cases (ltb (available s.stream) (2 + len))) [
        | inl f ↦ rw (e, f, dns_loop) (inr (ground arith))
        | inr f ↦
            rw (e, f, dns_loop)
              (dns_loop-NoMessage fuel (dns_round s len) (ground (arith, consumed s len)))
      ]
    ]

-- The DNS loop of a poll ends on every stream and takes every message that is complete: what it
-- leaves does not hold the two bytes of a length, or not as many bytes as they say.
pub dns_loop-ends : (s : DnsStream) → NoMessage (dns_loop (available s.stream + 1) s)
dns_loop-ends s = dns_loop-NoMessage (available s.stream + 1) s (omega arith)
