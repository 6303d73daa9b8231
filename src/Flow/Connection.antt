-- ===== src/Flow/Connection.antt =====
-- src/net/decode/decoder.cpp: how a TCP packet of a flow reaches the two reassemblers of the flow;
-- and the openings and closings of a connection that they follow.
use pcap_analyzer.Prelude.{
  ℕ, ◌≡◌, refl, ap, ◌∙◌, Bool, true, false, if◌then◌else◌, List, [], IsU32, add32, sub32, arith,
}
use pcap_analyzer.Protocols.Tcp.{Header, ack, rst, syn, fin}
use pcap_analyzer.Flow.TcpReassembler.State.{
  Reassembler, init, TcpState, closed, listen, syn_sent, syn_received, fin_wait1, fin_wait2,
  close_wait, last_ack, time_wait,
}
use pcap_analyzer.Flow.TcpReassembler.Ingest.{ingest}
use pcap_analyzer.Flow.TcpReassembler.Handlers.{on_data, on_sent, on_received}
use pcap_analyzer.Flow.TcpReassembler.Runs.{opened}

pub record Connection : Type 0 where
  pub fwd : Reassembler
  pub rev : Reassembler

-- The sender's reassembler takes the packet as sent, the other one as received.
unfoldable pub exchange : Connection → Bool → Header → List ℕ → Connection
exchange c is_reverse header span =
    if is_reverse
    then record { fwd = on_received c.fwd header; rev = on_sent c.rev header span }
    else record { fwd = on_sent c.fwd header span; rev = on_received c.rev header }

abbrev pub fresh : Connection
fresh = record { fwd = init; rev = init }

abbrev pub IsSyn : Header → Type 0
IsSyn h = (rst h ≡ false) × (syn h ≡ true) × (ack h ≡ false)

abbrev pub IsSynAck : Header → Type 0
IsSynAck h = (rst h ≡ false) × (syn h ≡ true) × (ack h ≡ true)

abbrev pub IsAck : Header → Type 0
IsAck h = (rst h ≡ false) × (syn h ≡ false) × (ack h ≡ true) × (fin h ≡ false)

ingest_nothing :
    (r : Reassembler) (seq : ℕ)
    → seq ≡ r.next_seq
    → IsU32 seq
    → r.out_of_order ≡ []
    → r.assembled ≡ []
    → ingest r seq [] ≡ r
unfolding ingest add32
ingest_nothing r seq e h o a = ground arith

next_of : (h : Header) → IsU32 (add32 h.seq_number 1)
unfolding add32
next_of h = omega arith

-- The first packet of the handshake.
syn_step :
    (s : Header)
    → IsSyn s
    → exchange fresh false s [] ≡ record {
      fwd = record init { state = syn_sent; next_seq = add32 s.seq_number 1; seeded = true };
      rev = record init { state = listen };
    }
unfolding exchange on_sent on_received
syn_step s h = ground (
  arith,
  ingest_nothing (record init { state = syn_sent; next_seq = add32 s.seq_number 1; seeded = true })
      (add32 s.seq_number 1) refl (next_of s) refl refl,
)

syn_ack_step :
    (x : ℕ) (t : Header)
    → IsSynAck t
    → exchange
        (record {
          fwd = record init { state = syn_sent; next_seq = x; seeded = true };
          rev = record init { state = listen };
        })
        true
        t
        []
      ≡ record {
        fwd = record init { state = syn_sent; next_seq = x; seeded = true };
        rev = record init { state = syn_received; next_seq = add32 t.seq_number 1; seeded = true };
      }
unfolding exchange on_sent on_received
syn_ack_step x t h = ground (
  arith,
  ingest_nothing
      (record init { state = syn_received; next_seq = add32 t.seq_number 1; seeded = true })
      (add32 t.seq_number 1) refl (next_of t) refl refl,
)

ack_step :
    (x y : ℕ) (u : Header)
    → IsAck u
    → u.seq_number ≡ x
    → IsU32 x
    → exchange
        (record {
          fwd = record init { state = syn_sent; next_seq = x; seeded = true };
          rev = record init { state = syn_received; next_seq = y; seeded = true };
        })
        false
        u
        []
      ≡ record { fwd = opened x; rev = opened y }
unfolding exchange on_sent on_received on_data
ack_step x y u h e hx = ground (arith, ingest_nothing (opened x) u.seq_number e (rw e hx) refl refl)

-- The three packets of a handshake open both sides: each is established and waits for the byte
-- behind its side's initial sequence number, with empty buffers.
pub handshake :
    (s t u : Header)
    → IsSyn s
    → IsSynAck t
    → IsAck u
    → u.seq_number ≡ add32 s.seq_number 1
    → exchange (exchange (exchange fresh false s []) true t []) false u []
      ≡ record { fwd = opened (add32 s.seq_number 1); rev = opened (add32 t.seq_number 1) }
handshake s t u hs ht hu e =
    ap (λ c. exchange (exchange c true t []) false u []) (syn_step s hs)
    ∙ ap (λ c. exchange c false u []) (syn_ack_step (add32 s.seq_number 1) t ht)
    ∙ ack_step (add32 s.seq_number 1) (add32 t.seq_number 1) u hu e (next_of s)

abbrev pub IsFin : Header → Type 0
IsFin h = (rst h ≡ false) × (syn h ≡ false) × (ack h ≡ true) × (fin h ≡ true)

-- The side that closes first sends its FIN with the number that is due.
abbrev half_closed : ℕ → ℕ → TcpState → Connection
half_closed x y st = record {
  fwd = record (opened (add32 x 1)) { state = st; fin_seq = x };
  rev = record (opened y) { state = close_wait };
}

fin_step :
    (x y : ℕ) (f : Header)
    → IsFin f
    → f.seq_number ≡ x
    → IsU32 x
    → exchange (record { fwd = opened x; rev = opened y }) false f [] ≡ half_closed x y fin_wait1
unfolding exchange on_sent on_received on_data add32 sub32
fin_step x y f h e hx = ground (arith, ingest_nothing (opened x) f.seq_number e (rw e hx) refl refl)

fin_ack_step :
    (x y : ℕ) (a : Header)
    → IsAck a
    → a.seq_number ≡ y
    → IsU32 y
    → a.ack_number ≡ add32 x 1
    → exchange (half_closed x y fin_wait1) true a [] ≡ half_closed x y fin_wait2
unfolding exchange on_sent on_received on_data add32 sub32
fin_ack_step x y a h e hy ea = ground (
  arith,
  ingest_nothing (record (opened y) { state = close_wait }) a.seq_number e (rw e hy) refl refl,
)

last_fin_step :
    (x y : ℕ) (g : Header)
    → IsFin g
    → g.seq_number ≡ y
    → IsU32 y
    → exchange (half_closed x y fin_wait2) true g [] ≡ record {
      fwd = record (opened (add32 x 1)) { state = time_wait; fin_seq = x };
      rev = record (opened (add32 y 1)) { state = last_ack; fin_seq = y };
    }
unfolding exchange on_sent on_received on_data add32 sub32
last_fin_step x y g h e hy = ground (
  arith,
  ingest_nothing (record (opened y) { state = close_wait }) g.seq_number e (rw e hy) refl refl,
)

last_ack_step :
    (x y : ℕ) (b : Header)
    → IsAck b
    → b.ack_number ≡ add32 y 1
    → exchange
        (record {
          fwd = record (opened (add32 x 1)) { state = time_wait; fin_seq = x };
          rev = record (opened (add32 y 1)) { state = last_ack; fin_seq = y };
        })
        false
        b
        []
      ≡ record {
        fwd = record (opened (add32 x 1)) { state = time_wait; fin_seq = x };
        rev = record (opened (add32 y 1)) { state = closed; fin_seq = y };
      }
unfolding exchange on_sent on_received add32 sub32
last_ack_step x y b h e = ground arith

-- Two sides that are open at `x` and `y` and close in turn, FIN, ACK, FIN, ACK, with the numbers
-- that are due: the side that closed first ends in TimeWait and the other in Closed, and each
-- FIN takes one number.
pub teardown :
    (x y : ℕ) (f a g b : Header)
    → IsU32 x
    → IsU32 y
    → IsFin f
    → f.seq_number ≡ x
    → IsAck a
    → a.seq_number ≡ y
    → a.ack_number ≡ add32 x 1
    → IsFin g
    → g.seq_number ≡ y
    → IsAck b
    → b.ack_number ≡ add32 y 1
    → exchange
        (exchange
          (exchange (exchange (record { fwd = opened x; rev = opened y }) false f []) true a [])
          true
          g
          [])
        false
        b
        []
      ≡ record {
        fwd = record (opened (add32 x 1)) { state = time_wait; fin_seq = x };
        rev = record (opened (add32 y 1)) { state = closed; fin_seq = y };
      }
teardown x y f a g b hx hy hf ef ha ea aa hg eg hb ab =
    ap (λ c. exchange (exchange (exchange c true a []) true g []) false b [])
      (fin_step x y f hf ef hx)
    ∙ ap (λ c. exchange (exchange c true g []) false b []) (fin_ack_step x y a ha ea hy aa)
    ∙ ap (λ c. exchange c false b []) (last_fin_step x y g hg eg hy)
    ∙ last_ack_step x y b hb ab
