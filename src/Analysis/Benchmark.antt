-- ===== src/Analysis/Benchmark.antt =====
-- include/net/analysis/benchmark.h and src/net/analysis/benchmark.cpp: the clock is read by the caller,
-- in nanoseconds. Text output is left out.
use pcap_analyzer.Prelude.{
  ℕ, ◌-◌, ◌≡◌, Bool, true, false, not, ◌&&◌, ◌==◌, if◌then◌else◌, add64, arith,
}

pub data Phase : Type 0 where
  total file_header packet_header decode decode_packet flow_lookup tcp_reassembly app_decode : Phase

-- The place of a phase in the array.
unfoldable pub index : Phase → ℕ
index Phase.total = 0
index Phase.file_header = 1
index Phase.packet_header = 2
index Phase.decode = 3
index Phase.decode_packet = 4
index Phase.flow_lookup = 5
index Phase.tcp_reassembly = 6
index Phase.app_decode = 7

abbrev pub is_per_packet : Phase → Bool
is_per_packet Phase.total = false
is_per_packet Phase.file_header = false
is_per_packet _ = true

pub record PhaseState : Type 0 where
  pub calls : ℕ
  pub elapsed_ns : ℕ
  pub started : ℕ
  pub running : Bool

pub record Benchmark : Type 0 where
  pub phases : ℕ → PhaseState
  pub bytes : ℕ
  pub detailed : Bool

abbrev with_phase : Benchmark → Phase → PhaseState → Benchmark
with_phase b phase state = record b { phases = λ i. if i == index phase then state else b.phases i }

unfoldable pub start : Benchmark → Phase → ℕ → Benchmark
unfolding index
start b phase now =
    let state = b.phases (index phase) in
    if not b.detailed && is_per_packet phase
    then b
    else with_phase b phase (record state { started = now; running = true })

unfoldable pub stop : Benchmark → Phase → ℕ → Benchmark
unfolding index
stop b phase now =
    let state = b.phases (index phase) in
    if not b.detailed && is_per_packet phase
    then b
    else if not state.running
    then b
    else with_phase b phase (record state {
      running = false;
      elapsed_ns = add64 state.elapsed_ns (now - state.started);
      calls = add64 state.calls 1;
    })

-- A phase that is timed is counted once, with the time between the two readings, and a second `stop`
-- counts nothing.
pub stop-start :
    (b : Benchmark) (phase : Phase) (t1 t2 t3 : ℕ)
    → (not b.detailed && is_per_packet phase) ≡ false
    → (((stop (start b phase t1) phase t2).phases (index phase)).elapsed_ns
        ≡ add64 (b.phases (index phase)).elapsed_ns (t2 - t1))
      × (((stop (start b phase t1) phase t2).phases (index phase)).calls
          ≡ add64 (b.phases (index phase)).calls 1)
      × (stop (stop (start b phase t1) phase t2) phase t3 ≡ stop (start b phase t1) phase t2)
unfolding stop start
stop-start b phase t1 t2 t3 e = ground arith
