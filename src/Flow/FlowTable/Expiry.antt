-- ===== src/Flow/FlowTable/Expiry.antt =====
-- When a flow expires, src/net/flow/flow_table.cpp.
use pcap_analyzer.Prelude.{ℕ, ◌+◌, ◌-◌, ◌≤◌, ◌<◌, ◌≡◌, ◌≢◌, ◌↔◌, ◌⊎◌, true, IsU64, u64_mod, arith}
use pcap_analyzer.Flow.FlowTable.{Flow, FlowTable, is_expired}

-- For a flow whose packets came in the order of time, and a time from its last packet on: the flow
-- is expired exactly if it was idle for longer than the idle timeout, or the active timeout is set
-- and the flow is older than that.
pub is_expired_iff :
    (t : FlowTable) (flow : Flow) (ts : ℕ)
    → IsU64 ts
    → flow.first_seen ≤ flow.last_seen
    → flow.last_seen ≤ ts
    → (is_expired t flow ts ≡ true) ↔ (
        (t.idle_timeout_us < ts - flow.last_seen)
        ⊎ ((t.active_timeout_us ≢ 0) × (t.active_timeout_us < ts - flow.first_seen)))
unfolding is_expired
is_expired_iff t flow ts h o l = ground arith

-- A flow whose first packet has the latest time is expired at any time from its last packet up to
-- that first one, when the active timeout is set and less than 2 ^ 64 minus the time between them:
-- the age wraps around.
pub is_expired_early :
    (t : FlowTable) (flow : Flow) (ts : ℕ)
    → IsU64 flow.first_seen
    → flow.last_seen ≤ ts
    → ts < flow.first_seen
    → t.active_timeout_us ≢ 0
    → t.active_timeout_us + (flow.first_seen - ts) < u64_mod
    → is_expired t flow ts ≡ true
unfolding is_expired
is_expired_early t flow ts h l e a b = ground arith
