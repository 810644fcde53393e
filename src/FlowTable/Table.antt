-- ===== src/FlowTable/Table.antt =====
-- `SharedState` of src/flow_table.rs: the flows by their 4-tuple, at most `max_flows` of them. A
-- method runs with the mutex held, so it is one step on the table.
pub mod Invariant
pub mod Eviction
pub mod Steps
pub mod Others
use nids.Prelude.{
  ℕ, ◌+◌, ◌-◌, ◌≡◌, ◌↔◌, Bool, true, false, not, ◌&&◌, Option, none, some, List, [], ◌∷◌, length,
  keep, leb, ltb, ◌==◌, if◌then◌else◌, arith,
}
use nids.Prelude.Outcome.{Outcome, returns, panics}
use nids.Prelude.Assoc.{Eq, lookup, insert, remove, contains_key}
use nids.FlowKey.{FlowKey}
use nids.FlowTable.Flow.{Packet, FlowState, init, add_packet, from_secs}

abbrev pub key_eq : FlowKey → FlowKey → Bool
key_eq (a, b, c, d) (a', b', c', d') = a == a' && (b == b' && (c == c' && d == d'))

pub key_eq_iff : (k j : FlowKey) → (key_eq k j ≡ true) ↔ (k ≡ j)
key_eq_iff (a, b, c, d) (a', b', c', d') = ground arith

instance abbrev pub flow_key_eq : Eq FlowKey
flow_key_eq = record { eq = key_eq; eq_iff = key_eq_iff }

pub record SharedState : Type 0 where
  pub flow_table : List (FlowKey × FlowState)
  pub max_flows : ℕ

-- `SharedState::new`
pub new : ℕ → SharedState
new max_flows = record { flow_table = []; max_flows = max_flows }

-- The scan for the least `last_seen_ts`, with (oldest_key, oldest_seen) so far.
pub scan_oldest : List (FlowKey × FlowState) → Option FlowKey → Option ℕ → Option FlowKey × Option ℕ
scan_oldest [] oldest_key oldest_seen = (oldest_key, oldest_seen)
scan_oldest ((k, state) ∷ rest) oldest_key none =
    scan_oldest rest (some k) (some state.last_seen_ts)
scan_oldest ((k, state) ∷ rest) oldest_key (some ts) =
    scan_oldest rest (if ltb state.last_seen_ts ts then some k else oldest_key)
      (if ltb state.last_seen_ts ts then some state.last_seen_ts else some ts)

pub evict : List (FlowKey × FlowState) → List (FlowKey × FlowState)
evict table = elim (scan_oldest table none none).0 [
  | none ↦ table
  | some k_evict ↦ remove k_evict table
]

-- The table once it holds the key, from the lock to `get_mut`.
pub admit : SharedState → FlowKey → ℕ → List (FlowKey × FlowState)
admit s key now =
    if contains_key key s.flow_table
    then s.flow_table
    else insert key (init now)
        (if leb s.max_flows (length s.flow_table) then evict s.flow_table else s.flow_table)

-- `get_mut(&key).unwrap()` panics on a missing key.
pub process_packet :
    SharedState → FlowKey → Packet → Outcome (Bool × Option (List Packet) × SharedState)
process_packet s key pkt =
    let table = admit s key pkt.timestamp in
    elim (lookup key table) [
      | none ↦ panics
      | some flow ↦
          let (burst_detected, snapshot, flow') = add_packet flow pkt in
          returns (burst_detected, snapshot, record s { flow_table = insert key flow' table })
    ]

-- The test of `retain`.
pub is_active : ℕ → FlowState → Bool
is_active now flow =
    if leb flow.last_seen_ts now then leb (now - flow.last_seen_ts) (from_secs 60) else true

-- `Instant::now()` is the argument `now`.
pub cleanup_inactive_flows : SharedState → ℕ → ℕ × SharedState
cleanup_inactive_flows s now =
    let table = keep (λ kv. is_active now kv.1) s.flow_table in
    (length s.flow_table - length table, record s { flow_table = table })
