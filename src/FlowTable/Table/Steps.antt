-- ===== src/FlowTable/Table/Steps.antt =====
-- What `process_packet` and `cleanup_inactive_flows` do to the table.
use nids.Prelude.{ℕ, ◌+◌, ◌≤◌, ◌≡◌, ◌↔◌, inr, true, some, length, arith, length-keep}
use nids.Prelude.Outcome.{returns}
use nids.Prelude.Assoc.{
  lookup, insert-IsMap, keep-IsMap, length-insert, lookup-keep, contains_key-lookup,
}
use nids.FlowKey.{FlowKey}
use nids.FlowTable.Flow.{Packet, FlowState, add_packet, from_secs}
use nids.FlowTable.Table.{
  flow_key_eq, SharedState, new, admit, process_packet, is_active, cleanup_inactive_flows,
}
use nids.FlowTable.Table.Invariant.{
  IsValid, flow_before, after, lookup-admit_self, admit-IsMap, admit-bounded,
}

pub new-IsValid : (max_flows : ℕ) → IsValid (new max_flows)
unfolding new
new-IsValid max_flows = record { distinct = tt; bounded = inr (omega arith) }

module _ (s : SharedState) (key : FlowKey) (pkt : Packet) (valid : IsValid s) where
  -- On a valid table `process_packet` does not panic. It returns what `add_packet` answers on the
  -- flow of the key, a fresh one if the key is new, and leaves the table `after`.
  pub process_packet-after :
      let (burst_detected, snapshot, flow') = add_packet (flow_before s key pkt.timestamp) pkt in
      process_packet s key pkt ≡ returns (burst_detected, snapshot, after s key pkt)
  unfolding process_packet after
  process_packet-after = rw (lookup-admit_self s key pkt.timestamp valid, process_packet)

  -- `process_packet` keeps the table valid: one flow to a key, and no more than the limit.
  pub after-IsValid : IsValid (after s key pkt)
  unfolding after
  after-IsValid = record {
    distinct =
        insert-IsMap key _ (admit s key pkt.timestamp) (admit-IsMap s key pkt.timestamp valid);
    bounded = ground (
      arith,
      admit-bounded s key pkt.timestamp valid,
      lookup-admit_self s key pkt.timestamp valid,
      contains_key-lookup key (admit s key pkt.timestamp),
      length-insert key (add_packet (flow_before s key pkt.timestamp) pkt).2
          (admit s key pkt.timestamp),
    );
  }

-- A flow outlives a cleanup unless it was last seen more than a minute before.
pub is_active_iff :
    (now : ℕ) (flow : FlowState)
    → (is_active now flow ≡ true) ↔ (now ≤ flow.last_seen_ts + from_secs 60)
unfolding is_active
is_active_iff now flow = ground arith

module _ (s : SharedState) (now : ℕ) (valid : IsValid s) where
  -- The cleanup keeps the table valid, and returns the number of flows that it removed.
  pub cleanup-IsValid :
      let (removed, s') = cleanup_inactive_flows s now in
      IsValid s' × (removed + length s'.flow_table ≡ length s.flow_table)
  unfolding cleanup_inactive_flows
  cleanup-IsValid =
      let fewer = length-keep (λ kv. is_active now kv.1) s.flow_table in
      (
        record {
          distinct = keep-IsMap (λ kv. is_active now kv.1) s.flow_table valid.distinct;
          bounded = ground (arith, fewer, valid.bounded);
        },
        omega (arith, fewer),
      )

  -- The cleanup keeps exactly the flows that were seen within the last minute, each as it was.
  pub lookup-cleanup_iff :
      (k : FlowKey) (f : FlowState)
      → (lookup k (cleanup_inactive_flows s now).1.flow_table ≡ some f)
        ↔ ((lookup k s.flow_table ≡ some f) × (now ≤ f.last_seen_ts + from_secs 60))
  unfolding cleanup_inactive_flows
  lookup-cleanup_iff k f =
      let kept = lookup-keep (is_active now) k s.flow_table valid.distinct in
      (
        λ h. ground (arith, h, kept, is_active_iff now f),
        λ h. ground (arith, h, kept, is_active_iff now f),
      )
