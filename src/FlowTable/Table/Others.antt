-- ===== src/FlowTable/Table/Others.antt =====
-- Which flows `process_packet` of src/flow_table.rs leaves, for every key of the table.
use nids.Prelude.{
  ◌≤◌, ◌<◌, ◌≡◌, ◌⊎◌, inl, inr, true, false, none, some, [], length, if◌then◌else◌, arith,
}
use nids.Prelude.Outcome.{returns}
use nids.Prelude.Assoc.{lookup, insert, remove, contains_key, lookup-insert, lookup-remove}
use nids.FlowKey.{FlowKey}
use nids.FlowTable.Flow.{Packet, FlowState, init, add_packet}
use nids.FlowTable.Table.{flow_key_eq, SharedState, process_packet}
use nids.FlowTable.Table.Eviction.{NotBefore}
use nids.FlowTable.Table.Invariant.{IsValid, known, room, evicted, flow_before, after, admitted}
use nids.FlowTable.Table.Steps.{process_packet-after}

-- The table is left with `flow` for the key. Every other flow stays as it was, but for one that is
-- given up where the key is new and the table full: none was seen before that one.
pub data Displaces (s s' : SharedState) (key : FlowKey) (flow : FlowState) : Type 0 where
  keeps :
      (contains_key key s.flow_table ≡ true)
        ⊎ ((length s.flow_table < s.max_flows) ⊎ (s.flow_table ≡ []))
      → ((j : FlowKey)
          → lookup j s'.flow_table
            ≡ (if flow_key_eq.eq key j then some flow else lookup j s.flow_table))
      → Displaces s s' key flow
  gives_up :
      contains_key key s.flow_table ≡ false
      → s.max_flows ≤ length s.flow_table
      → (victim : FlowKey) (old : FlowState) → lookup victim s.flow_table ≡ some old
      → NotBefore old.last_seen_ts s.flow_table
      → ((j : FlowKey)
          → lookup j s'.flow_table ≡ (
              if flow_key_eq.eq key j
              then some flow
              else if flow_key_eq.eq victim j
              then none
              else lookup j s.flow_table))
      → Displaces s s' key flow

module _ (s : SharedState) (key : FlowKey) (pkt : Packet) (valid : IsValid s) where
  after-Displaces :
      Displaces s (after s key pkt) key (add_packet (flow_before s key pkt.timestamp) pkt).2
  unfolding after
  after-Displaces =
      let now = pkt.timestamp in
      let flow = (add_packet (flow_before s key now) pkt).2 in
      let fresh = insert key (init now) s.flow_table in
      elim (admitted s key now valid) [
        | known t e ↦ keeps (inl t) (λ j. rw e (lookup-insert key j flow s.flow_table))
        | room t r e ↦ keeps (inr r) (λ j. rw e (
            ground
              (arith, lookup-insert key j flow fresh, lookup-insert key j (init now) s.flow_table)))
        | evicted t u v e ↦ gives_up t u v.key v.flow v.held v.least (λ j. rw e (
            ground (
              arith,
              lookup-insert key j flow (insert key (init now) (remove v.key s.flow_table)),
              lookup-insert key j (init now) (remove v.key s.flow_table),
              lookup-remove v.key j s.flow_table valid.distinct,
            )))
      ]

  -- On a valid table `process_packet` does not panic. The flow of the key is afterwards the flow that
  -- the packet met, a fresh one if the key is new, with the packet added. Every other flow stays as it
  -- was, except that exactly one is gone where the key is new and the table full (and not empty): one
  -- that no flow was seen before.
  pub process_packet-Displaces :
      let (burst_detected, snapshot, flow') = add_packet (flow_before s key pkt.timestamp) pkt in
      (s' : SharedState) × (process_packet s key pkt ≡ returns (burst_detected, snapshot, s'))
      × Displaces s s' key flow'
  process_packet-Displaces =
      (after s key pkt, process_packet-after s key pkt valid, after-Displaces)
