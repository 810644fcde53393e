-- ===== src/FlowTable/Tests.antt =====
-- Small runs of a flow and of the table, and the theorems on them.
use nids.Prelude.{
  ◌+◌, ◌≤◌, ◌≡◌, ◌↔◌, refl, none, some, List, [], ◌∷◌, length, replicate, if◌then◌else◌,
}
use nids.Prelude.Outcome.{returns}
use nids.Prelude.Assoc.{lookup, contains_key}
use nids.FlowKey.{FlowKey}
use nids.FlowTable.Flow.{Packet, init, from_secs, add_packet, get_ordered_packets}
use nids.FlowTable.Flow.History.{Holds, slide, closes_burst, init-Holds, add_packet_refines}
use nids.FlowTable.Flow.Life.{
  add_all, last_100, add_all-last_100, get_ordered_packets-add_all, burst_after,
}
use nids.FlowTable.Table.{flow_key_eq, SharedState, new, process_packet, cleanup_inactive_flows}
use nids.FlowTable.Table.Eviction.{Victim, evict-Victim}
use nids.FlowTable.Table.Invariant.{IsValid, flow_before, after}
use nids.FlowTable.Table.Others.{Displaces, process_packet-Displaces}
use nids.FlowTable.Table.Steps.{
  new-IsValid, process_packet-after, after-IsValid, cleanup-IsValid, lookup-cleanup_iff,
}

abbrev packet : Packet
packet = record { timestamp = 7; bytes = 1 ∷ 2 ∷ [] }

abbrev key_1 : FlowKey
key_1 = (1, 10, 2, 20)

abbrev key_2 : FlowKey
key_2 = (3, 30, 4, 40)

abbrev hundred : List Packet
hundred = replicate 100 packet

-- A table for one flow, that holds one.
abbrev one_flow : SharedState
one_flow = after (new 1) key_1 packet

one_flow-IsValid : IsValid one_flow
one_flow-IsValid = after-IsValid (new 1) key_1 packet (new-IsValid 1)

add_packet_refines_example :
    let (burst_detected, snapshot, s') = add_packet (init 0) packet in
    Holds s' (slide [] packet)
    × (burst_detected ≡ closes_burst [] packet)
    × (snapshot ≡ (if closes_burst [] packet then some [] else none))
add_packet_refines_example = add_packet_refines packet (init-Holds 0)

add_all-last_100_example : Holds (add_all (init 0) hundred) (last_100 hundred)
add_all-last_100_example = add_all-last_100 0 hundred

get_ordered_packets-add_all_example :
    get_ordered_packets (add_all (init 0) (packet ∷ packet ∷ [])) ≡ packet ∷ packet ∷ []
get_ordered_packets-add_all_example = get_ordered_packets-add_all 0 (packet ∷ packet ∷ [])

burst_after_example :
    let (burst_detected, snapshot, s') = add_packet (add_all (init 0) hundred) packet in
    (burst_detected ≡ closes_burst (last_100 hundred) packet)
    × (snapshot
        ≡ (if closes_burst (last_100 hundred) packet then some (last_100 hundred) else none))
burst_after_example = burst_after 0 hundred packet

evict-Victim_example : Victim ((key_1, init 5) ∷ (key_2, init 3) ∷ [])
unfolding contains_key
evict-Victim_example = evict-Victim key_1 (init 5) ((key_2, init 3) ∷ []) (refl, (refl, tt))

process_packet-after_example :
    let (burst_detected, snapshot, flow') = add_packet (flow_before one_flow key_2 7) packet in
    process_packet one_flow key_2 packet
    ≡ returns (burst_detected, snapshot, after one_flow key_2 packet)
process_packet-after_example = process_packet-after one_flow key_2 packet one_flow-IsValid

after-IsValid_example : IsValid (after one_flow key_2 packet)
after-IsValid_example = after-IsValid one_flow key_2 packet one_flow-IsValid

process_packet-Displaces_example :
    let (burst_detected, snapshot, flow') = add_packet (flow_before one_flow key_2 7) packet in
    (s' : SharedState) × (process_packet one_flow key_2 packet
      ≡ returns (burst_detected, snapshot, s'))
    × Displaces one_flow s' key_2 flow'
process_packet-Displaces_example = process_packet-Displaces one_flow key_2 packet one_flow-IsValid

cleanup-IsValid_example :
    let (removed, s') = cleanup_inactive_flows one_flow (from_secs 61) in
    IsValid s' × (removed + length s'.flow_table ≡ length one_flow.flow_table)
cleanup-IsValid_example = cleanup-IsValid one_flow (from_secs 61) one_flow-IsValid

lookup-cleanup_iff_example :
    (lookup key_1 (cleanup_inactive_flows one_flow (from_secs 61)).1.flow_table ≡ some (init 0)) ↔ (
      (lookup key_1 one_flow.flow_table ≡ some (init 0))
      × (from_secs 61 ≤ (init 0).last_seen_ts + from_secs 60))
lookup-cleanup_iff_example =
    lookup-cleanup_iff one_flow (from_secs 61) one_flow-IsValid key_1 (init 0)
