-- ===== src/FlowTable/Flow.antt =====
-- `Packet` and `FlowState` of src/flow_table.rs: the last 100 packets of a flow in a circular
-- buffer. The two arrays are lists of 100 elements.
pub mod Ring
pub mod History
pub mod Life
use nids.Prelude.{
  ℕ, zero, suc, ◌+◌, ◌-◌, ◌*◌, ◌%◌, ◌^◌, Bool, true, false, Option, none, some, List, [], ◌∷◌,
  get_or, set, replicate, leb, ltb, ◌==◌, if◌then◌else◌,
}

-- The field `data` is `bytes` here.
pub record Packet : Type 0 where
  pub timestamp : ℕ
  pub bytes : List ℕ

pub record FlowState : Type 0 where
  pub buffer : List (Option Packet)
  pub timestamps : List ℕ
  pub head : ℕ
  pub count : ℕ
  pub oldest_ts : ℕ
  pub last_seen_ts : ℕ

abbrev pub from_secs : ℕ → ℕ
from_secs n = n * 10 ^ 9

-- `FlowState::new`
pub init : ℕ → FlowState
init now = record {
  buffer = replicate 100 none;
  timestamps = replicate 100 now;
  head = 0;
  count = 0;
  oldest_ts = now;
  last_seen_ts = now;
}

-- if let Some(ref pkt) = slot { result.push(pkt.clone()) }, in front of what is pushed later
abbrev pub push_some : Option Packet → List Packet → List Packet
push_some none result = result
push_some (some pkt) result = pkt ∷ result

-- The loop over `n` indices from `i`, reading the buffer at `index i`.
pub collect : (ℕ → ℕ) → List (Option Packet) → ℕ → ℕ → List Packet
collect index buffer i zero = []
collect index buffer i (suc n) =
    push_some (get_or buffer (index i) none) (collect index buffer (i + 1) n)

pub get_ordered_packets : FlowState → List Packet
get_ordered_packets s =
    if s.count == 0
    then []
    else if ltb s.count 100
    then collect (λ i. i) s.buffer 0 s.count
    else collect (λ i. (s.head + i) % 100) s.buffer 0 100

-- now.duration_since(oldest_ts), or 0 if now < oldest_ts
abbrev pub time_span : ℕ → ℕ → ℕ
time_span now oldest_ts = if leb oldest_ts now then now - oldest_ts else 0

-- The branch of a buffer with room.
pub add_below : FlowState → Packet → FlowState
add_below s pkt = record s {
  buffer = set s.buffer s.head (some pkt);
  timestamps = set s.timestamps s.head pkt.timestamp;
  oldest_ts = if s.count == 0 then pkt.timestamp else s.oldest_ts;
  count = s.count + 1;
  head = (s.head + 1) % 100;
  last_seen_ts = pkt.timestamp;
}

-- The branch of a full buffer. `timestamps` is read after it was written.
pub add_full : FlowState → Packet → FlowState
add_full s pkt =
    let timestamps = set s.timestamps s.head pkt.timestamp in
    record s {
      buffer = set s.buffer s.head (some pkt);
      timestamps = timestamps;
      oldest_ts = get_or timestamps ((s.head + 1) % 100) 0;
      head = (s.head + 1) % 100;
      last_seen_ts = pkt.timestamp;
    }

pub burst : FlowState → Packet → Bool
burst s pkt = ltb (time_span pkt.timestamp s.oldest_ts) (from_secs 60)

-- The state comes back beside (burst_detected, packets_snapshot).
pub add_packet : FlowState → Packet → Bool × Option (List Packet) × FlowState
add_packet s pkt =
    if ltb s.count 100
    then (false, none, add_below s pkt)
    else let burst_detected = burst s pkt in
      let packets_snapshot = if burst_detected then some (get_ordered_packets s) else none in
      (burst_detected, packets_snapshot, add_full s pkt)
