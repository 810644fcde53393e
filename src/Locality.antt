-- ===== src/Locality.antt =====
-- src/locality.rs: the batch buffer that groups packets by port with a counting sort. The fixed
-- arrays are functions of the index: the source tests each index against the array's size, or the
-- index is a 16-bit port. Numbers of width `u16` are kept modulo 2 ^ 16 where the source adds.
pub mod Batch
pub mod Offsets
pub mod Grouping
pub mod Drain
mod Tests
use nids.Prelude.{
  ℕ, zero, suc, ◌+◌, ◌%◌, ◌^◌, Bool, true, false, List, [], leb, ltb, ◌==◌, if◌then◌else◌, gather,
}

abbrev pub max_batch_size : ℕ
max_batch_size = 4096

abbrev pub max_active_buckets : ℕ
max_active_buckets = 4096

-- The pointer `data_ptr` is an address.
pub record PacketRef : Type 0 where
  pub data_ptr : ℕ
  pub len : ℕ
  pub sec : ℕ
  pub nsec : ℕ
  pub block_idx : ℕ
  pub port_key : ℕ

abbrev pub default_ref : PacketRef
default_ref = record { data_ptr = 0; len = 0; sec = 0; nsec = 0; block_idx = 0; port_key = 0 }

-- array[i] = v
abbrev pub update {ℓ} : {A : Type ℓ} → (ℕ → A) → ℕ → A → ℕ → A
update array i v j = if i == j then v else array j

pub record LocalityBuffer : Type 0 where
  pub input_refs : ℕ → PacketRef
  pub sorted_refs : ℕ → PacketRef
  pub counts : ℕ → ℕ
  pub offsets : ℕ → ℕ
  pub start_offsets : ℕ → ℕ
  pub active_buckets : ℕ → ℕ
  pub active_count : ℕ
  pub current_size : ℕ

pub new : LocalityBuffer
new = record {
  input_refs = λ i. default_ref;
  sorted_refs = λ i. default_ref;
  counts = λ i. 0;
  offsets = λ i. 0;
  start_offsets = λ i. 0;
  active_buckets = λ i. 0;
  active_count = 0;
  current_size = 0;
}

-- The body of the loop of `clear`.
pub clear_bucket : LocalityBuffer → ℕ → LocalityBuffer
clear_bucket b port = record b {
  counts = update b.counts port 0;
  offsets = update b.offsets port 0;
  start_offsets = update b.start_offsets port 0;
}

-- The loop over `n` active buckets from the `i`-th.
pub clear_buckets : ℕ → ℕ → LocalityBuffer → LocalityBuffer
clear_buckets zero i b = b
clear_buckets (suc n) i b = clear_buckets n (i + 1) (clear_bucket b (b.active_buckets i))

pub clear : LocalityBuffer → LocalityBuffer
clear b = record (clear_buckets b.active_count 0 b) { active_count = 0; current_size = 0 }

-- The first packet of a port makes the port active.
pub track : LocalityBuffer → ℕ → LocalityBuffer
track b port =
    if b.counts port == 0
    then if ltb b.active_count max_active_buckets
      then record b {
        active_buckets = update b.active_buckets b.active_count port;
        active_count = b.active_count + 1;
      }
      else b
    else b

pub data AddResult : Type 0 where
  ok : AddResult
  batch_size_exceeded : AddResult

-- The buffer comes back beside the result.
pub add_packet : LocalityBuffer → PacketRef → AddResult × LocalityBuffer
add_packet b pkt =
    if leb max_batch_size b.current_size
    then (batch_size_exceeded, b)
    else let b' =
        track (record b { input_refs = update b.input_refs b.current_size pkt }) pkt.port_key in
      (
        ok,
        record b' {
          counts = update b'.counts pkt.port_key ((b'.counts pkt.port_key + 1) % 2 ^ 16);
          current_size = b'.current_size + 1;
        },
      )

-- The body of step 1 of `group_packets`, with the running `sum`.
pub place_bucket : LocalityBuffer → ℕ → ℕ → LocalityBuffer
place_bucket b port sum = record b {
  offsets = update b.offsets port sum;
  start_offsets = update b.start_offsets port sum;
}

-- Step 1 over `n` active buckets from the `i`-th.
pub place_buckets : ℕ → ℕ → ℕ → LocalityBuffer → LocalityBuffer
place_buckets zero i sum b = b
place_buckets (suc n) i sum b =
    let port = b.active_buckets i in
    place_buckets n (i + 1) ((sum + b.counts port) % 2 ^ 16) (place_bucket b port sum)

-- One round of step 2.
pub place_ref : LocalityBuffer → PacketRef → LocalityBuffer
place_ref b pkt_ref =
    let port = pkt_ref.port_key in
    let dest_idx = b.offsets port in
    if ltb dest_idx max_batch_size
    then record b {
      sorted_refs = update b.sorted_refs dest_idx pkt_ref;
      offsets = update b.offsets port ((dest_idx + 1) % 2 ^ 16);
    }
    else b

-- Step 2 over `n` inputs from the `i`-th.
pub place_refs : ℕ → ℕ → LocalityBuffer → LocalityBuffer
place_refs zero i b = b
place_refs (suc n) i b = place_refs n (i + 1) (place_ref b (b.input_refs i))

pub group_packets : LocalityBuffer → LocalityBuffer
group_packets b =
    if b.current_size == 0
    then b
    else let placed = place_buckets b.active_count 0 0 b in place_refs placed.current_size 0 placed

pub get_bucket_slice : LocalityBuffer → ℕ → List PacketRef
get_bucket_slice b port =
    let start = b.start_offsets port in
    let count = b.counts port in
    if leb (start + count) b.current_size then gather b.sorted_refs start count else []
