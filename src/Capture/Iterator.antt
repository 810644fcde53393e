-- ===== src/Capture/Iterator.antt =====
-- The packet iterator of src/capture.rs over a block that holds given frames.
use nids.Prelude.{
  ℕ, zero, suc, ◌+◌, ◌%◌, ◌^◌, ◌<◌, ◌≤◌, ◌≡◌, ap, subst, ◌∙◌, true, none, some, List, [], ◌∷◌, ◌++◌,
  map, length, leb, ltb, arith, length-append, All, if◌then◌else◌,
}
use mathlib.Core.List.{append_assoc}
use nids.Prelude.Outcome.{Outcome, returns, panics, ◌>>=◌, bind-returns}
use nids.Prelude.Loop.{when◌then◌else◌}
use nids.Capture.{RawPacket, PacketIterator, next_packet}
use nids.Capture.Chunk.{Frame, IsFrame, size, chunk, raw, next_packet-chunk}

-- Frames one behind the other, the distance of the last one zero, and what the block holds behind
-- them.
abbrev pub encode_frames : List Frame → List ℕ → List ℕ
encode_frames [] behind = behind
encode_frames (f ∷ []) behind = chunk 0 f ++ behind
encode_frames (f ∷ g ∷ fs) behind = chunk (size f) f ++ encode_frames (g ∷ fs) behind

-- The loop over the iterator, with fuel.
unfoldable pub all_packets : ℕ → List ℕ → PacketIterator → Outcome (List RawPacket)
unfolding next_packet
all_packets zero block it = panics
all_packets (suc n) block it = next_packet block it >>= λ step. elim step [
  | none ↦ returns []
  | some (packet, it') ↦ do later ← all_packets n block it'; returns (packet ∷ later)
]

all_packets-stop :
    (n : ℕ) (block : List ℕ) (it : PacketIterator)
    → it.num_pkts ≤ it.current_pkt_idx
    → all_packets (suc n) block it ≡ returns []
unfolding all_packets next_packet when◌then◌else◌
all_packets-stop n block it h =
    let stop : leb it.num_pkts it.current_pkt_idx ≡ true = ground (arith, h) in
    rw (stop, bind-returns)

all_packets-step :
    (n : ℕ) (block : List ℕ) (it it' : PacketIterator) (packet : RawPacket) (later : List RawPacket)
    → next_packet block it ≡ returns (some (packet, it'))
    → all_packets n block it' ≡ returns later
    → all_packets (suc n) block it ≡ returns (packet ∷ later)
unfolding all_packets
all_packets-step n block it it' packet later h k = rw (h, bind-returns, k, bind-returns)

abbrev pub iterator : ℕ → ℕ → ℕ → ℕ → PacketIterator
iterator num_pkts current offset block_idx = record {
  num_pkts = num_pkts;
  current_pkt_idx = current;
  current_offset = offset;
  block_idx = block_idx;
}

iterator-ext :
    (num num' current current' offset offset' block_idx : ℕ)
    → num ≡ num'
    → current ≡ current'
    → offset ≡ offset'
    → iterator num current offset block_idx ≡ iterator num' current' offset' block_idx
iterator-ext num num' current current' offset offset' block_idx n c o =
    ap (λ x. iterator x current offset block_idx) n
    ∙ ap (λ x. iterator num' x offset block_idx) c
    ∙ ap (λ x. iterator num' current' x block_idx) o

length-chunk : (next : ℕ) (f : Frame) → length (chunk next f) ≡ size f
length-chunk next f =
    omega (arith, length-append f.gap (f.bytes ++ f.padding), length-append f.bytes f.padding)

-- In a block of frames that fit their fields, fewer than 2^32 - 1, with any padding behind each, the
-- iterator returns them all in order, each with its bytes and header fields, and then ends, within
-- one round more than there are packets.
pub all_packets-encode_frames :
    (fs : List Frame) (before behind : List ℕ) (current block_idx : ℕ)
    → All IsFrame fs
    → current + length fs + 1 < 2 ^ 32
    → all_packets
        (suc (length fs))
        (before ++ encode_frames fs behind)
        (iterator (current + length fs) current (length before) block_idx)
      ≡ returns (map (raw block_idx) fs)
all_packets-encode_frames [] before behind current block_idx h fits =
    all_packets-stop 0 (before ++ behind) _ (omega arith)
all_packets-encode_frames (f ∷ []) before behind current block_idx (h, tt) fits =
    all_packets-step 1 (before ++ encode_frames (f ∷ []) behind) _ _ (raw block_idx f) []
      (next_packet-chunk before behind 0 f h (omega arith) (current + 1) current block_idx
        (omega arith))
      (all_packets-stop 0 (before ++ encode_frames (f ∷ []) behind) _ (omega arith))
all_packets-encode_frames (f ∷ g ∷ fs) before behind current block_idx (h, hs) fits =
    let whole = current + length (f ∷ g ∷ fs) in
    let first = chunk (size f) f in
    let rest = encode_frames (g ∷ fs) behind in
    let far : ltb 0 (size f) ≡ true = ground arith in
    let fits' : current + 1 + length (g ∷ fs) + 1 < 2 ^ 32 = omega arith in
    let small : size f < 2 ^ 32 = omega (arith, h.gap, h.bytes, h.padding) in
    let later =
      all_packets-encode_frames (g ∷ fs) (before ++ first) behind (current + 1) block_idx hs
        fits' in
    let same_block : (before ++ first) ++ rest ≡ before ++ (first ++ rest) =
      append_assoc before first rest in
    let same_iterator : iterator (current + 1 + length (g ∷ fs)) (current + 1)
          (length (before ++ first)) block_idx
        ≡ iterator whole (((if ltb 0 (size f) then current else whole) + 1) % 2 ^ 32)
            (if ltb 0 (size f) then length before + size f else length before) block_idx =
      iterator-ext (current + 1 + length (g ∷ fs)) whole (current + 1)
        (((if ltb 0 (size f) then current else whole) + 1) % 2 ^ 32) (length (before ++ first))
        (if ltb 0 (size f) then length before + size f else length before) block_idx (omega arith)
        (ground (arith, far))
        (ground (arith, far, length-append before first, length-chunk (size f) f)) in
    all_packets-step (suc (length (g ∷ fs))) (before ++ (first ++ rest)) _ _ (raw block_idx f)
      (map (raw block_idx) (g ∷ fs))
      (next_packet-chunk before rest (size f) f h small whole current block_idx (omega arith))
      (subst
        (λ it.
          all_packets (suc (length (g ∷ fs))) (before ++ (first ++ rest)) it
          ≡ returns (map (raw block_idx) (g ∷ fs)))
        same_iterator
        (subst
          (λ block.
            all_packets (suc (length (g ∷ fs))) block (
              iterator (current + 1 + length (g ∷ fs)) (current + 1) (length (before ++ first))
                block_idx)
            ≡ returns (map (raw block_idx) (g ∷ fs)))
          same_block later))
