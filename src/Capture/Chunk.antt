-- ===== src/Capture/Chunk.antt =====
-- One frame in a block of src/capture.rs, and what the packet iterator reads of it.
use nids.Prelude.{
  ℕ, ◌+◌, ◌-◌, ◌/◌, ◌%◌, ◌^◌, ◌<◌, ◌≤◌, ◌≡◌, ap, ◌∙◌, false, some, List, [], ◌∷◌, ◌++◌, length, leb,
  ltb, get_or, drop, arith, length-append, get_or-append, drop-append_add, drop-append, take-append,
  if◌then◌else◌,
}
use mathlib.Core.List.{append_assoc}
use nids.Prelude.Outcome.{returns, bind-returns, slice, slice-eq}
use nids.Prelude.Bytes.{be32, read_le16, read_le32, read_le16-eq, read_le32-eq}
use nids.Prelude.Loop.{when◌then◌else◌}
use nids.Capture.{RawPacket, next_packet}

-- A frame, and what stands in the block between the field tp_mac and it, and between it and the
-- next frame.
pub record Frame : Type 0 where
  pub sec : ℕ
  pub nsec : ℕ
  pub len : ℕ
  pub gap : List ℕ
  pub bytes : List ℕ
  pub padding : List ℕ

pub record IsFrame (f : Frame) : Type 0 where
  pub sec : f.sec < 2 ^ 32
  pub nsec : f.nsec < 2 ^ 32
  pub len : f.len < 2 ^ 32
  pub gap : 26 + length f.gap < 2 ^ 16
  pub bytes : length f.bytes < 2 ^ 31
  pub padding : length f.padding < 2 ^ 16

abbrev pub mac_of : Frame → ℕ
mac_of f = 26 + length f.gap

abbrev pub size : Frame → ℕ
size f = mac_of f + length f.bytes + length f.padding

abbrev le32 : ℕ → List ℕ → List ℕ
le32 n rest = n % 256 ∷ n / 256 % 256 ∷ n / 65536 % 256 ∷ n / 16777216 ∷ rest

abbrev header : ℕ → Frame → List ℕ
header next f = le32 next (
    le32 f.sec (
      le32 f.nsec
        (le32 (length f.bytes) (le32 f.len (le32 1 (mac_of f % 256 ∷ mac_of f / 256 ∷ []))))))

-- The frame in the block, with the distance to the next one.
abbrev pub chunk : ℕ → Frame → List ℕ
chunk next f = header next f ++ (f.gap ++ (f.bytes ++ f.padding))

abbrev pub raw : ℕ → Frame → RawPacket
raw block_idx f = record {
  bytes = f.bytes;
  sec = f.sec;
  nsec = f.nsec;
  len = f.len;
  snaplen = length f.bytes;
  block_idx = block_idx;
}

get_or-behind :
    (before ys : List ℕ) (k j : ℕ)
    → get_or (before ++ ys) (length before + k + j) 0 ≡ get_or ys (k + j) 0
get_or-behind before ys k j =
    let e : length before + k + j ≡ length before + (k + j) = omega arith in
    ap (λ i. get_or (before ++ ys) i 0) e ∙ get_or-append before ys (k + j) 0

read_le32-behind :
    (before ys : List ℕ) (k : ℕ)
    → k + 3 < length ys
    → read_le32 (before ++ ys) (length before + k)
      ≡ returns (
          be32
            (get_or ys (k + 3) 0)
            (get_or ys (k + 2) 0)
            (get_or ys (k + 1) 0)
            (get_or ys (k + 0) 0))
read_le32-behind before ys k h =
    let zeroth : length before + k ≡ length before + k + 0 = omega arith in
    read_le32-eq (before ++ ys) (length before + k) (omega (arith, length-append before ys, h))
    ∙ ap returns (
        omega (
          arith,
          get_or-behind before ys k 0,
          get_or-behind before ys k 1,
          get_or-behind before ys k 2,
          get_or-behind before ys k 3,
          ap (λ i. get_or (before ++ ys) i 0) zeroth,
        ))

module _ (before rest : List ℕ) (next : ℕ) (f : Frame) (h : IsFrame f)
    (next_fits : next < 2 ^ 32) where
  abbrev ys : List ℕ
  ys = chunk next f ++ rest

  long : 26 + length f.gap + length f.bytes ≤ length ys
  long = omega (
    arith,
    length-append (f.gap ++ (f.bytes ++ f.padding)) rest,
    length-append f.gap (f.bytes ++ f.padding),
    length-append f.bytes f.padding,
  )

  read_next : read_le32 (before ++ ys) (length before) ≡ returns next
  read_next =
      let e : length before ≡ length before + 0 = omega arith in
      ap (read_le32 (before ++ ys)) e
      ∙ read_le32-behind before ys 0 (omega (arith, long))
      ∙ ap returns (omega arith)

  read_sec : read_le32 (before ++ ys) (length before + 4) ≡ returns f.sec
  read_sec = read_le32-behind before ys 4 (omega (arith, long)) ∙ ap returns (omega (arith, h.sec))

  read_nsec : read_le32 (before ++ ys) (length before + 8) ≡ returns f.nsec
  read_nsec =
      read_le32-behind before ys 8 (omega (arith, long)) ∙ ap returns (omega (arith, h.nsec))

  read_snaplen : read_le32 (before ++ ys) (length before + 12) ≡ returns (length f.bytes)
  read_snaplen =
      read_le32-behind before ys 12 (omega (arith, long)) ∙ ap returns (omega (arith, h.bytes))

  read_len : read_le32 (before ++ ys) (length before + 16) ≡ returns f.len
  read_len = read_le32-behind before ys 16 (omega (arith, long)) ∙ ap returns (omega (arith, h.len))

  read_mac : read_le16 (before ++ ys) (length before + 24) ≡ returns (mac_of f)
  read_mac =
      read_le16-eq (before ++ ys) (length before + 24)
        (omega (arith, length-append before ys, long))
      ∙ ap returns
          (omega (arith, get_or-append before ys 24 0, get_or-behind before ys 24 1, h.gap))

  dropped : drop (length before + mac_of f) (before ++ ys) ≡ f.bytes ++ (f.padding ++ rest)
  dropped =
      drop-append_add before ys (mac_of f)
      ∙ drop-append_add (header next f) ((f.gap ++ (f.bytes ++ f.padding)) ++ rest) (length f.gap)
      ∙ ap (drop (length f.gap)) (append_assoc f.gap (f.bytes ++ f.padding) rest)
      ∙ drop-append f.gap ((f.bytes ++ f.padding) ++ rest)
      ∙ append_assoc f.bytes f.padding rest

  read_bytes :
      slice (before ++ ys) (length before + mac_of f) (length before + mac_of f + length f.bytes)
      ≡ returns f.bytes
  read_bytes =
      let at = length before + mac_of f in
      let e : at + length f.bytes - at ≡ length f.bytes = omega arith in
      slice-eq (before ++ ys) at (at + length f.bytes) (omega arith)
        (omega (arith, length-append before ys, long))
      ∙ rw (e, dropped) (ap returns (take-append f.bytes (f.padding ++ rest)))

  -- The iterator at the frame returns it, and goes on behind it or stops.
  pub next_packet-chunk :
      (num_pkts current block_idx : ℕ)
      → current < num_pkts
      → next_packet (before ++ ys) (record {
        num_pkts = num_pkts;
        current_pkt_idx = current;
        current_offset = length before;
        block_idx = block_idx;
      })
        ≡ returns (
            some (
              raw block_idx f,
              record {
                num_pkts = num_pkts;
                current_pkt_idx = ((if ltb 0 next then current else num_pkts) + 1) % 2 ^ 32;
                current_offset = if ltb 0 next then length before + next else length before;
                block_idx = block_idx;
              },
            ))
  unfolding next_packet when◌then◌else◌
  next_packet-chunk num_pkts current block_idx more =
      let go : leb num_pkts current ≡ false = ground (arith, more) in
      rw (
        go, read_next, bind-returns, read_sec, bind-returns, read_nsec, bind-returns, read_snaplen,
        bind-returns, read_len, bind-returns, read_mac, bind-returns, read_bytes, bind-returns,
      )
