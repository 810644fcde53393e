-- ===== src/Capture.antt =====
-- src/capture.rs: the ring of blocks shared with the kernel, and the packets of a block. A read out of
-- the block's memory, which the source leaves undefined, panics here. Numbers are little-endian, as on
-- the machines that the sensor runs on.
pub mod Ring
pub mod Chunk
pub mod Iterator
pub mod Tests
use nids.Prelude.{
  ℕ, ◌+◌, ◌%◌, ◌^◌, Bool, true, false, not, Option, none, some, List, leb, ltb, ◌==◌, if◌then◌else◌,
}
use nids.Prelude.Outcome.{Outcome, returns, panics, ◌>>=◌, slice}
use nids.Prelude.Bytes.{bit, read_le16, read_le32}
use nids.Prelude.Loop.{when◌then◌else◌}

abbrev pub block_nr : ℕ
block_nr = 64

abbrev pub tp_status_kernel : ℕ
tp_status_kernel = 0

-- status & TP_STATUS_USER
abbrev pub is_user : ℕ → Bool
is_user status = bit status 0

-- The next block to look at, and the status word of every block.
pub record MmapCapture : Type 0 where
  pub current_block_idx : ℕ
  pub block_status : ℕ → ℕ

-- What `poll` returns, as whether it is positive, and the status words then.
pub record Poll : Type 0 where
  pub ready : Bool
  pub status_after : ℕ → ℕ

-- `next_block` once the block is there.
unfoldable pub take_block : MmapCapture → Option ℕ × MmapCapture
take_block c = (
  some c.current_block_idx,
  record c { current_block_idx = (c.current_block_idx + 1) % block_nr },
)

unfoldable pub next_block : MmapCapture → Poll → Option ℕ × MmapCapture
unfolding take_block
next_block c poll =
    let polled = record c { block_status = poll.status_after } in
    if is_user (c.block_status c.current_block_idx)
    then take_block c
    else if not poll.ready
    then (none, polled)
    else if is_user (polled.block_status polled.current_block_idx)
    then take_block polled
    else (none, polled)

-- `recycle_block`, which the drop of a `BlockGuard` calls.
unfoldable pub recycle_block : ℕ → MmapCapture → MmapCapture
recycle_block block_idx c = record c {
  block_status = λ i. if i == block_idx then tp_status_kernel else c.block_status i;
}

pub record RawPacket : Type 0 where
  pub bytes : List ℕ
  pub sec : ℕ
  pub nsec : ℕ
  pub len : ℕ
  pub snaplen : ℕ
  pub block_idx : ℕ

pub record PacketIterator : Type 0 where
  pub num_pkts : ℕ
  pub current_pkt_idx : ℕ
  pub current_offset : ℕ
  pub block_idx : ℕ

-- `BlockGuard::packets`: num_pkts stands at 12 in the block, offset_to_first_pkt at 16.
unfoldable pub packets : List ℕ → ℕ → Outcome PacketIterator
packets block block_idx = do
  num_pkts ← read_le32 block 12
  first ← read_le32 block 16
  returns (record {
    num_pkts = num_pkts;
    current_pkt_idx = 0;
    current_offset = first;
    block_idx = block_idx;
  })

-- `PacketIterator::next`: in the header tp_next_offset stands at 0, tp_sec at 4, tp_nsec at 8,
-- tp_snaplen at 12, tp_len at 16 and tp_mac at 24.
unfoldable pub next_packet : List ℕ → PacketIterator → Outcome (Option (RawPacket × PacketIterator))
next_packet block it = when leb it.num_pkts it.current_pkt_idx then returns none else do
  let at = it.current_offset
  next_offset ← read_le32 block at
  sec ← read_le32 block (at + 4)
  nsec ← read_le32 block (at + 8)
  snaplen ← read_le32 block (at + 12)
  len ← read_le32 block (at + 16)
  mac ← read_le16 block (at + 24)
  bytes ← slice block (at + mac) (at + mac + snaplen)
  returns (
      some (
        record {
          bytes = bytes;
          sec = sec;
          nsec = nsec;
          len = len;
          snaplen = snaplen;
          block_idx = it.block_idx;
        },
        record it {
          current_offset = if ltb 0 next_offset then at + next_offset else at;
          current_pkt_idx =
              ((if ltb 0 next_offset then it.current_pkt_idx else it.num_pkts) + 1) % 2 ^ 32;
        },
      ))
