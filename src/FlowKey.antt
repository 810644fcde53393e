-- ===== src/FlowKey.antt =====
-- src/flow_parser.rs: the 4-tuple of a raw frame. A frame is a list of bytes, and every index
-- and slice of the source is one that may panic.
pub mod Safety
pub mod Frames
pub mod Sound
mod Tests
use nids.Prelude.{
  ℕ, ◌*◌, ◌/◌, ◌%◌, Bool, true, false, not, List, [], ◌∷◌, length, leb, ltb, ◌==◌, if◌then◌else◌,
  ◌&&◌, ◌||◌,
}
use nids.Prelude.Outcome.{Outcome, returns, ◌>>=◌, byte, slice_from}
use nids.Prelude.Bytes.{read_be16, read_be32}

pub data FlowParseError : Type 0 where
  packet_too_short : FlowParseError
  not_ipv4 : FlowParseError
  unsupported_protocol : ℕ → FlowParseError
  truncated_header : FlowParseError

pub data Result {ℓ} (A : Type ℓ) : Type ℓ where
  ok : A → Result A
  err : FlowParseError → Result A

-- (src_ip, src_port, dst_ip, dst_port)
abbrev pub FlowKey : Type 0
FlowKey = ℕ × ℕ × ℕ × ℕ

-- data.len() >= 14 && data[12] == 0x08 && data[13] == 0x00
pub is_ethernet_ipv4 : List ℕ → Outcome Bool
is_ethernet_ipv4 frame =
    if leb 14 (length frame)
    then (do
      hi ← byte frame 12
      if hi == 0x08 then (do lo ← byte frame 13; returns (lo == 0x00)) else returns false)
    else returns false

-- The ports behind an IPv4 header of `ihl` bytes, with the addresses of that header.
pub parse_ports : List ℕ → ℕ → Outcome (Result FlowKey)
parse_ports ip_bytes ihl = do
  src_ip ← read_be32 ip_bytes 12
  dst_ip ← read_be32 ip_bytes 16
  transport_bytes ← slice_from ip_bytes ihl
  if ltb (length transport_bytes) 4 then returns (err truncated_header) else do
    src_port ← read_be16 transport_bytes 0
    dst_port ← read_be16 transport_bytes 2
    returns (ok (src_ip, src_port, dst_ip, dst_port))

pub parse_ipv4 : List ℕ → Outcome (Result FlowKey)
parse_ipv4 ip_bytes = if ltb (length ip_bytes) 20 then returns (err packet_too_short) else do
  first ← byte ip_bytes 0
  if not (first / 16 == 4)
      then returns (err not_ipv4)
      else let ihl = first % 16 * 4 in
        if ltb ihl 20 || ltb (length ip_bytes) ihl then returns (err truncated_header) else do
          protocol ← byte ip_bytes 9
          if not (protocol == 6) && not (protocol == 17)
              then returns (err (unsupported_protocol protocol))
              else parse_ports ip_bytes ihl

pub parse_flow_key : List ℕ → Outcome (Result FlowKey)
parse_flow_key frame = if length frame == 0 then returns (err packet_too_short) else do
  ethernet ← is_ethernet_ipv4 frame
  if ethernet then (do ip_bytes ← slice_from frame 14; parse_ipv4 ip_bytes) else do
    first ← byte frame 0
    if first / 16 == 4
        then (do ip_bytes ← slice_from frame 0; parse_ipv4 ip_bytes)
        else returns (err not_ipv4)
