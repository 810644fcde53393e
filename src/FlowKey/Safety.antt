-- ===== src/FlowKey/Safety.antt =====
-- `parse_flow_key` of src/flow_parser.rs on arbitrary bytes.
use nids.Prelude.{
  ℕ, ◌≤◌, ◌*◌, ◌/◌, ◌%◌, ◌≡◌, ◌&&◌, List, length, drop, get_or, arith, leb, ltb, leb→le, ◌==◌,
  if◌then◌else◌, inl, inr, Bool-cases, ltb-false→le,
}
use nids.Prelude.Outcome.{
  returns, bind-returns, Runs, Runs-returns, slice_from-bind, byte-at, slice_from-eq,
}
use nids.Prelude.Bytes.{read_be16-at, read_be32-at}
use nids.FlowKey.{
  err, parse_ports, parse_ipv4, packet_too_short, not_ipv4, is_ethernet_ipv4, parse_flow_key,
}

parse_ports-Runs :
    (ip : List ℕ) (ihl : ℕ) → 20 ≤ length ip → ihl ≤ length ip → Runs (parse_ports ip ihl)
unfolding parse_ports
parse_ports-Runs ip ihl h k =
    simp (read_be32-at ip 20 h, slice_from-eq ip ihl k, bind-returns)
      (elim (Bool-cases (ltb (length (drop ihl ip)) 4)) [
        | inl t ↦ rw t (Runs-returns _)
        | inr t ↦ rw t (
            simp (read_be16-at (drop ihl ip) 4 (ltb-false→le _ _ t), bind-returns) (Runs-returns _))
      ])

parse_ipv4-Runs : (ip : List ℕ) → Runs (parse_ipv4 ip)
unfolding parse_ipv4
parse_ipv4-Runs ip = elim (Bool-cases (ltb (length ip) 20)) [
  | inl t ↦ rw t (Runs-returns _)
  | inr t ↦
      let h : 20 ≤ length ip = ltb-false→le _ _ t in
      rw t (
        simp (byte-at ip 20 h, bind-returns)
          (ground (arith, parse_ports-Runs ip (get_or ip 0 0 % 16 * 4) h)))
]

is_ethernet_ipv4-eq :
    (frame : List ℕ)
    → is_ethernet_ipv4 frame
      ≡ returns
          (leb 14 (length frame) && ((get_or frame 12 0 == 0x08) && (get_or frame 13 0 == 0x00)))
unfolding is_ethernet_ipv4
is_ethernet_ipv4-eq frame = elim (Bool-cases (leb 14 (length frame))) [
  | inl t ↦ rw t (simp (byte-at frame 14 (leb→le _ _ t), bind-returns) (ground arith))
  | inr t ↦ rw t
]

-- A frame that the Ethernet test takes is parsed from byte 14, any other from byte 0 if that byte
-- says IPv4.
pub parse_flow_key-eq :
    (frame : List ℕ)
    → parse_flow_key frame ≡ (
        if length frame == 0
        then returns (err packet_too_short)
        else if leb 14 (length frame)
            && ((get_or frame 12 0 == 0x08) && (get_or frame 13 0 == 0x00))
        then parse_ipv4 (drop 14 frame)
        else if get_or frame 0 0 / 16 == 4
        then parse_ipv4 frame
        else returns (err not_ipv4))
unfolding parse_flow_key
parse_flow_key-eq frame = elim (Bool-cases (length frame == 0)) [
  | inl t ↦ rw t
  | inr t ↦ rw t (
      simp (is_ethernet_ipv4-eq frame, byte-at frame 1 (ground arith), bind-returns)
        (ground (arith, slice_from-bind frame 14 parse_ipv4, slice_from-bind frame 0 parse_ipv4)))
]

-- No frame makes the flow key parser panic.
pub parse_flow_key-Runs : (frame : List ℕ) → Runs (parse_flow_key frame)
parse_flow_key-Runs frame =
    rw (parse_flow_key-eq frame)
      (ground (arith, parse_ipv4-Runs (drop 14 frame), parse_ipv4-Runs frame))
