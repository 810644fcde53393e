-- ===== src/FlowKey/Sound.antt =====
-- The keys that `parse_flow_key` of src/flow_parser.rs returns, against the bytes of the frame.
use nids.Prelude.{
  ℕ, ◌+◌, ◌*◌, ◌%◌, ◌≤◌, ◌<◌, ◌≡◌, inl, inr, true, ◌&&◌, List, length, drop, get_or, All, leb, ltb,
  ltb-false→le, ◌==◌, if◌then◌else◌, arith, Bool-cases, length-drop,
}
use nids.Prelude.Outcome.{returns, bind-returns, byte-at, slice_from-eq}
use nids.Prelude.Bytes.{IsByte, read_be32-at, get_or-IsByte, drop-IsByte}
use nids.FlowKey.{FlowKey, truncated_header, ok, err, parse_ports, parse_ipv4, parse_flow_key}
use nids.FlowKey.Safety.{parse_flow_key-eq}
use nids.FlowKey.Frames.{key_of, CarriesPorts, IsKey, parse_ports-eq}

parse_ports-IsKey : (ip : List ℕ) (ihl : ℕ) → All IsByte ip → IsKey (key_of ip ihl)
parse_ports-IsKey ip ihl h =
    let at = λ (i : ℕ). get_or-IsByte ip i h in
    let past = λ (i : ℕ). get_or-IsByte (drop ihl ip) i (drop-IsByte ihl ip h) in
    omega (
      arith,
      at 12,
      at 13,
      at 14,
      at 15,
      at 16,
      at 17,
      at 18,
      at 19,
      past 0,
      past 1,
      past 2,
      past 3,
    )

parse_ports_short :
    (ip : List ℕ) (ihl : ℕ)
    → 20 ≤ length ip
    → ihl ≤ length ip
    → length ip < ihl + 4
    → parse_ports ip ihl ≡ returns (err truncated_header)
unfolding parse_ports
parse_ports_short ip ihl h k l =
    let short : ltb (length (drop ihl ip)) 4 ≡ true = ground (arith, length-drop ihl ip) in
    simp (read_be32-at ip 20 h, slice_from-eq ip ihl k, bind-returns) (rw short)

-- A key is returned only for a header that carries ports, and is the key in it.
parse_ipv4-ok_inv :
    (ip : List ℕ) (key : FlowKey)
    → parse_ipv4 ip ≡ returns (ok key)
    → CarriesPorts ip × (key ≡ key_of ip (get_or ip 0 0 % 16 * 4))
unfolding parse_ipv4
parse_ipv4-ok_inv ip key h = elim (Bool-cases (ltb (length ip) 20)) [
  | inl t ↦ cc (rw t at h)
  | inr t ↦
      let long : 20 ≤ length ip = ltb-false→le _ _ t in
      let h' = simp (byte-at ip 20 long, bind-returns) at (rw t at h) in
      let ihl = get_or ip 0 0 % 16 * 4 in
      ground (arith, h', parse_ports-eq ip ihl, parse_ports_short ip ihl long)
]

-- The bytes that the parser takes for the IPv4 packet of a frame.
unfoldable pub packet_of : List ℕ → List ℕ
packet_of frame =
    if leb 14 (length frame) && ((get_or frame 12 0 == 0x08) && (get_or frame 13 0 == 0x00))
    then drop 14 frame
    else frame

packet_of-IsByte : (frame : List ℕ) → All IsByte frame → All IsByte (packet_of frame)
unfolding packet_of
packet_of-IsByte frame h =
    elim (Bool-cases
      (leb 14 (length frame) && ((get_or frame 12 0 == 0x08) && (get_or frame 13 0 == 0x00)))) [
        | inl t ↦ rw t (drop-IsByte 14 frame h)
        | inr t ↦ rw t h
      ]

parse_flow_key_packet :
    (frame : List ℕ) (key : FlowKey)
    → parse_flow_key frame ≡ returns (ok key)
    → parse_ipv4 (packet_of frame) ≡ returns (ok key)
unfolding packet_of
parse_flow_key_packet frame key h = let h' = rw (parse_flow_key-eq frame) at h in ground (arith, h')

-- Whatever key the parser returns, the frame holds a whole IPv4 header that carries TCP or UDP
-- ports, and the key is its addresses and those ports, each within its width.
pub parse_flow_key_sound :
    (frame : List ℕ) (key : FlowKey)
    → All IsByte frame
    → parse_flow_key frame ≡ returns (ok key)
    → CarriesPorts (packet_of frame)
      × (key ≡ key_of (packet_of frame) (get_or (packet_of frame) 0 0 % 16 * 4))
      × IsKey key
parse_flow_key_sound frame key bytes h =
    let (carries, e) =
      parse_ipv4-ok_inv (packet_of frame) key (parse_flow_key_packet frame key h) in
    (
      carries,
      e,
      rw e (
          parse_ports-IsKey (packet_of frame) (get_or (packet_of frame) 0 0 % 16 * 4)
            (packet_of-IsByte frame bytes)),
    )
