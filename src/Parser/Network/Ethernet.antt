-- ===== src/Parser/Network/Ethernet.antt =====
-- An Ethernet II frame with an IPv4 packet, through `parse_packet` of src/parser.rs.
use nids.Prelude.{
  ℕ, ◌<◌, ◌≡◌, refl, none, List, take, drop, length, ltb, ◌==◌, false, true, arith, Option, some,
}
use nids.Prelude.Outcome.{bind-returns, slice-eq, slice_from-eq}
use nids.Prelude.Bytes.{read_be16-eq, be16_of}
use nids.Prelude.Loop.{when◌then◌else◌}
use nids.FlowKey.Frames.{ethernet, ethernet_parts}
use nids.Parser.Link.{PacketMeta, ethernet_link}
use nids.Parser.Layers.{ParsedPacket}
use nids.Parser.Text.{copy_mac}
use nids.Parser.Entry.{empty_packet, parse_link, parse_packet}
use nids.Parser.Network.{
  parse_ipv4, parse_ethernet_payload, outer_tag, inner_tag, parse_ethernet_frame,
}

-- The record of a frame without tags, before its packet is read.
abbrev pub untagged : List ℕ → List ℕ → Option PacketMeta → ParsedPacket
untagged macs packet meta = record (empty_packet ethernet_link meta) {
  dst_mac = copy_mac (take 6 (ethernet macs packet));
  src_mac = copy_mac (take 6 (drop 6 (ethernet macs packet)));
  ethernet = some (record {
    ether_type = 0x0800;
    vlan_id = none;
    pcp = none;
    dei = none;
    outer_vlan_id = none;
    outer_pcp = none;
    frame_length = length (ethernet macs packet);
    fcs = none;
  });
  raw_payload = packet;
}

-- The packet behind the header of the frame goes to the IPv4 parser.
pub parse_packet-ethernet :
    (macs packet : List ℕ) (meta : Option PacketMeta)
    → length macs ≡ 12
    → 14 < length (ethernet macs packet)
    → parse_packet (ethernet macs packet) ethernet_link meta
      ≡ parse_ipv4 packet (untagged macs packet meta)
unfolding parse_packet parse_link parse_ethernet_frame outer_tag inner_tag parse_ethernet_payload
    when◌then◌else◌
parse_packet-ethernet macs packet meta m long =
    let frame = ethernet macs packet in
    let (hi, lo, tail, whole) = ethernet_parts macs packet m in
    let some_bytes : (length frame == 0) ≡ false = ground arith in
    let short : ltb (length frame) 14 ≡ false = ground arith in
    let more : ltb 14 (length frame) ≡ true = ground arith in
    let ether_type : be16_of frame 12 ≡ 0x0800 = omega (arith, hi, lo) in
    rw
      (
        some_bytes,
        short,
        slice-eq frame 0 6 (omega arith) (omega arith),
        bind-returns,
        slice-eq frame 6 12 (omega arith) (omega arith),
        bind-returns,
        read_be16-eq frame 12 (omega arith),
        bind-returns,
        ether_type,
        bind-returns,
        bind-returns,
        more,
        slice_from-eq frame 14 (omega arith),
        bind-returns,
        tail,
      )
      refl
