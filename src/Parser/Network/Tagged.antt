-- ===== src/Parser/Network/Tagged.antt =====
-- An Ethernet II frame with an 802.1Q tag and an IPv4 packet, through `parse_packet` of
-- src/parser.rs.
use nids.Prelude.{
  [], ◌+◌, ◌*◌, ◌/◌, ◌%◌, ◌++◌, ap, get_or, get_or-append, drop-append_add, length-append, leb, ◌∷◌,
  ℕ, ◌<◌, ◌≡◌, refl, none, List, take, drop, length, ltb, ◌==◌, false, true, arith, Option, some,
}
use nids.Prelude.Outcome.{returns, bind-returns, slice-eq, slice_from-eq}
use nids.Prelude.Bytes.{read_be16-eq, be16_of, bit}
use nids.Prelude.Loop.{when◌then◌else◌}
use nids.Parser.Link.{PacketMeta, ethernet_link}
use nids.Parser.Layers.{ParsedPacket}
use nids.Parser.Text.{copy_mac}
use nids.Parser.Entry.{empty_packet, parse_link, parse_packet}
use nids.Parser.Network.{
  parse_ipv4, read_tag, parse_ethernet_payload, outer_tag, inner_tag, parse_ethernet_frame,
}

pub get_or-append_first : (xs ys : List ℕ) → 0 < length xs → get_or (xs ++ ys) 0 0 ≡ get_or xs 0 0
get_or-append_first [] ys h = absurd (omega arith)
get_or-append_first (x ∷ xs) ys h = refl

-- An 802.1Q tag: a priority, the drop eligible bit and the id of the VLAN.
pub record Tag : Type 0 where
  pub pcp : ℕ
  pub dei : ℕ
  pub vlan_id : ℕ

pub record IsTag (t : Tag) : Type 0 where
  pub pcp : t.pcp < 8
  pub dei : t.dei < 2
  pub vlan_id : t.vlan_id < 4096

abbrev tci : Tag → ℕ
tci t = t.pcp * 8192 + t.dei * 4096 + t.vlan_id

abbrev behind_macs : Tag → List ℕ → List ℕ
behind_macs t packet = 0x81 ∷ 0x00 ∷ tci t / 256 ∷ tci t % 256 ∷ 0x08 ∷ 0x00 ∷ packet

-- An Ethernet II header with a tag, for IPv4.
abbrev pub tagged_ethernet : List ℕ → Tag → List ℕ → List ℕ
tagged_ethernet macs t packet = macs ++ behind_macs t packet

abbrev pub tagged : List ℕ → Tag → List ℕ → Option PacketMeta → ParsedPacket
tagged macs t packet meta =
    let frame = tagged_ethernet macs t packet in
    record (empty_packet ethernet_link meta) {
      dst_mac = copy_mac (take 6 frame);
      src_mac = copy_mac (take 6 (drop 6 frame));
      ethernet = some (record {
        ether_type = 0x0800;
        vlan_id = some t.vlan_id;
        pcp = some t.pcp;
        dei = some (t.dei == 1);
        outer_vlan_id = none;
        outer_pcp = none;
        frame_length = length frame;
        fcs = none;
      });
      raw_payload = packet;
    }

module _ (macs packet : List ℕ) (t : Tag) (m : length macs ≡ 12) (is_tag : IsTag t)
    (some_packet : 0 < length packet) where
  abbrev frame : List ℕ
  frame = tagged_ethernet macs t packet

  pub tagged_byte : (k : ℕ) → get_or frame (12 + k) 0 ≡ get_or (behind_macs t packet) k 0
  tagged_byte k =
      let e : 12 + k ≡ length macs + k = omega arith in
      rw e (get_or-append macs (behind_macs t packet) k 0)

  tagged_tail : drop 18 frame ≡ packet
  tagged_tail =
      let e : 18 ≡ length macs + 6 = omega arith in
      rw e (drop-append_add macs (behind_macs t packet) 6)

  pub tagged_length : 18 < length frame
  tagged_length = omega (arith, length-append macs (behind_macs t packet))

  ether_type_is : be16_of frame 12 ≡ 0x8100
  ether_type_is = omega (arith, tagged_byte 0, tagged_byte 1)

  tci_is : be16_of frame 14 ≡ tci t
  tci_is = omega (arith, tagged_byte 2, tagged_byte 3, is_tag.pcp, is_tag.dei, is_tag.vlan_id)

  behind_tag : be16_of frame 16 ≡ 0x0800
  behind_tag = omega (arith, tagged_byte 4, tagged_byte 5)

  read_tag-tagged : read_tag frame 14 ≡ returns (tci t, 0x0800)
  unfolding read_tag
  read_tag-tagged =
      rw
        (
          read_be16-eq frame 14 (omega (arith, tagged_length)),
          bind-returns,
          read_be16-eq frame 16 (omega (arith, tagged_length)),
          bind-returns,
          tci_is,
          behind_tag,
        )
        refl

  vlan_is : tci t % 4096 ≡ t.vlan_id
  vlan_is = omega (arith, is_tag.vlan_id)

  pcp_is : tci t / 8192 ≡ t.pcp
  pcp_is = omega (arith, is_tag.dei, is_tag.vlan_id)

  dei_is : bit (tci t) 12 ≡ (t.dei == 1)
  dei_is =
      let e : tci t / 4096 % 2 ≡ t.dei = omega (arith, is_tag.dei, is_tag.vlan_id) in
      ap (λ d. d == 1) e

  -- The fields of the tag are recorded, and the packet behind it goes to the IPv4 parser.
  pub parse_packet-tagged :
      (meta : Option PacketMeta)
      → parse_packet frame ethernet_link meta ≡ parse_ipv4 packet (tagged macs t packet meta)
  unfolding parse_packet parse_link parse_ethernet_frame outer_tag inner_tag parse_ethernet_payload
      when◌then◌else◌
  parse_packet-tagged meta =
      let some_bytes : (length frame == 0) ≡ false = ground (arith, tagged_length) in
      let short : ltb (length frame) 14 ≡ false = ground (arith, tagged_length) in
      let room : leb 18 (length frame) ≡ true = ground (arith, tagged_length) in
      let more : ltb 18 (length frame) ≡ true = ground (arith, tagged_length) in
      rw
        (
          some_bytes,
          short,
          slice-eq frame 0 6 (omega arith) (omega (arith, tagged_length)),
          bind-returns,
          slice-eq frame 6 12 (omega arith) (omega (arith, tagged_length)),
          bind-returns,
          read_be16-eq frame 12 (omega (arith, tagged_length)),
          bind-returns,
          ether_type_is,
          bind-returns,
          room,
          read_tag-tagged,
          bind-returns,
          bind-returns,
          more,
          slice_from-eq frame 18 (omega (arith, tagged_length)),
          bind-returns,
          tagged_tail,
          vlan_is,
          pcp_is,
          dei_is,
        )
        refl
