-- ===== src/Parser/Network.antt =====
-- The network layer of src/parser.rs, IPv4, IPv6 and ARP, and the Ethernet frame around it.
pub mod Safety
pub mod Datagram
pub mod Ethernet
pub mod Tagged
use nids.Prelude.{
  ℕ, ◌+◌, ◌*◌, ◌/◌, ◌%◌, min, Bool, true, false, not, ◌&&◌, ◌||◌, Option, none, some, List, [], ◌∷◌,
  ◌++◌, length, leb, ltb, ◌==◌, if◌then◌else◌,
}
use nids.Prelude.Outcome.{Outcome, returns, ◌>>=◌, byte, slice, slice_from}
use nids.Prelude.Bytes.{bit, be32, read_be16, read_be32}
use nids.Prelude.Loop.{when◌then◌else◌, Step, goes_on, leaves, iterate}
use nids.Parser.Link.{EthernetInfo}
use nids.Parser.Layers.{
  ArpInfo, Ipv4Info, Ipv6ExtHeader, Ipv6Info, arp_layer, ipv4_layer, ipv6_layer, ParsedPacket,
  malform,
}
use nids.Parser.Text.{copy_mac}
use nids.Parser.App.{parse_eapol}
use nids.Parser.Transport.{parse_transport}

-- The part of `parse_ipv4` behind its test of the version and the header's length.
unfoldable pub ipv4_body : ℕ → ℕ → List ℕ → ParsedPacket → Outcome ParsedPacket
ipv4_body version ihl xs pkt = do
  tos ← byte xs 1
  total_length ← read_be16 xs 2
  identification ← read_be16 xs 4
  flags_frag ← read_be16 xs 6
  ttl ← byte xs 8
  protocol ← byte xs 9
  header_checksum ← read_be16 xs 10
  src_ip ← read_be32 xs 12
  dst_ip ← read_be32 xs 16
  let header_len = ihl * 4
  options ← when ltb 20 header_len then slice xs 20 header_len else returns []
  let packet_len = min (length xs) total_length
  when ltb packet_len header_len then returns (malform pkt) else do
    payload ← slice xs header_len packet_len
    parse_transport protocol payload (record pkt {
      network = ipv4_layer (record {
        version = version;
        ihl = ihl;
        dscp = tos / 4;
        ecn = tos % 4;
        total_length = total_length;
        identification = identification;
        flags = flags_frag / 8192;
        fragment_offset = flags_frag % 8192;
        ttl = ttl;
        protocol = protocol;
        header_checksum = header_checksum;
        src_ip = src_ip;
        dst_ip = dst_ip;
        options = options;
        payload = payload;
      });
    })

unfoldable pub parse_ipv4 : List ℕ → ParsedPacket → Outcome ParsedPacket
parse_ipv4 xs pkt = when ltb (length xs) 20 then returns (malform pkt) else do
  ver_ihl ← byte xs 0
  let version = ver_ihl / 16
  let ihl = ver_ihl % 16
  when not (version == 4) || (ltb ihl 5 || ltb (length xs) (ihl * 4))
      then returns (malform pkt)
      else ipv4_body version ihl xs pkt

pub record ExtensionState : Type 0 where
  pub extension_headers : List Ipv6ExtHeader
  pub next_hdr : ℕ
  pub off : ℕ

unfoldable pub is_extension : ℕ → Bool
is_extension next_hdr =
    (next_hdr == 0)
    || ((next_hdr == 43) || ((next_hdr == 44) || ((next_hdr == 60) || (next_hdr == 135))))

unfoldable pub extension_round :
    List ℕ → ℕ → ExtensionState → Outcome (Step ExtensionState ExtensionState)
extension_round xs end_offset s =
    when not (is_extension s.next_hdr)
    then returns (leaves s)
    else when ltb end_offset (s.off + 2)
    then returns (leaves s)
    else do
      ext_next ← byte xs s.off
      ext_len_byte ← byte xs (s.off + 1)
      let ext_len = (ext_len_byte + 1) * 8
      when ltb end_offset (s.off + ext_len) then returns (leaves s) else do
        bytes ← slice xs s.off (s.off + ext_len)
        returns (
            goes_on (record {
              extension_headers =
                  s.extension_headers ++ (record { header_type = s.next_hdr; bytes = bytes } ∷ []);
              next_hdr = ext_next;
              off = s.off + ext_len;
            }))

unfoldable pub parse_ipv6 : List ℕ → ParsedPacket → Outcome ParsedPacket
parse_ipv6 xs pkt = when ltb (length xs) 40 then returns (malform pkt) else do
  b0 ← byte xs 0
  let version = b0 / 16
  when not (version == 6) then returns (malform pkt) else do
    b1 ← byte xs 1
    b2 ← byte xs 2
    b3 ← byte xs 3
    payload_length ← read_be16 xs 4
    next_header_initial ← byte xs 6
    hop_limit ← byte xs 7
    src_ip ← slice xs 8 24
    dst_ip ← slice xs 24 40
    let end_offset = min (length xs) (40 + payload_length)
    when ltb end_offset 40 then returns (malform pkt) else do
      s ←
          iterate (length xs) (extension_round xs end_offset)
            (record { extension_headers = []; next_hdr = next_header_initial; off = 40 })
      payload ← slice xs s.off end_offset
      parse_transport s.next_hdr payload (record pkt {
        network = ipv6_layer (record {
          version = version;
          traffic_class = b0 % 16 * 16 + b1 / 16;
          flow_label = be32 0 (b1 % 16) b2 b3;
          payload_length = payload_length;
          next_header = next_header_initial;
          hop_limit = hop_limit;
          src_ip = src_ip;
          dst_ip = dst_ip;
          extension_headers = s.extension_headers;
          final_next_header = s.next_hdr;
          payload = payload;
        });
      })

unfoldable pub parse_arp : List ℕ → ParsedPacket → Outcome ParsedPacket
parse_arp xs pkt = when ltb (length xs) 28 then returns (malform pkt) else do
  hw_type ← read_be16 xs 0
  proto_type ← read_be16 xs 2
  hw_addr_len ← byte xs 4
  proto_addr_len ← byte xs 5
  opcode ← read_be16 xs 6
  when ((hw_type == 1) && (proto_type == 0x0800)) && ((hw_addr_len == 6) && (proto_addr_len == 4))
      then (do
        sender_mac ← slice xs 8 14
        sender_ip ← read_be32 xs 14
        target_mac ← slice xs 18 24
        target_ip ← read_be32 xs 24
        returns (record pkt {
          network = arp_layer (record {
            hw_type = hw_type;
            proto_type = proto_type;
            hw_addr_len = hw_addr_len;
            proto_addr_len = proto_addr_len;
            opcode = opcode;
            sender_mac = copy_mac sender_mac;
            sender_ip = sender_ip;
            target_mac = copy_mac target_mac;
            target_ip = target_ip;
          });
        }))
      else returns pkt

unfoldable pub parse_ethernet_payload : ℕ → List ℕ → ParsedPacket → Outcome ParsedPacket
parse_ethernet_payload eth_type payload pkt =
    when eth_type == 0x0800
    then parse_ipv4 payload pkt
    else when eth_type == 0x86DD
    then parse_ipv6 payload pkt
    else when eth_type == 0x0806
    then parse_arp payload pkt
    else when eth_type == 0x888E
    then parse_eapol payload pkt
    else returns pkt

-- The tag and the type behind it, at `offset`.
unfoldable pub read_tag : List ℕ → ℕ → Outcome (ℕ × ℕ)
read_tag xs offset = do
  tci ← read_be16 xs offset
  eth_type ← read_be16 xs (offset + 2)
  returns (tci, eth_type)

-- The ethertype and the offset behind the tags, with the VLAN fields in the record.
unfoldable pub outer_tag : List ℕ → EthernetInfo × ℕ → Outcome (EthernetInfo × ℕ)
outer_tag xs (info, offset) =
    when ((info.ether_type == 0x88A8) || (info.ether_type == 0x9100))
      && leb (offset + 4) (length xs)
    then (do
      tag ← read_tag xs offset
      returns (
        record info {
          outer_pcp = some (tag.0 / 8192);
          outer_vlan_id = some (tag.0 % 4096);
          ether_type = tag.1;
        },
        offset + 4,
      ))
    else returns (info, offset)

unfoldable pub inner_tag : List ℕ → EthernetInfo × ℕ → Outcome (EthernetInfo × ℕ)
inner_tag xs (info, offset) =
    when (info.ether_type == 0x8100) && leb (offset + 4) (length xs)
    then (do
      tag ← read_tag xs offset
      returns (
        record info {
          pcp = some (tag.0 / 8192);
          dei = some (bit tag.0 12);
          vlan_id = some (tag.0 % 4096);
          ether_type = tag.1;
        },
        offset + 4,
      ))
    else returns (info, offset)

unfoldable pub parse_ethernet_frame : List ℕ → ParsedPacket → Outcome ParsedPacket
parse_ethernet_frame xs pkt = when ltb (length xs) 14 then returns (malform pkt) else do
  dst_mac ← slice xs 0 6
  src_mac ← slice xs 6 12
  eth_type ← read_be16 xs 12
  outer ← outer_tag xs (
    record {
      ether_type = eth_type;
      vlan_id = none;
      pcp = none;
      dei = none;
      outer_vlan_id = none;
      outer_pcp = none;
      frame_length = length xs;
      fcs = none;
    },
    14,
  )
  inner ← inner_tag xs outer
  let pkt' = record pkt {
    dst_mac = copy_mac dst_mac;
    src_mac = copy_mac src_mac;
    ethernet = some inner.0;
  }
  when ltb inner.1 (length xs)
      then (do
        payload ← slice_from xs inner.1
        parse_ethernet_payload inner.0.ether_type payload (record pkt' { raw_payload = payload }))
      else returns (malform pkt')
