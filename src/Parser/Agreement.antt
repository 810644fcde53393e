-- ===== src/Parser/Agreement.antt =====
-- src/parser.rs and src/flow_parser.rs on the same frame: UDP in IPv4 in Ethernet II, as encoded,
-- without a VLAN tag and with one.
use nids.Prelude.{
  ◌<◌, ◌/◌, ◌≢◌, get_or, ℕ, ◌+◌, ◌*◌, ◌%◌, ◌≡◌, inr, ap, ◌∙◌, Option, ◌∷◌, List, [], ◌++◌, length,
  drop, arith, drop-append, length-append,
}
use nids.Prelude.Outcome.{returns}
use nids.FlowKey as Flow
use nids.FlowKey.{ok, err, not_ipv4, parse_flow_key}
use nids.FlowKey.Safety.{parse_flow_key-eq}
use nids.FlowKey.Frames.{CarriesPorts, key_of, parse_ipv4-ok, ethernet, ethernet_parts}
use nids.Parser.Layers.{ParsedPacket, Ipv4Info, ipv4_layer, UdpInfo, udp_layer}
use nids.Parser.Link.{PacketMeta, ethernet_link}
use nids.Parser.Entry.{parse_packet}
use nids.Parser.Network.Tagged.{
  Tag, IsTag, tagged_ethernet, tagged, parse_packet-tagged, tagged_byte, tagged_length,
  get_or-append_first,
}
use nids.Parser.Network.Ethernet.{untagged, parse_packet-ethernet}
use nids.Parser.App.{parse_app_layer}
use nids.Parser.Transport.{parse_transport}
use nids.Parser.Transport.Datagram.{IsDatagram, encode_datagram, parse_udp-encode_datagram}
use nids.Parser.Network.{parse_ipv4}
use nids.Parser.Network.Datagram.{IsIpv4, encode_ipv4, encode_ipv4_header, parse_ipv4-encode_ipv4}
use nids.Prelude.Loop.{when◌then◌else◌}

module _ (info : Ipv4Info) (udp : UdpInfo) (padding : List ℕ) (h : IsIpv4 info) (k : IsDatagram udp)
    (is_udp : info.protocol ≡ 17) (carries : info.payload ≡ encode_datagram udp []) where
  transport :
      (pkt : ParsedPacket)
      → parse_transport info.protocol info.payload pkt
        ≡ parse_app_layer udp.src_port udp.dst_port udp.payload
            (record pkt { transport = udp_layer udp })
  unfolding parse_transport when◌then◌else◌
  transport pkt = rw (is_udp, carries) (parse_udp-encode_datagram udp [] pkt k)

  ihl_is : (info.version * 16 + info.ihl) % 16 * 4 ≡ length (encode_ipv4_header info)
  ihl_is = omega (arith, h.ihl_most, h.options)

  carries_ports : CarriesPorts (encode_ipv4 info padding)
  carries_ports = record {
    version = omega (arith, h.version, h.ihl_most);
    header = omega (arith, h.ihl_most, h.ihl_least);
    ports = omega (
      arith,
      h.ihl_most,
      h.options,
      ap length carries,
      length-append info.options (info.payload ++ padding),
      length-append info.payload padding,
    );
    protocol = inr is_udp;
  }

  behind_header :
      drop ((info.version * 16 + info.ihl) % 16 * 4) (encode_ipv4 info padding)
      ≡ encode_datagram udp [] ++ padding
  behind_header =
      rw ihl_is (drop-append (encode_ipv4_header info) (info.payload ++ padding))
      ∙ ap (λ p. p ++ padding) carries

  key_is :
      key_of (encode_ipv4 info padding) ((info.version * 16 + info.ihl) % 16 * 4)
      ≡ (info.src_ip, udp.src_port, info.dst_ip, udp.dst_port)
  key_is = rw behind_header (ground (arith, h.src_ip, h.dst_ip, k.src_port, k.dst_port))

  packet_is :
      (pkt : ParsedPacket)
      → parse_ipv4 (encode_ipv4 info padding) pkt
        ≡ parse_app_layer udp.src_port udp.dst_port udp.payload
            (record pkt { network = ipv4_layer info; transport = udp_layer udp })
  packet_is pkt =
      parse_ipv4-encode_ipv4 info padding h pkt
      ∙ transport (record pkt { network = ipv4_layer info })

  flow_key_is :
      Flow.parse_ipv4 (encode_ipv4 info padding)
      ≡ returns (ok (info.src_ip, udp.src_port, info.dst_ip, udp.dst_port))
  flow_key_is =
      parse_ipv4-ok (encode_ipv4 info padding) carries_ports ∙ ap (λ k. returns (ok k)) key_is

  -- On an Ethernet II frame without VLAN tags, with a UDP datagram in an IPv4 packet, the packet
  -- parser and the flow key parser find the same addresses and ports: `parse_packet` records the
  -- headers that were encoded and goes on to the payload, `parse_flow_key` returns their key.
  pub parse_packet_agrees :
      (macs : List ℕ) (meta : Option PacketMeta)
      → length macs ≡ 12
      → let frame = ethernet macs (encode_ipv4 info padding) in
        (parse_packet frame ethernet_link meta
          ≡ parse_app_layer udp.src_port udp.dst_port udp.payload
              (record (untagged macs (encode_ipv4 info padding) meta) {
                network = ipv4_layer info;
                transport = udp_layer udp;
              }))
        × (parse_flow_key frame
            ≡ returns (ok (info.src_ip, udp.src_port, info.dst_ip, udp.dst_port)))
  parse_packet_agrees macs meta m =
      let packet = encode_ipv4 info padding in
      let (hi, lo, tail, long) = ethernet_parts macs packet m in
      (
        parse_packet-ethernet macs packet meta m
              (omega (arith, m, length-append macs (0x08 ∷ 0x00 ∷ packet)))
            ∙ packet_is (untagged macs packet meta),
        rw (parse_flow_key-eq (ethernet macs packet), hi, lo, tail) (ground (arith, flow_key_is)),
      )

  -- On an Ethernet II frame with an 802.1Q tag, with a UDP datagram in an IPv4 packet, they differ
  -- where the first byte of the frame does not begin with 4: `parse_packet` records the fields of the
  -- tag and the headers that were encoded and goes on to the payload, `parse_flow_key` refuses the
  -- frame as no IPv4.
  pub parse_packet_differs :
      (macs : List ℕ) (tag : Tag) (meta : Option PacketMeta)
      → length macs ≡ 12
      → IsTag tag
      → get_or macs 0 0 / 16 ≢ 4
      → let frame = tagged_ethernet macs tag (encode_ipv4 info padding) in
        (parse_packet frame ethernet_link meta
          ≡ parse_app_layer udp.src_port udp.dst_port udp.payload
              (record (tagged macs tag (encode_ipv4 info padding) meta) {
                network = ipv4_layer info;
                transport = udp_layer udp;
              }))
        × (parse_flow_key frame ≡ returns (err not_ipv4))
  parse_packet_differs macs tag meta m is_tag no4 =
      let packet = encode_ipv4 info padding in
      let frame = tagged_ethernet macs tag packet in
      let some_packet : 0 < length packet = omega arith in
      let first : get_or frame 0 0 ≡ get_or macs 0 0 = get_or-append_first macs _ (omega arith) in
      (
        parse_packet-tagged macs packet tag m is_tag some_packet meta
            ∙ packet_is (tagged macs tag packet meta),
        parse_flow_key-eq frame
            ∙ ground (
              arith,
              first,
              tagged_byte macs packet tag m is_tag some_packet 0,
              tagged_length macs packet tag m is_tag some_packet,
            ),
      )
