-- ===== src/Parser/Tests.antt =====
-- A DNS query in UDP, IPv4 and Ethernet, a name with a cyclic pointer, TCP options, and the
-- theorems on them.
use nids.Prelude.{◌++◌, ℕ, ◌≡◌, refl, Bool, false, Option, none, some, List, [], ◌∷◌, length, arith}
use nids.Prelude.Outcome.{Outcome, returns, panics, Runs, ◌>>=◌, byte, slice, slice_from}
use nids.Prelude.Bytes.{read_be16, read_be32}
use nids.Prelude.Loop.{Gives, iterate, read_when, when◌then◌else◌}
use nids.Parser.Link.{ethernet_link, unknown_link}
use nids.Parser.Layers.{
  dns_layer, dhcp_layer, eapol_layer, no_app, UdpInfo, Ipv4Info, udp_layer, ipv4_layer,
  ParsedPacket, AppLayer,
}
use nids.Parser.Text.{width, may_follow, first_piece, decode, from_utf8_lossy, copy_mac}
use nids.Parser.Dns.{
  push_label, follow_pointer, take_label, name_round, parse_dns_name, take_question, question_round,
  take_answer, answer_round, parse_dns,
}
use nids.Parser.Dns.Safety.{EndsWithin, parse_dns_name-Gives}
use nids.Parser.App.{parse_app_layer}
use nids.Parser.Transport.{
  sack_round, sack_option, tcp_option, tcp_option_round, parse_tcp_options, parse_tcp, parse_udp,
  parse_icmp, parse_transport, default_options,
}
use nids.Parser.Network.{
  ipv4_body, parse_ipv4, parse_ethernet_payload, read_tag, outer_tag, inner_tag,
  parse_ethernet_frame,
}
use nids.Parser.Transport.Options.{
  nop, mss, window_scale, TcpOption, encode_options, parse_tcp_options-encode_options,
}
use nids.Parser.Transport.Datagram.{IsDatagram, encode_datagram, parse_udp-encode_datagram}
use nids.Parser.Network.Datagram.{IsIpv4, encode_ipv4, parse_ipv4-encode_ipv4}
use nids.FlowKey.{ok, err, not_ipv4, parse_flow_key}
use nids.FlowKey.Frames.{ethernet}
use nids.Parser.Network.Ethernet.{untagged}
use nids.Parser.Network.Tagged.{Tag, tagged_ethernet, tagged}
use nids.Parser.Agreement.{parse_packet_agrees, parse_packet_differs}
use nids.Parser.Entry.{empty_packet, detect, parse_link, parse_packet}
use nids.Parser.Entry.Safety.{parse_packet-Runs}

-- The question a.b, of type A.
abbrev dns_query : List ℕ
dns_query =
    0x12 ∷ 0x34 ∷ 0x01 ∷ 0x00 ∷ 0 ∷ 1 ∷ 0 ∷ 0 ∷ 0 ∷ 0 ∷ 0 ∷ 0 ∷ 1 ∷ 0x61 ∷ 1 ∷ 0x62 ∷ 0 ∷ 0 ∷ 1 ∷ 0
    ∷ 1 ∷ []

abbrev udp_datagram : List ℕ
udp_datagram = 0x30 ∷ 0x39 ∷ 0 ∷ 53 ∷ 0 ∷ 29 ∷ 0 ∷ 0 ∷ dns_query

abbrev frame : List ℕ
frame =
    1 ∷ 2 ∷ 3 ∷ 4 ∷ 5 ∷ 6 ∷ 7 ∷ 8 ∷ 9 ∷ 10 ∷ 11 ∷ 12 ∷ 0x08 ∷ 0x00 ∷ 0x45 ∷ 0 ∷ 0 ∷ 49 ∷ 0 ∷ 0 ∷ 0
    ∷ 0 ∷ 64 ∷ 17 ∷ 0 ∷ 0 ∷ 10 ∷ 0 ∷ 0 ∷ 1 ∷ 10 ∷ 0 ∷ 0 ∷ 2 ∷ udp_datagram

-- The label a, and a pointer back to it.
abbrev cyclic : List ℕ
cyclic = 1 ∷ 0x61 ∷ 0xC0 ∷ 0 ∷ []

abbrev query_of : AppLayer → Option (List ℕ)
query_of (dns_layer dns) = dns.query
query_of (dhcp_layer dhcp) = none
query_of (eapol_layer eapol) = none
query_of no_app = none

abbrev outcome_of : Outcome ParsedPacket → Option (Bool × Option (List ℕ))
outcome_of (returns pkt) = some (pkt.malformed, query_of pkt.app)
outcome_of panics = none

abbrev name_end : Outcome (Option (List ℕ × ℕ)) → Option (ℕ × ℕ)
name_end (returns none) = none
name_end (returns (some (name, end_offset))) = some (length name, end_offset)
name_end panics = none

program : Unit {0}
unfolding ◌>>=◌ byte slice slice_from read_be16 read_be32 iterate read_when when◌then◌else◌ width
    may_follow first_piece decode from_utf8_lossy copy_mac push_label follow_pointer take_label
    name_round parse_dns_name take_question question_round take_answer answer_round parse_dns
    parse_app_layer sack_round sack_option tcp_option tcp_option_round parse_tcp_options parse_tcp
    parse_udp parse_icmp parse_transport ipv4_body parse_ipv4 parse_ethernet_payload read_tag
    outer_tag inner_tag parse_ethernet_frame empty_packet detect parse_link parse_packet
program = tt
  where
    query_runs :
        outcome_of (parse_packet frame unknown_link none)
        ≡ some (false, some (0x61 ∷ 0x2E ∷ 0x62 ∷ []))
    query_runs = refl

    -- The cycle ends by the count of 128 rounds, and the name is 64 times the label.
    cyclic_runs : name_end (parse_dns_name cyclic 0) ≡ some (127, 4)
    cyclic_runs = refl

    -- MSS 1460, NOP, window scale 7.
    options_run :
        parse_tcp_options (2 ∷ 4 ∷ 5 ∷ 180 ∷ 1 ∷ 3 ∷ 3 ∷ 7 ∷ [])
        ≡ returns (record default_options { mss = some 1460; window_scale = some 7 })
    options_run = refl

    -- Ill-formed bytes are replaced, each piece by U+FFFD.
    lossy_runs :
        from_utf8_lossy (0x61 ∷ 0xFF ∷ 0xE2 ∷ 0x82 ∷ 0x62 ∷ [])
        ≡ 0x61 ∷ 0xEF ∷ 0xBF ∷ 0xBD ∷ 0xEF ∷ 0xBF ∷ 0xBD ∷ 0x62 ∷ []
    lossy_runs = refl

parse_packet-Runs_example : Runs (parse_packet frame ethernet_link none)
parse_packet-Runs_example = parse_packet-Runs frame ethernet_link none

parse_dns_name-Gives_example : Gives (EndsWithin cyclic 0) (parse_dns_name cyclic 0)
parse_dns_name-Gives_example = parse_dns_name-Gives cyclic 0 (omega arith)

abbrev two_options : List TcpOption
two_options = mss 1460 ∷ nop ∷ window_scale 7 ∷ []

parse_tcp_options-encode_options_example :
    parse_tcp_options (encode_options two_options ++ (0 ∷ 5 ∷ []))
    ≡ returns (record default_options { mss = some 1460; window_scale = some 7 })
parse_tcp_options-encode_options_example =
    parse_tcp_options-encode_options two_options (0 ∷ 5 ∷ []) (omega arith, (tt, (omega arith, tt)))
      refl

abbrev datagram : UdpInfo
datagram = record { src_port = 12345; dst_port = 53; len = 29; checksum = 0; payload = dns_query }

datagram-IsDatagram : IsDatagram datagram
datagram-IsDatagram = omega arith

parse_udp-encode_datagram_example :
    parse_udp (encode_datagram datagram (0 ∷ 0 ∷ [])) (empty_packet ethernet_link none)
    ≡ parse_app_layer 12345 53 dns_query
        (record (empty_packet ethernet_link none) { transport = udp_layer datagram })
parse_udp-encode_datagram_example =
    parse_udp-encode_datagram datagram (0 ∷ 0 ∷ []) (empty_packet ethernet_link none)
      datagram-IsDatagram

-- A header with one word of options.
abbrev ipv4_packet : Ipv4Info
ipv4_packet = record {
  version = 4;
  ihl = 6;
  dscp = 10;
  ecn = 1;
  total_length = 53;
  identification = 7;
  flags = 2;
  fragment_offset = 0;
  ttl = 64;
  protocol = 17;
  header_checksum = 0;
  src_ip = 0x0A000001;
  dst_ip = 0x0A000002;
  options = 1 ∷ 1 ∷ 1 ∷ 0 ∷ [];
  payload = udp_datagram;
}

ipv4_packet-IsIpv4 : IsIpv4 ipv4_packet
ipv4_packet-IsIpv4 = omega arith

parse_ipv4-encode_ipv4_example :
    parse_ipv4 (encode_ipv4 ipv4_packet (0 ∷ 0 ∷ [])) (empty_packet ethernet_link none)
    ≡ parse_transport 17 udp_datagram
        (record (empty_packet ethernet_link none) { network = ipv4_layer ipv4_packet })
parse_ipv4-encode_ipv4_example =
    parse_ipv4-encode_ipv4 ipv4_packet (0 ∷ 0 ∷ []) ipv4_packet-IsIpv4
      (empty_packet ethernet_link none)

abbrev macs : List ℕ
macs = 2 ∷ 0 ∷ 0 ∷ 0 ∷ 0 ∷ 1 ∷ 2 ∷ 0 ∷ 0 ∷ 0 ∷ 0 ∷ 2 ∷ []

parse_packet_agrees_example :
    let frame = ethernet macs (encode_ipv4 ipv4_packet (0 ∷ [])) in
    (parse_packet frame ethernet_link none
      ≡ parse_app_layer 12345 53 dns_query
          (record (untagged macs (encode_ipv4 ipv4_packet (0 ∷ [])) none) {
            network = ipv4_layer ipv4_packet;
            transport = udp_layer datagram;
          }))
    × (parse_flow_key frame ≡ returns (ok (0x0A000001, 12345, 0x0A000002, 53)))
parse_packet_agrees_example =
    parse_packet_agrees ipv4_packet datagram (0 ∷ []) ipv4_packet-IsIpv4 datagram-IsDatagram refl
      refl macs none refl

abbrev tag : Tag
tag = record { pcp = 5; dei = 1; vlan_id = 100 }

parse_packet_differs_example :
    let frame = tagged_ethernet macs tag (encode_ipv4 ipv4_packet (0 ∷ [])) in
    (parse_packet frame ethernet_link none
      ≡ parse_app_layer 12345 53 dns_query
          (record (tagged macs tag (encode_ipv4 ipv4_packet (0 ∷ [])) none) {
            network = ipv4_layer ipv4_packet;
            transport = udp_layer datagram;
          }))
    × (parse_flow_key frame ≡ returns (err not_ipv4))
parse_packet_differs_example =
    parse_packet_differs ipv4_packet datagram (0 ∷ []) ipv4_packet-IsIpv4 datagram-IsDatagram refl
      refl macs tag none refl (omega arith) (omega arith)
