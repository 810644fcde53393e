-- ===== src/Engine/Tests.antt =====
-- Addresses as text, an engine with one rule over a handshake, and the theorems on them. The `f64` of
-- the witnesses is a natural number of seconds.
use nids.Prelude.{
  ℕ, ◌+◌, ◌-◌, ◌≡◌, refl, Bool, true, false, none, some, List, [], ◌∷◌, length, any, ltb, arith,
  map,
}
use nids.Prelude.Assoc.{lookup, insert, remove, contains_key}
use nids.Parser.Link.{String, ethernet_link}
use nids.Parser.Layers.{
  ParsedPacket, Ipv4Info, TcpInfo, ipv4_layer, tcp_layer, no_network, no_transport, no_app,
}
use nids.Parser.Transport.{default_options}
use nids.Engine.Text.{text, decimal, decimal_digits, hex_digits, span_digits, to_digit, number_of}
use nids.Engine.Address.{
  v4, v6, resolve_src_ip, resolve_dst_ip, src_ip_of, dst_ip_of, ip_field_matches, is_self,
  show_ipv4, show_ipv6, segments, show_segments, longest_zeroes, parse_ip, read_ip_addr,
  read_ipv4_addr, read_octets, read_octet, read_separator, read_number, read_ipv6_addr, read_groups,
  read_tail,
}
use nids.Engine.Float.{F64, IsIeee}
use nids.Engine.Config.{RuleConfig, EvaluatedRule, string_value}
use nids.Engine.State.{
  evaluated, load_rules, severity_of, StatefulDetectionEngine, ConnKey, ConnTable, new_engine,
  established_conn, closing_conn,
}
use nids.Engine.Rules.{
  conn_key_eq, is_established, matches_rule, scope_matches, direction_matches, addresses_match,
  flow_matches, class_matches, proto_matches, is_proto_port, ports_match, port_matches,
  resolve_tracking_key, max_conn_rate,
}
use nids.Alert.{IdsmMessage}
use nids.Engine.Process.Run.{process_all, seq_nos, numbers, process_all-seq_no}
use nids.Engine.Process.Handshake.{accepts, process_all_established}
use nids.Engine.Connections.States.{entry_after, lookup-segment, flow_matches_established}
use nids.Engine.Rules.Matching.{direction_matches_ipv4}
use nids.Engine.Rates.Refines.{stamps}
use nids.Engine.Rates.Bounds.{AreYoung, count_packet-AreYoung}
use nids.Engine.Process.{
  process_packet, observe, see, detect, track_beacon, beacon_entry, track_client, evaluate_rules,
  evaluate_rule, create_messages, create_message,
}
use nids.Engine.Expire.{
  expire_states, sweep, expire_client, expire_tracker, expire_keys, expire_conns,
}
use nids.Engine.Connections.{reverse_key, track_connection, segment, update}
use nids.Engine.Rates.{
  count_packet, is_new_tcp_conn, push, stamps_at, triggered, reached, retain, forget,
}
use nids.Engine.Process.Reference.Runs.{no_history, reference_all, process_all-reference_all}

show_ipv4_private : show_ipv4 0xC0A80001 ≡ text "192.168.0.1"
unfolding show_ipv4 decimal decimal_digits
show_ipv4_private = refl

abbrev link_local : List ℕ
link_local = 0xfe ∷ 0x80 ∷ 0 ∷ 0 ∷ 0 ∷ 0 ∷ 0 ∷ 0 ∷ 0x0a ∷ 0xbc ∷ 0 ∷ 0 ∷ 0 ∷ 1 ∷ 0xff ∷ 0x02 ∷ []

show_ipv6_compressed : show_ipv6 link_local ≡ text "fe80::abc:0:1:ff02"
unfolding show_ipv4 decimal decimal_digits show_ipv6 segments show_segments longest_zeroes
    hex_digits
show_ipv6_compressed = refl

parse_ip_compressed : parse_ip (text "fe80::abc:0:1:ff02") ≡ some (v6 link_local)
unfolding parse_ip read_ip_addr read_ipv4_addr read_octets read_octet read_separator read_number
    span_digits to_digit number_of read_ipv6_addr read_groups read_tail
parse_ip_compressed = refl

parse_ip_v4 : parse_ip (text "10.0.255.7") ≡ some (v4 0x0A00FF07)
unfolding parse_ip read_ip_addr read_ipv4_addr read_octets read_octet read_separator read_number
    span_digits to_digit number_of read_ipv6_addr read_groups read_tail
parse_ip_v4 = refl

parse_ip_mac : parse_ip (text "00:11:22:aa:bb:cc") ≡ none
unfolding parse_ip read_ip_addr read_ipv4_addr read_octets read_octet read_separator read_number
    span_digits to_digit number_of read_ipv6_addr read_groups read_tail
parse_ip_mac = refl

parse_ip_mapped :
    parse_ip (text "::ffff:1.2.3.4")
    ≡ some (v6 (0 ∷ 0 ∷ 0 ∷ 0 ∷ 0 ∷ 0 ∷ 0 ∷ 0 ∷ 0 ∷ 0 ∷ 255 ∷ 255 ∷ 1 ∷ 2 ∷ 3 ∷ 4 ∷ []))
unfolding parse_ip read_ip_addr read_ipv4_addr read_octets read_octet read_separator read_number
    span_digits to_digit number_of read_ipv6_addr read_groups read_tail
parse_ip_mapped = refl

instance abbrev seconds : F64 ℕ
seconds = record { sub = ◌-◌; lt = ltb; of_nat = λ n. n; is_finite = λ n. true }

seconds-IsIeee : IsIeee ℕ
seconds-IsIeee = record {
  sub_mono = λ t now later bound window a b c d e. ground arith;
  le_trans = λ a b c h k l. ground arith;
  lt_irrefl = λ a. ground arith;
  literal_finite = λ n h. refl;
  literal_lt = λ m n h k. refl;
}

-- At most one new TCP connection in three seconds for every source.
abbrev syn_rule : RuleConfig ℕ
syn_rule = record {
  id = 7;
  enabled = true;
  action = text "alert";
  message = text "SYN flood";
  class = text "tcp";
  severity = 1;
  scope = record { interfaces = text "any" ∷ [] };
  match_config = record {
    ip = record { src_ip = text "any"; dst_ip = text "any"; ip_version = 4 ∷ 6 ∷ [] };
    transport = record {
      protocol = [];
      src_port = string_value (text "any");
      dst_port = string_value (text "any");
    };
    direction = text "any";
  };
  context = record {
    flow = record { state = text "any" };
    limits = some (
        (text "max_conn_rate", record { per = text "src_ip"; connections = 2; interval = 3 }) ∷ []);
  };
  behaviour = record { per_src = none };
}

abbrev blank : ParsedPacket
blank = record {
  meta = none;
  link_type = ethernet_link;
  src_mac = 2 ∷ 0 ∷ 0 ∷ 0 ∷ 0 ∷ 1 ∷ [];
  dst_mac = 2 ∷ 0 ∷ 0 ∷ 0 ∷ 0 ∷ 2 ∷ [];
  bssid = none;
  signal_dbm = none;
  channel = none;
  malformed = false;
  ethernet = none;
  wifi_header = none;
  network = no_network;
  transport = no_transport;
  app = no_app;
  wifi_mgmt = none;
  raw_payload = [];
}

abbrev segment_of : ℕ → ℕ → ℕ → ℕ → ℕ → ParsedPacket
segment_of src dst src_port dst_port flags = record blank {
  network = ipv4_layer (record {
    version = 4;
    ihl = 5;
    dscp = 0;
    ecn = 0;
    total_length = 40;
    identification = 0;
    flags = 0;
    fragment_offset = 0;
    ttl = 64;
    protocol = 6;
    header_checksum = 0;
    src_ip = src;
    dst_ip = dst;
    options = [];
    payload = [];
  });
  transport = tcp_layer (record {
    src_port = src_port;
    dst_port = dst_port;
    seq = 0;
    ack = 0;
    data_offset = 5;
    reserved = 0;
    flags = flags;
    window_size = 0;
    checksum = 0;
    urgent_pointer = 0;
    options = default_options;
    payload = [];
  });
}

-- A SYN, the SYN-ACK, and a second SYN of the same client.
abbrev handshake : List (ParsedPacket × ℕ)
handshake =
    (segment_of 0x0A000001 0x0A000002 4000 80 2, 100)
    ∷ (segment_of 0x0A000002 0x0A000001 80 4000 18, 101)
    ∷ (segment_of 0x0A000001 0x0A000002 4001 80 2, 102)
    ∷ []

abbrev clock : ℕ → String
clock n = []

abbrev engine : StatefulDetectionEngine ℕ
engine = new_engine (text "wlan0") (some (syn_rule ∷ [])) (v4 0x0A000002 ∷ [])

one_alert :
    map (λ (message : IdsmMessage). message.seq_no) (process_all clock handshake engine).1 ≡ 1 ∷ []
unfolding process_all process_packet observe see detect expire_states sweep expire_client
    expire_tracker expire_keys expire_conns track_beacon beacon_entry track_client track_connection
    segment update evaluate_rules evaluate_rule matches_rule scope_matches direction_matches
    addresses_match flow_matches class_matches proto_matches is_proto_port ports_match port_matches
    resolve_src_ip resolve_dst_ip src_ip_of dst_ip_of show_ipv4 decimal decimal_digits
    ip_field_matches is_self count_packet resolve_tracking_key max_conn_rate is_new_tcp_conn push
    stamps_at triggered reached retain forget create_messages create_message new_engine load_rules
    severity_of lookup insert remove
one_alert = refl

process_all-reference_all_example :
    (process_all clock handshake engine).1
    ≡ reference_all clock handshake engine (no_history, no_history)
unfolding load_rules max_conn_rate lookup
process_all-reference_all_example =
    process_all-reference_all seconds-IsIeee clock handshake (text "wlan0") (some (syn_rule ∷ []))
      (v4 0x0A000002 ∷ []) (refl, refl, (refl, refl, (refl, refl, tt))) ((omega arith, refl), tt)

alert_count : engine.alert_counter + length (process_all clock handshake engine).1 ≡ 1
unfolding process_all process_packet observe see detect expire_states sweep expire_client
    expire_tracker expire_keys expire_conns track_beacon beacon_entry track_client track_connection
    segment update evaluate_rules evaluate_rule matches_rule scope_matches direction_matches
    addresses_match flow_matches class_matches proto_matches is_proto_port ports_match port_matches
    resolve_src_ip resolve_dst_ip src_ip_of dst_ip_of show_ipv4 decimal decimal_digits
    ip_field_matches is_self count_packet resolve_tracking_key max_conn_rate is_new_tcp_conn push
    stamps_at triggered reached retain forget create_messages create_message new_engine load_rules
    severity_of lookup insert remove
alert_count = refl

process_all-seq_no_example :
    let (e, messages) = process_all clock handshake engine in
    (seq_nos messages ≡ numbers (engine.alert_counter + 1) (length messages))
    × (e.alert_counter ≡ engine.alert_counter + length messages)
process_all-seq_no_example = process_all-seq_no clock handshake engine (omega (arith, alert_count))

-- The client's connection to port 80.
abbrev client_key : ConnKey
client_key = (text "10.0.0.1", 4000, text "10.0.0.2", 80)

abbrev is_established_at : StatefulDetectionEngine ℕ → Bool
is_established_at e = is_established (lookup client_key e.tcp_conn_table)

established_after : is_established_at (process_all clock handshake engine).0 ≡ true
unfolding process_all process_packet observe see detect expire_states sweep expire_client
    expire_tracker expire_keys expire_conns track_beacon beacon_entry track_client track_connection
    segment update evaluate_rules evaluate_rule matches_rule scope_matches direction_matches
    addresses_match flow_matches class_matches proto_matches is_proto_port ports_match port_matches
    resolve_src_ip resolve_dst_ip src_ip_of dst_ip_of show_ipv4 decimal decimal_digits
    ip_field_matches is_self count_packet resolve_tracking_key max_conn_rate is_new_tcp_conn push
    stamps_at triggered reached retain forget create_messages create_message new_engine load_rules
    severity_of lookup insert remove
established_after = refl

process_all_established_example :
    any (λ (packet : ParsedPacket × ℕ). accepts client_key packet.0) handshake ≡ true
unfolding new_engine lookup
process_all_established_example =
    process_all_established client_key clock handshake engine tt refl established_after

-- A table with an established connection and a closing one.
abbrev tracked : StatefulDetectionEngine ℕ
tracked = record engine {
  last_cleanup_time = 100;
  tcp_conn_table =
      (client_key, (established_conn, 101)) ∷ (reverse_key client_key, (closing_conn, 102)) ∷ [];
}

abbrev syn_ack : TcpInfo
syn_ack = record {
  src_port = 80;
  dst_port = 4000;
  seq = 0;
  ack = 0;
  data_offset = 5;
  reserved = 0;
  flags = 18;
  window_size = 0;
  checksum = 0;
  urgent_pointer = 0;
  options = default_options;
  payload = [];
}

lookup-segment_example :
    let table : ConnTable ℕ = [] in
    lookup client_key (segment syn_ack (reverse_key client_key) 5 table)
    ≡ entry_after syn_ack 5 false true (lookup client_key table)
lookup-segment_example = lookup-segment syn_ack (reverse_key client_key) client_key 5 []

abbrev established_rule : EvaluatedRule ℕ
established_rule = record (evaluated syn_rule) {
  context = record { flow = record { state = text "established" }; limits = none };
}

abbrev syn_ack_packet : ParsedPacket
syn_ack_packet = record blank { transport = tcp_layer syn_ack }

flow_matches_established_example :
    flow_matches established_rule syn_ack_packet (track_connection syn_ack_packet 5 []) ≡ true
flow_matches_established_example =
    flow_matches_established established_rule syn_ack_packet syn_ack 5 [] refl refl

abbrev ingress_rule : EvaluatedRule ℕ
ingress_rule = record (evaluated syn_rule) {
  match_config = record syn_rule.match_config { direction = text "ingress" };
}

abbrev datagram : Ipv4Info
datagram = record {
  version = 4;
  ihl = 5;
  dscp = 0;
  ecn = 0;
  total_length = 20;
  identification = 0;
  flags = 0;
  fragment_offset = 0;
  ttl = 64;
  protocol = 6;
  header_checksum = 0;
  src_ip = 0x0A000001;
  dst_ip = 0x0A000002;
  options = [];
  payload = [];
}

direction_matches_ipv4_example :
    direction_matches ingress_rule
      (record blank { network = ipv4_layer datagram })
      (v4 0x0A000002 ∷ [])
    ≡ true
direction_matches_ipv4_example =
    direction_matches_ipv4 ingress_rule (record blank { network = ipv4_layer datagram }) datagram
      (v4 0x0A000002 ∷ []) refl (omega arith) (omega arith)

count_packet-AreYoung_example :
    let ((rule_rate, conn_rate), alert) =
      count_packet
        (evaluated syn_rule)
        (segment_of 0x0A000001 0x0A000002 4000 80 2)
        100
        ((7, (text "10.0.0.1", 30 ∷ 40 ∷ 50 ∷ []) ∷ []) ∷ [])
        [] in
    AreYoung 100 (
      stamps 7
        (resolve_tracking_key (evaluated syn_rule) (segment_of 0x0A000001 0x0A000002 4000 80 2))
        rule_rate)
    × AreYoung 100 (
        stamps 7
          (resolve_tracking_key (evaluated syn_rule) (segment_of 0x0A000001 0x0A000002 4000 80 2))
          conn_rate)
unfolding contains_key
count_packet-AreYoung_example =
    count_packet-AreYoung (evaluated syn_rule) (segment_of 0x0A000001 0x0A000002 4000 80 2) 100
      ((7, (text "10.0.0.1", 30 ∷ 40 ∷ 50 ∷ []) ∷ []) ∷ []) [] ((refl, tt), tt) tt
