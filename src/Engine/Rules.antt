-- ===== src/Engine/Rules.antt =====
-- `matches_rule`, `port_matches` and `resolve_tracking_key` of src/engine.rs. A guard that returns
-- false is a conjunct, the loop over the protocols an `any`.
pub mod Matching
use nids.Prelude.{
  ℕ, ◌/◌, ◌%◌, ◌^◌, ◌≡◌, ◌↔◌, arith, Bool, true, false, not, ◌&&◌, ◌||◌, Option, none, some, List,
  any, ◌==◌, if◌then◌else◌,
}
use nids.Prelude.Bytes.{bit}
use nids.Prelude.Assoc.{Eq, lookup}
use nids.Parser.Link.{String}
use nids.Parser.Layers.{
  ParsedPacket, NetworkLayer, ipv4_layer, ipv6_layer, arp_layer, no_network, TransportLayer,
  tcp_layer, udp_layer, icmp_layer, no_transport, AppLayer, eapol_layer, TcpInfo,
}
use nids.Engine.Text.{text, string_equals, string_equals_iff, string_eq, parse_u16, to_lowercase}
use nids.Engine.Address.{
  IpAddr, show_ipv4, show_ipv6, resolve_src_ip, resolve_dst_ip, is_self, ip_field_matches,
}
use nids.Engine.Config.{Value, string_value, number_value, other_value, EvaluatedRule, LimitConfig}
use nids.Engine.State.{ConnKey, ConnTable, TcpConnState, established_conn, new_conn, closing_conn}

-- TCP_FLAG_FIN, TCP_FLAG_SYN, TCP_FLAG_RST and TCP_FLAG_ACK are the bits 0, 1, 2 and 4.
abbrev pub is_fin : TcpInfo → Bool
is_fin tcp = bit tcp.flags 0

abbrev pub is_syn : TcpInfo → Bool
is_syn tcp = bit tcp.flags 1

abbrev pub is_rst : TcpInfo → Bool
is_rst tcp = bit tcp.flags 2

abbrev pub is_ack : TcpInfo → Bool
is_ack tcp = bit tcp.flags 4

abbrev pub is_arp : NetworkLayer → Bool
is_arp network = elim network [ arp_layer arp ↦ true | _ ↦ false ]

abbrev pub is_eapol : AppLayer → Bool
is_eapol app = elim app [ eapol_layer eapol ↦ true | _ ↦ false ]

abbrev pub is_tcp : TransportLayer → Bool
is_tcp transport = elim transport [ tcp_layer tcp ↦ true | _ ↦ false ]

abbrev pub is_udp : TransportLayer → Bool
is_udp transport = elim transport [ udp_layer udp ↦ true | _ ↦ false ]

unfoldable pub port_matches : Value → ℕ → Bool
port_matches (string_value s) actual_port =
    string_equals s (text "any") || elim (parse_u16 s) [ none ↦ false | some p ↦ p == actual_port ]
port_matches (number_value n) actual_port = elim n [ none ↦ false | some p ↦ p == actual_port ]
port_matches other_value actual_port = false

-- The TCP ports of the named protocols.
unfoldable pub is_proto_port : String → TcpInfo → Bool
is_proto_port proto tcp =
    let has = λ (port : ℕ). tcp.src_port == port || tcp.dst_port == port in
    if string_equals proto (text "http")
    then has 80 || (has 8080 || has 8081)
    else if string_equals proto (text "https")
    then has 443
    else if string_equals proto (text "ssh")
    then has 22
    else if string_equals proto (text "rdp")
    then has 3389
    else if string_equals proto (text "smb")
    then has 445
    else if string_equals proto (text "ftp")
    then has 20 || has 21
    else false

-- One round of the loop over the protocols.
unfoldable pub proto_matches : ParsedPacket → String → Bool
unfolding is_proto_port
proto_matches pkt name =
    let proto = to_lowercase name in
    if string_equals proto (text "arp")
    then is_arp pkt.network
    else if string_equals proto (text "eapol")
    then is_eapol pkt.app
    else if string_equals proto (text "tcp")
    then is_tcp pkt.transport
    else if string_equals proto (text "udp")
    then is_udp pkt.transport
    else if string_equals proto (text "any")
    then true
    else elim pkt.transport [ tcp_layer tcp ↦ is_proto_port proto tcp | _ ↦ false ]

unfoldable pub class_matches : String → ParsedPacket → Bool
class_matches class pkt =
    if string_equals class (text "arp")
    then is_arp pkt.network
    else if string_equals class (text "eapol")
    then is_eapol pkt.app
    else if string_equals class (text "tcp")
    then is_tcp pkt.transport
    else if string_equals class (text "udp")
    then is_udp pkt.transport
    else false

abbrev pub conn_key_equals : ConnKey → ConnKey → Bool
conn_key_equals (a, b, c, d) (a', b', c', d') =
    string_equals a a' && (b == b' && (string_equals c c' && d == d'))

pub conn_key_equals_iff : (k j : ConnKey) → (conn_key_equals k j ≡ true) ↔ (k ≡ j)
conn_key_equals_iff (a, b, c, d) (a', b', c', d') =
    ground (arith, string_equals_iff a a', string_equals_iff c c')

instance abbrev pub conn_key_eq : Eq ConnKey
conn_key_eq = record { eq = conn_key_equals; eq_iff = conn_key_equals_iff }

abbrev pub conn_key : ParsedPacket → TcpInfo → ConnKey
conn_key pkt tcp = (resolve_src_ip pkt, tcp.src_port, resolve_dst_ip pkt, tcp.dst_port)

module _ {F : Type 0} where
  unfoldable pub scope_matches : EvaluatedRule F → String → Bool
  scope_matches rule iface =
      any (λ i. string_equals i (text "any") || string_equals i iface) rule.scope.interfaces

  unfoldable pub direction_matches : EvaluatedRule F → ParsedPacket → List IpAddr → Bool
  direction_matches rule pkt self_ips =
      let direction = rule.match_config.direction in
      if string_equals direction (text "ingress")
      then is_self (resolve_dst_ip pkt) self_ips
      else if string_equals direction (text "egress")
      then is_self (resolve_src_ip pkt) self_ips
      else true

  abbrev pub both_fields : EvaluatedRule F → String → String → List IpAddr → Bool
  both_fields rule src dst self_ips =
      ip_field_matches rule.match_config.ip.src_ip src self_ips
      && ip_field_matches rule.match_config.ip.dst_ip dst self_ips

  abbrev pub has_version : EvaluatedRule F → ℕ → Bool
  has_version rule version = any (λ v. v == version) rule.match_config.ip.ip_version

  unfoldable pub addresses_match : EvaluatedRule F → NetworkLayer → List IpAddr → Bool
  addresses_match rule (ipv4_layer ip) self_ips =
      has_version rule 4 && both_fields rule (show_ipv4 ip.src_ip) (show_ipv4 ip.dst_ip) self_ips
  addresses_match rule (ipv6_layer ip) self_ips =
      has_version rule 6 && both_fields rule (show_ipv6 ip.src_ip) (show_ipv6 ip.dst_ip) self_ips
  addresses_match rule (arp_layer arp) self_ips =
      both_fields rule (show_ipv4 arp.sender_ip) (show_ipv4 arp.target_ip) self_ips
  addresses_match rule no_network self_ips =
      string_equals rule.match_config.ip.src_ip (text "any")
      && string_equals rule.match_config.ip.dst_ip (text "any")

  abbrev pub is_established : Option (TcpConnState × F) → Bool
  is_established (some (established_conn, last_seen)) = true
  is_established (some (new_conn, last_seen)) = false
  is_established (some (closing_conn, last_seen)) = false
  is_established none = false

  unfoldable pub flow_matches : EvaluatedRule F → ParsedPacket → ConnTable F → Bool
  flow_matches rule pkt tcp_conn_table =
      let state = rule.context.flow.state in
      if string_equals state (text "new")
      then elim pkt.transport [ tcp_layer tcp ↦ is_syn tcp && not (is_ack tcp) | _ ↦ false ]
      else if string_equals state (text "established")
      then elim pkt.transport [
        | tcp_layer tcp ↦ is_established (lookup (conn_key pkt tcp) tcp_conn_table)
        | _ ↦ false
      ]
      else true

  unfoldable pub ports_match : EvaluatedRule F → TransportLayer → Bool
  ports_match rule (tcp_layer tcp) =
      port_matches rule.match_config.transport.src_port tcp.src_port
      && port_matches rule.match_config.transport.dst_port tcp.dst_port
  ports_match rule (udp_layer udp) =
      port_matches rule.match_config.transport.src_port udp.src_port
      && port_matches rule.match_config.transport.dst_port udp.dst_port
  ports_match rule (icmp_layer icmp) = true
  ports_match rule no_transport = true

  unfoldable pub matches_rule :
      EvaluatedRule F → ParsedPacket → String → List IpAddr → ConnTable F → Bool
  unfolding scope_matches direction_matches addresses_match flow_matches class_matches proto_matches
      ports_match
  matches_rule rule pkt iface self_ips tcp_conn_table =
      if not (scope_matches rule iface)
      then false
      else if not (direction_matches rule pkt self_ips)
      then false
      else if not (addresses_match rule pkt.network self_ips)
      then false
      else if not (flow_matches rule pkt tcp_conn_table)
      then false
      else if not (
          class_matches rule.class pkt
          || any (proto_matches pkt) rule.match_config.transport.protocol)
      then false
      else ports_match rule pkt.transport

  -- `limits.get("max_conn_rate")`
  unfoldable pub max_conn_rate : EvaluatedRule F → Option (LimitConfig F)
  max_conn_rate rule = elim rule.context.limits [
    | none ↦ none
    | some limits ↦ lookup (text "max_conn_rate") limits
  ]

  unfoldable pub resolve_tracking_key : EvaluatedRule F → ParsedPacket → String
  unfolding max_conn_rate
  resolve_tracking_key rule pkt = elim (max_conn_rate rule) [
    | none ↦ resolve_src_ip pkt
    | some conn_rate ↦
        if string_equals conn_rate.per (text "src_ip")
        then resolve_src_ip pkt
        else if string_equals conn_rate.per (text "dst_ip")
        then resolve_dst_ip pkt
        else resolve_src_ip pkt
  ]
