-- ===== src/Engine/Rules/Matching.antt =====
-- Which packets a rule matches, said without the texts that the code compares.
use nids.Prelude.{◌^◌, ◌<◌, ◌≡◌, true, List, any, if◌then◌else◌, refl}
use nids.Parser.Layers.{ParsedPacket, ipv4_layer, Ipv4Info}
use nids.Engine.Text.{text, string_equals}
use nids.Engine.Address.{
  IpAddr, v4, ip_equals, show_ipv4, resolve_dst_ip, resolve_src_ip, src_ip_of, dst_ip_of,
}
use nids.Engine.Address.Roundtrip.{is_self-show_ipv4}
use nids.Engine.Config.{EvaluatedRule}
use nids.Engine.Rules.{direction_matches}

dst_ip_ipv4 :
    (pkt : ParsedPacket) (ip : Ipv4Info)
    → pkt.network ≡ ipv4_layer ip
    → resolve_dst_ip pkt ≡ show_ipv4 ip.dst_ip
unfolding resolve_dst_ip dst_ip_of
dst_ip_ipv4 pkt ip h = rw h

src_ip_ipv4 :
    (pkt : ParsedPacket) (ip : Ipv4Info)
    → pkt.network ≡ ipv4_layer ip
    → resolve_src_ip pkt ≡ show_ipv4 ip.src_ip
unfolding resolve_src_ip src_ip_of
src_ip_ipv4 pkt ip h = rw h

module _ {F : Type 0} where
  -- For an IPv4 packet with addresses of 32 bits, an ingress rule asks that the destination be one of the interface's
  -- addresses, an egress rule that the source be one, and any other direction asks nothing.
  pub direction_matches_ipv4 :
      (rule : EvaluatedRule F) (pkt : ParsedPacket) (ip : Ipv4Info) (self_ips : List IpAddr)
      → pkt.network ≡ ipv4_layer ip
      → ip.src_ip < 2 ^ 32
      → ip.dst_ip < 2 ^ 32
      → direction_matches rule pkt self_ips ≡ (
          if string_equals rule.match_config.direction (text "ingress")
          then any (ip_equals (v4 ip.dst_ip)) self_ips
          else if string_equals rule.match_config.direction (text "egress")
          then any (ip_equals (v4 ip.src_ip)) self_ips
          else true)
  unfolding direction_matches
  direction_matches_ipv4 rule pkt ip self_ips h hs hd =
      rw
        (
          dst_ip_ipv4 pkt ip h,
          src_ip_ipv4 pkt ip h,
          is_self-show_ipv4 ip.src_ip self_ips hs,
          is_self-show_ipv4 ip.dst_ip self_ips hd,
        )
        refl
