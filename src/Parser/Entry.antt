-- ===== src/Parser/Entry.antt =====
-- `parse_packet` of src/parser.rs, the public entry point.
pub mod Safety
use nids.Prelude.{
  ℕ, Bool, true, false, ◌&&◌, Option, none, some, List, [], length, leb, ltb, ◌==◌, if◌then◌else◌,
  replicate,
}
use nids.Prelude.Loop.{when◌then◌else◌}
use nids.Prelude.Outcome.{Outcome, returns, ◌>>=◌, byte, slice_from}
use nids.Parser.Link.{
  LinkType, ethernet_link, wifi_80211_link, radiotap_wifi_link, unknown_link, PacketMeta,
  RadiotapInfo,
}
use nids.Parser.Layers.{no_network, no_transport, no_app, ParsedPacket, malform}
use nids.Parser.Radiotap.{parse_radiotap}
use nids.Parser.Network.{parse_ethernet_frame}
use nids.Parser.Wifi.{parse_80211_frame}

unfoldable pub empty_packet : LinkType → Option PacketMeta → ParsedPacket
empty_packet default_link meta = record {
  meta = meta;
  link_type = default_link;
  src_mac = replicate 6 0;
  dst_mac = replicate 6 0;
  bssid = none;
  signal_dbm = none;
  channel = none;
  malformed = false;
  ethernet = none;
  wifi_header = none;
  network = no_network;
  transport = no_transport;
  app = no_app;
  wifi_mgmt = none;
  raw_payload = [];
}

-- What the radiotap branch does with the header it has read.
unfoldable pub radiotap_body : List ℕ → ParsedPacket → Option RadiotapInfo → Outcome ParsedPacket
radiotap_body xs pkt none = returns (malform pkt)
radiotap_body xs pkt (some rt_info) =
    let pkt' = record pkt { signal_dbm = rt_info.dbm_antsignal; channel = rt_info.channel } in
    when ltb rt_info.header_len (length xs)
    then (do rest ← slice_from xs rt_info.header_len; parse_80211_frame rest pkt')
    else returns (malform pkt')

unfoldable pub radiotap_branch : List ℕ → ParsedPacket → Outcome ParsedPacket
radiotap_branch xs pkt = do rt_info ← parse_radiotap xs; radiotap_body xs pkt rt_info

-- Auto-detection.
unfoldable pub detect : List ℕ → ParsedPacket → Outcome ParsedPacket
detect xs pkt = do
  radiotap ← when leb 8 (length xs) then (do b ← byte xs 0; returns (b == 0)) else returns false
  when radiotap
      then radiotap_branch xs (record pkt { link_type = radiotap_wifi_link })
      else when leb 14 (length xs)
      then parse_ethernet_frame xs (record pkt { link_type = ethernet_link })
      else returns (malform pkt)

unfoldable pub parse_link : LinkType → List ℕ → ParsedPacket → Outcome ParsedPacket
parse_link radiotap_wifi_link xs pkt = radiotap_branch xs pkt
parse_link wifi_80211_link xs pkt = parse_80211_frame xs pkt
parse_link ethernet_link xs pkt = parse_ethernet_frame xs pkt
parse_link unknown_link xs pkt = detect xs pkt

unfoldable pub parse_packet : List ℕ → LinkType → Option PacketMeta → Outcome ParsedPacket
parse_packet xs default_link meta =
    when length xs == 0
    then returns (malform (empty_packet default_link meta))
    else parse_link default_link xs (empty_packet default_link meta)
