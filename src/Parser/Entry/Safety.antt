-- ===== src/Parser/Entry/Safety.antt =====
-- `parse_packet` of src/parser.rs on arbitrary bytes.
use nids.Prelude.{ℕ, Option, none, some, List, arith}
use nids.Prelude.Outcome.{Runs}
use nids.Prelude.Loop.{Gives}
use nids.Prelude.Safe.{Any, Any-Runs, done, Gives-if, Gives-byte, Gives-slice_from, Gives-call}
use nids.Parser.Link.{
  LinkType, ethernet_link, wifi_80211_link, radiotap_wifi_link, unknown_link, PacketMeta,
  RadiotapInfo,
}
use nids.Parser.Layers.{ParsedPacket}
use nids.Parser.Radiotap.Safety.{parse_radiotap-Gives}
use nids.Parser.Network.Safety.{parse_ethernet_frame-Gives}
use nids.Parser.Wifi.Safety.{parse_80211_frame-Gives}
use nids.Parser.Entry.{radiotap_body, radiotap_branch, detect, parse_link, parse_packet}

radiotap_body-Gives :
    (xs : List ℕ) (pkt : ParsedPacket) (rt_info : Option RadiotapInfo)
    → Gives Any (radiotap_body xs pkt rt_info)
unfolding radiotap_body
radiotap_body-Gives xs pkt none = done
radiotap_body-Gives xs pkt (some rt_info) =
    Gives-if _
      (λ t.
        Gives-slice_from xs rt_info.header_len (ground arith)
          (λ rest e. parse_80211_frame-Gives rest _))
      (λ t. done)

radiotap_branch-Gives : (xs : List ℕ) (pkt : ParsedPacket) → Gives Any (radiotap_branch xs pkt)
unfolding radiotap_branch
radiotap_branch-Gives xs pkt =
    Gives-call _ (parse_radiotap-Gives xs) (λ rt_info. radiotap_body-Gives xs pkt rt_info)

detect-Gives : (xs : List ℕ) (pkt : ParsedPacket) → Gives Any (detect xs pkt)
unfolding detect
detect-Gives xs pkt =
    Gives-call _ (Gives-if _ (λ t. Gives-byte xs 0 (ground arith) (λ b. done)) (λ t. done))
      (λ radiotap.
        Gives-if _ (λ t. radiotap_branch-Gives xs _)
          (λ t. Gives-if _ (λ u. parse_ethernet_frame-Gives xs _) (λ u. done)))

parse_link-Gives :
    (link : LinkType) (xs : List ℕ) (pkt : ParsedPacket) → Gives Any (parse_link link xs pkt)
unfolding parse_link
parse_link-Gives radiotap_wifi_link xs pkt = radiotap_branch-Gives xs pkt
parse_link-Gives wifi_80211_link xs pkt = parse_80211_frame-Gives xs pkt
parse_link-Gives ethernet_link xs pkt = parse_ethernet_frame-Gives xs pkt
parse_link-Gives unknown_link xs pkt = detect-Gives xs pkt

-- No packet, of any link type and with any metadata, makes the parser panic or keep one of its
-- loops going beyond the rounds that the model allows it.
pub parse_packet-Runs :
    (xs : List ℕ) (default_link : LinkType) (meta : Option PacketMeta)
    → Runs (parse_packet xs default_link meta)
unfolding parse_packet
parse_packet-Runs xs default_link meta =
    Any-Runs _ (Gives-if _ (λ t. done) (λ t. parse_link-Gives default_link xs _))
