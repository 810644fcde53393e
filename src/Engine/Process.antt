-- ===== src/Engine/Process.antt =====
-- `process_packet` and `create_message` of src/engine.rs: one packet through the engine. The local
-- time that a message carries is an argument.
pub mod Messages
pub mod Run
pub mod Handshake
pub mod Reference
use nids.Prelude.{
  unwrap_or, ℕ, ◌+◌, ◌%◌, ◌^◌, ◌≡◌, Bool, true, false, not, ◌&&◌, Option, none, some, List, [], ◌∷◌,
  ◌++◌, replicate, ◌==◌, if◌then◌else◌,
}
use nids.Prelude.Assoc.{lookup, insert}
use nids.Parser.Link.{String, Mac, ℤ, pos, negsuc}
use nids.Parser.Mgmt.{WifiMgmtFrame}
use nids.Parser.Layers.{ParsedPacket, NetworkLayer, ipv4_layer, ipv6_layer, arp_layer, no_network}
use nids.Alert.{IdsmMessage}
use nids.Engine.Text.{text, string_equals, string_eq}
use nids.Engine.Address.{IpAddr, v4, v6}
use nids.Engine.Float.{F64}
use nids.Engine.Config.{EvaluatedRule}
use nids.Engine.State.{
  StatefulDetectionEngine, AccessPoint, ClientState, new_client, PendingAlert, Tracker, ConnTable,
}
use nids.Engine.Rules.{matches_rule}
use nids.Engine.Connections.{track_connection}
use nids.Engine.Rates.{count_packet}
use nids.Engine.Expire.{expire_states}

-- pkt.signal_dbm.unwrap_or(-50)
abbrev pub rssi_of : ParsedPacket → ℤ
rssi_of pkt = unwrap_or (negsuc 49) pkt.signal_dbm

abbrev pub Trackers : Type 0 → Type 0
Trackers F = Tracker F × Tracker F

abbrev pub security_of : WifiMgmtFrame → String
security_of mgmt = elim mgmt.rsn_info [ none ↦ text "Open" | some rsn ↦ text "WPA2/WPA3" ]

abbrev pub address_of : NetworkLayer → Option IpAddr → Option IpAddr
address_of (ipv4_layer ip) known = some (v4 ip.src_ip)
address_of (ipv6_layer ip) known = some (v6 ip.src_ip)
address_of (arp_layer arp) known = known
address_of no_network known = known

module _ {F : Type 0} where
  -- The entry of a beacon's access point: its text stays the first beacon's.
  unfoldable pub beacon_entry : Mac → WifiMgmtFrame → ℤ → F → Option (AccessPoint F) → AccessPoint F
  beacon_entry bssid mgmt rssi now entry =
      let fresh : AccessPoint F = record {
        bssid = bssid;
        ssid = unwrap_or [] mgmt.ssid;
        channel = unwrap_or 0 mgmt.channel;
        security = security_of mgmt;
        last_seen = now;
        beacon_count = 0;
        last_rssi = rssi;
      } in
      let ap = unwrap_or fresh entry in
      record ap {
        beacon_count = (ap.beacon_count + 1) % 2 ^ 64;
        last_seen = now;
        last_rssi = rssi;
        channel = unwrap_or 0 mgmt.channel;
        security = security_of mgmt;
      }

  unfoldable pub track_beacon :
      ParsedPacket → F → List (Mac × AccessPoint F) → List (Mac × AccessPoint F)
  unfolding beacon_entry
  track_beacon pkt now aps = elim pkt.bssid [
    | none ↦ aps
    | some bssid ↦ elim pkt.wifi_mgmt [
      | none ↦ aps
      | some mgmt ↦
          if mgmt.subtype == 8
          then insert bssid (beacon_entry bssid mgmt (rssi_of pkt) now (lookup bssid aps)) aps
          else aps
    ]
  ]

  unfoldable pub track_client :
      ParsedPacket → F → List (Mac × ClientState F) → List (Mac × ClientState F)
  track_client pkt now clients =
      let mac = pkt.src_mac in
      let client = unwrap_or (new_client mac (rssi_of pkt) 0 now) (lookup mac clients) in
      if not (string_equals mac (replicate 6 0)) && not (string_equals mac (replicate 6 0xFF))
      then insert mac
          (record client {
            last_seen = now;
            last_rssi = rssi_of pkt;
            last_seq_num = 0;
            ip_address = address_of pkt.network client.ip_address;
          })
          clients
      else clients

abbrev pub pend : Option PendingAlert → List PendingAlert → List PendingAlert
pend none alerts = alerts
pend (some alert) alerts = alert ∷ alerts

module _ {F : Type 0} ⦃f : F64 F⦄ where
  -- One rule: the trackers, and the alert if there is one.
  unfoldable pub evaluate_rule :
      EvaluatedRule F
      → ParsedPacket
      → String
      → List IpAddr
      → ConnTable F
      → F
      → Trackers F
      → Trackers F × Option PendingAlert
  unfolding matches_rule count_packet
  evaluate_rule rule pkt iface self_ips conns now (rule_rate, conn_rate) =
      if matches_rule rule pkt iface self_ips conns
      then count_packet rule pkt now rule_rate conn_rate
      else ((rule_rate, conn_rate), none)

  -- The loop over the rules: every rule sees the trackers that the rules before it left.
  unfoldable pub evaluate_rules :
      List (EvaluatedRule F)
      → ParsedPacket
      → String
      → List IpAddr
      → ConnTable F
      → F
      → Trackers F
      → Trackers F × List PendingAlert
  unfolding evaluate_rule
  evaluate_rules [] pkt iface self_ips conns now trackers = (trackers, [])
  evaluate_rules (rule ∷ rules) pkt iface self_ips conns now trackers =
      let (after, alert) = evaluate_rule rule pkt iface self_ips conns now trackers in
      let (last, alerts) = evaluate_rules rules pkt iface self_ips conns now after in
      (last, pend alert alerts)

  -- The message takes the next number, and the local time at which the message of that number is
  -- made.
  unfoldable pub create_message :
      (ℕ → String)
      → PendingAlert
      → StatefulDetectionEngine F
      → StatefulDetectionEngine F × IdsmMessage
  create_message local_now p e =
      let e' = record e { alert_counter = (e.alert_counter + 1) % 2 ^ 64 } in
      (
        e',
        record {
          seq_no = e'.alert_counter;
          ttl_ms = 5000;
          sensor_id = text "sensor-Wi-Fi/Ethernet-01";
          sensor_cert_id = text "-----";
          signature = [];
          event = record {
            event_id = p.event_id;
            event_name = p.event_name;
            severity = p.severity;
            timestamp = local_now e'.alert_counter;
            vehicle_id_hash = text "AA00BB1234";
            iface = e.iface;
            payload = p.payload;
          };
        },
      )

  unfoldable pub create_messages :
      (ℕ → String)
      → List PendingAlert
      → StatefulDetectionEngine F
      → StatefulDetectionEngine F × List IdsmMessage
  unfolding create_message
  create_messages local_now [] e = (e, [])
  create_messages local_now (p ∷ pending) e =
      let (e', message) = create_message local_now p e in
      let (last, messages) = create_messages local_now pending e' in (last, message ∷ messages)

  -- What the packet says of access points, clients and connections.
  unfoldable pub see : ParsedPacket → F → StatefulDetectionEngine F → StatefulDetectionEngine F
  unfolding track_beacon track_client track_connection
  see pkt now e = record e {
    access_points = track_beacon pkt now e.access_points;
    clients = track_client pkt now e.clients;
    tcp_conn_table = track_connection pkt now e.tcp_conn_table;
  }

  -- The state that the rules are evaluated in.
  unfoldable pub observe : ParsedPacket → F → StatefulDetectionEngine F → StatefulDetectionEngine F
  unfolding expire_states see
  observe pkt now e = see pkt now (expire_states e now)

  -- The rules over the packet, in that state.
  unfoldable pub detect :
      ParsedPacket → F → StatefulDetectionEngine F → StatefulDetectionEngine F × List PendingAlert
  unfolding evaluate_rules
  detect pkt now e =
      let ((rule_rate, conn_rate), pending) =
        evaluate_rules e.rules pkt e.iface e.self_ips e.tcp_conn_table now
          (e.rule_rate_tracker, e.conn_rate_tracker) in
      (record e { rule_rate_tracker = rule_rate; conn_rate_tracker = conn_rate }, pending)

  unfoldable pub process_packet :
      StatefulDetectionEngine F
      → ParsedPacket
      → F
      → (ℕ → String)
      → StatefulDetectionEngine F × List IdsmMessage
  unfolding observe detect create_messages
  process_packet e pkt now local_now =
      let (detected, pending) = detect pkt now (observe pkt now e) in
      create_messages local_now pending detected
