-- ===== src/Engine/State.antt =====
-- The state of `StatefulDetectionEngine` and its construction, over an `f64` given as `F`.
use nids.Prelude.{
  unwrap_or, ℕ, Bool, true, false, Option, none, List, [], ◌∷◌, ◌++◌, if◌then◌else◌, ◌==◌,
}
use nids.Parser.Link.{String, Mac, ℤ}
use nids.Alert.{Severity, critical, high, medium, low, info, EventPayload}
use nids.Engine.Text.{text, decimal}
use nids.Engine.Address.{IpAddr}
use nids.Engine.Float.{F64}
use nids.Engine.Config.{RuleConfig, EvaluatedRule}

pub data TcpConnState : Type 0 where
  new_conn : TcpConnState
  established_conn : TcpConnState
  closing_conn : TcpConnState

-- Source address and port, destination address and port.
abbrev pub ConnKey : Type 0
ConnKey = String × ℕ × String × ℕ

pub record AccessPoint (F : Type 0) : Type 0 where
  pub bssid : Mac
  pub ssid : String
  pub channel : ℕ
  pub security : String
  pub last_seen : F
  pub beacon_count : ℕ
  pub last_rssi : ℤ

pub record ClientState (F : Type 0) : Type 0 where
  pub mac : Mac
  pub probe_timestamps : List F
  pub probed_ssids : List String
  pub assoc_timestamps : List F
  pub auth_failures : List F
  pub deauth_timestamps : List F
  pub last_seen : F
  pub last_rssi : ℤ
  pub last_seq_num : ℕ
  pub ip_address : Option IpAddr
  pub tcp_scans : List (ℕ × F)
  pub udp_scans : List (ℕ × F)
  pub dns_queries : List (String × F)
  pub diag_port_attempts : ℕ
  pub infotainment_attempts : ℕ

-- `ClientState::new`
abbrev pub new_client : {F : Type 0} → Mac → ℤ → ℕ → F → ClientState F
new_client mac rssi seq timestamp = record {
  mac = mac;
  probe_timestamps = [];
  probed_ssids = [];
  assoc_timestamps = [];
  auth_failures = [];
  deauth_timestamps = [];
  last_seen = timestamp;
  last_rssi = rssi;
  last_seq_num = seq;
  ip_address = none;
  tcp_scans = [];
  udp_scans = [];
  dns_queries = [];
  diag_port_attempts = 0;
  infotainment_attempts = 0;
}

pub record SessionState (F : Type 0) : Type 0 where
  pub client_mac : Mac
  pub bssid : Mac
  pub handshake_step : ℕ
  pub last_step_time : F
  pub replay_count : ℕ
  pub pmkid_attempts : ℕ

pub record PendingAlert : Type 0 where
  pub event_id : String
  pub event_name : String
  pub severity : Severity
  pub payload : EventPayload

-- Timestamps by rule and tracking key.
abbrev pub Tracker : Type 0 → Type 0
Tracker F = List (ℕ × List (String × List F))

abbrev pub ConnTable : Type 0 → Type 0
ConnTable F = List (ConnKey × (TcpConnState × F))

pub record StatefulDetectionEngine (F : Type 0) : Type 0 where
  pub alert_counter : ℕ
  pub access_points : List (Mac × AccessPoint F)
  pub clients : List (Mac × ClientState F)
  pub sessions : List (Mac × SessionState F)
  pub vehicle_hotspot_enabled : Bool
  pub hotspot_ssid : String
  pub hotspot_bssid : Mac
  pub hotspot_channel : ℕ
  pub carplay_active : Bool
  pub last_cleanup_time : F
  pub iface : String
  pub self_ips : List IpAddr
  pub rules : List (EvaluatedRule F)
  pub tcp_conn_table : ConnTable F
  pub rule_rate_tracker : Tracker F
  pub conn_rate_tracker : Tracker F

unfoldable pub severity_of : ℕ → Severity
severity_of n =
    if n == 0
    then critical
    else if n == 1
    then high
    else if n == 2
    then medium
    else if n == 3
    then low
    else info

module _ {F : Type 0} where
  abbrev pub evaluated : RuleConfig F → EvaluatedRule F
  evaluated r = record {
    id = r.id;
    event_id = text "RULE-" ++ decimal r.id;
    event_name = r.message;
    severity = severity_of r.severity;
    action = r.action;
    class = r.class;
    scope = r.scope;
    match_config = r.match_config;
    context = r.context;
    behaviour = r.behaviour;
  }

  -- The enabled rules, in the order given.
  unfoldable pub load_rules : List (RuleConfig F) → List (EvaluatedRule F)
  load_rules [] = []
  load_rules (r ∷ rest) = if r.enabled then evaluated r ∷ load_rules rest else load_rules rest

  -- `StatefulDetectionEngine::new`, given what rules.json and the interface's addresses were read as;
  -- a file that cannot be read or parsed gives no rules.
  unfoldable pub new_engine :
      ⦃f : F64 F⦄ → String → Option (List (RuleConfig F)) → List IpAddr → StatefulDetectionEngine F
  unfolding load_rules
  new_engine ⦃f⦄ iface rules_loaded self_ips = record {
    alert_counter = 0;
    access_points = [];
    clients = [];
    sessions = [];
    vehicle_hotspot_enabled = true;
    hotspot_ssid = text "Enterprise_Secure";
    hotspot_bssid = 0x00 ∷ 0x11 ∷ 0x22 ∷ 0x33 ∷ 0x44 ∷ 0x55 ∷ [];
    hotspot_channel = 6;
    carplay_active = false;
    last_cleanup_time = f.of_nat 0;
    iface = iface;
    self_ips = self_ips;
    rules = load_rules (unwrap_or [] rules_loaded);
    tcp_conn_table = [];
    rule_rate_tracker = [];
    conn_rate_tracker = [];
  }
