-- ===== src/Alert.antt =====
-- The messages of src/alert.rs. An `f32` is its 32 bits, which the program only carries; text is the
-- list of its UTF-8 bytes.
use nids.Prelude.{ℕ, Bool, Option, List}
use nids.Parser.Link.{String}

-- An `f32` by its bits.
abbrev pub F32 : Type 0
F32 = ℕ

pub data Severity : Type 0 where
  info : Severity
  low : Severity
  medium : Severity
  high : Severity
  critical : Severity

pub record RadioPacketFloodStart : Type 0 where
  pub pkt_rate : ℕ
  pub baseline_rate : ℕ
  pub window_duration_s : ℕ
  pub rssi_avg : F32
  pub modulation : String
  pub channel : ℕ

pub record HighBroadcastStorm : Type 0 where
  pub broadcast_ratio : F32
  pub pkt_rate : ℕ
  pub top_broadcast_srcs : List String
  pub top_broadcast_pkt_counts : List ℕ
  pub mitigation_applied : Bool
  pub mitigation_type : Option String

pub record SenderRate : Type 0 where
  pub sender_id : String
  pub pkt_rate_per_sender : ℕ

pub record ProtocolConformantFlood : Type 0 where
  pub packet_signature_hash : String
  pub signature_description : String
  pub sender_list : List SenderRate

pub record RapidSourceSwitching : Type 0 where
  pub unique_src_count : ℕ
  pub aggregate_pkt_rate : ℕ
  pub top_srcs_summary : List String
  pub sample_rate : ℕ
  pub cluster_id : Option String

pub record ControlChannelStarvation : Type 0 where
  pub channel_id : String
  pub loss_rate : F32
  pub median_latency_ms : ℕ
  pub missing_message_ids : List String
  pub recent_message_samples : List String
  pub safety_escalation_flag : Bool

pub record SensorResourceExhaustion : Type 0 where
  pub cpu_pct : F32
  pub mem_pct : F32
  pub queue_drops : ℕ
  pub sampling_mode_set : Bool

pub record PacketReplayFlood : Type 0 where
  pub payload_hash : String
  pub repeat_count : ℕ
  pub involved_srcs : List String
  pub exemplar_packet_reference : Option String

pub record ChannelJammingIndication : Type 0 where
  pub noise_floor_dbm : F32
  pub crc_error_rate : F32
  pub affected_channels : List ℕ
  pub spectrogram_id : Option String
  pub rf_scan_snapshot_uri : Option String
  pub mitigation_recommendation : String

pub record AnomalousBurstPattern : Type 0 where
  pub burst_start_ts : String
  pub burst_duration_s : ℕ
  pub targeted_message_ids : List String
  pub missed_count : ℕ
  pub timing_trace_uri : Option String

pub record FloodMitigationApplied : Type 0 where
  pub mitigation_type : String
  pub cause_event_id : String
  pub policy_id : String
  pub pre_mitigation_metrics : String
  pub post_mitigation_metrics : String
  pub action_status : String

pub data EventPayload : Type 0 where
  radio_packet_flood_start : RadioPacketFloodStart → EventPayload
  high_broadcast_storm : HighBroadcastStorm → EventPayload
  protocol_conformant_flood : ProtocolConformantFlood → EventPayload
  rapid_source_switching : RapidSourceSwitching → EventPayload
  control_channel_starvation : ControlChannelStarvation → EventPayload
  sensor_resource_exhaustion : SensorResourceExhaustion → EventPayload
  packet_replay_flood : PacketReplayFlood → EventPayload
  channel_jamming_indication : ChannelJammingIndication → EventPayload
  anomalous_burst_pattern : AnomalousBurstPattern → EventPayload
  flood_mitigation_applied : FloodMitigationApplied → EventPayload

pub record SensorEvent : Type 0 where
  pub event_id : String
  pub event_name : String
  pub severity : Severity
  pub timestamp : String
  pub vehicle_id_hash : String
  pub iface : String
  pub payload : EventPayload

pub record IdsmMessage : Type 0 where
  pub seq_no : ℕ
  pub ttl_ms : ℕ
  pub sensor_id : String
  pub sensor_cert_id : String
  pub signature : List ℕ
  pub event : SensorEvent
