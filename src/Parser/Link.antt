-- ===== src/Parser/Link.antt =====
-- The types of src/parser.rs for the link layer: capture metadata, Ethernet, radiotap and the
-- 802.11 frame control. A hardware address is the list of its bytes, an `i8` an integer.
use nids.Prelude.{ℕ, Bool, Option, List}

-- Text is the list of its UTF-8 bytes.
abbrev pub String : Type 0
String = List ℕ

abbrev pub Mac : Type 0
Mac = List ℕ

pub data ℤ : Type 0 where
  pos : ℕ → ℤ
  negsuc : ℕ → ℤ

pub data LinkType : Type 0 where
  ethernet_link : LinkType
  wifi_80211_link : LinkType
  radiotap_wifi_link : LinkType
  unknown_link : LinkType

pub data Direction : Type 0 where
  ingress : Direction
  egress : Direction
  unknown_direction : Direction

pub record PacketMeta : Type 0 where
  pub timestamp_sec : ℕ
  pub timestamp_nsec : ℕ
  pub captured_len : ℕ
  pub original_len : ℕ
  pub interface_index : ℕ
  pub interface_name : String
  pub packet_number : ℕ
  pub direction : Direction

pub record EthernetInfo : Type 0 where
  pub ether_type : ℕ
  pub vlan_id : Option ℕ
  pub pcp : Option ℕ
  pub dei : Option Bool
  pub outer_vlan_id : Option ℕ
  pub outer_pcp : Option ℕ
  pub frame_length : ℕ
  pub fcs : Option ℕ

pub record RadiotapInfo : Type 0 where
  pub header_len : ℕ
  pub dbm_antsignal : Option ℤ
  pub channel : Option ℕ
  pub channel_flags : Option ℕ
  pub data_rate : Option ℕ
  pub noise_level : Option ℤ
  pub tx_power : Option ℤ
  pub rx_flags : Option ℕ
  pub antenna_index : Option ℕ
  pub mcs_index : Option ℕ
  pub bandwidth : Option ℕ
  pub timestamp : Option ℕ

pub record Wifi80211Header : Type 0 where
  pub protocol_version : ℕ
  pub frame_type : ℕ
  pub frame_subtype : ℕ
  pub to_ds : Bool
  pub from_ds : Bool
  pub more_fragments : Bool
  pub retry : Bool
  pub power_management : Bool
  pub more_data : Bool
  pub protected_frame : Bool
  pub order : Bool
  pub duration : ℕ
  pub sequence_number : ℕ
  pub fragment_number : ℕ
  pub qos_control : Option ℕ
  pub ht_control : Option ℕ
