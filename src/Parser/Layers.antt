-- ===== src/Parser/Layers.antt =====
-- The types of src/parser.rs for the network, transport and application layers, and the packet
-- that holds them all. An `Ipv4Addr` is its 32-bit number, an `Ipv6Addr` the list of its 16 bytes;
-- a slice of the packet is a list of bytes.
use nids.Prelude.{ℕ, Bool, true, Option, List}
use nids.Parser.Link.{String, Mac, ℤ, LinkType, PacketMeta, EthernetInfo, Wifi80211Header}
use nids.Parser.Mgmt.{WifiMgmtFrame}

abbrev pub Ipv4Addr : Type 0
Ipv4Addr = ℕ

abbrev pub Ipv6Addr : Type 0
Ipv6Addr = List ℕ

pub record ArpInfo : Type 0 where
  pub hw_type : ℕ
  pub proto_type : ℕ
  pub hw_addr_len : ℕ
  pub proto_addr_len : ℕ
  pub opcode : ℕ
  pub sender_mac : Mac
  pub sender_ip : Ipv4Addr
  pub target_mac : Mac
  pub target_ip : Ipv4Addr

pub record Ipv4Info : Type 0 where
  pub version : ℕ
  pub ihl : ℕ
  pub dscp : ℕ
  pub ecn : ℕ
  pub total_length : ℕ
  pub identification : ℕ
  pub flags : ℕ
  pub fragment_offset : ℕ
  pub ttl : ℕ
  pub protocol : ℕ
  pub header_checksum : ℕ
  pub src_ip : Ipv4Addr
  pub dst_ip : Ipv4Addr
  pub options : List ℕ
  pub payload : List ℕ

pub record Ipv6ExtHeader : Type 0 where
  pub header_type : ℕ
  pub bytes : List ℕ

pub record Ipv6Info : Type 0 where
  pub version : ℕ
  pub traffic_class : ℕ
  pub flow_label : ℕ
  pub payload_length : ℕ
  pub next_header : ℕ
  pub hop_limit : ℕ
  pub src_ip : Ipv6Addr
  pub dst_ip : Ipv6Addr
  pub extension_headers : List Ipv6ExtHeader
  pub final_next_header : ℕ
  pub payload : List ℕ

pub data NetworkLayer : Type 0 where
  arp_layer : ArpInfo → NetworkLayer
  ipv4_layer : Ipv4Info → NetworkLayer
  ipv6_layer : Ipv6Info → NetworkLayer
  no_network : NetworkLayer

pub record TcpOptions : Type 0 where
  pub mss : Option ℕ
  pub window_scale : Option ℕ
  pub sack_permitted : Bool
  pub sack_blocks : List (ℕ × ℕ)
  pub timestamp : Option (ℕ × ℕ)

pub record TcpInfo : Type 0 where
  pub src_port : ℕ
  pub dst_port : ℕ
  pub seq : ℕ
  pub ack : ℕ
  pub data_offset : ℕ
  pub reserved : ℕ
  pub flags : ℕ
  pub window_size : ℕ
  pub checksum : ℕ
  pub urgent_pointer : ℕ
  pub options : TcpOptions
  pub payload : List ℕ

pub record UdpInfo : Type 0 where
  pub src_port : ℕ
  pub dst_port : ℕ
  pub len : ℕ
  pub checksum : ℕ
  pub payload : List ℕ

pub record IcmpInfo : Type 0 where
  pub icmp_type : ℕ
  pub icmp_code : ℕ
  pub checksum : ℕ
  pub identifier : Option ℕ
  pub sequence_number : Option ℕ
  pub mtu : Option ℕ
  pub embedded_header : Option (List ℕ)
  pub payload : List ℕ

pub data TransportLayer : Type 0 where
  tcp_layer : TcpInfo → TransportLayer
  udp_layer : UdpInfo → TransportLayer
  icmp_layer : IcmpInfo → TransportLayer
  no_transport : TransportLayer

pub record DnsRecord : Type 0 where
  pub name : String
  pub rtype : ℕ
  pub rclass : ℕ
  pub ttl : ℕ
  pub rdata : List ℕ

pub record DnsInfo : Type 0 where
  pub transaction_id : ℕ
  pub is_response : Bool
  pub opcode : ℕ
  pub aa : Bool
  pub tc : Bool
  pub rd : Bool
  pub ra : Bool
  pub rcode : ℕ
  pub question_count : ℕ
  pub answer_count : ℕ
  pub authority_count : ℕ
  pub additional_count : ℕ
  pub query : Option String
  pub query_type : Option ℕ
  pub query_class : Option ℕ
  pub answers : List DnsRecord

pub record DhcpInfo : Type 0 where
  pub transaction_id : ℕ
  pub client_ip : Ipv4Addr
  pub your_ip : Ipv4Addr
  pub relay_ip : Ipv4Addr
  pub client_mac : Mac
  pub message_type : Option ℕ
  pub server_ip : Option Ipv4Addr
  pub hostname : Option String
  pub lease_time : Option ℕ
  pub renewal_time : Option ℕ
  pub vendor_class : Option String
  pub parameter_request_list : List ℕ

pub record EapolInfo : Type 0 where
  pub version : ℕ
  pub packet_type : ℕ
  pub key_desc_type : ℕ
  pub key_info : ℕ
  pub descriptor_version : ℕ
  pub install : Bool
  pub key_ack : Bool
  pub key_mic : Bool
  pub secure : Bool
  pub error : Bool
  pub request : Bool
  pub encrypted_key_data : Bool
  pub replay_counter : ℕ
  pub key_nonce : List ℕ
  pub key_iv : List ℕ
  pub mic : List ℕ
  pub raw_key_data : List ℕ

pub data AppLayer : Type 0 where
  dns_layer : DnsInfo → AppLayer
  dhcp_layer : DhcpInfo → AppLayer
  eapol_layer : EapolInfo → AppLayer
  no_app : AppLayer

pub record ParsedPacket : Type 0 where
  pub meta : Option PacketMeta
  pub link_type : LinkType
  pub src_mac : Mac
  pub dst_mac : Mac
  pub bssid : Option Mac
  pub signal_dbm : Option ℤ
  pub channel : Option ℕ
  pub malformed : Bool
  pub ethernet : Option EthernetInfo
  pub wifi_header : Option Wifi80211Header
  pub network : NetworkLayer
  pub transport : TransportLayer
  pub app : AppLayer
  pub wifi_mgmt : Option WifiMgmtFrame
  pub raw_payload : List ℕ

-- pkt.malformed = true; return
abbrev pub malform : ParsedPacket → ParsedPacket
malform pkt = record pkt { malformed = true }
