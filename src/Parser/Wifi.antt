-- ===== src/Parser/Wifi.antt =====
-- `parse_80211_frame` of src/parser.rs: frame control, addresses, management and data frames.
pub mod Safety
use nids.Prelude.{
  ℕ, ◌+◌, ◌*◌, ◌/◌, ◌%◌, Bool, true, false, not, ◌&&◌, ◌||◌, Option, none, some, List, [], get_or,
  length, leb, ltb, ◌==◌, if◌then◌else◌, replicate,
}
use nids.Prelude.Outcome.{Outcome, returns, ◌>>=◌, byte, slice, slice_from}
use nids.Prelude.Bytes.{bit, read_be16, read_le16, read_le32}
use nids.Prelude.Loop.{when◌then◌else◌, read_when}
use nids.Parser.Link.{Mac, Wifi80211Header}
use nids.Parser.Mgmt.{WifiMgmtFrame}
use nids.Parser.Layers.{ParsedPacket, malform}
use nids.Parser.Text.{copy_mac}
use nids.Parser.Elements.{parse_wifi_ies}
use nids.Parser.Network.{parse_ethernet_payload}

unfoldable pub read_mac : List ℕ → ℕ → Outcome Mac
read_mac xs i = do mac ← slice xs i (i + 6); returns (copy_mac mac)

unfoldable pub is_some {ℓ} : {A : Type ℓ} → Option A → Bool
is_some none = false
is_some (some x) = true

-- Where the base header ends: behind a fourth address if there is one.
unfoldable pub base_end : Bool → List ℕ → ℕ
base_end addr4_present xs = if addr4_present && leb 30 (length xs) then 30 else 24

-- Where the optional control fields end.
unfoldable pub header_end : ℕ → Option ℕ → Option ℕ → ℕ
header_end start qos_control ht_control =
    start + (if is_some qos_control then 2 else 0) + (if is_some ht_control then 4 else 0)

unfoldable pub read_header : List ℕ → Outcome Wifi80211Header
read_header xs = do
  fc0 ← byte xs 0
  fc1 ← byte xs 1
  duration ← read_le16 xs 2
  seq_ctrl ← read_le16 xs 22
  let frame_type = fc0 / 4 % 4
  let frame_subtype = fc0 / 16 % 16
  let start = base_end (bit fc1 0 && bit fc1 1) xs
  qos_control ←
      read_when (((frame_type == 2) && bit frame_subtype 3) && leb (start + 2) (length xs))
        (read_le16 xs start)
  let after_qos = header_end start qos_control none
  ht_control ←
      read_when ((bit fc1 7 && is_some qos_control) && leb (after_qos + 4) (length xs))
        (read_le32 xs after_qos)
  returns (record {
    protocol_version = fc0 % 4;
    frame_type = frame_type;
    frame_subtype = frame_subtype;
    to_ds = bit fc1 0;
    from_ds = bit fc1 1;
    more_fragments = bit fc1 2;
    retry = bit fc1 3;
    power_management = bit fc1 4;
    more_data = bit fc1 5;
    protected_frame = bit fc1 6;
    order = bit fc1 7;
    duration = duration;
    sequence_number = seq_ctrl / 16;
    fragment_number = seq_ctrl % 16;
    qos_control = qos_control;
    ht_control = ht_control;
  })

-- Source, destination and network addresses, by the two DS bits. The network's is always there.
unfoldable pub resolve_addresses : Bool → Bool → List ℕ → Outcome (Mac × Mac × Mac)
resolve_addresses to_ds from_ds xs = do
  addr1 ← read_mac xs 4
  addr2 ← read_mac xs 10
  addr3 ← read_mac xs 16
  when to_ds
      then when from_ds
        then when leb 30 (length xs)
          then (do addr4 ← read_mac xs 24; returns (addr4, addr3, addr1))
          else returns (addr2, addr1, addr3)
        else returns (addr2, addr3, addr1)
      else when from_ds
      then returns (addr3, addr1, addr2)
      else returns (addr2, addr1, addr3)

-- The frame that the match on the subtype begins with.
unfoldable pub empty_mgmt : ℕ → Mac → List ℕ → WifiMgmtFrame
empty_mgmt frame_subtype bssid body = record {
  subtype = frame_subtype;
  ssid = none;
  channel = none;
  rsn_info = none;
  reason_code = none;
  status_code = none;
  bssid = bssid;
  client_mac = none;
  raw_body = body;
  beacon_interval = none;
  capability_info = none;
  supported_rates = [];
  extended_supported_rates = [];
  country_info = none;
  tim = none;
  erp_info = none;
  ht_capabilities = none;
  ht_operation = none;
  vht_capabilities = none;
  vendor_ies = [];
}

-- `tag_offset`, where the elements of subtypes 0 to 5 begin.
unfoldable pub tag_offset : ℕ → ℕ
tag_offset frame_subtype =
    if frame_subtype == 0
    then 4
    else if frame_subtype == 2
    then 10
    else if (frame_subtype == 1) || (frame_subtype == 3)
    then 6
    else if frame_subtype == 5
    then 12
    else 0

-- The fixed fields in front of the elements of subtypes 0 to 5.
unfoldable pub fixed_fields : ℕ → List ℕ → WifiMgmtFrame → Outcome WifiMgmtFrame
fixed_fields frame_subtype body mgmt =
    when (frame_subtype == 0) || (frame_subtype == 2)
    then when leb 2 (length body)
      then (do v ← read_le16 body 0; returns (record mgmt { capability_info = some v }))
      else returns mgmt
    else when (frame_subtype == 1) || (frame_subtype == 3)
    then when leb 6 (length body)
      then (do
        capability ← read_le16 body 0
        status ← read_le16 body 2
        returns (record mgmt { capability_info = some capability; status_code = some status }))
      else returns mgmt
    else when frame_subtype == 5
    then when leb 12 (length body)
      then (do
        interval ← read_le16 body 8
        capability ← read_le16 body 10
        returns
            (record mgmt { beacon_interval = some interval; capability_info = some capability }))
      else returns mgmt
    else returns mgmt

-- Association, reassociation and probe frames.
unfoldable pub request_frame : ℕ → Mac → List ℕ → WifiMgmtFrame → Outcome WifiMgmtFrame
request_frame frame_subtype src body mgmt = do
  let named =
      ((frame_subtype == 0) || (frame_subtype == 2))
      || ((frame_subtype == 4) || (frame_subtype == 5))
  mgmt' ←
      fixed_fields frame_subtype body
        (if named then record mgmt { client_mac = some src } else mgmt)
  when leb (tag_offset frame_subtype) (length body)
      then (do rest ← slice_from body (tag_offset frame_subtype); parse_wifi_ies rest mgmt')
      else returns mgmt'

unfoldable pub beacon_frame : List ℕ → WifiMgmtFrame → Outcome WifiMgmtFrame
beacon_frame body mgmt =
    when leb 12 (length body)
    then (do
      interval ← read_le16 body 8
      capability ← read_le16 body 10
      rest ← slice_from body 12
      parse_wifi_ies rest
          (record mgmt { beacon_interval = some interval; capability_info = some capability }))
    else returns mgmt

-- The match on the subtype of a management frame.
unfoldable pub mgmt_frame : ℕ → Mac → Mac → List ℕ → WifiMgmtFrame → Outcome WifiMgmtFrame
mgmt_frame frame_subtype src dst body mgmt =
    when leb frame_subtype 5
    then request_frame frame_subtype src body mgmt
    else when frame_subtype == 8
    then beacon_frame body mgmt
    else when (frame_subtype == 10) || (frame_subtype == 12)
    then (do
      reason ← read_when (leb 2 (length body)) (read_le16 body 0)
      returns (record mgmt {
        reason_code = reason;
        client_mac = some (if frame_subtype == 12 then dst else src);
      }))
    else when frame_subtype == 11
    then (do
      status ← read_when (leb 6 (length body)) (read_le16 body 4)
      returns (record mgmt { status_code = status; client_mac = some src }))
    else returns mgmt

-- The body of an unprotected data frame, behind an LLC/SNAP header.
unfoldable pub llc_payload : List ℕ → ParsedPacket → Outcome ParsedPacket
llc_payload payload pkt = when not (leb 8 (length payload)) then returns pkt else do
  dsap ← byte payload 0
  ssap ← byte payload 1
  when (dsap == 0xAA) && (ssap == 0xAA)
      then (do
        eth_type ← read_be16 payload 6
        ip_payload ← slice_from payload 8
        parse_ethernet_payload eth_type ip_payload pkt)
      else returns pkt

unfoldable pub data_frame : Wifi80211Header → List ℕ → ParsedPacket → Outcome ParsedPacket
data_frame header xs pkt =
    let header_len =
      header_end (base_end (header.to_ds && header.from_ds) xs) header.qos_control
        header.ht_control in
    when ltb header_len (length xs)
    then (do
      payload ← slice_from xs header_len
      when header.protected_frame
          then returns (record pkt { raw_payload = payload })
          else llc_payload payload (record pkt { raw_payload = payload }))
    else returns pkt

unfoldable pub parse_80211_frame : List ℕ → ParsedPacket → Outcome ParsedPacket
parse_80211_frame xs pkt = when ltb (length xs) 24 then returns (malform pkt) else do
  header ← read_header xs
  addresses ← resolve_addresses header.to_ds header.from_ds xs
  let (src, dst, bssid) = addresses
  let pkt' = record pkt {
    wifi_header = some header;
    src_mac = src;
    dst_mac = dst;
    bssid = some bssid;
  }
  when header.frame_type == 0
      then (do
        body ← slice_from xs 24
        mgmt ←
            mgmt_frame header.frame_subtype src dst body
              (empty_mgmt header.frame_subtype bssid body)
        returns (record pkt' { wifi_mgmt = some mgmt }))
      else when header.frame_type == 2
      then data_frame header xs pkt'
      else returns pkt'
