-- ===== src/Parser/App.antt =====
-- `parse_dhcp`, `parse_eapol` and the application dispatcher of src/parser.rs.
pub mod Safety
use nids.Prelude.{
  ℕ, ◌+◌, ◌-◌, ◌*◌, ◌/◌, ◌%◌, Bool, true, false, not, ◌&&◌, ◌||◌, Option, none, some, List, [], ◌∷◌,
  length, leb, ltb, ◌==◌, if◌then◌else◌, replicate,
}
use nids.Prelude.Outcome.{Outcome, returns, ◌>>=◌, byte, slice}
use nids.Prelude.Bytes.{bit, read_be16, read_be32}
use nids.Prelude.Loop.{when◌then◌else◌, Step, goes_on, leaves, iterate}
use nids.Parser.Layers.{
  DhcpInfo, EapolInfo, dns_layer, dhcp_layer, eapol_layer, ParsedPacket, malform,
}
use nids.Parser.Text.{from_utf8_lossy, copy_mac}
use nids.Parser.Dns.{parse_dns}

unfoldable pub dhcp_option : ℕ → ℕ → List ℕ → DhcpInfo → Outcome DhcpInfo
dhcp_option opt_type opt_len opt_data info =
    when opt_type == 12
    then returns (record info { hostname = some (from_utf8_lossy opt_data) })
    else when opt_type == 51
    then when leb 4 opt_len
      then (do v ← read_be32 opt_data 0; returns (record info { lease_time = some v }))
      else returns info
    else when opt_type == 53
    then when leb 1 opt_len
      then (do v ← byte opt_data 0; returns (record info { message_type = some v }))
      else returns info
    else when opt_type == 54
    then when leb 4 opt_len
      then (do v ← read_be32 opt_data 0; returns (record info { server_ip = some v }))
      else returns info
    else when opt_type == 55
    then returns (record info { parameter_request_list = opt_data })
    else when opt_type == 58
    then when leb 4 opt_len
      then (do v ← read_be32 opt_data 0; returns (record info { renewal_time = some v }))
      else returns info
    else when opt_type == 60
    then returns (record info { vendor_class = some (from_utf8_lossy opt_data) })
    else returns info

-- One round over the options, with the offset and the options read so far.
unfoldable pub dhcp_round : List ℕ → ℕ × DhcpInfo → Outcome (Step (ℕ × DhcpInfo) DhcpInfo)
dhcp_round payload (offset, info) =
    when not (leb (offset + 1) (length payload)) then returns (leaves info) else do
      opt_type ← byte payload offset
      when opt_type == 255
          then returns (leaves info)
          else when opt_type == 0
          then returns (goes_on (offset + 1, info))
          else when ltb (length payload) (offset + 2)
          then returns (leaves info)
          else do
            opt_len ← byte payload (offset + 1)
            when ltb (length payload) (offset + 2 + opt_len) then returns (leaves info) else do
              opt_data ← slice payload (offset + 2) (offset + 2 + opt_len)
              info' ← dhcp_option opt_type opt_len opt_data info
              returns (goes_on (offset + (2 + opt_len), info'))

unfoldable pub parse_dhcp : List ℕ → Outcome (Option DhcpInfo)
parse_dhcp payload = when ltb (length payload) 240 then returns none else do
  -- magic != [0x63, 0x82, 0x53, 0x63]
  magic ← read_be32 payload 236
  when not (magic == 0x63825363) then returns none else do
    transaction_id ← read_be32 payload 4
    client_ip ← read_be32 payload 12
    your_ip ← read_be32 payload 16
    relay_ip ← read_be32 payload 24
    mac ← slice payload 28 34
    info ← iterate (length payload) (dhcp_round payload) (
      240,
      record {
        transaction_id = transaction_id;
        client_ip = client_ip;
        your_ip = your_ip;
        relay_ip = relay_ip;
        client_mac = copy_mac mac;
        message_type = none;
        server_ip = none;
        hostname = none;
        lease_time = none;
        renewal_time = none;
        vendor_class = none;
        parameter_request_list = [];
      },
    )
    returns (some info)

-- u64::from_be_bytes(rc_bytes)
unfoldable pub read_be64 : List ℕ → ℕ → Outcome ℕ
read_be64 xs i = do
  high ← read_be32 xs i
  low ← read_be32 xs (i + 4)
  returns (high * 4294967296 + low)

-- mic.copy_from_slice(&body[a..b]) where the body is long enough, and zeros where not.
unfoldable pub slice_or_zeros : List ℕ → ℕ → ℕ → Outcome (List ℕ)
slice_or_zeros body a b =
    when leb b (length body) then slice body a b else returns (replicate (b - a) 0)

unfoldable pub eapol_key : ℕ → ℕ → List ℕ → ParsedPacket → Outcome ParsedPacket
eapol_key version packet_type body pkt = do
  key_desc_type ← byte body 0
  key_info ← read_be16 body 1
  replay_counter ← read_be64 body 9
  key_nonce ← slice_or_zeros body 17 49
  key_iv ← slice_or_zeros body 49 65
  mic ← slice_or_zeros body 77 93
  key_data_len ← read_be16 body 95
  raw_key_data ←
      when leb (97 + key_data_len) (length body)
      then slice body 97 (97 + key_data_len)
      else returns []
  returns (record pkt {
    app = eapol_layer (record {
      version = version;
      packet_type = packet_type;
      key_desc_type = key_desc_type;
      key_info = key_info;
      descriptor_version = key_info % 8;
      install = bit key_info 6;
      key_ack = bit key_info 7;
      key_mic = bit key_info 8;
      secure = bit key_info 9;
      error = bit key_info 10;
      request = bit key_info 11;
      encrypted_key_data = bit key_info 12;
      replay_counter = replay_counter;
      key_nonce = key_nonce;
      key_iv = key_iv;
      mic = mic;
      raw_key_data = raw_key_data;
    });
  })

unfoldable pub parse_eapol : List ℕ → ParsedPacket → Outcome ParsedPacket
parse_eapol xs pkt = when ltb (length xs) 4 then returns (malform pkt) else do
  version ← byte xs 0
  packet_type ← byte xs 1
  len ← read_be16 xs 2
  when ltb (length xs) (4 + len) then returns (malform pkt) else do
    body ← slice xs 4 (4 + len)
    when (packet_type == 3) && leb 97 (length body)
        then eapol_key version packet_type body pkt
        else returns pkt

unfoldable pub parse_app_layer : ℕ → ℕ → List ℕ → ParsedPacket → Outcome ParsedPacket
parse_app_layer src_port dst_port payload pkt =
    when (src_port == 53) || (dst_port == 53)
    then (do
      result ← parse_dns payload
      returns (elim result [ none ↦ pkt | some dns ↦ record pkt { app = dns_layer dns } ]))
    else when ((src_port == 67) && (dst_port == 68)) || ((src_port == 68) && (dst_port == 67))
    then (do
      result ← parse_dhcp payload
      returns (elim result [ none ↦ pkt | some dhcp ↦ record pkt { app = dhcp_layer dhcp } ]))
    else returns pkt
