-- ===== src/Parser/Transport.antt =====
-- The transport layer of src/parser.rs: TCP with its options, UDP and ICMP.
pub mod Safety
pub mod Options
pub mod Datagram
use nids.Prelude.{
  ℕ, ◌+◌, ◌*◌, ◌/◌, ◌%◌, min, Bool, true, false, ◌&&◌, ◌||◌, Option, none, some, List, [], ◌∷◌,
  ◌++◌, length, leb, ltb, ◌==◌, if◌then◌else◌,
}
use nids.Prelude.Outcome.{Outcome, returns, ◌>>=◌, byte, slice, slice_from}
use nids.Prelude.Bytes.{be16, read_be16, read_be32}
use nids.Prelude.Loop.{when◌then◌else◌, Step, goes_on, leaves, iterate, read_when}
use nids.Parser.Layers.{
  TcpOptions, TcpInfo, UdpInfo, IcmpInfo, tcp_layer, udp_layer, icmp_layer, ParsedPacket, malform,
}
use nids.Parser.App.{parse_app_layer}

-- TcpOptions::default()
abbrev pub default_options : TcpOptions
default_options = record {
  mss = none;
  window_scale = none;
  sack_permitted = false;
  sack_blocks = [];
  timestamp = none;
}

-- One round over SACK blocks, with the index and the blocks pushed so far.
unfoldable pub sack_round :
    List ℕ → ℕ × List (ℕ × ℕ) → Outcome (Step (ℕ × List (ℕ × ℕ)) (List (ℕ × ℕ)))
sack_round block_data (i, blocks) =
    when leb (i + 8) (length block_data)
    then (do
      left ← read_be32 block_data i
      right ← read_be32 block_data (i + 4)
      returns (goes_on (i + 8, blocks ++ ((left, right) ∷ []))))
    else returns (leaves blocks)

unfoldable pub sack_option : List ℕ → TcpOptions → Outcome TcpOptions
sack_option xs opts =
    when leb 2 (length xs)
    then (do
      len ← byte xs 1
      when leb 2 len && leb len (length xs)
          then (do
            block_data ← slice xs 2 len
            blocks ← iterate (length block_data + 1) (sack_round block_data) (0, opts.sack_blocks)
            returns (record opts { sack_blocks = blocks }))
          else returns opts)
    else returns opts

-- What the option at the front sets, by its kind.
unfoldable pub tcp_option : ℕ → List ℕ → TcpOptions → Outcome TcpOptions
tcp_option kind xs opts =
    when kind == 2
    then when leb 4 (length xs)
      then (do v ← read_be16 xs 2; returns (record opts { mss = some v }))
      else returns opts
    else when kind == 3
    then when leb 3 (length xs)
      then (do v ← byte xs 2; returns (record opts { window_scale = some v }))
      else returns opts
    else when kind == 4
    then returns (record opts { sack_permitted = true })
    else when kind == 5
    then sack_option xs opts
    else when kind == 8
    then when leb 10 (length xs)
      then (do
        val ← read_be32 xs 2
        echo ← read_be32 xs 6
        returns (record opts { timestamp = some (val, echo) }))
      else returns opts
    else returns opts

-- One round over the options that are left.
unfoldable pub tcp_option_round :
    List ℕ × TcpOptions → Outcome (Step (List ℕ × TcpOptions) TcpOptions)
tcp_option_round (xs, opts) = when length xs == 0 then returns (leaves opts) else do
  kind ← byte xs 0
  when kind == 0
      then returns (leaves opts)
      else when kind == 1
      then (do rest ← slice_from xs 1; returns (goes_on (rest, opts)))
      else do
        opts' ← tcp_option kind xs opts
        when ltb (length xs) 2 then returns (leaves opts') else do
          len ← byte xs 1
          when ltb len 2 || ltb (length xs) len
              then returns (leaves opts')
              else (do rest ← slice_from xs len; returns (goes_on (rest, opts')))

unfoldable pub parse_tcp_options : List ℕ → Outcome TcpOptions
parse_tcp_options xs = iterate (length xs + 1) tcp_option_round (xs, default_options)

unfoldable pub parse_tcp : List ℕ → ParsedPacket → Outcome ParsedPacket
parse_tcp xs pkt = when ltb (length xs) 20 then returns (malform pkt) else do
  src_port ← read_be16 xs 0
  dst_port ← read_be16 xs 2
  seq ← read_be32 xs 4
  ack ← read_be32 xs 8
  data_offset_byte ← byte xs 12
  flag_byte ← byte xs 13
  window_size ← read_be16 xs 14
  checksum ← read_be16 xs 16
  urgent_pointer ← read_be16 xs 18
  let data_offset = data_offset_byte / 16
  when ltb data_offset 5 || ltb (length xs) (data_offset * 4) then returns (malform pkt) else do
    options_bytes ← slice xs 20 (data_offset * 4)
    options ← parse_tcp_options options_bytes
    payload ← slice_from xs (data_offset * 4)
    parse_app_layer src_port dst_port payload (record pkt {
      transport = tcp_layer (record {
        src_port = src_port;
        dst_port = dst_port;
        seq = seq;
        ack = ack;
        data_offset = data_offset;
        reserved = data_offset_byte % 16 / 2;
        flags = be16 (data_offset_byte % 2) flag_byte;
        window_size = window_size;
        checksum = checksum;
        urgent_pointer = urgent_pointer;
        options = options;
        payload = payload;
      });
    })

unfoldable pub parse_udp : List ℕ → ParsedPacket → Outcome ParsedPacket
parse_udp xs pkt = when ltb (length xs) 8 then returns (malform pkt) else do
  src_port ← read_be16 xs 0
  dst_port ← read_be16 xs 2
  len ← read_be16 xs 4
  checksum ← read_be16 xs 6
  when ltb len 8 || ltb (length xs) len then returns (malform pkt) else do
    payload ← slice xs 8 len
    parse_app_layer src_port dst_port payload (record pkt {
      transport = udp_layer (record {
        src_port = src_port;
        dst_port = dst_port;
        len = len;
        checksum = checksum;
        payload = payload;
      });
    })

unfoldable pub parse_icmp : List ℕ → ParsedPacket → Outcome ParsedPacket
parse_icmp xs pkt = when ltb (length xs) 4 then returns (malform pkt) else do
  icmp_type ← byte xs 0
  icmp_code ← byte xs 1
  checksum ← read_be16 xs 2
  let echo = ((icmp_type == 0) || (icmp_type == 8)) || ((icmp_type == 128) || (icmp_type == 129))
  let too_big = ((icmp_type == 3) && (icmp_code == 4)) || (icmp_type == 2)
  let embeds = (icmp_type == 3) || (icmp_type == 11)
  identifier ← read_when (echo && leb 8 (length xs)) (read_be16 xs 4)
  sequence_number ← read_when (echo && leb 8 (length xs)) (read_be16 xs 6)
  mtu ← read_when (too_big && leb 8 (length xs)) (read_be16 xs 6)
  embedded_header ← read_when (embeds && ltb 8 (length xs)) (slice xs 8 (min (length xs) (8 + 28)))
  payload ← when ltb 4 (length xs) then slice_from xs 4 else returns []
  returns (record pkt {
    transport = icmp_layer (record {
      icmp_type = icmp_type;
      icmp_code = icmp_code;
      checksum = checksum;
      identifier = identifier;
      sequence_number = sequence_number;
      mtu = mtu;
      embedded_header = embedded_header;
      payload = payload;
    });
  })

unfoldable pub parse_transport : ℕ → List ℕ → ParsedPacket → Outcome ParsedPacket
parse_transport proto xs pkt =
    when proto == 6
    then parse_tcp xs pkt
    else when proto == 17
    then parse_udp xs pkt
    else when (proto == 1) || (proto == 58)
    then parse_icmp xs pkt
    else returns pkt
