-- ===== src/Parser/Transport/Safety.antt =====
-- The reads of the transport layer of src/parser.rs on arbitrary bytes.
use nids.Prelude.{ℕ, ◌+◌, ◌-◌, ◌*◌, ◌/◌, ◌≤◌, ◌<◌, List, length, arith, ltb-false→le, leb→le}
use nids.Prelude.Loop.{Proceeds, Gives, Gives-returns, iterate-Gives}
use nids.Prelude.Safe.{
  Any, done, Gives-if, Gives-byte, Gives-be16, Gives-be32, Gives-slice, Gives-slice_from,
  Gives-slice_last, Gives-slice_from_last, Gives-call, Gives-read_when, read_be16-Gives,
}
use nids.Parser.Layers.{TcpOptions, ParsedPacket}
use nids.Parser.App.Safety.{parse_app_layer-Gives}
use nids.Parser.Transport.{
  sack_round, sack_option, tcp_option, tcp_option_round, parse_tcp_options, parse_tcp, parse_udp,
  parse_icmp, parse_transport,
}

sack_round-Gives :
    (block_data : List ℕ) (s : ℕ × List (ℕ × ℕ))
    → s.0 ≤ length block_data
    → Gives
        (Proceeds
          (λ (s : ℕ × List (ℕ × ℕ)). s.0 ≤ length block_data)
          (λ s. length block_data - s.0)
          Any
          (length block_data - s.0))
        (sack_round block_data s)
unfolding sack_round
sack_round-Gives block_data (i, blocks) h =
    Gives-if _
      (λ t.
        let k : i + 8 ≤ length block_data = leb→le _ _ t in
        Gives-be32 block_data i (omega arith) (λ left.
          Gives-be32 block_data (i + 4) (omega arith)
            (λ right. Gives-returns _ (omega arith, omega arith))))
      (λ t. Gives-returns _ tt)

sack_option-Gives : (xs : List ℕ) (opts : TcpOptions) → Gives Any (sack_option xs opts)
unfolding sack_option
sack_option-Gives xs opts =
    Gives-if _
      (λ t. Gives-byte xs 1 (ground arith) (λ len.
        Gives-if _
          (λ u. Gives-slice xs 2 len (ground arith) (ground arith) (λ block_data e.
            Gives-call _
              (iterate-Gives (sack_round block_data) (λ s. s.0 ≤ length block_data)
                (λ s. length block_data - s.0) Any (sack_round-Gives block_data)
                (length block_data + 1) _ (omega arith) (omega arith))
              (λ blocks. done)))
          (λ u. done)))
      (λ t. done)

tcp_option-Gives :
    (kind : ℕ) (xs : List ℕ) (opts : TcpOptions) → Gives Any (tcp_option kind xs opts)
unfolding tcp_option
tcp_option-Gives kind xs opts =
    Gives-if _ (λ t. Gives-if _ (λ u. Gives-be16 xs 2 (ground arith) (λ v. done)) (λ u. done))
      (λ t.
        Gives-if _ (λ t. Gives-if _ (λ u. Gives-byte xs 2 (ground arith) (λ v. done)) (λ u. done))
          (λ t.
            Gives-if _ (λ t. done)
              (λ t.
                Gives-if _ (λ t. sack_option-Gives xs opts)
                  (λ t.
                    Gives-if _
                      (λ t.
                        Gives-if _
                          (λ u.
                            Gives-be32 xs 2 (ground arith)
                              (λ val. Gives-be32 xs 6 (ground arith) (λ echo. done)))
                          (λ u. done))
                      (λ t. done)))))

tcp_option_round-Gives :
    (s : List ℕ × TcpOptions)
    → Unit {0}
    → Gives
        (Proceeds (λ (s : List ℕ × TcpOptions). Unit {0}) (λ s. length s.0) Any (length s.0))
        (tcp_option_round s)
unfolding tcp_option_round
tcp_option_round-Gives (xs, opts) h =
    Gives-if _ (λ t. Gives-returns _ tt)
      (λ t.
        let k : 0 < length xs = ground arith in
        Gives-byte xs 0 k (λ kind.
          Gives-if _ (λ u. Gives-returns _ tt)
            (λ u.
              Gives-if _
                (λ v.
                  Gives-slice_from xs 1 (omega arith) (λ rest e. Gives-returns _ (tt, omega arith)))
                (λ v. Gives-call _ (tcp_option-Gives kind xs opts) (λ opts'.
                  Gives-if _ (λ w. Gives-returns _ tt)
                    (λ w.
                      let k' : 2 ≤ length xs = ltb-false→le _ _ w in
                      Gives-byte xs 1 (omega arith) (λ len.
                        Gives-if _ (λ z. Gives-returns _ tt)
                          (λ z.
                            let k'' : (2 ≤ len) × (len ≤ length xs) = ground arith in
                            Gives-slice_from xs len k''.1
                              (λ rest e. Gives-returns _ (tt, omega arith))))))))))

-- Decoding TCP options returns, whatever lengths the options claim.
pub parse_tcp_options-Gives : (xs : List ℕ) → Gives Any (parse_tcp_options xs)
unfolding parse_tcp_options
parse_tcp_options-Gives xs =
    iterate-Gives tcp_option_round (λ s. Unit {0}) (λ s. length s.0) Any tcp_option_round-Gives
      (length xs + 1) _ tt (omega arith)

parse_tcp-Gives : (xs : List ℕ) (pkt : ParsedPacket) → Gives Any (parse_tcp xs pkt)
unfolding parse_tcp
parse_tcp-Gives xs pkt =
    Gives-if _ (λ t. done)
      (λ t.
        let k : 20 ≤ length xs = ltb-false→le _ _ t in
        Gives-be16 xs 0 (omega arith) (λ src_port. Gives-be16 xs 2 (omega arith) (λ dst_port.
          Gives-be32 xs 4 (omega arith) (λ seq. Gives-be32 xs 8 (omega arith) (λ ack.
            Gives-byte xs 12 (omega arith) (λ data_offset_byte.
              Gives-byte xs 13 (omega arith) (λ flag_byte.
                Gives-be16 xs 14 (omega arith) (λ window_size.
                  Gives-be16 xs 16 (omega arith) (λ checksum.
                    Gives-be16 xs 18 (omega arith) (λ urgent_pointer.
                      Gives-if _ (λ u. done)
                        (λ u.
                          let k' : (5 ≤ data_offset_byte / 16)
                              × (data_offset_byte / 16 * 4 ≤ length xs) =
                            ground arith in
                          Gives-slice xs 20 (data_offset_byte / 16 * 4) (omega arith) k'.1
                            (λ options_bytes e.
                              Gives-call _ (parse_tcp_options-Gives options_bytes) (λ options.
                                Gives-slice_from xs (data_offset_byte / 16 * 4) k'.1 (λ payload e'.
                                  parse_app_layer-Gives src_port dst_port payload _))))))))))))))

parse_udp-Gives : (xs : List ℕ) (pkt : ParsedPacket) → Gives Any (parse_udp xs pkt)
unfolding parse_udp
parse_udp-Gives xs pkt =
    Gives-if _ (λ t. done)
      (λ t.
        let k : 8 ≤ length xs = ltb-false→le _ _ t in
        Gives-be16 xs 0 (omega arith) (λ src_port. Gives-be16 xs 2 (omega arith) (λ dst_port.
          Gives-be16 xs 4 (omega arith) (λ len. Gives-be16 xs 6 (omega arith) (λ checksum.
            Gives-if _ (λ u. done)
              (λ u.
                Gives-slice xs 8 len (ground arith) (ground arith)
                  (λ payload e. parse_app_layer-Gives src_port dst_port payload _)))))))

parse_icmp-Gives : (xs : List ℕ) (pkt : ParsedPacket) → Gives Any (parse_icmp xs pkt)
unfolding parse_icmp
parse_icmp-Gives xs pkt =
    Gives-if _ (λ t. done)
      (λ t.
        let k : 4 ≤ length xs = ltb-false→le _ _ t in
        Gives-byte xs 0 (omega arith) (λ icmp_type. Gives-byte xs 1 (omega arith) (λ icmp_code.
          Gives-be16 xs 2 (omega arith) (λ checksum.
            Gives-read_when _ _ (λ u. read_be16-Gives xs 4 (ground arith))
              (λ identifier.
                Gives-read_when _ _ (λ u. read_be16-Gives xs 6 (ground arith))
                  (λ sequence_number.
                    Gives-read_when _ _ (λ u. read_be16-Gives xs 6 (ground arith))
                      (λ mtu.
                        Gives-read_when _ _
                          (λ u. Gives-slice_last xs 8 _ (ground arith) (omega arith))
                          (λ embedded_header.
                            Gives-call _
                              (Gives-if _ (λ u. Gives-slice_from_last xs 4 k) (λ u. done))
                              (λ payload. done)))))))))

pub parse_transport-Gives :
    (proto : ℕ) (xs : List ℕ) (pkt : ParsedPacket) → Gives Any (parse_transport proto xs pkt)
unfolding parse_transport
parse_transport-Gives proto xs pkt =
    Gives-if _ (λ t. parse_tcp-Gives xs pkt)
      (λ t.
        Gives-if _ (λ t. parse_udp-Gives xs pkt)
          (λ t. Gives-if _ (λ t. parse_icmp-Gives xs pkt) (λ t. done)))
