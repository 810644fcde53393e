-- ===== src/Parser/Network/Safety.antt =====
-- The reads of the network layer of src/parser.rs, and of the Ethernet frame, on arbitrary bytes.
use nids.Prelude.{ℕ, ◌+◌, ◌-◌, ◌*◌, ◌%◌, ◌≤◌, min, List, length, arith, ltb-false→le}
use nids.Prelude.Loop.{Proceeds, Gives, Gives-returns, Gives-bind, iterate-Gives}
use nids.Prelude.Safe.{
  Any, done, Gives-if, Gives-byte, Gives-be16, Gives-be32, Gives-slice, Gives-slice_from,
  Gives-slice_last, Gives-call,
}
use nids.Parser.Link.{EthernetInfo}
use nids.Parser.Layers.{ParsedPacket}
use nids.Parser.App.Safety.{parse_eapol-Gives}
use nids.Parser.Transport.Safety.{parse_transport-Gives}
use nids.Parser.Network.{
  ipv4_body, parse_ipv4, ExtensionState, extension_round, parse_ipv6, parse_arp,
  parse_ethernet_payload, read_tag, outer_tag, inner_tag, parse_ethernet_frame,
}

ipv4_body-Gives :
    (version ihl : ℕ) (xs : List ℕ) (pkt : ParsedPacket)
    → 20 ≤ length xs
    → 5 ≤ ihl
    → ihl * 4 ≤ length xs
    → Gives Any (ipv4_body version ihl xs pkt)
unfolding ipv4_body
ipv4_body-Gives version ihl xs pkt h k k' = Gives-byte xs 1 (omega arith) (λ tos.
    Gives-be16 xs 2 (omega arith) (λ total_length. Gives-be16 xs 4 (omega arith) (λ identification.
      Gives-be16 xs 6 (omega arith) (λ flags_frag. Gives-byte xs 8 (omega arith) (λ ttl.
        Gives-byte xs 9 (omega arith) (λ protocol.
          Gives-be16 xs 10 (omega arith) (λ header_checksum.
            Gives-be32 xs 12 (omega arith) (λ src_ip. Gives-be32 xs 16 (omega arith) (λ dst_ip.
              Gives-call _
                (Gives-if _ (λ t. Gives-slice_last xs 20 (ihl * 4) (omega arith) k') (λ t. done))
                (λ options.
                  Gives-if _ (λ t. done)
                    (λ t.
                      Gives-slice xs (ihl * 4) _ (ltb-false→le _ _ t) (omega arith)
                        (λ payload e. parse_transport-Gives protocol payload _))))))))))))

parse_ipv4-Gives : (xs : List ℕ) (pkt : ParsedPacket) → Gives Any (parse_ipv4 xs pkt)
unfolding parse_ipv4
parse_ipv4-Gives xs pkt =
    Gives-if _ (λ t. done)
      (λ t.
        let k : 20 ≤ length xs = ltb-false→le _ _ t in
        Gives-byte xs 0 (omega arith) (λ ver_ihl.
          Gives-if _ (λ u. done)
            (λ u.
              let k' : (5 ≤ ver_ihl % 16) × (ver_ihl % 16 * 4 ≤ length xs) = ground arith in
              ipv4_body-Gives _ _ xs pkt k k'.0 k'.1)))

extension_round-Gives :
    (xs : List ℕ) (end_offset : ℕ) (s : ExtensionState)
    → end_offset ≤ length xs
    → s.off ≤ end_offset
    → Gives
        (Proceeds
          (λ (s : ExtensionState). s.off ≤ end_offset)
          (λ s. end_offset - s.off)
          (λ (s : ExtensionState). s.off ≤ end_offset)
          (end_offset - s.off))
        (extension_round xs end_offset s)
unfolding extension_round
extension_round-Gives xs end_offset s fits h =
    Gives-if _ (λ t. Gives-returns _ h)
      (λ t.
        Gives-if _ (λ t. Gives-returns _ h)
          (λ t.
            let k : s.off + 2 ≤ end_offset = ltb-false→le _ _ t in
            Gives-byte xs s.off (omega arith) (λ ext_next.
              Gives-byte xs (s.off + 1) (omega arith) (λ ext_len_byte.
                Gives-if _ (λ u. Gives-returns _ h)
                  (λ u.
                    let k' : s.off + (ext_len_byte + 1) * 8 ≤ end_offset = ltb-false→le _ _ u in
                    Gives-slice xs s.off (s.off + (ext_len_byte + 1) * 8) (omega arith)
                      (omega arith) (λ bytes e. Gives-returns _ (omega arith, omega arith)))))))

parse_ipv6-Gives : (xs : List ℕ) (pkt : ParsedPacket) → Gives Any (parse_ipv6 xs pkt)
unfolding parse_ipv6
parse_ipv6-Gives xs pkt =
    Gives-if _ (λ t. done)
      (λ t.
        let k : 40 ≤ length xs = ltb-false→le _ _ t in
        Gives-byte xs 0 (omega arith) (λ b0.
          Gives-if _ (λ u. done)
            (λ u. Gives-byte xs 1 (omega arith) (λ b1. Gives-byte xs 2 (omega arith) (λ b2.
              Gives-byte xs 3 (omega arith) (λ b3. Gives-be16 xs 4 (omega arith) (λ payload_length.
                Gives-byte xs 6 (omega arith) (λ next_header_initial.
                  Gives-byte xs 7 (omega arith) (λ hop_limit.
                    Gives-slice xs 8 24 (omega arith) (omega arith) (λ src_ip e.
                      Gives-slice xs 24 40 (omega arith) (omega arith) (λ dst_ip e'.
                        Gives-if _ (λ v. done)
                          (λ v.
                            let fits : min (length xs) (40 + payload_length) ≤ length xs =
                              omega arith in
                            Gives-bind _
                              (iterate-Gives (extension_round xs _)
                                (λ s. s.off ≤ min (length xs) (40 + payload_length))
                                (λ s. min (length xs) (40 + payload_length) - s.off)
                                (λ s. s.off ≤ min (length xs) (40 + payload_length))
                                (λ s h. extension_round-Gives xs _ s fits h) (length xs) _
                                (omega arith) (omega arith))
                              (λ s h. Gives-slice xs s.off _ h fits (λ payload e''.
                                parse_transport-Gives s.next_hdr payload _))))))))))))))

parse_arp-Gives : (xs : List ℕ) (pkt : ParsedPacket) → Gives Any (parse_arp xs pkt)
unfolding parse_arp
parse_arp-Gives xs pkt =
    Gives-if _ (λ t. done)
      (λ t.
        let k : 28 ≤ length xs = ltb-false→le _ _ t in
        Gives-be16 xs 0 (omega arith) (λ hw_type. Gives-be16 xs 2 (omega arith) (λ proto_type.
          Gives-byte xs 4 (omega arith) (λ hw_addr_len.
            Gives-byte xs 5 (omega arith) (λ proto_addr_len.
              Gives-be16 xs 6 (omega arith) (λ opcode.
                Gives-if _
                  (λ u. Gives-slice xs 8 14 (omega arith) (omega arith) (λ sender_mac e.
                    Gives-be32 xs 14 (omega arith) (λ sender_ip.
                      Gives-slice xs 18 24 (omega arith) (omega arith)
                        (λ target_mac e'. Gives-be32 xs 24 (omega arith) (λ target_ip. done)))))
                  (λ u. done)))))))

pub parse_ethernet_payload-Gives :
    (eth_type : ℕ) (payload : List ℕ) (pkt : ParsedPacket)
    → Gives Any (parse_ethernet_payload eth_type payload pkt)
unfolding parse_ethernet_payload
parse_ethernet_payload-Gives eth_type payload pkt =
    Gives-if _ (λ t. parse_ipv4-Gives payload pkt)
      (λ t.
        Gives-if _ (λ t. parse_ipv6-Gives payload pkt)
          (λ t.
            Gives-if _ (λ t. parse_arp-Gives payload pkt)
              (λ t. Gives-if _ (λ t. parse_eapol-Gives payload pkt) (λ t. done))))

read_tag-Gives :
    (xs : List ℕ) (offset : ℕ) → offset + 4 ≤ length xs → Gives Any (read_tag xs offset)
unfolding read_tag
read_tag-Gives xs offset h =
    Gives-be16 xs offset (omega arith)
      (λ tci. Gives-be16 xs (offset + 2) (omega arith) (λ eth_type. done))

outer_tag-Gives : (xs : List ℕ) (s : EthernetInfo × ℕ) → Gives Any (outer_tag xs s)
unfolding outer_tag
outer_tag-Gives xs (info, offset) =
    Gives-if _ (λ t. Gives-call _ (read_tag-Gives xs offset (ground arith)) (λ tag. done))
      (λ t. done)

inner_tag-Gives : (xs : List ℕ) (s : EthernetInfo × ℕ) → Gives Any (inner_tag xs s)
unfolding inner_tag
inner_tag-Gives xs (info, offset) =
    Gives-if _ (λ t. Gives-call _ (read_tag-Gives xs offset (ground arith)) (λ tag. done))
      (λ t. done)

pub parse_ethernet_frame-Gives :
    (xs : List ℕ) (pkt : ParsedPacket) → Gives Any (parse_ethernet_frame xs pkt)
unfolding parse_ethernet_frame
parse_ethernet_frame-Gives xs pkt =
    Gives-if _ (λ t. done)
      (λ t.
        let k : 14 ≤ length xs = ltb-false→le _ _ t in
        Gives-slice xs 0 6 (omega arith) (omega arith) (λ dst_mac e.
          Gives-slice xs 6 12 (omega arith) (omega arith) (λ src_mac e'.
            Gives-be16 xs 12 (omega arith) (λ eth_type.
              Gives-call _ (outer_tag-Gives xs _) (λ outer.
                Gives-call _ (inner_tag-Gives xs outer) (λ inner.
                  Gives-if _
                    (λ u.
                      Gives-slice_from xs inner.1 (ground arith)
                        (λ payload e''. parse_ethernet_payload-Gives _ payload _))
                    (λ u. done)))))))
