-- ===== src/Parser/Transport/Datagram.antt =====
-- `parse_udp` of src/parser.rs against an encoder of datagrams.
use nids.Prelude.{
  ℕ, ◌+◌, ◌-◌, ◌/◌, ◌%◌, ◌^◌, ◌<◌, ◌≤◌, ◌≡◌, ◌∙◌, ap, refl, false, ltb, ◌||◌, List, ◌∷◌, ◌++◌,
  length, arith, take-append, length-append,
}
use nids.Prelude.Outcome.{returns, slice, bind-returns, slice-eq}
use nids.Prelude.Bytes.{read_be16, read_be16-at}
use nids.Prelude.Loop.{when◌then◌else◌}
use nids.Parser.Layers.{ParsedPacket, UdpInfo, udp_layer}
use nids.Parser.App.{parse_app_layer}
use nids.Parser.Transport.{parse_udp}

-- The numbers of a datagram that fit their fields, its length among them.
pub record IsDatagram (info : UdpInfo) : Type 0 where
  pub src_port : info.src_port < 2 ^ 16
  pub dst_port : info.dst_port < 2 ^ 16
  pub len : info.len ≡ 8 + length info.payload
  pub len_fits : info.len < 2 ^ 16
  pub checksum : info.checksum < 2 ^ 16

abbrev pub encode_datagram : UdpInfo → List ℕ → List ℕ
encode_datagram info padding =
    info.src_port / 256
    ∷ info.src_port % 256
    ∷ info.dst_port / 256
    ∷ info.dst_port % 256
    ∷ info.len / 256
    ∷ info.len % 256
    ∷ info.checksum / 256
    ∷ info.checksum % 256
    ∷ (info.payload ++ padding)

encoded_payload :
    (info : UdpInfo) (padding : List ℕ)
    → IsDatagram info
    → slice (encode_datagram info padding) 8 info.len ≡ returns info.payload
encoded_payload info padding h =
    slice-eq (encode_datagram info padding) 8 info.len (omega arith)
      (omega (arith, h.len, length-append info.payload padding))
    ∙ (let e : info.len - 8 ≡ length info.payload = omega arith in
        rw e (ap returns (take-append info.payload padding)))

-- A datagram is decoded as it was encoded and its payload handed to the application layer, without
-- the bytes that the lower layer may have put behind it.
pub parse_udp-encode_datagram :
    (info : UdpInfo) (padding : List ℕ) (pkt : ParsedPacket)
    → IsDatagram info
    → parse_udp (encode_datagram info padding) pkt
      ≡ parse_app_layer info.src_port info.dst_port info.payload
          (record pkt { transport = udp_layer info })
unfolding parse_udp when◌then◌else◌
parse_udp-encode_datagram info padding pkt h =
    let xs = encode_datagram info padding in
    let long : 8 ≤ length xs = omega arith in
    let src : read_be16 xs 0 ≡ returns info.src_port =
      read_be16-at xs 8 long 0 refl ∙ ap returns (omega arith) in
    let dst : read_be16 xs 2 ≡ returns info.dst_port =
      read_be16-at xs 8 long 2 refl ∙ ap returns (omega arith) in
    let len : read_be16 xs 4 ≡ returns info.len =
      read_be16-at xs 8 long 4 refl ∙ ap returns (omega arith) in
    let sum : read_be16 xs 6 ≡ returns info.checksum =
      read_be16-at xs 8 long 6 refl ∙ ap returns (omega arith) in
    let whole : ltb (length xs) 8 ≡ false = ground arith in
    let fits : ltb info.len 8 || ltb (length xs) info.len ≡ false =
      ground (arith, h.len, length-append info.payload padding) in
    rw (
      whole,
      src,
      bind-returns,
      dst,
      bind-returns,
      len,
      bind-returns,
      sum,
      bind-returns,
      fits,
      encoded_payload info padding h,
      bind-returns,
    )
