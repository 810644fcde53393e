-- ===== src/Parser/Network/Datagram.antt =====
-- `parse_ipv4` of src/parser.rs against an encoder of packets.
use nids.Prelude.{
  ℕ, ◌+◌, ◌-◌, ◌*◌, ◌/◌, ◌%◌, ◌^◌, ◌<◌, ◌≤◌, ◌≡◌, ◌∙◌, ap, refl, sym, true, false, not, inl, inr,
  get_or, ltb, ◌==◌, ◌||◌, min, List, [], ◌∷◌, ◌++◌, length, arith, take-append, drop-append,
  length-append, Bool-cases,
}
use nids.Prelude.Outcome.{Outcome, returns, slice, byte, bind-returns, slice-eq, byte-at}
use nids.Prelude.Bytes.{be16_of, be32_of, read_be16, read_be16-at, read_be32, read_be32-at}
use nids.Prelude.Loop.{when◌then◌else◌}
use nids.Parser.Layers.{ParsedPacket, Ipv4Info, ipv4_layer}
use nids.Parser.Transport.{parse_transport}
use nids.Parser.Network.{ipv4_body, parse_ipv4}

-- The numbers of an IPv4 header that fit their fields, its two lengths among them.
pub record IsIpv4 (info : Ipv4Info) : Type 0 where
  pub version : info.version ≡ 4
  pub ihl_least : 5 ≤ info.ihl
  pub ihl_most : info.ihl < 16
  pub ecn : info.ecn < 4
  pub total_length : info.total_length ≡ info.ihl * 4 + length info.payload
  pub total_fits : info.total_length < 2 ^ 16
  pub identification : info.identification < 2 ^ 16
  pub flags : info.flags < 8
  pub fragment_offset : info.fragment_offset < 2 ^ 13
  pub header_checksum : info.header_checksum < 2 ^ 16
  pub src_ip : info.src_ip < 2 ^ 32
  pub dst_ip : info.dst_ip < 2 ^ 32
  pub options : 20 + length info.options ≡ info.ihl * 4

abbrev pub encode_ipv4_header : Ipv4Info → List ℕ
encode_ipv4_header info =
    let frag = info.flags * 8192 + info.fragment_offset in
    (info.version * 16 + info.ihl)
    ∷ (info.dscp * 4 + info.ecn)
    ∷ info.total_length / 256
    ∷ info.total_length % 256
    ∷ info.identification / 256
    ∷ info.identification % 256
    ∷ frag / 256
    ∷ frag % 256
    ∷ info.ttl
    ∷ info.protocol
    ∷ info.header_checksum / 256
    ∷ info.header_checksum % 256
    ∷ info.src_ip / 2 ^ 24
    ∷ info.src_ip / 2 ^ 16 % 256
    ∷ info.src_ip / 2 ^ 8 % 256
    ∷ info.src_ip % 256
    ∷ info.dst_ip / 2 ^ 24
    ∷ info.dst_ip / 2 ^ 16 % 256
    ∷ info.dst_ip / 2 ^ 8 % 256
    ∷ info.dst_ip % 256
    ∷ info.options

abbrev pub encode_ipv4 : Ipv4Info → List ℕ → List ℕ
encode_ipv4 info padding = encode_ipv4_header info ++ (info.payload ++ padding)

module _ (info : Ipv4Info) (padding : List ℕ) (h : IsIpv4 info) where
  abbrev xs : List ℕ
  xs = encode_ipv4 info padding

  length-xs : length xs ≡ info.total_length + length padding
  length-xs = omega (
    arith,
    h.total_length,
    h.options,
    length-append info.options (info.payload ++ padding),
    length-append info.payload padding,
  )

  long : 20 ≤ length xs
  long = omega (arith, length-xs, h.total_length, h.ihl_least)

  slice-payload : slice xs (info.ihl * 4) info.total_length ≡ returns info.payload
  slice-payload =
      slice-eq xs (info.ihl * 4) info.total_length (omega (arith, h.total_length))
        (omega (arith, length-xs))
      ∙ (let e : info.total_length - info.ihl * 4 ≡ length info.payload =
            omega (arith, h.total_length) in
          let start : info.ihl * 4 ≡ length (encode_ipv4_header info) = omega (arith, h.options) in
          rw (e, start, drop-append (encode_ipv4_header info) (info.payload ++ padding))
            (ap returns (take-append info.payload padding)))

  no_options : (options : List ℕ) → length options ≡ 0 → options ≡ []
  no_options [] e = refl
  no_options (x ∷ options) e = absurd (omega arith)

  slice-options :
      (when ltb 20 (info.ihl * 4) then slice xs 20 (info.ihl * 4) else returns [])
      ≡ returns info.options
  unfolding when◌then◌else◌
  slice-options = elim (Bool-cases (ltb 20 (info.ihl * 4))) [
    | inl t ↦ rw t (
        slice-eq xs 20 (info.ihl * 4) (ground arith) (omega (arith, length-xs, h.total_length))
        ∙ (let e : info.ihl * 4 - 20 ≡ length info.options = omega (arith, h.options) in
            rw e (ap returns (take-append info.options (info.payload ++ padding)))))
    | inr t ↦
        let none_there : length info.options ≡ 0 = ground (arith, h.options) in
        rw t (ap returns (sym (no_options info.options none_there)))
  ]

  read_byte : (i v : ℕ) → ltb i 20 ≡ true → get_or xs i 0 ≡ v → byte xs i ≡ returns v
  read_byte i v t e = byte-at xs 20 long i t ∙ ap returns e

  read_word : (i v : ℕ) → ltb (i + 1) 20 ≡ true → be16_of xs i ≡ v → read_be16 xs i ≡ returns v
  read_word i v t e = read_be16-at xs 20 long i t ∙ ap returns e

  read_address : (i v : ℕ) → ltb (i + 3) 20 ≡ true → be32_of xs i ≡ v → read_be32 xs i ≡ returns v
  read_address i v t e = read_be32-at xs 20 long i t ∙ ap returns e

  abbrev decoded : ParsedPacket → Outcome ParsedPacket
  decoded pkt =
      parse_transport info.protocol info.payload (record pkt { network = ipv4_layer info })

  ipv4_body-encode : (pkt : ParsedPacket) → ipv4_body info.version info.ihl xs pkt ≡ decoded pkt
  unfolding ipv4_body when◌then◌else◌
  ipv4_body-encode pkt =
      let frag = info.flags * 8192 + info.fragment_offset in
      let whole : min (length xs) info.total_length ≡ info.total_length =
        omega (arith, length-xs) in
      let room : ltb info.total_length (info.ihl * 4) ≡ false = ground (arith, h.total_length) in
      let dscp : (info.dscp * 4 + info.ecn) / 4 ≡ info.dscp = omega (arith, h.ecn) in
      let ecn : (info.dscp * 4 + info.ecn) % 4 ≡ info.ecn = omega (arith, h.ecn) in
      let flags : frag / 8192 ≡ info.flags = omega (arith, h.fragment_offset) in
      let offset : frag % 8192 ≡ info.fragment_offset = omega (arith, h.fragment_offset) in
      rw (
        read_byte 1 (info.dscp * 4 + info.ecn) refl refl,
        bind-returns,
        read_word 2 info.total_length refl (omega arith),
        bind-returns,
        read_word 4 info.identification refl (omega arith),
        bind-returns,
        read_word 6 frag refl (omega arith),
        bind-returns,
        read_byte 8 info.ttl refl refl,
        bind-returns,
        read_byte 9 info.protocol refl refl,
        bind-returns,
        read_word 10 info.header_checksum refl (omega arith),
        bind-returns,
        read_address 12 info.src_ip refl (omega (arith, h.src_ip)),
        bind-returns,
        read_address 16 info.dst_ip refl (omega (arith, h.dst_ip)),
        bind-returns,
        slice-options,
        bind-returns,
        whole,
        room,
        slice-payload,
        bind-returns,
        dscp,
        ecn,
        flags,
        offset,
      )

  -- An IPv4 packet is decoded as it was encoded and its payload handed to the transport layer,
  -- without the padding that the link layer may have put behind it.
  pub parse_ipv4-encode_ipv4 :
      (pkt : ParsedPacket)
      → parse_ipv4 (encode_ipv4 info padding) pkt
        ≡ parse_transport info.protocol info.payload (record pkt { network = ipv4_layer info })
  unfolding parse_ipv4 when◌then◌else◌
  parse_ipv4-encode_ipv4 pkt =
      let whole : ltb (length xs) 20 ≡ false = ground (arith, long) in
      let version : (info.version * 16 + info.ihl) / 16 ≡ info.version =
        omega (arith, h.ihl_most) in
      let ihl : (info.version * 16 + info.ihl) % 16 ≡ info.ihl = omega (arith, h.ihl_most) in
      let good : not (info.version == 4) || (ltb info.ihl 5 || ltb (length xs) (info.ihl * 4))
          ≡ false =
        ground (arith, h.version, h.ihl_least, length-xs, h.total_length) in
      rw
        (
          whole,
          read_byte 0 (info.version * 16 + info.ihl) refl refl,
          bind-returns,
          version,
          ihl,
          good,
        )
        (ipv4_body-encode pkt)
