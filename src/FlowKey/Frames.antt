-- ===== src/FlowKey/Frames.antt =====
-- The flow key parser against the frames that carry a key: an IPv4 header with any options, in an
-- Ethernet II frame or bare.
use nids.Prelude.{
  ℕ, ◌+◌, ◌*◌, ◌/◌, ◌%◌, ◌^◌, ◌≤◌, ◌<◌, ◌≡◌, ◌≢◌, ◌⊎◌, ap, false, List, ◌∷◌, ◌++◌, length, drop,
  get_or, ltb, arith, length-append, drop-append, get_or-append, drop-append_add, length-drop,
}
use nids.Prelude.Outcome.{returns, bind-returns, byte-at, slice_from-eq}
use nids.Prelude.Bytes.{be16_of, be32_of, read_be16-at, read_be32-at}
use nids.FlowKey.{FlowKey, ok, parse_ports, parse_ipv4, parse_flow_key}
use nids.FlowKey.Safety.{parse_flow_key-eq}

-- The key that an IPv4 header of `ihl` bytes and the ports behind it hold.
abbrev pub key_of : List ℕ → ℕ → FlowKey
key_of ip ihl = (be32_of ip 12, be16_of (drop ihl ip) 0, be32_of ip 16, be16_of (drop ihl ip) 2)

-- A whole IPv4 header that carries TCP or UDP, with the ports behind it.
pub record CarriesPorts (ip : List ℕ) : Type 0 where
  pub version : get_or ip 0 0 / 16 ≡ 4
  pub header : 20 ≤ get_or ip 0 0 % 16 * 4
  pub ports : get_or ip 0 0 % 16 * 4 + 4 ≤ length ip
  pub protocol : (get_or ip 9 0 ≡ 6) ⊎ (get_or ip 9 0 ≡ 17)

pub parse_ports-eq :
    (ip : List ℕ) (ihl : ℕ)
    → 20 ≤ ihl
    → ihl + 4 ≤ length ip
    → parse_ports ip ihl ≡ returns (ok (key_of ip ihl))
unfolding parse_ports
parse_ports-eq ip ihl h k =
    let short : ltb (length (drop ihl ip)) 4 ≡ false = ground (arith, length-drop ihl ip) in
    simp (read_be32-at ip 20 (omega arith), slice_from-eq ip ihl (omega arith), bind-returns)
      (rw short
        (simp (read_be16-at (drop ihl ip) 4 (omega (arith, length-drop ihl ip)), bind-returns)))

pub parse_ipv4-ok :
    (ip : List ℕ)
    → CarriesPorts ip
    → parse_ipv4 ip ≡ returns (ok (key_of ip (get_or ip 0 0 % 16 * 4)))
unfolding parse_ipv4
parse_ipv4-ok ip c =
    let long : 20 ≤ length ip = omega arith in
    let test : ltb (length ip) 20 ≡ false = ground arith in
    rw test (
      simp (byte-at ip 20 long, bind-returns)
        (ground (arith, parse_ports-eq ip (get_or ip 0 0 % 16 * 4))))

-- A header with `k` words of options, the source and destination ports, and what follows.
-- The fields that the parser does not read are any bytes.
pub record Segment : Type 0 where
  pub tos : ℕ
  pub before_protocol : ℕ × ℕ × ℕ × ℕ × ℕ × ℕ × ℕ
  pub protocol : ℕ
  pub checksum : ℕ × ℕ
  pub option_words : ℕ
  pub options : List ℕ
  pub rest : List ℕ

pub record IsSegment (s : Segment) : Type 0 where
  pub protocol : (s.protocol ≡ 6) ⊎ (s.protocol ≡ 17)
  pub words : s.option_words ≤ 10
  pub options : length s.options ≡ 4 * s.option_words

-- The numbers of a key that fit their widths.
pub record IsKey (key : FlowKey) : Type 0 where
  pub src_ip : key.0 < 2 ^ 32
  pub src_port : key.1 < 2 ^ 16
  pub dst_ip : key.2 < 2 ^ 32
  pub dst_port : key.3 < 2 ^ 16

abbrev pub encode_header : FlowKey → Segment → List ℕ
encode_header (src_ip, src_port, dst_ip, dst_port) s =
    (0x45 + s.option_words)
    ∷ s.tos
    ∷ s.before_protocol.0
    ∷ s.before_protocol.1
    ∷ s.before_protocol.2
    ∷ s.before_protocol.3
    ∷ s.before_protocol.4
    ∷ s.before_protocol.5
    ∷ s.before_protocol.6
    ∷ s.protocol
    ∷ s.checksum.0
    ∷ s.checksum.1
    ∷ (src_ip / 2 ^ 24)
    ∷ (src_ip / 2 ^ 16 % 256)
    ∷ (src_ip / 2 ^ 8 % 256)
    ∷ (src_ip % 256)
    ∷ (dst_ip / 2 ^ 24)
    ∷ (dst_ip / 2 ^ 16 % 256)
    ∷ (dst_ip / 2 ^ 8 % 256)
    ∷ (dst_ip % 256)
    ∷ s.options

abbrev pub encode_ports : FlowKey → Segment → List ℕ
encode_ports (src_ip, src_port, dst_ip, dst_port) s =
    (src_port / 256) ∷ (src_port % 256) ∷ (dst_port / 256) ∷ (dst_port % 256) ∷ s.rest

abbrev pub encode : FlowKey → Segment → List ℕ
encode key s = encode_header key s ++ encode_ports key s

encode-CarriesPorts : (key : FlowKey) (s : Segment) → IsSegment s → CarriesPorts (encode key s)
encode-CarriesPorts (src_ip, src_port, dst_ip, dst_port) s h = record {
  version = omega arith;
  header = omega arith;
  ports =
      omega (arith, length-append s.options (encode_ports (src_ip, src_port, dst_ip, dst_port) s));
  protocol = h.protocol;
}

key_of-encode :
    (key : FlowKey) (s : Segment)
    → IsKey key
    → IsSegment s
    → key_of (encode key s) (length (encode_header key s)) ≡ key
key_of-encode (src_ip, src_port, dst_ip, dst_port) s k h =
    rw (drop-append (encode_header (src_ip, src_port, dst_ip, dst_port) s)) (ground arith)

pub parse_ipv4-encode :
    (key : FlowKey) (s : Segment)
    → IsKey key
    → IsSegment s
    → parse_ipv4 (encode key s) ≡ returns (ok key)
parse_ipv4-encode key s k h =
    let e : get_or (encode key s) 0 0 % 16 * 4 ≡ length (encode_header key s) = omega arith in
    rw (parse_ipv4-ok (encode key s) (encode-CarriesPorts key s h), e)
      (ap (λ k. returns (ok k)) (key_of-encode key s k h))

-- An Ethernet II header for IPv4: two addresses of six bytes, and the EtherType.
abbrev pub ethernet : List ℕ → List ℕ → List ℕ
ethernet macs packet = macs ++ (0x08 ∷ 0x00 ∷ packet)

pub ethernet_parts :
    (macs packet : List ℕ)
    → length macs ≡ 12
    → (get_or (ethernet macs packet) 12 0 ≡ 0x08)
      × (get_or (ethernet macs packet) 13 0 ≡ 0x00)
      × (drop 14 (ethernet macs packet) ≡ packet)
      × (14 ≤ length (ethernet macs packet))
ethernet_parts macs packet h =
    let at_12 : 12 ≡ length macs + 0 = omega arith in
    let at_13 : 13 ≡ length macs + 1 = omega arith in
    let at_14 : 14 ≡ length macs + 2 = omega arith in
    (
      rw at_12 (get_or-append macs (0x08 ∷ 0x00 ∷ packet) 0 0),
      rw at_13 (get_or-append macs (0x08 ∷ 0x00 ∷ packet) 1 0),
      rw at_14 (drop-append_add macs (0x08 ∷ 0x00 ∷ packet) 2),
      omega (arith, length-append macs (0x08 ∷ 0x00 ∷ packet)),
    )

-- The parser returns the key that an Ethernet frame with a TCP or UDP segment was built from,
-- whatever the header's other fields and options are.
pub parse_flow_key-ethernet :
    (macs : List ℕ) (key : FlowKey) (s : Segment)
    → length macs ≡ 12
    → IsKey key
    → IsSegment s
    → parse_flow_key (ethernet macs (encode key s)) ≡ returns (ok key)
parse_flow_key-ethernet macs key s m k h =
    let (hi, lo, tail, long) = ethernet_parts macs (encode key s) m in
    rw (parse_flow_key-eq (ethernet macs (encode key s)), hi, lo, tail)
      (ground (arith, parse_ipv4-encode key s k h))

-- The same segment with no Ethernet header gives the same key, unless the source address begins
-- with 8.0.
pub parse_flow_key-bare :
    (key : FlowKey) (s : Segment)
    → IsKey key
    → IsSegment s
    → key.0 / 2 ^ 16 ≢ 0x0800
    → parse_flow_key (encode key s) ≡ returns (ok key)
parse_flow_key-bare key s k h no8 =
    rw (parse_flow_key-eq (encode key s)) (ground (arith, parse_ipv4-encode key s k h))
