-- ===== src/Engine/Address.antt =====
-- Addresses as text: `Display` of `Ipv4Addr` and `Ipv6Addr` and `parse::<IpAddr>` of the standard
-- library, and the helpers of src/engine.rs on them.
pub mod Roundtrip
use nids.Prelude.{
  ℕ, zero, suc, ◌+◌, ◌-◌, ◌*◌, ◌/◌, ◌%◌, ◌^◌, ◌≡◌, ◌↔◌, refl, Bool, true, false, not, ◌&&◌, Option,
  none, some, List, [], ◌∷◌, ◌++◌, map, any, leb, ltb, ◌==◌, if◌then◌else◌, arith, length, take,
  drop, get_or, replicate,
}
use nids.Prelude.Assoc.{Eq}
use nids.Parser.Link.{String, Mac}
use nids.Parser.Layers.{
  Ipv4Addr, Ipv6Addr, ParsedPacket, NetworkLayer, ipv4_layer, ipv6_layer, arp_layer, no_network,
}
use nids.Engine.Text.{
  text, string_equals, string_equals_iff, decimal, hex_byte, hex_digits, span_digits, number_of,
}

abbrev pub and_then {ℓ κ} : {A : Type ℓ} {B : Type κ} → Option A → (A → Option B) → Option B
and_then none f = none
and_then (some a) f = f a

abbrev pub or_else {ℓ} : {A : Type ℓ} → Option A → Option A → Option A
or_else none b = b
or_else (some a) b = some a

pub data IpAddr : Type 0 where
  v4 : Ipv4Addr → IpAddr
  v6 : Ipv6Addr → IpAddr

abbrev pub ip_equals : IpAddr → IpAddr → Bool
ip_equals (v4 a) (v4 b) = a == b
ip_equals (v4 a) (v6 b) = false
ip_equals (v6 a) (v4 b) = false
ip_equals (v6 a) (v6 b) = string_equals a b

-- `{}.{}.{}.{}`
abbrev pub dotted : ℕ → ℕ → ℕ → ℕ → String
dotted a b c d = decimal a ++ (46 ∷ (decimal b ++ (46 ∷ (decimal c ++ (46 ∷ decimal d)))))

-- `Ipv4Addr::to_string`
unfoldable pub show_ipv4 : Ipv4Addr → String
show_ipv4 ip = dotted (ip / 2 ^ 24) (ip / 2 ^ 16 % 256) (ip / 2 ^ 8 % 256) (ip % 256)

-- `Ipv6Addr::segments`
unfoldable pub segments : ℕ → List ℕ → List ℕ
segments zero octets = []
segments (suc n) octets = (get_or octets 0 0 * 256 + get_or octets 1 0) ∷ segments n (drop 2 octets)

-- Segments in hexadecimal with colons between them.
unfoldable pub show_segments : List ℕ → String
unfolding hex_digits
show_segments [] = []
show_segments (g ∷ []) = hex_digits 4 g []
show_segments (g ∷ h ∷ rest) = hex_digits 4 g [] ++ (58 ∷ show_segments (h ∷ rest))

-- The longest run of zero segments, its start and length; (start, len) is the run in progress.
unfoldable pub longest_zeroes : List ℕ → ℕ → ℕ × ℕ → ℕ × ℕ → ℕ × ℕ
longest_zeroes [] i current longest = longest
longest_zeroes (g ∷ rest) i (start, len) longest =
    let grown = if len == 0 then (i, 1) else (start, len + 1) in
    let current = if g == 0 then grown else (0, 0) in
    let best = if g == 0 && ltb longest.1 (len + 1) then grown else longest in
    longest_zeroes rest (i + 1) current best

-- An IPv4-mapped address is written `::ffff:a.b.c.d`.
unfoldable pub show_ipv6 : Ipv6Addr → String
unfolding segments show_segments longest_zeroes show_ipv4
show_ipv6 octets =
    let groups = segments 8 octets in
    let (start, len) = longest_zeroes groups 0 (0, 0) (0, 0) in
    if string_equals (take 12 octets) (replicate 10 0 ++ (255 ∷ 255 ∷ []))
    then text "::ffff:" ++ show_ipv4 ((get_or groups 6 0) * 2 ^ 16 + get_or groups 7 0)
    else if ltb 1 len
    then show_segments (take start groups) ++ text "::" ++ show_segments (drop (start + len) groups)
    else show_segments groups

-- `Parser::read_number`: a number below `limit` of at most `max_digits` digits.
unfoldable pub read_number : ℕ → ℕ → Bool → ℕ → String → Option (ℕ × String)
unfolding span_digits number_of
read_number radix max_digits allow_zero_prefix limit s =
    let (digits, rest) = span_digits radix s in
    let n = number_of radix 0 digits in
    if length digits == 0
    then none
    else if ltb max_digits (length digits)
    then none
    else if not allow_zero_prefix && (get_or digits 0 1 == 0 && ltb 1 (length digits))
    then none
    else if ltb n limit
    then some (n, rest)
    else none

-- `read_separator`: from the second item on, the separator stands before it.
unfoldable pub read_separator : ℕ → Bool → String → Option String
read_separator sep is_first s =
    if is_first
    then some s
    else elim s [ [] ↦ none | b ∷ rest ↦ if b == sep then some rest else none ]

unfoldable pub read_octet : Bool → String → Option (ℕ × String)
unfolding read_separator read_number
read_octet is_first s = elim (read_separator 46 is_first s) [
  | none ↦ none
  | some rest ↦ read_number 10 3 false 256 rest
]

unfoldable pub read_octets : ℕ → Bool → ℕ → String → Option (ℕ × String)
unfolding read_octet
read_octets zero is_first n s = some (n, s)
read_octets (suc k) is_first n s = elim (read_octet is_first s) [
  | none ↦ none
  | some (octet, rest) ↦ read_octets k false (n * 256 + octet) rest
]

-- `read_ipv4_addr`
unfoldable pub read_ipv4_addr : String → Option (ℕ × String)
unfolding read_octets
read_ipv4_addr s = read_octets 4 true 0 s

-- What `read_groups` read: the groups, whether they end in an IPv4 address, and what follows.
abbrev pub Groups : Type 0
Groups = List ℕ × Bool × String

-- `read_groups` with `n` groups of the limit left.
unfoldable pub read_groups : ℕ → Bool → String → Groups
unfolding read_separator read_number read_ipv4_addr
read_groups zero is_first s = ([], false, s)
read_groups (suc n) is_first s =
    let separated = read_separator 58 is_first s in
    let ipv4 = if ltb 0 n then and_then separated read_ipv4_addr else none in
    elim ipv4 [
      | some (ip, rest) ↦ ((ip / 2 ^ 16) ∷ (ip % 2 ^ 16) ∷ [], true, rest)
      | none ↦ elim (and_then separated (read_number 16 4 true (2 ^ 16))) [
        | none ↦ ([], false, s)
        | some (group, rest) ↦
            let (groups, is_v4, last) = read_groups n false rest in (group ∷ groups, is_v4, last)
      ]
    ]

abbrev pub octets_of : List ℕ → Ipv6Addr
octets_of [] = []
octets_of (g ∷ groups) = (g / 256) ∷ (g % 256) ∷ octets_of groups

-- `read_ipv6_addr` behind the head: `::` stands for the groups that are missing, one at least.
unfoldable pub read_tail : List ℕ → String → Option (IpAddr × String)
unfolding read_groups
read_tail head (a ∷ b ∷ s) =
    let (tail, is_v4, rest) = read_groups (7 - length head) true s in
    if a == 58 && b == 58
    then some (v6 (octets_of (head ++ replicate (8 - length head - length tail) 0 ++ tail)), rest)
    else none
read_tail head s = none

unfoldable pub read_ipv6_addr : String → Option (IpAddr × String)
unfolding read_groups read_tail
read_ipv6_addr s =
    let (head, is_v4, rest) = read_groups 8 true s in
    if length head == 8
    then some (v6 (octets_of head), rest)
    else if is_v4
    then none
    else read_tail head rest

unfoldable pub read_ip_addr : String → Option (IpAddr × String)
unfolding read_ipv4_addr read_ipv6_addr
read_ip_addr s = elim (read_ipv4_addr s) [
  | some (ip, rest) ↦ some (v4 ip, rest)
  | none ↦ read_ipv6_addr s
]

-- Nothing may follow the address.
abbrev pub whole : IpAddr × String → Option IpAddr
whole (ip, []) = some ip
whole (ip, b ∷ rest) = none

unfoldable pub parse_ip : String → Option IpAddr
unfolding read_ip_addr
parse_ip s = and_then (read_ip_addr s) whole

unfoldable pub format_mac : Mac → String
format_mac mac =
    hex_byte (get_or mac 0 0)
    ++ text ":"
    ++ hex_byte (get_or mac 1 0)
    ++ text ":"
    ++ hex_byte (get_or mac 2 0)
    ++ text ":"
    ++ hex_byte (get_or mac 3 0)
    ++ text ":"
    ++ hex_byte (get_or mac 4 0)
    ++ text ":"
    ++ hex_byte (get_or mac 5 0)

unfoldable pub src_ip_of : NetworkLayer → Mac → String
unfolding show_ipv4 show_ipv6 format_mac
src_ip_of (ipv4_layer ip) mac = show_ipv4 ip.src_ip
src_ip_of (ipv6_layer ip) mac = show_ipv6 ip.src_ip
src_ip_of (arp_layer arp) mac = show_ipv4 arp.sender_ip
src_ip_of no_network mac = format_mac mac

unfoldable pub dst_ip_of : NetworkLayer → Mac → String
unfolding show_ipv4 show_ipv6 format_mac
dst_ip_of (ipv4_layer ip) mac = show_ipv4 ip.dst_ip
dst_ip_of (ipv6_layer ip) mac = show_ipv6 ip.dst_ip
dst_ip_of (arp_layer arp) mac = show_ipv4 arp.target_ip
dst_ip_of no_network mac = format_mac mac

unfoldable pub resolve_src_ip : ParsedPacket → String
unfolding src_ip_of
resolve_src_ip pkt = src_ip_of pkt.network pkt.src_mac

unfoldable pub resolve_dst_ip : ParsedPacket → String
unfolding dst_ip_of
resolve_dst_ip pkt = dst_ip_of pkt.network pkt.dst_mac

-- `parse().ok().map(|ip| self_ips.contains(&ip)).unwrap_or(false)`
unfoldable pub is_self : String → List IpAddr → Bool
unfolding parse_ip
is_self s self_ips = elim (parse_ip s) [ none ↦ false | some ip ↦ any (ip_equals ip) self_ips ]

unfoldable pub ip_field_matches : String → String → List IpAddr → Bool
unfolding is_self
ip_field_matches field pkt_ip self_ips =
    if string_equals field (text "any")
    then true
    else if string_equals field (text "self")
    then is_self pkt_ip self_ips
    else string_equals field pkt_ip
