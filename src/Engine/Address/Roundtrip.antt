-- ===== src/Engine/Address/Roundtrip.antt =====
-- The text of an IPv4 address read back.
use nids.Prelude.{
  subst, any, ℕ, suc, ◌+◌, ◌*◌, ◌/◌, ◌%◌, ◌^◌, ◌<◌, ◌≤◌, ◌≡◌, refl, ap, ◌∙◌, Bool, true, false, inl,
  inr, some, List, [], ◌∷◌, ◌++◌, ltb, Bool-cases, ltb→lt, ltb-false→le, arith,
}
use mathlib.Core.List.{append-nil}
use nids.Parser.Link.{String}
use nids.Engine.Text.{decimal, decimal_digits, span_digits, to_digit, number_of}
use nids.Engine.Address.{
  read_octet, read_separator, read_number, read_octets, read_ipv4_addr, read_ip_addr, parse_ip,
  show_ipv4, v4, IpAddr, is_self, ip_equals, dotted,
}

digits_one : (k n : ℕ) (later : String) → n < 10 → decimal_digits (suc k) n later ≡ (48 + n) ∷ later
unfolding decimal_digits
digits_one k n later h = ground arith

digits_more :
    (k n : ℕ) (later : String)
    → 10 ≤ n
    → decimal_digits (suc k) n later ≡ decimal_digits k (n / 10) ((48 + n % 10) ∷ later)
unfolding decimal_digits
digits_more k n later h = ground arith

to_digit_digit : (d : ℕ) → d < 10 → to_digit 10 (48 + d) ≡ some d
unfolding to_digit
to_digit_digit d h = ground arith

span_digits_digit :
    (d : ℕ) (s : String)
    → d < 10
    → span_digits 10 ((48 + d) ∷ s) ≡ (d ∷ (span_digits 10 s).0, (span_digits 10 s).1)
unfolding span_digits
span_digits_digit d s h = ground (arith, to_digit_digit d)

module _ (rest : String) (stops : span_digits 10 rest ≡ ([], rest)) where
  read_one : (n : ℕ) → n < 10 → read_number 10 3 false 256 ((48 + n) ∷ rest) ≡ some (n, rest)
  unfolding read_number number_of
  read_one n h = rw (span_digits_digit n rest h, stops) (ground arith)

  read_two :
      (a b : ℕ)
      → a < 10
      → 0 < a
      → b < 10
      → read_number 10 3 false 256 ((48 + a) ∷ (48 + b) ∷ rest) ≡ some (a * 10 + b, rest)
  unfolding read_number number_of
  read_two a b ha positive hb =
      rw (span_digits_digit a ((48 + b) ∷ rest) ha, span_digits_digit b rest hb, stops)
        (ground arith)

  read_three :
      (a b c : ℕ)
      → a < 10
      → 0 < a
      → b < 10
      → c < 10
      → (a * 10 + b) * 10 + c < 256
      → read_number 10 3 false 256 ((48 + a) ∷ (48 + b) ∷ (48 + c) ∷ rest)
        ≡ some ((a * 10 + b) * 10 + c, rest)
  unfolding read_number number_of
  read_three a b c ha positive hb hc h =
      rw
        (
          span_digits_digit a ((48 + b) ∷ (48 + c) ∷ rest) ha,
          span_digits_digit b ((48 + c) ∷ rest) hb,
          span_digits_digit c rest hc,
          stops,
        )
        (ground arith)

  read_number-decimal :
      (n : ℕ) → n < 256 → read_number 10 3 false 256 (decimal n ++ rest) ≡ some (n, rest)
  unfolding decimal
  read_number-decimal n h = elim (Bool-cases (ltb n 10)) [
    | inl t ↦ rw (digits_one 19 n [] (ltb→lt _ _ t)) (read_one n (ltb→lt _ _ t))
    | inr t ↦
        let ten : 10 ≤ n = ltb-false→le _ _ t in
        elim (Bool-cases (ltb n 100)) [
          | inl u ↦
              let few : n < 100 = ltb→lt _ _ u in
              let small : n / 10 < 10 = omega arith in
              let back : n / 10 * 10 + n % 10 ≡ n = omega arith in
              rw (digits_more 19 n [] ten, digits_one 18 (n / 10) ((48 + n % 10) ∷ []) small)
                (read_two (n / 10) (n % 10) small (omega arith) (omega arith)
                  ∙ ap (λ m. some (m, rest)) back)
          | inr u ↦
              let many : 100 ≤ n = ltb-false→le _ _ u in
              let small : n / 10 / 10 < 10 = omega arith in
              let back : (n / 10 / 10 * 10 + n / 10 % 10) * 10 + n % 10 ≡ n = omega arith in
              rw
                (
                  digits_more 19 n [] ten,
                  digits_more 18 (n / 10) ((48 + n % 10) ∷ []) (omega arith),
                  digits_one 17 (n / 10 / 10) ((48 + n / 10 % 10) ∷ (48 + n % 10) ∷ []) small,
                )
                (read_three (n / 10 / 10) (n / 10 % 10) (n % 10) small (omega arith) (omega arith)
                    (omega arith) (omega arith)
                  ∙ ap (λ m. some (m, rest)) back)
        ]
  ]

-- A full stop ends a number.
stop_ends : (s : String) → span_digits 10 (46 ∷ s) ≡ ([], 46 ∷ s)
unfolding span_digits to_digit
stop_ends s = refl

read_octet_head :
    (n : ℕ) (s : String) → n < 256 → read_octet true (decimal n ++ (46 ∷ s)) ≡ some (n, 46 ∷ s)
unfolding read_octet read_separator
read_octet_head n s h = read_number-decimal (46 ∷ s) (stop_ends s) n h

read_octet_inner :
    (n : ℕ) (s : String)
    → n < 256
    → read_octet false (46 ∷ (decimal n ++ (46 ∷ s))) ≡ some (n, 46 ∷ s)
unfolding read_octet read_separator
read_octet_inner n s h = read_number-decimal (46 ∷ s) (stop_ends s) n h

read_octet_last : (n : ℕ) → n < 256 → read_octet false (46 ∷ decimal n) ≡ some (n, [])
unfolding read_octet read_separator span_digits
read_octet_last n h =
    subst (λ s. read_number 10 3 false 256 s ≡ some (n, [])) (append-nil (decimal n))
      (read_number-decimal [] refl n h)

read_octets_step :
    (k n octet : ℕ) (is_first : Bool) (s rest : String)
    → read_octet is_first s ≡ some (octet, rest)
    → read_octets (suc k) is_first n s ≡ read_octets k false (n * 256 + octet) rest
unfolding read_octets
read_octets_step k n octet is_first s rest e = ground (arith, e)

read_octets_all : (n : ℕ) (s : String) → read_octets 0 false n s ≡ some (n, s)
unfolding read_octets
read_octets_all n s = refl

pub read_ipv4_addr-dotted :
    (a b c d : ℕ)
    → a < 256
    → b < 256
    → c < 256
    → d < 256
    → read_ipv4_addr (dotted a b c d) ≡ some (((a * 256 + b) * 256 + c) * 256 + d, [])
unfolding read_ipv4_addr
read_ipv4_addr-dotted a b c d ha hb hc hd =
    let last = 46 ∷ decimal d in
    let third = 46 ∷ (decimal c ++ last) in
    let second = 46 ∷ (decimal b ++ third) in
    let zero_first : 0 * 256 + a ≡ a = omega arith in
    read_octets_step 3 0 a true (decimal a ++ second) second
      (read_octet_head a (decimal b ++ third) ha)
    ∙ read_octets_step 2 (0 * 256 + a) b false second third
        (read_octet_inner b (decimal c ++ last) hb)
    ∙ read_octets_step 1 ((0 * 256 + a) * 256 + b) c false third last
        (read_octet_inner c (decimal d) hc)
    ∙ read_octets_step 0 (((0 * 256 + a) * 256 + b) * 256 + c) d false last []
        (read_octet_last d hd)
    ∙ read_octets_all ((((0 * 256 + a) * 256 + b) * 256 + c) * 256 + d) []
    ∙ ap (λ (x : ℕ). some (((x * 256 + b) * 256 + c) * 256 + d, [])) zero_first

parse_ip-v4 : (s : String) (n : ℕ) → read_ipv4_addr s ≡ some (n, []) → parse_ip s ≡ some (v4 n)
unfolding parse_ip read_ip_addr
parse_ip-v4 s n h = ground (arith, h)

-- Reading what an IPv4 address is shown as gives the address.
pub parse_ip-show_ipv4 : (ip : ℕ) → ip < 2 ^ 32 → parse_ip (show_ipv4 ip) ≡ some (v4 ip)
unfolding show_ipv4
parse_ip-show_ipv4 ip h =
    let back : ((ip / 2 ^ 24 * 256 + ip / 2 ^ 16 % 256) * 256 + ip / 2 ^ 8 % 256) * 256 + ip % 256
        ≡ ip =
      omega arith in
    let read =
      read_ipv4_addr-dotted (ip / 2 ^ 24) (ip / 2 ^ 16 % 256) (ip / 2 ^ 8 % 256) (ip % 256)
        (omega arith) (omega arith) (omega arith) (omega arith) in
    parse_ip-v4 (show_ipv4 ip) ip (read ∙ ap (λ (x : ℕ). some (x, [])) back)

is_self_parsed :
    (s : String) (ip : IpAddr) (self_ips : List IpAddr)
    → parse_ip s ≡ some ip
    → is_self s self_ips ≡ any (ip_equals ip) self_ips
unfolding is_self
is_self_parsed s ip self_ips h = ground (arith, h)

-- An IPv4 address is one of the interface's exactly when its number is, although the test goes by
-- its text.
pub is_self-show_ipv4 :
    (ip : ℕ) (self_ips : List IpAddr)
    → ip < 2 ^ 32
    → is_self (show_ipv4 ip) self_ips ≡ any (ip_equals (v4 ip)) self_ips
is_self-show_ipv4 ip self_ips h =
    is_self_parsed (show_ipv4 ip) (v4 ip) self_ips (parse_ip-show_ipv4 ip h)
