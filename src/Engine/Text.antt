-- ===== src/Engine/Text.antt =====
-- The standard library's text that src/engine.rs uses: literals, decimal and hexadecimal numbers,
-- `parse::<u16>`, `to_lowercase` as far as a comparison with lower-case ASCII words sees it.
use nids.Prelude.{
  ℕ, zero, suc, ◌+◌, ◌-◌, ◌*◌, ◌/◌, ◌%◌, ◌^◌, ◌≡◌, ◌↔◌, Bool, true, false, ◌&&◌, Option, none, some,
  List, [], ◌∷◌, map, leb, ltb, ◌==◌, if◌then◌else◌, arith,
}
use nids.Prelude.Assoc.{Eq}
use nids.Parser.Link.{String}
use Prim.Native.Char.{code}
use Prim.Native.String as Literal

-- The bytes of an ASCII literal.
abbrev pub text : Literal.String → String
text Literal.String.[] = []
text (Literal.String.◌∷◌ c s) = code c ∷ text s

abbrev pub string_equals : String → String → Bool
string_equals [] [] = true
string_equals [] (b ∷ t) = false
string_equals (a ∷ s) [] = false
string_equals (a ∷ s) (b ∷ t) = a == b && string_equals s t

pub string_equals_iff : (s t : String) → (string_equals s t ≡ true) ↔ (s ≡ t)
string_equals_iff [] [] = ground arith
string_equals_iff [] (b ∷ t) = ground arith
string_equals_iff (a ∷ s) [] = ground arith
string_equals_iff (a ∷ s) (b ∷ t) = ground (arith, string_equals_iff s t)

instance abbrev pub string_eq : Eq String
string_eq = record { eq = string_equals; eq_iff = string_equals_iff }

pub nat_equals_iff : (a b : ℕ) → ((a == b) ≡ true) ↔ (a ≡ b)
nat_equals_iff a b = ground arith

instance abbrev pub nat_eq : Eq ℕ
nat_eq = record { eq = ◌==◌; eq_iff = nat_equals_iff }

-- The digits of a `u64` are twenty at most.
unfoldable pub decimal_digits : ℕ → ℕ → String → String
decimal_digits zero n later = later
decimal_digits (suc k) n later =
    if ltb n 10 then (48 + n) ∷ later else decimal_digits k (n / 10) ((48 + n % 10) ∷ later)

unfoldable pub decimal : ℕ → String
unfolding decimal_digits
decimal n = decimal_digits 20 n []

abbrev pub hex_digit : ℕ → ℕ
hex_digit d = if ltb d 10 then 48 + d else 87 + d

-- `{:02x}` of a byte
abbrev pub hex_byte : ℕ → String
hex_byte b = hex_digit (b / 16) ∷ hex_digit (b % 16) ∷ []

-- `{:x}` of a `u16`
unfoldable pub hex_digits : ℕ → ℕ → String → String
hex_digits zero n later = later
hex_digits (suc k) n later =
    if ltb n 16 then hex_digit n ∷ later else hex_digits k (n / 16) (hex_digit (n % 16) ∷ later)

-- `char::to_digit`
unfoldable pub to_digit : ℕ → ℕ → Option ℕ
to_digit radix b =
    if leb 48 b && leb b 57
    then some (b - 48)
    else if radix == 16 && (leb 97 b && leb b 102)
    then some (b - 87)
    else if radix == 16 && (leb 65 b && leb b 70)
    then some (b - 55)
    else none

-- The digits that the text begins with, and what follows them.
unfoldable pub span_digits : ℕ → String → List ℕ × String
unfolding to_digit
span_digits radix [] = ([], [])
span_digits radix (b ∷ s) =
    let (digits, rest) = span_digits radix s in
    elim (to_digit radix b) [ none ↦ ([], b ∷ s) | some d ↦ (d ∷ digits, rest) ]

unfoldable pub number_of : ℕ → ℕ → List ℕ → ℕ
number_of radix n [] = n
number_of radix n (d ∷ digits) = number_of radix (n * radix + d) digits

-- `s.parse::<u16>()`: digits, after a plus sign or not.
unfoldable pub unsigned : String → String
unsigned [] = []
unsigned (b ∷ s) = if b == 43 then s else b ∷ s

-- All of the text is digits, one at least, and the number fits.
unfoldable pub whole_u16 : List ℕ → String → Option ℕ
unfolding number_of
whole_u16 [] rest = none
whole_u16 (d ∷ digits) (b ∷ rest) = none
whole_u16 (d ∷ digits) [] =
    let n = number_of 10 0 (d ∷ digits) in if ltb n (2 ^ 16) then some n else none

unfoldable pub parse_u16 : String → Option ℕ
unfolding span_digits unsigned whole_u16
parse_u16 s = let (digits, rest) = span_digits 10 (unsigned s) in whole_u16 digits rest

abbrev pub lower : ℕ → ℕ
lower b = if leb 65 b && leb b 90 then b + 32 else b

abbrev pub to_lowercase : String → String
to_lowercase s = map lower s
