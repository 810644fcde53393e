-- ===== src/Parser/Text.antt =====
-- `String::from_utf8_lossy` of the standard library, which src/parser.rs calls on names: text as
-- its UTF-8 bytes, each longest ill-formed piece replaced by U+FFFD. And `copy_mac`.
use nids.Prelude.{
  ℕ, zero, suc, not, ◌&&◌, Bool, true, false, List, [], ◌∷◌, ◌++◌, length, leb, ltb, ◌==◌,
  if◌then◌else◌, get_or, take, drop, replicate,
}

abbrev pub is_within : ℕ → ℕ → ℕ → Bool
is_within low high b = leb low b && leb b high

abbrev pub is_continuation : ℕ → Bool
is_continuation b = is_within 0x80 0xBF b

-- The first byte's sequence length, 0 for a byte that begins none.
unfoldable pub width : ℕ → ℕ
width b =
    if ltb b 0x80
    then 1
    else if is_within 0xC2 0xDF b
    then 2
    else if is_within 0xE0 0xEF b
    then 3
    else if is_within 0xF0 0xF4 b
    then 4
    else 0

-- Whether `b` may follow the first byte `a` of a sequence of three or four.
unfoldable pub may_follow : ℕ → ℕ → Bool
may_follow a b =
    if a == 0xE0
    then is_within 0xA0 0xBF b
    else if a == 0xED
    then is_within 0x80 0x9F b
    else if a == 0xF0
    then is_within 0x90 0xBF b
    else if a == 0xF4
    then is_within 0x80 0x8F b
    else is_continuation b

-- How many bytes the first piece of the text takes, and whether it is well-formed.
unfoldable pub first_piece : ℕ → List ℕ → ℕ × Bool
first_piece a rest =
    let b = get_or rest 0 0 in
    let c = get_or rest 1 0 in
    let d = get_or rest 2 0 in
    if width a == 1
    then (1, true)
    else if width a == 0
    then (1, false)
    else if not (may_follow a b)
    then (1, false)
    else if width a == 2
    then (2, true)
    else if not (is_continuation c)
    then (2, false)
    else if width a == 3
    then (3, true)
    else if not (is_continuation d)
    then (3, false)
    else (4, true)

-- U+FFFD
abbrev pub replacement : List ℕ
replacement = 0xEF ∷ 0xBF ∷ 0xBD ∷ []

-- Each round takes a byte at least, so as many rounds as there are bytes are enough.
unfoldable pub decode : ℕ → List ℕ → List ℕ
decode zero xs = []
decode (suc n) [] = []
decode (suc n) (x ∷ xs) =
    let (taken, valid) = first_piece x xs in
    (if valid then take taken (x ∷ xs) else replacement) ++ decode n (drop taken (x ∷ xs))

unfoldable pub from_utf8_lossy : List ℕ → List ℕ
from_utf8_lossy xs = decode (length xs) xs

unfoldable pub copy_mac : List ℕ → List ℕ
copy_mac slice = if leb 6 (length slice) then take 6 slice else replicate 6 0
