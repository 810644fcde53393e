-- ===== src/Prelude/Bytes.antt =====
-- Numbers from bytes, and the shifts and masks of the source as quotients and remainders:
-- `x >> k` is `x / 2 ^ k`, `x & (2 ^ k - 1)` is `x % 2 ^ k`, and `x & (1 << k) != 0` is `bit x k`.
use nids.Prelude.{
  ℕ, suc, ◌+◌, ◌*◌, ◌/◌, ◌%◌, ◌^◌, ◌<◌, ◌≤◌, ◌≡◌, Bool, List, [], ◌∷◌, ltb, ◌==◌, arith, get_or,
  length, All, true, zero, drop,
}
use nids.Prelude.Outcome.{Outcome, returns, ◌>>=◌, byte, byte-eq, bind-returns}

abbrev pub IsByte : ℕ → Type 0
IsByte b = b < 256

-- `u16::from_be_bytes([a, b])` and its companions.
abbrev pub be16 : ℕ → ℕ → ℕ
be16 a b = a * 256 + b

abbrev pub be32 : ℕ → ℕ → ℕ → ℕ → ℕ
be32 a b c d = ((a * 256 + b) * 256 + c) * 256 + d

abbrev pub bit : ℕ → ℕ → Bool
bit x k = x / 2 ^ k % 2 == 1

-- The reads of two and of four bytes, each index checked.
unfoldable pub read_be16 : List ℕ → ℕ → Outcome ℕ
read_be16 xs i = do a ← byte xs i; b ← byte xs (i + 1); returns (be16 a b)

unfoldable pub read_le16 : List ℕ → ℕ → Outcome ℕ
read_le16 xs i = do a ← byte xs i; b ← byte xs (i + 1); returns (be16 b a)

unfoldable pub read_be32 : List ℕ → ℕ → Outcome ℕ
read_be32 xs i = do
  a ← byte xs i
  b ← byte xs (i + 1)
  c ← byte xs (i + 2)
  d ← byte xs (i + 3)
  returns (be32 a b c d)

unfoldable pub read_le32 : List ℕ → ℕ → Outcome ℕ
read_le32 xs i = do
  a ← byte xs i
  b ← byte xs (i + 1)
  c ← byte xs (i + 2)
  d ← byte xs (i + 3)
  returns (be32 d c b a)

-- What the reads return where the bytes are there.
abbrev pub be16_of : List ℕ → ℕ → ℕ
be16_of xs i = be16 (get_or xs i 0) (get_or xs (i + 1) 0)

abbrev pub le16_of : List ℕ → ℕ → ℕ
le16_of xs i = be16 (get_or xs (i + 1) 0) (get_or xs i 0)

abbrev pub be32_of : List ℕ → ℕ → ℕ
be32_of xs i =
    be32 (get_or xs i 0) (get_or xs (i + 1) 0) (get_or xs (i + 2) 0) (get_or xs (i + 3) 0)

abbrev pub le32_of : List ℕ → ℕ → ℕ
le32_of xs i =
    be32 (get_or xs (i + 3) 0) (get_or xs (i + 2) 0) (get_or xs (i + 1) 0) (get_or xs i 0)

pub read_be16-eq :
    (xs : List ℕ) (i : ℕ) → i + 1 < length xs → read_be16 xs i ≡ returns (be16_of xs i)
unfolding read_be16
read_be16-eq xs i h =
    simp (byte-eq xs i (omega arith), byte-eq xs (i + 1) (omega arith), bind-returns)

pub read_le16-eq :
    (xs : List ℕ) (i : ℕ) → i + 1 < length xs → read_le16 xs i ≡ returns (le16_of xs i)
unfolding read_le16
read_le16-eq xs i h =
    simp (byte-eq xs i (omega arith), byte-eq xs (i + 1) (omega arith), bind-returns)

pub read_be32-eq :
    (xs : List ℕ) (i : ℕ) → i + 3 < length xs → read_be32 xs i ≡ returns (be32_of xs i)
unfolding read_be32
read_be32-eq xs i h = simp (
  byte-eq xs i (omega arith),
  byte-eq xs (i + 1) (omega arith),
  byte-eq xs (i + 2) (omega arith),
  byte-eq xs (i + 3) (omega arith),
  bind-returns,
)

pub read_le32-eq :
    (xs : List ℕ) (i : ℕ) → i + 3 < length xs → read_le32 xs i ≡ returns (le32_of xs i)
unfolding read_le32
read_le32-eq xs i h = simp (
  byte-eq xs i (omega arith),
  byte-eq xs (i + 1) (omega arith),
  byte-eq xs (i + 2) (omega arith),
  byte-eq xs (i + 3) (omega arith),
  bind-returns,
)

-- With `n` bytes known to be there, a read at a numeral is removed by computation.
module _ (xs : List ℕ) (n : ℕ) (known : n ≤ length xs) where
  pub read_be16-at : (i : ℕ) → ltb (i + 1) n ≡ true → read_be16 xs i ≡ returns (be16_of xs i)
  read_be16-at i h = read_be16-eq xs i (ground arith)

  pub read_le16-at : (i : ℕ) → ltb (i + 1) n ≡ true → read_le16 xs i ≡ returns (le16_of xs i)
  read_le16-at i h = read_le16-eq xs i (ground arith)

  pub read_be32-at : (i : ℕ) → ltb (i + 3) n ≡ true → read_be32 xs i ≡ returns (be32_of xs i)
  read_be32-at i h = read_be32-eq xs i (ground arith)

  pub read_le32-at : (i : ℕ) → ltb (i + 3) n ≡ true → read_le32 xs i ≡ returns (le32_of xs i)
  read_le32-at i h = read_le32-eq xs i (ground arith)

-- A byte of a list of bytes is below 256, also where the list has ended.
pub get_or-IsByte : (xs : List ℕ) (i : ℕ) → All IsByte xs → get_or xs i 0 < 256
get_or-IsByte [] i h = omega arith
get_or-IsByte (x ∷ xs) zero h = h.0
get_or-IsByte (x ∷ xs) (suc i) h = get_or-IsByte xs i h.1

pub drop-IsByte : (n : ℕ) (xs : List ℕ) → All IsByte xs → All IsByte (drop n xs)
drop-IsByte zero xs h = h
drop-IsByte (suc n) [] h = h
drop-IsByte (suc n) (x ∷ xs) h = drop-IsByte n xs h.1

pub be16-lt : (a b : ℕ) → IsByte a → IsByte b → be16 a b < 2 ^ 16
be16-lt a b h k = omega arith

pub be32-lt : (a b c d : ℕ) → IsByte a → IsByte b → IsByte c → IsByte d → be32 a b c d < 2 ^ 32
be32-lt a b c d h i j k = omega arith
