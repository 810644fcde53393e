-- ===== src/Prelude/Outcome.antt =====
-- Code that may panic: a value, or the panic of an index or a slice out of range.
-- The equations at the end remove a read where the bytes are known to be there.
use Prim.Native.Nat.{ℕ, ◌-◌, ◌≤◌, ◌<◌}
use mathlib.Core.Path.{◌≡◌, refl}
use mathlib.Core.Logic.{◌≢◌}
use mathlib.Core.List.{List}
use mathlib.Core.Bool.{true}
use native.Mathlib.Omega.{arith}
use nids.Prelude.Tests.{if◌then◌else◌, leb, ltb}
use nids.Prelude.Lists.{length, get_or, take, drop, length-take, length-drop}

pub data Outcome {ℓ} (A : Type ℓ) : Type ℓ where
  returns : A → Outcome A
  panics : Outcome A

infixl 5 ◌>>=◌
unfoldable pub ◌>>=◌ {ℓ κ} : {A : Type ℓ} {B : Type κ} → Outcome A → (A → Outcome B) → Outcome B
returns a >>= f = f a
panics >>= f = panics

pub bind-returns {ℓ κ} :
    {A : Type ℓ} {B : Type κ} (a : A) (f : A → Outcome B) → (returns a >>= f) ≡ f a
unfolding ◌>>=◌
bind-returns a f = refl

-- `m` does not panic.
abbrev pub Runs {ℓ} : {A : Type ℓ} → Outcome A → Type ℓ
Runs m = m ≢ panics

pub Runs-returns {ℓ} : {A : Type ℓ} (a : A) → Runs (returns a)
Runs-returns a = λ e. cc

pub Runs-bind {ℓ κ} :
    {A : Type ℓ} {B : Type κ} (m : Outcome A) (f : A → Outcome B)
    → Runs m
    → ((a : A) → m ≡ returns a → Runs (f a))
    → Runs (m >>= f)
unfolding ◌>>=◌
Runs-bind (returns a) f r k = k a refl
Runs-bind panics f r k = absurd (r refl)

-- `data[i]`, `&data[a..b]` and `&data[a..]`.
unfoldable pub byte : List ℕ → ℕ → Outcome ℕ
byte xs i = if ltb i (length xs) then returns (get_or xs i 0) else panics

unfoldable pub slice : List ℕ → ℕ → ℕ → Outcome (List ℕ)
slice xs a b =
    if leb a b
    then if leb b (length xs) then returns (take (b - a) (drop a xs)) else panics
    else panics

unfoldable pub slice_from : List ℕ → ℕ → Outcome (List ℕ)
slice_from xs a = if leb a (length xs) then returns (drop a xs) else panics

pub byte-eq : (xs : List ℕ) (i : ℕ) → i < length xs → byte xs i ≡ returns (get_or xs i 0)
unfolding byte
byte-eq xs i h = ground arith

pub slice-eq :
    (xs : List ℕ) (a b : ℕ)
    → a ≤ b
    → b ≤ length xs
    → slice xs a b ≡ returns (take (b - a) (drop a xs))
unfolding slice
slice-eq xs a b h k = ground arith

pub slice_from-eq : (xs : List ℕ) (a : ℕ) → a ≤ length xs → slice_from xs a ≡ returns (drop a xs)
unfolding slice_from
slice_from-eq xs a h = ground arith

-- The read and its continuation, where the code goes on with what was read.
module _ {ℓ} {B : Type ℓ} where
  pub byte-bind :
      (xs : List ℕ) (i : ℕ) (f : ℕ → Outcome B)
      → i < length xs
      → (byte xs i >>= f) ≡ f (get_or xs i 0)
  byte-bind xs i f h = simp (byte-eq xs i h, bind-returns)

  pub slice-bind :
      (xs : List ℕ) (a b : ℕ) (f : List ℕ → Outcome B)
      → a ≤ b
      → b ≤ length xs
      → (slice xs a b >>= f) ≡ f (take (b - a) (drop a xs))
  slice-bind xs a b f h k = simp (slice-eq xs a b h k, bind-returns)

  pub slice_from-bind :
      (xs : List ℕ) (a : ℕ) (f : List ℕ → Outcome B)
      → a ≤ length xs
      → (slice_from xs a >>= f) ≡ f (drop a xs)
  slice_from-bind xs a f h = simp (slice_from-eq xs a h, bind-returns)

-- With `n` bytes known to be there, a read at a numeral below `n` is removed by computation.
module _ (xs : List ℕ) (n : ℕ) (known : n ≤ length xs) where
  pub byte-at : (i : ℕ) → ltb i n ≡ true → byte xs i ≡ returns (get_or xs i 0)
  byte-at i h = byte-eq xs i (ground arith)

  pub slice-at :
      (a b : ℕ)
      → leb a b ≡ true
      → leb b n ≡ true
      → slice xs a b ≡ returns (take (b - a) (drop a xs))
  slice-at a b h k = slice-eq xs a b (ground arith) (ground arith)

  pub slice_from-at : (a : ℕ) → leb a n ≡ true → slice_from xs a ≡ returns (drop a xs)
  slice_from-at a h = slice_from-eq xs a (ground arith)

pub length-slice :
    (xs : List ℕ) (a b : ℕ) {ys : List ℕ} → slice xs a b ≡ returns ys → length ys ≡ b - a
unfolding slice
length-slice xs a b h = ground (arith, length-take (b - a) (drop a xs), length-drop a xs)

pub length-slice_from :
    (xs : List ℕ) (a : ℕ) {ys : List ℕ} → slice_from xs a ≡ returns ys → length ys ≡ length xs - a
unfolding slice_from
length-slice_from xs a h = ground (arith, length-drop a xs)
