-- ===== src/Prelude/Safe.antt =====
-- Going through code that may panic, one read, test or call at a time: what must hold of the
-- indices, and what is then known of the rest.
use nids.Prelude.{
  ℕ, ◌+◌, ◌-◌, ◌≤◌, ◌<◌, ◌≡◌, refl, Bool, true, false, Option, List, length, drop, arith,
  length-take, length-drop,
}
use nids.Prelude.Outcome.{
  Outcome, returns, ◌>>=◌, Runs, byte, slice, slice_from, byte-eq, slice-eq, slice_from-eq,
  bind-returns,
}
use nids.Prelude.Bytes.{
  read_be16, read_le16, read_be32, read_le32, read_be16-eq, read_le16-eq, read_be32-eq,
  read_le32-eq,
}
use nids.Prelude.Loop.{Gives, Gives-Runs, Gives-bind, Gives-returns, read_when, when◌then◌else◌}

-- Any value will do.
abbrev pub Any {ℓ} : {A : Type ℓ} → A → Type 0
Any a = Unit

pub Any-Runs {ℓ} : {A : Type ℓ} (m : Outcome A) → Gives Any m → Runs m
Any-Runs m h = Gives-Runs h

pub done {ℓ} : {A : Type ℓ} {a : A} → Gives Any (returns a)
done {a = a} = Gives-returns a tt

pub Gives-if {ℓ} :
    {A : Type ℓ} {P : A → Type 0} (c : Bool) {m n : Outcome A}
    → (c ≡ true → Gives P m)
    → (c ≡ false → Gives P n)
    → Gives P (when c then m else n)
unfolding when◌then◌else◌
Gives-if true h k = h refl
Gives-if false h k = k refl

-- A call of which no more is known than that it returns.
pub Gives-call {ℓ κ} :
    {A : Type ℓ} {B : Type κ} {P : B → Type 0} (m : Outcome A) {f : A → Outcome B}
    → Gives Any m
    → ((a : A) → Gives P (f a))
    → Gives P (m >>= f)
Gives-call m h k = Gives-bind m h (λ a _. k a)

-- The reads on their own.
pub byte-Gives : (xs : List ℕ) (i : ℕ) → i < length xs → Gives Any (byte xs i)
byte-Gives xs i h = rw (byte-eq xs i h) done

pub read_be16-Gives : (xs : List ℕ) (i : ℕ) → i + 1 < length xs → Gives Any (read_be16 xs i)
read_be16-Gives xs i h = rw (read_be16-eq xs i h) done

pub read_le16-Gives : (xs : List ℕ) (i : ℕ) → i + 1 < length xs → Gives Any (read_le16 xs i)
read_le16-Gives xs i h = rw (read_le16-eq xs i h) done

pub read_le32-Gives : (xs : List ℕ) (i : ℕ) → i + 3 < length xs → Gives Any (read_le32 xs i)
read_le32-Gives xs i h = rw (read_le32-eq xs i h) done

-- The slice as the last thing that is done.
pub Gives-slice_last : (xs : List ℕ) (a b : ℕ) → a ≤ b → b ≤ length xs → Gives Any (slice xs a b)
Gives-slice_last xs a b h k = rw (slice-eq xs a b h k) done

pub Gives-slice_from_last : (xs : List ℕ) (a : ℕ) → a ≤ length xs → Gives Any (slice_from xs a)
Gives-slice_from_last xs a h = rw (slice_from-eq xs a h) done

module _ {ℓ} {B : Type ℓ} {P : B → Type 0} where
  pub Gives-byte :
      (xs : List ℕ) (i : ℕ) {f : ℕ → Outcome B}
      → i < length xs
      → ((a : ℕ) → Gives P (f a))
      → Gives P (byte xs i >>= f)
  Gives-byte xs i h k = rw (byte-eq xs i h, bind-returns) (k _)

  pub Gives-be16 :
      (xs : List ℕ) (i : ℕ) {f : ℕ → Outcome B}
      → i + 1 < length xs
      → ((a : ℕ) → Gives P (f a))
      → Gives P (read_be16 xs i >>= f)
  Gives-be16 xs i h k = rw (read_be16-eq xs i h, bind-returns) (k _)

  pub Gives-le16 :
      (xs : List ℕ) (i : ℕ) {f : ℕ → Outcome B}
      → i + 1 < length xs
      → ((a : ℕ) → Gives P (f a))
      → Gives P (read_le16 xs i >>= f)
  Gives-le16 xs i h k = rw (read_le16-eq xs i h, bind-returns) (k _)

  pub Gives-be32 :
      (xs : List ℕ) (i : ℕ) {f : ℕ → Outcome B}
      → i + 3 < length xs
      → ((a : ℕ) → Gives P (f a))
      → Gives P (read_be32 xs i >>= f)
  Gives-be32 xs i h k = rw (read_be32-eq xs i h, bind-returns) (k _)

  pub Gives-le32 :
      (xs : List ℕ) (i : ℕ) {f : ℕ → Outcome B}
      → i + 3 < length xs
      → ((a : ℕ) → Gives P (f a))
      → Gives P (read_le32 xs i >>= f)
  Gives-le32 xs i h k = rw (read_le32-eq xs i h, bind-returns) (k _)

  pub Gives-slice :
      (xs : List ℕ) (a b : ℕ) {f : List ℕ → Outcome B}
      → a ≤ b
      → b ≤ length xs
      → ((ys : List ℕ) → length ys ≡ b - a → Gives P (f ys))
      → Gives P (slice xs a b >>= f)
  Gives-slice xs a b h h' k =
      rw (slice-eq xs a b h h', bind-returns)
        (k _ (ground (arith, length-take (b - a) (drop a xs), length-drop a xs)))

  pub Gives-slice_from :
      (xs : List ℕ) (a : ℕ) {f : List ℕ → Outcome B}
      → a ≤ length xs
      → ((ys : List ℕ) → length ys ≡ length xs - a → Gives P (f ys))
      → Gives P (slice_from xs a >>= f)
  Gives-slice_from xs a h k = rw (slice_from-eq xs a h, bind-returns) (k _ (length-drop a xs))

pub Gives-read_when {ℓ κ} :
    {A : Type ℓ} {B : Type κ} {P : B → Type 0} (c : Bool) (m : Outcome A) {f : Option A → Outcome B}
    → (c ≡ true → Gives Any m)
    → ((a : Option A) → Gives P (f a))
    → Gives P (read_when c m >>= f)
unfolding read_when
Gives-read_when c m h k =
    Gives-bind {P = Any} (read_when c m)
      (Gives-if c (λ t. Gives-call m (h t) (λ a. done)) (λ t. done)) (λ a _. k a)
