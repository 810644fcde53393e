-- ===== src/Engine/Float.antt =====
-- The `f64` of the engine's clock and intervals. Floating point is no code of the repository, so its
-- operations are a parameter, and a theorem that needs arithmetic takes the laws of IEEE 754 it uses.
use nids.Prelude.{ℕ, ◌^◌, ◌<◌, ◌≡◌, Bool, true, false, ltb}

-- `a - b`, `a < b`, an integral literal, and `is_finite`.
pub record F64 (F : Type 0) : Type 0 where
  pub sub : F → F → F
  pub lt : F → F → Bool
  pub of_nat : ℕ → F
  pub is_finite : F → Bool

-- Rounding is monotone: once a difference has reached a finite bound, it has reached every window
-- that is not above the bound whenever the first number has not gone down. The finite numbers are in
-- order, and the integers below 2^53 stand in it as themselves.
pub record IsIeee (F : Type 0) ⦃f : F64 F⦄ : Type 0 where
  pub sub_mono :
      (t now later bound window : F)
      → f.is_finite now ≡ true
      → f.is_finite bound ≡ true
      → f.lt later now ≡ false
      → f.lt bound window ≡ false
      → f.lt (f.sub now t) bound ≡ false
      → f.lt (f.sub later t) window ≡ false
  pub le_trans :
      (a b c : F) → f.is_finite b ≡ true → f.lt b a ≡ false → f.lt c b ≡ false → f.lt c a ≡ false
  pub lt_irrefl : (a : F) → f.lt a a ≡ false
  pub literal_finite : (n : ℕ) → n < 2 ^ 53 → f.is_finite (f.of_nat n) ≡ true
  pub literal_lt : (m n : ℕ) → m < 2 ^ 53 → n < 2 ^ 53 → f.lt (f.of_nat m) (f.of_nat n) ≡ ltb m n
