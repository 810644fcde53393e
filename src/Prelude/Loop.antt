-- ===== src/Prelude/Loop.antt =====
-- What a computation that may panic gives, and the loops of such code: a body that goes on with a
-- new state or leaves, run on fuel. A loop out of fuel panics, so what is shown of a loop that
-- gives a result says also that the fuel is enough.
use Prim.Native.Nat.{ℕ, zero, suc, ◌<◌}
use mathlib.Core.Path.{◌≡◌, refl}
use mathlib.Core.Bool.{Bool}
use mathlib.Core.Option.{Option, none, some}
use native.Mathlib.Omega.{arith}
use nids.Prelude.Tests.{if◌then◌else◌}
use nids.Prelude.Outcome.{Outcome, returns, panics, ◌>>=◌, Runs, Runs-returns, bind-returns}

-- `m` returns a value, and one with `P`.
pub record Gives {ℓ} {A : Type ℓ} (P : A → Type 0) (m : Outcome A) : Type ℓ where
  pub value : A
  pub returned : m ≡ returns value
  pub holds : P value

pub Gives-Runs {ℓ} : {A : Type ℓ} {P : A → Type 0} {m : Outcome A} → Gives P m → Runs m
Gives-Runs g = rw g.returned (Runs-returns g.value)

pub Gives-returns {ℓ} : {A : Type ℓ} {P : A → Type 0} (a : A) → P a → Gives P (returns a)
Gives-returns a h = record { value = a; returned = refl; holds = h }

pub Gives-bind {ℓ κ} :
    {A : Type ℓ} {B : Type κ} {P : A → Type 0} {Q : B → Type 0} (m : Outcome A) {f : A → Outcome B}
    → Gives P m
    → ((a : A) → P a → Gives Q (f a))
    → Gives Q (m >>= f)
Gives-bind m g k = rw (g.returned, bind-returns) (k g.value g.holds)

-- The conditional of code, which stays shut until a proof goes into a branch.
infix 1 when◌then◌else◌
unfoldable pub when◌then◌else◌ {ℓ} : {A : Type ℓ} → Bool → A → A → A
when c then x else y = if c then x else y

-- A read that the code makes under a test.
unfoldable pub read_when {ℓ} : {A : Type ℓ} → Bool → Outcome A → Outcome (Option A)
read_when c m = when c then (do a ← m; returns (some a)) else returns none

pub data Step {ℓ κ} (S : Type ℓ) (R : Type κ) : Type (ℓ ⊔ κ) where
  goes_on : S → Step S R
  leaves : R → Step S R

abbrev pub next {ℓ κ} : {S : Type ℓ} {R : Type κ} → (S → Outcome R) → Step S R → Outcome R
next again (goes_on s) = again s
next again (leaves r) = returns r

unfoldable pub iterate {ℓ κ} :
    {S : Type ℓ} {R : Type κ} → ℕ → (S → Outcome (Step S R)) → S → Outcome R
iterate zero body s = panics
iterate (suc n) body s = body s >>= λ step. next (λ s'. iterate n body s') step

-- What a round must give: a state that is right and smaller, or a result that is right.
abbrev pub Proceeds {ℓ κ} :
    {S : Type ℓ} {R : Type κ} → (S → Type 0) → (S → ℕ) → (R → Type 0) → ℕ → Step S R → Type 0
Proceeds I size P bound (goes_on s) = I s × size s < bound
Proceeds I size P bound (leaves r) = P r

next-Gives {ℓ κ} :
    {S : Type ℓ} {R : Type κ} (I : S → Type 0) (size : S → ℕ) (P : R → Type 0) (bound : ℕ)
    (again : S → Outcome R)
    → ((s : S) → I s → size s < bound → Gives P (again s))
    → (step : Step S R) → Proceeds I size P bound step
    → Gives P (next again step)
next-Gives I size P bound again h (goes_on s) p = h s p.0 p.1
next-Gives I size P bound again h (leaves r) p = Gives-returns r p

pub iterate-Gives {ℓ κ} :
    {S : Type ℓ} {R : Type κ} (body : S → Outcome (Step S R)) (I : S → Type 0) (size : S → ℕ)
    (P : R → Type 0)
    → ((s : S) → I s → Gives (Proceeds I size P (size s)) (body s))
    → (n : ℕ) (s : S) → I s
    → size s < n
    → Gives P (iterate n body s)
unfolding iterate
iterate-Gives body I size P h zero s i fits = absurd (omega arith)
iterate-Gives body I size P h (suc n) s i fits = Gives-bind (body s) (h s i) (λ step.
    next-Gives I size P (size s) (λ s'. iterate n body s')
      (λ s' j less. iterate-Gives body I size P h n s' j (omega arith)) step)
