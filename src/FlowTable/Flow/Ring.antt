-- ===== src/FlowTable/Flow/Ring.antt =====
-- Windows of an array of 100 slots, read round its end.
use nids.Prelude.{
  ℕ, suc, ◌+◌, ◌%◌, ◌<◌, ◌≡◌, ap, ap₂, ◌∙◌, List, [], ◌∷◌, ◌++◌, get_or, set, length, arith,
  get_or-set_self, get_or-set_ne, gather, gather-ext, gather-snoc, gather-shift,
}

module _ {ℓ} {A : Type ℓ} where
  -- `n` slots of `xs` from `start` on, going round at 100.
  unfoldable pub window : List A → A → ℕ → ℕ → List A
  window xs d start n = gather (λ j. get_or xs ((start + j) % 100) d) 0 n

  -- Writing the slot just past a window that is not the whole array extends it.
  pub window-set :
      (xs : List A) (d v : A) (start n i : ℕ)
      → length xs ≡ 100
      → n < 100
      → i ≡ (start + n) % 100
      → window (set xs i v) d start (suc n) ≡ window xs d start n ++ (v ∷ [])
  unfolding window
  window-set xs d v start n i full h e =
      let e0 : 0 + n ≡ n = omega arith in
      gather-snoc (λ j. get_or (set xs i v) ((start + j) % 100) d) 0 n
      ∙ ap₂ (λ (ys : List A) (y : A). ys ++ (y ∷ []))
          (gather-ext _ _ 0 n (λ j a b. get_or-set_ne xs i ((start + j) % 100) v d (omega arith)))
          (rw (e0, ← e) (get_or-set_self xs i v d (omega arith)))

  pub window-first :
      (xs : List A) (d : A) (start n : ℕ)
      → start < 100
      → window xs d start (suc n) ≡ get_or xs start d ∷ window xs d ((start + 1) % 100) n
  unfolding gather window
  window-first xs d start n h =
      ap₂ (λ (k : ℕ) (ys : List A). get_or xs k d ∷ ys) (omega arith)
        (gather-shift (λ j. get_or xs ((start + j) % 100) d) 0 n
          ∙ gather-ext _ _ 0 n (λ j a b. ap (λ k. get_or xs k d) (omega arith)))

  -- Overwriting the first slot of a whole window drops it, and puts the new one last.
  pub window-set_full :
      (xs : List A) (d v : A) (start : ℕ)
      → length xs ≡ 100
      → start < 100
      → window (set xs start v) d ((start + 1) % 100) 100
        ≡ window xs d ((start + 1) % 100) 99 ++ (v ∷ [])
  window-set_full xs d v start full h =
      window-set xs d v ((start + 1) % 100) 99 start full (omega arith) (omega arith)
