-- ===== src/Engine/Rates/Window.antt =====
-- Pruning the timestamps at sixty seconds, against keeping all of them.
use nids.Prelude.{
  unwrap_or, ℕ, ◌<◌, ◌≡◌, refl, ap, ap₂, sym, subst, ◌∙◌, inl, inr, Bool, true, false, Option, none,
  some, List, [], ◌∷◌, ◌++◌, keep, arith, Bool-cases, keep-append,
}
use nids.Engine.Address.{and_then, or_else}
use nids.Engine.Float.{F64, IsIeee}
use nids.Engine.Config.{EvaluatedRule, LimitConfig}
use nids.Engine.Rules.{max_conn_rate}
use nids.Engine.Rates.{is_fresh, reached, triggered, max_rps}

-- A coarser test first changes nothing.
keep-keep :
    {A : Type 0} (p q : A → Bool) (xs : List A)
    → ((x : A) → p x ≡ false → q x ≡ false)
    → keep q (keep p xs) ≡ keep q xs
keep-keep p q [] h = refl
keep-keep p q (x ∷ xs) h = elim (Bool-cases (p x)) [
  | inl kept ↦ ground (arith, kept, keep-keep p q xs h)
  | inr past ↦ ground (arith, past, h x past, keep-keep p q xs h)
]

and_then_ext :
    {A B : Type 0} (o : Option A) (g h : A → Option B)
    → ((a : A) → o ≡ some a → g a ≡ h a)
    → and_then o g ≡ and_then o h
and_then_ext none g h e = refl
and_then_ext (some a) g h e = e a refl

module _ {F : Type 0} ⦃f : F64 F⦄ where
  abbrev pub minute : F
  minute = f.of_nat 60

  -- From time `since` on, two lists have the same fresh timestamps in every window of a minute at
  -- most.
  abbrev pub Agrees : F → List F → List F → Type 0
  Agrees since ts history =
      (now window : F)
      → f.lt now since ≡ false
      → f.lt minute window ≡ false
      → keep (is_fresh now window) ts ≡ keep (is_fresh now window) history

  pub push-Agrees :
      (since now : F) (ts history : List F)
      → Agrees since ts history
      → Agrees since (ts ++ (now ∷ [])) (history ++ (now ∷ []))
  push-Agrees since now ts history h later window l w =
      keep-append (is_fresh later window) ts (now ∷ [])
      ∙ ap (λ xs. xs ++ keep (is_fresh later window) (now ∷ [])) (h later window l w)
      ∙ sym (keep-append (is_fresh later window) history (now ∷ []))

  pub reached-Agrees :
      (now window : F) (limit : ℕ) (ts history : List F)
      → Agrees now ts history
      → f.lt now now ≡ false
      → f.lt minute window ≡ false
      → reached now window limit (some ts) ≡ reached now window limit (some history)
  unfolding reached
  reached-Agrees now window limit ts history h n w = ground (arith, h now window n w)

  -- A limit that is not zero is not reached by nothing.
  pub reached_nothing :
      (now window : F) (limit : ℕ)
      → 0 < limit
      → reached now window limit none ≡ reached now window limit (some [])
  unfolding reached
  reached_nothing now window limit h = ground (arith, h)

  module _ (ieee : IsIeee F) where
    pub later-Agrees :
        (since now : F) (ts history : List F)
        → f.is_finite now ≡ true
        → f.lt now since ≡ false
        → Agrees since ts history
        → Agrees now ts history
    later-Agrees since now ts history finite l h later window k w =
        h later window (ieee.le_trans since now later finite l k) w

    pub prune-Agrees :
        (now : F) (ts history : List F)
        → f.is_finite now ≡ true
        → Agrees now ts history
        → Agrees now (keep (is_fresh now minute) ts) history
    prune-Agrees now ts history finite h later window l w =
        keep-keep (is_fresh now minute) (is_fresh later window) ts (λ t.
          ieee.sub_mono t now later minute window finite (ieee.literal_finite 60 (omega arith)) l w)
        ∙ h later window l w

  abbrev Limited : Option (LimitConfig F) → Type 0
  Limited none = Unit {0}
  Limited (some conn_rate) = (0 < conn_rate.connections) × (f.lt minute conn_rate.interval ≡ false)

  -- The limit of new connections is one at least, over a minute at most.
  abbrev pub WithinMinute : EvaluatedRule F → Type 0
  WithinMinute rule = Limited (max_conn_rate rule)

  reached_option :
      (now window : F) (limit : ℕ) (o : Option (List F)) (history : List F)
      → Agrees now (unwrap_or [] o) history
      → f.lt now now ≡ false
      → f.lt minute window ≡ false
      → 0 < limit
      → reached now window limit o ≡ reached now window limit (some history)
  reached_option now window limit none history h n w positive =
      reached_nothing now window limit positive ∙ reached-Agrees now window limit [] history h n w
  reached_option now window limit (some ts) history h n w positive =
      reached-Agrees now window limit ts history h n w

  -- The thresholds see no difference between the pruned timestamps and all of them.
  pub triggered-Agrees :
      (ieee : IsIeee F) (rule : EvaluatedRule F) (now : F) (ps hp hc : List F)
      (conns : Option (List F))
      → WithinMinute rule
      → Agrees now ps hp
      → Agrees now (unwrap_or [] conns) hc
      → triggered rule now (some ps) conns ≡ triggered rule now (some hp) (some hc)
  unfolding triggered
  triggered-Agrees ieee rule now ps hp hc conns within p c =
      let second : f.lt minute (f.of_nat 1) ≡ false =
        ieee.literal_lt 60 1 (omega arith) (omega arith) in
      let n = ieee.lt_irrefl now in
      ap₂ or_else
        (and_then_ext (max_rps rule) (λ max. reached now (f.of_nat 1) max (some ps))
          (λ max. reached now (f.of_nat 1) max (some hp))
          (λ max e. reached-Agrees now (f.of_nat 1) max ps hp p n second))
        (and_then_ext (max_conn_rate rule)
          (λ conn_rate. reached now conn_rate.interval conn_rate.connections conns)
          (λ conn_rate. reached now conn_rate.interval conn_rate.connections (some hc))
          (λ conn_rate e.
            let (positive, short) = subst Limited e within in
            reached_option now conn_rate.interval conn_rate.connections conns hc c n short
              positive))
