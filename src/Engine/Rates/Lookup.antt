-- ===== src/Engine/Rates/Lookup.antt =====
-- The timestamps of each rule and key after each operation on a tracker.
use nids.Prelude.{
  unwrap_or, subst, ℕ, ◌≡◌, refl, inl, inr, Bool, ◌&&◌, none, some, List, [], ◌∷◌, ◌++◌, keep,
  if◌then◌else◌, arith, ◌==◌, Option-cases,
}
use nids.Prelude.Assoc.{
  lookup, insert, remove, IsMap, insert-IsMap, remove-IsMap, lookup-insert, lookup-remove,
}
use nids.Parser.Link.{String}
use nids.Engine.Text.{string_equals, string_equals_iff, string_eq, nat_eq}
use nids.Engine.State.{Tracker}
use nids.Engine.Rates.{stamps_at, push, retain, forget}

module _ {F : Type 0} where
  -- No key of a rule stands twice.
  abbrev pub IsTracker : Tracker F → Type 0
  IsTracker [] = Unit {0}
  IsTracker ((id, per_key) ∷ rest) = IsMap per_key × IsTracker rest

  pub lookup-IsTracker :
      (id : ℕ) (tracker : Tracker F) → IsTracker tracker → IsMap (unwrap_or [] (lookup id tracker))
  unfolding lookup
  lookup-IsTracker id [] h = tt
  lookup-IsTracker id ((i, m) ∷ rest) (h, hs) = ground (arith, h, lookup-IsTracker id rest hs)

  insert-IsTracker :
      (id : ℕ) (m : List (String × List F)) (tracker : Tracker F)
      → IsMap m
      → IsTracker tracker
      → IsTracker (insert id m tracker)
  unfolding insert
  insert-IsTracker id m [] h t = (h, tt)
  insert-IsTracker id m ((i, n) ∷ rest) h (hn, hs) =
      ground (arith, h, hn, hs, insert-IsTracker id m rest h hs)

  lookup_nil : (k : String) → lookup k (let m : List (String × List F) = [] in m) ≡ none
  unfolding lookup
  lookup_nil k = refl

  pub stamps_at-push :
      (id i : ℕ) (key k : String) (now : F) (tracker : Tracker F)
      → stamps_at i k (push id key now tracker) ≡ (
          if (id == i) && string_equals key k
          then some (unwrap_or [] (stamps_at id key tracker) ++ (now ∷ []))
          else stamps_at i k tracker)
  unfolding stamps_at push
  stamps_at-push id i key k now tracker =
      let per_key = unwrap_or [] (lookup id tracker) in
      let stamps = unwrap_or [] (lookup key per_key) ++ (now ∷ []) in
      ground (
        arith,
        lookup-insert id i (insert key stamps per_key) tracker,
        lookup-insert key k stamps per_key,
        string_equals_iff key k,
        lookup_nil k,
      )

  pub stamps_at-retain :
      (p : F → Bool) (id i : ℕ) (key k : String) (tracker : Tracker F)
      → stamps_at i k (retain p id key tracker) ≡ (
          if (id == i) && string_equals key k
          then elim (stamps_at id key tracker) [ none ↦ none | some ts ↦ some (keep p ts) ]
          else stamps_at i k tracker)
  unfolding stamps_at retain
  stamps_at-retain p id i key k tracker = elim (Option-cases (lookup id tracker)) [
    | inl h ↦ ground (arith, h, string_equals_iff key k)
    | inr (per_key, h) ↦ elim (Option-cases (lookup key per_key)) [
      | inl g ↦ ground (arith, h, g, string_equals_iff key k)
      | inr (ts, g) ↦ ground (
        arith,
        h,
        g,
        lookup-insert id i (insert key (keep p ts) per_key) tracker,
        lookup-insert key k (keep p ts) per_key,
      )
    ]
  ]

  pub stamps_at-forget :
      (id i : ℕ) (key k : String) (tracker : Tracker F)
      → IsTracker tracker
      → stamps_at i k (forget id key tracker)
        ≡ (if (id == i) && string_equals key k then none else stamps_at i k tracker)
  unfolding stamps_at forget
  stamps_at-forget id i key k tracker t = elim (Option-cases (lookup id tracker)) [
    | inl h ↦ ground (arith, h)
    | inr (per_key, h) ↦
        let map : IsMap (unwrap_or [] (lookup id tracker)) = lookup-IsTracker id tracker t in
        let map' : IsMap per_key = subst (λ o. IsMap (unwrap_or [] o)) h map in
        ground (
          arith,
          h,
          lookup-insert id i (remove key per_key) tracker,
          lookup-remove key k per_key map',
        )
  ]

  pub push-IsTracker :
      (id : ℕ) (key : String) (now : F) (tracker : Tracker F)
      → IsTracker tracker
      → IsTracker (push id key now tracker)
  unfolding push
  push-IsTracker id key now tracker t =
      let per_key = unwrap_or [] (lookup id tracker) in
      insert-IsTracker id (insert key (unwrap_or [] (lookup key per_key) ++ (now ∷ [])) per_key)
        tracker
        (insert-IsMap key (unwrap_or [] (lookup key per_key) ++ (now ∷ [])) per_key
          (lookup-IsTracker id tracker t))
        t

  pub retain-IsTracker :
      (p : F → Bool) (id : ℕ) (key : String) (tracker : Tracker F)
      → IsTracker tracker
      → IsTracker (retain p id key tracker)
  unfolding retain
  retain-IsTracker p id key tracker t = elim (Option-cases (lookup id tracker)) [
    | inl h ↦ ground (arith, h, t)
    | inr (per_key, h) ↦ elim (Option-cases (lookup key per_key)) [
      | inl g ↦ ground (arith, h, g, t)
      | inr (ts, g) ↦
          let map : IsMap per_key =
            subst (λ o. IsMap (unwrap_or [] o)) h (lookup-IsTracker id tracker t) in
          ground (
            arith,
            h,
            g,
            insert-IsTracker id (insert key (keep p ts) per_key) tracker
                (insert-IsMap key (keep p ts) per_key map) t,
          )
    ]
  ]

  pub forget-IsTracker :
      (id : ℕ) (key : String) (tracker : Tracker F)
      → IsTracker tracker
      → IsTracker (forget id key tracker)
  unfolding forget
  forget-IsTracker id key tracker t = elim (Option-cases (lookup id tracker)) [
    | inl h ↦ ground (arith, h, t)
    | inr (per_key, h) ↦
        let map : IsMap per_key =
          subst (λ o. IsMap (unwrap_or [] o)) h (lookup-IsTracker id tracker t) in
        ground (
          arith,
          h,
          insert-IsTracker id (remove key per_key) tracker (remove-IsMap key per_key map) t,
        )
  ]
