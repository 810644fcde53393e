-- ===== src/Engine/Expire/Trackers.antt =====
-- What expiry leaves of the timestamps of each rule and key.
use nids.Prelude.{
  unwrap_or, ℕ, ◌≡◌, refl, inl, inr, subst, not, List, [], ◌∷◌, keep, if◌then◌else◌, arith,
  Option-cases,
}
use nids.Prelude.Assoc.{
  lookup, IsMap, keep-IsMap, lookup-keep, map_values, lookup-map_values, map_values-IsMap,
}
use nids.Parser.Link.{String}
use nids.Engine.Text.{string_eq, nat_eq}
use nids.Engine.Float.{F64}
use nids.Engine.State.{Tracker}
use nids.Engine.Rates.{stamps_at, is_fresh}
use nids.Engine.Rates.Lookup.{IsTracker, lookup-IsTracker}
use nids.Engine.Expire.{expire_keys, expire_tracker, is_empty}

keep_full : {F : Type 0} (ts : List F) → (if not (is_empty ts) then ts else []) ≡ ts
keep_full [] = refl
keep_full (t ∷ ts) = refl

module _ {F : Type 0} ⦃f : F64 F⦄ where
  expire_keys-IsMap :
      (now : F) (per_key : List (String × List F)) → IsMap per_key → IsMap (expire_keys now per_key)
  unfolding expire_keys
  expire_keys-IsMap now per_key h =
      keep-IsMap (λ (kv : String × List F). not (is_empty kv.1))
        (map_values (keep (is_fresh now (f.of_nat 60))) per_key)
        (map_values-IsMap (keep (is_fresh now (f.of_nat 60))) per_key h)

  lookup-expire_keys :
      (now : F) (k : String) (per_key : List (String × List F))
      → IsMap per_key
      → unwrap_or [] (lookup k (expire_keys now per_key))
        ≡ keep (is_fresh now (f.of_nat 60)) (unwrap_or [] (lookup k per_key))
  unfolding expire_keys
  lookup-expire_keys now k per_key h =
      let fresh = keep (is_fresh now (f.of_nat 60)) in
      let kept =
        lookup-keep (λ (ts : List F). not (is_empty ts)) k (map_values fresh per_key)
          (map_values-IsMap fresh per_key h) in
      let mapped = lookup-map_values fresh k per_key in
      elim (Option-cases (lookup k per_key)) [
        | inl none_there ↦ ground (arith, kept, mapped, none_there)
        | inr (ts, there) ↦ ground (arith, kept, mapped, there, keep_full (fresh ts))
      ]

  pub expire_tracker-IsTracker :
      (now : F) (tracker : Tracker F) → IsTracker tracker → IsTracker (expire_tracker now tracker)
  unfolding expire_tracker
  expire_tracker-IsTracker now [] h = tt
  expire_tracker-IsTracker now ((id, per_key) ∷ rest) (h, hs) =
      (expire_keys-IsMap now per_key h, expire_tracker-IsTracker now rest hs)

  -- Expiry leaves of every key's timestamps those of the last minute.
  pub stamps_at-expire :
      (now : F) (i : ℕ) (k : String) (tracker : Tracker F)
      → IsTracker tracker
      → unwrap_or [] (stamps_at i k (expire_tracker now tracker))
        ≡ keep (is_fresh now (f.of_nat 60)) (unwrap_or [] (stamps_at i k tracker))
  unfolding expire_tracker stamps_at
  stamps_at-expire now i k tracker t = elim (Option-cases (lookup i tracker)) [
    | inl h ↦ ground (arith, h, lookup-map_values (expire_keys now) i tracker)
    | inr (per_key, h) ↦
        let map : IsMap per_key =
          subst (λ o. IsMap (unwrap_or [] o)) h (lookup-IsTracker i tracker t) in
        ground (
          arith,
          h,
          lookup-map_values (expire_keys now) i tracker,
          lookup-expire_keys now k per_key map,
        )
  ]
