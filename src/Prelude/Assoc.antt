-- ===== src/Prelude/Assoc.antt =====
-- `HashMap` as an association list, generic in the key's Boolean equality. Iteration is in the
-- list's order, which no theorem fixes: each holds for every order of the entries.
use nids.Prelude.Tests.{if◌then◌else◌}
use nids.Prelude.Lists.{length, keep}
use Prim.Native.Nat.{◌+◌}
use mathlib.Core.Path.{◌≡◌, refl}
use mathlib.Core.Logic.{◌↔◌}
use mathlib.Core.Bool.{Bool, true, false}
use mathlib.Core.Option.{Option, none, some}
use mathlib.Core.List.{List, [], ◌∷◌, map}
use native.Mathlib.Omega.{arith}

-- A key type with its equality test.
pub record Eq {ℓ} (K : Type ℓ) : Type ℓ where
  pub eq : K → K → Bool
  pub eq_iff : (a b : K) → (eq a b ≡ true) ↔ (a ≡ b)

module _ {ℓ κ} {K : Type ℓ} {V : Type κ} ⦃e : Eq K⦄ where
  unfoldable pub lookup : K → List (K × V) → Option V
  lookup k [] = none
  lookup k ((j, v) ∷ m) = if e.eq j k then some v else lookup k m

  -- `insert` overwrites the value of a key that is there.
  unfoldable pub insert : K → V → List (K × V) → List (K × V)
  insert k v [] = (k, v) ∷ []
  insert k v ((j, w) ∷ m) = if e.eq j k then (k, v) ∷ m else (j, w) ∷ insert k v m

  unfoldable pub remove : K → List (K × V) → List (K × V)
  remove k [] = []
  remove k ((j, w) ∷ m) = if e.eq j k then m else (j, w) ∷ remove k m

  unfoldable pub contains_key : K → List (K × V) → Bool
  contains_key k [] = false
  contains_key k ((j, w) ∷ m) = if e.eq j k then true else contains_key k m

  -- No key stands twice.
  abbrev pub IsMap : List (K × V) → Type 0
  IsMap [] = Unit {0}
  IsMap ((j, w) ∷ m) = (contains_key j m ≡ false) × IsMap m

  pub contains_key-lookup :
      (k : K) (m : List (K × V))
      → contains_key k m ≡ (elim (lookup k m) [ none ↦ false | some _ ↦ true ])
  unfolding lookup contains_key
  contains_key-lookup k [] = refl
  contains_key-lookup k ((j, w) ∷ m) = ground (arith, contains_key-lookup k m)

  pub lookup-insert :
      (k j : K) (v : V) (m : List (K × V))
      → lookup j (insert k v m) ≡ (if e.eq k j then some v else lookup j m)
  unfolding lookup insert
  lookup-insert k j v [] = refl
  lookup-insert k j v ((i, w) ∷ m) =
      ground (arith, e.eq_iff k j, e.eq_iff i k, e.eq_iff i j, lookup-insert k j v m)

  pub contains_key-insert :
      (k j : K) (v : V) (m : List (K × V))
      → contains_key j (insert k v m) ≡ (if e.eq k j then true else contains_key j m)
  unfolding contains_key insert
  contains_key-insert k j v [] = refl
  contains_key-insert k j v ((i, w) ∷ m) =
      ground (arith, e.eq_iff k j, e.eq_iff i k, e.eq_iff i j, contains_key-insert k j v m)

  pub insert-IsMap : (k : K) (v : V) (m : List (K × V)) → IsMap m → IsMap (insert k v m)
  unfolding insert contains_key
  insert-IsMap k v [] h = (refl, tt)
  insert-IsMap k v ((j, w) ∷ m) h =
      ground
        (arith, e.eq_iff j k, e.eq_iff k j, contains_key-insert k j v m, insert-IsMap k v m h.1)

  pub length-insert :
      (k : K) (v : V) (m : List (K × V))
      → length (insert k v m) ≡ (if contains_key k m then length m else length m + 1)
  unfolding insert contains_key
  length-insert k v [] = omega arith
  length-insert k v ((j, w) ∷ m) = ground (arith, length-insert k v m)

  pub lookup_of_absent : (k : K) (m : List (K × V)) → contains_key k m ≡ false → lookup k m ≡ none
  unfolding lookup contains_key
  lookup_of_absent k [] h = refl
  lookup_of_absent k ((j, w) ∷ m) h = ground (arith, lookup_of_absent k m)

  pub lookup-remove :
      (k j : K) (m : List (K × V))
      → IsMap m
      → lookup j (remove k m) ≡ (if e.eq k j then none else lookup j m)
  unfolding lookup remove
  lookup-remove k j [] h = ground arith
  lookup-remove k j ((i, w) ∷ m) h = ground (
    arith,
    e.eq_iff k j,
    e.eq_iff i k,
    e.eq_iff i j,
    lookup-remove k j m h.1,
    lookup_of_absent i m h.0,
    lookup_of_absent j m,
  )

  pub contains_key-remove :
      (k j : K) (m : List (K × V))
      → IsMap m
      → contains_key j (remove k m) ≡ (if e.eq k j then false else contains_key j m)
  contains_key-remove k j m h =
      ground
        (arith, contains_key-lookup j (remove k m), contains_key-lookup j m, lookup-remove k j m h)

  pub remove-IsMap : (k : K) (m : List (K × V)) → IsMap m → IsMap (remove k m)
  unfolding remove contains_key
  remove-IsMap k [] h = h
  remove-IsMap k ((j, w) ∷ m) h =
      ground (arith, contains_key-remove k j m h.1, remove-IsMap k m h.1)

  pub length-remove :
      (k : K) (m : List (K × V)) → contains_key k m ≡ true → length (remove k m) + 1 ≡ length m
  unfolding remove contains_key
  length-remove k [] h = cc
  length-remove k ((j, w) ∷ m) h = ground (arith, length-remove k m)

  -- `retain` by a test on the entry.
  pub contains_key-keep :
      (p : K × V → Bool) (k : K) (m : List (K × V))
      → contains_key k m ≡ false
      → contains_key k (keep p m) ≡ false
  unfolding contains_key
  contains_key-keep p k [] h = refl
  contains_key-keep p k ((j, w) ∷ m) h = ground (arith, contains_key-keep p k m)

  pub keep-IsMap : (p : K × V → Bool) (m : List (K × V)) → IsMap m → IsMap (keep p m)
  keep-IsMap p [] h = h
  keep-IsMap p ((j, w) ∷ m) h = ground (arith, contains_key-keep p j m h.0, keep-IsMap p m h.1)

  pub lookup-keep :
      (p : V → Bool) (k : K) (m : List (K × V))
      → IsMap m
      → lookup k (keep (λ kv. p kv.1) m)
        ≡ (elim (lookup k m) [ none ↦ none | some v ↦ if p v then some v else none ])
  unfolding lookup
  lookup-keep p k [] h = refl
  lookup-keep p k ((j, w) ∷ m) h =
      ground (arith, lookup-keep p k m h.1, e.eq_iff j k, lookup_of_absent j m h.0)

  pub lookup-head : (k : K) (v : V) (m : List (K × V)) → lookup k ((k, v) ∷ m) ≡ some v
  unfolding lookup
  lookup-head k v m = ground (arith, e.eq_iff k k)

  -- An entry behind the head has another key than the head.
  pub lookup-tail :
      (j k : K) (w v : V) (m : List (K × V))
      → contains_key j m ≡ false
      → lookup k m ≡ some v
      → lookup k ((j, w) ∷ m) ≡ some v
  unfolding lookup
  lookup-tail j k w v m absent h = ground (arith, e.eq_iff j k, lookup_of_absent j m absent)

-- `values_mut`: a function on the values, the keys kept.
abbrev pub map_values {ℓ κ μ} :
    {K : Type ℓ} {V : Type κ} {W : Type μ} → (V → W) → List (K × V) → List (K × W)
map_values g m = map (λ kv. (kv.0, g kv.1)) m

module _ {ℓ κ μ} {K : Type ℓ} {V : Type κ} {W : Type μ} ⦃e : Eq K⦄ where
  pub lookup-map_values :
      (g : V → W) (k : K) (m : List (K × V))
      → lookup k (map_values g m) ≡ (elim (lookup k m) [ none ↦ none | some v ↦ some (g v) ])
  unfolding lookup
  lookup-map_values g k [] = refl
  lookup-map_values g k ((j, v) ∷ m) = ground (arith, lookup-map_values g k m)

  pub contains_key-map_values :
      (g : V → W) (k : K) (m : List (K × V)) → contains_key k (map_values g m) ≡ contains_key k m
  unfolding contains_key
  contains_key-map_values g k [] = refl
  contains_key-map_values g k ((j, v) ∷ m) = ground (arith, contains_key-map_values g k m)

  pub map_values-IsMap : (g : V → W) (m : List (K × V)) → IsMap m → IsMap (map_values g m)
  map_values-IsMap g [] h = tt
  map_values-IsMap g ((j, v) ∷ m) (absent, h) =
      ground (arith, contains_key-map_values g j m, absent, map_values-IsMap g m h)
