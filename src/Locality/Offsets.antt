-- ===== src/Locality/Offsets.antt =====
-- Step 1 of `group_packets` of src/locality.rs: the ranges of the buckets.
use nids.Prelude.{
  ℕ, zero, suc, ◌+◌, ◌%◌, ◌^◌, ◌≤◌, ◌<◌, ◌≡◌, ◌≢◌, ◌⊎◌, refl, ap, ap₂, fun_ext, ◌∙◌, Bool, true,
  false, ◌||◌, List, [], ◌∷◌, length, All, ltb, ◌==◌, ==→eq, if◌then◌else◌, arith, gather,
}
use nids.Locality.{PacketRef, LocalityBuffer, place_bucket, place_buckets}
use nids.Locality.Batch.{count_of, member, IsDistinct, active, Filled}

-- The sum of `c` over ports, and over the ports in front of `p`.
pub total : (ℕ → ℕ) → List ℕ → ℕ
total c [] = 0
total c (q ∷ ps) = c q + total c ps

unfoldable pub offset_of : (ℕ → ℕ) → ℕ → List ℕ → ℕ
offset_of c p [] = 0
offset_of c p (q ∷ ps) = if q == p then 0 else c q + offset_of c p ps

pub offset_of-le :
    (c : ℕ → ℕ) (p : ℕ) (ps : List ℕ) → member p ps ≡ true → offset_of c p ps + c p ≤ total c ps
unfolding total offset_of
offset_of-le c p [] m = cc
offset_of-le c p (q ∷ ps) m = ground (arith, offset_of-le c p ps)

-- The ranges of two ports do not meet.
pub offset_of_disjoint :
    (c : ℕ → ℕ) (p q : ℕ) (ps : List ℕ)
    → member p ps ≡ true
    → member q ps ≡ true
    → p ≢ q
    → (offset_of c p ps + c p ≤ offset_of c q ps) ⊎ (offset_of c q ps + c q ≤ offset_of c p ps)
unfolding offset_of
offset_of_disjoint c p q [] m n ne = cc
offset_of_disjoint c p q (r ∷ ps) m n ne = ground (arith, offset_of_disjoint c p q ps)

total-add : (f g : ℕ → ℕ) (ps : List ℕ) → total (λ p. f p + g p) ps ≡ total f ps + total g ps
unfolding total
total-add f g [] = omega arith
total-add f g (p ∷ ps) = omega (arith, total-add f g ps)

total_zero : (ps : List ℕ) → total (λ p. 0) ps ≡ 0
unfolding total
total_zero [] = refl
total_zero (p ∷ ps) = omega (arith, total_zero ps)

total_one :
    (a : ℕ) (ps : List ℕ)
    → IsDistinct ps
    → total (λ p. if a == p then 1 else 0) ps ≡ (if member a ps then 1 else 0)
unfolding total
total_one a [] d = refl
total_one a (p ∷ ps) d = ground (arith, total_one a ps d.1)

-- Distinct ports among which every reference's port is have the whole batch between them.
total-count_of :
    (xs : List PacketRef) (ps : List ℕ)
    → IsDistinct ps
    → All (λ x. member x.port_key ps ≡ true) xs
    → total (λ p. count_of p xs) ps ≡ length xs
total-count_of [] ps d h = total_zero ps
total-count_of (x ∷ xs) ps d h =
    let split : (λ (p : ℕ). count_of p (x ∷ xs))
        ≡ (λ p. (if x.port_key == p then 1 else 0) + count_of p xs) =
      fun_ext (λ p. ground arith) in
    rw split (
      omega (
        arith,
        total-add (λ p. if x.port_key == p then 1 else 0) (λ p. count_of p xs) ps,
        total_one x.port_key ps d,
        one,
        total-count_of xs ps d h.1,
      ))
  where
    one : ◌≡◌ {A = ℕ} (if member x.port_key ps then 1 else 0) 1
    one = rw h.0

All-member :
    (xs ys : List PacketRef)
    → ((p : ℕ) → count_of p ys ≤ count_of p xs)
    → All (λ y. 0 < count_of y.port_key xs) ys
All-member xs [] h = tt
All-member xs (y ∷ ys) h =
    (ground (arith, h y.port_key), All-member xs ys (λ p. ground (arith, h p)))

All-tracked :
    (ps : List ℕ) (xs ys : List PacketRef)
    → ((p : ℕ) → member p ps ≡ ltb 0 (count_of p xs))
    → All (λ y. 0 < count_of y.port_key xs) ys
    → All (λ y. member y.port_key ps ≡ true) ys
All-tracked ps xs [] t h = tt
All-tracked ps xs (y ∷ ys) t h = (ground (arith, t y.port_key, h.0), All-tracked ps xs ys t h.1)

module _ {b : LocalityBuffer} {xs : List PacketRef} (filled : Filled b xs) where
  -- Every reference of the batch is to an active port.
  pub All-in-active : All (λ y. member y.port_key (active b) ≡ true) xs
  All-in-active = All-tracked (active b) xs xs filled.tracked (All-member xs xs (λ p. omega arith))

  pub total-Filled : total b.counts (active b) ≡ length xs
  total-Filled =
      ap (λ (c : ℕ → ℕ). total c (active b)) (fun_ext filled.counted)
      ∙ total-count_of xs (active b) filled.distinct All-in-active

-- What step 1 leaves alone.
pub record SameBatch (b b' : LocalityBuffer) : Type 0 where
  pub input_refs : b'.input_refs ≡ b.input_refs
  pub counts : b'.counts ≡ b.counts
  pub active_buckets : b'.active_buckets ≡ b.active_buckets
  pub active_count : b'.active_count ≡ b.active_count
  pub current_size : b'.current_size ≡ b.current_size

pub SameBatch-Filled :
    {b b' : LocalityBuffer} {xs : List PacketRef} → SameBatch b b' → Filled b xs → Filled b' xs
SameBatch-Filled {b} {b'} {xs} same filled =
    let e : active b' ≡ active b =
      ap₂ (λ (f : ℕ → ℕ) (n : ℕ). gather f 0 n) same.active_buckets same.active_count in
    record {
      size = same.current_size ∙ filled.size;
      fits = filled.fits;
      inputs = rw same.input_refs filled.inputs;
      counted = λ p. rw same.counts (filled.counted p);
      few = rw same.active_count filled.few;
      distinct = rw e filled.distinct;
      tracked = λ p. rw e (filled.tracked p);
    }

place_buckets-SameBatch : (n i sum : ℕ) (b : LocalityBuffer) → SameBatch b (place_buckets n i sum b)
unfolding place_buckets place_bucket
place_buckets-SameBatch zero i sum b = record {
  input_refs = refl;
  counts = refl;
  active_buckets = refl;
  active_count = refl;
  current_size = refl;
}
place_buckets-SameBatch (suc n) i sum b =
    let port = b.active_buckets i in
    let rest =
      place_buckets-SameBatch n (i + 1) ((sum + b.counts port) % 2 ^ 16)
        (place_bucket b port sum) in
    record {
      input_refs = rest.input_refs;
      counts = rest.counts;
      active_buckets = rest.active_buckets;
      active_count = rest.active_count;
      current_size = rest.current_size;
    }

shift_case :
    (later here : Bool) (count sum rest old : ℕ)
    → (here ≡ true → later ≡ false)
    → sum + count < 2 ^ 16
    → (if later then (sum + count) % 2 ^ 16 + rest else if here then sum else old)
      ≡ (if here || later then sum + (if here then 0 else count + rest) else old)
shift_case true true count sum rest old d h = cc (d refl)
shift_case true false count sum rest old d h = omega arith
shift_case false true count sum rest old d h = omega arith
shift_case false false count sum rest old d h = refl

-- One round, seen from a port: its own range begins at `sum`, any other behind it.
shift_offset :
    (c : ℕ → ℕ) (port p sum old : ℕ) (ps : List ℕ)
    → member port ps ≡ false
    → sum + c port < 2 ^ 16
    → (if member p ps
        then (sum + c port) % 2 ^ 16 + offset_of c p ps
        else if port == p
        then sum
        else old)
      ≡ (if member p (port ∷ ps) then sum + offset_of c p (port ∷ ps) else old)
unfolding offset_of
shift_offset c port p sum old ps absent h =
    shift_case (member p ps) (port == p) (c port) sum (offset_of c p ps) old
      (λ t. let e : port ≡ p = ==→eq _ _ t in rw e at absent) h

place_buckets-offsets :
    (n i sum : ℕ) (b : LocalityBuffer) (p : ℕ)
    → IsDistinct (gather b.active_buckets i n)
    → sum + total b.counts (gather b.active_buckets i n) < 2 ^ 16
    → let b' = place_buckets n i sum b in
      let placed = λ (old : ℕ).
        if member p (gather b.active_buckets i n)
        then sum + offset_of b.counts p (gather b.active_buckets i n)
        else old in
      (b'.start_offsets p ≡ placed (b.start_offsets p)) × (b'.offsets p ≡ placed (b.offsets p))
unfolding place_buckets gather place_bucket total offset_of
place_buckets-offsets zero i sum b p d h = (refl, refl)
place_buckets-offsets (suc n) i sum b p d h =
    let port = b.active_buckets i in
    let (s, o) =
      place_buckets-offsets n (i + 1) ((sum + b.counts port) % 2 ^ 16) (place_bucket b port sum) p
        d.1 (omega arith) in
    let clear_of : sum + b.counts port < 2 ^ 16 = omega arith in
    let ps = gather b.active_buckets (i + 1) n in
    (
      s ∙ shift_offset b.counts port p sum (b.start_offsets p) ps d.0 clear_of,
      o ∙ shift_offset b.counts port p sum (b.offsets p) ps d.0 clear_of,
    )

module _ {b : LocalityBuffer} {xs : List PacketRef} (filled : Filled b xs) where
  -- Step 1 of `group_packets` on a batch.
  unfoldable pub placed : LocalityBuffer
  placed = place_buckets b.active_count 0 0 b

  pub placed-SameBatch : SameBatch b placed
  unfolding placed
  placed-SameBatch = place_buckets-SameBatch b.active_count 0 0 b

  -- After step 1 an active port's range begins behind those of the ports that came first.
  pub placed-offsets :
      (p : ℕ)
      → member p (active b) ≡ true
      → (placed.start_offsets p ≡ offset_of b.counts p (active b))
        × (placed.offsets p ≡ offset_of b.counts p (active b))
  unfolding placed
  placed-offsets p m =
      let (s, o) =
        place_buckets-offsets b.active_count 0 0 b p filled.distinct
          (omega (arith, total-Filled filled, filled.fits)) in
      (s ∙ rw m (omega arith), o ∙ rw m (omega arith))
