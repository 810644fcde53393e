-- ===== src/Locality/Grouping.antt =====
-- Step 2 of `group_packets` of src/locality.rs, and what a client reads back by `get_bucket_slice`.
use nids.Prelude.{
  ℕ, zero, suc, ◌+◌, ◌≤◌, ◌<◌, ◌≡◌, ◌≢◌, ◌⊎◌, refl, sym, ap, ap₂, subst, ◌∙◌, Bool, true, false,
  inl, inr, List, [], ◌∷◌, ◌++◌, length, leb, ltb, ◌==◌, ==→eq, if◌then◌else◌, arith, gather,
  gather-ext, gather-snoc, Bool-cases, length-append, keep-append,
}
use mathlib.Core.List.{append_assoc, append-nil}
use native.Mathlib.Decide.{dec_lt}
use nids.Locality.{
  max_batch_size, PacketRef, update, LocalityBuffer, place_ref, place_refs, group_packets,
  get_bucket_slice,
}
use nids.Locality.Batch.{bucket, count_of, member, active, Filled, count_of-snoc, count_of-le}
use nids.Locality.Offsets.{
  offset_of, offset_of-le, offset_of_disjoint, total-Filled, SameBatch, placed, placed-SameBatch,
  placed-offsets,
}

gather-extend {ℓ} :
    {A : Type ℓ} (f : ℕ → A) (v : A) (i n : ℕ)
    → gather (update f (i + n) v) i (n + 1) ≡ gather f i n ++ (v ∷ [])
gather-extend f v i n =
    let e : n + 1 ≡ suc n = omega arith in
    rw e (
      gather-snoc (update f (i + n) v) i n
      ∙ ap₂ (λ ys y. ys ++ (y ∷ [])) (gather-ext _ _ i n (λ j a h. ground (arith, h)))
          (ground arith))

gather-update_out {ℓ} :
    {A : Type ℓ} (f : ℕ → A) (v : A) (i n k : ℕ)
    → (k < i) ⊎ (i + n ≤ k)
    → gather (update f k v) i n ≡ gather f i n
gather-update_out f v i n k out = gather-ext _ _ i n (λ j a h. ground (arith, out, a, h))

bucket-snoc :
    (p : ℕ) (ys : List PacketRef) (x : PacketRef)
    → bucket p (ys ++ (x ∷ [])) ≡ (if x.port_key == p then bucket p ys ++ (x ∷ []) else bucket p ys)
bucket-snoc p ys x =
    ground (arith, keep-append (λ r. r.port_key == p) ys (x ∷ []), append-nil (bucket p ys))

count_of-prefix :
    (p : ℕ) (ys zs : List PacketRef) → count_of p (ys ++ zs) ≡ count_of p ys + count_of p zs
count_of-prefix p ys zs =
    ap length (keep-append (λ r. r.port_key == p) ys zs) ∙ length-append (bucket p ys) (bucket p zs)

-- A slice of length 0, in either branch, is a bucket of no references.
no_slice :
    (test : Bool) (sorted : ℕ → PacketRef) (start : ℕ) (rs : List PacketRef)
    → length rs ≡ 0
    → (if test then gather sorted start 0 else []) ≡ rs
unfolding gather
no_slice true sorted start [] e = refl
no_slice false sorted start [] e = refl
no_slice test sorted start (r ∷ rs) e = absurd (omega arith)

module _ {b : LocalityBuffer} {xs : List PacketRef} (filled : Filled b xs) where
  -- Where the range of a port begins.
  abbrev start_of : ℕ → ℕ
  start_of p = offset_of b.counts p (active b)

  -- The references `ys` are in place, each port's from the start of its range on.
  record Placing (b' : LocalityBuffer) (ys : List PacketRef) : Type 0 where
    same : SameBatch b b'
    starts : (p : ℕ) → member p (active b) ≡ true → b'.start_offsets p ≡ start_of p
    next : (p : ℕ) → member p (active b) ≡ true → b'.offsets p ≡ start_of p + count_of p ys
    sorted :
        (p : ℕ)
        → member p (active b) ≡ true
        → gather b'.sorted_refs (start_of p) (count_of p ys) ≡ bucket p ys

  module _ (b' : LocalityBuffer) (ys zs : List PacketRef) (x : PacketRef)
      (parts : xs ≡ ys ++ (x ∷ zs)) (p' : Placing b' ys) where
    abbrev dest : ℕ
    dest = start_of x.port_key + count_of x.port_key ys

    in_range : (p : ℕ) → count_of p ys + (if x.port_key == p then 1 else 0) ≤ b.counts p
    in_range p =
        ground (arith, filled.counted p, ap (count_of p) parts, count_of-prefix p ys (x ∷ zs))

    is_active : member x.port_key (active b) ≡ true
    is_active =
        ground (arith, filled.tracked x.port_key, filled.counted x.port_key, in_range x.port_key)

    dest_lt : dest < max_batch_size
    dest_lt =
        let room : count_of x.port_key ys + 1 ≤ b.counts x.port_key =
          ground (arith, in_range x.port_key) in
        omega (
          arith,
          room,
          filled.fits,
          total-Filled filled,
          offset_of-le b.counts x.port_key (active b) is_active,
        )

    -- The slot lies outside what any other port has filled.
    outside :
        (p : ℕ)
        → member p (active b) ≡ true
        → x.port_key ≢ p
        → (dest < start_of p) ⊎ (start_of p + count_of p ys ≤ dest)
    outside p m ne =
        let here : count_of x.port_key ys + 1 ≤ b.counts x.port_key =
          ground (arith, in_range x.port_key) in
        let there : count_of p ys ≤ b.counts p = ground (arith, in_range p) in
        elim (offset_of_disjoint b.counts x.port_key p (active b) is_active m ne) [
          | inl before ↦ inl (omega (arith, before, here))
          | inr behind ↦ inr (omega (arith, behind, there))
        ]

    dest-eq : b'.offsets x.port_key ≡ dest
    dest-eq = p'.next x.port_key is_active

    place_ref-SameBatch : SameBatch b (place_ref b' x)
    unfolding place_ref
    place_ref-SameBatch = ground (arith, p'.same)

    starts-place_ref : (place_ref b' x).start_offsets ≡ b'.start_offsets
    unfolding place_ref
    starts-place_ref = ground arith

    offsets-place_ref :
        (p : ℕ) → (place_ref b' x).offsets p ≡ (if x.port_key == p then dest + 1 else b'.offsets p)
    unfolding place_ref
    offsets-place_ref p = ground (arith, dest-eq, dest_lt)

    sorted-place_ref : (place_ref b' x).sorted_refs ≡ update b'.sorted_refs dest x
    unfolding place_ref
    sorted-place_ref =
        let in_bounds : ltb (b'.offsets x.port_key) max_batch_size ≡ true =
          ground (arith, dest-eq, dest_lt) in
        rw in_bounds (ap (λ k. update b'.sorted_refs k x) dest-eq)

    extended :
        gather
          (update b'.sorted_refs dest x)
          (start_of x.port_key)
          (count_of x.port_key (ys ++ (x ∷ [])))
        ≡ bucket x.port_key (ys ++ (x ∷ []))
    extended =
        let more : bucket x.port_key (ys ++ (x ∷ [])) ≡ bucket x.port_key ys ++ (x ∷ []) =
          ground (arith, bucket-snoc x.port_key ys x) in
        rw (more, length-append (bucket x.port_key ys) (x ∷ []))
          (gather-extend b'.sorted_refs x (start_of x.port_key) (count_of x.port_key ys)
            ∙ ap (λ rs. rs ++ (x ∷ [])) (p'.sorted x.port_key is_active))

    place_ref-Placing : Placing (place_ref b' x) (ys ++ (x ∷ []))
    place_ref-Placing = record {
      same = place_ref-SameBatch;
      starts = λ p m. rw starts-place_ref (p'.starts p m);
      next = λ p m. ground (arith, offsets-place_ref p, p'.next p m, count_of-snoc p ys x);
      sorted = λ p m. rw sorted-place_ref (elim (Bool-cases (x.port_key == p)) [
        | inl t ↦
            subst
              (λ (q : ℕ).
                gather (update b'.sorted_refs dest x) (start_of q) (count_of q (ys ++ (x ∷ [])))
                ≡ bucket q (ys ++ (x ∷ [])))
              (==→eq _ _ t) extended
        | inr t ↦
            let same : bucket p (ys ++ (x ∷ [])) ≡ bucket p ys =
              ground (arith, bucket-snoc p ys x, t) in
            rw same (
              gather-update_out b'.sorted_refs x (start_of p) (count_of p ys) dest
                (outside p m (ground arith))
              ∙ p'.sorted p m)
      ]);
    }

  place_refs-Placing :
      (n i : ℕ) (b' : LocalityBuffer) (ys zs : List PacketRef)
      → gather b'.input_refs i n ≡ zs
      → xs ≡ ys ++ zs
      → Placing b' ys
      → Placing (place_refs n i b') (ys ++ zs)
  unfolding place_refs gather
  place_refs-Placing zero i b' ys [] e parts p' = rw append-nil p'
  place_refs-Placing zero i b' ys (x ∷ zs) e parts p' = cc
  place_refs-Placing (suc n) i b' ys [] e parts p' = cc
  place_refs-Placing (suc n) i b' ys (x ∷ zs) e parts p' =
      let here : b'.input_refs i ≡ x = cc in
      let inputs : (place_ref b' x).input_refs ≡ b'.input_refs =
        (place_ref-SameBatch b' ys zs x parts p').input_refs ∙ sym p'.same.input_refs in
      let later : gather (place_ref b' x).input_refs (i + 1) n ≡ zs = rw inputs (cc) in
      rw (here, ← (append_assoc ys (x ∷ []) zs))
        (place_refs-Placing n (i + 1) (place_ref b' x) (ys ++ (x ∷ [])) zs later
          (parts ∙ sym (append_assoc ys (x ∷ []) zs)) (place_ref-Placing b' ys zs x parts p'))

  placed-Placing : Placing (placed filled) []
  unfolding gather
  placed-Placing = record {
    same = placed-SameBatch filled;
    starts = λ p m. (placed-offsets filled p m).0;
    next = λ p m. omega (arith, (placed-offsets filled p m).1);
    sorted = λ p m. refl;
  }

  grouped-Placing : 0 < length xs → Placing (group_packets b) xs
  unfolding group_packets
  grouped-Placing some_refs =
      let more : b.current_size == 0 ≡ false = ground (arith, filled.size) in
      let same = placed-SameBatch filled in
      let n : (placed filled).current_size ≡ length xs = same.current_size ∙ filled.size in
      let inputs : gather (placed filled).input_refs 0 (placed filled).current_size ≡ xs =
        rw (n, same.input_refs) filled.inputs in
      rw more (
        unfold placed in
        place_refs-Placing (placed filled).current_size 0 (placed filled) [] xs inputs refl
          placed-Placing)

  slice-Placing :
      (b' : LocalityBuffer) (p : ℕ) → Placing b' xs → get_bucket_slice b' p ≡ bucket p xs
  unfolding get_bucket_slice
  slice-Placing b' p p' = elim (Bool-cases (member p (active b))) [
    | inl m ↦
        let counts : b'.counts p ≡ count_of p xs =
          ap (λ (c : ℕ → ℕ). c p) p'.same.counts ∙ filled.counted p in
        let inside : leb (start_of p + count_of p xs) b'.current_size ≡ true = ground (
          arith,
          filled.size,
          p'.same.current_size,
          filled.counted p,
          offset_of-le b.counts p (active b) m,
          total-Filled filled,
        ) in
        rw (p'.starts p m, counts, inside) (p'.sorted p m)
    | inr m ↦
        let zero_count : count_of p xs ≡ 0 = ground (arith, filled.tracked p, m) in
        let counts : b'.counts p ≡ 0 =
          ap (λ (c : ℕ → ℕ). c p) p'.same.counts ∙ filled.counted p ∙ zero_count in
        rw counts (no_slice _ _ _ _ zero_count)
  ]

  grouped_nil : length xs ≡ 0 → (p : ℕ) → get_bucket_slice (group_packets b) p ≡ bucket p xs
  unfolding group_packets get_bucket_slice
  grouped_nil none_there p =
      let done : b.current_size == 0 ≡ true = ground (arith, filled.size) in
      let zero_count : count_of p xs ≡ 0 = omega (arith, count_of-le p xs) in
      let counts : b.counts p ≡ 0 = filled.counted p ∙ zero_count in
      rw (done, counts) (no_slice _ _ _ _ zero_count)

-- After grouping, the bucket of any port is exactly the batch's references to that port, in their
-- order of arrival.
pub get_bucket_slice-group_packets :
    {b : LocalityBuffer} {xs : List PacketRef} (p : ℕ)
    → Filled b xs
    → get_bucket_slice (group_packets b) p ≡ bucket p xs
get_bucket_slice-group_packets {b} {xs} p filled = elim (dec_lt 0 (length xs)) [
  | yes h ↦ slice-Placing filled (group_packets b) p (grouped-Placing filled h)
  | no h ↦ grouped_nil filled (omega arith) p
]

-- Grouping keeps the batch itself, so that `clear` forgets it afterwards.
pub group_packets-SameBatch :
    {b : LocalityBuffer} {xs : List PacketRef} → Filled b xs → SameBatch b (group_packets b)
group_packets-SameBatch {b} {xs} filled = elim (dec_lt 0 (length xs)) [
  | yes h ↦ (grouped-Placing filled h).same
  | no h ↦
      let done : b.current_size == 0 ≡ true = ground (arith, filled.size) in
      unfold group_packets in
      rw done (record {
        input_refs = refl;
        counts = refl;
        active_buckets = refl;
        active_count = refl;
        current_size = refl;
      })
]
