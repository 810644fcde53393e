-- ===== src/Locality/Batch.antt =====
-- A batch as the list of the references added since the buffer was cleared, and what `clear` and
-- `add_packet` keep.
use nids.Prelude.{
  ℕ, zero, suc, ◌+◌, ◌≤◌, ◌<◌, ◌≡◌, refl, sym, ap, ap₂, ◌∙◌, Bool, false, ◌||◌, inl, inr, List, [],
  ◌∷◌, ◌++◌, length, keep, keep-append, ltb, ◌==◌, if◌then◌else◌, arith, gather, gather-ext,
  gather-snoc, length-append, Bool-cases,
}
use nids.Locality.{
  max_batch_size, PacketRef, update, LocalityBuffer, new, clear_bucket, clear_buckets, clear, track,
  ok, batch_size_exceeded, add_packet,
}

-- The references to a port, in order, and their number.
abbrev pub bucket : ℕ → List PacketRef → List PacketRef
bucket port = keep (λ r. r.port_key == port)

abbrev pub count_of : ℕ → List PacketRef → ℕ
count_of port xs = length (bucket port xs)

abbrev pub member : ℕ → List ℕ → Bool
member p [] = false
member p (q ∷ ps) = q == p || member p ps

abbrev pub IsDistinct : List ℕ → Type 0
IsDistinct [] = Unit {0}
IsDistinct (p ∷ ps) = (member p ps ≡ false) × IsDistinct ps

abbrev pub active : LocalityBuffer → List ℕ
active b = gather b.active_buckets 0 b.active_count

-- The buffer holds the batch `xs`, and nothing is grouped yet or everything is.
pub record Filled (b : LocalityBuffer) (xs : List PacketRef) : Type 0 where
  pub size : b.current_size ≡ length xs
  pub fits : length xs ≤ max_batch_size
  pub inputs : gather b.input_refs 0 (length xs) ≡ xs
  pub counted : (p : ℕ) → b.counts p ≡ count_of p xs
  pub few : b.active_count ≤ length xs
  pub distinct : IsDistinct (active b)
  pub tracked : (p : ℕ) → member p (active b) ≡ ltb 0 (count_of p xs)

pub gather-update {ℓ} :
    {A : Type ℓ} (f : ℕ → A) (v : A) (n : ℕ)
    → gather (update f n v) 0 (n + 1) ≡ gather f 0 n ++ (v ∷ [])
gather-update f v n =
    let e : n + 1 ≡ suc n = omega arith in
    let e0 : 0 + n ≡ n = omega arith in
    rw e (
      gather-snoc (update f n v) 0 n
      ∙ ap₂ (λ ys y. ys ++ (y ∷ [])) (gather-ext _ _ 0 n (λ j a h. ground (arith, h)))
          (rw e0 (ground arith)))

member-append : (p q : ℕ) (ps : List ℕ) → member p (ps ++ (q ∷ [])) ≡ member p ps || q == p
member-append p q [] = ground arith
member-append p q (r ∷ ps) = ground (arith, member-append p q ps)

IsDistinct-append :
    (q : ℕ) (ps : List ℕ) → member q ps ≡ false → IsDistinct ps → IsDistinct (ps ++ (q ∷ []))
IsDistinct-append q [] m d = (refl, tt)
IsDistinct-append q (p ∷ ps) m d =
    ground (arith, member-append p q ps, IsDistinct-append q ps (ground arith) d.1)

pub count_of-snoc :
    (p : ℕ) (xs : List PacketRef) (x : PacketRef)
    → count_of p (xs ++ (x ∷ [])) ≡ count_of p xs + (if x.port_key == p then 1 else 0)
count_of-snoc p xs x = ground (
  arith,
  keep-append (λ r. r.port_key == p) xs (x ∷ []),
  length-append (bucket p xs) (bucket p (x ∷ [])),
)

pub count_of-le : (p : ℕ) (xs : List PacketRef) → count_of p xs ≤ length xs
count_of-le p [] = omega arith
count_of-le p (x ∷ xs) = ground (arith, count_of-le p xs)

module _ {b : LocalityBuffer} {xs : List PacketRef} (filled : Filled b xs) (x : PacketRef)
    (room : length xs < max_batch_size) where
  -- The buffer after the reference was written, and its port tracked.
  abbrev written : LocalityBuffer
  written = record b { input_refs = update b.input_refs b.current_size x }

  active-track :
      active (track written x.port_key)
      ≡ (if count_of x.port_key xs == 0 then active b ++ (x.port_key ∷ []) else active b)
  unfolding track
  active-track = ground (
    arith,
    filled.counted x.port_key,
    filled.few,
    gather-update b.active_buckets x.port_key b.active_count,
  )

  few-track : (track written x.port_key).active_count ≤ length xs + 1
  unfolding track
  few-track = ground (arith, filled.few)

  unchanged :
      ((track written x.port_key).counts ≡ b.counts)
      × ((track written x.port_key).current_size ≡ b.current_size)
      × ((track written x.port_key).input_refs ≡ update b.input_refs b.current_size x)
  unfolding track
  unchanged = ground arith

  added : LocalityBuffer
  added = (add_packet b x).1

  active-added :
      active added
      ≡ (if count_of x.port_key xs == 0 then active b ++ (x.port_key ∷ []) else active b)
  unfolding added add_packet
  active-added = ground (arith, filled.size, active-track)

  counted-added : (p : ℕ) → added.counts p ≡ count_of p (xs ++ (x ∷ []))
  unfolding added add_packet
  counted-added p = ground (
    arith,
    filled.size,
    unchanged,
    filled.counted p,
    filled.counted x.port_key,
    count_of-snoc p xs x,
    count_of-le p xs,
  )

  rest-added :
      (added.current_size ≡ length xs + 1)
      × (added.active_count ≤ length xs + 1)
      × (added.input_refs ≡ update b.input_refs b.current_size x)
  unfolding added add_packet
  rest-added = ground (arith, filled.size, unchanged, few-track)

  inputs-added : gather added.input_refs 0 (length xs + 1) ≡ xs ++ (x ∷ [])
  inputs-added =
      rw (rest-added.2, filled.size)
        (gather-update b.input_refs x (length xs) ∙ ap (λ ys. ys ++ (x ∷ [])) filled.inputs)

  IsDistinct-added : IsDistinct (active added)
  IsDistinct-added = rw active-added (elim (Bool-cases (count_of x.port_key xs == 0)) [
    | inl t ↦ rw t (
        IsDistinct-append x.port_key (active b) (ground (arith, filled.tracked x.port_key))
          filled.distinct)
    | inr t ↦ rw t filled.distinct
  ])

  tracked-added : (p : ℕ) → member p (active added) ≡ ltb 0 (count_of p (xs ++ (x ∷ [])))
  tracked-added p = rw active-added (
      ground (
        arith,
        filled.tracked p,
        filled.tracked x.port_key,
        member-append p x.port_key (active b),
        count_of-snoc p xs x,
      ))

  added-Filled : Filled added (xs ++ (x ∷ []))
  added-Filled =
      let n : length (xs ++ (x ∷ [])) ≡ length xs + 1 = length-append xs (x ∷ []) in
      record {
        size = rest-added.0 ∙ sym n;
        fits = omega (arith, n);
        inputs = rw n inputs-added;
        counted = counted-added;
        few = omega (arith, n, rest-added.1);
        distinct = IsDistinct-added;
        tracked = tracked-added;
      }

-- Up to the batch limit `add_packet` succeeds, and the batch ends with the reference.
pub add_packet-Filled :
    {b : LocalityBuffer} {xs : List PacketRef} (x : PacketRef)
    → Filled b xs
    → length xs < max_batch_size
    → let (result, b') = add_packet b x in (result ≡ ok) × Filled b' (xs ++ (x ∷ []))
add_packet-Filled {b} {xs} x filled room =
    (unfold add_packet in ground (arith, filled.size), unfold added in added-Filled filled x room)

-- A full batch refuses any further reference, and stays as it was.
pub add_packet_full :
    {b : LocalityBuffer} {xs : List PacketRef} (x : PacketRef)
    → Filled b xs
    → length xs ≡ max_batch_size
    → add_packet b x ≡ (batch_size_exceeded, b)
unfolding add_packet
add_packet_full x filled full = ground (arith, filled.size)

-- Nothing is counted.
pub record IsClear (b : LocalityBuffer) : Type 0 where
  pub counts : (p : ℕ) → b.counts p ≡ 0
  pub active_count : b.active_count ≡ 0
  pub current_size : b.current_size ≡ 0

clear_buckets-counts :
    (n i : ℕ) (b : LocalityBuffer) (p : ℕ)
    → (clear_buckets n i b).counts p
      ≡ (if member p (gather b.active_buckets i n) then 0 else b.counts p)
unfolding clear_buckets clear_bucket gather
clear_buckets-counts zero i b p = refl
clear_buckets-counts (suc n) i b p =
    clear_buckets-counts n (i + 1) (clear_bucket b (b.active_buckets i)) p ∙ ground arith

-- Whatever the batch was, `clear` forgets it, though it visits only the active buckets.
pub clear-IsClear : {b : LocalityBuffer} {xs : List PacketRef} → Filled b xs → IsClear (clear b)
unfolding clear
clear-IsClear {b} {xs} filled = record {
  counts = λ p.
      clear_buckets-counts b.active_count 0 b p
      ∙ ground (arith, filled.tracked p, filled.counted p);
  active_count = refl;
  current_size = refl;
}

pub IsClear-Filled : {b : LocalityBuffer} → IsClear b → Filled b []
unfolding gather
IsClear-Filled {b} c = record {
  size = c.current_size;
  fits = omega arith;
  inputs = refl;
  counted = c.counts;
  few = omega (arith, c.active_count);
  distinct = rw c.active_count tt;
  tracked = λ p. rw c.active_count refl;
}

pub new-IsClear : IsClear new
unfolding new
new-IsClear = record { counts = λ p. refl; active_count = refl; current_size = refl }
