-- ===== src/Locality/Drain.antt =====
-- A round of the capture loop of src/main.rs on the buffer: clear it, add the packets of a block,
-- group them, and read the active buckets in turn.
use nids.Prelude.{
  ℕ, zero, suc, ◌+◌, ◌≤◌, ◌≡◌, refl, sym, List, [], ◌∷◌, ◌++◌, length, arith, take, length-append,
  subst,
}
use mathlib.Core.List.{append_assoc, append-nil, flat_map, Perm, perm_middle}
use mathlib.Core.List.Perm
use nids.Prelude.{◌==◌, true, false, inl, inr, Bool-cases, All, ==→eq, ap₂, fun_ext, gather}
use nids.Locality.Batch.{bucket, member, IsDistinct}
use nids.Locality.{
  max_batch_size, PacketRef, LocalityBuffer, clear, add_packet, group_packets, get_bucket_slice,
}
use nids.Locality.Batch.{
  active, Filled, add_packet-Filled, add_packet_full, clear-IsClear, IsClear-Filled,
}
use nids.Locality.Offsets.{All-in-active, SameBatch-Filled}
use nids.Locality.Grouping.{get_bucket_slice-group_packets, group_packets-SameBatch}

-- The result of each `add_packet` is dropped.
pub add_all : LocalityBuffer → List PacketRef → LocalityBuffer
add_all b [] = b
add_all b (x ∷ xs) = add_all (add_packet b x).1 xs

-- The references that the loop hands on, bucket by bucket.
pub drain : LocalityBuffer → List PacketRef
drain b = flat_map (get_bucket_slice b) (active b)

pub process_block : LocalityBuffer → List PacketRef → LocalityBuffer
process_block b xs = group_packets (add_all (clear b) xs)

pub add_all-Filled :
    (b : LocalityBuffer) (seen xs : List PacketRef)
    → Filled b seen
    → length seen + length xs ≤ max_batch_size
    → Filled (add_all b xs) (seen ++ xs)
unfolding add_all
add_all-Filled b seen [] filled fits = rw append-nil filled
add_all-Filled b seen (x ∷ xs) filled fits = rw (← (append_assoc seen (x ∷ []) xs)) (
    add_all-Filled (add_packet b x).1 (seen ++ (x ∷ [])) xs
      (add_packet-Filled x filled (omega arith)).1 (omega (arith, length-append seen (x ∷ []))))

add_all_full :
    (b : LocalityBuffer) (seen xs : List PacketRef)
    → Filled b seen
    → length seen ≡ max_batch_size
    → add_all b xs ≡ b
unfolding add_all
add_all_full b seen [] filled full = refl
add_all_full b seen (x ∷ xs) filled full =
    rw (add_packet_full x filled full) (add_all_full b seen xs filled full)

-- However many packets a block has, the batch is the first 4096 of them.
add_all-take :
    (b : LocalityBuffer) (seen xs : List PacketRef) (room : ℕ)
    → Filled b seen
    → length seen + room ≡ max_batch_size
    → Filled (add_all b xs) (seen ++ take room xs)
unfolding add_all
add_all-take b seen [] zero filled e = rw append-nil filled
add_all-take b seen [] (suc room) filled e = rw append-nil filled
add_all-take b seen (x ∷ xs) zero filled e =
    rw (add_packet_full x filled (omega arith), append-nil)
      (subst (λ c. Filled c seen) (sym (add_all_full b seen xs filled (omega arith))) filled)
add_all-take b seen (x ∷ xs) (suc room) filled e =
    rw (← (append_assoc seen (x ∷ []) (take room xs))) (
      add_all-take (add_packet b x).1 (seen ++ (x ∷ [])) xs room
        (add_packet-Filled x filled (omega arith)).1 (omega (arith, length-append seen (x ∷ []))))

-- After a round on any batch the batch is the first 4096 references of the block.
pub process_block-Filled :
    (b : LocalityBuffer) (old xs : List PacketRef)
    → Filled b old
    → Filled (process_block b xs) (take max_batch_size xs)
unfolding process_block
process_block-Filled b old xs filled =
    let added =
      add_all-take (clear b) [] xs max_batch_size (IsClear-Filled (clear-IsClear filled))
        (omega arith) in
    SameBatch-Filled (group_packets-SameBatch added) added

-- One more reference goes into one bucket of distinct ports.
bucket_absent :
    (x : PacketRef) (xs : List PacketRef) (ps : List ℕ)
    → member x.port_key ps ≡ false
    → flat_map (λ p. bucket p (x ∷ xs)) ps ≡ flat_map (λ p. bucket p xs) ps
unfolding flat_map
bucket_absent x xs [] m = refl
bucket_absent x xs (p ∷ ps) m = ground (arith, bucket_absent x xs ps)

bucket_present :
    (x : PacketRef) (xs : List PacketRef) (ps : List ℕ)
    → IsDistinct ps
    → member x.port_key ps ≡ true
    → Perm (flat_map (λ p. bucket p (x ∷ xs)) ps) (x ∷ flat_map (λ p. bucket p xs) ps)
unfolding flat_map
bucket_present x xs [] d m = cc
bucket_present x xs (p ∷ ps) d m = elim (Bool-cases (x.port_key == p)) [
  | inl t ↦
      let here : x.port_key ≡ p = ==→eq _ _ t in
      let absent : member x.port_key ps ≡ false = rw here d.0 in
      rw (t, bucket_absent x xs ps absent) (Perm.refl _)
  | inr t ↦
      let later : member x.port_key ps ≡ true = ground (arith, m, t) in
      rw t (
        Perm.trans (Perm.append_left (bucket p xs) (bucket_present x xs ps d.1 later))
          (perm_middle (bucket p xs) (flat_map (λ p. bucket p xs) ps)))
]

no_buckets : (ps : List ℕ) → flat_map (λ (p : ℕ). bucket p []) ps ≡ []
unfolding flat_map
no_buckets [] = refl
no_buckets (p ∷ ps) = no_buckets ps

-- The buckets of distinct ports among which each reference's is have all the references.
buckets-Perm :
    (xs : List PacketRef) (ps : List ℕ)
    → IsDistinct ps
    → All (λ x. member x.port_key ps ≡ true) xs
    → Perm (flat_map (λ p. bucket p xs) ps) xs
buckets-Perm [] ps d h = rw (no_buckets ps) (Perm.refl _)
buckets-Perm (x ∷ xs) ps d h =
    Perm.trans (bucket_present x xs ps d h.0) (Perm.cons x (buckets-Perm xs ps d h.1))

drain-grouped :
    {b : LocalityBuffer} {xs : List PacketRef}
    → Filled b xs
    → drain (group_packets b) ≡ flat_map (λ p. bucket p xs) (active b)
unfolding drain
drain-grouped {b} {xs} filled =
    let same = group_packets-SameBatch filled in
    ap₂ (λ (f : ℕ → List PacketRef) (ps : List ℕ). flat_map f ps)
      (fun_ext (λ p. get_bucket_slice-group_packets p filled))
      (ap₂ (λ (f : ℕ → ℕ) (n : ℕ). gather f 0 n) same.active_buckets same.active_count)

-- What a round hands on, bucket by bucket, is a rearrangement of the first 4096 references of the
-- block: none of these is lost and none is handed on twice.
pub drain-Perm :
    {b : LocalityBuffer} {old : List PacketRef} (xs : List PacketRef)
    → Filled b old
    → Perm (drain (process_block b xs)) (take max_batch_size xs)
unfolding process_block
drain-Perm {b} xs filled =
    let added =
      add_all-take (clear b) [] xs max_batch_size (IsClear-Filled (clear-IsClear filled))
        (omega arith) in
    rw (drain-grouped added)
      (buckets-Perm (take max_batch_size xs) _ added.distinct (All-in-active added))
