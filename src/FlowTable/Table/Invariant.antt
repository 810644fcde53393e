-- ===== src/FlowTable/Table/Invariant.antt =====
-- What the methods of the shared table keep and promise.
use nids.Prelude.{
  ℕ, ◌≤◌, ◌<◌, ◌≡◌, ◌⊎◌, inl, inr, refl, true, false, none, some, List, [], ◌∷◌, length, leb,
  leb→le, leb-false→lt, arith, Bool-cases,
}
use nids.Prelude.Assoc.{
  lookup, insert, remove, contains_key, IsMap, lookup-insert, contains_key-remove, insert-IsMap,
  remove-IsMap, length-insert, length-remove, contains_key-lookup, lookup_of_absent,
}
use nids.FlowKey.{FlowKey}
use nids.FlowTable.Flow.{Packet, FlowState, init, add_packet}
use nids.FlowTable.Table.{flow_key_eq, SharedState, scan_oldest, evict, admit}
use nids.FlowTable.Table.Eviction.{Victim, evict-Victim}

-- One flow to a key, and no more flows than the limit (than one, for a limit of 0).
pub record IsValid (s : SharedState) : Type 0 where
  pub distinct : IsMap s.flow_table
  pub bounded : (length s.flow_table ≤ s.max_flows) ⊎ (length s.flow_table ≤ 1)

-- What the table is left with when a key is let in.
pub data Admitted (s : SharedState) (key : FlowKey) (now : ℕ)
    : List (FlowKey × FlowState) → Type 0 where
  known :
      {m : List (FlowKey × FlowState)}
      → contains_key key s.flow_table ≡ true
      → m ≡ s.flow_table
      → Admitted s key now m
  room :
      {m : List (FlowKey × FlowState)}
      → contains_key key s.flow_table ≡ false
      → (length s.flow_table < s.max_flows) ⊎ (s.flow_table ≡ [])
      → m ≡ insert key (init now) s.flow_table
      → Admitted s key now m
  evicted :
      {m : List (FlowKey × FlowState)}
      → contains_key key s.flow_table ≡ false
      → s.max_flows ≤ length s.flow_table
      → (v : Victim s.flow_table) → m ≡ insert key (init now) (remove v.key s.flow_table)
      → Admitted s key now m

evict_or_empty : (m : List (FlowKey × FlowState)) → IsMap m → ((m ≡ []) × (evict m ≡ [])) ⊎ Victim m
unfolding evict scan_oldest
evict_or_empty [] h = inl (refl, refl)
evict_or_empty ((j, f) ∷ m) h = inr (evict-Victim j f m h)

admit-Admitted :
    (s : SharedState) (key : FlowKey) (now : ℕ)
    → IsMap s.flow_table
    → Admitted s key now (admit s key now)
unfolding admit
admit-Admitted s key now h = elim (Bool-cases (contains_key key s.flow_table)) [
  | inl t ↦ known t (rw t)
  | inr t ↦ elim (Bool-cases (leb s.max_flows (length s.flow_table))) [
    | inr u ↦ room t (inl (leb-false→lt _ _ u)) (rw (t, u))
    | inl u ↦ elim (evict_or_empty s.flow_table h) [
      | inl (e, e') ↦ room t (inr e) (rw (t, u, e', e))
      | inr v ↦ evicted t (leb→le _ _ u) v (rw (t, u, v.evicted))
    ]
  ]
]

-- The flow that a packet of the key meets.
unfoldable pub flow_before : SharedState → FlowKey → ℕ → FlowState
flow_before s key now = elim (lookup key s.flow_table) [ none ↦ init now | some flow ↦ flow ]

unfoldable pub after : SharedState → FlowKey → Packet → SharedState
after s key pkt = record s {
  flow_table =
      insert key (add_packet (flow_before s key pkt.timestamp) pkt).2 (admit s key pkt.timestamp);
}

module _ (s : SharedState) (key : FlowKey) (now : ℕ) (valid : IsValid s) where
  pub admitted : Admitted s key now (admit s key now)
  admitted = admit-Admitted s key now valid.distinct

  -- A new key meets a fresh flow.
  flow_before-init : contains_key key s.flow_table ≡ false → flow_before s key now ≡ init now
  unfolding flow_before
  flow_before-init t = rw (lookup_of_absent key s.flow_table t, flow_before)

  lookup-insert_self :
      (f : FlowState) (m : List (FlowKey × FlowState)) → lookup key (insert key f m) ≡ some f
  lookup-insert_self f m = ground (arith, lookup-insert key key f m, flow_key_eq.eq_iff key key)

  pub lookup-admit_self : lookup key (admit s key now) ≡ some (flow_before s key now)
  lookup-admit_self = elim admitted [
    | known t e ↦
        rw e (unfold flow_before in ground (arith, t, contains_key-lookup key s.flow_table))
    | room t r e ↦ rw (e, flow_before-init t) (lookup-insert_self (init now) s.flow_table)
    | evicted t u v e ↦
        rw (e, flow_before-init t) (lookup-insert_self (init now) (remove v.key s.flow_table))
  ]

  pub admit-IsMap : IsMap (admit s key now)
  admit-IsMap = elim admitted [
    | known t e ↦ rw e valid.distinct
    | room t r e ↦ rw e (insert-IsMap key (init now) s.flow_table valid.distinct)
    | evicted t u v e ↦ rw e (
        insert-IsMap key (init now) (remove v.key s.flow_table)
          (remove-IsMap v.key s.flow_table valid.distinct))
  ]

  pub admit-bounded : (length (admit s key now) ≤ s.max_flows) ⊎ (length (admit s key now) ≤ 1)
  admit-bounded = elim admitted [
    | known t e ↦ rw e valid.bounded
    | room t r e ↦ rw e (ground (arith, t, r, length-insert key (init now) s.flow_table))
    | evicted t u v e ↦ rw e (
        ground (
          arith,
          t,
          u,
          v.held,
          valid.bounded,
          length-insert key (init now) (remove v.key s.flow_table),
          contains_key-remove v.key key s.flow_table valid.distinct,
          contains_key-lookup v.key s.flow_table,
          length-remove v.key s.flow_table,
        ))
  ]
