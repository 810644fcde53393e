-- ===== src/FlowTable/Table/Eviction.antt =====
-- The eviction in `process_packet` of src/flow_table.rs: the scan for the least recently seen flow.
use nids.Prelude.{
  ℕ, ◌≤◌, ◌≡◌, ◌⊎◌, inl, inr, refl, Option, none, some, List, [], ◌∷◌, All, ltb, arith, Bool-cases,
  sym, ap, ◌∙◌, ltb→lt, ltb-false→le,
}
use nids.Prelude.Assoc.{lookup, remove, IsMap, lookup-head, lookup-tail}
use nids.FlowKey.{FlowKey}
use nids.FlowTable.Flow.{FlowState}
use nids.FlowTable.Table.{flow_key_eq, scan_oldest, evict}

-- Every flow was seen at `ts` or later.
abbrev pub NotBefore : ℕ → List (FlowKey × FlowState) → Type 0
NotBefore ts = All (λ kv. ts ≤ kv.1.last_seen_ts)

NotBefore-le : (a b : ℕ) (m : List (FlowKey × FlowState)) → a ≤ b → NotBefore b m → NotBefore a m
NotBefore-le a b [] h n = tt
NotBefore-le a b (kv ∷ m) h n = (omega arith, NotBefore-le a b m h n.1)

-- What the scan from the candidate (k, ts) ends with: the candidate or an entry of the list, seen
-- no later than the candidate and than any entry.
record Scanned (m : List (FlowKey × FlowState)) (k : FlowKey) (ts : ℕ)
    (found : Option FlowKey × Option ℕ) : Type 0 where
  key : FlowKey
  seen : ℕ
  found_is : found ≡ (some key, some seen)
  below : seen ≤ ts
  least : NotBefore seen m
  origin :
      ((key ≡ k) × (seen ≡ ts))
      ⊎ ((f : FlowState) × (lookup key m ≡ some f) × (f.last_seen_ts ≡ seen))

scan_oldest-Scanned :
    (m : List (FlowKey × FlowState)) (k : FlowKey) (ts : ℕ)
    → IsMap m
    → Scanned m k ts (scan_oldest m (some k) (some ts))
unfolding scan_oldest
scan_oldest-Scanned [] k ts h = record {
  key = k;
  seen = ts;
  found_is = refl;
  below = omega arith;
  least = tt;
  origin = inl (refl, refl);
}
scan_oldest-Scanned ((j, f) ∷ m) k ts h = elim (Bool-cases (ltb f.last_seen_ts ts)) [
  | inl t ↦
      let r = scan_oldest-Scanned m j f.last_seen_ts h.1 in
      record {
        key = r.key;
        seen = r.seen;
        found_is = rw t r.found_is;
        below = omega (arith, r.below, ltb→lt _ _ t);
        least = (r.below, r.least);
        origin = inr (elim r.origin [
          | inl (e, e') ↦ (f, rw e (lookup-head j f m), sym e')
          | inr (g, l, e) ↦ (g, lookup-tail j r.key f g m h.0 l, e)
        ]);
      }
  | inr t ↦
      let r = scan_oldest-Scanned m k ts h.1 in
      record {
        key = r.key;
        seen = r.seen;
        found_is = rw t r.found_is;
        below = r.below;
        least = (omega (arith, r.below, ltb-false→le _ _ t), r.least);
        origin = elim r.origin [
          | inl same ↦ inl same
          | inr (g, l, e) ↦ inr (g, lookup-tail j r.key f g m h.0 l, e)
        ];
      }
]

-- From a table that is not empty eviction removes one flow, and none was seen before it.
pub record Victim (m : List (FlowKey × FlowState)) : Type 0 where
  pub key : FlowKey
  pub flow : FlowState
  pub held : lookup key m ≡ some flow
  pub least : NotBefore flow.last_seen_ts m
  pub evicted : evict m ≡ remove key m

evict-remove :
    (m : List (FlowKey × FlowState)) (k : FlowKey)
    → (scan_oldest m none none).0 ≡ some k
    → evict m ≡ remove k m
unfolding evict
evict-remove m k e = ground arith

-- On a table that is not empty the eviction removes the key of one of its flows, and no flow was
-- seen before that one.
pub evict-Victim :
    (j : FlowKey) (f : FlowState) (m : List (FlowKey × FlowState))
    → IsMap ((j, f) ∷ m)
    → Victim ((j, f) ∷ m)
unfolding scan_oldest
evict-Victim j f m h =
    let r = scan_oldest-Scanned m j f.last_seen_ts h.1 in
    elim r.origin [
      | inl (e, e') ↦ record {
        key = j;
        flow = f;
        held = lookup-head j f m;
        least = (omega arith, NotBefore-le f.last_seen_ts r.seen m (omega (arith, e')) r.least);
        evicted = evict-remove ((j, f) ∷ m) j (ap (λ p. p.0) r.found_is ∙ ap some e);
      }
      | inr (g, l, e) ↦ record {
        key = r.key;
        flow = g;
        held = lookup-tail j r.key f g m h.0 l;
        least =
            (omega (arith, r.below), NotBefore-le g.last_seen_ts r.seen m (omega arith) r.least);
        evicted = evict-remove ((j, f) ∷ m) r.key (ap (λ p. p.0) r.found_is);
      }
    ]
