-- ===== src/FlowTable/Flow/History.antt =====
-- `add_packet` of src/flow_table.rs against the history of a flow: the list of the packets that
-- the buffer is to hold, oldest first.
use nids.Prelude.{
  ℕ, zero, suc, ◌+◌, ◌%◌, ◌≤◌, ◌<◌, ◌≡◌, refl, sym, ap, ◌∙◌, Bool, true, false, inl, inr, Option,
  none, some, List, [], ◌∷◌, ◌++◌, map, length, drop, get_or, set, leb, ltb, ltb→lt, ltb-false→le,
  ◌==◌, ◌&&◌, if◌then◌else◌, arith, length-set, length-append, Bool-cases, get_or-set_ne, gather,
  gather-ext,
}
use mathlib.Core.List.{map-append}
use nids.FlowTable.Flow.{
  Packet, FlowState, init, push_some, collect, get_ordered_packets, add_below, add_full, burst,
  add_packet,
}
use nids.FlowTable.Flow.Ring.{window, window-set, window-first, window-set_full}

-- The slot of the oldest packet.
abbrev pub start : FlowState → ℕ
start s = if ltb s.count 100 then 0 else s.head

abbrev pub first_ts : List Packet → ℕ → ℕ
first_ts [] d = d
first_ts (pkt ∷ rest) d = pkt.timestamp

-- The state holds the packets `h`, oldest first.
pub record Holds (s : FlowState) (h : List Packet) : Type 0 where
  pub buffer_full : length s.buffer ≡ 100
  pub stamps_full : length s.timestamps ≡ 100
  pub head_in : s.head < 100
  pub count_is : s.count ≡ length h
  pub count_in : s.count ≤ 100
  pub head_below : s.count < 100 → s.head ≡ s.count
  pub packets : window s.buffer none (start s) s.count ≡ map some h
  pub stamps : window s.timestamps 0 (start s) s.count ≡ map (λ p. p.timestamp) h
  pub oldest : s.oldest_ts ≡ first_ts h s.oldest_ts

-- What a flow is to do: keep the last 100 packets.
unfoldable pub slide : List Packet → Packet → List Packet
slide h pkt = if ltb (length h) 100 then h ++ (pkt ∷ []) else drop 1 h ++ (pkt ∷ [])

pub init-Holds : (now : ℕ) → Holds (init now) []
unfolding init window gather
init-Holds now = record {
  buffer_full = refl;
  stamps_full = refl;
  head_in = omega arith;
  count_is = refl;
  count_in = omega arith;
  head_below = λ h. refl;
  packets = refl;
  stamps = refl;
  oldest = refl;
}

oldest_below :
    (h : List Packet) (pkt : Packet) (count ts : ℕ)
    → count ≡ length h
    → ts ≡ first_ts h ts
    → let ts' = if count == 0 then pkt.timestamp else ts in ts' ≡ first_ts (h ++ (pkt ∷ [])) ts'
oldest_below [] pkt count ts e o = ground arith
oldest_below (p ∷ h) pkt count ts e o = ground arith

module _ {s : FlowState} {h : List Packet} (holds : Holds s h) (pkt : Packet) where
  module _ (room : s.count < 100) where
    start_below : start (add_below s pkt) ≡ 0
    unfolding add_below
    start_below = ground (arith, holds.head_below room)

    start_zero : start s ≡ 0
    start_zero = ground arith

    extend {ℓ} :
        {A : Type ℓ} (xs : List A) (d v : A)
        → length xs ≡ 100
        → window (set xs s.head v) d (start (add_below s pkt)) (s.count + 1)
          ≡ window xs d (start s) s.count ++ (v ∷ [])
    extend xs d v full =
        let e : s.count + 1 ≡ suc s.count = omega arith in
        rw (start_below, start_zero, e)
          (window-set xs d v 0 s.count s.head full room (omega (arith, holds.head_below room)))

    add_below-Holds : Holds (add_below s pkt) (h ++ (pkt ∷ []))
    unfolding add_below
    add_below-Holds = record {
      buffer_full = length-set s.buffer s.head (some pkt) ∙ holds.buffer_full;
      stamps_full = length-set s.timestamps s.head pkt.timestamp ∙ holds.stamps_full;
      head_in = omega arith;
      count_is = omega (arith, holds.count_is, length-append h (pkt ∷ []));
      count_in = omega arith;
      head_below = λ (b : s.count + 1 < 100). omega (arith, holds.head_below room);
      packets =
          extend s.buffer none (some pkt) holds.buffer_full
          ∙ ap (λ ys. ys ++ (some pkt ∷ [])) holds.packets
          ∙ sym (map-append some h (pkt ∷ []));
      stamps =
          extend s.timestamps 0 pkt.timestamp holds.stamps_full
          ∙ ap (λ ys. ys ++ (pkt.timestamp ∷ [])) holds.stamps
          ∙ sym (map-append (λ p. p.timestamp) h (pkt ∷ []));
      oldest = oldest_below h pkt s.count s.oldest_ts holds.count_is holds.oldest;
    }

first_of_stamps :
    (h : List Packet) (x : ℕ) (xs : List ℕ) (pkt : Packet) (d : ℕ)
    → x ∷ xs ≡ map (λ p. p.timestamp) h
    → x ≡ first_ts (h ++ (pkt ∷ [])) d
first_of_stamps [] x xs pkt d e = cc
first_of_stamps (p ∷ h) x xs pkt d e = cc

module _ {s : FlowState} {first : Packet} {h : List Packet} (holds : Holds s (first ∷ h))
    (pkt : Packet) where
  module _ (full : s.count ≡ 100) where
    start_head : start s ≡ s.head
    start_head = ground arith

    start_full : start (add_full s pkt) ≡ (s.head + 1) % 100
    unfolding add_full
    start_full = ground arith

    -- A whole window is its first slot and the window behind it.
    behind {ℓ} :
        {A : Type ℓ} (xs : List A) (d : A)
        → window xs d (start s) s.count ≡ get_or xs s.head d ∷ window xs d ((s.head + 1) % 100) 99
    behind xs d = rw (start_head, full) (window-first xs d s.head 99 holds.head_in)

    packets_behind : window s.buffer none ((s.head + 1) % 100) 99 ≡ map some h
    packets_behind = cc (behind s.buffer none, holds.packets)

    stamps_behind : window s.timestamps 0 ((s.head + 1) % 100) 99 ≡ map (λ p. p.timestamp) h
    stamps_behind = cc (behind s.timestamps 0, holds.stamps)

    oldest_full : (add_full s pkt).oldest_ts ≡ first_ts (h ++ (pkt ∷ [])) (add_full s pkt).oldest_ts
    unfolding add_full
    oldest_full =
        rw (get_or-set_ne s.timestamps s.head ((s.head + 1) % 100) pkt.timestamp 0 (omega arith)) (
          first_of_stamps h _ _ pkt _ (
            sym (window-first s.timestamps 0 ((s.head + 1) % 100) 98 (omega arith))
            ∙ stamps_behind))

    add_full-Holds : Holds (add_full s pkt) (h ++ (pkt ∷ []))
    unfolding add_full
    add_full-Holds = record {
      buffer_full = length-set s.buffer s.head (some pkt) ∙ holds.buffer_full;
      stamps_full = length-set s.timestamps s.head pkt.timestamp ∙ holds.stamps_full;
      head_in = omega arith;
      count_is = omega (arith, holds.count_is, length-append h (pkt ∷ []));
      count_in = holds.count_in;
      head_below = λ (b : s.count < 100). absurd (omega arith);
      packets =
          rw (start_full, full)
            (window-set_full s.buffer none (some pkt) s.head holds.buffer_full holds.head_in
              ∙ ap (λ ys. ys ++ (some pkt ∷ [])) packets_behind
              ∙ sym (map-append some h (pkt ∷ [])));
      stamps =
          rw (start_full, full)
            (window-set_full s.timestamps 0 pkt.timestamp s.head holds.stamps_full holds.head_in
              ∙ ap (λ ys. ys ++ (pkt.timestamp ∷ [])) stamps_behind
              ∙ sym (map-append (λ p. p.timestamp) h (pkt ∷ [])));
      oldest = oldest_full;
    }

push_some-gather :
    (index : ℕ → ℕ) (buffer : List (Option Packet)) (i n : ℕ) (h : List Packet)
    → gather (λ j. get_or buffer (index j) none) i n ≡ map some h
    → collect index buffer i n ≡ h
unfolding gather collect
push_some-gather index buffer i zero [] e = refl
push_some-gather index buffer i zero (p ∷ h) e = cc
push_some-gather index buffer i (suc n) [] e = cc
push_some-gather index buffer i (suc n) (p ∷ h) e =
    let here : get_or buffer (index i) none ≡ some p = cc in
    rw (here, push_some) (ap (◌∷◌ p) (push_some-gather index buffer (i + 1) n h (cc)))

collect_below :
    {s : FlowState} {h : List Packet}
    → Holds s h
    → s.count < 100
    → collect (λ i. i) s.buffer 0 s.count ≡ h
unfolding window
collect_below {s} {h} holds room =
    push_some-gather (λ i. i) s.buffer 0 s.count h
      (gather-ext _ (λ j. get_or s.buffer ((start s + j) % 100) none) 0 s.count
          (λ j a b. ap (λ k. get_or s.buffer k none) (ground arith))
        ∙ holds.packets)

collect_full :
    {s : FlowState} {h : List Packet}
    → Holds s h
    → s.count ≡ 100
    → collect (λ i. (s.head + i) % 100) s.buffer 0 100 ≡ h
unfolding window
collect_full {s} {h} holds full =
    let at_head : start s ≡ s.head = ground arith in
    push_some-gather (λ i. (s.head + i) % 100) s.buffer 0 100 h
      (rw (at_head, full) at holds.packets)

no_packets : (h : List Packet) → length h ≡ 0 → [] ≡ h
no_packets [] e = refl
no_packets (p ∷ h) e = absurd (omega arith)

-- What `get_ordered_packets` returns is the packets held, oldest first.
pub get_ordered_packets-Holds :
    {s : FlowState} {h : List Packet} → Holds s h → get_ordered_packets s ≡ h
unfolding get_ordered_packets
get_ordered_packets-Holds {s} {h} holds =
    ground
      (arith, holds.count_is, holds.count_in, no_packets h, collect_below holds, collect_full holds)

-- The packet closes a burst over the packets held: there are 100, and it comes less than a minute,
-- in nanoseconds, after the oldest of them, or before it.
unfoldable pub closes_burst : List Packet → Packet → Bool
closes_burst h pkt = leb 100 (length h) && ltb pkt.timestamp (first_ts h 0 + 60000000000)

abbrev Refines : FlowState → List Packet → Packet → Type 0
Refines s h pkt =
    let (burst_detected, snapshot, s') = add_packet s pkt in
    Holds s' (slide h pkt)
    × (burst_detected ≡ closes_burst h pkt)
    × (snapshot ≡ (if closes_burst h pkt then some h else none))

Refines-below :
    {s : FlowState} {h : List Packet} (pkt : Packet)
    → Holds s h
    → ltb s.count 100 ≡ true
    → Refines s h pkt
unfolding add_packet slide closes_burst
Refines-below {s} {h} pkt holds t =
    let short : ltb (length h) 100 ≡ true = ground arith in
    let few : leb 100 (length h) ≡ false = ground arith in
    rw (t, short, few) (add_below-Holds holds pkt (ltb→lt _ _ t), refl, refl)

burst_since :
    (s : FlowState) (pkt : Packet) (ts : ℕ)
    → s.oldest_ts ≡ ts
    → burst s pkt ≡ ltb pkt.timestamp (ts + 60000000000)
unfolding burst
burst_since s pkt ts e = ground (arith, e)

Refines-full :
    {s : FlowState} (h : List Packet) (pkt : Packet)
    → Holds s h
    → ltb s.count 100 ≡ false
    → Refines s h pkt
unfolding add_packet slide closes_burst
Refines-full [] pkt holds t = absurd (omega (arith, holds.count_is, ltb-false→le _ _ t))
Refines-full {s} (first ∷ h) pkt holds t =
    let short : ltb (length (first ∷ h)) 100 ≡ false = ground arith in
    let many : leb 100 (length (first ∷ h)) ≡ true = ground arith in
    let full : s.count ≡ 100 = omega (arith, ltb-false→le _ _ t) in
    rw
      (
        t,
        short,
        many,
        get_ordered_packets-Holds holds,
        burst_since s pkt first.timestamp holds.oldest,
      )
      (add_full-Holds holds pkt full, refl, refl)

-- `add_packet` on a state that holds `h` leaves it holding the last 100 of `h` and the packet,
-- reports a burst exactly when the packet closes one, and then hands out `h` itself.
pub add_packet_refines :
    {s : FlowState} {h : List Packet} (pkt : Packet)
    → Holds s h
    → let (burst_detected, snapshot, s') = add_packet s pkt in
      Holds s' (slide h pkt)
      × (burst_detected ≡ closes_burst h pkt)
      × (snapshot ≡ (if closes_burst h pkt then some h else none))
add_packet_refines {s} {h} pkt holds = elim (Bool-cases (ltb s.count 100)) [
  | inl t ↦ Refines-below pkt holds t
  | inr t ↦ Refines-full h pkt holds t
]
