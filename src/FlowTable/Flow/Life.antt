-- ===== src/FlowTable/Flow/Life.antt =====
-- A flow over its whole life: what it holds after any number of packets.
use nids.Prelude.{
  ℕ, zero, suc, ◌+◌, ◌-◌, ◌≤◌, ◌≡◌, refl, sym, ap, ◌∙◌, false, inl, inr, List, [], ◌∷◌, ◌++◌,
  length, drop, ltb, ltb-false→le, if◌then◌else◌, arith, length-append, length-drop, Bool-cases,
  some, none,
}
use mathlib.Core.List.{append-nil, append_assoc, foldl}
use nids.FlowTable.Flow.{Packet, FlowState, init, add_packet, get_ordered_packets}
use nids.FlowTable.Flow.History.{
  Holds, slide, init-Holds, add_packet_refines, get_ordered_packets-Holds, closes_burst,
}

-- The packets of a flow in turn, from its creation at `now`.
pub add_all : FlowState → List Packet → FlowState
add_all s [] = s
add_all s (pkt ∷ rest) = add_all (add_packet s pkt).2 rest

add_all-Holds :
    (s : FlowState) (h rest : List Packet) → Holds s h → Holds (add_all s rest) (foldl slide h rest)
unfolding add_all
add_all-Holds s h [] holds = holds
add_all-Holds s h (pkt ∷ rest) holds =
    add_all-Holds (add_packet s pkt).2 (slide h pkt) rest (add_packet_refines pkt holds).0

-- The last 100 of a list.
abbrev pub last_100 : List Packet → List Packet
last_100 h = drop (length h - 100) h

drop-snoc :
    (n : ℕ) (h : List Packet) (pkt : Packet)
    → n ≤ length h
    → drop n (h ++ (pkt ∷ [])) ≡ drop n h ++ (pkt ∷ [])
drop-snoc zero h pkt le = refl
drop-snoc (suc n) [] pkt le = absurd (omega arith)
drop-snoc (suc n) (p ∷ h) pkt le = drop-snoc n h pkt (omega arith)

drop-drop : (m n : ℕ) (h : List Packet) → drop m (drop n h) ≡ drop (n + m) h
drop-drop m zero h = let e : 0 + m ≡ m = omega arith in rw e
drop-drop zero (suc n) [] = let e : suc n + 0 ≡ suc n = omega arith in rw e
drop-drop (suc m) (suc n) [] = let e : suc n + suc m ≡ suc (n + suc m) = omega arith in rw e
drop-drop m (suc n) (p ∷ h) =
    let e : suc n + m ≡ suc (n + m) = omega arith in rw e (drop-drop m n h)

slide-last_100 :
    (h : List Packet) (pkt : Packet) → slide (last_100 h) pkt ≡ last_100 (h ++ (pkt ∷ []))
unfolding slide
slide-last_100 h pkt = elim (Bool-cases (ltb (length h) 100)) [
  | inl t ↦
      let none_over : length h - 100 ≡ 0 = ground arith in
      let none_over' : length (h ++ (pkt ∷ [])) - 100 ≡ 0 =
        ground (arith, length-append h (pkt ∷ [])) in
      rw (none_over, none_over', t)
  | inr t ↦
      let many : 100 ≤ length h = ltb-false→le _ _ t in
      let over : length (h ++ (pkt ∷ [])) - 100 ≡ length h - 100 + 1 =
        omega (arith, length-append h (pkt ∷ [])) in
      let whole : ltb (length (drop (length h - 100) h)) 100 ≡ false =
        ground (arith, length-drop (length h - 100) h) in
      rw (whole, over)
        (ap (λ ys. ys ++ (pkt ∷ [])) (drop-drop 1 (length h - 100) h)
          ∙ sym (drop-snoc (length h - 100 + 1) h pkt (omega arith)))
]

foldl-slide : (seen rest : List Packet) → foldl slide (last_100 seen) rest ≡ last_100 (seen ++ rest)
foldl-slide seen [] = rw append-nil
foldl-slide seen (pkt ∷ rest) =
    rw (slide-last_100 seen pkt)
      (foldl-slide (seen ++ (pkt ∷ [])) rest ∙ ap last_100 (append_assoc seen (pkt ∷ []) rest))

-- However many packets a flow has seen, its state holds exactly the last 100 of them in order of
-- arrival.
pub add_all-last_100 :
    (now : ℕ) (packets : List Packet) → Holds (add_all (init now) packets) (last_100 packets)
add_all-last_100 now packets =
    rw (← (foldl-slide [] packets)) (add_all-Holds (init now) [] packets (init-Holds now))

-- What `get_ordered_packets` returns after any packets is the last 100 of them.
pub get_ordered_packets-add_all :
    (now : ℕ) (packets : List Packet)
    → get_ordered_packets (add_all (init now) packets) ≡ last_100 packets
get_ordered_packets-add_all now packets = get_ordered_packets-Holds (add_all-last_100 now packets)

-- The packet after any others is reported as a burst exactly when at least 100 came before it and it
-- is stamped less than a minute after the hundredth last of them, or before that one; the snapshot is
-- those 100, without it.
pub burst_after :
    (now : ℕ) (packets : List Packet) (pkt : Packet)
    → let (burst_detected, snapshot, s') = add_packet (add_all (init now) packets) pkt in
      (burst_detected ≡ closes_burst (last_100 packets) pkt)
      × (snapshot ≡ (if closes_burst (last_100 packets) pkt then some (last_100 packets) else none))
burst_after now packets pkt =
    let (_, burst, snapshot) = add_packet_refines pkt (add_all-last_100 now packets) in
    (burst, snapshot)
