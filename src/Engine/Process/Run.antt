-- ===== src/Engine/Process/Run.antt =====
-- The engine over a run of packets, as the workers of src/main.rs call it: one packet after another,
-- each with its timestamp.
use nids.Prelude.{
  ℕ, zero, suc, ◌+◌, ◌%◌, ◌^◌, ◌<◌, ◌≡◌, refl, ap, ap₂, sym, subst, ◌∙◌, List, [], ◌∷◌, ◌++◌, map,
  length, arith, gather, length-append,
}
use nids.Parser.Link.{String}
use nids.Parser.Layers.{ParsedPacket}
use nids.Alert.{IdsmMessage}
use nids.Engine.Float.{F64}
use nids.Engine.State.{StatefulDetectionEngine, PendingAlert}
use nids.Engine.Expire.{expire_states}
use nids.Engine.Process.{create_message, create_messages, observe, detect, process_packet}
use nids.Engine.Process.Messages.{create_messages_state, create_messages-seq_no}

-- The numbers from `i` on.
abbrev pub numbers : ℕ → ℕ → List ℕ
numbers i n = gather (λ j. j) i n

numbers-append : (i m n : ℕ) → numbers i m ++ numbers (i + m) n ≡ numbers i (m + n)
unfolding gather
numbers-append i zero n =
    let a : i + 0 ≡ i = omega arith in let b : 0 + n ≡ n = omega arith in rw (a, b)
numbers-append i (suc m) n =
    let a : i + suc m ≡ i + 1 + m = omega arith in
    let b : suc m + n ≡ suc (m + n) = omega arith in
    rw (a, b) (ap (◌∷◌ i) (numbers-append (i + 1) m n))

abbrev pub seq_nos : List IdsmMessage → List ℕ
seq_nos messages = map (λ (message : IdsmMessage). message.seq_no) messages

seq_nos-append : (xs ys : List IdsmMessage) → seq_nos (xs ++ ys) ≡ seq_nos xs ++ seq_nos ys
seq_nos-append [] ys = refl
seq_nos-append (x ∷ xs) ys = ap (◌∷◌ x.seq_no) (seq_nos-append xs ys)

module _ {F : Type 0} ⦃f : F64 F⦄ where
  detect_counter :
      (pkt : ParsedPacket) (now : F) (e : StatefulDetectionEngine F)
      → (detect pkt now (observe pkt now e)).0.alert_counter ≡ e.alert_counter
  unfolding detect observe expire_states
  detect_counter pkt now e = ground arith

  length-create_messages :
      (local_now : ℕ → String) (pending : List PendingAlert) (e : StatefulDetectionEngine F)
      → length (create_messages local_now pending e).1 ≡ length pending
  unfolding create_messages create_message
  length-create_messages local_now [] e = refl
  length-create_messages local_now (p ∷ pending) e = ap suc (
      length-create_messages local_now pending
        (record e { alert_counter = (e.alert_counter + 1) % 2 ^ 64 }))

  -- The messages take the numbers after `counter`, which ends at the last of them.
  abbrev pub Numbered : ℕ → StatefulDetectionEngine F × List IdsmMessage → Type 0
  Numbered counter (e, messages) =
      (seq_nos messages ≡ numbers (counter + 1) (length messages))
      × (e.alert_counter ≡ counter + length messages)

  create_messages-Numbered :
      (local_now : ℕ → String) (pending : List PendingAlert) (s : StatefulDetectionEngine F)
      → s.alert_counter + length (create_messages local_now pending s).1 < 2 ^ 64
      → Numbered s.alert_counter (create_messages local_now pending s)
  create_messages-Numbered local_now pending s h =
      let same = length-create_messages local_now pending s in
      let fits : s.alert_counter + length pending < 2 ^ 64 = omega (arith, same) in
      (
        create_messages-seq_no local_now pending s fits
            ∙ ap (numbers (s.alert_counter + 1)) (sym same),
        ap (λ (e : StatefulDetectionEngine F). e.alert_counter)
              (create_messages_state local_now pending s fits)
            ∙ ap (λ n. s.alert_counter + n) (sym same),
      )

  -- The messages of one packet take the next numbers.
  process_packet-Numbered :
      (e : StatefulDetectionEngine F) (pkt : ParsedPacket) (now : F) (local_now : ℕ → String)
      → e.alert_counter + length (process_packet e pkt now local_now).1 < 2 ^ 64
      → Numbered e.alert_counter (process_packet e pkt now local_now)
  unfolding process_packet
  process_packet-Numbered e pkt now local_now h =
      let (s, pending) = detect pkt now (observe pkt now e) in
      let same : s.alert_counter ≡ e.alert_counter = detect_counter pkt now e in
      subst (λ n. Numbered n (create_messages local_now pending s)) same
        (create_messages-Numbered local_now pending s (omega (arith, same, h)))

  unfoldable pub process_all :
      (ℕ → String)
      → List (ParsedPacket × F)
      → StatefulDetectionEngine F
      → StatefulDetectionEngine F × List IdsmMessage
  process_all local_now [] e = (e, [])
  process_all local_now ((pkt, now) ∷ rest) e =
      let (e', messages) = process_packet e pkt now local_now in
      let (last, later) = process_all local_now rest e' in (last, messages ++ later)

  Numbered-append :
      (counter : ℕ) (e e' : StatefulDetectionEngine F) (messages later : List IdsmMessage)
      → Numbered counter (e, messages)
      → Numbered e.alert_counter (e', later)
      → Numbered counter (e', messages ++ later)
  Numbered-append counter e e' messages later (first, count) (second, total) =
      let n = length-append messages later in
      let start : e.alert_counter + 1 ≡ counter + 1 + length messages = omega (arith, count) in
      (
        seq_nos-append messages later
            ∙ ap₂ ◌++◌ first (second ∙ ap (λ i. numbers i (length later)) start)
            ∙ numbers-append (counter + 1) (length messages) (length later)
            ∙ ap (numbers (counter + 1)) (sym n),
        omega (arith, n, count, total),
      )

  -- Whatever packets an engine processes, its messages are numbered in the order in which they are
  -- made, from the one after its counter and without a gap, as long as the counter fits 64 bits; the
  -- counter ends at the last number.
  pub process_all-seq_no :
      (local_now : ℕ → String) (packets : List (ParsedPacket × F)) (e : StatefulDetectionEngine F)
      → e.alert_counter + length (process_all local_now packets e).1 < 2 ^ 64
      → let (e', messages) = process_all local_now packets e in
        (seq_nos messages ≡ numbers (e.alert_counter + 1) (length messages))
        × (e'.alert_counter ≡ e.alert_counter + length messages)
  unfolding process_all gather
  process_all-seq_no local_now [] e h = (refl, omega arith)
  process_all-seq_no local_now ((pkt, now) ∷ rest) e h =
      let (e', messages) = process_packet e pkt now local_now in
      let (last, later) = process_all local_now rest e' in
      let n = length-append messages later in
      let first = process_packet-Numbered e pkt now local_now (omega (arith, n, h)) in
      Numbered-append e.alert_counter e' last messages later first
        (process_all-seq_no local_now rest e' (omega (arith, n, h, first.1)))
