-- ===== src/Engine/Process/Messages.antt =====
-- The messages of one packet: their numbers, and what making them changes.
use nids.Prelude.{
  ℕ, ◌+◌, ◌%◌, ◌^◌, ◌<◌, ◌≡◌, refl, ap, ap₂, ◌∙◌, List, [], ◌∷◌, map, length, arith, gather,
}
use nids.Parser.Link.{String}
use nids.Alert.{IdsmMessage}
use nids.Engine.Float.{F64}
use nids.Engine.State.{StatefulDetectionEngine, PendingAlert}
use nids.Engine.Process.{create_message, create_messages}

module _ {F : Type 0} ⦃f : F64 F⦄ where
  -- Making messages changes the counter alone.
  pub create_messages_state :
      (local_now : ℕ → String) (pending : List PendingAlert) (e : StatefulDetectionEngine F)
      → e.alert_counter + length pending < 2 ^ 64
      → (create_messages local_now pending e).0
        ≡ (record e { alert_counter = e.alert_counter + length pending })
  unfolding create_messages create_message
  create_messages_state local_now [] e h = ap (λ n. record e { alert_counter = n }) (omega arith)
  create_messages_state local_now (p ∷ pending) e h =
      create_messages_state local_now pending
        (record e { alert_counter = (e.alert_counter + 1) % 2 ^ 64 }) (omega arith)
      ∙ ap (λ n. record e { alert_counter = n }) (omega arith)

  -- The messages of a packet are numbered in order from the one after the counter, which ends at the
  -- last of them.
  pub create_messages-seq_no :
      (local_now : ℕ → String) (pending : List PendingAlert) (e : StatefulDetectionEngine F)
      → e.alert_counter + length pending < 2 ^ 64
      → map (λ (message : IdsmMessage). message.seq_no) (create_messages local_now pending e).1
        ≡ gather (λ i. i) (e.alert_counter + 1) (length pending)
  unfolding create_messages create_message gather
  create_messages-seq_no local_now [] e h = refl
  create_messages-seq_no local_now (p ∷ pending) e h =
      let e' = record e { alert_counter = (e.alert_counter + 1) % 2 ^ 64 } in
      let whole : (e.alert_counter + 1) % 2 ^ 64 ≡ e.alert_counter + 1 = omega arith in
      let rest = create_messages-seq_no local_now pending e' (omega arith) in
      ap₂ ◌∷◌ whole (rest ∙ ap (λ n. gather (λ i. i) (n + 1) (length pending)) whole)
