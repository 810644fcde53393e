-- ===== src/Engine/Rates.antt =====
-- The rate trackers of src/engine.rs and what one matching packet does to them: the timestamps of a
-- rule's matching packets, and of those that count as new connections, by tracking key.
pub mod Lookup
pub mod Window
pub mod Thresholds
pub mod Refines
pub mod Alerts
pub mod Bounds
use nids.Prelude.{
  unwrap_or, ℕ, ◌+◌, ◌≡◌, ◌%◌, ◌^◌, Bool, true, false, not, ◌&&◌, ◌||◌, Option, none, some, List,
  [], ◌∷◌, ◌++◌, length, keep, leb, if◌then◌else◌, arith,
}
use nids.Prelude.Assoc.{lookup, insert, remove}
use nids.Parser.Link.{String}
use nids.Parser.Layers.{ParsedPacket, TransportLayer, tcp_layer}
use nids.Alert.{protocol_conformant_flood}
use nids.Engine.Text.{text, decimal, string_eq, nat_eq}
use nids.Engine.Address.{and_then, or_else}
use nids.Engine.Float.{F64}
use nids.Engine.Config.{EvaluatedRule}
use nids.Engine.State.{Tracker, PendingAlert}
use nids.Engine.Rules.{is_syn, is_ack, max_conn_rate, resolve_tracking_key}

module _ {F : Type 0} where
  -- `get(&id).and_then(|m| m.get(&key))`
  unfoldable pub stamps_at : ℕ → String → Tracker F → Option (List F)
  stamps_at id key tracker = and_then (lookup id tracker) (lookup key)

  -- `entry(id).or_default().entry(key).or_default().push(now)`
  unfoldable pub push : ℕ → String → F → Tracker F → Tracker F
  push id key now tracker =
      let per_key = unwrap_or [] (lookup id tracker) in
      insert id (insert key (unwrap_or [] (lookup key per_key) ++ (now ∷ [])) per_key) tracker

  -- `retain` on the timestamps of one key, if it is there.
  unfoldable pub retain : (F → Bool) → ℕ → String → Tracker F → Tracker F
  retain p id key tracker = elim (lookup id tracker) [
    | none ↦ tracker
    | some per_key ↦ elim (lookup key per_key) [
      | none ↦ tracker
      | some ts ↦ insert id (insert key (keep p ts) per_key) tracker
    ]
  ]

  unfoldable pub forget : ℕ → String → Tracker F → Tracker F
  forget id key tracker = elim (lookup id tracker) [
    | none ↦ tracker
    | some per_key ↦ insert id (remove key per_key) tracker
  ]

-- For a protocol other than TCP every matching packet counts.
unfoldable pub is_new_tcp_conn : ParsedPacket → Bool
is_new_tcp_conn pkt = elim pkt.transport [
  | tcp_layer tcp ↦ is_syn tcp && not (is_ack tcp)
  | _ ↦ true
]

module _ {F : Type 0} ⦃f : F64 F⦄ where
  -- now - t < window
  abbrev pub is_fresh : F → F → F → Bool
  is_fresh now window t = f.lt (f.sub now t) window

  -- The count of the fresh timestamps, if it has reached the limit.
  unfoldable pub reached : F → F → ℕ → Option (List F) → Option ℕ
  reached now window limit none = none
  reached now window limit (some ts) =
      let count = length (keep (is_fresh now window) ts) in
      if leb limit count then some count else none

  abbrev pub max_rps : EvaluatedRule F → Option ℕ
  max_rps rule = and_then rule.behaviour.per_src (λ per_src. per_src.max_requests_per_second)

  -- max_requests_per_second over one second, then max_conn_rate over its interval.
  unfoldable pub triggered : EvaluatedRule F → F → Option (List F) → Option (List F) → Option ℕ
  unfolding reached max_conn_rate
  triggered rule now pkt_ts conn_ts =
      let by_packets = and_then (max_rps rule) (λ max. reached now (f.of_nat 1) max pkt_ts) in
      let by_conns =
        and_then (max_conn_rate rule)
          (λ conn_rate. reached now conn_rate.interval conn_rate.connections conn_ts) in
      or_else by_packets by_conns

  -- `count_to_report as u32` wraps.
  abbrev pub flood_alert : EvaluatedRule F → String → ℕ → PendingAlert
  flood_alert rule tracking_key count_to_report = record {
    event_id = rule.event_id;
    event_name = rule.event_name;
    severity = rule.severity;
    payload = protocol_conformant_flood (record {
      packet_signature_hash = text "rule_" ++ decimal rule.id;
      signature_description =
          text "Rule: '"
          ++ rule.event_name
          ++ text "' (id: "
          ++ decimal rule.id
          ++ text ") triggered for "
          ++ tracking_key
          ++ text ". Threshold exceeded.";
      sender_list =
          record { sender_id = tracking_key; pkt_rate_per_sender = count_to_report % 2 ^ 32 } ∷ [];
    });
  }

  -- An alert resets the key's timestamps.
  abbrev pub settle :
      EvaluatedRule F
      → String
      → Tracker F
      → Tracker F
      → Option ℕ
      → (Tracker F × Tracker F) × Option PendingAlert
  settle rule key rule_rate conn_rate none = ((rule_rate, conn_rate), none)
  settle rule key rule_rate conn_rate (some count) = (
    (forget rule.id key rule_rate, forget rule.id key conn_rate),
    some (flood_alert rule key count),
  )

  -- A rule that matched the packet: the trackers after it, and the alert if one is due.
  unfoldable pub count_packet :
      EvaluatedRule F
      → ParsedPacket
      → F
      → Tracker F
      → Tracker F
      → (Tracker F × Tracker F) × Option PendingAlert
  unfolding resolve_tracking_key is_new_tcp_conn push stamps_at triggered retain forget
  count_packet rule pkt now rule_rate conn_rate =
      let key = resolve_tracking_key rule pkt in
      let pushed = push rule.id key now rule_rate in
      let conns = if is_new_tcp_conn pkt then push rule.id key now conn_rate else conn_rate in
      let is_young = is_fresh now (f.of_nat 60) in
      settle rule key (retain is_young rule.id key pushed) (retain is_young rule.id key conns)
        (triggered rule now (stamps_at rule.id key pushed) (stamps_at rule.id key conns))
