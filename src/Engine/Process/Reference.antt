-- ===== src/Engine/Process/Reference.antt =====
-- The whole engine against a reference that keeps every timestamp: it prunes and expires no rate
-- tracker, and its thresholds look at the whole history of a rule and a key since their last alert.
-- Its connection table and the other tables are those of the engine, expiry included.
pub mod Runs
use nids.Prelude.{
  unwrap_or, ℕ, ◌+◌, ◌%◌, ◌^◌, ◌≡◌, refl, ap, ap₂, sym, subst, ◌∙◌, Bool, true, false, Option, none,
  some, List, [], ◌∷◌, ◌++◌, All, if◌then◌else◌, arith, Bool-cases, inl, inr,
}
use nids.Parser.Link.{String}
use nids.Parser.Layers.{ParsedPacket}
use nids.Alert.{IdsmMessage}
use nids.Engine.Float.{F64, IsIeee}
use nids.Engine.Address.{IpAddr}
use nids.Engine.Config.{EvaluatedRule, RuleConfig}
use nids.Engine.State.{
  new_engine, load_rules, StatefulDetectionEngine, Tracker, ConnTable, PendingAlert,
}
use nids.Engine.Rules.{matches_rule}
use nids.Engine.Rates.{is_fresh, count_packet}
use nids.Engine.Rates.Window.{WithinMinute}
use nids.Engine.Rates.Refines.{History, Follows, reference_step, expire-Follows, later-Follows}
use nids.Engine.Rates.Alerts.{Matches, count_packet-Matches}
use nids.Engine.Expire.{expire_states, sweep, expire_tracker}
use nids.Engine.Process.{
  Trackers, evaluate_rule, evaluate_rules, pend, see, observe, detect, create_message,
  create_messages, process_packet,
}
use nids.Engine.Process.Run.{process_all}

abbrev pub Histories : Type 0 → Type 0
Histories F = History F × History F

module _ {F : Type 0} ⦃f : F64 F⦄ where
  unfoldable pub reference_rule :
      EvaluatedRule F
      → ParsedPacket
      → String
      → List IpAddr
      → ConnTable F
      → F
      → Histories F
      → Histories F × Option PendingAlert
  unfolding matches_rule reference_step
  reference_rule rule pkt iface self_ips conns now (packets, opened) =
      if matches_rule rule pkt iface self_ips conns
      then reference_step rule pkt now packets opened
      else ((packets, opened), none)

  unfoldable pub reference_rules :
      List (EvaluatedRule F)
      → ParsedPacket
      → String
      → List IpAddr
      → ConnTable F
      → F
      → Histories F
      → Histories F × List PendingAlert
  unfolding reference_rule
  reference_rules [] pkt iface self_ips conns now histories = (histories, [])
  reference_rules (rule ∷ rules) pkt iface self_ips conns now histories =
      let (after, alert) = reference_rule rule pkt iface self_ips conns now histories in
      let (last, alerts) = reference_rules rules pkt iface self_ips conns now after in
      (last, pend alert alerts)

  module _ (ieee : IsIeee F) (now : F) (finite : f.is_finite now ≡ true) where
    evaluate_rule-Matches :
        (rule : EvaluatedRule F) (pkt : ParsedPacket) (iface : String) (self_ips : List IpAddr)
        (conns : ConnTable F) (rule_rate conn_rate : Tracker F) (packets opened : History F)
        → WithinMinute rule
        → Follows now rule_rate packets
        → Follows now conn_rate opened
        → Matches now
            (evaluate_rule rule pkt iface self_ips conns now (rule_rate, conn_rate))
            (reference_rule rule pkt iface self_ips conns now (packets, opened))
    unfolding evaluate_rule reference_rule
    evaluate_rule-Matches rule pkt iface self_ips conns rule_rate conn_rate packets opened within p
          c =
        both (matches_rule rule pkt iface self_ips conns)
      where
        both :
            (b : Bool)
            → Matches now
                (if b
                  then count_packet rule pkt now rule_rate conn_rate
                  else ((rule_rate, conn_rate), none))
                (if b
                  then reference_step rule pkt now packets opened
                  else ((packets, opened), none))
        both true =
            count_packet-Matches ieee rule pkt now rule_rate conn_rate packets opened within finite
              p c
        both false = (refl, p, c)

    pub evaluate_rules-Matches :
        (rules : List (EvaluatedRule F)) (pkt : ParsedPacket) (iface : String)
        (self_ips : List IpAddr) (conns : ConnTable F) (trackers : Trackers F)
        (histories : Histories F)
        → All WithinMinute rules
        → Follows now trackers.0 histories.0
        → Follows now trackers.1 histories.1
        → let (trackers', alerts) = evaluate_rules rules pkt iface self_ips conns now trackers in
          let (histories', expected) =
            reference_rules rules pkt iface self_ips conns now histories in
          (alerts ≡ expected)
          × Follows now trackers'.0 histories'.0
          × Follows now trackers'.1 histories'.1
    unfolding evaluate_rules reference_rules
    evaluate_rules-Matches [] pkt iface self_ips conns trackers histories all p c = (refl, p, c)
    evaluate_rules-Matches (rule ∷ rules) pkt iface self_ips conns trackers histories (within, all)
          p c =
        let (same, p', c') =
          evaluate_rule-Matches rule pkt iface self_ips conns trackers.0 trackers.1 histories.0
            histories.1 within p c in
        let (after, alert) = evaluate_rule rule pkt iface self_ips conns now trackers in
        let (after', alert') = reference_rule rule pkt iface self_ips conns now histories in
        let (rest, p2, c2) =
          evaluate_rules-Matches rules pkt iface self_ips conns after after' all p' c' in
        (ap₂ pend same rest, p2, c2)
