-- ===== src/Engine/Rates/Alerts.antt =====
-- The alerts of one rule over any run of packets, against the reference.
use nids.Prelude.{
  unwrap_or, ℕ, ◌≡◌, refl, ap, sym, subst, ◌∙◌, Bool, true, false, Option, none, some, [], ◌∷◌,
  ◌++◌, ==_self, if◌then◌else◌, arith,
}
use nids.Parser.Link.{String}
use nids.Parser.Layers.{ParsedPacket}
use nids.Engine.Text.{string_equals_iff}
use nids.Engine.Float.{F64, IsIeee}
use nids.Engine.Config.{EvaluatedRule}
use nids.Engine.State.{Tracker, PendingAlert}
use nids.Engine.Rules.{resolve_tracking_key, max_conn_rate}
use nids.Engine.Rates.{is_fresh, max_rps, triggered, push, retain, stamps_at, settle, count_packet}
use nids.Engine.Rates.Lookup.{stamps_at-push}
use nids.Engine.Rates.Window.{Agrees, WithinMinute, minute, push-Agrees, triggered-Agrees}
use nids.Engine.Rates.Thresholds.{
  opens_connection, exceeded, triggered-exceeded, is_new_tcp_conn_lem,
}
use nids.Engine.Rates.Refines.{
  stamps, History, extend, reset, alert_of, reference_step, Follows, choose-Agrees, track-Follows,
  forget-Follows,
}

module _ {F : Type 0} where
  extend_self :
      (added : Bool) (id : ℕ) (key : String) (now : F) (history : History F)
      → extend added id key now history id key
        ≡ (if added then history id key ++ (now ∷ []) else history id key)
  extend_self added id key now history = ground (arith, ==_self id, string_equals_iff key key)

  stamps_at_pushed :
      (id : ℕ) (key : String) (now : F) (tracker : Tracker F)
      → stamps_at id key (push id key now tracker) ≡ some (stamps id key tracker ++ (now ∷ []))
  stamps_at_pushed id key now tracker =
      ground
        (arith, ==_self id, string_equals_iff key key, stamps_at-push id id key key now tracker)

  stamps_added :
      (added : Bool) (id : ℕ) (key : String) (now : F) (tracker : Tracker F)
      → stamps id key (if added then push id key now tracker else tracker)
        ≡ (if added then stamps id key tracker ++ (now ∷ []) else stamps id key tracker)
  stamps_added true id key now tracker = ap (unwrap_or []) (stamps_at_pushed id key now tracker)
  stamps_added false id key now tracker = refl

module _ {F : Type 0} ⦃f : F64 F⦄ where
  -- The trackers and histories after a packet, and the two alerts.
  abbrev pub Matches :
      F
      → (Tracker F × Tracker F) × Option PendingAlert
      → (History F × History F) × Option PendingAlert
      → Type 0
  Matches now ((rule_rate, conn_rate), alert) ((packets, conns), expected) =
      (alert ≡ expected) × Follows now rule_rate packets × Follows now conn_rate conns

  settle-Matches :
      (now : F) (rule : EvaluatedRule F) (key : String) (rule_rate conn_rate : Tracker F)
      (packets conns : History F) (outcome : Option ℕ)
      → Follows now rule_rate packets
      → Follows now conn_rate conns
      → Matches now (settle rule key rule_rate conn_rate outcome) (
        (reset rule.id key outcome packets, reset rule.id key outcome conns),
        alert_of rule key outcome,
      )
  settle-Matches now rule key rule_rate conn_rate packets conns none p c = (refl, p, c)
  settle-Matches now rule key rule_rate conn_rate packets conns (some count) p c = (
    refl,
    forget-Follows now rule.id key rule_rate packets count p,
    forget-Follows now rule.id key conn_rate conns count c,
  )

  pub count_packet-Matches :
      (ieee : IsIeee F) (rule : EvaluatedRule F) (pkt : ParsedPacket) (now : F)
      (rule_rate conn_rate : Tracker F) (packets conns : History F)
      → WithinMinute rule
      → f.is_finite now ≡ true
      → Follows now rule_rate packets
      → Follows now conn_rate conns
      → Matches now
          (count_packet rule pkt now rule_rate conn_rate)
          (reference_step rule pkt now packets conns)
  unfolding count_packet reference_step
  count_packet-Matches ieee rule pkt now rule_rate conn_rate packets conns within finite p c =
      let id = rule.id in
      let key = resolve_tracking_key rule pkt in
      let added = opens_connection pkt in
      let pushed = push id key now rule_rate in
      let grown = if added then push id key now conn_rate else conn_rate in
      let packets' = extend true id key now packets in
      let conns' = extend added id key now conns in
      let young = is_fresh now minute in
      let by_packets : Agrees now (stamps id key rule_rate ++ (now ∷ [])) (packets' id key) =
        subst (Agrees now (stamps id key rule_rate ++ (now ∷ [])))
          (sym (extend_self true id key now packets))
          (push-Agrees now now (stamps id key rule_rate) (packets id key) (p.1 id key)) in
      let by_conns : Agrees now (stamps id key grown) (conns' id key) =
        subst (λ ts. Agrees now ts (conns' id key)) (sym (stamps_added added id key now conn_rate))
          (subst
            (Agrees now
              (if added then stamps id key conn_rate ++ (now ∷ []) else stamps id key conn_rate))
            (sym (extend_self added id key now conns))
            (choose-Agrees added now (stamps id key conn_rate ++ (now ∷ []))
              (stamps id key conn_rate) (conns id key ++ (now ∷ [])) (conns id key)
              (push-Agrees now now (stamps id key conn_rate) (conns id key) (c.1 id key))
              (c.1 id key))) in
      let same : triggered rule now (stamps_at id key pushed) (stamps_at id key grown)
          ≡ exceeded (max_rps rule) (max_conn_rate rule) now (packets' id key) (conns' id key) =
        ap (λ ts. triggered rule now ts (stamps_at id key grown))
          (stamps_at_pushed id key now rule_rate)
        ∙ triggered-Agrees ieee rule now (stamps id key rule_rate ++ (now ∷ [])) (packets' id key)
            (conns' id key) (stamps_at id key grown) within by_packets by_conns
        ∙ triggered-exceeded rule now (packets' id key) (conns' id key) in
      rw is_new_tcp_conn_lem (
        subst
          (λ outcome.
            Matches now
              (settle rule key (retain young id key pushed) (retain young id key grown) outcome)
              (reference_step rule pkt now packets conns))
          (sym same)
          (settle-Matches now rule key (retain young id key pushed) (retain young id key grown)
            packets' conns'
            (exceeded (max_rps rule) (max_conn_rate rule) now (packets' id key) (conns' id key))
            (track-Follows ieee true id key now rule_rate packets finite p)
            (track-Follows ieee added id key now conn_rate conns finite c)))
