-- ===== src/Engine/Rates/Bounds.antt =====
-- How old the timestamps are that a tracker keeps.
use nids.Prelude.{
  ℕ, ◌≡◌, sym, subst, Bool, true, Option, none, some, List, [], ◌∷◌, ◌++◌, keep, All, ==_self,
  if◌then◌else◌, arith, Bool-cases, inl, inr,
}
use nids.Parser.Link.{String}
use nids.Parser.Layers.{ParsedPacket}
use nids.Engine.Text.{string_equals_iff}
use nids.Engine.Float.{F64}
use nids.Engine.Config.{EvaluatedRule}
use nids.Engine.State.{Tracker}
use nids.Engine.Rules.{resolve_tracking_key}
use nids.Engine.Rates.{
  is_fresh, triggered, push, retain, stamps_at, is_new_tcp_conn, settle, forget, count_packet,
}
use nids.Engine.Rates.Window.{minute}
use nids.Engine.Rates.Lookup.{IsTracker}
use nids.Engine.Rates.Refines.{stamps, stamps_track, stamps-forget, track-IsTracker}

module _ {F : Type 0} ⦃f : F64 F⦄ where
  -- Less than a minute old.
  abbrev pub AreYoung : F → List F → Type 0
  AreYoung now ts = All (λ t. is_fresh now minute t ≡ true) ts

  keep-AreYoung : (now : F) (ts : List F) → AreYoung now (keep (is_fresh now minute) ts)
  keep-AreYoung now [] = tt
  keep-AreYoung now (t ∷ ts) = elim (Bool-cases (is_fresh now minute t)) [
    | inl young ↦ ground (arith, young, keep-AreYoung now ts)
    | inr old ↦ ground (arith, old, keep-AreYoung now ts)
  ]

  track-AreYoung :
      (added : Bool) (id : ℕ) (key : String) (now : F) (tracker : Tracker F)
      → AreYoung now (
          stamps id key (
            retain
              (is_fresh now minute)
              id
              key
              (if added then push id key now tracker else tracker)))
  track-AreYoung added id key now tracker =
      let ts = if added then stamps id key tracker ++ (now ∷ []) else stamps id key tracker in
      let kept : stamps id key (
            retain (is_fresh now minute) id key
              (if added then push id key now tracker else tracker))
          ≡ keep (is_fresh now minute) ts =
        ground (
          arith,
          ==_self id,
          string_equals_iff key key,
          stamps_track added (is_fresh now minute) id id key key now tracker,
        ) in
      subst (AreYoung now) (sym kept) (keep-AreYoung now ts)

  settle-AreYoung :
      (now : F) (rule : EvaluatedRule F) (key : String) (a b : Tracker F) (outcome : Option ℕ)
      → IsTracker a
      → IsTracker b
      → AreYoung now (stamps rule.id key a)
      → AreYoung now (stamps rule.id key b)
      → let ((a', b'), alert) = settle rule key a b outcome in
        AreYoung now (stamps rule.id key a') × AreYoung now (stamps rule.id key b')
  settle-AreYoung now rule key a b none ta tb ya yb = (ya, yb)
  settle-AreYoung now rule key a b (some count) ta tb ya yb =
      (subst (AreYoung now) (sym (gone a ta)) tt, subst (AreYoung now) (sym (gone b tb)) tt)
    where
      gone : (t : Tracker F) → IsTracker t → stamps rule.id key (forget rule.id key t) ≡ []
      gone t h = ground (
        arith,
        ==_self rule.id,
        string_equals_iff key key,
        stamps-forget rule.id rule.id key key t h,
      )

  -- After a packet that matches a rule, trackers that hold no key twice keep of its key no timestamp
  -- that is a minute old or older.
  pub count_packet-AreYoung :
      (rule : EvaluatedRule F) (pkt : ParsedPacket) (now : F) (rule_rate conn_rate : Tracker F)
      → IsTracker rule_rate
      → IsTracker conn_rate
      → let ((rule_rate', conn_rate'), alert) = count_packet rule pkt now rule_rate conn_rate in
        AreYoung now (stamps rule.id (resolve_tracking_key rule pkt) rule_rate')
        × AreYoung now (stamps rule.id (resolve_tracking_key rule pkt) conn_rate')
  unfolding count_packet
  count_packet-AreYoung rule pkt now rule_rate conn_rate p c =
      let key = resolve_tracking_key rule pkt in
      let added = is_new_tcp_conn pkt in
      let pushed = push rule.id key now rule_rate in
      let conns = if added then push rule.id key now conn_rate else conn_rate in
      let young = is_fresh now minute in
      settle-AreYoung now rule key (retain young rule.id key pushed)
        (retain young rule.id key conns)
        (triggered rule now (stamps_at rule.id key pushed) (stamps_at rule.id key conns))
        (track-IsTracker true young rule.id key now rule_rate p)
        (track-IsTracker added young rule.id key now conn_rate c)
        (track-AreYoung true rule.id key now rule_rate)
        (track-AreYoung added rule.id key now conn_rate)
