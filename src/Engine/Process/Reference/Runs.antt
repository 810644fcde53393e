-- ===== src/Engine/Process/Reference/Runs.antt =====
-- A run of the engine of src/engine.rs against the reference.
use nids.Prelude.{
  unwrap_or, ℕ, ◌+◌, ◌%◌, ◌^◌, ◌≡◌, refl, ap, sym, ◌∙◌, Bool, true, false, Option, List, [], ◌∷◌,
  ◌++◌, All, if◌then◌else◌,
}
use nids.Parser.Link.{String}
use nids.Parser.Layers.{ParsedPacket}
use nids.Alert.{IdsmMessage}
use nids.Engine.Float.{F64, IsIeee}
use nids.Engine.Address.{IpAddr}
use nids.Engine.Config.{RuleConfig}
use nids.Engine.State.{new_engine, load_rules, StatefulDetectionEngine, PendingAlert}
use nids.Engine.Rates.{is_fresh}
use nids.Engine.Rates.Window.{WithinMinute}
use nids.Engine.Rates.Refines.{History, Follows, expire-Follows, later-Follows}
use nids.Engine.Expire.{expire_states, sweep, expire_tracker}
use nids.Engine.Process.{
  Trackers, evaluate_rules, see, observe, detect, create_message, create_messages, process_packet,
}
use nids.Engine.Process.Run.{process_all}
use nids.Prelude.Assoc.{lookup}
use nids.Engine.Rates.{stamps_at}
use nids.Engine.Process.Reference.{Histories, reference_rules, evaluate_rules-Matches}

-- The engine without its trackers.
abbrev pub bare : {F : Type 0} → StatefulDetectionEngine F → StatefulDetectionEngine F
bare e = record e { rule_rate_tracker = []; conn_rate_tracker = [] }

module _ {F : Type 0} ⦃f : F64 F⦄ where
  -- One packet through the reference: the tables as in the engine, the alerts by the histories.
  unfoldable pub reference_detect :
      (ℕ → String)
      → ParsedPacket
      → F
      → Histories F
      → StatefulDetectionEngine F
      → (StatefulDetectionEngine F × Histories F) × List IdsmMessage
  unfolding reference_rules create_messages
  reference_detect local_now pkt now histories seen =
      let (histories', pending) =
        reference_rules seen.rules pkt seen.iface seen.self_ips seen.tcp_conn_table now histories in
      let (e', messages) = create_messages local_now pending seen in ((e', histories'), messages)

  unfoldable pub reference_packet :
      (ℕ → String)
      → ParsedPacket
      → F
      → StatefulDetectionEngine F
      → Histories F
      → (StatefulDetectionEngine F × Histories F) × List IdsmMessage
  unfolding observe reference_detect
  reference_packet local_now pkt now e histories =
      reference_detect local_now pkt now histories (observe pkt now e)

  unfoldable pub reference_all :
      (ℕ → String)
      → List (ParsedPacket × F)
      → StatefulDetectionEngine F
      → Histories F
      → List IdsmMessage
  unfolding reference_packet
  reference_all local_now [] e histories = []
  reference_all local_now ((pkt, now) ∷ rest) e histories =
      let ((e', histories'), messages) = reference_packet local_now pkt now e histories in
      messages ++ reference_all local_now rest e' histories'

  -- Finite timestamps, none of which lies before the one that comes before it.
  abbrev pub Ordered : F → List (ParsedPacket × F) → Type 0
  Ordered since [] = Unit {0}
  Ordered since ((pkt, now) ∷ rest) =
      (f.is_finite now ≡ true) × (f.lt now since ≡ false) × Ordered now rest

  abbrev Invariant : F → StatefulDetectionEngine F → Histories F → Type 0
  Invariant since e histories =
      All WithinMinute e.rules
      × Follows since e.rule_rate_tracker histories.0
      × Follows since e.conn_rate_tracker histories.1

  expire_states-bare :
      (e : StatefulDetectionEngine F) (now : F)
      → expire_states (bare e) now ≡ bare (expire_states e now)
  unfolding expire_states sweep expire_tracker
  expire_states-bare e now = either (is_fresh now (f.of_nat 5) e.last_cleanup_time)
    where
      either :
          (b : Bool)
          → (if b then bare e else sweep (bare e) now) ≡ bare (if b then e else sweep e now)
      either true = refl
      either false = refl

  create_messages-bare :
      (local_now : ℕ → String) (pending : List PendingAlert) (e : StatefulDetectionEngine F)
      → create_messages local_now pending (bare e)
        ≡ (bare (create_messages local_now pending e).0, (create_messages local_now pending e).1)
  unfolding create_messages create_message
  create_messages-bare local_now [] e = refl
  create_messages-bare local_now (p ∷ pending) e =
      let e' = record e { alert_counter = (e.alert_counter + 1) % 2 ^ 64 } in
      let message = (create_message local_now p e).1 in
      ap (λ (r : StatefulDetectionEngine F × List IdsmMessage). (r.0, message ∷ r.1))
        (create_messages-bare local_now pending e')

  create_messages-Invariant :
      (since : F) (histories : Histories F) (local_now : ℕ → String) (pending : List PendingAlert)
      (e : StatefulDetectionEngine F)
      → Invariant since e histories
      → Invariant since (create_messages local_now pending e).0 histories
  unfolding create_messages create_message
  create_messages-Invariant since histories local_now [] e inv = inv
  create_messages-Invariant since histories local_now (p ∷ pending) e inv =
      create_messages-Invariant since histories local_now pending
        (record e { alert_counter = (e.alert_counter + 1) % 2 ^ 64 }) inv

  expire_states-Invariant :
      (ieee : IsIeee F) (since now : F) (e : StatefulDetectionEngine F) (histories : Histories F)
      → f.is_finite now ≡ true
      → f.lt now since ≡ false
      → Invariant since e histories
      → Invariant now (expire_states e now) histories
  unfolding expire_states sweep
  expire_states-Invariant ieee since now e histories finite l (all, p, c) =
      either (is_fresh now (f.of_nat 5) e.last_cleanup_time)
    where
      either : (b : Bool) → Invariant now (if b then e else sweep e now) histories
      either true = (
        all,
        later-Follows ieee since now e.rule_rate_tracker histories.0 finite l p,
        later-Follows ieee since now e.conn_rate_tracker histories.1 finite l c,
      )
      either false = (
        all,
        expire-Follows ieee since now e.rule_rate_tracker histories.0 finite l p,
        expire-Follows ieee since now e.conn_rate_tracker histories.1 finite l c,
      )

  observe-bare :
      (pkt : ParsedPacket) (now : F) (e : StatefulDetectionEngine F)
      → observe pkt now (bare e) ≡ bare (observe pkt now e)
  unfolding observe see
  observe-bare pkt now e = ap (see pkt now) (expire_states-bare e now)

  observe-Invariant :
      (ieee : IsIeee F) (since now : F) (pkt : ParsedPacket) (e : StatefulDetectionEngine F)
      (histories : Histories F)
      → f.is_finite now ≡ true
      → f.lt now since ≡ false
      → Invariant since e histories
      → Invariant now (observe pkt now e) histories
  unfolding observe see
  observe-Invariant ieee since now pkt e histories finite l inv =
      expire_states-Invariant ieee since now e histories finite l inv

  -- One packet: the same messages, and the invariant again.
  process_packet-Reference :
      (ieee : IsIeee F) (since now : F) (pkt : ParsedPacket) (local_now : ℕ → String)
      (e : StatefulDetectionEngine F) (histories : Histories F)
      → f.is_finite now ≡ true
      → f.lt now since ≡ false
      → Invariant since e histories
      → let (e', messages) = process_packet e pkt now local_now in
        (histories' : Histories F) × (reference_packet local_now pkt now (bare e) histories
          ≡ ((bare e', histories'), messages))
        × Invariant now e' histories'
  unfolding process_packet detect reference_packet reference_detect
  process_packet-Reference ieee since now pkt local_now e histories finite l inv =
      let seen = observe pkt now e in
      let (all, p, c) = observe-Invariant ieee since now pkt e histories finite l inv in
      let trackers : Trackers F = (seen.rule_rate_tracker, seen.conn_rate_tracker) in
      let (after, pending) =
        evaluate_rules seen.rules pkt seen.iface seen.self_ips seen.tcp_conn_table now trackers in
      let (histories', expected) =
        reference_rules seen.rules pkt seen.iface seen.self_ips seen.tcp_conn_table now histories in
      let (same, p', c') =
        evaluate_rules-Matches ieee now finite seen.rules pkt seen.iface seen.self_ips
          seen.tcp_conn_table trackers histories all p c in
      let detected : StatefulDetectionEngine F = record seen {
        rule_rate_tracker = after.0;
        conn_rate_tracker = after.1;
      } in
      let pair : StatefulDetectionEngine F × List IdsmMessage
          → (StatefulDetectionEngine F × Histories F) × List IdsmMessage =
        λ r. ((r.0, histories'), r.1) in
      (
        histories',
        ap (reference_detect local_now pkt now histories) (observe-bare pkt now e)
            ∙ ap (λ alerts. pair (create_messages local_now alerts (bare seen))) (sym same)
            ∙ ap pair (create_messages-bare local_now pending detected),
        create_messages-Invariant now histories' local_now pending detected (all, p', c'),
      )

  reference_all-process_all :
      (ieee : IsIeee F) (since : F) (local_now : ℕ → String) (packets : List (ParsedPacket × F))
      (e : StatefulDetectionEngine F) (histories : Histories F)
      → Ordered since packets
      → Invariant since e histories
      → reference_all local_now packets (bare e) histories ≡ (process_all local_now packets e).1
  unfolding reference_all process_all
  reference_all-process_all ieee since local_now [] e histories ordered inv = refl
  reference_all-process_all ieee since local_now ((pkt, now) ∷ rest) e histories
        (finite, l, ordered) inv =
      let (e', messages) = process_packet e pkt now local_now in
      let (histories', step, inv') =
        process_packet-Reference ieee since now pkt local_now e histories finite l inv in
      ap
        (λ (r : (StatefulDetectionEngine F × Histories F) × List IdsmMessage).
          r.1 ++ reference_all local_now rest r.0.0 r.0.1)
        step
      ∙ ap (λ later. messages ++ later)
          (reference_all-process_all ieee now local_now rest e' histories' ordered inv')

  abbrev pub no_history : History F
  no_history i k = []

  -- From a new engine on, over an `f64` with the laws of IEEE 754 that `IsIeee` names, for timestamps
  -- that are finite, not below 0 and never go back, and rules whose
  -- max_conn_rate, if any, asks for one connection at least in an interval of a minute at most, the
  -- messages are those of the reference. The reference shares the tables, the matching of the rules
  -- and their limits with the engine, but keeps every timestamp of a rule and a key since their last
  -- alert, counts them itself, and counts as connections the segments with SYN and without ACK and
  -- the packets that are not TCP: pruning at a minute and the expiry of the rate trackers change no
  -- message.
  pub process_all-reference_all :
      (ieee : IsIeee F) (local_now : ℕ → String) (packets : List (ParsedPacket × F))
      (iface : String) (rules : Option (List (RuleConfig F))) (self_ips : List IpAddr)
      → Ordered (f.of_nat 0) packets
      → All WithinMinute (load_rules (unwrap_or [] rules))
      → (process_all local_now packets (new_engine iface rules self_ips)).1
        ≡ reference_all local_now packets (new_engine iface rules self_ips) (no_history, no_history)
  unfolding new_engine stamps_at lookup
  process_all-reference_all ieee local_now packets iface rules self_ips ordered within = sym (
      reference_all-process_all ieee (f.of_nat 0) local_now packets
        (new_engine iface rules self_ips) (no_history, no_history) ordered
        (within, (tt, λ i k now window l w. refl), (tt, λ i k now window l w. refl)))
