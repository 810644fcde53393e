-- ===== src/Engine/Rates/Thresholds.antt =====
-- The thresholds of a rule in src/engine.rs against an independent description of them, for the
-- reference: which packets open a connection, and which number an alert reports.
use nids.Prelude.{
  ℕ, ◌+◌, ◌/◌, ◌%◌, length, ltb, ◌≡◌, refl, Bool, true, ◌&&◌, Option, none, some, List, [], ◌∷◌,
  keep, ◌==◌, if◌then◌else◌, arith,
}
use nids.Parser.Layers.{ParsedPacket, tcp_layer}
use nids.Engine.Float.{F64}
use nids.Engine.Config.{EvaluatedRule, LimitConfig}
use nids.Engine.Address.{and_then, or_else}
use nids.Engine.Rules.{max_conn_rate}
use nids.Engine.Rates.{is_fresh, triggered, reached, max_rps, is_new_tcp_conn}

-- A connection is opened by a segment with the flag SYN and without ACK; a packet that is not TCP
-- counts as one too.
unfoldable pub opens_connection : ParsedPacket → Bool
opens_connection pkt = elim pkt.transport [
  | tcp_layer tcp ↦ (tcp.flags / 2 % 2 == 1) && (tcp.flags / 16 % 2 == 0)
  | _ ↦ true
]

pub is_new_tcp_conn_lem : (pkt : ParsedPacket) → is_new_tcp_conn pkt ≡ opens_connection pkt
unfolding is_new_tcp_conn opens_connection
is_new_tcp_conn_lem pkt = ground arith

module _ {F : Type 0} ⦃f : F64 F⦄ where
  -- How many timestamps lie less than `window` before `now`.
  unfoldable pub recent : F → F → List F → ℕ
  recent now window [] = 0
  recent now window (t ∷ ts) =
      if f.lt (f.sub now t) window then 1 + recent now window ts else recent now window ts

  -- The number of them, where it is the limit or more.
  abbrev pub at_limit : F → F → ℕ → List F → Option ℕ
  at_limit now window limit ts =
      let n = recent now window ts in if ltb n limit then none else some n

  -- The number reported: of packets within a second, else of connections within the interval.
  unfoldable pub exceeded : Option ℕ → Option (LimitConfig F) → F → List F → List F → Option ℕ
  exceeded none none now packets conns = none
  exceeded none (some rate) now packets conns = at_limit now rate.interval rate.connections conns
  exceeded (some max) none now packets conns = at_limit now (f.of_nat 1) max packets
  exceeded (some max) (some rate) now packets conns = elim (at_limit now (f.of_nat 1) max packets) [
    | some n ↦ some n
    | none ↦ at_limit now rate.interval rate.connections conns
  ]

  length-recent :
      (now window : F) (ts : List F) → length (keep (is_fresh now window) ts) ≡ recent now window ts
  unfolding recent
  length-recent now window [] = refl
  length-recent now window (t ∷ ts) = ground (arith, length-recent now window ts)

  reached-at_limit :
      (now window : F) (limit : ℕ) (ts : List F)
      → reached now window limit (some ts) ≡ at_limit now window limit ts
  unfolding reached
  reached-at_limit now window limit ts = ground (arith, length-recent now window ts)

  pub triggered-exceeded :
      (rule : EvaluatedRule F) (now : F) (packets conns : List F)
      → triggered rule now (some packets) (some conns)
        ≡ exceeded (max_rps rule) (max_conn_rate rule) now packets conns
  unfolding triggered exceeded
  triggered-exceeded rule now packets conns = either (max_rps rule) (max_conn_rate rule)
    where
      either :
          (rps : Option ℕ) (conn_rate : Option (LimitConfig F))
          → or_else
              (and_then rps (λ max. reached now (f.of_nat 1) max (some packets)))
              (and_then conn_rate (λ rate. reached now rate.interval rate.connections (some conns)))
            ≡ exceeded rps conn_rate now packets conns
      either none none = refl
      either none (some rate) = reached-at_limit now rate.interval rate.connections conns
      either (some max) none = ground (arith, reached-at_limit now (f.of_nat 1) max packets)
      either (some max) (some rate) = ground (
        arith,
        reached-at_limit now (f.of_nat 1) max packets,
        reached-at_limit now rate.interval rate.connections conns,
      )
