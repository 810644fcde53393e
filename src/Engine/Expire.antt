-- ===== src/Engine/Expire.antt =====
-- `expire_states` of src/engine.rs: every five seconds, what is stale goes.
pub mod Trackers
pub mod Conns
use nids.Prelude.{ℕ, Bool, true, false, not, ◌&&◌, List, [], ◌∷◌, map, keep, if◌then◌else◌}
use nids.Prelude.Assoc.{map_values}
use nids.Parser.Link.{String, Mac}
use nids.Engine.Float.{F64}
use nids.Engine.State.{
  StatefulDetectionEngine, ClientState, AccessPoint, SessionState, Tracker, ConnTable, TcpConnState,
  closing_conn, new_conn, established_conn,
}
use nids.Engine.Rates.{is_fresh}

abbrev pub is_empty : {A : Type 0} → List A → Bool
is_empty [] = true
is_empty (x ∷ xs) = false

abbrev pub is_closing : TcpConnState → Bool
is_closing closing_conn = true
is_closing new_conn = false
is_closing established_conn = false

module _ {F : Type 0} ⦃f : F64 F⦄ where
  unfoldable pub expire_client : F → ClientState F → ClientState F
  expire_client now client =
      let fresh = is_fresh now (f.of_nat 60) in
      record client {
        probe_timestamps = keep fresh client.probe_timestamps;
        assoc_timestamps = keep fresh client.assoc_timestamps;
        auth_failures = keep fresh client.auth_failures;
        deauth_timestamps = keep fresh client.deauth_timestamps;
        tcp_scans = keep (λ scan. fresh scan.1) client.tcp_scans;
        udp_scans = keep (λ scan. fresh scan.1) client.udp_scans;
        dns_queries = keep (λ query. fresh query.1) client.dns_queries;
      }

  -- The timestamps of every key, then the keys that still have some.
  unfoldable pub expire_keys : F → List (String × List F) → List (String × List F)
  expire_keys now per_key =
      keep (λ kv. not (is_empty kv.1)) (map_values (keep (is_fresh now (f.of_nat 60))) per_key)

  unfoldable pub expire_tracker : F → Tracker F → Tracker F
  unfolding expire_keys
  expire_tracker now tracker = map_values (expire_keys now) tracker

  unfoldable pub expire_conns : F → ConnTable F → ConnTable F
  expire_conns now table =
      keep (λ kv. not (is_closing kv.1.0) && is_fresh now (f.of_nat 300) kv.1.1) table

  -- What a run of it does once it is due.
  unfoldable pub sweep : StatefulDetectionEngine F → F → StatefulDetectionEngine F
  unfolding expire_client expire_tracker expire_conns
  sweep e now = record e {
    last_cleanup_time = now;
    rule_rate_tracker = expire_tracker now e.rule_rate_tracker;
    conn_rate_tracker = expire_tracker now e.conn_rate_tracker;
    tcp_conn_table = expire_conns now e.tcp_conn_table;
    clients =
        keep (λ kv. is_fresh now (f.of_nat 300) kv.1.last_seen)
          (map_values (expire_client now) e.clients);
    access_points = keep (λ kv. is_fresh now (f.of_nat 300) kv.1.last_seen) e.access_points;
    sessions = keep (λ kv. is_fresh now (f.of_nat 300) kv.1.last_step_time) e.sessions;
  }

  unfoldable pub expire_states : StatefulDetectionEngine F → F → StatefulDetectionEngine F
  unfolding sweep
  expire_states e now = if is_fresh now (f.of_nat 5) e.last_cleanup_time then e else sweep e now
