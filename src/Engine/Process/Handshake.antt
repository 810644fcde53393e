-- ===== src/Engine/Process/Handshake.antt =====
-- The connection table over a run of packets: which connections may count as established.
use nids.Prelude.{
  ℕ, ◌+◌, ◌%◌, ◌^◌, ◌≡◌, refl, sym, subst, inl, inr, Bool, true, false, not, ◌&&◌, ◌||◌, List, [],
  ◌∷◌, none, some, any, arith, Option-cases, Bool-cases,
}
use nids.Prelude.Assoc.{IsMap, lookup, insert, insert-IsMap, keep-IsMap, lookup-keep}
use nids.Parser.Link.{String}
use nids.Parser.Layers.{ParsedPacket, tcp_layer, TcpInfo}
use nids.Engine.Float.{F64}
use nids.Engine.State.{
  StatefulDetectionEngine, PendingAlert, ConnKey, ConnTable, TcpConnState, new_conn,
  established_conn, closing_conn,
}
use nids.Engine.Rules.{is_syn, is_ack, conn_key, conn_key_equals, conn_key_eq, is_established}
use nids.Engine.Connections.{reverse_key, update, segment, track_connection}
use nids.Engine.Connections.States.{lookup-segment, tcp_cases}
use nids.Engine.Rates.{is_fresh}
use nids.Engine.Expire.{expire_states, expire_conns, is_closing}
use nids.Engine.Process.{create_message, create_messages, observe, detect, process_packet}
use nids.Engine.Process.Run.{process_all}

-- A SYN-ACK of the connection, in either direction.
abbrev pub accepts : ConnKey → ParsedPacket → Bool
accepts k pkt = elim pkt.transport [
  | tcp_layer tcp ↦
      is_syn tcp
      && (is_ack tcp
          && (conn_key_equals (conn_key pkt tcp) k
              || conn_key_equals (reverse_key (conn_key pkt tcp)) k))
  | _ ↦ false
]

module _ {F : Type 0} where
  update_absent :
      (to : TcpConnState → TcpConnState) (key : ConnKey) (now : F) (table : ConnTable F)
      → lookup key table ≡ none
      → update to key now table ≡ table
  unfolding update
  update_absent to key now table h = ground (arith, h)

  update_found :
      (to : TcpConnState → TcpConnState) (key : ConnKey) (now last_seen : F) (table : ConnTable F)
      (state : TcpConnState)
      → lookup key table ≡ some (state, last_seen)
      → update to key now table ≡ insert key (to state, now) table
  unfolding update
  update_found to key now last_seen table state h = ground (arith, h)

  update-IsMap :
      (to : TcpConnState → TcpConnState) (key : ConnKey) (now : F) (table : ConnTable F)
      → IsMap table
      → IsMap (update to key now table)
  update-IsMap to key now table h = elim (Option-cases (lookup key table)) [
    | inl absent ↦ subst IsMap (sym (update_absent to key now table absent)) h
    | inr ((state, last_seen), found) ↦
        subst IsMap (sym (update_found to key now last_seen table state found))
          (insert-IsMap key (to state, now) table h)
  ]

  segment-IsMap :
      (tcp : TcpInfo) (key : ConnKey) (now : F) (table : ConnTable F)
      → IsMap table
      → IsMap (segment tcp key now table)
  unfolding segment
  segment-IsMap tcp key now table h = ground (
    arith,
    insert-IsMap key (new_conn, now) table h,
    insert-IsMap key (established_conn, now)
        (insert (reverse_key key) (established_conn, now) table)
        (insert-IsMap (reverse_key key) (established_conn, now) table h),
    update-IsMap (λ state. closing_conn) key now table h,
    update-IsMap (λ state. state) key now table h,
  )

  track_connection-IsMap :
      (pkt : ParsedPacket) (now : F) (table : ConnTable F)
      → IsMap table
      → IsMap (track_connection pkt now table)
  unfolding track_connection
  track_connection-IsMap pkt now table h = elim (tcp_cases pkt.transport) [
    | inl (tcp, is) ↦ ground (arith, is, segment-IsMap tcp (conn_key pkt tcp) now table h)
    | inr other ↦ ground (arith, other, h)
  ]

  -- One segment establishes a connection only if it is its SYN-ACK.
  track_connection_established :
      (k : ConnKey) (pkt : ParsedPacket) (now : F) (table : ConnTable F)
      → is_established (lookup k (track_connection pkt now table)) ≡ true
      → accepts k pkt ≡ false
      → is_established (lookup k table) ≡ true
  unfolding track_connection
  track_connection_established k pkt now table h misses = elim (tcp_cases pkt.transport) [
    | inl (tcp, is) ↦ ground (arith, is, lookup-segment tcp (conn_key pkt tcp) k now table)
    | inr other ↦ ground (arith, other)
  ]

module _ {F : Type 0} ⦃f : F64 F⦄ where
  expire_states-IsMap :
      (e : StatefulDetectionEngine F) (now : F)
      → IsMap e.tcp_conn_table
      → IsMap (expire_states e now).tcp_conn_table
  unfolding expire_states expire_conns
  expire_states-IsMap e now h = ground (
    arith,
    keep-IsMap
        (λ (kv : ConnKey × (TcpConnState × F)).
          not (is_closing kv.1.0) && is_fresh now (f.of_nat 300) kv.1.1)
        e.tcp_conn_table h,
  )

  -- Expiry establishes no connection.
  expire_states_established :
      (k : ConnKey) (e : StatefulDetectionEngine F) (now : F)
      → IsMap e.tcp_conn_table
      → is_established (lookup k (expire_states e now).tcp_conn_table) ≡ true
      → is_established (lookup k e.tcp_conn_table) ≡ true
  unfolding expire_states expire_conns
  expire_states_established k e now map h = ground (
    arith,
    lookup-keep (λ (v : TcpConnState × F). not (is_closing v.0) && is_fresh now (f.of_nat 300) v.1)
        k e.tcp_conn_table map,
  )

  create_messages_conns :
      (local_now : ℕ → String) (pending : List PendingAlert) (e : StatefulDetectionEngine F)
      → (create_messages local_now pending e).0.tcp_conn_table ≡ e.tcp_conn_table
  unfolding create_messages create_message
  create_messages_conns local_now [] e = refl
  create_messages_conns local_now (p ∷ pending) e =
      create_messages_conns local_now pending
        (record e { alert_counter = (e.alert_counter + 1) % 2 ^ 64 })

  process_packet_conns :
      (e : StatefulDetectionEngine F) (pkt : ParsedPacket) (now : F) (local_now : ℕ → String)
      → (process_packet e pkt now local_now).0.tcp_conn_table
        ≡ track_connection pkt now (expire_states e now).tcp_conn_table
  unfolding process_packet detect observe
  process_packet_conns e pkt now local_now =
      let (s, pending) = detect pkt now (observe pkt now e) in
      create_messages_conns local_now pending s

  process_packet_established :
      (k : ConnKey) (e : StatefulDetectionEngine F) (pkt : ParsedPacket) (now : F)
      (local_now : ℕ → String)
      → IsMap e.tcp_conn_table
      → is_established (lookup k (process_packet e pkt now local_now).0.tcp_conn_table) ≡ true
      → accepts k pkt ≡ false
      → is_established (lookup k e.tcp_conn_table) ≡ true
  process_packet_established k e pkt now local_now map h misses =
      expire_states_established k e now map (
        track_connection_established k pkt now (expire_states e now).tcp_conn_table
          (subst (λ t. is_established (lookup k t) ≡ true)
            (process_packet_conns e pkt now local_now) h)
          misses)

  -- From a table that holds no key twice on, a connection that is established after any packets, and
  -- was not before, has had its SYN-ACK among them, in one of the two directions.
  pub process_all_established :
      (k : ConnKey) (local_now : ℕ → String) (packets : List (ParsedPacket × F))
      (e : StatefulDetectionEngine F)
      → IsMap e.tcp_conn_table
      → is_established (lookup k e.tcp_conn_table) ≡ false
      → is_established (lookup k (process_all local_now packets e).0.tcp_conn_table) ≡ true
      → any (λ (packet : ParsedPacket × F). accepts k packet.0) packets ≡ true
  unfolding process_all
  process_all_established k local_now [] e map before after = cc
  process_all_established k local_now ((pkt, now) ∷ rest) e map before after =
      let e' = (process_packet e pkt now local_now).0 in
      let map' : IsMap e'.tcp_conn_table =
        subst IsMap (sym (process_packet_conns e pkt now local_now)) (
          track_connection-IsMap pkt now (expire_states e now).tcp_conn_table
            (expire_states-IsMap e now map)) in
      elim (Bool-cases (accepts k pkt)) [
        | inl here ↦ ground (arith, here)
        | inr misses ↦
            let not_yet : is_established (lookup k e'.tcp_conn_table) ≡ false =
              ground (arith, before, process_packet_established k e pkt now local_now map) in
            let later = process_all_established k local_now rest e' map' not_yet after in
            ground (arith, later)
      ]
