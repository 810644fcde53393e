-- ===== src/Engine/Connections/States.antt =====
-- What a segment does to the state of each connection in the table.
use nids.Prelude.{
  ◌≡◌, ◌⊎◌, inl, inr, refl, Bool, false, not, ◌&&◌, ◌||◌, Option, none, some, if◌then◌else◌, arith,
  Option-cases,
}
use nids.Prelude.Assoc.{lookup, insert, lookup-insert}
use nids.Parser.Layers.{
  ParsedPacket, TransportLayer, tcp_layer, udp_layer, icmp_layer, no_transport, TcpInfo,
}
use nids.Engine.Text.{text}
use nids.Engine.Config.{EvaluatedRule}
use nids.Engine.State.{ConnKey, ConnTable, TcpConnState, established_conn, new_conn, closing_conn}
use nids.Engine.Rules.{
  is_fin, is_syn, is_rst, is_ack, is_tcp, conn_key, conn_key_equals, conn_key_eq,
  conn_key_equals_iff, is_established, flow_matches,
}
use nids.Engine.Connections.{reverse_key, update, segment, track_connection}

pub tcp_cases : (t : TransportLayer) → ((tcp : TcpInfo) × (t ≡ tcp_layer tcp)) ⊎ (is_tcp t ≡ false)
tcp_cases (tcp_layer tcp) = inl (tcp, refl)
tcp_cases (udp_layer udp) = inr refl
tcp_cases (icmp_layer icmp) = inr refl
tcp_cases no_transport = inr refl

-- The entry of a connection after a segment, from the entry before it: `same` when the segment
-- travels its way, `opposite` when it travels the other.
abbrev pub entry_after :
    {F : Type 0} → TcpInfo → F → Bool → Bool → Option (TcpConnState × F) → Option (TcpConnState × F)
entry_after tcp now same opposite entry =
    if is_syn tcp && not (is_ack tcp)
    then (if same then some (new_conn, now) else entry)
    else if is_syn tcp && is_ack tcp
    then (if same || opposite then some (established_conn, now) else entry)
    else if not same
    then entry
    else elim entry [
      | none ↦ none
      | some (state, last_seen) ↦
          some (if is_fin tcp || is_rst tcp then closing_conn else state, now)
    ]

module _ {F : Type 0} where
  lookup-update :
      (to : TcpConnState → TcpConnState) (key k : ConnKey) (now : F) (table : ConnTable F)
      → lookup k (update to key now table) ≡ (
          if conn_key_equals key k
          then elim (lookup key table) [
            | none ↦ none
            | some (state, last_seen) ↦ some (to state, now)
          ]
          else lookup k table)
  unfolding update
  lookup-update to key k now table = elim (Option-cases (lookup key table)) [
    | inl h ↦ ground (arith, h, conn_key_equals_iff key k)
    | inr ((state, last_seen), h) ↦ ground (arith, h, lookup-insert key k (to state, now) table)
  ]

  -- A segment changes the entries of its own connection and of the opposite one alone, and these as
  -- the state machine of one connection says.
  pub lookup-segment :
      (tcp : TcpInfo) (key k : ConnKey) (now : F) (table : ConnTable F)
      → lookup k (segment tcp key now table)
        ≡ entry_after tcp now
            (conn_key_equals key k)
            (conn_key_equals (reverse_key key) k)
            (lookup k table)
  unfolding segment
  lookup-segment tcp key k now table = ground (
    arith,
    conn_key_equals_iff key k,
    lookup-insert key k (new_conn, now) table,
    lookup-insert key k (established_conn, now)
        (insert (reverse_key key) (established_conn, now) table),
    lookup-insert (reverse_key key) k (established_conn, now) table,
    lookup-update (λ state. closing_conn) key k now table,
    lookup-update (λ state. state) key k now table,
  )

  -- A rule for established flows sees the table after the packet's own segment: it matches a SYN-ACK,
  -- and a segment without SYN, FIN and RST of a connection that was established before it. It matches
  -- neither a fresh SYN nor the FIN or RST that ends an established connection.
  pub flow_matches_established :
      (rule : EvaluatedRule F) (pkt : ParsedPacket) (tcp : TcpInfo) (now : F) (table : ConnTable F)
      → rule.context.flow.state ≡ text "established"
      → pkt.transport ≡ tcp_layer tcp
      → flow_matches rule pkt (track_connection pkt now table) ≡ (
          is_syn tcp && is_ack tcp
          || not (is_syn tcp)
            && (not (is_fin tcp || is_rst tcp) && is_established (lookup (conn_key pkt tcp) table)))
  unfolding flow_matches track_connection
  flow_matches_established rule pkt tcp now table h ht = ground (
    arith,
    h,
    ht,
    lookup-segment tcp (conn_key pkt tcp) (conn_key pkt tcp) now table,
    conn_key_equals_iff (conn_key pkt tcp) (conn_key pkt tcp),
  )
