-- ===== src/Engine/Connections.antt =====
-- The TCP connection table of src/engine.rs: what a segment does to it.
pub mod States
use nids.Prelude.{
  ℕ, ◌≡◌, Bool, true, false, not, ◌&&◌, ◌||◌, Option, none, some, List, if◌then◌else◌, arith,
}
use nids.Prelude.Assoc.{lookup, insert}
use nids.Parser.Layers.{ParsedPacket, TransportLayer, tcp_layer, TcpInfo}
use nids.Engine.Address.{resolve_src_ip, resolve_dst_ip}
use nids.Engine.State.{ConnKey, ConnTable, TcpConnState, established_conn, new_conn, closing_conn}
use nids.Engine.Rules.{is_fin, is_syn, is_rst, is_ack, conn_key, conn_key_eq}

abbrev pub reverse_key : ConnKey → ConnKey
reverse_key (src_ip, src_port, dst_ip, dst_port) = (dst_ip, dst_port, src_ip, src_port)

module _ {F : Type 0} where
  -- `get_mut(&key)`: an absent key changes nothing.
  unfoldable pub update : (TcpConnState → TcpConnState) → ConnKey → F → ConnTable F → ConnTable F
  update to key now table = elim (lookup key table) [
    | none ↦ table
    | some (state, last_seen) ↦ insert key (to state, now) table
  ]

  unfoldable pub segment : TcpInfo → ConnKey → F → ConnTable F → ConnTable F
  unfolding update
  segment tcp key now table =
      if is_syn tcp && not (is_ack tcp)
      then insert key (new_conn, now) table
      else if is_syn tcp && is_ack tcp
      then insert key (established_conn, now)
          (insert (reverse_key key) (established_conn, now) table)
      else if is_fin tcp || is_rst tcp
      then update (λ state. closing_conn) key now table
      else update (λ state. state) key now table

  unfoldable pub track_connection : ParsedPacket → F → ConnTable F → ConnTable F
  unfolding segment
  track_connection pkt now table = elim pkt.transport [
    | tcp_layer tcp ↦ segment tcp (conn_key pkt tcp) now table
    | _ ↦ table
  ]
