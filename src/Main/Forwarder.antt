-- ===== src/Main/Forwarder.antt =====
-- What `AlertForwarder` of src/main.rs does with a run of alerts while its connection may break.
use nids.Prelude.{
  ◌≡◌, refl, ap, Bool, true, false, ◌&&◌, Option, none, some, List, [], ◌∷◌, ◌++◌, map, All,
  if◌then◌else◌,
}
use nids.Parser.Link.{String}
use nids.Main.{Network, Sent, by_tcp, by_udp, send, send_all}

-- An alert by the stream, and by a socket, if there is one.
abbrev pub streamed : Network × String → Option Sent
streamed (network, json) = some (by_tcp json)

abbrev pub in_datagram : Bool → Network × String → Option Sent
in_datagram bound (network, json) = if bound && network.delivers then some (by_udp json) else none

send_all_by_socket :
    (bound : Bool) (events : List (Network × String))
    → send_all (record { tcp_stream = false; udp_socket = bound }) events
      ≡ map (in_datagram bound) events
unfolding send_all send
send_all_by_socket bound [] = refl
send_all_by_socket bound ((network, json) ∷ rest) =
    ap (λ later. in_datagram bound (network, json) ∷ later) (send_all_by_socket bound rest)

-- The alerts before the first write that fails go out by TCP. The alert whose write fails and all
-- behind it go out by UDP, in order, if a socket could be bound then, but for those whose datagram
-- is not sent; the others are lost, and TCP is never tried again.
pub send_all_broken :
    (udp : Bool) (before : List (Network × String)) (broken : Network × String)
    (behind : List (Network × String))
    → All (λ (event : Network × String). event.0.writes ≡ true) before
    → broken.0.writes ≡ false
    → send_all (record { tcp_stream = true; udp_socket = udp }) (before ++ (broken ∷ behind))
      ≡ map streamed before ++ map (in_datagram broken.0.binds) (broken ∷ behind)
unfolding send_all send
send_all_broken udp [] (network, json) behind all fails = rw fails (
    ap (λ later. in_datagram network.binds (network, json) ∷ later)
      (send_all_by_socket network.binds behind))
send_all_broken udp ((network, json) ∷ before) broken behind (writes, all) fails =
    rw writes (
      ap (λ later. some (by_tcp json) ∷ later) (send_all_broken udp before broken behind all fails))
