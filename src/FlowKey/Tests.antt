-- ===== src/FlowKey/Tests.antt =====
-- A TCP segment from 10.0.0.1:80 to 10.0.0.2:443 and one from 8.0.0.1, and the theorems on them.
use nids.Prelude.{ℕ, ◌≡◌, refl, inl, List, [], ◌∷◌, arith}
use nids.Prelude.Outcome.{returns, Runs, byte, slice_from, ◌>>=◌}
use nids.Prelude.Bytes.{read_be16, read_be32}
use nids.FlowKey.{
  FlowKey, ok, err, packet_too_short, parse_flow_key, parse_ipv4, parse_ports, is_ethernet_ipv4,
}
use nids.FlowKey.Safety.{parse_flow_key-Runs}
use nids.FlowKey.Sound.{packet_of, parse_flow_key_sound}
use nids.FlowKey.Frames.{
  CarriesPorts, key_of, Segment, IsSegment, IsKey, encode, ethernet, parse_flow_key-ethernet,
  parse_flow_key-bare,
}

abbrev key : FlowKey
key = (0x0A000001, 80, 0x0A000002, 443)

abbrev key_8 : FlowKey
key_8 = (0x08000001, 80, 0x0A000002, 443)

abbrev segment : Segment
segment = record {
  tos = 0;
  before_protocol = (0, 28, 0, 1, 0, 0, 64);
  protocol = 6;
  checksum = (0, 0);
  option_words = 0;
  options = [];
  rest = 1 ∷ 2 ∷ 3 ∷ 4 ∷ [];
}

abbrev macs : List ℕ
macs = 1 ∷ 2 ∷ 3 ∷ 4 ∷ 5 ∷ 6 ∷ 7 ∷ 8 ∷ 9 ∷ 10 ∷ 11 ∷ 12 ∷ []

key-IsKey : IsKey key
key-IsKey = omega arith

segment-IsSegment : IsSegment segment
segment-IsSegment = record { protocol = inl refl; words = omega arith; options = refl }

program : Unit {0}
unfolding parse_flow_key parse_ipv4 parse_ports is_ethernet_ipv4 byte slice_from read_be16 read_be32
    ◌>>=◌
program = tt
  where
    frame_runs : parse_flow_key (ethernet macs (encode key segment)) ≡ returns (ok key)
    frame_runs = refl

    empty_runs : parse_flow_key [] ≡ returns (err packet_too_short)
    empty_runs = refl

    -- A bare segment whose source address begins with 8.0 is refused.
    mistaken_runs : parse_flow_key (encode key_8 segment) ≡ returns (err packet_too_short)
    mistaken_runs = refl

parse_flow_key-Runs_example : Runs (parse_flow_key (ethernet macs (encode key segment)))
parse_flow_key-Runs_example = parse_flow_key-Runs (ethernet macs (encode key segment))

parse_flow_key-ethernet_example :
    parse_flow_key (ethernet macs (encode key segment)) ≡ returns (ok key)
parse_flow_key-ethernet_example =
    parse_flow_key-ethernet macs key segment refl key-IsKey segment-IsSegment

parse_flow_key-bare_example : parse_flow_key (encode key segment) ≡ returns (ok key)
parse_flow_key-bare_example =
    parse_flow_key-bare key segment key-IsKey segment-IsSegment (omega arith)

parse_flow_key_sound_example :
    CarriesPorts (packet_of (encode key segment))
    × (key ≡ key_of (packet_of (encode key segment)) 20)
    × IsKey key
unfolding packet_of
parse_flow_key_sound_example =
    parse_flow_key_sound (encode key segment) key (omega arith) parse_flow_key-bare_example
