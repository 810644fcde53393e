-- ===== src/Main/Tests.antt =====
-- A command line, a forwarder whose second write fails, and the theorems on them.
use nids.Prelude.{◌≡◌, refl, true, false, some, List, [], ◌∷◌, ◌++◌, map, take, drop, none}
use nids.Parser.Link.{String, radiotap_wifi_link}
use nids.Engine.Text.{text, parse_u16, span_digits, to_digit, number_of, unsigned, whole_u16}
use nids.Main.{
  defaults, parse_args, target_addr, detect_link_type, Network, by_tcp, by_udp, send, send_all,
  new_forwarder,
}
use nids.Main.Forwarder.{streamed, in_datagram, send_all_broken}
use nids.Main.Arguments.{
  Spelling, interface_short, host_long, port_long, port_short, log_short, output_long, write_args,
  apply_settings, parse_args-write_args,
}

-- The value of the log path looks like a flag.
abbrev settings : List (Spelling × String)
settings =
    (host_long, text "10.0.0.9")
    ∷ (log_short, text "-h")
    ∷ (port_long, text "9")
    ∷ (port_short, text "514")
    ∷ (interface_short, text "eth0")
    ∷ (output_long, text "none")
    ∷ []

parse_args-write_args_example :
    parse_args (write_args settings) defaults ≡ some (apply_settings settings defaults)
parse_args-write_args_example = parse_args-write_args settings defaults

forwards_to : target_addr (apply_settings settings defaults) ≡ some (text "10.0.0.9:514")
unfolding target_addr
forwards_to = refl

monitor_type : detect_link_type (some (text "wlan0")) (some (text "803")) ≡ radiotap_wifi_link
unfolding detect_link_type parse_u16 span_digits to_digit number_of unsigned whole_u16
monitor_type = refl

abbrev events : List (Network × String)
events =
    (record { writes = true; binds = true; delivers = true }, text "a")
    ∷ (record { writes = false; binds = true; delivers = true }, text "b")
    ∷ (record { writes = true; binds = true; delivers = false }, text "c")
    ∷ (record { writes = true; binds = true; delivers = true }, text "d")
    ∷ []

falls_back :
    send_all (new_forwarder true true) events
    ≡ some (by_tcp (text "a")) ∷ some (by_udp (text "b")) ∷ none ∷ some (by_udp (text "d")) ∷ []
unfolding send_all send new_forwarder
falls_back = refl

send_all_broken_example :
    send_all (new_forwarder true true) events
    ≡ map streamed (take 1 events) ++ map (in_datagram true) (drop 1 events)
unfolding new_forwarder
send_all_broken_example =
    send_all_broken false (take 1 events)
      (record { writes = false; binds = true; delivers = true }, text "b") (drop 2 events)
      (refl, tt) refl
