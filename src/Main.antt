-- ===== src/Main.antt =====
-- src/main.rs beside the capture loop: the command line, the link type of an interface, the port that
-- a packet is grouped by, and the forwarder of alerts. What the system answers is an argument.
pub mod Forwarder
pub mod Arguments
pub mod Tests
use nids.Prelude.{
  ℕ, ◌&&◌, ◌||◌, Bool, true, false, not, Option, none, some, List, [], ◌∷◌, ◌++◌, any, ltb, ◌==◌,
  if◌then◌else◌, min,
}
use nids.Parser.Link.{
  String, LinkType, ethernet_link, wifi_80211_link, radiotap_wifi_link, unknown_link,
}
use nids.Parser.Layers.{ParsedPacket, tcp_layer, udp_layer}
use nids.Engine.Text.{text, string_equals, parse_u16}

-- The arguments that a run goes by; without a log path nothing is logged to a file.
pub record Options : Type 0 where
  pub interface_name : Option String
  pub forward_ip : Option String
  pub forward_port : Option String
  pub log_file_path : Option String

abbrev pub defaults : Options
defaults = record {
  interface_name = none;
  forward_ip = none;
  forward_port = none;
  log_file_path = some (text "nids.log");
}

-- What an argument is by its text.
pub data Flag : Type 0 where
  help : Flag
  interface : Flag
  ip : Flag
  port : Flag
  log : Flag
  other_flag : Flag

abbrev pub is_one_of : String → List String → Bool
is_one_of arg names = any (λ name. string_equals arg name) names

unfoldable pub flag_of : String → Flag
flag_of arg =
    if is_one_of arg (text "-h" ∷ text "--help" ∷ [])
    then help
    else if is_one_of arg (text "--interface" ∷ text "-i" ∷ [])
    then interface
    else if is_one_of arg (text "--ip" ∷ text "--host" ∷ text "-ip" ∷ text "-host" ∷ [])
    then ip
    else if is_one_of arg (text "--port" ∷ text "-port" ∷ text "-p" ∷ [])
    then port
    else if is_one_of arg (text "--log" ∷ text "-l" ∷ text "--output" ∷ text "-o" ∷ [])
    then log
    else other_flag

-- A flag with its value.
unfoldable pub apply_flag : Flag → String → Options → Options
apply_flag help value options = options
apply_flag interface value options = record options { interface_name = some value }
apply_flag ip value options = record options { forward_ip = some value }
apply_flag port value options = record options { forward_port = some value }
apply_flag log value options = record options {
  log_file_path = if is_one_of value (text "none" ∷ text "null" ∷ []) then none else some value;
}
apply_flag other_flag value options = options

-- The loop over the arguments from the one at hand: nothing when help is asked for. A flag at the end
-- of the line has no value and is passed over, as is an argument that is no flag.
unfoldable pub parse_args : List String → Options → Option Options
unfolding flag_of apply_flag
parse_args [] options = some options
parse_args (arg ∷ []) options = elim (flag_of arg) [ help ↦ none | _ ↦ some options ]
parse_args (arg ∷ value ∷ rest) options =
    let skipped = parse_args (value ∷ rest) options in
    let taken = parse_args rest (apply_flag (flag_of arg) value options) in
    elim (flag_of arg) [ help ↦ none | other_flag ↦ skipped | _ ↦ taken ]

unfoldable pub target_addr : Options → Option String
target_addr options = elim options.forward_ip [
  | none ↦ none
  | some addr ↦ if any (λ b. b == 58) addr then some addr else elim options.forward_port [
    | some number ↦ some (addr ++ text ":" ++ number)
    | none ↦ some (addr ++ text ":9999")
  ]
]

-- The file of the interface's type is the trimmed text read, if it could be read.
unfoldable pub detect_link_type : Option String → Option String → LinkType
detect_link_type none type_str = ethernet_link
detect_link_type (some iface) none = unknown_link
detect_link_type (some iface) (some type_str) = elim (parse_u16 type_str) [
  | none ↦ unknown_link
  | some type_val ↦
      if type_val == 1
      then ethernet_link
      else if type_val == 801
      then wifi_80211_link
      else if type_val == 803
      then radiotap_wifi_link
      else unknown_link
]

unfoldable pub port_key : ParsedPacket → ℕ
port_key parsed = elim parsed.transport [
  | tcp_layer tcp ↦ min tcp.src_port tcp.dst_port
  | udp_layer udp ↦ min udp.src_port udp.dst_port
  | _ ↦ 0
]

-- Whether the forwarder has a stream and a socket.
pub record AlertForwarder : Type 0 where
  pub tcp_stream : Bool
  pub udp_socket : Bool

-- What the network answers to one message: whether the write succeeds, whether a socket can be
-- bound, and whether the datagram is sent.
pub record Network : Type 0 where
  pub writes : Bool
  pub binds : Bool
  pub delivers : Bool

pub data Sent : Type 0 where
  by_tcp : String → Sent
  by_udp : String → Sent

-- `AlertForwarder::new`
unfoldable pub new_forwarder : Bool → Bool → AlertForwarder
new_forwarder connects binds = record {
  tcp_stream = connects;
  udp_socket = if connects then false else binds;
}

-- The result of `send_to` is ignored: a message that is not sent is lost.
abbrev pub send_udp : AlertForwarder → Network → String → AlertForwarder × Option Sent
send_udp f network json = (f, if f.udp_socket && network.delivers then some (by_udp json) else none)

-- `AlertForwarder::send`; a message by TCP is followed by a line feed.
unfoldable pub send : AlertForwarder → Network → String → AlertForwarder × Option Sent
send f network json =
    if not f.tcp_stream
    then send_udp f network json
    else if network.writes
    then (f, some (by_tcp json))
    else send_udp (record f { tcp_stream = false; udp_socket = network.binds }) network json

-- The loop over the alerts.
unfoldable pub send_all : AlertForwarder → List (Network × String) → List (Option Sent)
unfolding send
send_all f [] = []
send_all f ((network, json) ∷ rest) =
    let (f', sent) = send f network json in sent ∷ send_all f' rest
