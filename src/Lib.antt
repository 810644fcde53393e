-- ===== src/Lib.antt =====
-- A verification library for this network sensor. It models the paths that a packet takes through
-- src/*.rs as functions, and states of them what makes them safe and correct.
--
-- The parts and how they interact. The capture thread of src/main.rs takes a block of packets from
-- the ring, parses each one (src/parser.rs) for its ports, collects references in the locality
-- buffer (src/locality.rs), groups them by port, and hands the packets on bucket by bucket: to the
-- detection engine (src/engine.rs), which tracks connections and evaluates the rules of rules.json
-- to messages (src/alert.rs), and to a task that reads the 4-tuple of each packet
-- (src/flow_parser.rs) and tracks its flow (src/flow_table.rs), which reports bursts.
--
-- Which file models what:
--   Prelude     lists, tests, bytes, association lists; Outcome and Loop for code that may panic
--   Parser      src/parser.rs: the types in Link, Mgmt and Layers; `parse_packet` in Entry;
--               radiotap, 802.11 (Wifi, Elements), Ethernet and network (Network), Transport, and
--               the applications (App, Dns); Text is `from_utf8_lossy` and `copy_mac`;
--               Agreement sets it beside src/flow_parser.rs
--   FlowKey     src/flow_parser.rs: `parse_flow_key`
--   FlowTable   src/flow_table.rs: `FlowState` in Flow, `SharedState` in Table
--   Locality    src/locality.rs: `LocalityBuffer`; a round of the capture loop in Drain
--   Main        src/main.rs: the command line, the target and the link type, the port of a packet,
--               and `AlertForwarder`
--   Alert       src/alert.rs: the messages
--   Engine      src/engine.rs: the rules as data in Config, the state and `new` in State,
--               `matches_rule` in Rules, the connection table in Connections, the rate trackers in
--               Rates, `expire_states` in Expire, `process_packet` and `create_message` in Process;
--               Text and Address are the numbers, ports and addresses as text; Float is the
--               interface of `f64`
--   Capture     src/capture.rs: `next_block`, the return of a block, and the packet iterator; Ring is
--               the ring between the kernel and the sensor as a step relation
-- A module's child modules hold its proofs, and Tests its runs and the uses of its theorems.
--
-- Conventions. A byte, a port and an address are numbers; a slice is a list of bytes, so a
-- sub-slice is a copy. An index or a slice out of range is the outcome `panics`. A `&mut` argument
-- is passed in and returned. Shifts and masks are quotients and remainders. A record's field or a
-- variant is renamed where the source's word is taken: `data` is `bytes`, the variants of the
-- parser's enums have a suffix (`tcp_layer`), a UDP length is `len`, a DNS class is `rclass`.
--
-- Fuel. Each loop of the parser is a body and `iterate`, which panics when its rounds are used up.
-- The rounds given are the bytes that are left, or the count of the loop, and one or two more;
-- since a loop out of rounds panics, a theorem that code does not panic, or that it gives a
-- result, says also that they are enough. A DNS name has 130 rounds, since the source's own counter
-- leaves after 128. The loop over a block's packets has one round more than packets.
--
-- Floating point. The engine's clock is an `f64`, given as a type with its operations (F64); where a
-- theorem needs arithmetic it takes the laws of IEEE 754 that it uses (IsIeee). An `f32` of a
-- message, which is only carried, is its bits. A `serde_json::Value` is seen by its kind and its
-- `as_u64`. The local time of a message is a function of the message's number. A reference that a
-- theorem compares the engine with (Process.Reference, Rates.Refines, Rates.Thresholds) is no code of the repository.
--
-- Time. A theorem on the engine's thresholds asks for timestamps that never go back. The capture loop
-- hands a block's packets on bucket by bucket, so it gives the engine such timestamps only where the
-- packets of a block arrive in the order of their buckets.
--
-- Not modelled: the reading of rules.json and of the interface's addresses (arguments of
-- `new_engine`), the socket and the mapping of the packet ring, the log files, the
-- terminal and the channels between threads. The locality buffer's arrays are functions, since the
-- source tests an index against the array's size or takes a 16-bit port. A `HashMap` is a list of
-- pairs, with the order of its entries open; `Instant::now()` is an argument.
pub mod Prelude
pub mod Alert
pub mod Capture
pub mod Engine
pub mod Parser
pub mod FlowKey
pub mod FlowTable
pub mod Locality
pub mod Main
