-- ===== src/Parser.antt =====
-- src/parser.rs: the layered packet parser.
pub mod Link
pub mod Mgmt
pub mod Layers
pub mod Text
pub mod Dns
pub mod App
pub mod Transport
pub mod Network
pub mod Radiotap
pub mod Elements
pub mod Wifi
pub mod Entry
pub mod Agreement
mod Tests
