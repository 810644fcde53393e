-- ===== src/FlowTable.antt =====
-- src/flow_table.rs. An `Instant` and a `Duration` are numbers of nanoseconds. The state of a flow
-- is in Flow, the shared table in Table.
pub mod Flow
pub mod Table
mod Tests
