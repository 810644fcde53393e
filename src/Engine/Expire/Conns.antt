-- ===== src/Engine/Expire/Conns.antt =====
-- Which connections `expire_states` of src/engine.rs keeps.
use nids.Engine.Rules.{conn_key_eq}
