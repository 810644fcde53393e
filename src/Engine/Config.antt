-- ===== src/Engine/Config.antt =====
-- The rules of rules.json as src/engine.rs reads them. A `serde_json::Value` is seen by its kind: a
-- text, a number by its `as_u64`, or neither.
use nids.Prelude.{ℕ, Bool, Option, List}
use nids.Parser.Link.{String}
use nids.Alert.{Severity}

pub data Value : Type 0 where
  string_value : String → Value
  number_value : Option ℕ → Value
  other_value : Value

pub record ScopeConfig : Type 0 where
  pub interfaces : List String

pub record IpMatch : Type 0 where
  pub src_ip : String
  pub dst_ip : String
  pub ip_version : List ℕ

pub record TransportMatch : Type 0 where
  pub protocol : List String
  pub src_port : Value
  pub dst_port : Value

pub record MatchConfig : Type 0 where
  pub ip : IpMatch
  pub transport : TransportMatch
  pub direction : String

pub record FlowConfig : Type 0 where
  pub state : String

pub record LimitConfig (F : Type 0) : Type 0 where
  pub per : String
  pub connections : ℕ
  pub interval : F

pub record ContextConfig (F : Type 0) : Type 0 where
  pub flow : FlowConfig
  pub limits : Option (List (String × LimitConfig F))

pub record PerSrcConfig : Type 0 where
  pub max_requests_per_second : Option ℕ

pub record BehaviourConfig : Type 0 where
  pub per_src : Option PerSrcConfig

pub record RuleConfig (F : Type 0) : Type 0 where
  pub id : ℕ
  pub enabled : Bool
  pub action : String
  pub message : String
  pub class : String
  pub severity : ℕ
  pub scope : ScopeConfig
  pub match_config : MatchConfig
  pub context : ContextConfig F
  pub behaviour : BehaviourConfig

pub record EvaluatedRule (F : Type 0) : Type 0 where
  pub id : ℕ
  pub event_id : String
  pub event_name : String
  pub severity : Severity
  pub action : String
  pub class : String
  pub scope : ScopeConfig
  pub match_config : MatchConfig
  pub context : ContextConfig F
  pub behaviour : BehaviourConfig
