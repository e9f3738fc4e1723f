-- ===== src/Policy/Rule.antt =====
-- The matcher's data (internal/policy/policy.go).
use agent_creance.Prelude.{ℕ, Bool, Bytes, codes, List, Option}

pub data Decision : Type 0 where
  allow soft_deny hard_deny : Decision

abbrev pub mode_intercept : Bytes
mode_intercept = codes "intercept"

abbrev pub mode_passthrough : Bytes
mode_passthrough = codes "passthrough"

-- `paths` and `methods` are `none` where the Go slice is nil (the key was omitted).
pub record Rule : Type 0 where
  pub host : Bytes
  pub paths : Option (List Bytes)
  pub methods : Option (List Bytes)
  pub mode : Bytes
  pub reason : Bytes
  pub inject : Bytes
  pub in_cage : Bool
  pub source : Bytes
  pub lower_trust : Bool

pub record RuleSet : Type 0 where
  pub allow : List Rule
  pub deny_always : List Rule

pub record Request : Type 0 where
  pub host : Bytes
  pub path : Bytes
  pub method : Bytes

pub data RuleList : Type 0 where
  allow_list deny_always_list : RuleList

pub record MatchedRule : Type 0 where
  pub list : RuleList
  pub index : ℕ

pub record Result : Type 0 where
  pub decision : Decision
  pub mode : Bytes
  pub matched : Option MatchedRule
