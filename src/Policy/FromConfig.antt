-- ===== src/Policy/FromConfig.antt =====
-- `FromConfig` and `RuleFromConfig` (internal/policy/policy.go): the configured egress rules as the
-- matcher's.
pub mod Layers
use agent_creance.Prelude.{false, List, [], map}
use agent_creance.Policy.Rule.{Rule, RuleSet}
use agent_creance.Config.Model
use agent_creance.Config.Model.{Egress}

abbrev pub rule_from_config : Model.Rule → Rule
rule_from_config r = record {
  host = r.host;
  paths = r.paths;
  methods = r.methods;
  mode = r.mode;
  reason = r.reason;
  inject = r.inject;
  in_cage = r.in_cage;
  source = [];
  lower_trust = false;
}

abbrev pub rules_from_config : List Model.Rule → List Rule
rules_from_config rules = map rule_from_config rules

abbrev pub from_config : Egress → RuleSet
from_config e = record {
  allow = rules_from_config e.allow;
  deny_always = rules_from_config e.deny_always;
}
