-- ===== src/Tests/CompileWitnesses.antt =====
-- The compiler's theorems at a concrete project with one generator.
use agent_creance.Prelude.{false, true, [], ◌∷◌, none, some, codes, refl, inr}
use agent_creance.Strings.{to_lower, lower_byte, last_index, trim_suffix_byte}
use agent_creance.Policy.Rule
use agent_creance.Policy.Rule.{Decision, Request, RuleSet, mode_intercept}
use agent_creance.Policy.Host.{canonical_host}
use agent_creance.Policy.Match.{canonical_request}
use agent_creance.Policy.Match.Applies.{RuleApplies}
use agent_creance.Policy.FromConfig.{rule_from_config}
use agent_creance.Config.Model.{Config}
use agent_creance.Policy.Compile.{ManifestInput, Runner}
use agent_creance.Tests.ValidateWitnesses.{rule_to, with_rules}

abbrev npm_rule : Rule.Rule
npm_rule = record {
  host = codes "x.io";
  paths = none;
  methods = some (codes "GET" ∷ []);
  mode = [];
  reason = [];
  inject = [];
  in_cage = false;
  source = [];
  lower_trust = false;
}

abbrev pub runner : Runner
runner kind bytes =
    some (record { rule = npm_rule; source = codes "generated:npm:x"; lower_trust = true } ∷ [])

abbrev pub manifest : ManifestInput
manifest = record { gen = record { kind = codes "npm"; path = codes "a/p.json" }; bytes = [] }

abbrev pub global : Config
global = with_rules [] (rule_to (codes "x.io") mode_intercept ∷ [])

-- The project repeats the global deny.
abbrev pub project : Config
project =
    with_rules (rule_to (codes "y.io") mode_intercept ∷ [])
      (rule_to (codes "x.io") mode_intercept ∷ [])

abbrev pub overlay : Config
overlay = with_rules [] []

abbrev pub compiled : RuleSet
compiled = record {
  allow =
      record (rule_from_config (rule_to (codes "y.io") mode_intercept)) {
        source = codes "explicit";
      }
      ∷ record npm_rule {
        mode = mode_intercept;
        source = codes "generated:npm:a/p.json:x";
        lower_trust = true;
      }
      ∷ [];
  deny_always =
      record (rule_from_config (rule_to (codes "x.io") mode_intercept)) { source = codes "global" }
      ∷ [];
}

abbrev pub to_denied : Request
to_denied = record { host = codes "X.io"; path = codes "/"; method = codes "GET" }

pub global-RuleApplies :
    RuleApplies
      (rule_from_config (rule_to (codes "x.io") mode_intercept))
      (canonical_request to_denied)
unfolding canonical_host to_lower lower_byte last_index trim_suffix_byte
global-RuleApplies = record { host = inr (inr refl); method = tt; path = tt }
