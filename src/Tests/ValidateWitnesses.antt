-- ===== src/Tests/ValidateWitnesses.antt =====
-- The validation's theorems at concrete configurations.
use agent_creance.Prelude.{
  false, true, List, [], ◌∷◌, none, some, Bytes, codes, bytes_eq, ◌≡◌, refl, ◌⊎◌, ◌↔◌, In,
}
use agent_creance.Strings.{
  has_prefix, trim_prefix, contains_byte, split, to_lower, lower_byte, last_index, trim_suffix_byte,
  has_suffix,
}
use agent_creance.Policy.Rule
use agent_creance.Policy.Rule.{Decision, Request, mode_intercept, mode_passthrough}
use agent_creance.Policy.Host.{canonical_host, match_host, host_rank}
use agent_creance.Policy.Match.{decide, canonical_request}
use agent_creance.Policy.Match.Applies.{RuleApplies}
use agent_creance.Policy.Disposition.{host_disposition}
use agent_creance.Policy.FromConfig.{from_config}
use agent_creance.Policy.FromConfig.Layers.{decided}
use agent_creance.Config.Model
use agent_creance.Config.Model.{Config}
use agent_creance.Config.Merge.{merge}
use agent_creance.Config.Validate.{
  validate_host, validate_methods, host_method_issues, mode_issues, auth_issues, validate_rules,
  invalid_host, empty_label, passthrough_paths,
}
use agent_creance.Config.Validate.Meaning.{IsValid}
use agent_creance.Config.Validate.Accepted.{validate_rules_iff}
use agent_creance.Config.Validate.Layered.{Validated, merge_comm-Validated, tunnel-Validated}

abbrev pub rule_to : Bytes → Bytes → Model.Rule
rule_to host mode = record {
  host = host;
  paths = none;
  methods = none;
  mode = mode;
  inject = [];
  in_cage = false;
  reason = [];
}

abbrev pub with_rules : List Model.Rule → List Model.Rule → Config
with_rules allow deny = record {
  agent = record { command = []; workdir = [] };
  safehouse = record { add_dirs_rw = []; add_dirs_ro = []; enable = [] };
  include = [];
  network = record {
    host_services = [];
    egress = record { generators = []; allow = allow; deny_always = deny };
  };
  env = λ _. none;
  credentials = λ _. none;
  warnings = [];
}

abbrev tunnels : List Model.Rule
tunnels = rule_to (codes "*.t.io") mode_passthrough ∷ []

abbrev first : Config
first = with_rules tunnels []

abbrev second : Config
second = with_rules [] (rule_to (codes "x.io") mode_intercept ∷ [])

first-Validated : Validated first
unfolding validate_rules host_method_issues mode_issues auth_issues validate_host validate_methods
    has_prefix trim_prefix contains_byte split bytes_eq
first-Validated = (refl, refl)

second-Validated : Validated second
unfolding validate_rules host_method_issues mode_issues auth_issues validate_host validate_methods
    has_prefix trim_prefix contains_byte split bytes_eq
second-Validated = (refl, refl)

-- A host with an empty label, and a tunnel that names paths, are refused.
refused_run :
    validate_rules (
      rule_to (codes "a..io") mode_intercept
      ∷ record (rule_to (codes "*.t.io") mode_passthrough) { paths = some [] }
      ∷ [])
    ≡ invalid_host empty_label ∷ passthrough_paths ∷ []
unfolding validate_rules host_method_issues mode_issues auth_issues validate_host validate_methods
    has_prefix trim_prefix contains_byte split bytes_eq
refused_run = refl

validate_rules_iff_example :
    (validate_rules tunnels ≡ []) ↔ ((r : Model.Rule) → In r tunnels → IsValid r)
validate_rules_iff_example = validate_rules_iff tunnels

abbrev to_tunnel : Request
to_tunnel = record { host = codes "a.t.io"; path = codes "/"; method = codes "GET" }

merge_comm-Validated_example :
    decided (merge first second) to_tunnel ≡ decided (merge second first) to_tunnel
merge_comm-Validated_example =
    merge_comm-Validated first second to_tunnel first-Validated second-Validated

passed : (host_disposition (from_config first.network.egress) to_tunnel.host).passthrough ≡ true
unfolding host_disposition canonical_host match_host host_rank to_lower lower_byte last_index
    trim_suffix_byte has_suffix has_prefix bytes_eq
passed = refl

tunnel-Validated_example :
    ((decided first to_tunnel ≡ Decision.allow)
      × ((decide (from_config first.network.egress) to_tunnel).mode ≡ mode_passthrough))
    ⊎ ((decided first to_tunnel ≡ Decision.hard_deny)
        × ((d : Rule.Rule) × In d (from_config first.network.egress).deny_always
            × (d.paths ≡ none)
            × RuleApplies d (canonical_request to_tunnel)))
tunnel-Validated_example = tunnel-Validated first to_tunnel first-Validated passed
