-- ===== src/Tests/ConfigWitnesses.antt =====
-- The laws of `merge` at concrete configurations.
use agent_creance.Prelude.{false, List, [], ◌∷◌, none, Bytes, codes, bytes_eq, ◌≡◌, refl}
use agent_creance.Config.Model.{Rule, Config}
use agent_creance.Config.Merge.{merge, concat}
use agent_creance.Config.Merge.Dedupe.{dedupe, dedupe_from}
use agent_creance.Config.Merge.Equality.{list_eq, option_eq, bool_eq}
use agent_creance.Config.Merge.Laws.{merge_assoc}
use agent_creance.Prelude.{inr}
use agent_creance.Strings.{to_lower, lower_byte, last_index, trim_suffix_byte}
use agent_creance.Policy.Rule.{Request}
use agent_creance.Policy.Host.{canonical_host}
use agent_creance.Policy.Match.{canonical_request}
use agent_creance.Policy.Match.Applies.{RuleApplies}
use agent_creance.Policy.FromConfig.{rule_from_config}

abbrev to_host : Bytes → Rule
to_host h = record {
  host = h;
  paths = none;
  methods = none;
  mode = [];
  inject = [];
  in_cage = false;
  reason = [];
}

-- A configuration with a working directory and allowed hosts.
abbrev allowing : Bytes → List Rule → Config
allowing dir rules = record {
  agent = record { command = []; workdir = dir };
  safehouse = record { add_dirs_rw = []; add_dirs_ro = []; enable = [] };
  include = [];
  network = record {
    host_services = record { label = codes "db"; port = 5432 } ∷ [];
    egress = record { generators = []; allow = rules; deny_always = [] };
  };
  env = λ _. none;
  credentials = λ _. none;
  warnings = [];
}

abbrev shared : Config
shared = allowing (codes "/a") (to_host (codes "a.io") ∷ to_host (codes "b.io") ∷ [])

abbrev project : Config
project = allowing [] (to_host (codes "b.io") ∷ to_host (codes "c.io") ∷ [])

-- The project adds its own host; the shared host they both allow stands once.
merged_allow :
    (merge shared project).network.egress.allow
    ≡ to_host (codes "a.io") ∷ to_host (codes "b.io") ∷ to_host (codes "c.io") ∷ []
unfolding concat dedupe dedupe_from list_eq option_eq bool_eq bytes_eq
merged_allow = refl

merged_workdir : (merge shared project).agent.workdir ≡ codes "/a"
merged_workdir = refl

merge_assoc_example : merge (merge shared project) shared ≡ merge shared (merge project shared)
merge_assoc_example = merge_assoc shared project shared

-- A shared configuration that denies a host, and a project that allows it.
abbrev guarded : Config
guarded = record shared {
  network = record shared.network {
    egress = record shared.network.egress { deny_always = to_host (codes "c.io") ∷ [] };
  };
}

abbrev to_denied : Request
to_denied = record { host = codes "C.io"; path = codes "/x"; method = codes "GET" }

denied-RuleApplies :
    RuleApplies (rule_from_config (to_host (codes "c.io"))) (canonical_request to_denied)
unfolding canonical_host to_lower lower_byte last_index trim_suffix_byte
denied-RuleApplies = record { host = inr (inr refl); method = tt; path = tt }
