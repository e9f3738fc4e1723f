-- ===== src/Tests/PolicyRuns.antt =====
-- The egress matcher on concrete rule sets.
use agent_creance.Prelude.{
  true, false, List, [], ◌∷◌, Option, none, some, Bytes, codes, ◌≡◌, refl, bytes_eq,
}
use agent_creance.Strings.{
  has_prefix, has_suffix, trim_suffix_byte, lower_byte, to_lower, count_byte, contains_byte,
  last_index, trim, split, join,
}
use agent_creance.Policy.Rule.{Decision, Rule, RuleSet, Request, mode_intercept, mode_passthrough}
use agent_creance.Policy.Host.{canonical_host, match_host, host_rank}
use agent_creance.Policy.Glob.{match_segment_glob}
use agent_creance.Policy.Path.{split_path, match_path, match_method}
use agent_creance.Policy.Specificity.{rule_specificity, more_specific}
use agent_creance.Policy.Match.{rule_matches, best_match, everything, decide}
use agent_creance.Policy.Disposition.{host_disposition}

abbrev pub rule : Bytes → Option (List Bytes) → Option (List Bytes) → Bytes → Rule
rule host paths methods mode = record {
  host = host;
  paths = paths;
  methods = methods;
  mode = mode;
  reason = codes "why";
  inject = [];
  in_cage = false;
  source = [];
  lower_trust = false;
}

abbrev pub api : Rule
api =
    rule (codes "api.x.io") (some (codes "/v1/*/items" ∷ [])) (some (codes "GET" ∷ []))
      mode_intercept

abbrev pub tunnel : Rule
tunnel = rule (codes "*.t.io") none none mode_passthrough

abbrev pub blocked : Rule
blocked = rule (codes "evil.t.io") none none mode_intercept

abbrev pub scoped : Rule
scoped = rule (codes "*.t.io") (some (codes "/admin" ∷ [])) none mode_intercept

abbrev pub rules : RuleSet
rules = record { allow = api ∷ tunnel ∷ []; deny_always = blocked ∷ scoped ∷ [] }

abbrev pub ask : Bytes → Bytes → Request
ask host path = record { host = host; path = path; method = codes "GET" }

pub allowed_run :
    (decide rules (ask (codes "API.x.io:443") (codes "/v1/a/items/7"))).decision ≡ Decision.allow
unfolding decide rule_matches match_host match_method match_path match_segment_glob rule_specificity
    more_specific canonical_host host_rank to_lower lower_byte has_prefix has_suffix trim split join
    trim_suffix_byte count_byte contains_byte last_index split_path bytes_eq
allowed_run = refl

pub denied_run : (decide rules (ask (codes "evil.t.io") (codes "/"))).decision ≡ Decision.hard_deny
unfolding decide rule_matches match_host match_method match_path match_segment_glob rule_specificity
    more_specific canonical_host host_rank to_lower lower_byte has_prefix has_suffix trim split join
    trim_suffix_byte count_byte contains_byte last_index split_path bytes_eq
denied_run = refl

pub passed_run : (host_disposition rules (codes "a.t.io.")).passthrough ≡ true
unfolding host_disposition match_host canonical_host host_rank to_lower lower_byte has_prefix
    has_suffix trim_suffix_byte count_byte last_index bytes_eq
passed_run = refl

pub reason_run : (host_disposition rules (codes "evil.t.io")).deny_reason ≡ codes "why"
unfolding host_disposition match_host canonical_host host_rank to_lower lower_byte has_prefix
    has_suffix trim_suffix_byte count_byte last_index bytes_eq
reason_run = refl

pub matched_run :
    rule_matches api (ask (codes "api.x.io") (codes "/v1/a/items/7")) ≡ some (codes "/v1/*/items")
unfolding rule_matches match_host match_method match_path match_segment_glob rule_specificity
    more_specific host_rank to_lower lower_byte has_prefix has_suffix trim split join count_byte
    contains_byte split_path bytes_eq
matched_run = refl

pub best_run :
    best_match rules.allow (ask (codes "api.x.io") (codes "/v1/a/items/7")) everything ≡ some 0
unfolding best_match rule_matches match_host match_method match_path match_segment_glob
    rule_specificity more_specific host_rank to_lower lower_byte has_prefix has_suffix trim split
    join count_byte contains_byte split_path bytes_eq
best_run = refl
