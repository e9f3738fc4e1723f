-- ===== src/Policy/Match.antt =====
-- `ruleMatches`, `bestMatch` and `Decide` (internal/policy/match.go).
pub mod Applies
pub mod Best
pub mod Verdict
pub mod Order
pub mod Spelling
use agent_creance.Prelude.{
  ℕ, zero, suc, ◌+◌, Bool, true, false, not, ◌&&◌, List, [], ◌∷◌, Option, none, some, Bytes, codes,
  if◌then◌else◌, get_elem?, bytes_eq,
}
use agent_creance.Policy.Rule.{
  Decision, Rule, RuleSet, Request, RuleList, MatchedRule, Result, mode_passthrough,
}
use agent_creance.Policy.Host.{canonical_host, match_host}
use agent_creance.Policy.Path.{match_path, match_method}
use agent_creance.Policy.Specificity.{Specificity, rule_specificity, more_specific}

-- The pattern kept after one that matches; `none` is `found == false`.
better_path : Rule → Bytes → Option Bytes → Option Bytes
better_path r p none = some p
better_path r p (some matched) =
    if more_specific (rule_specificity r p) (rule_specificity r matched)
    then some p
    else some matched

-- The loop over the rule's paths.
best_path : Rule → Bytes → List Bytes → Option Bytes → Option Bytes
best_path r path [] matched = matched
best_path r path (p ∷ ps) matched =
    best_path r path ps (if match_path p path then better_path r p matched else matched)

path_matches : Rule → Bytes → Option (List Bytes) → Option Bytes
path_matches r path none = some []
path_matches r path (some ps) = best_path r path ps none

-- The matched pattern, `none` for the result `"", false`.
unfoldable pub rule_matches : Rule → Request → Option Bytes
unfolding path_matches best_path better_path
rule_matches r req =
    if not (match_host r.host req.host)
    then none
    else if not (match_method r.methods req.method)
    then none
    else path_matches r req.path r.paths

-- The best rule so far: its index and its score; `none` is index -1.
abbrev pub Best : Type 0
Best = Option (ℕ × Specificity)

better_rule : ℕ → Specificity → Best → Best
better_rule i spec none = some (i, spec)
better_rule i spec (some (j, best)) =
    if more_specific spec best then some (i, spec) else some (j, best)

consider : ℕ → Rule → Option Bytes → Best → Best
consider i r none best = best
consider i r (some pattern) best = better_rule i (rule_specificity r pattern) best

-- The loop of `bestMatch` from index `i`.
best_from : List Rule → Request → (Rule → Bool) → ℕ → Best → Best
best_from [] req eligible i best = best
best_from (r ∷ rules) req eligible i best =
    best_from rules req eligible (suc i)
      (if not (eligible r) then best else consider i r (rule_matches r req) best)

abbrev index_of : Best → Option ℕ
index_of none = none
index_of (some (i, _)) = some i

unfoldable pub best_match : List Rule → Request → (Rule → Bool) → Option ℕ
unfolding best_from consider better_rule
best_match rules req eligible = index_of (best_from rules req eligible 0 none)

abbrev pub everything : Rule → Bool
everything r = true

-- `r.Paths == nil`
abbrev pub is_host_wide : Rule → Bool
is_host_wide r = elim r.paths [ none ↦ true | some _ ↦ false ]

-- `rules[i].Mode` for the index that `best_match` found; the mode of no rule is empty.
abbrev mode_at : List Rule → Option ℕ → Bytes
mode_at rules none = []
mode_at rules (some i) = elim (get_elem? rules i) [ none ↦ [] | some r ↦ r.mode ]

abbrev is_some {ℓ} : {A : Type ℓ} → Option A → Bool
is_some none = false
is_some (some _) = true

allow_result : List Rule → Option ℕ → Result
allow_result rules none = record { decision = Decision.soft_deny; mode = []; matched = none }
allow_result rules (some i) = record {
  decision = Decision.allow;
  mode = mode_at rules (some i);
  matched = some (record { list = RuleList.allow_list; index = i });
}

verdict : RuleSet → Option ℕ → Option ℕ → Result
verdict rs allow none = allow_result rs.allow allow
verdict rs allow (some i) = record {
  decision = Decision.hard_deny;
  mode = mode_at rs.deny_always (some i);
  matched = some (record { list = RuleList.deny_always_list; index = i });
}

-- `isPassthrough`, for the allow that was found
carries_passthrough : List Rule → Option ℕ → Bool
carries_passthrough rules best = is_some best && bytes_eq (mode_at rules best) mode_passthrough

-- The predicate `eligible`: on a passthrough host the host-wide denies only.
abbrev pub eligible_deny : Bool → Rule → Bool
eligible_deny passthrough = if passthrough then is_host_wide else everything

unfoldable pub decide_canonical : RuleSet → Request → Result
unfolding best_match verdict allow_result carries_passthrough
decide_canonical rs req =
    let allow = best_match rs.allow req everything in
    let passthrough = carries_passthrough rs.allow allow in
    verdict rs allow (best_match rs.deny_always req (eligible_deny passthrough))

abbrev pub canonical_request : Request → Request
canonical_request req = record req { host = canonical_host req.host }

unfoldable pub decide : RuleSet → Request → Result
unfolding decide_canonical
decide rs req = decide_canonical rs (canonical_request req)
