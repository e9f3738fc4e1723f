-- ===== src/Policy/Compile/Outcome.antt =====
-- What a successful build of the rule set guarantees (internal/policy/compile/compile.go).
use agent_creance.Prelude.{List, [], none, ◌≡◌, ◌≢◌, refl, sym, ◌∙◌, ap, subst, In}
use agent_creance.Policy.Rule.{Decision, Rule, RuleSet, Request}
use agent_creance.Policy.Match.{decide, canonical_request}
use agent_creance.Policy.Match.Applies.{RuleApplies}
use agent_creance.Policy.Match.Verdict.{decide_of_host_deny}
use agent_creance.Policy.FromConfig.{rule_from_config}
use agent_creance.Config.Model
use agent_creance.Config.Model.{Config}
use agent_creance.Config.Validate.{validate_host}
use agent_creance.Policy.Compile.{
  ManifestInput, CompileError, Built, done, failed, then_build, checked_methods, Runner,
  run_generators, compiled_rules, build_rule_set,
}
use agent_creance.Policy.Compile.Union.{InLayers, deny_stands, RuleApplies-key}

done_inj : {A : Type 0} {a b : A} → done a ≡ done b → a ≡ b
done_inj h = cc

never : {A B : Type 0} {a : A} (e : CompileError) → failed e ≡ done a → B
never e h = cc

built :
    (run : Runner) (global project overlay : Config) (manifests : List ManifestInput) (rs : RuleSet)
    → build_rule_set run global project overlay manifests ≡ done rs
    → (generated : List Rule) × (run_generators run manifests ≡ done generated)
      × (compiled_rules global project overlay generated ≡ rs)
unfolding build_rule_set
built run global project overlay manifests rs = by_result (run_generators run manifests) refl
  where
    by_result :
        (b : Built (List Rule))
        → run_generators run manifests ≡ b
        → then_build b (λ generated. done (compiled_rules global project overlay generated))
          ≡ done rs
        → (generated : List Rule) × (run_generators run manifests ≡ done generated)
          × (compiled_rules global project overlay generated ≡ rs)
    by_result (done generated) e h = (generated, e, done_inj h)
    by_result (failed x) e h = never x h

-- Under the compiled rule set, a host-wide deny of the global file, the project or the session that
-- applies to a request is a hard deny, whatever the generators add and whatever duplicates are
-- dropped.
pub build_rule_set-hard_deny :
    (run : Runner) (global project overlay : Config) (manifests : List ManifestInput) (rs : RuleSet)
    (d : Model.Rule) (req : Request)
    → build_rule_set run global project overlay manifests ≡ done rs
    → InLayers d global.network.egress.deny_always project.network.egress.deny_always
        overlay.network.egress.deny_always
    → d.paths ≡ none
    → RuleApplies (rule_from_config d) (canonical_request req)
    → (decide rs req).decision ≡ Decision.hard_deny
build_rule_set-hard_deny run global project overlay manifests rs d req h stands wide applies =
    let (generated, _, same) = built run global project overlay manifests rs h in
    let (k, m, key) = deny_stands global project overlay generated d stands in
    decide_of_host_deny rs req k (subst (λ (x : RuleSet). In k x.deny_always) same m)
      (sym (ap (λ (x : Model.Rule). x.paths) key) ∙ wide)
      (RuleApplies-key (rule_from_config d) k (canonical_request req) key applies)

-- A generated rule that was checked.
abbrev pub Checked : Rule → Type 0
Checked r = (validate_host r.host ≡ none) × (checked_methods r.methods ≡ none) × (r.mode ≢ [])
