-- ===== src/Policy/Compile.antt =====
-- The rule set that the compiler builds (internal/policy/compile/compile.go), from the three layers
-- of configuration and the output of the generators. A generator is a parameter: a function from
-- its name and the bytes of a manifest to rules or a failure.
pub mod Union
pub mod Outcome
pub mod Credentials
pub mod Gate
pub mod Rerun
pub mod History
pub mod Resolve
use agent_creance.Prelude.{
  ℕ, Bool, true, false, not, List, [], ◌∷◌, ◌++◌, Option, none, some, Bytes, codes, any, map,
  if◌then◌else◌, bytes_eq,
}
use agent_creance.Strings.{has_prefix, trim_prefix, contains_byte}
use agent_creance.Policy.Rule.{Rule, RuleSet, mode_intercept}
use agent_creance.Policy.FromConfig.{rule_from_config}
use agent_creance.Config.Model
use agent_creance.Config.Model.{Config, Map, Credential}
use agent_creance.Config.Merge.{merge_map}
use agent_creance.Config.Merge.Dedupe.{Equal}
use agent_creance.Config.Merge.Equality.{of_rule}
use agent_creance.Config.Validate.{HostError, MethodError, validate_host, validate_methods}

abbrev pub source_explicit : Bytes
source_explicit = codes "explicit"

abbrev pub source_global : Bytes
source_global = codes "global"

abbrev pub source_once : Bytes
source_once = codes "once"

pub record ResolvedGenerator : Type 0 where
  pub kind : Bytes
  pub path : Bytes

pub record ManifestInput : Type 0 where
  pub gen : ResolvedGenerator
  pub bytes : Bytes

-- generator.Rule
pub record GeneratedRule : Type 0 where
  pub rule : Rule
  pub source : Bytes
  pub lower_trust : Bool

pub data CompileError : Type 0 where
  generator_failed invalidate_failed : (kind : Bytes) → CompileError
  generated_host : HostError → CompileError
  generated_methods : MethodError → CompileError
  undefined_credential : (name : Bytes) → CompileError
  create_dir write_policy finalize_policy : CompileError

pub data Built (A : Type 0) : Type 0 where
  done : A → Built A
  failed : CompileError → Built A

abbrev pub then_build : {A B : Type 0} → Built A → (A → Built B) → Built B
then_build (done a) f = f a
then_build (failed e) f = failed e

unfoldable pub annotate : List Model.Rule → Bytes → List Rule
annotate rules source =
    map (λ (r : Model.Rule). record (rule_from_config r) { source = source }) rules

-- `filepath.Dir(path) == "."` for a clean relative path
abbrev pub is_root : Bytes → Bool
is_root path = not (contains_byte b'/' path)

abbrev pub generated_prefix : ResolvedGenerator → Bytes
generated_prefix rg = codes "generated:" ++ (rg.kind ++ b':' ∷ [])

abbrev pub source_with_path : Bytes → ResolvedGenerator → Bytes
source_with_path src rg =
    if is_root rg.path
    then src
    else if not (has_prefix src (generated_prefix rg))
    then src
    else generated_prefix rg ++ (rg.path ++ b':' ∷ trim_prefix src (generated_prefix rg))

abbrev pub default_mode : Bytes → Bytes
default_mode [] = mode_intercept
default_mode (c ∷ mode) = c ∷ mode

abbrev pub stamped : ResolvedGenerator → GeneratedRule → Rule
stamped rg gr = record gr.rule {
  source = source_with_path gr.source rg;
  lower_trust = gr.lower_trust;
  mode = default_mode gr.rule.mode;
}

-- The nil slice has no methods to check.
abbrev pub checked_methods : Option (List Bytes) → Option MethodError
checked_methods none = none
checked_methods (some ms) = validate_methods ms

abbrev pub check_rule : Rule → Option HostError → Option MethodError → Built Rule
check_rule r (some e) m = failed (generated_host e)
check_rule r none (some e) = failed (generated_methods e)
check_rule r none none = done r

-- The loop over the rules of one generator.
unfoldable pub generated_rules : ResolvedGenerator → List GeneratedRule → Built (List Rule)
generated_rules rg [] = done []
generated_rules rg (gr ∷ grs) =
    then_build
      (check_rule (stamped rg gr) (validate_host (stamped rg gr).host)
        (checked_methods (stamped rg gr).methods))
      (λ r. then_build (generated_rules rg grs) (λ rest. done (r ∷ rest)))

abbrev pub Runner : Type 0
Runner = Bytes → Bytes → Option (List GeneratedRule)

abbrev pub generator_output : ManifestInput → Option (List GeneratedRule) → Built (List Rule)
generator_output m none = failed (generator_failed m.gen.kind)
generator_output m (some grs) = generated_rules m.gen grs

unfoldable pub run_generators : Runner → List ManifestInput → Built (List Rule)
run_generators run [] = done []
run_generators run (m ∷ ms) =
    then_build (generator_output m (run m.gen.kind m.bytes))
      (λ rules. then_build (run_generators run ms) (λ rest. done (rules ++ rest)))

-- `ruleKey`: everything but the provenance
abbrev pub rule_key : Rule → Model.Rule
rule_key r = record {
  host = r.host;
  paths = r.paths;
  methods = r.methods;
  mode = r.mode;
  inject = r.inject;
  in_cage = r.in_cage;
  reason = r.reason;
}

-- `dedupe`, with the rules it has kept
unfoldable pub dedupe_rules_from : List Rule → List Rule → List Rule
dedupe_rules_from kept [] = kept
dedupe_rules_from kept (r ∷ rules) =
    if any (λ (k : Rule). of_rule.same (rule_key r) (rule_key k)) kept
    then dedupe_rules_from kept rules
    else dedupe_rules_from (kept ++ r ∷ []) rules

abbrev pub dedupe_rules : List Rule → List Rule
dedupe_rules rules = dedupe_rules_from [] rules

-- The three layers and the generated rules
abbrev pub compiled_rules : Config → Config → Config → List Rule → RuleSet
compiled_rules global project overlay generated = record {
  allow = dedupe_rules (
      annotate global.network.egress.allow source_global
      ++ (annotate project.network.egress.allow source_explicit
          ++ (generated ++ annotate overlay.network.egress.allow source_once)));
  deny_always = dedupe_rules (
      annotate global.network.egress.deny_always source_global
      ++ (annotate project.network.egress.deny_always source_explicit
          ++ annotate overlay.network.egress.deny_always source_once));
}

unfoldable pub build_rule_set :
    Runner → Config → Config → Config → List ManifestInput → Built RuleSet
build_rule_set run global project overlay manifests =
    then_build (run_generators run manifests)
      (λ generated. done (compiled_rules global project overlay generated))
