-- ===== src/Tests/GateWitnesses.antt =====
-- The compiler's runs over one project, from a state directory with no policy.json.
use agent_creance.Prelude.{false, true, [], ◌∷◌, none, some, codes, bytes_eq, ◌≡◌, refl}
use agent_creance.Strings.{has_prefix, trim_prefix, contains_byte, split}
use agent_creance.Config.Merge.Equality.{list_eq, option_eq, bool_eq}
use agent_creance.Config.Validate.{validate_host, validate_methods}
use agent_creance.Policy.Compile.{
  done, annotate, generated_rules, run_generators, dedupe_rules_from, build_rule_set,
}
use agent_creance.Policy.Compile.Credentials.{check_injects, validate_inject_refs}
use agent_creance.Policy.Compile.Gate.{
  Inputs, CompileResult, absent, artifact, Disk, Faults, compiled_of, write, build, usable, compile,
  Invalidate, RefreshResult, invalidate_all, refresh,
}
use agent_creance.Policy.Compile.Rerun.{compile_again}
use agent_creance.Policy.Compile.History.{compiling, refreshing, steps, IsGenuine, steps-IsGenuine}
use agent_creance.Tests.CompileWitnesses.{runner, manifest, global, project, overlay, compiled}

abbrev inputs : Inputs
inputs = record {
  global = global;
  project = project;
  overlay = overlay;
  manifests = manifest ∷ [];
  hash = codes "5e";
}

abbrev pub no_faults : Faults
no_faults = record { mkdir = false; write = false; rename = false; remove = false }

abbrev full_disk : Faults
full_disk = record { mkdir = false; write = true; rename = false; remove = false }

abbrev pub fresh : Disk
fresh = record { policy_json = absent; temporary = absent }

abbrev compiled_disk : Disk
compiled_disk = record { policy_json = artifact (compiled_of inputs compiled); temporary = absent }

abbrev first_result : CompileResult
first_result = record { input_hash = codes "5e"; skipped = false; allow_count = 2; deny_count = 1 }

first_run : compile runner no_faults inputs fresh ≡ (compiled_disk, done first_result)
unfolding compile build usable write validate_inject_refs check_injects build_rule_set
    run_generators generated_rules annotate dedupe_rules_from validate_host validate_methods
    has_prefix trim_prefix contains_byte split bytes_eq list_eq option_eq bool_eq
first_run = refl

compile_again_example :
    compile (λ kind bytes. none) full_disk inputs compiled_disk
    ≡ (compiled_disk, done record first_result { skipped = true })
compile_again_example =
    compile_again runner (λ kind bytes. none) no_faults full_disk inputs fresh compiled_disk
      first_result first_run

abbrev invalidate : Invalidate
invalidate kind bytes =
    some record { packages = 1; cache_entries_cleared = 1; output_cache_cleared = true }

abbrev refreshed : RefreshResult
refreshed = record {
  generators =
      record {
        name = codes "npm (a/p.json)";
        stats = record { packages = 1; cache_entries_cleared = 1; output_cache_cleared = true };
      }
      ∷ [];
  allow_count = 2;
  deny_count = 1;
}

refresh_run : refresh invalidate runner no_faults inputs fresh ≡ (compiled_disk, done refreshed)
unfolding refresh invalidate_all build write validate_inject_refs check_injects build_rule_set
    run_generators generated_rules annotate dedupe_rules_from validate_host validate_methods
    has_prefix trim_prefix contains_byte split bytes_eq list_eq option_eq bool_eq
refresh_run = refl

steps-IsGenuine_example :
    IsGenuine
      (steps
        (compiling runner full_disk inputs
          ∷ compiling runner no_faults inputs
          ∷ refreshing invalidate runner full_disk inputs
          ∷ [])
        fresh).policy_json
steps-IsGenuine_example =
    steps-IsGenuine
      (compiling runner full_disk inputs
        ∷ compiling runner no_faults inputs
        ∷ refreshing invalidate runner full_disk inputs
        ∷ [])
      fresh tt
