-- ===== src/Policy/Compile/Gate.antt =====
-- Compile and Refresh after the inputs are resolved (internal/policy/compile/compile.go): the cache
-- gate, the build, and the atomic write of policy.json. The input hash is a value of the inputs;
-- which file operations fail is a parameter.
use agent_creance.Prelude.{
  ℕ, Bool, true, false, ◌&&◌, List, [], ◌∷◌, Option, none, some, Bytes, length, if◌then◌else◌, ◌==◌,
  bytes_eq, ◌++◌, codes,
}
use agent_creance.Policy.Rule.{RuleSet}
use agent_creance.Config.Model.{Config, Map}
use agent_creance.Policy.Compile.{
  ManifestInput, CompileError, undefined_credential, create_dir, write_policy, finalize_policy,
  Built, done, failed, then_build, Runner, build_rule_set, ResolvedGenerator, is_root,
  invalidate_failed,
}
use agent_creance.Policy.Compile.Credentials.{
  CompiledCredential, credentials_from_config, merge_credentials, validate_inject_refs,
}

abbrev pub compiled_version : ℕ
compiled_version = 1

pub record Compiled : Type 0 where
  pub version : ℕ
  pub input_hash : Bytes
  pub credentials : Map CompiledCredential
  pub rules : RuleSet

pub record Inputs : Type 0 where
  pub global : Config
  pub project : Config
  pub overlay : Config
  pub manifests : List ManifestInput
  pub hash : Bytes

pub record CompileResult : Type 0 where
  pub input_hash : Bytes
  pub skipped : Bool
  pub allow_count : ℕ
  pub deny_count : ℕ

-- What is at a path of the state directory: nothing, bytes that do not parse, or an artifact.
pub data Artifact : Type 0 where
  absent garbled : Artifact
  artifact : Compiled → Artifact

pub record Disk : Type 0 where
  pub policy_json : Artifact
  pub temporary : Artifact

-- The operations of the file system that fail; a failed write leaves part of the bytes.
pub record Faults : Type 0 where
  pub mkdir : Bool
  pub write : Bool
  pub rename : Bool
  pub remove : Bool

abbrev pub read_compiled : Artifact → Option Compiled
read_compiled absent = none
read_compiled garbled = none
read_compiled (artifact c) = some c

unfoldable pub write : Faults → Disk → Compiled → Disk × Option CompileError
write faults disk c =
    if faults.mkdir
    then (disk, some create_dir)
    else if faults.write
    then (record disk { temporary = garbled }, some write_policy)
    else if faults.rename
    then (
      record disk { temporary = if faults.remove then artifact c else absent },
      some finalize_policy,
    )
    else (record { policy_json = artifact c; temporary = absent }, none)

abbrev pub result_of : Bool → Compiled → CompileResult
result_of skipped c = record {
  input_hash = c.input_hash;
  skipped = skipped;
  allow_count = length c.rules.allow;
  deny_count = length c.rules.deny_always;
}

abbrev pub input_credentials : Inputs → Map CompiledCredential
input_credentials ins =
    credentials_from_config
      (merge_credentials ins.global.credentials ins.project.credentials ins.overlay.credentials)

abbrev pub compiled_of : Inputs → RuleSet → Compiled
compiled_of ins rs = record {
  version = compiled_version;
  input_hash = ins.hash;
  credentials = input_credentials ins;
  rules = rs;
}

abbrev pub after_write : Compiled → Disk × Option CompileError → Disk × Built CompileResult
after_write c (disk, none) = (disk, done (result_of false c))
after_write c (disk, some e) = (disk, failed e)

abbrev pub after_check :
    Faults → Inputs → Disk → RuleSet → Option Bytes → Disk × Built CompileResult
after_check faults ins disk rs (some name) = (disk, failed (undefined_credential name))
after_check faults ins disk rs none =
    after_write (compiled_of ins rs) (write faults disk (compiled_of ins rs))

abbrev pub after_rules : Faults → Inputs → Disk → Built RuleSet → Disk × Built CompileResult
after_rules faults ins disk (failed e) = (disk, failed e)
after_rules faults ins disk (done rs) =
    after_check faults ins disk rs (validate_inject_refs rs (input_credentials ins))

unfoldable pub build : Runner → Faults → Inputs → Disk → Disk × Built CompileResult
unfolding build_rule_set
build run faults ins disk =
    after_rules faults ins disk
      (build_rule_set run ins.global ins.project ins.overlay ins.manifests)

-- The cache gate: the artifact that is there, if it is one of these inputs.
unfoldable pub usable : Inputs → Option Compiled → Option Compiled
usable ins none = none
usable ins (some c) =
    if (c.version == compiled_version) && bytes_eq c.input_hash ins.hash then some c else none

abbrev pub past_gate :
    Runner → Faults → Inputs → Disk → Option Compiled → Disk × Built CompileResult
past_gate run faults ins disk (some c) =
    (disk, done record (result_of true c) { input_hash = ins.hash })
past_gate run faults ins disk none = build run faults ins disk

unfoldable pub compile : Runner → Faults → Inputs → Disk → Disk × Built CompileResult
unfolding build usable
compile run faults ins disk =
    past_gate run faults ins disk (usable ins (read_compiled disk.policy_json))

-- generator.InvalidationStats
pub record InvalidationStats : Type 0 where
  pub packages : ℕ
  pub cache_entries_cleared : ℕ
  pub output_cache_cleared : Bool

pub record GeneratorRefresh : Type 0 where
  pub name : Bytes
  pub stats : InvalidationStats

pub record RefreshResult : Type 0 where
  pub generators : List GeneratorRefresh
  pub allow_count : ℕ
  pub deny_count : ℕ

abbrev pub refresh_name : ResolvedGenerator → Bytes
refresh_name rg =
    if is_root rg.path then rg.kind else rg.kind ++ (codes " (" ++ (rg.path ++ codes ")"))

-- Dropping what a generator has cached for a manifest, `none` where that fails
abbrev pub Invalidate : Type 0
Invalidate = Bytes → Bytes → Option InvalidationStats

abbrev pub invalidated :
    ManifestInput
    → Option InvalidationStats
    → Built (List GeneratorRefresh)
    → Built (List GeneratorRefresh)
invalidated m none rest = failed (invalidate_failed m.gen.kind)
invalidated m (some stats) rest =
    then_build rest (λ rs. done (record { name = refresh_name m.gen; stats = stats } ∷ rs))

unfoldable pub invalidate_all : Invalidate → List ManifestInput → Built (List GeneratorRefresh)
invalidate_all inv [] = done []
invalidate_all inv (m ∷ ms) = invalidated m (inv m.gen.kind m.bytes) (invalidate_all inv ms)

abbrev pub refresh_result :
    List GeneratorRefresh → Disk × Built CompileResult → Disk × Built RefreshResult
refresh_result gens (disk, done r) = (
  disk,
  done record { generators = gens; allow_count = r.allow_count; deny_count = r.deny_count },
)
refresh_result gens (disk, failed e) = (disk, failed e)

abbrev pub after_invalidation :
    Runner → Faults → Inputs → Disk → Built (List GeneratorRefresh) → Disk × Built RefreshResult
after_invalidation run faults ins disk (failed e) = (disk, failed e)
after_invalidation run faults ins disk (done gens) = refresh_result gens (build run faults ins disk)

-- `Refresh`: the gate is not consulted.
unfoldable pub refresh : Invalidate → Runner → Faults → Inputs → Disk → Disk × Built RefreshResult
unfolding build invalidate_all
refresh inv run faults ins disk =
    after_invalidation run faults ins disk (invalidate_all inv ins.manifests)
