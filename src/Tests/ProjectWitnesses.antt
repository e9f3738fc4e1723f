-- ===== src/Tests/ProjectWitnesses.antt =====
-- A project on the disk, from its files to its policy.
use agent_creance.Prelude.{
  some_inj, true, false, [], ◌∷◌, ◌++◌, none, some, Bytes, codes, bytes_eq, if◌then◌else◌, ◌≡◌,
  refl, subst, ◌↔◌, ◌⊎◌, inl, In,
}
use agent_creance.Strings.{has_prefix, trim_prefix, contains_byte, split, split_from, join}
use agent_creance.FilePath.{
  elements, clean_from, clean_step, clean, join_path, up_to_slash, dir, rel, rel_elements, is_abs,
}
use agent_creance.FilePath.Within.{IsName}
use agent_creance.State.{Layout, policy_json, proxy_lock, layout_file, cache_root, resolve_layout}
use agent_creance.State.Apart.{layout_file_iff}
use agent_creance.Config.Model
use agent_creance.Config.Model.{Config, Rule}
use agent_creance.Config.Merge.{merge, concat}
use agent_creance.Config.Merge.Dedupe.{dedupe, dedupe_from}
use agent_creance.Config.Merge.Equality.{list_eq, option_eq, bool_eq}
use agent_creance.Config.Load.{
  loaded, FileRead, missing, holding, empty_config, path_within, include_target,
  resolve_include_path, open_file, merge_includes, resolve, resolve_layer, global_path,
}
use agent_creance.Config.Load.Entries.{deny_entries, Reached}
use agent_creance.Config.Load.Entries.Layer.{resolve_layer-entries}
use agent_creance.Config.Validate.{validate_host, validate_methods}
use agent_creance.Policy.Rule.{Decision, Request, RuleSet, mode_intercept}
use agent_creance.Policy.Match.{decide, canonical_request}
use agent_creance.Policy.Match.Applies.{RuleApplies}
use agent_creance.Policy.FromConfig.{rule_from_config}
use agent_creance.Policy.Compile.{
  ManifestInput, done, annotate, generated_rules, run_generators, dedupe_rules_from, build_rule_set,
}
use agent_creance.Policy.Compile.Credentials.{check_injects, validate_inject_refs}
use agent_creance.Policy.Compile.Gate.{
  Compiled, Inputs, CompileResult, absent, artifact, Disk, compiled_of, write, build, usable,
  compile,
}
use agent_creance.Policy.Compile.Resolve.{
  lookup_in, prepared, resolve_generators_from, read_manifests, Machine, paths_of, resolve_inputs,
  compile_project,
}
use agent_creance.Policy.Compile.Resolve.Manifests.{ResolvesTo}
use agent_creance.Policy.Compile.Resolve.Whole.{
  project_config, resolve_inputs-manifests, compile_project-hard_deny,
}
use agent_creance.Tests.ValidateWitnesses.{rule_to, with_rules}
use agent_creance.Tests.CompileWitnesses.{runner}
use agent_creance.Tests.GateWitnesses.{no_faults, fresh}

abbrev denied : Model.Rule
denied = rule_to (codes "x.io") mode_intercept

-- The project's file lists a generator and includes the file with the deny.
abbrev own_file : Config
own_file = record empty_config {
  include = codes "b" ∷ [];
  network = record empty_config.network {
    egress = record empty_config.network.egress {
      generators = record { kind = codes "package_json"; path = [] } ∷ [];
    };
  };
}

abbrev included_file : Config
included_file = with_rules [] (denied ∷ [])

abbrev read_project : Bytes → FileRead
read_project path =
    if bytes_eq path (codes "/p/.agent-creance.yaml")
    then holding (codes "A")
    else if bytes_eq path (codes "/p/b")
    then holding (codes "B")
    else if bytes_eq path (codes "/p/package.json")
    then holding (codes "C")
    else missing

abbrev machine : Machine
machine = record {
  files = record {
    absolute = λ path. some path;
    read = read_project;
    eval_symlinks = λ path. some path;
    home = some (codes "/h");
    parse = λ bytes. if bytes_eq bytes (codes "A") then some own_file else some included_file;
    warnings = λ cfg. [];
  };
  xdg_cache_home = [];
  hash_path = λ path. codes "0a";
  hash_inputs = λ global project overlay man. codes "5e";
}

abbrev layout : Layout
layout = record {
  canonical = codes "/p";
  hash = codes "0a";
  root = codes "/h/.cache/agent-creance/projects/0a";
}

layout_run : resolve_layout (paths_of machine) (codes "/p") ≡ some layout
unfolding resolve_layout elements clean_from clean_step split split_from has_prefix join join_path
    clean bytes_eq
layout_run = refl

abbrev layer : Config
layer =
    record (merge (merge empty_config (merge empty_config included_file))
      (record own_file { include = [] })) { include = [] }

layer_run : resolve_layer machine.files false (codes "/p/.agent-creance.yaml") ≡ loaded layer
unfolding resolve_layer resolve merge_includes open_file resolve_include_path path_within
    include_target rel rel_elements elements clean_from clean_step split split_from has_prefix join
    join_path clean dir up_to_slash bytes_eq dedupe dedupe_from concat
layer_run = refl

included-Reached :
    Reached deny_entries machine.files (codes "/h") (codes "/p/.agent-creance.yaml") denied
unfolding open_file resolve_include_path path_within include_target rel rel_elements elements
    clean_from clean_step split split_from has_prefix join join_path clean dir up_to_slash bytes_eq
included-Reached = (
  1,
  codes "/p/b",
  (
    codes "/p/b",
    record {
      abs = codes "/p/.agent-creance.yaml";
      canon = codes "/p/.agent-creance.yaml";
      bytes = codes "A";
      cfg = own_file;
      entry = codes "b";
      found = refl;
      parsed = refl;
      listed = inl refl;
      target = refl;
    },
    refl,
  ),
  record {
    abs = codes "/p/b";
    canon = codes "/p/b";
    bytes = codes "B";
    cfg = included_file;
    found = refl;
    parsed = refl;
    has = inl refl;
  },
)

resolve_layer-entries_example :
    In denied layer.network.egress.deny_always
    ↔ Reached deny_entries machine.files (codes "/h") (codes "/p/.agent-creance.yaml") denied
resolve_layer-entries_example =
    resolve_layer-entries deny_entries machine.files (codes "/h") false
      (codes "/p/.agent-creance.yaml") layer denied refl layer_run

abbrev mi : ManifestInput
mi = record {
  gen = record { kind = codes "package_json"; path = codes "package.json" };
  bytes = codes "C";
}

abbrev inputs : Inputs
inputs = record {
  global = empty_config;
  project = layer;
  overlay = empty_config;
  manifests = mi ∷ [];
  hash = codes "5e";
}

inputs_run : resolve_inputs machine (codes "/p") ≡ prepared inputs
unfolding resolve_inputs resolve_layout read_manifests resolve_generators_from lookup_in
    resolve_layer resolve merge_includes open_file resolve_include_path path_within include_target
    rel rel_elements elements clean_from clean_step split split_from has_prefix join join_path clean
    dir up_to_slash bytes_eq dedupe dedupe_from concat
inputs_run = refl

resolve_inputs-manifests_example :
    (l : Layout) × (resolve_layout (paths_of machine) (codes "/p") ≡ some l)
    × (In mi inputs.manifests ↔ (
        ResolvesTo
          (inputs.global.network.egress.generators ++ inputs.project.network.egress.generators)
          mi.gen
        × (machine.files.read (join_path l.canonical mi.gen.path) ≡ holding mi.bytes)))
resolve_inputs-manifests_example =
    resolve_inputs-manifests machine (codes "/p") inputs mi inputs_run

abbrev rules : RuleSet
rules = record {
  allow =
      record (rule_from_config (record denied { methods = some (codes "GET" ∷ []) })) {
        source = codes "generated:npm:x";
        lower_trust = true;
      }
      ∷ [];
  deny_always = record (rule_from_config denied) { source = codes "explicit" } ∷ [];
}

abbrev compiled_disk : Disk
compiled_disk = record { policy_json = artifact (compiled_of inputs rules); temporary = absent }

abbrev result : CompileResult
result = record { input_hash = codes "5e"; skipped = false; allow_count = 1; deny_count = 1 }

build_run : compile runner no_faults inputs fresh ≡ (compiled_disk, done result)
unfolding compile build usable write validate_inject_refs check_injects build_rule_set
    run_generators generated_rules annotate dedupe_rules_from validate_host validate_methods
    has_prefix trim_prefix contains_byte split bytes_eq list_eq option_eq bool_eq dedupe dedupe_from
    concat
build_run = refl

project_run :
    compile_project machine runner no_faults (codes "/p") fresh
    ≡ prepared (compiled_disk, done result)
unfolding compile_project
project_run = rw (inputs_run, build_run) refl

compile_project-hard_deny_example :
    (c : Compiled) × (l : Layout) × (home : Bytes) × (compiled_disk.policy_json ≡ artifact c)
    × (resolve_layout (paths_of machine) (codes "/p") ≡ some l)
    × (machine.files.home ≡ some home)
    × ((d : Model.Rule) (req : Request)
        → Reached deny_entries machine.files home (project_config l) d
          ⊎ Reached deny_entries machine.files home (global_path home) d
        → d.paths ≡ none
        → RuleApplies (rule_from_config d) (canonical_request req)
        → (decide c.rules req).decision ≡ Decision.hard_deny)
compile_project-hard_deny_example =
    compile_project-hard_deny machine runner no_faults (codes "/p") fresh compiled_disk result
      project_run refl

hash-IsName : (path : Bytes) → IsName (machine.hash_path path)
unfolding contains_byte
hash-IsName path = record { filled = λ h. cc; not_up = λ h. cc; not_dot = λ h. cc; whole = refl }

cache-IsAbs : (cache : Bytes) → cache_root (paths_of machine) ≡ some cache → is_abs cache ≡ true
unfolding elements clean_from clean_step split split_from has_prefix join join_path clean bytes_eq
cache-IsAbs cache h = subst (λ (c : Bytes). is_abs c ≡ true) (some_inj h) refl

layout_file_iff_example :
    (layout_file layout policy_json ≡ layout_file layout proxy_lock)
    ↔ ((policy_json ≡ proxy_lock) × (layout.hash ≡ layout.hash))
layout_file_iff_example =
    layout_file_iff (paths_of machine) (codes "/p") (codes "/p") layout layout policy_json
      proxy_lock cache-IsAbs hash-IsName layout_run layout_run
