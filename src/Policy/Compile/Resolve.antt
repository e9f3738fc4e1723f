-- ===== src/Policy/Compile/Resolve.antt =====
-- From a project's directory to the inputs of a build (internal/policy/compile/compile.go,
-- `resolve`). The machine is the loader's file system with the paths of the state; the hash of the
-- inputs is a parameter.
pub mod Manifests
pub mod Whole
use agent_creance.Prelude.{
  Bool, true, false, List, [], ◌∷◌, ◌++◌, Option, none, some, Bytes, codes, any, ◌&&◌,
  if◌then◌else◌, bytes_eq,
}
use agent_creance.FilePath
use agent_creance.FilePath.{join_path}
use agent_creance.State.{Paths, Layout, session_overlay, layout_file, resolve_layout}
use agent_creance.Config.Model.{Config, Map, Generator}
use agent_creance.Config.Merge.Dedupe.{dedupe}
use agent_creance.Config.Merge.Equality.{of_generator}
use agent_creance.Config.Load.{
  LoadError, Loaded, loaded, refused, FileRead, missing, failing, holding, Files, empty_config,
  global_path, located_home, resolve_layer,
}
use agent_creance.Policy.Compile.{ResolvedGenerator, ManifestInput, Built, Runner}
use agent_creance.Policy.Compile.Gate.{Inputs, CompileResult, Disk, Faults, compile}

-- generator.Metadata, without the directories of installed dependencies
pub record Metadata : Type 0 where
  pub kind : Bytes
  pub manifest_file : Bytes

abbrev pub ecosystems : List Metadata
ecosystems =
    record { kind = codes "package_json"; manifest_file = codes "package.json" }
    ∷ record { kind = codes "composer_json"; manifest_file = codes "composer.json" }
    ∷ []

-- generator.Lookup
unfoldable pub lookup_in : Bytes → List Metadata → Option Metadata
lookup_in kind [] = none
lookup_in kind (m ∷ ms) = if bytes_eq m.kind kind then some m else lookup_in kind ms

pub data ResolveError : Type 0 where
  no_layout overlay_unreadable overlay_invalid : ResolveError
  layer_refused : LoadError → ResolveError
  unknown_generator : (kind : Bytes) → ResolveError
  manifest_unreadable : (path : Bytes) → ResolveError

pub data Prepared (A : Type 0) : Type 0 where
  prepared : A → Prepared A
  stopped : ResolveError → Prepared A

abbrev pub then_prepare : {A B : Type 0} → Prepared A → (A → Prepared B) → Prepared B
then_prepare (prepared a) f = f a
then_prepare (stopped e) f = stopped e

abbrev pub of_loaded : {A : Type 0} → Loaded A → Prepared A
of_loaded (loaded a) = prepared a
of_loaded (refused e) = stopped (layer_refused e)

-- `mergeGenerators`
abbrev pub merge_generators : List Generator → List Generator → List Generator
merge_generators global project = dedupe of_generator (global ++ project)

abbrev pub same_generator : ResolvedGenerator → ResolvedGenerator → Bool
same_generator a b = bytes_eq a.kind b.kind && bytes_eq a.path b.path

abbrev pub manifest_path : Metadata → Bytes → Bytes
manifest_path meta [] = meta.manifest_file
manifest_path meta (c ∷ path) = c ∷ path

abbrev pub resolved_generator : Generator → Metadata → ResolvedGenerator
resolved_generator g meta = record {
  kind = g.kind;
  path = FilePath.clean (manifest_path meta g.path);
}

abbrev pub looked_up : Bytes → Option Metadata → Prepared Metadata
looked_up kind none = stopped (unknown_generator kind)
looked_up kind (some meta) = prepared meta

abbrev pub keep_new : ResolvedGenerator → List ResolvedGenerator → List ResolvedGenerator
keep_new rg out = if any (same_generator rg) out then out else out ++ rg ∷ []

-- The loop of `resolveGenerators`, with what it has resolved
unfoldable pub resolve_generators_from :
    List ResolvedGenerator → List Generator → Prepared (List ResolvedGenerator)
resolve_generators_from out [] = prepared out
resolve_generators_from out (g ∷ gens) =
    then_prepare (looked_up g.kind (lookup_in g.kind ecosystems))
      (λ meta. resolve_generators_from (keep_new (resolved_generator g meta) out) gens)

abbrev pub resolve_generators : List Generator → Prepared (List ResolvedGenerator)
resolve_generators gens = resolve_generators_from [] gens

abbrev pub with_manifest :
    ResolvedGenerator → FileRead → Prepared (List ManifestInput) → Prepared (List ManifestInput)
with_manifest rg missing rest = rest
with_manifest rg failing rest = stopped (manifest_unreadable rg.path)
with_manifest rg (holding bytes) rest =
    then_prepare rest (λ ms. prepared (record { gen = rg; bytes = bytes } ∷ ms))

-- `readManifests`
unfoldable pub read_manifests :
    Files → Bytes → List ResolvedGenerator → Prepared (List ManifestInput)
read_manifests fs project_dir [] = prepared []
read_manifests fs project_dir (rg ∷ gens) =
    with_manifest rg (fs.read (join_path project_dir rg.path)) (read_manifests fs project_dir gens)

abbrev pub parsed_overlay : Option Config → Prepared Config
parsed_overlay none = stopped overlay_invalid
parsed_overlay (some cfg) = prepared cfg

-- `loadOverlay`
abbrev pub load_overlay : Files → FileRead → Prepared Config
load_overlay fs missing = prepared empty_config
load_overlay fs failing = stopped overlay_unreadable
load_overlay fs (holding bytes) = parsed_overlay (fs.parse bytes)

-- The manifests by "type:path", a later one in place of an earlier one
unfoldable pub manifest_map : List ManifestInput → Map Bytes → Map Bytes
manifest_map [] man = man
manifest_map (m ∷ ms) man =
    manifest_map ms
      (λ key. if bytes_eq (m.gen.kind ++ b':' ∷ m.gen.path) key then some m.bytes else man key)

pub record Machine : Type 0 where
  pub files : Files
  pub xdg_cache_home : Bytes
  pub hash_path : Bytes → Bytes
  pub hash_inputs : Config → Config → Config → Map Bytes → Bytes

abbrev pub paths_of : Machine → Paths
paths_of m = record {
  absolute = m.files.absolute;
  eval_symlinks = m.files.eval_symlinks;
  home = m.files.home;
  xdg_cache_home = m.xdg_cache_home;
  hash_path = m.hash_path;
}

abbrev pub located : Option Layout → Prepared Layout
located none = stopped no_layout
located (some l) = prepared l

-- `inputHash`
abbrev pub input_hash : Machine → Config → Config → Config → List ManifestInput → Bytes
input_hash m global project overlay manifests =
    m.hash_inputs global project overlay (manifest_map manifests (λ key. none))

-- `resolve`
unfoldable pub resolve_inputs : Machine → Bytes → Prepared Inputs
unfolding read_manifests resolve_generators_from
resolve_inputs m project_dir =
    then_prepare (located (resolve_layout (paths_of m) project_dir)) (λ l.
      then_prepare (of_loaded (located_home m.files.home)) (λ home.
        then_prepare (of_loaded (resolve_layer m.files true (global_path home))) (λ global.
          then_prepare
            (of_loaded
              (resolve_layer m.files false (join_path l.canonical (codes ".agent-creance.yaml"))))
            (λ project.
              then_prepare (load_overlay m.files (m.files.read (layout_file l session_overlay)))
                (λ overlay.
                  then_prepare
                    (resolve_generators (
                      merge_generators global.network.egress.generators
                        project.network.egress.generators))
                    (λ gens. then_prepare (read_manifests m.files l.canonical gens) (λ manifests.
                      prepared record {
                        global = global;
                        project = project;
                        overlay = overlay;
                        manifests = manifests;
                        hash = input_hash m global project overlay manifests;
                      })))))))

-- `Compile`, from the directory on
unfoldable pub compile_project :
    Machine → Runner → Faults → Bytes → Disk → Prepared (Disk × Built CompileResult)
unfolding resolve_inputs
compile_project m run faults project_dir disk =
    then_prepare (resolve_inputs m project_dir) (λ ins. prepared (compile run faults ins disk))
