-- ===== src/Config/Load.antt =====
-- The loader of configurations (internal/config/load.go): a file with the files it includes,
-- merged. The file system, the resolution of paths and the parser are a record of functions.
pub mod Includes
pub mod Depth
pub mod Scope
pub mod Watch
pub mod Entries
use agent_creance.Prelude.{
  ℕ, zero, suc, Bool, true, false, not, ◌&&◌, ◌||◌, List, [], ◌∷◌, ◌++◌, Option, none, some, Bytes,
  codes, any, all, drop, if◌then◌else◌, bytes_eq,
}
use agent_creance.Strings.{has_prefix}
use agent_creance.FilePath.{is_abs, join_path, dir, rel}
use agent_creance.FilePath.Within.{stays_within}
use agent_creance.Config.Model.{Config, Rule}
use agent_creance.Config.Merge.{merge}

-- The number of levels of files: a file includes at depth 0 to `maxIncludeDepth`.
abbrev pub levels : ℕ
levels = 11

pub data LoadError : Type 0 where
  max_include_depth bad_path not_found unreadable include_cycle invalid include_out_of_scope no_home
        ineffective :
      LoadError

pub data Loaded (A : Type 0) : Type 0 where
  loaded : A → Loaded A
  refused : LoadError → Loaded A

abbrev pub then_load : {A B : Type 0} → Loaded A → (A → Loaded B) → Loaded B
then_load (loaded a) f = f a
then_load (refused e) f = refused e

-- What `ReadFile` says of a path
pub data FileRead : Type 0 where
  missing failing : FileRead
  holding : Bytes → FileRead

pub record Files : Type 0 where
  pub absolute : Bytes → Option Bytes
  pub read : Bytes → FileRead
  pub eval_symlinks : Bytes → Option Bytes
  pub home : Option Bytes
  pub parse : Bytes → Option Config
  pub warnings : Config → List Bytes

abbrev pub empty_config : Config
empty_config = record {
  agent = record { command = []; workdir = [] };
  safehouse = record { add_dirs_rw = []; add_dirs_ro = []; enable = [] };
  include = [];
  network = record {
    host_services = [];
    egress = record { generators = []; allow = []; deny_always = [] };
  };
  env = λ k. none;
  credentials = λ k. none;
  warnings = [];
}

unfoldable pub path_within : Bytes → Bytes → Bool
unfolding rel
path_within base target = stays_within (rel base target)

-- The switch on the form of an include
unfoldable pub include_target : Bytes → Bytes → Bytes → Bytes
include_target declaring home inc =
    if has_prefix inc (codes "~/")
    then join_path home (drop 2 inc)
    else if is_abs inc
    then inc
    else join_path (dir declaring) inc

unfoldable pub resolve_include_path : Bytes → Bytes → Bytes → Loaded Bytes
unfolding path_within include_target
resolve_include_path declaring home inc =
    if path_within (dir declaring) (include_target declaring home inc)
      || path_within (join_path home (codes ".config")) (include_target declaring home inc)
    then loaded (include_target declaring home inc)
    else refused include_out_of_scope

-- A path made absolute, read, and made canonical
pub data Opened : Type 0 where
  no_path absent broken : Opened
  opened : (abs canon bytes : Bytes) → Opened

abbrev pub canonical : Bytes → Option Bytes → Bytes
canonical abs none = abs
canonical abs (some canon) = canon

abbrev pub read_at : Files → Bytes → FileRead → Opened
read_at fs abs missing = absent
read_at fs abs failing = broken
read_at fs abs (holding bytes) = opened abs (canonical abs (fs.eval_symlinks abs)) bytes

abbrev pub open_at : Files → Option Bytes → Opened
open_at fs none = no_path
open_at fs (some abs) = read_at fs abs (fs.read abs)

unfoldable pub open_file : Files → Bytes → Opened
open_file fs path = open_at fs (fs.absolute path)

abbrev pub on_stack : List Bytes → Bytes → Bool
on_stack stack canon = any (λ s. bytes_eq s canon) stack

-- The loop over the includes of a file, by what resolves one of them
unfoldable pub merge_includes :
    (Bytes → Loaded Config) → (Bytes → Loaded Bytes) → List Bytes → Config → Loaded Config
merge_includes each target [] acc = loaded acc
merge_includes each target (inc ∷ incs) acc =
    then_load (target inc)
      (λ path. then_load (each path) (λ c. merge_includes each target incs (merge acc c)))

abbrev pub resolve_parsed :
    Files
    → Bytes
    → (List Bytes → Bytes → Loaded Config)
    → List Bytes
    → Bytes
    → Bytes
    → Option Config
    → Loaded Config
resolve_parsed fs home each stack abs canon none = refused invalid
resolve_parsed fs home each stack abs canon (some cfg) =
    then_load
      (merge_includes (each (stack ++ canon ∷ [])) (resolve_include_path abs home) cfg.include
        empty_config)
      (λ acc. loaded (merge acc (record cfg { include = [] })))

abbrev pub resolve_opened :
    Files
    → Bytes
    → (List Bytes → Bytes → Loaded Config)
    → Bool
    → List Bytes
    → Opened
    → Loaded Config
resolve_opened fs home each optional stack no_path = refused bad_path
resolve_opened fs home each optional stack absent =
    if optional then loaded empty_config else refused not_found
resolve_opened fs home each optional stack broken = refused unreadable
resolve_opened fs home each optional stack (opened abs canon bytes) =
    if on_stack stack canon
    then refused include_cycle
    else resolve_parsed fs home each stack abs canon (fs.parse bytes)

-- `resolve`, by the levels that are left below this file
unfoldable pub resolve : Files → Bytes → ℕ → Bool → List Bytes → Bytes → Loaded Config
unfolding merge_includes open_file
resolve fs home zero optional stack path = refused max_include_depth
resolve fs home (suc left) optional stack path =
    resolve_opened fs home (resolve fs home left false) optional stack (open_file fs path)

abbrev pub located_home : Option Bytes → Loaded Bytes
located_home none = refused no_home
located_home (some home) = loaded home

abbrev pub global_path : Bytes → Bytes
global_path home = join_path (join_path home (codes ".config")) (codes "agent-creance.yaml")

abbrev pub is_defined : {A : Type 0} → Option A → Bool
is_defined none = false
is_defined (some a) = true

-- The test of `checkList` on a rule
abbrev pub injects_defined : Config → Rule → Bool
injects_defined cfg r = bytes_eq r.inject [] || is_defined (cfg.credentials r.inject)

-- `ValidateEffective`, the warnings being an argument
unfoldable pub validate_effective : Config → Bool
validate_effective cfg =
    all (injects_defined cfg) cfg.network.egress.allow
    && all (injects_defined cfg) cfg.network.egress.deny_always

abbrev pub effective : Files → Config → Loaded Config
effective fs cfg =
    if validate_effective cfg
    then loaded (record cfg { include = []; warnings = fs.warnings cfg })
    else refused ineffective

-- `Load`
unfoldable pub load : Files → Bytes → Loaded Config
unfolding resolve validate_effective
load fs project_path = then_load (located_home fs.home) (λ home.
    then_load (resolve fs home levels true [] (global_path home)) (λ global.
      then_load (resolve fs home levels false [] project_path)
        (λ project. effective fs (merge (merge empty_config global) project))))

-- `ResolveLayer`
unfoldable pub resolve_layer : Files → Bool → Bytes → Loaded Config
unfolding resolve
resolve_layer fs optional path = then_load (located_home fs.home) (λ home.
    then_load (resolve fs home levels optional [] path)
      (λ cfg. loaded (record cfg { include = [] })))

-- `ValidateInclude`
abbrev pub include_read : Files → FileRead → Loaded (Unit {0})
include_read fs missing = refused not_found
include_read fs failing = refused unreadable
include_read fs (holding bytes) = if is_defined (fs.parse bytes) then loaded tt else refused invalid

abbrev pub declared_at : Option Bytes → Loaded Bytes
declared_at none = refused bad_path
declared_at (some abs) = loaded abs

unfoldable pub validate_include : Files → Bytes → Bytes → Loaded (Unit {0})
unfolding resolve_include_path
validate_include fs declaring inc = then_load (located_home fs.home) (λ home.
    then_load (declared_at (fs.absolute declaring)) (λ abs.
      then_load (resolve_include_path abs home inc) (λ path. include_read fs (fs.read path))))
