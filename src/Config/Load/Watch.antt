-- ===== src/Config/Load/Watch.antt =====
-- `ResolveFiles` (internal/config/load.go): the canonical paths of the files that contribute to a
-- configuration. `seen` and `out` of the source hold the same paths and are one list.
pub mod Complete
pub mod Exists
use agent_creance.Prelude.{
  ℕ, zero, suc, Bool, true, false, List, [], ◌∷◌, ◌++◌, Option, none, some, Bytes, if◌then◌else◌,
}
use agent_creance.Config.Model.{Config}
use agent_creance.Config.Load.{
  levels, LoadError, max_include_depth, bad_path, not_found, unreadable, include_cycle, invalid,
  Loaded, loaded, refused, then_load, Files, resolve_include_path, Opened, no_path, absent, broken,
  opened, open_file, on_stack, located_home, global_path,
}

-- The loop over the includes of a file, by what collects one of them
unfoldable pub collect_includes :
    (Bytes → List Bytes → Loaded (List Bytes))
    → (Bytes → Loaded Bytes)
    → List Bytes
    → List Bytes
    → Loaded (List Bytes)
collect_includes each target [] out = loaded out
collect_includes each target (inc ∷ incs) out =
    then_load (target inc)
      (λ path. then_load (each path out) (λ out'. collect_includes each target incs out'))

abbrev pub collect_parsed :
    Bytes
    → (List Bytes → Bytes → List Bytes → Loaded (List Bytes))
    → List Bytes
    → Bytes
    → Bytes
    → List Bytes
    → Option Config
    → Loaded (List Bytes)
collect_parsed home each stack abs canon out none = refused invalid
collect_parsed home each stack abs canon out (some cfg) =
    collect_includes (each (stack ++ canon ∷ [])) (resolve_include_path abs home) cfg.include
      (out ++ canon ∷ [])

abbrev pub collect_opened :
    Files
    → Bytes
    → (List Bytes → Bytes → List Bytes → Loaded (List Bytes))
    → Bool
    → List Bytes
    → List Bytes
    → Opened
    → Loaded (List Bytes)
collect_opened fs home each optional stack out no_path = refused bad_path
collect_opened fs home each optional stack out absent =
    if optional then loaded out else refused not_found
collect_opened fs home each optional stack out broken = refused unreadable
collect_opened fs home each optional stack out (opened abs canon bytes) =
    if on_stack stack canon
    then refused include_cycle
    else if on_stack out canon
    then loaded out
    else collect_parsed home each stack abs canon out (fs.parse bytes)

-- `collectFiles`, by the levels that are left below this file
unfoldable pub collect_files :
    Files → Bytes → ℕ → Bool → List Bytes → Bytes → List Bytes → Loaded (List Bytes)
unfolding collect_includes open_file
collect_files fs home zero optional stack path out = refused max_include_depth
collect_files fs home (suc left) optional stack path out =
    collect_opened fs home (collect_files fs home left false) optional stack out (open_file fs path)

-- `ResolveFiles`
unfoldable pub resolve_files : Files → Bytes → Loaded (List Bytes)
unfolding collect_files
resolve_files fs project_path = then_load (located_home fs.home) (λ home.
    then_load (collect_files fs home levels true [] (global_path home) [])
      (λ out. collect_files fs home levels false [] project_path out))
