-- ===== src/State.antt =====
-- The identity of a project and where its state is kept (internal/state/state.go). How the system
-- resolves a path and the hash of a path are a record of functions; an operation that fails is
-- none.
pub mod Apart
use agent_creance.Prelude.{◌++◌, Option, none, some, Bytes, codes, List, [], ◌∷◌}
use agent_creance.FilePath.{join_path}

pub record Paths : Type 0 where
  pub absolute : Bytes → Option Bytes
  pub eval_symlinks : Bytes → Option Bytes
  pub home : Option Bytes
  pub xdg_cache_home : Bytes
  pub hash_path : Bytes → Bytes

pub record Layout : Type 0 where
  pub canonical : Bytes
  pub hash : Bytes
  pub root : Bytes

-- The files of a project's state directory
pub data LayoutFile : Type 0 where
  policy_json network_sb proxy_profile_sb ca_profile_sb keychain_profile_sb claude_profile_sb
        config_profile_sb broker_profile_sb proxy_lock broker_sock egress_jsonl egress_jsonl_rotated
        session_overlay :
      LayoutFile

abbrev pub file_name : LayoutFile → Bytes
file_name policy_json = codes "policy.json"
file_name network_sb = codes "network.sb"
file_name proxy_profile_sb = codes "proxy.sb"
file_name ca_profile_sb = codes "ca.sb"
file_name keychain_profile_sb = codes "keychain.sb"
file_name claude_profile_sb = codes "claude.sb"
file_name config_profile_sb = codes "config-ro.sb"
file_name broker_profile_sb = codes "broker.sb"
file_name proxy_lock = codes "proxy.lock"
file_name broker_sock = codes "broker.sock"
file_name egress_jsonl = codes "egress.jsonl"
file_name egress_jsonl_rotated = codes "egress.jsonl.1"
file_name session_overlay = codes "session-overlay.yaml"

abbrev pub layout_file : Layout → LayoutFile → Bytes
layout_file l f = join_path l.root (file_name f)

abbrev pub home_cache : Option Bytes → Option Bytes
home_cache none = none
home_cache (some home) = some (join_path home (codes ".cache"))

-- `cacheRoot`, by the value of XDG_CACHE_HOME
abbrev pub cache_root_from : Option Bytes → Bytes → Option Bytes
cache_root_from home [] = home_cache home
cache_root_from home (c ∷ xdg) = some (c ∷ xdg)

abbrev pub cache_root : Paths → Option Bytes
cache_root ps = cache_root_from ps.home ps.xdg_cache_home

abbrev pub then_some : {A B : Type 0} → Option A → (A → Option B) → Option B
then_some none f = none
then_some (some a) f = f a

-- `CacheDir`
abbrev pub cache_dir : Paths → Option Bytes
cache_dir ps = then_some (cache_root ps) (λ cache. some (join_path cache (codes "agent-creance")))

-- A directory of all projects
abbrev pub subdir : Paths → Bytes → Option Bytes
subdir ps name = then_some (cache_dir ps) (λ base. some (join_path base name))

abbrev pub projects_root : Paths → Option Bytes
projects_root ps = subdir ps (codes "projects")

abbrev pub registries_root : Paths → Option Bytes
registries_root ps = subdir ps (codes "registries")

abbrev pub generators_root : Paths → Option Bytes
generators_root ps = subdir ps (codes "generators")

abbrev pub enforcer_root : Paths → Option Bytes
enforcer_root ps = subdir ps (codes "enforcer")

abbrev pub config_locks_root : Paths → Option Bytes
config_locks_root ps = subdir ps (codes "config-locks")

abbrev pub project_root : Paths → Bytes → Option Bytes
project_root ps hash = then_some (projects_root ps) (λ projects. some (join_path projects hash))

abbrev pub layout_at : Paths → Bytes → Option Layout
layout_at ps canonical =
    then_some (project_root ps (ps.hash_path canonical))
      (λ root. some (record { canonical = canonical; hash = ps.hash_path canonical; root = root }))

abbrev pub canonical_path : Paths → Bytes → Option Bytes
canonical_path ps path = then_some (ps.absolute path) ps.eval_symlinks

-- `Resolve`
unfoldable pub resolve_layout : Paths → Bytes → Option Layout
resolve_layout ps path = then_some (canonical_path ps path) (layout_at ps)

-- `ConfigLock`
unfoldable pub config_lock : Paths → Bytes → Option Bytes
config_lock ps target = then_some (ps.absolute target) (λ abs.
    then_some (config_locks_root ps)
      (λ root. some (join_path root (ps.hash_path abs ++ codes ".lock"))))
