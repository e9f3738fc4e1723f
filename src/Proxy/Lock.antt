-- ===== src/Proxy/Lock.antt =====
-- The contents of proxy.lock and the agents in it (internal/proxy/lifecycle.go). Process ids, ports
-- and start times are natural numbers, 0 where the source has none.
pub mod Agents
use agent_creance.Prelude.{
  ℕ, Bool, true, false, ◌&&◌, not, List, [], ◌∷◌, ◌++◌, Option, none, some, Bytes, if◌then◌else◌,
  ◌==◌, map,
}

pub record AgentRef : Type 0 where
  pub pid : ℕ
  pub start_time : ℕ

pub record LockState : Type 0 where
  pub proxy_pid : ℕ
  pub broker_pid : ℕ
  pub port : ℕ
  pub policy_hash : Bytes
  pub agents : List AgentRef
  pub canonical_path : Bytes

abbrev pub no_lock : LockState
no_lock = record {
  proxy_pid = 0;
  broker_pid = 0;
  port = 0;
  policy_hash = [];
  agents = [];
  canonical_path = [];
}

-- The lock file: empty, not in the lock's JSON form, or a marshalled state.
pub data Contents : Type 0 where
  blank corrupt : Contents
  holds : LockState → Contents

-- What `readLock` makes of the bytes.
abbrev pub parsed : Contents → LockState
parsed blank = no_lock
parsed corrupt = no_lock
parsed (holds s) = s

-- `pids`
abbrev pub pids : List AgentRef → List ℕ
pids refs = map (λ (r : AgentRef). r.pid) refs

unfoldable pub has_pid : ℕ → List AgentRef → Bool
has_pid pid [] = false
has_pid pid (r ∷ refs) = if r.pid == pid then true else has_pid pid refs

unfoldable pub add_ref : List AgentRef → AgentRef → List AgentRef
unfolding has_pid
add_ref refs ref = if has_pid ref.pid refs then refs else refs ++ ref ∷ []

unfoldable pub remove_ref : List AgentRef → ℕ → List AgentRef
remove_ref [] pid = []
remove_ref (r ∷ refs) pid =
    if not (r.pid == pid) then r ∷ remove_ref refs pid else remove_ref refs pid

-- The test in the loop of `pruneDead`, for what the system says of liveness and start times.
unfoldable pub is_original : (ℕ → Bool) → (ℕ → Option ℕ) → AgentRef → Bool
is_original alive start_time r =
    alive r.pid && elim (start_time r.pid) [ none ↦ false | some st ↦ st == r.start_time ]

unfoldable pub prune_dead : (ℕ → Bool) → (ℕ → Option ℕ) → List AgentRef → List AgentRef
unfolding is_original
prune_dead alive start_time [] = []
prune_dead alive start_time (r ∷ refs) =
    if is_original alive start_time r
    then r ∷ prune_dead alive start_time refs
    else prune_dead alive start_time refs
