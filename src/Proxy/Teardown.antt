-- ===== src/Proxy/Teardown.antt =====
-- `Detach`, `Inspect`, `CleanOrphan` and `Clean` (internal/proxy/lifecycle.go).
pub mod Signals
pub mod Clearing
pub mod Orphans
pub mod Cleaning
pub mod Detaching
use agent_creance.Prelude.{
  ℕ, Bool, true, false, ◌&&◌, ◌||◌, not, List, [], ◌∷◌, Bytes, if◌then◌else◌, ◌==◌,
}
use agent_creance.Proxy.Lock.{AgentRef, LockState, no_lock, pids, remove_ref, prune_dead}
use agent_creance.Proxy.Program.{
  create_state_dir, acquire_lock, stop_mitmproxy, purge_overlay, terminated, purged_overlay, System,
  M, ◌>>=◌, ◌>>◌, pure, fail, emit, require, when, read_lock_file, write_lock_file,
}
use agent_creance.Proxy.Broker.{stop_broker}
use agent_creance.Proxy.Attach.{proxy_up}

-- A SIGTERM whose error is returned.
unfoldable pub signal : System → ℕ → M (Unit {0})
signal sys pid = if sys.signal_ok pid then emit (terminated pid) else fail stop_mitmproxy

abbrev pub recorded_alive : System → LockState → Bool
recorded_alive sys s = not (s.proxy_pid == 0) && sys.alive s.proxy_pid

-- The broker goes, the session overlay is purged, and the lock is cleared to `next`.
unfoldable pub clear_project : System → LockState → LockState → M (Unit {0})
clear_project sys cur next = do
  stop_broker cur.broker_pid
  require sys.purge_ok purge_overlay
  emit purged_overlay
  write_lock_file sys next

-- The state the lock is cleared to: only the policy hash stays.
abbrev pub cleared : LockState → LockState
cleared cur = record no_lock { policy_hash = cur.policy_hash }

-- The last agent is out.
unfoldable pub last_out : System → LockState → M (Unit {0})
unfolding signal clear_project
last_out sys cur = do
  when (recorded_alive sys cur) (signal sys cur.proxy_pid)
  clear_project sys cur (cleared cur)

unfoldable pub detach_to : System → LockState → List AgentRef → M (Unit {0})
detach_to sys cur [] = last_out sys cur
detach_to sys cur (r ∷ refs) = write_lock_file sys (record cur { agents = r ∷ refs })

unfoldable pub detach : System → ℕ → M (Unit {0})
unfolding last_out detach_to
detach sys self_pid = do
  require sys.acquire_ok acquire_lock
  cur ← read_lock_file sys
  detach_to sys cur (remove_ref cur.agents self_pid)

pub record Diagnosis : Type 0 where
  pub lock_present : Bool
  pub proxy_pid : ℕ
  pub port : ℕ
  pub broker_pid : ℕ
  pub broker_up : Bool
  pub broker_down : Bool
  pub canonical_path : Bytes
  pub proxy_up : Bool
  pub live_agents : List ℕ
  pub orphan : Bool
  pub stranded : Bool

abbrev pub no_agents : List AgentRef → Bool
no_agents [] = true
no_agents (r ∷ refs) = false

unfoldable pub no_diagnosis : Diagnosis
no_diagnosis = record {
  lock_present = false;
  proxy_pid = 0;
  port = 0;
  broker_pid = 0;
  broker_up = false;
  broker_down = false;
  canonical_path = [];
  proxy_up = false;
  live_agents = [];
  orphan = false;
  stranded = false;
}

unfoldable pub diagnose : System → LockState → Diagnosis
unfolding no_diagnosis
diagnose sys cur =
    if cur.proxy_pid == 0 && no_agents cur.agents
    then no_diagnosis
    else (let live = prune_dead sys.alive sys.start_time cur.agents in
        let up = proxy_up sys cur in
        let broker = not (cur.broker_pid == 0) && sys.alive cur.broker_pid && sys.socket_probe in
        record {
          lock_present = true;
          proxy_pid = cur.proxy_pid;
          port = cur.port;
          broker_pid = cur.broker_pid;
          broker_up = broker;
          broker_down = up && not (cur.broker_pid == 0) && not broker;
          canonical_path = cur.canonical_path;
          proxy_up = up;
          live_agents = pids live;
          orphan = up && no_agents live;
          stranded = not up && not (no_agents live);
        })

unfoldable pub inspect : System → M Diagnosis
unfolding diagnose
inspect sys = do
  require sys.acquire_ok acquire_lock
  cur ← read_lock_file sys
  pure (diagnose sys cur)

pub record CleanResult : Type 0 where
  pub cleaned : Bool
  pub proxy_pid : ℕ
  pub refused : Bool
  pub live_agents : List ℕ

abbrev pub nothing_cleaned : CleanResult
nothing_cleaned = record { cleaned = false; proxy_pid = 0; refused = false; live_agents = [] }

abbrev pub proxy_cleaned : ℕ → CleanResult
proxy_cleaned pid = record { cleaned = true; proxy_pid = pid; refused = false; live_agents = [] }

unfoldable pub clean_orphan_locked : System → LockState → M CleanResult
unfolding signal clear_project
clean_orphan_locked sys cur =
    if not (proxy_up sys cur) || not (no_agents (prune_dead sys.alive sys.start_time cur.agents))
    then pure nothing_cleaned
    else (do
      signal sys cur.proxy_pid
      clear_project sys cur (cleared cur)
      pure (proxy_cleaned cur.proxy_pid))

unfoldable pub clean_orphan : System → M CleanResult
unfolding clean_orphan_locked
clean_orphan sys = do
  require sys.acquire_ok acquire_lock
  cur ← read_lock_file sys
  clean_orphan_locked sys cur

unfoldable pub clean_proxy : System → LockState → M CleanResult
unfolding signal
clean_proxy sys cur =
    if recorded_alive sys cur
    then (do signal sys cur.proxy_pid; pure (proxy_cleaned cur.proxy_pid))
    else pure nothing_cleaned

abbrev pub refusal : System → LockState → CleanResult
refusal sys cur = record nothing_cleaned {
  refused = true;
  live_agents = pids (prune_dead sys.alive sys.start_time cur.agents);
}

-- The teardown of `Clean`.
unfoldable pub clean_all : System → LockState → M CleanResult
clean_all sys cur = do res ← clean_proxy sys cur; clear_project sys cur no_lock; pure res

unfoldable pub clean_locked : System → Bool → LockState → M CleanResult
clean_locked sys force cur =
    if not (no_agents (prune_dead sys.alive sys.start_time cur.agents)) && not force
    then pure (refusal sys cur)
    else clean_all sys cur

unfoldable pub clean : System → Bool → M CleanResult
unfolding clean_locked clean_all clean_proxy clear_project signal
clean sys force = do
  require sys.mkdir_ok create_state_dir
  require sys.acquire_ok acquire_lock
  cur ← read_lock_file sys
  clean_locked sys force cur
