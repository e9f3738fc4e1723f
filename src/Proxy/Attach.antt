-- ===== src/Proxy/Attach.antt =====
-- `Attach` and `choosePort` (internal/proxy/lifecycle.go).
pub mod Own
pub mod Joining
pub mod Members
pub mod Ready
pub mod Abandon
pub mod Answers
use agent_creance.Prelude.{
  ℕ, zero, suc, ◌+◌, Bool, true, false, ◌&&◌, ◌||◌, not, List, [], ◌∷◌, Option, none, some, Bytes,
  if◌then◌else◌, ◌==◌, ltb, length, bytes_eq,
}
use agent_creance.Proxy.Lock.{AgentRef, LockState, Contents, pids, add_ref, prune_dead}
use agent_creance.Proxy.Program.{
  Failure, create_state_dir, acquire_lock, reclaim_port, allocate_port, start_mitmproxy,
  own_start_time, Warning, port_changed, secrets_unresolved, Effect, spawned_proxy, terminated,
  resolved_secrets, warned, System, World, Outcome, ok, err, M, continue, ◌>>=◌, ◌>>◌, pure, fail,
  emit, nothing, require, when, read_lock_file, write_lock_file,
}
use agent_creance.Proxy.Broker.{StartConfig, Started, wait_proxy_ready, stop_broker, start_broker}

pub record Attachment : Type 0 where
  pub port : ℕ
  pub proxy_pid : ℕ
  pub broker_pid : ℕ
  pub port_changed : Bool

-- The port, and whether the recorded one was lost.
abbrev pub Port : Type 0
Port = ℕ × Bool

unfoldable pub allocate_for : System → ℕ → M Port
allocate_for sys recorded = elim sys.allocate [
  | none ↦ fail allocate_port
  | some port ↦ pure (port, not (recorded == 0))
]

-- The rest of `choosePort` after `TryReclaim`.
unfoldable pub reclaimed : System → ℕ → Option Bool → M Port
reclaimed sys recorded none = fail reclaim_port
reclaimed sys recorded (some true) = pure (recorded, false)
reclaimed sys recorded (some false) = allocate_for sys recorded

unfoldable pub choose_port : System → ℕ → M Port
choose_port sys recorded =
    if recorded == 0
    then allocate_for sys recorded
    else reclaimed sys recorded (sys.try_reclaim recorded)

-- The lifecycle's notion of a proxy that is up: its process lives and its port answers.
abbrev pub proxy_up : System → LockState → Bool
proxy_up sys s = not (s.proxy_pid == 0) && sys.alive s.proxy_pid && sys.probe s.port

unfoldable pub is_empty : List AgentRef → Bool
is_empty [] = true
is_empty (r ∷ refs) = false

unfoldable pub resolved : System → M Bytes
resolved sys = do
  emit resolved_secrets
  elim sys.resolve_secrets [
    | none ↦ (do emit (warned secrets_unresolved); pure [])
    | some secret ↦ pure secret
  ]

unfoldable pub secret_payload : System → StartConfig → M Bytes
unfolding resolved
secret_payload sys cfg = if cfg.has_secrets then resolved sys else pure []

unfoldable pub after_proxy_spawn : System → Port → Started → ℕ → Option Failure → M Attachment
after_proxy_spawn sys (port, changed) broker pid none =
    pure (record { port = port; proxy_pid = pid; broker_pid = broker.pid; port_changed = changed })
after_proxy_spawn sys p broker pid (some e) = do
  emit (terminated pid)
  stop_broker broker.pid
  fail e

unfoldable pub spawn_proxy : System → Port → Started → Option ℕ → M Attachment
spawn_proxy sys p broker none = do stop_broker broker.pid; fail start_mitmproxy
spawn_proxy sys p broker (some pid) = do
  emit (spawned_proxy pid p.0 (not (bytes_eq broker.sock [])))
  after_proxy_spawn sys p broker pid (wait_proxy_ready sys)

unfoldable pub with_secret : System → StartConfig → Port → Bytes → M Attachment
with_secret sys cfg p secret = do
  broker ← start_broker sys cfg secret
  spawn_proxy sys p broker sys.spawn

-- The message of `warnPortChanged`, for a manager whose writer is set.
abbrev pub restart_warning : LockState → List AgentRef → Port → Effect
restart_warning cur alive p = warned (port_changed p.0 cur.port (pids alive))

unfoldable pub on_port : System → StartConfig → LockState → List AgentRef → Port → M Attachment
on_port sys cfg cur alive p = do
  when (p.1 && not (is_empty alive)) (emit (restart_warning cur alive p))
  secret ← secret_payload sys cfg
  with_secret sys cfg p secret

-- The branch of `Attach` for a proxy that is not up.
unfoldable pub start_proxy : System → StartConfig → LockState → List AgentRef → M Attachment
start_proxy sys cfg cur alive = do p ← choose_port sys cur.port; on_port sys cfg cur alive p

-- The branch for a proxy that is up.
abbrev pub reuse : LockState → M Attachment
reuse cur = pure (record {
  port = cur.port;
  proxy_pid = cur.proxy_pid;
  broker_pid = cur.broker_pid;
  port_changed = false;
})

-- The start time of the invocation itself, as the system reports it.
abbrev pub own_start : Option ℕ → M ℕ
own_start none = fail own_start_time
own_start (some st) = pure st

-- The state that this invocation's attachment leaves in the lock.
abbrev pub next_state : System → StartConfig → List AgentRef → Attachment → ℕ → LockState
next_state sys cfg alive att start = record {
  proxy_pid = att.proxy_pid;
  broker_pid = att.broker_pid;
  port = att.port;
  policy_hash = cfg.policy_hash;
  agents = add_ref alive (record { pid = cfg.self_pid; start_time = start });
  canonical_path = cfg.canonical_path;
}

unfoldable pub write_self : System → StartConfig → List AgentRef → Attachment → ℕ → M Attachment
write_self sys cfg alive att start = do
  write_lock_file sys (next_state sys cfg alive att start)
  pure att

-- The end of `Attach`: this invocation joins the agents and the lock is written.
unfoldable pub record_self : System → StartConfig → List AgentRef → Attachment → M Attachment
record_self sys cfg alive att = do
  start ← own_start (sys.start_time cfg.self_pid)
  write_self sys cfg alive att start

-- The proxy that is up, or a new one.
unfoldable pub obtain : System → StartConfig → LockState → List AgentRef → M Attachment
obtain sys cfg cur alive = if proxy_up sys cur then reuse cur else start_proxy sys cfg cur alive

unfoldable pub attach_locked : System → StartConfig → LockState → M Attachment
attach_locked sys cfg cur = do
  let alive = prune_dead sys.alive sys.start_time cur.agents
  att ← obtain sys cfg cur alive
  record_self sys cfg alive att

unfoldable pub attach : System → StartConfig → M Attachment
attach sys cfg = do
  require sys.mkdir_ok create_state_dir
  require sys.acquire_ok acquire_lock
  cur ← read_lock_file sys
  attach_locked sys cfg cur
