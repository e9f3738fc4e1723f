-- ===== src/Proxy/Broker.antt =====
-- Starting and stopping the credential broker, and the readiness polls
-- (internal/proxy/lifecycle.go).
use agent_creance.Prelude.{
  ℕ, zero, suc, ◌+◌, Bool, ◌||◌, not, [], Option, none, some, Bytes, if◌then◌else◌, ◌==◌, ltb,
  length, bytes_eq,
}
use agent_creance.Proxy.Program.{
  Failure, proxy_exited, proxy_wait, proxy_timeout, socket_path_too_long, chmod_failed,
  broker_not_started, broker_not_ready, spawned_broker, terminated, removed_socket, warned, Poll,
  System, M, ◌>>◌, pure, emit, when,
}

pub record StartConfig : Type 0 where
  pub canonical_path : Bytes
  pub broker_sock : Bytes
  pub policy_hash : Bytes
  pub self_pid : ℕ
  pub self_exe : Bytes
  pub has_secrets : Bool

abbrev pub ready_max_attempts : ℕ
ready_max_attempts = 100

-- sysdep.MaxSocketPathLen
abbrev pub max_socket_path_len : ℕ
max_socket_path_len = 103

-- The poll loop with the attempts left and the number of this one; `none` is success.
unfoldable pub wait_ready : (ℕ → Poll) → ℕ → ℕ → Option Failure
wait_ready poll zero attempt = some proxy_timeout
wait_ready poll (suc left) attempt =
    let again = wait_ready poll left (attempt + 1) in
    if (poll attempt).probe
    then none
    else if not (poll attempt).alive
    then some proxy_exited
    else if not (poll attempt).slept
    then some proxy_wait
    else again

-- `waitProxyReady`
unfoldable pub wait_proxy_ready : System → Option Failure
wait_proxy_ready sys = wait_ready sys.proxy_poll ready_max_attempts 0

-- `waitBrokerReady`
unfoldable pub wait_broker_ready : System → Option Failure
wait_broker_ready sys = wait_ready sys.broker_poll ready_max_attempts 0

-- `stopBroker`: both steps are best-effort.
unfoldable pub stop_broker : ℕ → M (Unit {0})
stop_broker pid = do when (not (pid == 0)) (emit (terminated pid)); emit removed_socket

-- The pid and the socket path that `startBroker` returns, 0 and "" where no broker runs.
pub record Started : Type 0 where
  pub pid : ℕ
  pub sock : Bytes

abbrev pub not_started : Started
not_started = record { pid = 0; sock = [] }

unfoldable pub after_broker_spawn : System → StartConfig → ℕ → Option Failure → M Started
after_broker_spawn sys cfg pid none = pure (record { pid = pid; sock = cfg.broker_sock })
after_broker_spawn sys cfg pid (some e) = do
  emit (warned broker_not_ready)
  stop_broker pid
  pure not_started

unfoldable pub spawn_broker : System → StartConfig → Option ℕ → M Started
spawn_broker sys cfg none = do emit (warned broker_not_started); pure not_started
spawn_broker sys cfg (some pid) = do
  emit (spawned_broker pid)
  after_broker_spawn sys cfg pid (wait_broker_ready sys)

unfoldable pub start_broker : System → StartConfig → Bytes → M Started
unfolding after_broker_spawn spawn_broker
start_broker sys cfg secret =
    if length secret == 0 || bytes_eq cfg.self_exe []
    then pure not_started
    else if ltb max_socket_path_len (length cfg.broker_sock)
    then (do emit (warned socket_path_too_long); pure not_started)
    else (do
      when (not sys.chmod_ok) (emit (warned chmod_failed))
      spawn_broker sys cfg sys.spawn_with_secret)
