-- ===== src/Tests/ProxyRuns.antt =====
-- The lifecycle run on concrete projects: one without a lock, and one with a live agent.
use agent_creance.Prelude.{ℕ, true, false, [], ◌∷◌, none, some, ◌==◌, ◌≡◌, refl, bytes_eq}
use agent_creance.Proxy.Lock.{
  LockState, no_lock, Contents, blank, holds, add_ref, has_pid, prune_dead, is_original, remove_ref,
}
use agent_creance.Proxy.Program.{
  proxy_exited, spawned_proxy, spawned_broker, terminated, resolved_secrets, removed_socket,
  purged_overlay, Poll, System, World, ok, err, read_lock_file, write_lock_file,
}
use agent_creance.Proxy.Ledger.{at_start}
use agent_creance.Proxy.Broker.{
  StartConfig, wait_ready, wait_proxy_ready, wait_broker_ready, stop_broker, after_broker_spawn,
  spawn_broker, start_broker,
}
use agent_creance.Proxy.Attach.{
  Attachment, allocate_for, choose_port, is_empty, resolved, secret_payload, after_proxy_spawn,
  spawn_proxy, with_secret, on_port, start_proxy, write_self, record_self, obtain, attach_locked,
  attach,
}
use agent_creance.Proxy.Teardown.{
  signal, clear_project, last_out, detach_to, detach, diagnose, inspect, proxy_cleaned, clean_proxy,
  clean_all, clean_locked, clean, Diagnosis,
}

abbrev pub config : StartConfig
config = record {
  canonical_path = 47 ∷ 112 ∷ [];
  broker_sock = 47 ∷ 115 ∷ [];
  policy_hash = 104 ∷ [];
  self_pid = 7;
  self_exe = 47 ∷ 101 ∷ [];
  has_secrets = true;
}

-- The third poll finds the process listening.
abbrev pub third : ℕ → Poll
third i = record { probe = i == 2; alive = true; slept = true }

-- Process 50 becomes a proxy on port 9000 and process 51 its broker; every process lives and
-- started at 100.
abbrev pub calm : System
calm = record {
  mkdir_ok = true;
  acquire_ok = true;
  read_ok = true;
  write_ok = true;
  torn = blank;
  alive = λ _. true;
  start_time = λ _. some 100;
  probe = λ _. true;
  socket_probe = true;
  try_reclaim = λ _. some true;
  allocate = some 9000;
  resolve_secrets = some (1 ∷ []);
  chmod_ok = true;
  spawn = some 50;
  spawn_with_secret = some 51;
  proxy_poll = third;
  broker_poll = third;
  signal_ok = λ _. true;
  purge_ok = true;
}

-- Nothing answers the proxy's readiness poll.
abbrev pub silent : System
silent = record calm { proxy_poll = λ _. record { probe = false; alive = false; slept = true } }

-- The start time of no process can be read.
abbrev pub unreadable : System
unreadable = record calm { start_time = λ _. none }

abbrev pub first_attachment : Attachment
first_attachment = record { port = 9000; proxy_pid = 50; broker_pid = 51; port_changed = false }

abbrev pub busy_state : LockState
busy_state = record {
  proxy_pid = 40;
  broker_pid = 41;
  port = 8080;
  policy_hash = 104 ∷ [];
  agents = record { pid = 5; start_time = 100 } ∷ [];
  canonical_path = 47 ∷ 112 ∷ [];
}

-- A project whose proxy has one agent, and one whose proxy has lost its agents.
abbrev pub busy : Contents
busy = holds busy_state

abbrev pub orphaned : Contents
orphaned = holds (record busy_state { agents = [] })

abbrev pub cold_world : World
cold_world = record {
  lock = holds (record {
    proxy_pid = 50;
    broker_pid = 51;
    port = 9000;
    policy_hash = 104 ∷ [];
    agents = record { pid = 7; start_time = 100 } ∷ [];
    canonical_path = 47 ∷ 112 ∷ [];
  });
  done = spawned_proxy 50 9000 true ∷ spawned_broker 51 ∷ resolved_secrets ∷ [];
}

pub attach-cold : attach calm config (at_start blank) ≡ (ok first_attachment, cold_world)
unfolding attach read_lock_file attach_locked obtain start_proxy choose_port allocate_for on_port
    secret_payload resolved with_secret start_broker spawn_broker after_broker_spawn
    wait_broker_ready wait_ready spawn_proxy after_proxy_spawn wait_proxy_ready record_self
    write_self write_lock_file prune_dead add_ref has_pid is_empty bytes_eq
attach-cold = refl

-- A second attach finds the proxy of the first.
abbrev pub second_attachment : Attachment
second_attachment = record { port = 8080; proxy_pid = 40; broker_pid = 41; port_changed = false }

pub attach-busy : attach calm config (at_start busy) ≡ (
  ok second_attachment,
  record {
    lock = holds (record busy_state {
      agents = record { pid = 5; start_time = 100 } ∷ record { pid = 7; start_time = 100 } ∷ [];
    });
    done = [];
  },
)
unfolding attach read_lock_file attach_locked obtain record_self write_self write_lock_file
    prune_dead add_ref has_pid is_original
attach-busy = refl

-- A silent proxy is stopped, its broker too, and the attach fails.
abbrev pub silent_world : World
silent_world = record {
  lock = blank;
  done =
      removed_socket
      ∷ terminated 51
      ∷ terminated 50
      ∷ spawned_proxy 50 9000 true
      ∷ spawned_broker 51
      ∷ resolved_secrets
      ∷ [];
}

pub attach-silent : attach silent config (at_start blank) ≡ (err proxy_exited, silent_world)
unfolding attach read_lock_file attach_locked obtain start_proxy choose_port allocate_for on_port
    secret_payload resolved with_secret start_broker spawn_broker after_broker_spawn
    wait_broker_ready wait_ready spawn_proxy after_proxy_spawn wait_proxy_ready record_self
    write_self write_lock_file prune_dead add_ref has_pid is_empty stop_broker bytes_eq
attach-silent = refl

abbrev pub abandoned_world : World
abandoned_world = record {
  lock = blank;
  done = spawned_proxy 50 9000 true ∷ spawned_broker 51 ∷ resolved_secrets ∷ [];
}

pub start_proxy-unreadable :
    start_proxy unreadable config no_lock [] (at_start blank)
    ≡ (ok first_attachment, abandoned_world)
unfolding start_proxy choose_port allocate_for on_port secret_payload resolved with_secret
    start_broker spawn_broker after_broker_spawn wait_broker_ready wait_ready spawn_proxy
    after_proxy_spawn wait_proxy_ready is_empty bytes_eq
start_proxy-unreadable = refl

-- The invocation that attached alone detaches.
abbrev pub left_world : World
left_world = record {
  lock = holds (record no_lock { policy_hash = 104 ∷ [] });
  done = purged_overlay ∷ removed_socket ∷ terminated 51 ∷ terminated 50 ∷ [];
}

pub detach-cold : detach calm 7 (at_start cold_world.lock) ≡ (ok tt, left_world)
unfolding detach read_lock_file write_lock_file detach_to last_out signal clear_project stop_broker
    remove_ref
detach-cold = refl

-- Another agent's proxy is left alone.
pub detach-busy : detach calm 7 (at_start busy) ≡ (ok tt, record { lock = busy; done = [] })
unfolding detach read_lock_file write_lock_file detach_to last_out signal clear_project stop_broker
    remove_ref
detach-busy = refl

abbrev pub orphan_report : Diagnosis
orphan_report = record {
  lock_present = true;
  proxy_pid = 40;
  port = 8080;
  broker_pid = 41;
  broker_up = true;
  broker_down = false;
  canonical_path = 47 ∷ 112 ∷ [];
  proxy_up = true;
  live_agents = [];
  orphan = true;
  stranded = false;
}

pub inspect-orphaned : inspect calm (at_start orphaned) ≡ (ok orphan_report, at_start orphaned)
unfolding inspect read_lock_file diagnose prune_dead
inspect-orphaned = refl

abbrev pub cleaned_world : World
cleaned_world = record {
  lock = holds no_lock;
  done = purged_overlay ∷ removed_socket ∷ terminated 41 ∷ terminated 40 ∷ [];
}

pub clean-forced : clean calm true (at_start busy) ≡ (ok (proxy_cleaned 40), cleaned_world)
unfolding clean read_lock_file write_lock_file clean_locked clean_all clean_proxy signal
    clear_project stop_broker prune_dead is_original
clean-forced = refl
