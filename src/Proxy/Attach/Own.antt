-- ===== src/Proxy/Attach/Own.antt =====
-- What each step of `Attach` keeps of the ledger of processes.
use agent_creance.Prelude.{
  ℕ, Bool, true, false, not, ◌&&◌, ◌||◌, List, [], ◌∷◌, Option, none, some, Bytes, if◌then◌else◌,
  ◌==◌, ltb, length, bytes_eq, ◌≡◌, ◌≢◌, sym, ap, subst, inl, inr, arith, Option-cases,
}
use agent_creance.Proxy.Lock.{AgentRef, LockState, Contents}
use agent_creance.Proxy.Program.{
  Failure, start_mitmproxy, secrets_unresolved, Effect, terminated, spawned_proxy, spawned_broker,
  removed_socket, resolved_secrets, warned, broker_not_ready, broker_not_started,
  socket_path_too_long, chmod_failed, System, World, ◌>>=◌, ◌>>◌, pure, fail, emit, when,
}
use agent_creance.Proxy.Program.Triple.{Triple, Keeps, bind-Triple, when-Keeps, if-Keeps}
use agent_creance.Proxy.Ledger.{Tidy, proxy_starts, broker_starts, stops, goes_on, IsQuiet}
use agent_creance.Proxy.Broker.{
  StartConfig, Started, not_started, stop_broker, start_broker, spawn_broker, after_broker_spawn,
  wait_broker_ready, wait_proxy_ready, max_socket_path_len,
}
use agent_creance.Proxy.Attach.{
  Attachment, Port, choose_port, reclaimed, allocate_for, with_secret, on_port, restart_warning,
  secret_payload, resolved, after_proxy_spawn, spawn_proxy, start_proxy, is_empty,
}

-- The lock is untouched, and these processes of the call run.
abbrev pub Running : Contents → List ℕ → World → Type 0
Running l live w = (w.lock ≡ l) × Tidy w.done live

-- The process of a broker, 0 where there is none.
abbrev pub broker_live : ℕ → List ℕ
broker_live pid = if pid == 0 then [] else pid ∷ []

module _ (l : Contents) where
  pub emit-Running : (live : List ℕ) (e : Effect) → IsQuiet e → Keeps (Running l live) (emit e)
  emit-Running live e q w (same, t) = (same, goes_on e q t)

  stop_if :
      (pid : ℕ) (b : Bool)
      → Triple
          (Running l (if b then [] else pid ∷ []))
          (when (not b) (emit (terminated pid)) >> emit removed_socket)
          (λ _. Running l [])
          (λ _. Running l [])
  stop_if pid true w (same, t) = (same, goes_on removed_socket tt t)
  stop_if pid false w (same, t) = (same, goes_on removed_socket tt (stops pid t))

  pub stop_broker-Running :
      (pid : ℕ)
      → Triple
          (Running l (broker_live pid))
          (stop_broker pid)
          (λ _. Running l [])
          (λ _. Running l [])
  unfolding stop_broker
  stop_broker-Running pid = stop_if pid (pid == 0)

  -- The broker runs where its pid is not 0, and the socket is passed on with it.
  abbrev AfterBroker : Started → World → Type 0
  AfterBroker st = Running l (broker_live st.pid)

  spawned_live : (pid : ℕ) → pid ≢ 0 → broker_live pid ≡ pid ∷ []
  spawned_live pid h = ground arith

  stop_spawned :
      (pid : ℕ)
      → pid ≢ 0
      → Triple (Running l (pid ∷ [])) (stop_broker pid) (λ _. Running l []) (λ _. Running l [])
  stop_spawned pid h =
      subst
        (λ live. Triple (Running l live) (stop_broker pid) (λ _. Running l []) (λ _. Running l []))
        (spawned_live pid h) (stop_broker-Running pid)

  after_broker_spawn-Running :
      (sys : System) (cfg : StartConfig) (pid : ℕ) (o : Option Failure)
      → pid ≢ 0
      → Triple
          (Running l (pid ∷ []))
          (after_broker_spawn sys cfg pid o)
          AfterBroker
          (λ _. Running l [])
  unfolding after_broker_spawn
  after_broker_spawn-Running sys cfg pid none h w (same, t) =
      (same, subst (Tidy w.done) (sym (spawned_live pid h)) t)
  after_broker_spawn-Running sys cfg pid (some e) h w (same, t) =
      bind-Triple (Running l (pid ∷ [])) (λ _. Running l []) AfterBroker (λ _. Running l [])
        (stop_broker pid) (λ _. pure not_started) (stop_spawned pid h) (λ _ x r. r)
        (record w { done = warned broker_not_ready ∷ w.done })
        (same, goes_on (warned broker_not_ready) tt t)

  spawn_broker-Running :
      (sys : System) (cfg : StartConfig) (o : Option ℕ)
      → o ≢ some 0
      → Triple (Running l []) (spawn_broker sys cfg o) AfterBroker (λ _. Running l [])
  unfolding spawn_broker
  spawn_broker-Running sys cfg none h w (same, t) = (same, goes_on (warned broker_not_started) tt t)
  spawn_broker-Running sys cfg (some pid) h w (same, t) =
      after_broker_spawn-Running sys cfg pid (wait_broker_ready sys) (λ e. h (ap some e))
        (record w { done = spawned_broker pid ∷ w.done }) (same, broker_starts pid t)

  broker_if :
      (sys : System) (cfg : StartConfig) (a b c : Bool)
      → sys.spawn_with_secret ≢ some 0
      → Triple
          (Running l [])
          (if a
            then pure not_started
            else if b
            then (emit (warned socket_path_too_long) >> pure not_started)
            else (when c (emit (warned chmod_failed))
                >> spawn_broker sys cfg sys.spawn_with_secret))
          AfterBroker
          (λ _. Running l [])
  broker_if sys cfg true b c h w (same, t) = (same, t)
  broker_if sys cfg false true c h w (same, t) = (same, goes_on (warned socket_path_too_long) tt t)
  broker_if sys cfg false false true h w (same, t) =
      spawn_broker-Running sys cfg sys.spawn_with_secret h
        (record w { done = warned chmod_failed ∷ w.done })
        (same, goes_on (warned chmod_failed) tt t)
  broker_if sys cfg false false false h w (same, t) =
      spawn_broker-Running sys cfg sys.spawn_with_secret h w (same, t)

  pub start_broker-Running :
      (sys : System) (cfg : StartConfig) (secret : Bytes)
      → sys.spawn_with_secret ≢ some 0
      → Triple (Running l []) (start_broker sys cfg secret) AfterBroker (λ _. Running l [])
  unfolding start_broker
  start_broker-Running sys cfg secret =
      broker_if sys cfg (length secret == 0 || bytes_eq cfg.self_exe [])
        (ltb max_socket_path_len (length cfg.broker_sock)) (not sys.chmod_ok)

  -- What runs at the end of the branch that starts a proxy.
  abbrev pub BothRun : Attachment → World → Type 0
  BothRun att = Running l (att.proxy_pid ∷ broker_live att.broker_pid)

  after_proxy_spawn-Running :
      (sys : System) (p : Port) (broker : Started) (pid : ℕ) (o : Option Failure)
      → Triple
          (Running l (pid ∷ broker_live broker.pid))
          (after_proxy_spawn sys p broker pid o)
          BothRun
          (λ _. Running l [])
  unfolding after_proxy_spawn
  after_proxy_spawn-Running sys p broker pid none w r = r
  after_proxy_spawn-Running sys p broker pid (some e) w (same, t) =
      bind-Triple (Running l (broker_live broker.pid)) (λ _. Running l []) BothRun
        (λ _. Running l []) (stop_broker broker.pid) (λ _. fail e) (stop_broker-Running broker.pid)
        (λ _ x r. r) (record w { done = terminated pid ∷ w.done }) (same, stops pid t)

  spawn_proxy-Running :
      (sys : System) (p : Port) (broker : Started) (o : Option ℕ)
      → Triple
          (Running l (broker_live broker.pid))
          (spawn_proxy sys p broker o)
          BothRun
          (λ _. Running l [])
  unfolding spawn_proxy
  spawn_proxy-Running sys p broker none w r =
      bind-Triple (Running l (broker_live broker.pid)) (λ _. Running l []) BothRun
        (λ _. Running l []) (stop_broker broker.pid) (λ _. fail start_mitmproxy)
        (stop_broker-Running broker.pid) (λ _ x r. r) w r
  spawn_proxy-Running sys p broker (some pid) w (same, t) =
      after_proxy_spawn-Running sys p broker pid (wait_proxy_ready sys)
        (record w { done = spawned_proxy pid p.0 (not (bytes_eq broker.sock [])) ∷ w.done })
        (same, proxy_starts pid p.0 (not (bytes_eq broker.sock [])) t)

  allocate_for-Keeps :
      (P : World → Type 0) (sys : System) (recorded : ℕ) → Keeps P (allocate_for sys recorded)
  unfolding allocate_for
  allocate_for-Keeps P sys recorded w p = elim (Option-cases sys.allocate) [
    | inl e ↦ rw e p
    | inr (port, e) ↦ rw e p
  ]

  reclaimed-Keeps :
      (P : World → Type 0) (sys : System) (recorded : ℕ) (o : Option Bool)
      → Keeps P (reclaimed sys recorded o)
  unfolding reclaimed
  reclaimed-Keeps P sys recorded none w p = p
  reclaimed-Keeps P sys recorded (some true) w p = p
  reclaimed-Keeps P sys recorded (some false) w p = allocate_for-Keeps P sys recorded w p

  choose_port-Keeps :
      (P : World → Type 0) (sys : System) (recorded : ℕ) → Keeps P (choose_port sys recorded)
  unfolding choose_port
  choose_port-Keeps P sys recorded =
      if-Keeps P (recorded == 0) (allocate_for sys recorded)
        (reclaimed sys recorded (sys.try_reclaim recorded)) (λ _. allocate_for-Keeps P sys recorded)
        (λ _. reclaimed-Keeps P sys recorded (sys.try_reclaim recorded))

  resolved-Running : (sys : System) (live : List ℕ) → Keeps (Running l live) (resolved sys)
  unfolding resolved
  resolved-Running sys live w (same, t) = elim (Option-cases sys.resolve_secrets) [
    | inl e ↦ rw e (same, goes_on (warned secrets_unresolved) tt (goes_on resolved_secrets tt t))
    | inr (secret, e) ↦ rw e (same, goes_on resolved_secrets tt t)
  ]

  secret_payload-Running :
      (sys : System) (cfg : StartConfig) (live : List ℕ)
      → Keeps (Running l live) (secret_payload sys cfg)
  unfolding secret_payload
  secret_payload-Running sys cfg live =
      if-Keeps (Running l live) cfg.has_secrets (resolved sys) (pure [])
        (λ _. resolved-Running sys live) (λ _ w r. r)

  with_secret-Running :
      (sys : System) (cfg : StartConfig) (p : Port) (secret : Bytes)
      → sys.spawn_with_secret ≢ some 0
      → Triple (Running l []) (with_secret sys cfg p secret) BothRun (λ _. Running l [])
  unfolding with_secret
  with_secret-Running sys cfg p secret h =
      bind-Triple (Running l []) AfterBroker BothRun (λ _. Running l [])
        (start_broker sys cfg secret) (λ broker. spawn_proxy sys p broker sys.spawn)
        (start_broker-Running sys cfg secret h)
        (λ broker. spawn_proxy-Running sys p broker sys.spawn)

  on_port-Running :
      (sys : System) (cfg : StartConfig) (cur : LockState) (alive : List AgentRef) (p : Port)
      → sys.spawn_with_secret ≢ some 0
      → Triple (Running l []) (on_port sys cfg cur alive p) BothRun (λ _. Running l [])
  unfolding on_port
  on_port-Running sys cfg cur alive p h =
      bind-Triple (Running l []) (λ _. Running l []) BothRun (λ _. Running l [])
        (when (p.1 && not (is_empty alive)) (emit (restart_warning cur alive p)))
        (λ _. secret_payload sys cfg >>= with_secret sys cfg p)
        (when-Keeps (Running l []) (p.1 && not (is_empty alive))
          (emit (restart_warning cur alive p))
          (λ _. emit-Running [] (restart_warning cur alive p) tt))
        (λ _.
          bind-Triple (Running l []) (λ _. Running l []) BothRun (λ _. Running l [])
            (secret_payload sys cfg) (with_secret sys cfg p) (secret_payload-Running sys cfg [])
            (λ secret. with_secret-Running sys cfg p secret h))

  -- The branch of a proxy that is not up: on success the new proxy and its broker run, on a failure
  -- nothing that was started does.
  pub start_proxy-Running :
      (sys : System) (cfg : StartConfig) (cur : LockState) (alive : List AgentRef)
      → sys.spawn_with_secret ≢ some 0
      → Triple (Running l []) (start_proxy sys cfg cur alive) BothRun (λ _. Running l [])
  unfolding start_proxy
  start_proxy-Running sys cfg cur alive h =
      bind-Triple (Running l []) (λ _. Running l []) BothRun (λ _. Running l [])
        (choose_port sys cur.port) (on_port sys cfg cur alive)
        (choose_port-Keeps (Running l []) sys cur.port) (λ p. on_port-Running sys cfg cur alive p h)
