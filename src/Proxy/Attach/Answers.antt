-- ===== src/Proxy/Attach/Answers.antt =====
-- The proxy of a successful `Attach` answers (internal/proxy/lifecycle.go).
use agent_creance.Prelude.{
  ℕ, ◌<◌, Bool, true, false, not, ◌&&◌, List, Option, none, some, if◌then◌else◌, ◌≡◌, refl, subst,
  ◌⊎◌, inl, inr,
}
use agent_creance.Proxy.Lock.{AgentRef, LockState, parsed, prune_dead}
use agent_creance.Proxy.Program.{
  Failure, create_state_dir, acquire_lock, read_lock, start_mitmproxy, System, World, Outcome, ok,
  err, M, continue, ◌>>=◌, ◌>>◌, pure, fail, emit, require, when, read_lock_file, write_lock_file,
}
use agent_creance.Proxy.Program.Triple.{Sat, Triple, bind-Triple}
use agent_creance.Proxy.Broker.{
  StartConfig, Started, ready_max_attempts, wait_proxy_ready, start_broker, stop_broker,
}
use agent_creance.Proxy.Attach.{
  Attachment, Port, proxy_up, reuse, choose_port, secret_payload, is_empty, restart_warning,
  after_proxy_spawn, spawn_proxy, with_secret, on_port, start_proxy, obtain, record_self, own_start,
  write_self, next_state, attach_locked, attach,
}
use agent_creance.Proxy.Attach.Ready.{ReadyAt, wait_ready-none_iff}

any : {A : Type 0} (r : Outcome A × World) → Sat {A = A} (λ _ _. Unit) (λ _ _. Unit) r
any (ok a, w) = tt
any (err e, w) = tt

module _ (sys : System) (cfg : StartConfig) where
  -- The proxy was spawned and answered the readiness poll.
  abbrev Answers : Attachment → World → Type 0
  Answers att w = (sys.spawn ≡ some att.proxy_pid) × (wait_proxy_ready sys ≡ none)

  failed :
      (f : Failure) (r : Outcome (Unit {0}) × World)
      → Sat Answers (λ _ _. Unit) (continue (λ _. fail f) r)
  failed f (ok a, x) = tt
  failed f (err e, x) = tt

  spawn_proxy-Answers :
      (p : Port) (broker : Started) (o : Option ℕ)
      → sys.spawn ≡ o
      → (w : World) → Sat Answers (λ _ _. Unit) (spawn_proxy sys p broker o w)
  unfolding spawn_proxy after_proxy_spawn
  spawn_proxy-Answers p broker none h w = failed start_mitmproxy (stop_broker broker.pid w)
  spawn_proxy-Answers p broker (some pid) h w = waited (wait_proxy_ready sys) refl _
    where
      waited :
          (o : Option Failure)
          → wait_proxy_ready sys ≡ o
          → (x : World) → Sat Answers (λ _ _. Unit) (after_proxy_spawn sys p broker pid o x)
      waited none e x = (h, e)
      waited (some f) e x = failed f (stop_broker broker.pid _)

  -- A step of which nothing is asked, then the rest.
  after :
      {A : Type 0} (m : M A) (f : A → M Attachment)
      → ((a : A) (w : World) → Sat Answers (λ _ _. Unit) (f a w))
      → (w : World) → Sat Answers (λ _ _. Unit) ((m >>= f) w)
  after m f h w =
      bind-Triple (λ _. Unit) (λ _ _. Unit) Answers (λ _ _. Unit) m f (λ x _. any (m x))
        (λ a x _. h a x) w tt

  start_proxy-Answers :
      (cur : LockState) (alive : List AgentRef) (w : World)
      → Sat Answers (λ _ _. Unit) (start_proxy sys cfg cur alive w)
  unfolding start_proxy on_port with_secret
  start_proxy-Answers cur alive = after (choose_port sys cur.port) (on_port sys cfg cur alive) (λ p.
      after (when (p.1 && not (is_empty alive)) (emit (restart_warning cur alive p)))
        (λ _. secret_payload sys cfg >>= with_secret sys cfg p)
        (λ _. after (secret_payload sys cfg) (with_secret sys cfg p) (λ secret.
          after (start_broker sys cfg secret) (λ broker. spawn_proxy sys p broker sys.spawn)
            (λ broker. spawn_proxy-Answers p broker sys.spawn refl))))

  -- The attachment is the proxy that was up, or a new one that answers.
  abbrev pub IsUp : LockState → Attachment → Type 0
  IsUp cur att =
      ((proxy_up sys cur ≡ true)
        × (att.proxy_pid ≡ cur.proxy_pid)
        × (att.port ≡ cur.port)
        × (att.broker_pid ≡ cur.broker_pid))
      ⊎ ((sys.spawn ≡ some att.proxy_pid)
          × (i : ℕ) × (i < ready_max_attempts)
          × ReadyAt sys.proxy_poll 0 i)

  obtain-IsUp :
      (cur : LockState) (alive : List AgentRef) (w : World)
      → Sat (λ att _. IsUp cur att) (λ _ _. Unit) (obtain sys cfg cur alive w)
  unfolding obtain wait_proxy_ready
  obtain-IsUp cur alive w = by_test (proxy_up sys cur) refl
    where
      started :
          (r : Outcome Attachment × World)
          → Sat Answers (λ _ _. Unit) r
          → Sat (λ att _. IsUp cur att) (λ _ _. Unit) r
      started (ok att, x) (s, e) =
          let (i, _, b, r) = (wait_ready-none_iff sys.proxy_poll ready_max_attempts 0).0 e in
          inr (s, i, b, r)
      started (err e, x) h = tt

      by_test :
          (b : Bool)
          → proxy_up sys cur ≡ b
          → Sat
              (λ att _. IsUp cur att)
              (λ _ _. Unit)
              ((if b then reuse cur else start_proxy sys cfg cur alive) w)
      by_test true e = inl (e, refl, refl, refl)
      by_test false e = started (start_proxy sys cfg cur alive w) (start_proxy-Answers cur alive w)

  record_self-IsUp :
      (cur : LockState) (alive : List AgentRef) (att : Attachment)
      → Triple (λ _. IsUp cur att) (record_self sys cfg alive att) (λ a _. IsUp cur a) (λ _ _. Unit)
  unfolding record_self write_self
  record_self-IsUp cur alive att w h = by_start (sys.start_time cfg.self_pid)
    where
      written :
          (r : Outcome (Unit {0}) × World)
          → Sat (λ a _. IsUp cur a) (λ _ _. Unit) (continue (λ _. pure att) r)
      written (ok x, y) = h
      written (err e, y) = tt

      by_start :
          (o : Option ℕ)
          → Sat
              (λ a _. IsUp cur a)
              (λ _ _. Unit)
              (continue (write_self sys cfg alive att) (own_start o w))
      by_start none = tt
      by_start (some start) = written (write_lock_file sys (next_state sys cfg alive att start) w)

  pub attach-Sat :
      (w : World) → Sat (λ att _. IsUp (parsed w.lock) att) (λ _ _. Unit) (attach sys cfg w)
  unfolding attach read_lock_file attach_locked
  attach-Sat w = by_answers sys.mkdir_ok sys.acquire_ok sys.read_ok
    where
      alive : List AgentRef
      alive = prune_dead sys.alive sys.start_time (parsed w.lock).agents

      by_answers :
          (a b c : Bool)
          → Sat
              (λ att _. IsUp (parsed w.lock) att)
              (λ _ _. Unit)
              ((require a create_state_dir
                  >> (require b acquire_lock
                      >> ((λ x. if c then (ok (parsed x.lock), x) else (err read_lock, x))
                          >>= attach_locked sys cfg)))
                w)
      by_answers false b c = tt
      by_answers true false c = tt
      by_answers true true false = tt
      by_answers true true true =
          bind-Triple (λ _. Unit) (λ att _. IsUp (parsed w.lock) att)
            (λ att _. IsUp (parsed w.lock) att) (λ _ _. Unit) (obtain sys cfg (parsed w.lock) alive)
            (record_self sys cfg alive) (λ x _. obtain-IsUp (parsed w.lock) alive x)
            (record_self-IsUp (parsed w.lock) alive) w tt

  -- A successful attach returns the recorded proxy where its process lives and its port answers;
  -- otherwise the process it spawned, which one of the hundred readiness polls found listening and
  -- every earlier one found alive.
  pub attach-IsUp :
      (w : World) (att : Attachment) (v : World)
      → attach sys cfg w ≡ (ok att, v)
      → IsUp (parsed w.lock) att
  attach-IsUp w att v e = subst (Sat (λ a _. IsUp (parsed w.lock) a) (λ _ _. Unit)) e (attach-Sat w)
