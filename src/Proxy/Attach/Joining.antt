-- ===== src/Proxy/Attach/Joining.antt =====
-- What `Attach` leaves behind: the lock, and the processes it started
-- (internal/proxy/lifecycle.go).
use agent_creance.Prelude.{
  ℕ, Bool, true, false, List, [], ◌∷◌, Option, none, some, if◌then◌else◌, ◌==◌, ◌≡◌, ◌≢◌, refl,
  subst, ◌⊎◌, inl, inr, In, Bool-cases,
}
use agent_creance.Proxy.Lock.{AgentRef, LockState, Contents, holds, parsed, prune_dead}
use agent_creance.Proxy.Program.{
  Failure, create_state_dir, acquire_lock, read_lock, own_start_time, write_lock, terminated,
  System, World, Outcome, ok, err, continue, ◌>>=◌, ◌>>◌, require, read_lock_file, write_lock_file,
}
use agent_creance.Proxy.Program.Triple.{Sat, Triple, bind-Triple}
use agent_creance.Proxy.Ledger.{Tidy, begin, at_start, Spawned, terminated-Spawned, Spawned-cases}
use agent_creance.Proxy.Broker.{StartConfig}
use agent_creance.Proxy.Attach.{
  Attachment, proxy_up, reuse, start_proxy, obtain, own_start, write_self, next_state, record_self,
  attach_locked, attach,
}
use agent_creance.Proxy.Attach.Own.{Running, BothRun, broker_live, start_proxy-Running}

-- The errors after a proxy was started.
abbrev pub IsLate : Failure → Type 0
IsLate e = (e ≡ own_start_time) ⊎ (e ≡ write_lock)

-- Nothing runs but the processes of the attachment.
abbrev pub OnlyIts : Attachment → List ℕ → Type 0
OnlyIts att live = (p : ℕ) → In p live → (p ≡ att.proxy_pid) ⊎ (p ≡ att.broker_pid)

module _ (l : Contents) where
  -- The lock is untouched, and what the call started belongs to the attachment.
  abbrev Obtained : Attachment → World → Type 0
  Obtained att w = (live : List ℕ) × Running l live w × OnlyIts att live

  -- Early errors leave nothing behind.
  abbrev pub Failed : System → Failure → World → Type 0
  Failed sys e w =
      Running l [] w
      ⊎ (IsLate e × ((w.lock ≡ l) ⊎ (w.lock ≡ sys.torn)) × (live : List ℕ) × Tidy w.done live)

  -- The lock holds the attachment and this invocation.
  abbrev pub Joined : System → StartConfig → Attachment → World → Type 0
  Joined sys cfg att w =
      (start : ℕ) × (sys.start_time cfg.self_pid ≡ some start)
      × (w.lock
          ≡ holds (
              next_state sys cfg (prune_dead sys.alive sys.start_time (parsed l).agents) att start))
      × (live : List ℕ) × Tidy w.done live
      × OnlyIts att live

  broker_live-OnlyIts :
      (att : Attachment) → OnlyIts att (att.proxy_pid ∷ broker_live att.broker_pid)
  broker_live-OnlyIts att p (inl e) = inl e
  broker_live-OnlyIts att p (inr h) = inr (only (att.broker_pid == 0) h)
    where
      only : (b : Bool) → In p (if b then [] else att.broker_pid ∷ []) → p ≡ att.broker_pid
      only true x = absurd x
      only false (inl e) = e
      only false (inr x) = absurd x

  obtain-Obtained :
      (sys : System) (cfg : StartConfig) (cur : LockState) (alive : List AgentRef)
      → sys.spawn_with_secret ≢ some 0
      → Triple (Running l []) (obtain sys cfg cur alive) Obtained (Failed sys)
  unfolding obtain
  obtain-Obtained sys cfg cur alive h = by_test (proxy_up sys cur)
    where
      started :
          (r : Outcome Attachment × World)
          → Sat (BothRun l) (λ _. Running l []) r
          → Sat Obtained (Failed sys) r
      started (ok att, w) x =
          (att.proxy_pid ∷ broker_live att.broker_pid, x, broker_live-OnlyIts att)
      started (err e, w) x = inl x

      by_test :
          (b : Bool)
          → Triple
              (Running l [])
              (if b then reuse cur else start_proxy sys cfg cur alive)
              Obtained
              (Failed sys)
      by_test true w x = ([], x, λ p y. absurd y)
      by_test false w x =
          started (start_proxy sys cfg cur alive w) (start_proxy-Running l sys cfg cur alive h w x)

  write_self-Joined :
      (sys : System) (cfg : StartConfig) (att : Attachment) (start : ℕ)
      → sys.start_time cfg.self_pid ≡ some start
      → Triple
          (Obtained att)
          (write_self sys cfg (prune_dead sys.alive sys.start_time (parsed l).agents) att start)
          (Joined sys cfg)
          (Failed sys)
  unfolding write_self write_lock_file
  write_self-Joined sys cfg att start h w (live, x, only) = elim (Bool-cases sys.write_ok) [
    | inl e ↦ rw e (start, h, refl, live, x.1, only)
    | inr e ↦ rw e (inr (inr refl, inr refl, live, x.1))
  ]

  record_self-Joined :
      (sys : System) (cfg : StartConfig) (att : Attachment)
      → Triple
          (Obtained att)
          (record_self sys cfg (prune_dead sys.alive sys.start_time (parsed l).agents) att)
          (Joined sys cfg)
          (Failed sys)
  unfolding record_self
  record_self-Joined sys cfg att w (live, (same, t), only) =
      by_start (sys.start_time cfg.self_pid) refl
    where
      alive : List AgentRef
      alive = prune_dead sys.alive sys.start_time (parsed l).agents

      by_start :
          (o : Option ℕ)
          → sys.start_time cfg.self_pid ≡ o
          → Sat
              (Joined sys cfg)
              (Failed sys)
              (continue (write_self sys cfg alive att) (own_start o w))
      by_start none e = inr (inl refl, inl same, live, t)
      by_start (some start) e = write_self-Joined sys cfg att start e w (live, (same, t), only)

  attach_locked-Joined :
      (sys : System) (cfg : StartConfig)
      → sys.spawn_with_secret ≢ some 0
      → Triple (Running l []) (attach_locked sys cfg (parsed l)) (Joined sys cfg) (Failed sys)
  unfolding attach_locked
  attach_locked-Joined sys cfg h =
      bind-Triple (Running l []) Obtained (Joined sys cfg) (Failed sys)
        (obtain sys cfg (parsed l) (prune_dead sys.alive sys.start_time (parsed l).agents))
        (record_self sys cfg (prune_dead sys.alive sys.start_time (parsed l).agents))
        (obtain-Obtained sys cfg (parsed l) (prune_dead sys.alive sys.start_time (parsed l).agents)
          h)
        (record_self-Joined sys cfg)

  pub attach-Joined :
      (sys : System) (cfg : StartConfig)
      → sys.spawn_with_secret ≢ some 0
      → Sat (Joined sys cfg) (Failed sys) (attach sys cfg (at_start l))
  unfolding attach read_lock_file
  attach-Joined sys cfg h = by_answers sys.mkdir_ok sys.acquire_ok sys.read_ok
    where
      by_answers :
          (a b c : Bool)
          → Sat (Joined sys cfg) (Failed sys) (
              (require a create_state_dir
                  >> (require b acquire_lock
                      >> ((λ w. if c then (ok (parsed w.lock), w) else (err read_lock, w))
                          >>= attach_locked sys cfg)))
                (at_start l))
      by_answers false b c = inl (refl, begin)
      by_answers true false c = inl (refl, begin)
      by_answers true true false = inl (refl, begin)
      by_answers true true true = attach_locked-Joined sys cfg h (at_start l) (refl, begin)

  -- A successful attach leaves in the lock the proxy, the broker and the port that it returns, the
  -- agents that were attached before and are still the original live processes, and this invocation
  -- with its start time, where no spawned broker has pid 0.
  pub attach-recorded :
      (sys : System) (cfg : StartConfig) (att : Attachment) (w : World)
      → sys.spawn_with_secret ≢ some 0
      → attach sys cfg (at_start l) ≡ (ok att, w)
      → (start : ℕ) × (sys.start_time cfg.self_pid ≡ some start)
        × (w.lock
            ≡ holds (
                next_state sys cfg
                  (prune_dead sys.alive sys.start_time (parsed l).agents)
                  att
                  start))
  attach-recorded sys cfg att w h e = let (start, s, same, _, _, _) = joined in (start, s, same)
    where
      joined : Joined sys cfg att w
      joined = subst (Sat (Joined sys cfg) (Failed sys)) e (attach-Joined sys cfg h)

  -- A process that a successful attach started is the attachment's proxy or broker, or was sent
  -- SIGTERM again, where no spawned broker has pid 0.
  pub attach-Spawned :
      (sys : System) (cfg : StartConfig) (att : Attachment) (w : World) (pid : ℕ)
      → sys.spawn_with_secret ≢ some 0
      → attach sys cfg (at_start l) ≡ (ok att, w)
      → Spawned pid w.done
      → (pid ≡ att.proxy_pid) ⊎ (pid ≡ att.broker_pid) ⊎ In (terminated pid) w.done
  attach-Spawned sys cfg att w pid h e s =
      let (_, _, _, live, t, only) = joined in
      elim (Spawned-cases pid t s) [
        | inl stopped ↦ inr (inr stopped)
        | inr runs ↦ elim (only pid runs) [ inl x ↦ inl x | inr x ↦ inr (inl x) ]
      ]
    where
      joined : Joined sys cfg att w
      joined = subst (Sat (Joined sys cfg) (Failed sys)) e (attach-Joined sys cfg h)

  -- An attach that fails before this invocation's start time is read, that is with any error but
  -- that of the start time and that of the last write, leaves the lock as it was and has sent
  -- SIGTERM to every process that it started, where no spawned broker has pid 0.
  pub attach-failed :
      (sys : System) (cfg : StartConfig) (e : Failure) (w : World)
      → sys.spawn_with_secret ≢ some 0
      → attach sys cfg (at_start l) ≡ (err e, w)
      → e ≢ own_start_time
      → e ≢ write_lock
      → (w.lock ≡ l) × ((pid : ℕ) → Spawned pid w.done → In (terminated pid) w.done)
  attach-failed sys cfg e w h eq not_start not_write = elim failed [
    | inl (same, t) ↦ (same, λ pid s. elim (Spawned-cases pid t s) [ inl x ↦ x | inr x ↦ absurd x ])
    | inr (inl late, _, _, _) ↦ absurd (not_start late)
    | inr (inr late, _, _, _) ↦ absurd (not_write late)
  ]
    where
      failed : Failed sys e w
      failed = subst (Sat (Joined sys cfg) (Failed sys)) eq (attach-Joined sys cfg h)

  tidy :
      (sys : System) (cfg : StartConfig) (r : Outcome Attachment × World)
      → Sat (Joined sys cfg) (Failed sys) r
      → (live : List ℕ) × Tidy r.1.done live
  tidy sys cfg (ok att, w) (_, _, _, live, t, _) = (live, t)
  tidy sys cfg (err e, w) (inl (_, t)) = ([], t)
  tidy sys cfg (err e, w) (inr (_, _, live, t)) = (live, t)

  -- Whatever its result, an attach signals no process but one it started itself, where no spawned
  -- broker has pid 0.
  pub attach-terminated :
      (sys : System) (cfg : StartConfig) (pid : ℕ)
      → sys.spawn_with_secret ≢ some 0
      → In (terminated pid) (attach sys cfg (at_start l)).1.done
      → Spawned pid (attach sys cfg (at_start l)).1.done
  attach-terminated sys cfg pid h stopped =
      let (_, t) = tidy sys cfg (attach sys cfg (at_start l)) (attach-Joined sys cfg h) in
      terminated-Spawned pid t stopped
