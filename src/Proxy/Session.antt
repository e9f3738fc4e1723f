-- ===== src/Proxy/Session.antt =====
-- An invocation's whole session: it attaches, and later detaches (internal/proxy/lifecycle.go).
use agent_creance.Prelude.{
  false, ◌⊎◌, ℕ, Bool, List, [], ◌∷◌, some, not, ◌&&◌, ◌==◌, arith, ◌≡◌, ◌≢◌, refl, ap, subst, inl,
  inr, In,
}
use agent_creance.Proxy.Lock.{
  AgentRef, LockState, no_lock, Contents, holds, parsed, remove_ref, prune_dead, add_ref,
}
use agent_creance.Proxy.Lock.Agents.{IsOriginal, In-prune_dead, In-add_ref_cases, In-remove_ref}
use agent_creance.Proxy.Program.{System, World, ok, terminated}
use agent_creance.Proxy.Ledger.{at_start}
use agent_creance.Proxy.Broker.{StartConfig}
use agent_creance.Proxy.Attach.{Attachment, attach, next_state}
use agent_creance.Proxy.Attach.Joining.{attach-recorded}
use agent_creance.Proxy.Attach.Members.{self_ref}
use agent_creance.Proxy.Teardown.{detach, cleared}
use agent_creance.Proxy.Teardown.Clearing.{TornDown}
use agent_creance.Proxy.Teardown.Detaching.{Detached, detach-Detached}

empty_of : (refs : List AgentRef) → ((r : AgentRef) → ¬ In r refs) → refs ≡ []
empty_of [] h = refl
empty_of (r ∷ refs) h = absurd (h r (inl refl))

-- The agents that stay when this invocation leaves again.
stays :
    (sys : System) (cfg : StartConfig) (refs : List AgentRef) (start : ℕ)
    → ((r : AgentRef) → In r refs → IsOriginal sys.alive sys.start_time r → r.pid ≡ cfg.self_pid)
    → remove_ref
        (add_ref (prune_dead sys.alive sys.start_time refs) (self_ref cfg start))
        cfg.self_pid
      ≡ []
stays sys cfg refs start alone = empty_of _ (λ r m. nobody r ((In-remove_ref _ cfg.self_pid r).0 m))
  where
    nobody :
        (r : AgentRef)
        → In r (add_ref (prune_dead sys.alive sys.start_time refs) (self_ref cfg start))
          × (r.pid ≢ cfg.self_pid)
        → ⊥
    nobody r (m, ne) = elim (In-add_ref_cases _ (self_ref cfg start) r m) [
      | inl old ↦
          let (was, same) = (In-prune_dead sys.alive sys.start_time refs r).0 old in
          ne (alone r was same)
      | inr e ↦ ne (ap (λ (x : AgentRef). x.pid) e)
    ]

after_last :
    (later : System) (n : LockState) (pid : ℕ) (v : World)
    → detach later pid (at_start (holds n)) ≡ (ok tt, v)
    → remove_ref n.agents pid ≡ []
    → TornDown later n (cleared n) v
after_last later n pid v left e =
    subst (λ refs. Detached later n refs v) e (detach-Detached (holds n) later pid v left)

dead_of : (pid : ℕ) (alive : Bool) → (not (pid == 0) && alive) ≡ false → (pid ≡ 0) ⊎ (alive ≡ false)
dead_of pid alive h = ground arith

-- An invocation that attaches where no other agent is live, and detaches with the lock as it left
-- it, leaves a lock that holds nothing but the policy hash, and the proxy that it used is sent
-- SIGTERM if it still lives. Both operations succeed, and no spawned broker has pid 0.
pub attach-detach :
    (l : Contents) (sys later : System) (cfg : StartConfig) (att : Attachment) (w v : World)
    → sys.spawn_with_secret ≢ some 0
    → ((r : AgentRef)
        → In r (parsed l).agents
        → IsOriginal sys.alive sys.start_time r
        → r.pid ≡ cfg.self_pid)
    → attach sys cfg (at_start l) ≡ (ok att, w)
    → detach later cfg.self_pid (at_start w.lock) ≡ (ok tt, v)
    → (v.lock ≡ holds (record no_lock { policy_hash = cfg.policy_hash }))
      × ((att.proxy_pid ≡ 0)
          ⊎ (later.alive att.proxy_pid ≡ false)
          ⊎ In (terminated att.proxy_pid) v.done)
attach-detach l sys later cfg att w v h alone joined left =
    let (start, s, same) = attach-recorded l sys cfg att w h joined in
    let next =
      next_state sys cfg (prune_dead sys.alive sys.start_time (parsed l).agents) att start in
    let ((lock, _, _), stopped) =
      after_last later next cfg.self_pid v
        (subst (λ c. detach later cfg.self_pid (at_start c) ≡ (ok tt, v)) same left)
        (stays sys cfg (parsed l).agents start alone) in
    (
      lock,
      elim stopped [
        | inl gone ↦ elim (dead_of att.proxy_pid (later.alive att.proxy_pid) gone) [
          | inl z ↦ inl z
          | inr d ↦ inr (inl d)
        ]
        | inr sent ↦ inr (inr sent)
      ],
    )
