-- ===== src/Proxy/Attach/Members.antt =====
-- The agents that the lock names after `Attach` (internal/proxy/lifecycle.go).
use agent_creance.Prelude.{ℕ, List, some, ◌≡◌, ◌≢◌, sym, subst, ◌⊎◌, inl, inr, ◌↔◌, In}
use agent_creance.Proxy.Lock.{AgentRef, Contents, parsed, prune_dead, add_ref}
use agent_creance.Proxy.Lock.Agents.{
  IsOriginal, In-prune_dead, In-add_ref_old, In-add_ref_new, In-add_ref_cases,
}
use agent_creance.Proxy.Program.{System, World, ok}
use agent_creance.Proxy.Ledger.{at_start}
use agent_creance.Proxy.Broker.{StartConfig}
use agent_creance.Proxy.Attach.{Attachment, attach}
use agent_creance.Proxy.Attach.Joining.{attach-recorded}

abbrev pub self_ref : StartConfig → ℕ → AgentRef
self_ref cfg start = record { pid = cfg.self_pid; start_time = start }

same_ref :
    (sys : System) (cfg : StartConfig) (start : ℕ) (r : AgentRef)
    → sys.start_time cfg.self_pid ≡ some start
    → r.pid ≡ cfg.self_pid
    → sys.start_time r.pid ≡ some r.start_time
    → r ≡ self_ref cfg start
same_ref sys cfg start r h p o = both p started
  where
    started : r.start_time ≡ start
    started = cc

    both : {a b : ℕ} → r.pid ≡ a → r.start_time ≡ b → r ≡ record { pid = a; start_time = b }
    both e f = cc

In-next :
    (sys : System) (cfg : StartConfig) (refs : List AgentRef) (start : ℕ) (r : AgentRef)
    → sys.start_time cfg.self_pid ≡ some start
    → In r (add_ref (prune_dead sys.alive sys.start_time refs) (self_ref cfg start))
      ↔ ((In r refs × IsOriginal sys.alive sys.start_time r) ⊎ (r ≡ self_ref cfg start))
In-next sys cfg refs start r h = (
  λ m. elim (In-add_ref_cases live self r m) [
    | inl old ↦ inl ((In-prune_dead _ _ refs r).0 old)
    | inr e ↦ inr e
  ],
  elim [
    | inl old ↦ In-add_ref_old live self r ((In-prune_dead _ _ refs r).1 old)
    | inr e ↦ subst (λ x. In x (add_ref live self)) (sym e) self_in
  ],
)
  where
    live : List AgentRef
    live = prune_dead sys.alive sys.start_time refs

    self : AgentRef
    self = self_ref cfg start

    self_in : In self (add_ref live self)
    self_in =
        let (s, m, p) = In-add_ref_new live self in
        elim (In-add_ref_cases live self s m) [
          | inl old ↦
              subst (λ x. In x (add_ref live self))
                (same_ref sys cfg start s h p ((In-prune_dead _ _ refs s).0 old).1.1) m
          | inr e ↦ subst (λ x. In x (add_ref live self)) e m
        ]

-- After a successful attach the lock names exactly the agents that were attached before and are
-- still the original live processes, and this invocation with its start time, where no spawned
-- broker has pid 0.
pub attach-agents :
    (l : Contents) (sys : System) (cfg : StartConfig) (att : Attachment) (w : World)
    → sys.spawn_with_secret ≢ some 0
    → attach sys cfg (at_start l) ≡ (ok att, w)
    → (start : ℕ) × (sys.start_time cfg.self_pid ≡ some start)
      × ((r : AgentRef)
          → In r (parsed w.lock).agents ↔ (
              (In r (parsed l).agents × IsOriginal sys.alive sys.start_time r)
              ⊎ (r ≡ self_ref cfg start)))
attach-agents l sys cfg att w h e =
    let (start, s, same) = attach-recorded l sys cfg att w h e in
    (start, s, λ r. rw same (In-next sys cfg (parsed l).agents start r s))
