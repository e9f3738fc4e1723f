-- ===== src/Tests/ProxyWitnesses.antt =====
-- The lifecycle's theorems at inputs that meet their hypotheses.
use agent_creance.Prelude.{
  false, ℕ, true, false, [], ◌∷◌, some, ◌≡◌, ◌≢◌, refl, ◌⊎◌, inl, inr, ◌↔◌, In,
}
use agent_creance.Proxy.Lock.{AgentRef, no_lock, blank, holds, parsed, prune_dead}
use agent_creance.Proxy.Lock.Agents.{IsOriginal}
use agent_creance.Proxy.Program.{own_start_time, proxy_exited, ok, err, terminated}
use agent_creance.Proxy.Program.Triple.{Sat}
use agent_creance.Proxy.Ledger.{Tidy, at_start, Spawned}
use agent_creance.Proxy.Attach.{attach}
use agent_creance.Proxy.Attach.Joining.{attach-failed, attach-terminated}
use agent_creance.Proxy.Attach.Members.{self_ref, attach-agents}
use agent_creance.Proxy.Attach.Abandon.{attach_abandons}
use agent_creance.Proxy.Teardown.{clean_orphan, nothing_cleaned}
use agent_creance.Proxy.Teardown.Clearing.{Refused}
use agent_creance.Proxy.Teardown.Orphans.{OrphanGone, inspect-clean_orphan}
use agent_creance.Proxy.Reach.{WellFormed, attaches, fresh, next, Reach-WellFormed}
use agent_creance.Proxy.Session.{attach-detach}
use agent_creance.Tests.ProxyRuns.{
  config, calm, silent, unreadable, first_attachment, orphaned, cold_world, attach-cold,
  silent_world, attach-silent, abandoned_world, start_proxy-unreadable, left_world, detach-cold,
  orphan_report, inspect-orphaned,
}

broker_pid_set : calm.spawn_with_secret ≢ some 0
broker_pid_set h = cc

proxy_pid_set : calm.spawn ≢ some 0
proxy_pid_set h = cc

attach-agents_example :
    (start : ℕ) × (calm.start_time 7 ≡ some start)
    × ((r : AgentRef)
        → In r (parsed cold_world.lock).agents
          ↔ ((In r [] × IsOriginal calm.alive calm.start_time r) ⊎ (r ≡ self_ref config start)))
attach-agents_example =
    attach-agents blank calm config first_attachment cold_world broker_pid_set attach-cold

attach-failed_example :
    (silent_world.lock ≡ blank)
    × ((pid : ℕ) → Spawned pid silent_world.done → In (terminated pid) silent_world.done)
attach-failed_example =
    attach-failed blank silent config proxy_exited silent_world broker_pid_set attach-silent
      (λ h. cc) (λ h. cc)

stopped_50 : In (terminated 50) (attach silent config (at_start blank)).1.done
stopped_50 = rw attach-silent (inr (inr (inl refl)))

attach-terminated_example : Spawned 50 (attach silent config (at_start blank)).1.done
attach-terminated_example = attach-terminated blank silent config 50 broker_pid_set stopped_50

attach_abandons_example :
    (attach unreadable config (at_start blank) ≡ (err own_start_time, abandoned_world))
    × (abandoned_world.lock ≡ blank)
    × Tidy abandoned_world.done (50 ∷ 51 ∷ [])
unfolding prune_dead
attach_abandons_example =
    attach_abandons blank unreadable config first_attachment abandoned_world broker_pid_set refl
      refl refl refl start_proxy-unreadable refl

inspect-clean_orphan_example :
    ((true ≡ false)
      × (clean_orphan calm (at_start orphaned) ≡ (ok nothing_cleaned, at_start orphaned)))
    ⊎ ((orphan_report.orphan ≡ true)
        × Sat
            (OrphanGone calm (parsed orphaned))
            (λ _ _. Refused calm (parsed orphaned))
            (clean_orphan calm (at_start orphaned)))
inspect-clean_orphan_example =
    inspect-clean_orphan orphaned calm orphan_report (at_start orphaned) inspect-orphaned

Reach-WellFormed_example : WellFormed (parsed (attach calm config (at_start blank)).1.lock)
Reach-WellFormed_example =
    Reach-WellFormed (attach calm config (at_start blank)).1.lock
      (next fresh (attaches blank calm config (inl refl) broker_pid_set proxy_pid_set))

nobody : (r : AgentRef) → In r [] → IsOriginal calm.alive calm.start_time r → r.pid ≡ 7
nobody r h o = absurd h

attach-detach_example :
    (left_world.lock ≡ holds (record no_lock { policy_hash = config.policy_hash }))
    × ((first_attachment.proxy_pid ≡ 0)
        ⊎ (calm.alive 50 ≡ false)
        ⊎ In (terminated 50) left_world.done)
attach-detach_example =
    attach-detach blank calm calm config first_attachment cold_world left_world broker_pid_set
      nobody attach-cold detach-cold
