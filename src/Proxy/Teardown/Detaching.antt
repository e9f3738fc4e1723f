-- ===== src/Proxy/Teardown/Detaching.antt =====
-- `Detach` on every branch (internal/proxy/lifecycle.go).
use agent_creance.Prelude.{ℕ, List, [], ◌∷◌, ◌≡◌, refl, sym, subst, ◌⊎◌, inl, inr, Bool-cases}
use agent_creance.Proxy.Lock.{AgentRef, LockState, Contents, holds, parsed, remove_ref}
use agent_creance.Proxy.Program.{Failure, System, World, ok, err, M, write_lock_file}
use agent_creance.Proxy.Program.Triple.{Sat, Sat-weaken}
use agent_creance.Proxy.Program.Opened.{opened}
use agent_creance.Proxy.Ledger.{at_start}
use agent_creance.Proxy.Teardown.{last_out, detach_to, detach, cleared}
use agent_creance.Proxy.Teardown.Clearing.{TornDown, Refused, when-TornDown}

module _ (sys : System) (cur : LockState) where
  -- The others stay as they were; after the last one everything is torn down.
  abbrev pub Detached : List AgentRef → World → Type 0
  Detached [] v = TornDown sys cur (cleared cur) v
  Detached (r ∷ refs) v = (v.lock ≡ holds (record cur { agents = r ∷ refs })) × (v.done ≡ [])

  detach_to-Detached :
      (refs : List AgentRef) (l : Contents)
      → Sat (λ _. Detached refs) (λ _ _. Refused sys cur) (detach_to sys cur refs (at_start l))
  unfolding detach_to last_out write_lock_file
  detach_to-Detached [] l = when-TornDown sys cur (cleared cur) (at_start l)
  detach_to-Detached (r ∷ refs) l = elim (Bool-cases sys.write_ok) [
    | inl e ↦ rw e (refl, refl)
    | inr e ↦ rw e (inr (inr refl))
  ]

-- A successful detach takes this invocation out of the agents. Where others remain it writes
-- nothing else and touches no process; where none does, the recorded proxy is sent SIGTERM if it
-- lives, the broker too, the session overlay is gone and only the policy hash stays in the lock.
pub detach-Detached :
    (l : Contents) (sys : System) (self_pid : ℕ) (w : World)
    → detach sys self_pid (at_start l) ≡ (ok tt, w)
    → Detached sys (parsed l) (remove_ref (parsed l).agents self_pid) w
unfolding detach
detach-Detached l sys self_pid w e =
    subst (Sat (λ _. Detached sys (parsed l) left) (λ _ _. Unit)) e
      (by_opened (opened sys go (at_start l)))
  where
    left : List AgentRef
    left = remove_ref (parsed l).agents self_pid

    go : LockState → M (Unit {0})
    go cur = detach_to sys cur (remove_ref cur.agents self_pid)

    by_opened :
        (detach sys self_pid (at_start l) ≡ go (parsed l) (at_start l))
          ⊎ ((f : Failure) × (detach sys self_pid (at_start l) ≡ (err f, at_start l)))
        → Sat (λ _. Detached sys (parsed l) left) (λ _ _. Unit) (detach sys self_pid (at_start l))
    by_opened (inl same) =
        subst (Sat (λ _. Detached sys (parsed l) left) (λ _ _. Unit)) (sym same) (
          Sat-weaken (λ _. Detached sys (parsed l) left) (λ _. Detached sys (parsed l) left)
            (λ _ _. Refused sys (parsed l)) (λ _ _. Unit) (go (parsed l) (at_start l)) (λ _ _ h. h)
            (λ _ _ _. tt) (detach_to-Detached sys (parsed l) left l))
    by_opened (inr (f, same)) =
        subst (Sat (λ _. Detached sys (parsed l) left) (λ _ _. Unit)) (sym same) tt
