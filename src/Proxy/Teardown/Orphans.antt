-- ===== src/Proxy/Teardown/Orphans.antt =====
-- `CleanOrphan` against what `Inspect` reports (internal/proxy/lifecycle.go).
use agent_creance.Prelude.{
  ◌⊎◌, Bool, true, false, not, ◌&&◌, ◌||◌, if◌then◌else◌, ◌==◌, ◌≡◌, refl, sym, ◌∙◌, ap, subst, inl,
  inr, Bool-cases,
}
use agent_creance.Proxy.Lock.{LockState, Contents, parsed, prune_dead}
use agent_creance.Proxy.Program.{
  acquire_lock, read_lock, System, World, Outcome, ok, err, M, ◌>>=◌, ◌>>◌, pure, require,
  read_lock_file,
}
use agent_creance.Proxy.Program.Triple.{Sat, Sat-pure, bind_assoc}
use agent_creance.Proxy.Ledger.{at_start}
use agent_creance.Proxy.Attach.{proxy_up}
use agent_creance.Proxy.Teardown.{
  signal, clear_project, cleared, no_agents, Diagnosis, no_diagnosis, diagnose, inspect,
  CleanResult, nothing_cleaned, proxy_cleaned, clean_orphan_locked, clean_orphan,
}
use agent_creance.Proxy.Teardown.Clearing.{TornDown, Refused, signal-TornDown}

-- The orphan test of the two operations: nothing recorded is no orphan either.
diagnose-orphan :
    (sys : System) (cur : LockState)
    → (diagnose sys cur).orphan
      ≡ (proxy_up sys cur && no_agents (prune_dead sys.alive sys.start_time cur.agents))
unfolding diagnose no_diagnosis
diagnose-orphan sys cur = elim (Bool-cases (cur.proxy_pid == 0)) [
  | inr e ↦ rw e refl
  | inl e ↦ elim (Bool-cases (no_agents cur.agents)) [
    | inl f ↦ rw (e, f) refl
    | inr f ↦ rw (e, f) refl
  ]
]

diagnose-proxy_pid :
    (sys : System) (cur : LockState)
    → (diagnose sys cur).orphan ≡ true
    → (diagnose sys cur).proxy_pid ≡ cur.proxy_pid
unfolding diagnose no_diagnosis
diagnose-proxy_pid sys cur = elim (Bool-cases (cur.proxy_pid == 0)) [
  | inr e ↦ rw e (λ _. refl)
  | inl e ↦ elim (Bool-cases (no_agents cur.agents)) [
    | inl f ↦ rw (e, f) (λ h. cc)
    | inr f ↦ rw (e, f) (λ _. refl)
  ]
]

neither : (a b : Bool) → (not a || not b) ≡ not (a && b)
neither true true = refl
neither true false = refl
neither false b = refl

-- What `CleanOrphan` leaves of an orphan.
abbrev pub OrphanGone : System → LockState → CleanResult → World → Type 0
OrphanGone sys cur res v = (res ≡ proxy_cleaned cur.proxy_pid) × TornDown sys cur (cleared cur) v

module _ (sys : System) (cur : LockState) where
  is_orphan : Bool
  is_orphan = proxy_up sys cur && no_agents (prune_dead sys.alive sys.start_time cur.agents)

  no_orphan :
      (w : World) → is_orphan ≡ false → clean_orphan_locked sys cur w ≡ (ok nothing_cleaned, w)
  unfolding clean_orphan_locked is_orphan
  no_orphan w h =
      rw
        (neither (proxy_up sys cur) (no_agents (prune_dead sys.alive sys.start_time cur.agents)), h)
        refl

  an_orphan :
      (w : World)
      → is_orphan ≡ true
      → Sat (OrphanGone sys cur) (λ _ _. Refused sys cur) (clean_orphan_locked sys cur w)
  unfolding clean_orphan_locked is_orphan
  an_orphan w h =
      rw
        (neither (proxy_up sys cur) (no_agents (prune_dead sys.alive sys.start_time cur.agents)), h)
        (subst (Sat (OrphanGone sys cur) (λ _ _. Refused sys cur))
          (bind_assoc (signal sys cur.proxy_pid) (λ _. clear_project sys cur (cleared cur))
            (λ _. pure (proxy_cleaned cur.proxy_pid)) w)
          (Sat-pure (λ _. TornDown sys cur (cleared cur)) (OrphanGone sys cur)
            (λ _ _. Refused sys cur)
            ((signal sys cur.proxy_pid >> clear_project sys cur (cleared cur)) w)
            (proxy_cleaned cur.proxy_pid) (λ _ v t. (refl, t))
            (signal-TornDown sys cur (cleared cur) w)))

-- What `Inspect` calls an orphan is what `CleanOrphan` tears down. Under the answers that a
-- successful inspection had, a project that it does not report as an orphan is left as it is, with
-- nothing reported as cleaned. Of an orphan, the proxy is sent SIGTERM and reported, the broker
-- too, the session overlay is gone and only the policy hash stays in the lock, unless the system
-- refuses the signal, the removal of the overlay or the write.
pub inspect-clean_orphan :
    (l : Contents) (sys : System) (d : Diagnosis) (w : World)
    → inspect sys (at_start l) ≡ (ok d, w)
    → ((d.orphan ≡ false) × (clean_orphan sys (at_start l) ≡ (ok nothing_cleaned, at_start l)))
      ⊎ ((d.orphan ≡ true)
          × Sat
              (OrphanGone sys (parsed l))
              (λ _ _. Refused sys (parsed l))
              (clean_orphan sys (at_start l)))
unfolding inspect clean_orphan read_lock_file is_orphan
inspect-clean_orphan l sys d w = by_answers sys.acquire_ok sys.read_ok
  where
    run : {A : Type 0} → Bool → Bool → (LockState → M A) → Outcome A × World
    run a c f =
        (require a acquire_lock
            >> ((λ x. if c then (ok (parsed x.lock), x) else (err read_lock, x)) >>= f))
          (at_start l)

    verdict : d ≡ diagnose sys (parsed l) → d.orphan ≡ is_orphan sys (parsed l)
    verdict e = ap (λ (x : Diagnosis). x.orphan) e ∙ diagnose-orphan sys (parsed l)

    by_answers :
        (a c : Bool)
        → run a c (λ cur. pure (diagnose sys cur)) ≡ (ok d, w)
        → ((d.orphan ≡ false)
            × (run a c (clean_orphan_locked sys) ≡ (ok nothing_cleaned, at_start l)))
          ⊎ ((d.orphan ≡ true)
              × Sat
                  (OrphanGone sys (parsed l))
                  (λ _ _. Refused sys (parsed l))
                  (run a c (clean_orphan_locked sys)))
    by_answers false c e = absurd (never (ap (λ r. r.0) e))
      where
        never : err acquire_lock ≡ ok d → ⊥
        never h = cc
    by_answers true false e = absurd (never (ap (λ r. r.0) e))
      where
        never : err read_lock ≡ ok d → ⊥
        never h = cc
    by_answers true true e = elim (Bool-cases d.orphan) [
      | inr h ↦ inl (h, no_orphan sys (parsed l) (at_start l) (sym (verdict found) ∙ h))
      | inl h ↦ inr (h, an_orphan sys (parsed l) (at_start l) (sym (verdict found) ∙ h))
    ]
      where
        inject : ok (diagnose sys (parsed l)) ≡ ok d → d ≡ diagnose sys (parsed l)
        inject h = cc

        found : d ≡ diagnose sys (parsed l)
        found = inject (ap (λ r. r.0) e)
