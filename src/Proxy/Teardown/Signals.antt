-- ===== src/Proxy/Teardown/Signals.antt =====
-- Whom the teardown operations signal, and what they keep (internal/proxy/lifecycle.go).
use agent_creance.Prelude.{
  ℕ, Bool, not, ◌&&◌, ◌||◌, List, [], ◌∷◌, ◌==◌, ◌≡◌, refl, sym, subst, ◌⊎◌, inl, inr, In,
  Bool-cases,
}
use agent_creance.Proxy.Lock.{
  AgentRef, LockState, no_lock, Contents, parsed, prune_dead, remove_ref,
}
use agent_creance.Proxy.Program.{
  acquire_lock, stop_mitmproxy, purge_overlay, Effect, spawned_proxy, spawned_broker,
  resolved_secrets, warned, terminated, removed_socket, purged_overlay, System, World, Outcome, ok,
  err, M, ◌>>=◌, ◌>>◌, pure, fail, emit, require, when, read_lock_file, write_lock_file,
}
use agent_creance.Proxy.Program.Triple.{Sat, Keeps, bind-Keeps, require-Keeps, when-Keeps, if-Keeps}
use agent_creance.Proxy.Program.Opened.{opened, opened_dir}
use agent_creance.Proxy.Ledger.{at_start}
use agent_creance.Proxy.Broker.{stop_broker}
use agent_creance.Proxy.Attach.{proxy_up}
use agent_creance.Proxy.Teardown.{
  signal, recorded_alive, clear_project, cleared, last_out, detach_to, detach, no_agents,
  clean_orphan_locked, clean_orphan, clean_proxy, clean_all, refusal, clean_locked, clean,
  nothing_cleaned, proxy_cleaned,
}

-- What a teardown of `cur` may do: signal the recorded proxy or broker, or act on no process.
abbrev pub IsRecorded : LockState → Effect → Type 0
IsRecorded cur (terminated pid) = (pid ≡ cur.proxy_pid) ⊎ (pid ≡ cur.broker_pid)
IsRecorded cur (spawned_proxy pid port b) = ⊥
IsRecorded cur (spawned_broker pid) = ⊥
IsRecorded cur resolved_secrets = ⊥
IsRecorded cur removed_socket = Unit
IsRecorded cur purged_overlay = Unit
IsRecorded cur (warned x) = ⊥

-- A property that these effects keep is kept by a whole teardown where its writes keep it.
module _ (sys : System) (cur : LockState) (P : World → Type 0)
    (emits : (e : Effect) → IsRecorded cur e → Keeps P (emit e)) where
  signal-Keeps : Keeps P (signal sys cur.proxy_pid)
  unfolding signal
  signal-Keeps =
      if-Keeps P (sys.signal_ok cur.proxy_pid) (emit (terminated cur.proxy_pid))
        (fail stop_mitmproxy) (λ _. emits (terminated cur.proxy_pid) (inl refl)) (λ _ w p. p)

  stop_broker-Keeps : Keeps P (stop_broker cur.broker_pid)
  unfolding stop_broker
  stop_broker-Keeps =
      bind-Keeps P (when (not (cur.broker_pid == 0)) (emit (terminated cur.broker_pid)))
        (λ _. emit removed_socket)
        (when-Keeps P (not (cur.broker_pid == 0)) (emit (terminated cur.broker_pid))
          (λ _. emits (terminated cur.broker_pid) (inr refl)))
        (λ _. emits removed_socket tt)

  clear_project-Keeps :
      (next : LockState) → Keeps P (write_lock_file sys next) → Keeps P (clear_project sys cur next)
  unfolding clear_project
  clear_project-Keeps next k =
      bind-Keeps P (stop_broker cur.broker_pid)
        (λ _.
          require sys.purge_ok purge_overlay >> (emit purged_overlay >> write_lock_file sys next))
        stop_broker-Keeps
        (λ _.
          bind-Keeps P (require sys.purge_ok purge_overlay)
            (λ _. emit purged_overlay >> write_lock_file sys next)
            (require-Keeps P sys.purge_ok purge_overlay)
            (λ _.
              bind-Keeps P (emit purged_overlay) (λ _. write_lock_file sys next)
                (emits purged_overlay tt) (λ _. k)))

  last_out-Keeps : Keeps P (write_lock_file sys (cleared cur)) → Keeps P (last_out sys cur)
  unfolding last_out
  last_out-Keeps k =
      bind-Keeps P (when (recorded_alive sys cur) (signal sys cur.proxy_pid))
        (λ _. clear_project sys cur (cleared cur))
        (when-Keeps P (recorded_alive sys cur) (signal sys cur.proxy_pid) (λ _. signal-Keeps))
        (λ _. clear_project-Keeps (cleared cur) k)

  pub detach_to-Keeps :
      (refs : List AgentRef)
      → Keeps P (write_lock_file sys (cleared cur))
      → Keeps P (write_lock_file sys (record cur { agents = refs }))
      → Keeps P (detach_to sys cur refs)
  unfolding detach_to
  detach_to-Keeps [] k n w p = last_out-Keeps k w p
  detach_to-Keeps (r ∷ refs) k n w p = n w p

  pub clean_orphan_locked-Keeps :
      Keeps P (write_lock_file sys (cleared cur)) → Keeps P (clean_orphan_locked sys cur)
  unfolding clean_orphan_locked
  clean_orphan_locked-Keeps k =
      if-Keeps P
        (not (proxy_up sys cur) || not (no_agents (prune_dead sys.alive sys.start_time cur.agents)))
        (pure nothing_cleaned)
        (signal sys cur.proxy_pid
          >> (clear_project sys cur (cleared cur) >> pure (proxy_cleaned cur.proxy_pid)))
        (λ _ w p. p)
        (λ _.
          bind-Keeps P (signal sys cur.proxy_pid)
            (λ _. clear_project sys cur (cleared cur) >> pure (proxy_cleaned cur.proxy_pid))
            signal-Keeps
            (λ _.
              bind-Keeps P (clear_project sys cur (cleared cur))
                (λ _. pure (proxy_cleaned cur.proxy_pid)) (clear_project-Keeps (cleared cur) k)
                (λ _ w p. p)))

  clean_proxy-Keeps : Keeps P (clean_proxy sys cur)
  unfolding clean_proxy
  clean_proxy-Keeps =
      if-Keeps P (recorded_alive sys cur)
        (signal sys cur.proxy_pid >> pure (proxy_cleaned cur.proxy_pid)) (pure nothing_cleaned)
        (λ _.
          bind-Keeps P (signal sys cur.proxy_pid) (λ _. pure (proxy_cleaned cur.proxy_pid))
            signal-Keeps (λ _ w p. p))
        (λ _ w p. p)

  clean_all-Keeps : Keeps P (write_lock_file sys no_lock) → Keeps P (clean_all sys cur)
  unfolding clean_all
  clean_all-Keeps k =
      bind-Keeps P (clean_proxy sys cur) (λ res. clear_project sys cur no_lock >> pure res)
        clean_proxy-Keeps
        (λ res.
          bind-Keeps P (clear_project sys cur no_lock) (λ _. pure res)
            (clear_project-Keeps no_lock k) (λ _ w p. p))

  pub clean_locked-Keeps :
      (force : Bool) → Keeps P (write_lock_file sys no_lock) → Keeps P (clean_locked sys force cur)
  unfolding clean_locked
  clean_locked-Keeps force k =
      if-Keeps P (not (no_agents (prune_dead sys.alive sys.start_time cur.agents)) && not force)
        (pure (refusal sys cur)) (clean_all sys cur) (λ _ w p. p) (λ _. clean_all-Keeps k)

-- Only the recorded proxy and the recorded broker have been signalled.
abbrev pub OnlyRecorded : LockState → World → Type 0
OnlyRecorded cur w =
    (pid : ℕ) → In (terminated pid) w.done → (pid ≡ cur.proxy_pid) ⊎ (pid ≡ cur.broker_pid)

emit-OnlyRecorded :
    (cur : LockState) (e : Effect) → IsRecorded cur e → Keeps (OnlyRecorded cur) (emit e)
emit-OnlyRecorded cur e r w only pid (inl h) = subst (IsRecorded cur) (sym h) r
emit-OnlyRecorded cur e r w only pid (inr m) = only pid m

write-OnlyRecorded :
    (sys : System) (cur s : LockState) → Keeps (OnlyRecorded cur) (write_lock_file sys s)
unfolding write_lock_file
write-OnlyRecorded sys cur s w only = elim (Bool-cases sys.write_ok) [
  | inl e ↦ rw e only
  | inr e ↦ rw e only
]

-- No teardown signals a process but the proxy and the broker that the lock records, whatever the
-- result of `Detach`, `CleanOrphan` or `Clean`, forced or not.
pub teardown-terminated :
    (l : Contents) (sys : System) (self_pid : ℕ) (force : Bool)
    → OnlyRecorded (parsed l) (detach sys self_pid (at_start l)).1
      × OnlyRecorded (parsed l) (clean_orphan sys (at_start l)).1
      × OnlyRecorded (parsed l) (clean sys force (at_start l)).1
unfolding detach clean_orphan clean
teardown-terminated l sys self_pid force = (
  from (λ cur. detach_to sys cur (remove_ref cur.agents self_pid))
      (detach_to-Keeps sys (parsed l) (OnlyRecorded (parsed l)) emits
        (remove_ref (parsed l).agents self_pid) (writes (cleared (parsed l)))
        (writes (record (parsed l) { agents = remove_ref (parsed l).agents self_pid }))),
  from (clean_orphan_locked sys) (
      clean_orphan_locked-Keeps sys (parsed l) (OnlyRecorded (parsed l)) emits
        (writes (cleared (parsed l)))),
  elim (opened_dir sys (clean_locked sys force) (at_start l)) [
    | inl e ↦ rw e (
        result (clean_locked sys force (parsed l)) (
          clean_locked-Keeps sys (parsed l) (OnlyRecorded (parsed l)) emits force (writes no_lock)))
    | inr (e, same) ↦ rw same (λ pid x. absurd x)
  ],
)
  where
    emits : (e : Effect) → IsRecorded (parsed l) e → Keeps (OnlyRecorded (parsed l)) (emit e)
    emits = emit-OnlyRecorded (parsed l)

    writes : (s : LockState) → Keeps (OnlyRecorded (parsed l)) (write_lock_file sys s)
    writes = write-OnlyRecorded sys (parsed l)

    none_yet : OnlyRecorded (parsed l) (at_start l)
    none_yet pid x = absurd x

    of_sat :
        {A : Type 0} (r : Outcome A × World)
        → Sat {A = A} (λ _. OnlyRecorded (parsed l)) (λ _. OnlyRecorded (parsed l)) r
        → OnlyRecorded (parsed l) r.1
    of_sat (ok a, w) h = h
    of_sat (err e, w) h = h

    result :
        {A : Type 0} (m : M A)
        → Keeps (OnlyRecorded (parsed l)) m
        → OnlyRecorded (parsed l) (m (at_start l)).1
    result m k = of_sat (m (at_start l)) (k (at_start l) none_yet)

    from :
        {A : Type 0} (f : LockState → M A)
        → Keeps (OnlyRecorded (parsed l)) (f (parsed l))
        → OnlyRecorded
            (parsed l)
            ((require sys.acquire_ok acquire_lock >> (read_lock_file sys >>= f)) (at_start l)).1
    from f k = elim (opened sys f (at_start l)) [
      | inl e ↦ rw e (result (f (parsed l)) k)
      | inr (e, same) ↦ rw same none_yet
    ]
