-- ===== src/Proxy/Reach.antt =====
-- The lock files that any sequence of lifecycle operations can leave (internal/proxy/lifecycle.go).
use agent_creance.Prelude.{
  ℕ, Bool, true, false, [], ◌&&◌, not, if◌then◌else◌, some, ◌==◌, ◌≡◌, ◌≢◌, sym, ◌∙◌, ap, ◌⊎◌, inl,
  inr, In, arith,
}
use agent_creance.Proxy.Lock.{
  AgentRef, LockState, no_lock, Contents, blank, corrupt, holds, parsed, remove_ref, prune_dead,
}
use agent_creance.Proxy.Lock.Agents.{
  Distinct, Distinct-prune_dead, Distinct-add_ref, Distinct-remove_ref, In-remove_ref,
}
use agent_creance.Proxy.Program.{
  Effect, System, World, Outcome, ok, err, M, ◌>>=◌, ◌>>◌, emit, require, acquire_lock, write_lock,
  read_lock_file, write_lock_file,
}
use agent_creance.Proxy.Program.Triple.{Sat, Keeps}
use agent_creance.Proxy.Program.Opened.{opened, opened_dir}
use agent_creance.Proxy.Ledger.{at_start}
use agent_creance.Proxy.Broker.{StartConfig}
use agent_creance.Proxy.Attach.{Attachment, attach}
use agent_creance.Proxy.Attach.Joining.{Joined, Failed, attach-Joined}
use agent_creance.Proxy.Attach.Answers.{IsUp, attach-Sat}
use agent_creance.Proxy.Teardown.{
  cleared, detach_to, detach, clean_orphan_locked, clean_orphan, clean_locked, clean,
}
use agent_creance.Proxy.Teardown.Signals.{
  IsRecorded, detach_to-Keeps, clean_orphan_locked-Keeps, clean_locked-Keeps,
}

-- No two agents share a process id, and agents are attached to a proxy only.
abbrev pub WellFormed : LockState → Type 0
WellFormed s = Distinct s.agents × ((r : AgentRef) → In r s.agents → s.proxy_pid ≢ 0)

-- What a failed write can leave: the file as it was, or nothing that parses.
abbrev pub IsTorn : Contents → Contents → Type 0
IsTorn l torn = (torn ≡ l) ⊎ (torn ≡ blank) ⊎ (torn ≡ corrupt)

-- One operation by any process, with whatever the system answers. A process that was spawned has a
-- process id that is not 0.
pub data Step : Contents → Contents → Type 0 where
  attaches :
      (l : Contents) (sys : System) (cfg : StartConfig)
      → IsTorn l sys.torn
      → sys.spawn_with_secret ≢ some 0
      → sys.spawn ≢ some 0
      → Step l (attach sys cfg (at_start l)).1.lock
  detaches :
      (l : Contents) (sys : System) (self_pid : ℕ)
      → IsTorn l sys.torn
      → Step l (detach sys self_pid (at_start l)).1.lock
  cleans_orphan :
      (l : Contents) (sys : System)
      → IsTorn l sys.torn
      → Step l (clean_orphan sys (at_start l)).1.lock
  cleans :
      (l : Contents) (sys : System) (force : Bool)
      → IsTorn l sys.torn
      → Step l (clean sys force (at_start l)).1.lock

pub data Reach : Contents → Type 0 where
  fresh : Reach blank
  next : {l m : Contents} → Reach l → Step l m → Reach m

-- The lock of the world is well formed.
abbrev Good : World → Type 0
Good w = WellFormed (parsed w.lock)

no_lock-WellFormed : (s : LockState) → s.agents ≡ [] → WellFormed s
no_lock-WellFormed s e = rw e (tt, λ r h. absurd h)

torn-WellFormed :
    (l torn : Contents) → IsTorn l torn → WellFormed (parsed l) → WellFormed (parsed torn)
torn-WellFormed l torn (inl e) h = rw e h
torn-WellFormed l torn (inr (inl e)) h = rw e (tt, λ r m. absurd m)
torn-WellFormed l torn (inr (inr e)) h = rw e (tt, λ r m. absurd m)

writes-Good :
    (sys : System) (s : LockState)
    → WellFormed (parsed sys.torn)
    → WellFormed s
    → Keeps Good (write_lock_file sys s)
unfolding write_lock_file
writes-Good sys s t h w g = by_answer sys.write_ok
  where
    by_answer :
        (b : Bool)
        → Sat {A = Unit {0}}
            (λ _. Good)
            (λ _. Good)
            (if b
              then (ok tt, record w { lock = holds s })
              else (err write_lock, record w { lock = sys.torn }))
    by_answer true = h
    by_answer false = t

removed-WellFormed :
    (s : LockState) (pid : ℕ)
    → WellFormed s
    → WellFormed (record s { agents = remove_ref s.agents pid })
removed-WellFormed s pid (d, up) =
    (Distinct-remove_ref s.agents pid d, λ r h. up r ((In-remove_ref s.agents pid r).0 h).0)

emits-Good : (cur : LockState) (e : Effect) → IsRecorded cur e → Keeps Good (emit e)
emits-Good cur e r w g = g

of_sat : {A : Type 0} (r : Outcome A × World) → Sat {A = A} (λ _. Good) (λ _. Good) r → Good r.1
of_sat (ok a, w) h = h
of_sat (err e, w) h = h

up_pid : (pid : ℕ) (alive answers : Bool) → (not (pid == 0) && alive && answers) ≡ true → pid ≢ 0
up_pid pid alive answers h z = ground arith

module _ (l : Contents) (sys : System) (t : IsTorn l sys.torn) (h : WellFormed (parsed l)) where
  torn_good : WellFormed (parsed sys.torn)
  torn_good = torn-WellFormed l sys.torn t h

  begun :
      {A : Type 0} (f : LockState → M A)
      → Keeps Good (f (parsed l))
      → Good ((require sys.acquire_ok acquire_lock >> (read_lock_file sys >>= f)) (at_start l)).1
  begun f k = elim (opened sys f (at_start l)) [
    | inl e ↦ rw e (of_sat (f (parsed l) (at_start l)) (k (at_start l) h))
    | inr (e, same) ↦ rw same h
  ]

  detach-Good : (pid : ℕ) → Good (detach sys pid (at_start l)).1
  unfolding detach
  detach-Good pid =
      begun (λ cur. detach_to sys cur (remove_ref cur.agents pid))
        (detach_to-Keeps sys (parsed l) Good (emits-Good (parsed l))
          (remove_ref (parsed l).agents pid)
          (writes-Good sys (cleared (parsed l)) torn_good (tt, λ r m. absurd m))
          (writes-Good sys (record (parsed l) { agents = remove_ref (parsed l).agents pid })
            torn_good (removed-WellFormed (parsed l) pid h)))

  clean_orphan-Good : Good (clean_orphan sys (at_start l)).1
  unfolding clean_orphan
  clean_orphan-Good = begun (clean_orphan_locked sys) (
      clean_orphan_locked-Keeps sys (parsed l) Good (emits-Good (parsed l))
        (writes-Good sys (cleared (parsed l)) torn_good (tt, λ r m. absurd m)))

  clean-Good : (force : Bool) → Good (clean sys force (at_start l)).1
  unfolding clean
  clean-Good force = elim (opened_dir sys (clean_locked sys force) (at_start l)) [
    | inl e ↦ rw e (
        of_sat (clean_locked sys force (parsed l) (at_start l)) (
          clean_locked-Keeps sys (parsed l) Good (emits-Good (parsed l)) force
            (writes-Good sys no_lock torn_good (tt, λ r m. absurd m)) (at_start l) h))
    | inr (e, same) ↦ rw same h
  ]

  attach-Good :
      (cfg : StartConfig)
      → sys.spawn_with_secret ≢ some 0
      → sys.spawn ≢ some 0
      → Good (attach sys cfg (at_start l)).1
  attach-Good cfg b p =
      by_result (attach sys cfg (at_start l)) (attach-Joined l sys cfg b)
        (attach-Sat sys cfg (at_start l))
    where
      running : (att : Attachment) → IsUp sys cfg (parsed l) att → att.proxy_pid ≢ 0
      running att (inl (up, same, _, _)) = λ z.
          up_pid (parsed l).proxy_pid (sys.alive (parsed l).proxy_pid) (sys.probe (parsed l).port)
            up (sym same ∙ z)
      running att (inr (s, _, _, _)) = λ z. p (s ∙ ap some z)

      by_result :
          (r : Outcome Attachment × World)
          → Sat (Joined l sys cfg) (Failed l sys) r
          → Sat (λ att _. IsUp sys cfg (parsed l) att) (λ _ _. Unit) r
          → Good r.1
      by_result (ok att, w) (start, s, same, _, _, _) up = rw same (
        Distinct-add_ref (prune_dead sys.alive sys.start_time (parsed l).agents) _
            (Distinct-prune_dead sys.alive sys.start_time (parsed l).agents h.0),
        λ r m. running att up,
      )
      by_result (err e, w) (inl (same, _)) up = rw same h
      by_result (err e, w) (inr (_, inl same, _, _)) up = rw same h
      by_result (err e, w) (inr (_, inr same, _, _)) up = rw same torn_good

Step-WellFormed : {l m : Contents} → Step l m → WellFormed (parsed l) → WellFormed (parsed m)
Step-WellFormed (attaches l sys cfg t b p) h = attach-Good l sys t h cfg b p
Step-WellFormed (detaches l sys pid t) h = detach-Good l sys t h pid
Step-WellFormed (cleans_orphan l sys t) h = clean_orphan-Good l sys t h
Step-WellFormed (cleans l sys force t) h = clean-Good l sys t h force

-- Whatever sequence of attaches, detaches and cleanups runs from a project without a lock, with
-- whatever answers of the system, failed writes included, the lock names no process id twice, and
-- names agents only where it names a proxy. A spawned process has an id that is not 0, and a failed
-- write leaves the file as it was, empty, or unparsable.
pub Reach-WellFormed : (l : Contents) → Reach l → WellFormed (parsed l)
Reach-WellFormed l fresh = (tt, λ r h. absurd h)
Reach-WellFormed l (next r s) = Step-WellFormed s (Reach-WellFormed _ r)
