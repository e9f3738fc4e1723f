-- ===== src/Proxy/Lock/Agents.antt =====
-- The agents of the lock through pruning, attaching and detaching (internal/proxy/lifecycle.go).
use agent_creance.Prelude.{
  some_inj, ℕ, Bool, true, false, ◌&&◌, not, List, [], ◌∷◌, ◌++◌, Option, none, some, ◌==◌, ==_iff,
  ◌≡◌, ◌≢◌, refl, ap, ◌⊎◌, inl, inr, ◌↔◌, In, select, In-select, Bool-cases, In-append_cases,
  In-append_left, In-append_right, arith,
}
use agent_creance.Proxy.Lock.{AgentRef, has_pid, add_ref, remove_ref, is_original, prune_dead}

-- The agent's process lives and has the start time it attached with.
abbrev pub IsOriginal : (ℕ → Bool) → (ℕ → Option ℕ) → AgentRef → Type 0
IsOriginal alive start_time r = (alive r.pid ≡ true) × (start_time r.pid ≡ some r.start_time)

is_original_iff :
    (alive : ℕ → Bool) (start_time : ℕ → Option ℕ) (r : AgentRef)
    → (is_original alive start_time r ≡ true) ↔ IsOriginal alive start_time r
unfolding is_original
is_original_iff alive start_time r = by_answers (alive r.pid) (start_time r.pid)
  where
    by_answers :
        (a : Bool) (o : Option ℕ)
        → ((a && elim o [ none ↦ false | some st ↦ st == r.start_time ]) ≡ true)
          ↔ ((a ≡ true) × (o ≡ some r.start_time))
    by_answers false o = (λ h. absurd (of_false h), λ h. absurd (of_false h.0))
      where
        of_false : false ≡ true → ⊥
        of_false h = cc
    by_answers true none = (λ h. cc, λ h. cc)
    by_answers true (some st) = (
      λ h. (refl, ap some ((==_iff st r.start_time).0 h)),
      λ h. (==_iff st r.start_time).1 (some_inj h.1),
    )

prune_dead-select :
    (alive : ℕ → Bool) (start_time : ℕ → Option ℕ) (refs : List AgentRef)
    → prune_dead alive start_time refs ≡ select (is_original alive start_time) refs
unfolding prune_dead select
prune_dead-select alive start_time [] = refl
prune_dead-select alive start_time (r ∷ refs) = rw (prune_dead-select alive start_time refs) refl

-- Pruning keeps exactly the attached agents that are still the original live processes.
pub In-prune_dead :
    (alive : ℕ → Bool) (start_time : ℕ → Option ℕ) (refs : List AgentRef) (r : AgentRef)
    → In r (prune_dead alive start_time refs) ↔ (In r refs × IsOriginal alive start_time r)
In-prune_dead alive start_time refs r = rw (prune_dead-select alive start_time refs) (
  λ h. (
    ((In-select _ refs r).0 h).0,
    (is_original_iff alive start_time r).0 ((In-select _ refs r).0 h).1,
  ),
  λ (h, o). (In-select _ refs r).1 (h, (is_original_iff alive start_time r).1 o),
)

-- No two agents have one process id.
abbrev pub Distinct : List AgentRef → Type 0
Distinct [] = Unit
Distinct (r ∷ refs) = ((s : AgentRef) → In s refs → s.pid ≢ r.pid) × Distinct refs

Distinct-select :
    (p : AgentRef → Bool) (refs : List AgentRef) → Distinct refs → Distinct (select p refs)
unfolding select
Distinct-select p [] d = tt
Distinct-select p (r ∷ refs) (d, ds) = elim (Bool-cases (p r)) [
  | inl e ↦ rw e (λ s h. d s ((In-select p refs s).0 h).0, Distinct-select p refs ds)
  | inr e ↦ rw e (Distinct-select p refs ds)
]

pub Distinct-prune_dead :
    (alive : ℕ → Bool) (start_time : ℕ → Option ℕ) (refs : List AgentRef)
    → Distinct refs
    → Distinct (prune_dead alive start_time refs)
Distinct-prune_dead alive start_time refs d =
    rw (prune_dead-select alive start_time refs)
      (Distinct-select (is_original alive start_time) refs d)

remove_ref-select :
    (refs : List AgentRef) (pid : ℕ)
    → remove_ref refs pid ≡ select (λ (r : AgentRef). not (r.pid == pid)) refs
unfolding remove_ref select
remove_ref-select [] pid = refl
remove_ref-select (r ∷ refs) pid = rw (remove_ref-select refs pid) refl

pub Distinct-remove_ref :
    (refs : List AgentRef) (pid : ℕ) → Distinct refs → Distinct (remove_ref refs pid)
Distinct-remove_ref refs pid d = rw (remove_ref-select refs pid) (Distinct-select _ refs d)

-- Detaching removes exactly the entries of the process id.
pub In-remove_ref :
    (refs : List AgentRef) (pid : ℕ) (r : AgentRef)
    → In r (remove_ref refs pid) ↔ (In r refs × (r.pid ≢ pid))
In-remove_ref refs pid r = rw (remove_ref-select refs pid) (
  λ h. (((In-select _ refs r).0 h).0, not_same ((In-select _ refs r).0 h).1),
  λ (h, ne). (In-select _ refs r).1 (h, differs ne),
)
  where
    not_same : not (r.pid == pid) ≡ true → r.pid ≢ pid
    not_same h e = ground arith

    differs : r.pid ≢ pid → not (r.pid == pid) ≡ true
    differs h = ground arith

has_pid_iff :
    (pid : ℕ) (refs : List AgentRef)
    → (has_pid pid refs ≡ true) ↔ ((r : AgentRef) × In r refs × (r.pid ≡ pid))
unfolding has_pid
has_pid_iff pid [] = (λ h. cc, λ h. absurd h.1)
has_pid_iff pid (r ∷ refs) = elim (Bool-cases (r.pid == pid)) [
  | inl e ↦ rw e (λ _. (r, inl refl, (==_iff r.pid pid).0 e), λ _. refl)
  | inr e ↦ rw e (
    λ h. let (s, m, same) = (has_pid_iff pid refs).0 h in (s, inr m, same),
    λ (s, m, same). elim m [
      | inl here ↦ absurd (clash here same e)
      | inr there ↦ (has_pid_iff pid refs).1 (s, there, same)
    ],
  )
]
  where
    clash : {s : AgentRef} → s ≡ r → s.pid ≡ pid → (r.pid == pid) ≡ false → ⊥
    clash here same e = differ (cc) e
      where
        differ : r.pid ≡ pid → (r.pid == pid) ≡ false → ⊥
        differ h x = ground arith

Distinct-snoc :
    (refs : List AgentRef) (ref : AgentRef)
    → Distinct refs
    → ((s : AgentRef) → In s refs → s.pid ≢ ref.pid)
    → Distinct (refs ++ ref ∷ [])
Distinct-snoc [] ref d h = (λ s x. absurd x, tt)
Distinct-snoc (r ∷ refs) ref (d, ds) h = (
  λ s x. elim (In-append_cases refs (ref ∷ []) s x) [
    | inl old ↦ d s old
    | inr (inl new) ↦ λ same. h r (inl refl) (swap new same)
    | inr (inr never) ↦ absurd never
  ],
  Distinct-snoc refs ref ds (λ s x. h s (inr x)),
)
  where
    swap : {s : AgentRef} → s ≡ ref → s.pid ≡ r.pid → r.pid ≡ ref.pid
    swap new same = cc

pub Distinct-add_ref :
    (refs : List AgentRef) (ref : AgentRef) → Distinct refs → Distinct (add_ref refs ref)
unfolding add_ref
Distinct-add_ref refs ref d = elim (Bool-cases (has_pid ref.pid refs)) [
  | inl e ↦ rw e d
  | inr e ↦ rw e (Distinct-snoc refs ref d (λ s x same. absurd (absent s x same e)))
]
  where
    absent : (s : AgentRef) → In s refs → s.pid ≡ ref.pid → has_pid ref.pid refs ≡ false → ⊥
    absent s x same e = clash ((has_pid_iff ref.pid refs).1 (s, x, same)) e
      where
        clash : has_pid ref.pid refs ≡ true → has_pid ref.pid refs ≡ false → ⊥
        clash h k = cc

-- Whoever was attached stays attached, and an agent of the new one's process id is attached.
pub In-add_ref_old : (refs : List AgentRef) (ref r : AgentRef) → In r refs → In r (add_ref refs ref)
unfolding add_ref
In-add_ref_old refs ref r h = elim (Bool-cases (has_pid ref.pid refs)) [
  | inl e ↦ rw e h
  | inr e ↦ rw e (In-append_left refs (ref ∷ []) r h)
]

pub In-add_ref_new :
    (refs : List AgentRef) (ref : AgentRef)
    → (r : AgentRef) × In r (add_ref refs ref) × (r.pid ≡ ref.pid)
unfolding add_ref
In-add_ref_new refs ref = elim (Bool-cases (has_pid ref.pid refs)) [
  | inl e ↦ rw e ((has_pid_iff ref.pid refs).0 e)
  | inr e ↦ rw e (ref, In-append_right refs (ref ∷ []) ref (inl refl), refl)
]

pub In-add_ref_cases :
    (refs : List AgentRef) (ref r : AgentRef) → In r (add_ref refs ref) → In r refs ⊎ (r ≡ ref)
unfolding add_ref
In-add_ref_cases refs ref r = elim (Bool-cases (has_pid ref.pid refs)) [
  | inl e ↦ rw e (λ h. inl h)
  | inr e ↦ rw e (λ h. elim (In-append_cases refs (ref ∷ []) r h) [
    | inl old ↦ inl old
    | inr (inl new) ↦ inr new
    | inr (inr never) ↦ absurd never
  ])
]
