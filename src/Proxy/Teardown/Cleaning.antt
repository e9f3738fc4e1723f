-- ===== src/Proxy/Teardown/Cleaning.antt =====
-- `Clean`, forced or not (internal/proxy/lifecycle.go).
use agent_creance.Prelude.{
  Bool, true, false, not, ◌&&◌, List, [], ◌∷◌, if◌then◌else◌, ◌≡◌, refl, sym, ◌∙◌, subst, ◌⊎◌, inl,
  inr, In,
}
use agent_creance.Proxy.Lock.{AgentRef, LockState, no_lock, Contents, parsed, prune_dead}
use agent_creance.Proxy.Lock.Agents.{IsOriginal, In-prune_dead}
use agent_creance.Proxy.Program.{Failure, System, World, ok, err, ◌>>=◌, ◌>>◌, pure}
use agent_creance.Proxy.Program.Triple.{Sat, Sat-pure, Sat-weaken, bind_assoc}
use agent_creance.Proxy.Program.Opened.{opened_dir}
use agent_creance.Proxy.Ledger.{at_start}
use agent_creance.Proxy.Teardown.{
  signal, recorded_alive, clear_project, no_agents, CleanResult, nothing_cleaned, proxy_cleaned,
  refusal, clean_proxy, clean_all, clean_locked, clean,
}
use agent_creance.Proxy.Teardown.Clearing.{TornDown, Refused, signal-TornDown, clear_noted}

-- An attached agent is still the original live process.
abbrev pub HasLiveAgent : System → LockState → Type 0
HasLiveAgent sys cur = (r : AgentRef) × In r cur.agents × IsOriginal sys.alive sys.start_time r

no_agents_cases :
    (refs : List AgentRef)
    → (no_agents refs ≡ true → (r : AgentRef) → ¬ In r refs)
      × (no_agents refs ≡ false → (r : AgentRef) × In r refs)
no_agents_cases [] = (λ _ r h. h, λ h. cc)
no_agents_cases (r ∷ refs) = (λ h. cc, λ _. (r, inl refl))

-- `Clean` refuses and touches nothing, or everything is torn down and the lock is empty.
abbrev pub Cleaned : System → Bool → Contents → CleanResult → World → Type 0
Cleaned sys force l res v =
    ((force ≡ false)
      × HasLiveAgent sys (parsed l)
      × (res ≡ refusal sys (parsed l))
      × (v ≡ at_start l))
    ⊎ (((force ≡ true) ⊎ ¬ HasLiveAgent sys (parsed l))
        × (res.refused ≡ false)
        × (res.cleaned ≡ recorded_alive sys (parsed l))
        × TornDown sys (parsed l) no_lock v)

module _ (sys : System) (cur : LockState) where
  abbrev AllClean : CleanResult → World → Type 0
  AllClean res v =
      (res.refused ≡ false) × (res.cleaned ≡ recorded_alive sys cur) × TornDown sys cur no_lock v

  clean_all-Clean : (w : World) → Sat AllClean (λ _ _. Refused sys cur) (clean_all sys cur w)
  unfolding clean_all clean_proxy
  clean_all-Clean w = by_test (recorded_alive sys cur) refl
    where
      by_test :
          (b : Bool)
          → recorded_alive sys cur ≡ b
          → Sat AllClean
              (λ _ _. Refused sys cur)
              (((if b
                    then (signal sys cur.proxy_pid >> pure (proxy_cleaned cur.proxy_pid))
                    else pure nothing_cleaned)
                  >>= λ res. clear_project sys cur no_lock >> pure res)
                w)
      by_test true e = subst (Sat AllClean (λ _ _. Refused sys cur)) reassociated (
          Sat-pure (λ _. TornDown sys cur no_lock) AllClean (λ _ _. Refused sys cur)
            ((signal sys cur.proxy_pid >> clear_project sys cur no_lock) w)
            (proxy_cleaned cur.proxy_pid) (λ _ v t. (refl, sym e, t))
            (signal-TornDown sys cur no_lock w))
        where
          reassociated :
              ((signal sys cur.proxy_pid >> clear_project sys cur no_lock)
                  >> pure (proxy_cleaned cur.proxy_pid))
                w
              ≡ ((signal sys cur.proxy_pid >> pure (proxy_cleaned cur.proxy_pid)) >>= λ res.
                    clear_project sys cur no_lock >> pure res)
                  w
          reassociated =
              bind_assoc (signal sys cur.proxy_pid) (λ _. clear_project sys cur no_lock)
                (λ _. pure (proxy_cleaned cur.proxy_pid)) w
              ∙ sym (
                  bind_assoc (signal sys cur.proxy_pid) (λ _. pure (proxy_cleaned cur.proxy_pid))
                    (λ res. clear_project sys cur no_lock >> pure res) w)
      by_test false e =
          Sat-pure (λ _. TornDown sys cur no_lock) AllClean (λ _ _. Refused sys cur)
            (clear_project sys cur no_lock w) nothing_cleaned (λ _ v t. (refl, sym e, t))
            (clear_noted sys cur no_lock w (inl e))

  live : List AgentRef
  live = prune_dead sys.alive sys.start_time cur.agents

  some_live : no_agents live ≡ false → HasLiveAgent sys cur
  unfolding live
  some_live h =
      let (r, m) = (no_agents_cases live).1 h in
      let (old, same) = (In-prune_dead sys.alive sys.start_time cur.agents r).0 m in (r, old, same)

  none_live : no_agents live ≡ true → ¬ HasLiveAgent sys cur
  unfolding live
  none_live h (r, old, same) =
      (no_agents_cases live).0 h r
        ((In-prune_dead sys.alive sys.start_time cur.agents r).1 (old, same))

clean_locked-Cleaned :
    (sys : System) (force : Bool) (l : Contents)
    → Sat
        (Cleaned sys force l)
        (λ _ _. Refused sys (parsed l))
        (clean_locked sys force (parsed l) (at_start l))
unfolding clean_locked live
clean_locked-Cleaned sys force l = by_tests (no_agents (live sys (parsed l))) refl force refl
  where
    torn :
        (force ≡ true) ⊎ ¬ HasLiveAgent sys (parsed l)
        → Sat
            (Cleaned sys force l)
            (λ _ _. Refused sys (parsed l))
            (clean_all sys (parsed l) (at_start l))
    torn why =
        Sat-weaken (AllClean sys (parsed l)) (Cleaned sys force l) (λ _ _. Refused sys (parsed l))
          (λ _ _. Refused sys (parsed l)) (clean_all sys (parsed l) (at_start l))
          (λ _ _ (a, b, t). inr (why, a, b, t)) (λ _ _ x. x)
          (clean_all-Clean sys (parsed l) (at_start l))

    by_tests :
        (a : Bool)
        → no_agents (live sys (parsed l)) ≡ a
        → (f : Bool) → force ≡ f
        → Sat
            (Cleaned sys force l)
            (λ _ _. Refused sys (parsed l))
            ((if not a && not f then pure (refusal sys (parsed l)) else clean_all sys (parsed l))
              (at_start l))
    by_tests true e f h = torn (inr (none_live sys (parsed l) e))
    by_tests false e true h = torn (inl h)
    by_tests false e false h = inl (h, some_live sys (parsed l) e, refl, refl)

-- A successful `Clean` refuses exactly where it is not forced and an attached agent is still the
-- original live process: then it names the live agents, and nothing is changed. Otherwise the
-- recorded proxy is sent SIGTERM if it lives, which is what `Cleaned` reports, its broker too, the
-- session overlay is gone and the lock is empty.
pub clean-Cleaned :
    (l : Contents) (sys : System) (force : Bool) (res : CleanResult) (w : World)
    → clean sys force (at_start l) ≡ (ok res, w)
    → Cleaned sys force l res w
unfolding clean
clean-Cleaned l sys force res w e =
    subst (Sat (Cleaned sys force l) (λ _ _. Unit)) e
      (by_opened (opened_dir sys (clean_locked sys force) (at_start l)))
  where
    by_opened :
        (clean sys force (at_start l) ≡ clean_locked sys force (parsed l) (at_start l))
          ⊎ ((f : Failure) × (clean sys force (at_start l) ≡ (err f, at_start l)))
        → Sat (Cleaned sys force l) (λ _ _. Unit) (clean sys force (at_start l))
    by_opened (inl same) = subst (Sat (Cleaned sys force l) (λ _ _. Unit)) (sym same) (
        Sat-weaken (Cleaned sys force l) (Cleaned sys force l) (λ _ _. Refused sys (parsed l))
          (λ _ _. Unit) (clean_locked sys force (parsed l) (at_start l)) (λ _ _ h. h) (λ _ _ _. tt)
          (clean_locked-Cleaned sys force l))
    by_opened (inr (f, same)) = subst (Sat (Cleaned sys force l) (λ _ _. Unit)) (sym same) tt
