-- ===== src/Proxy/Attach/Abandon.antt =====
-- An `Attach` that fails after it started a proxy (internal/proxy/lifecycle.go).
use agent_creance.Prelude.{
  Bool, true, false, [], ◌∷◌, none, some, if◌then◌else◌, ◌≡◌, ◌≢◌, refl, ◌∙◌, subst,
}
use agent_creance.Proxy.Lock.{Contents, parsed, prune_dead}
use agent_creance.Proxy.Program.{
  create_state_dir, acquire_lock, read_lock, own_start_time, System, World, ok, err, ◌>>=◌, ◌>>◌,
  require, read_lock_file,
}
use agent_creance.Proxy.Program.Triple.{Sat}
use agent_creance.Proxy.Ledger.{Tidy, begin, at_start}
use agent_creance.Proxy.Broker.{StartConfig}
use agent_creance.Proxy.Attach.{
  Attachment, proxy_up, start_proxy, obtain, record_self, attach_locked, attach,
}
use agent_creance.Proxy.Attach.Own.{Running, BothRun, broker_live, start_proxy-Running}

-- Where the directory, the flock and the read succeed, the rest decides.
attach-attach_locked :
    (l : Contents) (sys : System) (cfg : StartConfig)
    → sys.mkdir_ok ≡ true
    → sys.acquire_ok ≡ true
    → sys.read_ok ≡ true
    → attach sys cfg (at_start l) ≡ attach_locked sys cfg (parsed l) (at_start l)
unfolding attach read_lock_file
attach-attach_locked l sys cfg = granted sys.mkdir_ok sys.acquire_ok sys.read_ok
  where
    granted :
        (a b c : Bool)
        → a ≡ true
        → b ≡ true
        → c ≡ true
        → (require a create_state_dir
              >> (require b acquire_lock
                  >> ((λ w. if c then (ok (parsed w.lock), w) else (err read_lock, w))
                      >>= attach_locked sys cfg)))
            (at_start l)
          ≡ attach_locked sys cfg (parsed l) (at_start l)
    granted a b c ha hb hc = rw (ha, hb, hc) refl

-- An attach that has started a new proxy and then cannot read its own start time fails with that
-- error: the lock is as it was, and the new proxy and its broker run on, recorded nowhere. The
-- state directory, the flock and the read of the lock succeed, and no spawned broker has pid 0.
pub attach_abandons :
    (l : Contents) (sys : System) (cfg : StartConfig) (att : Attachment) (w : World)
    → sys.spawn_with_secret ≢ some 0
    → sys.mkdir_ok ≡ true
    → sys.acquire_ok ≡ true
    → sys.read_ok ≡ true
    → proxy_up sys (parsed l) ≡ false
    → start_proxy sys cfg
        (parsed l)
        (prune_dead sys.alive sys.start_time (parsed l).agents)
        (at_start l)
      ≡ (ok att, w)
    → sys.start_time cfg.self_pid ≡ none
    → (attach sys cfg (at_start l) ≡ (err own_start_time, w))
      × (w.lock ≡ l)
      × Tidy w.done (att.proxy_pid ∷ broker_live att.broker_pid)
unfolding attach_locked obtain record_self
attach_abandons l sys cfg att w h a b c up started unread =
    let (same, t) = subst (Sat (BothRun l) (λ _. Running l [])) started (
      start_proxy-Running l sys cfg (parsed l)
        (prune_dead sys.alive sys.start_time (parsed l).agents) h (at_start l) (refl, begin)) in
    (attach-attach_locked l sys cfg a b c ∙ rw (up, started, unread) refl, same, t)
