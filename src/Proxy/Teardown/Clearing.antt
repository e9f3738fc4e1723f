-- ===== src/Proxy/Teardown/Clearing.antt =====
-- What it means that a project is cleared (internal/proxy/lifecycle.go).
use agent_creance.Prelude.{
  Bool, true, false, not, ◌∷◌, if◌then◌else◌, ◌==◌, ◌≡◌, refl, ==_iff, ◌⊎◌, inl, inr, In,
}
use agent_creance.Proxy.Lock.{LockState, holds}
use agent_creance.Proxy.Program.{
  write_lock, stop_mitmproxy, purge_overlay, Effect, terminated, removed_socket, purged_overlay,
  System, World, ok, err, ◌>>◌, fail, emit, require, when, write_lock_file,
}
use agent_creance.Proxy.Program.Triple.{Sat, Sat-weaken}
use agent_creance.Proxy.Broker.{stop_broker}
use agent_creance.Proxy.Teardown.{signal, recorded_alive, clear_project}

-- The lock holds `next`, the broker is stopped and the session overlay is gone.
abbrev pub Cleared : LockState → LockState → World → Type 0
Cleared cur next v =
    (v.lock ≡ holds next)
    × ((cur.broker_pid ≡ 0) ⊎ In (terminated cur.broker_pid) v.done)
    × In purged_overlay v.done

-- So too the proxy where its process lived.
abbrev pub TornDown : System → LockState → LockState → World → Type 0
TornDown sys cur next v =
    Cleared cur next v × ((recorded_alive sys cur ≡ false) ⊎ In (terminated cur.proxy_pid) v.done)

-- The system refused the signal, the removal or the write.
abbrev pub Refused : System → LockState → Type 0
Refused sys cur =
    (sys.signal_ok cur.proxy_pid ≡ false) ⊎ (sys.purge_ok ≡ false) ⊎ (sys.write_ok ≡ false)

module _ (sys : System) (cur next : LockState) where
  -- What was done before stays done.
  abbrev ClearedAfter : World → World → Type 0
  ClearedAfter w v = Cleared cur next v × ((e : Effect) → In e w.done → In e v.done)

  clear_if :
      (b p r : Bool) (w : World)
      → (b ≡ true → cur.broker_pid ≡ 0)
      → Sat
          (λ _ v. ClearedAfter w v)
          (λ _ _. (p ≡ false) ⊎ (r ≡ false))
          (((when (not b) (emit (terminated cur.broker_pid)) >> emit removed_socket)
              >> (require p purge_overlay
                  >> (emit purged_overlay >> (λ x.
                      if r
                      then (ok tt, record x { lock = holds next })
                      else (err write_lock, record x { lock = sys.torn })))))
            w)
  clear_if true true true w h = ((refl, inl (h refl), inl refl), λ e m. inr (inr m))
  clear_if false true true w h =
      ((refl, inr (inr (inr (inl refl))), inl refl), λ e m. inr (inr (inr m)))
  clear_if true true false w h = inr refl
  clear_if false true false w h = inr refl
  clear_if true false r w h = inl refl
  clear_if false false r w h = inl refl

  pub clear_project-Cleared :
      (w : World)
      → Sat
          (λ _ v. ClearedAfter w v)
          (λ _ _. (sys.purge_ok ≡ false) ⊎ (sys.write_ok ≡ false))
          (clear_project sys cur next w)
  unfolding clear_project stop_broker write_lock_file
  clear_project-Cleared w =
      clear_if (cur.broker_pid == 0) sys.purge_ok sys.write_ok w (==_iff cur.broker_pid 0).0

  noted :
      (w v : World)
      → (recorded_alive sys cur ≡ false) ⊎ In (terminated cur.proxy_pid) w.done
      → ((e : Effect) → In e w.done → In e v.done)
      → (recorded_alive sys cur ≡ false) ⊎ In (terminated cur.proxy_pid) v.done
  noted w v (inl e) keep = inl e
  noted w v (inr m) keep = inr (keep (terminated cur.proxy_pid) m)

  -- The project is cleared after what the proxy needed was done.
  pub clear_noted :
      (w : World)
      → (recorded_alive sys cur ≡ false) ⊎ In (terminated cur.proxy_pid) w.done
      → Sat (λ _ v. TornDown sys cur next v) (λ _ _. Refused sys cur) (clear_project sys cur next w)
  clear_noted w h =
      Sat-weaken (λ _. ClearedAfter w) (λ _. TornDown sys cur next)
        (λ _ _. (sys.purge_ok ≡ false) ⊎ (sys.write_ok ≡ false)) (λ _ _. Refused sys cur)
        (clear_project sys cur next w) (λ _ v (c, keep). (c, noted w v h keep)) (λ _ _ x. inr x)
        (clear_project-Cleared w)

  -- The proxy is signalled, then the project is cleared.
  pub signal-TornDown :
      (w : World)
      → Sat
          (λ _. TornDown sys cur next)
          (λ _ _. Refused sys cur)
          ((signal sys cur.proxy_pid >> clear_project sys cur next) w)
  unfolding signal
  signal-TornDown w = by_answer (sys.signal_ok cur.proxy_pid) refl
    where
      by_answer :
          (b : Bool)
          → sys.signal_ok cur.proxy_pid ≡ b
          → Sat
              (λ _. TornDown sys cur next)
              (λ _ _. Refused sys cur)
              (((if b then emit (terminated cur.proxy_pid) else fail stop_mitmproxy)
                  >> clear_project sys cur next)
                w)
      by_answer true e =
          clear_noted (record w { done = terminated cur.proxy_pid ∷ w.done }) (inr (inl refl))
      by_answer false e = inl e

  -- The proxy is signalled if it lives, then the project is cleared.
  pub when-TornDown :
      (w : World)
      → Sat
          (λ _. TornDown sys cur next)
          (λ _ _. Refused sys cur)
          ((when (recorded_alive sys cur) (signal sys cur.proxy_pid) >> clear_project sys cur next)
            w)
  when-TornDown w = by_test (recorded_alive sys cur) refl
    where
      by_test :
          (b : Bool)
          → recorded_alive sys cur ≡ b
          → Sat
              (λ _. TornDown sys cur next)
              (λ _ _. Refused sys cur)
              ((when b (signal sys cur.proxy_pid) >> clear_project sys cur next) w)
      by_test true e = signal-TornDown w
      by_test false e = clear_noted w (inl e)
