-- ===== src/Proxy/Ledger.antt =====
-- What the effects of one call say of the processes it started (internal/proxy/lifecycle.go).
use agent_creance.Prelude.{ℕ, Bool, List, [], ◌∷◌, ◌≡◌, refl, sym, ap, subst, ◌⊎◌, inl, inr, In}
use agent_creance.Proxy.Lock.{Contents}
use agent_creance.Proxy.Program.{
  Effect, spawned_proxy, spawned_broker, terminated, resolved_secrets, removed_socket,
  purged_overlay, warned, World,
}

-- The world in which a call begins.
abbrev pub at_start : Contents → World
at_start l = record { lock = l; done = [] }

-- The call started the process.
abbrev pub Spawned : ℕ → List Effect → Type 0
Spawned pid d =
    In (spawned_broker pid) d ⊎ (port : ℕ) × (b : Bool) × In (spawned_proxy pid port b) d

-- Neither a start nor a stop of a process.
abbrev pub IsQuiet : Effect → Type 0
IsQuiet (spawned_proxy pid port b) = ⊥
IsQuiet (spawned_broker pid) = ⊥
IsQuiet (terminated pid) = ⊥
IsQuiet resolved_secrets = Unit
IsQuiet removed_socket = Unit
IsQuiet purged_overlay = Unit
IsQuiet (warned x) = Unit

-- The effects start the processes and stop none but the latest that still runs; those that run are
-- the second index.
pub data Tidy : List Effect → List ℕ → Type 0 where
  begin : Tidy [] []
  proxy_starts :
      {d : List Effect} {live : List ℕ} (pid port : ℕ) (b : Bool)
      → Tidy d live
      → Tidy (spawned_proxy pid port b ∷ d) (pid ∷ live)
  broker_starts :
      {d : List Effect} {live : List ℕ} (pid : ℕ)
      → Tidy d live
      → Tidy (spawned_broker pid ∷ d) (pid ∷ live)
  stops :
      {d : List Effect} {live : List ℕ} (pid : ℕ)
      → Tidy d (pid ∷ live)
      → Tidy (terminated pid ∷ d) live
  goes_on :
      {d : List Effect} {live : List ℕ} (e : Effect) → IsQuiet e → Tidy d live → Tidy (e ∷ d) live

weaken : (pid : ℕ) (e : Effect) (d : List Effect) → Spawned pid d → Spawned pid (e ∷ d)
weaken pid e d (inl h) = inl (inr h)
weaken pid e d (inr (port, b, h)) = inr (port, b, inr h)

-- What still runs was started by the call.
pub live-Spawned :
    {d : List Effect} {live : List ℕ} (pid : ℕ) → Tidy d live → In pid live → Spawned pid d
live-Spawned pid begin h = absurd h
live-Spawned pid (proxy_starts p port b t) (inl e) = inr (port, b, inl (rw e refl))
live-Spawned pid (proxy_starts p port b t) (inr h) = weaken pid _ _ (live-Spawned pid t h)
live-Spawned pid (broker_starts p t) (inl e) = inl (inl (rw e refl))
live-Spawned pid (broker_starts p t) (inr h) = weaken pid _ _ (live-Spawned pid t h)
live-Spawned pid (stops p t) h = weaken pid _ _ (live-Spawned pid t (inr h))
live-Spawned pid (goes_on e q t) h = weaken pid _ _ (live-Spawned pid t h)

target : Effect → ℕ
target (spawned_proxy pid port b) = pid
target (spawned_broker pid) = pid
target (terminated pid) = pid
target resolved_secrets = 0
target removed_socket = 0
target purged_overlay = 0
target (warned x) = 0

quiet_terminated : {A : Type 0} (pid : ℕ) (e : Effect) → IsQuiet e → terminated pid ≡ e → A
quiet_terminated pid e q h = absurd (subst IsQuiet (sym h) q)

pub terminated-Spawned :
    {d : List Effect} {live : List ℕ} (pid : ℕ)
    → Tidy d live
    → In (terminated pid) d
    → Spawned pid d
unfolding target
terminated-Spawned pid begin h = absurd h
terminated-Spawned pid (proxy_starts p port b t) (inl e) = cc
terminated-Spawned pid (proxy_starts p port b t) (inr h) =
    weaken pid _ _ (terminated-Spawned pid t h)
terminated-Spawned pid (broker_starts p t) (inl e) = cc
terminated-Spawned pid (broker_starts p t) (inr h) = weaken pid _ _ (terminated-Spawned pid t h)
terminated-Spawned pid (stops p t) (inl e) = weaken pid _ _ (live-Spawned pid t (inl (ap target e)))
terminated-Spawned pid (stops p t) (inr h) = weaken pid _ _ (terminated-Spawned pid t h)
terminated-Spawned pid (goes_on e q t) (inl h) = quiet_terminated pid e q h
terminated-Spawned pid (goes_on e q t) (inr h) = weaken pid _ _ (terminated-Spawned pid t h)

-- The start is the latest effect or an earlier one.
StartsNow : ℕ → Effect → Type 0
StartsNow pid e =
    (spawned_broker pid ≡ e) ⊎ (port : ℕ) × (b : Bool) × (spawned_proxy pid port b ≡ e)

Spawned-split :
    (pid : ℕ) (e : Effect) (d : List Effect) → Spawned pid (e ∷ d) → StartsNow pid e ⊎ Spawned pid d
unfolding StartsNow
Spawned-split pid e d (inl (inl h)) = inl (inl h)
Spawned-split pid e d (inl (inr h)) = inr (inl h)
Spawned-split pid e d (inr (port, b, inl h)) = inl (inr (port, b, h))
Spawned-split pid e d (inr (port, b, inr h)) = inr (inr (port, b, h))

StartsNow-target : (pid : ℕ) (e : Effect) → StartsNow pid e → pid ≡ target e
unfolding StartsNow target
StartsNow-target pid e (inl h) = ap target h
StartsNow-target pid e (inr (port, b, h)) = ap target h

StartsNow-quiet : {A : Type 0} (pid : ℕ) (e : Effect) → IsQuiet e → StartsNow pid e → A
unfolding StartsNow
StartsNow-quiet pid e q (inl h) = absurd (subst IsQuiet (sym h) q)
StartsNow-quiet pid e q (inr (port, b, h)) = absurd (subst IsQuiet (sym h) q)

after_start :
    (pid p : ℕ) (e : Effect) (d : List Effect) (live : List ℕ)
    → (pid ≡ p) ⊎ In (terminated pid) d ⊎ In pid live
    → In (terminated pid) (e ∷ d) ⊎ In pid (p ∷ live)
after_start pid p e d live (inl h) = inr (inl h)
after_start pid p e d live (inr (inl h)) = inl (inr h)
after_start pid p e d live (inr (inr h)) = inr (inr h)

after_stop :
    (pid p : ℕ) (d : List Effect) (live : List ℕ)
    → In (terminated pid) d ⊎ In pid (p ∷ live)
    → In (terminated pid) (terminated p ∷ d) ⊎ In pid live
after_stop pid p d live (inl h) = inl (inr h)
after_stop pid p d live (inr (inl h)) = inl (inl (ap terminated h))
after_stop pid p d live (inr (inr h)) = inr h

-- Every process the call started was stopped by it or still runs.
pub Spawned-cases :
    {d : List Effect} {live : List ℕ} (pid : ℕ)
    → Tidy d live
    → Spawned pid d
    → In (terminated pid) d ⊎ In pid live
unfolding StartsNow target
Spawned-cases pid begin h = elim h [ inl b ↦ absurd b | inr (port, b, x) ↦ absurd x ]
Spawned-cases pid (proxy_starts p port b t) h =
    after_start pid p _ _ _ (elim (Spawned-split pid _ _ h) [
      | inl now ↦ inl (StartsNow-target pid _ now)
      | inr old ↦ inr (Spawned-cases pid t old)
    ])
Spawned-cases pid (broker_starts p t) h = after_start pid p _ _ _ (elim (Spawned-split pid _ _ h) [
  | inl now ↦ inl (StartsNow-target pid _ now)
  | inr old ↦ inr (Spawned-cases pid t old)
])
Spawned-cases pid (stops p t) h = elim (Spawned-split pid _ _ h) [
  | inl (inl now) ↦ cc
  | inl (inr (port, b, now)) ↦ cc
  | inr old ↦ after_stop pid p _ _ (Spawned-cases pid t old)
]
Spawned-cases pid (goes_on e q t) h = elim (Spawned-split pid _ _ h) [
  | inl now ↦ StartsNow-quiet pid e q now
  | inr old ↦ elim (Spawned-cases pid t old) [ inl x ↦ inl (inr x) | inr x ↦ inr x ]
]
