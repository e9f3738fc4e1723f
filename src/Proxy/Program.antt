-- ===== src/Proxy/Program.antt =====
-- The lifecycle manager's programs: they read and write the lock file under the flock, act on
-- processes and files, and may fail.
pub mod Triple
pub mod Opened
use agent_creance.Prelude.{
  ℕ, Bool, true, false, List, [], ◌∷◌, Option, none, some, Bytes, if◌then◌else◌,
}
use agent_creance.Proxy.Lock.{LockState, Contents, holds, parsed}

-- One error for each `return … err` of the manager.
pub data Failure : Type 0 where
  create_state_dir acquire_lock read_lock reclaim_port allocate_port start_mitmproxy : Failure
  proxy_exited proxy_wait proxy_timeout own_start_time write_lock stop_mitmproxy : Failure
  purge_overlay : Failure

pub data Warning : Type 0 where
  port_changed : (new_port old_port : ℕ) (agents : List ℕ) → Warning
  secrets_unresolved socket_path_too_long chmod_failed broker_not_started broker_not_ready : Warning

-- `terminated` is a SIGTERM that was sent.
pub data Effect : Type 0 where
  spawned_proxy : (pid port : ℕ) (with_broker : Bool) → Effect
  spawned_broker : (pid : ℕ) → Effect
  terminated : (pid : ℕ) → Effect
  resolved_secrets removed_socket purged_overlay : Effect
  warned : Warning → Effect

-- What one poll of a starting process sees: the probe, liveness, and whether the sleep went on.
pub record Poll : Type 0 where
  pub probe : Bool
  pub alive : Bool
  pub slept : Bool

-- The answers of the system during one call. The flock excludes other calls meanwhile; polls are
-- answered anew at each attempt. `none` is an error.
pub record System : Type 0 where
  pub mkdir_ok : Bool
  pub acquire_ok : Bool
  pub read_ok : Bool
  pub write_ok : Bool
  pub torn : Contents
  pub alive : ℕ → Bool
  pub start_time : ℕ → Option ℕ
  pub probe : ℕ → Bool
  pub socket_probe : Bool
  pub try_reclaim : ℕ → Option Bool
  pub allocate : Option ℕ
  pub resolve_secrets : Option Bytes
  pub chmod_ok : Bool
  pub spawn : Option ℕ
  pub spawn_with_secret : Option ℕ
  pub proxy_poll : ℕ → Poll
  pub broker_poll : ℕ → Poll
  pub signal_ok : ℕ → Bool
  pub purge_ok : Bool

-- The lock file, and what was done, the latest first.
pub record World : Type 0 where
  pub lock : Contents
  pub done : List Effect

pub data Outcome (A : Type 0) : Type 0 where
  ok : A → Outcome A
  err : Failure → Outcome A

abbrev pub M : Type 0 → Type 0
M A = World → Outcome A × World

abbrev pub continue : {A B : Type 0} → (A → M B) → Outcome A × World → Outcome B × World
continue f (ok a, w) = f a w
continue f (err e, w) = (err e, w)

infixl 5 ◌>>=◌ ◌>>◌
abbrev pub ◌>>=◌ : {A B : Type 0} → M A → (A → M B) → M B
◌>>=◌ m f w = continue f (m w)

abbrev pub ◌>>◌ : {B : Type 0} → M (Unit {0}) → M B → M B
◌>>◌ m k = m >>= λ _. k

abbrev pub pure : {A : Type 0} → A → M A
pure a w = (ok a, w)

abbrev pub fail : {A : Type 0} → Failure → M A
fail e w = (err e, w)

abbrev pub emit : Effect → M (Unit {0})
emit e w = (ok tt, record w { done = e ∷ w.done })

abbrev pub nothing : M (Unit {0})
nothing = pure tt

abbrev pub require : Bool → Failure → M (Unit {0})
require b e = if b then nothing else fail e

abbrev pub when : Bool → M (Unit {0}) → M (Unit {0})
when b m = if b then m else nothing

unfoldable pub read_lock_file : System → M LockState
read_lock_file sys w = if sys.read_ok then (ok (parsed w.lock), w) else (err read_lock, w)

-- A failed write leaves the file in some state, `torn`.
unfoldable pub write_lock_file : System → LockState → M (Unit {0})
write_lock_file sys s w =
    if sys.write_ok
    then (ok tt, record w { lock = holds s })
    else (err write_lock, record w { lock = sys.torn })
