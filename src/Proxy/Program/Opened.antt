-- ===== src/Proxy/Program/Opened.antt =====
-- How every operation begins: the flock is taken and the lock is read.
use agent_creance.Prelude.{Bool, true, false, if◌then◌else◌, ◌≡◌, refl, ◌⊎◌, inl, inr}
use agent_creance.Proxy.Lock.{LockState, parsed}
use agent_creance.Proxy.Program.{
  Failure, create_state_dir, acquire_lock, read_lock, System, World, Outcome, ok, err, M, ◌>>=◌,
  ◌>>◌, require, read_lock_file,
}

module _ {A : Type 0} where
  -- It runs on the lock's state, or it fails and the world is as it was.
  pub opened :
      (sys : System) (f : LockState → M A) (w : World)
      → ((require sys.acquire_ok acquire_lock >> (read_lock_file sys >>= f)) w
          ≡ f (parsed w.lock) w)
        ⊎ ((e : Failure) × ((require sys.acquire_ok acquire_lock >> (read_lock_file sys >>= f)) w
              ≡ (err e, w)))
  unfolding read_lock_file
  opened sys f w = by_answers sys.acquire_ok sys.read_ok
    where
      begun : (a c : Bool) → Outcome A × World
      begun a c =
          (require a acquire_lock
              >> ((λ x. if c then (ok (parsed x.lock), x) else (err read_lock, x)) >>= f))
            w

      by_answers :
          (a c : Bool)
          → (begun a c ≡ f (parsed w.lock) w) ⊎ ((e : Failure) × (begun a c ≡ (err e, w)))
      by_answers false c = inr (acquire_lock, refl)
      by_answers true false = inr (read_lock, refl)
      by_answers true true = inl refl

  pub opened_dir :
      (sys : System) (f : LockState → M A) (w : World)
      → ((require sys.mkdir_ok create_state_dir
              >> (require sys.acquire_ok acquire_lock >> (read_lock_file sys >>= f)))
            w
          ≡ f (parsed w.lock) w)
        ⊎ ((e : Failure) × ((require sys.mkdir_ok create_state_dir
                  >> (require sys.acquire_ok acquire_lock >> (read_lock_file sys >>= f)))
                w
              ≡ (err e, w)))
  opened_dir sys f w = by_answer sys.mkdir_ok
    where
      rest : M A
      rest = require sys.acquire_ok acquire_lock >> (read_lock_file sys >>= f)

      by_answer :
          (b : Bool)
          → ((require b create_state_dir >> rest) w ≡ f (parsed w.lock) w)
            ⊎ ((e : Failure) × ((require b create_state_dir >> rest) w ≡ (err e, w)))
      by_answer false = inr (create_state_dir, refl)
      by_answer true = opened sys f w
