-- ===== src/Tests/BrokerWitnesses.antt =====
-- The broker's theorems at concrete stores and schedules.
use agent_creance.Prelude.{
  ℕ, ◌*◌, ◌≤◌, false, List, [], ◌∷◌, none, some, Bytes, codes, bytes_eq, All, arith, ◌≡◌, refl,
}
use agent_creance.Broker.Store.{
  Expiry, new_store, find, put, set, set_bytes, release, wipe, get, StoreOp, sets, run,
}
use agent_creance.Broker.Store.Kept.{Kept, IsZero, run-Kept, run-wipe, new_store-Kept}
use agent_creance.Broker.Store.Refines.{held}
use agent_creance.Broker.Server.{unknown_credential, expired, refusal, answer}
use agent_creance.Broker.Server.Answers.{IsAlive, answer-run}
use agent_creance.Broker.Refresher.{
  second, Round, Loop, github_margins, until_refresh, refresh_round, refresh_run,
}
use agent_creance.Broker.Refresher.Hot.{IsHot, ArePrompt, refresh_run-IsHot}

abbrev gh : Bytes
gh = codes "gh"

-- A static token, a minted one, and its rotation
abbrev ops : List StoreOp
ops =
    sets (codes "npm") (codes "s") none
    ∷ sets gh (codes "t1") (some 10)
    ∷ sets gh (codes "t2") (some 20)
    ∷ []

run-Kept_example : Kept (run ops new_store)
run-Kept_example = run-Kept ops

three_buffers : (run ops new_store).memory.next ≡ 3
unfolding run set_bytes set find put release bytes_eq
three_buffers = refl

run-wipe_example :
    IsZero ((wipe (run ops new_store)).memory.contents 2)
    × (find gh (wipe (run ops new_store)).entries ≡ none)
run-wipe_example = run-wipe ops 2 gh (rw three_buffers (omega arith))

answer-run_example :
    (held ops (λ n. none) gh ≡ none → answer (run ops new_store) 20 gh ≡ refusal unknown_credential)
    × ((bytes : Bytes) (t : ℕ)
        → held ops (λ n. none) gh ≡ some (bytes, some t)
        → t ≤ 20
        → answer (run ops new_store) 20 gh ≡ refusal expired)
    × ((bytes : Bytes) (x : Expiry)
        → held ops (λ n. none) gh ≡ some (bytes, x)
        → IsAlive 20 x
        → answer (run ops new_store) 20 gh ≡ record { token = bytes; expires_at = x; error = none })
answer-run_example = answer-run ops 20 gh

rotated_run :
    (answer (run ops new_store) 19 gh
      ≡ record { token = codes "t2"; expires_at = some 20; error = none })
    × (answer (run ops new_store) 20 gh ≡ refusal expired)
unfolding run set_bytes set find put release bytes_eq answer get
rotated_run = (refl, refl)

abbrev at_start : Loop
at_start = record { now = 0; store = new_store; warned = []; persisted = [] }

abbrev hourly : ℕ → Round
hourly expires_at = record {
  minted = some (codes "t", expires_at);
  took = second;
  rotated = none;
  draw = 30 * second;
  late = second;
  cancelled = false;
  stopped = false;
}

abbrev rounds : List Round
rounds = hourly (3601 * second) ∷ hourly (6903 * second) ∷ []

rounds-ArePrompt : ArePrompt github_margins false (10 * second) (5 * second) gh rounds at_start
unfolding refresh_round until_refresh
rounds-ArePrompt = (
  record {
    token = codes "t";
    expires_at = 3601 * second;
    mints = refl;
    quick = omega arith;
    wakes = omega arith;
    drawn = omega arith;
    lives = omega arith;
  },
  (
    record {
      token = codes "t";
      expires_at = 6903 * second;
      mints = refl;
      quick = omega arith;
      wakes = omega arith;
      drawn = omega arith;
      lives = omega arith;
    },
    tt,
  ),
)

refresh_run-IsHot_example :
    All (IsHot (10 * second) gh) (refresh_run github_margins false gh rounds at_start)
refresh_run-IsHot_example =
    refresh_run-IsHot github_margins false (10 * second) (5 * second) gh rounds at_start
      (omega arith) (omega arith) new_store-Kept rounds-ArePrompt

abbrev failing : Round
failing = record {
  minted = none;
  took = second;
  rotated = none;
  draw = 0;
  late = 0;
  cancelled = false;
  stopped = false;
}
