-- ===== src/Broker/Refresher/Hot.antt =====
-- What is in the store while the loop runs (internal/broker/refresher.go).
use agent_creance.Prelude.{
  ℕ, ◌+◌, ◌*◌, ◌<◌, ◌≤◌, Bool, true, false, List, [], ◌∷◌, Option, none, some, Bytes, All, arith,
  ◌≡◌, refl, ◌∙◌, if◌then◌else◌, Bool-cases, inl, inr,
}
use agent_creance.Broker.Store.{set_bytes}
use agent_creance.Broker.Store.Kept.{Kept, set_bytes-Kept}
use agent_creance.Broker.Store.Refines.{read, read-set_bytes}
use agent_creance.Broker.Refresher.{
  Margins, Round, Loop, until_refresh, handle_rotation, slept, refresh_round, refresh_run,
}

-- A token is held under the name, and `spare` from now it is still alive.
pub record IsHot (spare : ℕ) (name : Bytes) (l : Loop) : Type 0 where
  pub token : Bytes
  pub expires_at : ℕ
  pub holds : read l.store name ≡ some (token, some expires_at)
  pub alive : l.now + spare < expires_at

-- The round mints, in time and with a token that lives long enough, and wakes in time.
pub record IsPrompt (m : Margins) (slow over : ℕ) (r : Round) (now : ℕ) : Type 0 where
  pub token : Bytes
  pub expires_at : ℕ
  pub mints : r.minted ≡ some (token, expires_at)
  pub quick : r.took ≤ slow
  pub wakes : r.late ≤ over
  pub drawn : r.draw < 2 * m.jitter
  pub lives : now + r.took + over + slow < expires_at

-- So does every round of a run.
abbrev pub ArePrompt : Margins → Bool → ℕ → ℕ → Bytes → List Round → Loop → Type 0
ArePrompt m persists slow over name [] l = Unit
ArePrompt m persists slow over name (r ∷ rounds) l =
    IsPrompt m slow over r l.now
    × ArePrompt m persists slow over name rounds (refresh_round m persists name r l).0

rotation_store :
    (p : Bool) (name : Bytes) (o : Option Bytes) (l : Loop)
    → (handle_rotation p name o l).store ≡ l.store
rotation_store p name none l = refl
rotation_store true name (some t) l = refl
rotation_store false name (some t) l = refl

rotation_now :
    (p : Bool) (name : Bytes) (o : Option Bytes) (l : Loop)
    → (handle_rotation p name o l).now ≡ l.now
rotation_now p name none l = refl
rotation_now true name (some t) l = refl
rotation_now false name (some t) l = refl

wakes_before :
    (m : Margins) (slow over now e draw late : ℕ)
    → 0 < m.jitter
    → m.jitter + over + slow < m.early
    → draw < 2 * m.jitter
    → late ≤ over
    → now + over + slow < e
    → now + (until_refresh m now e draw + late) + slow < e
unfolding until_refresh
wakes_before m slow over now e draw late j room d l lives = ground arith

round-IsHot :
    (m : Margins) (persists : Bool) (slow over : ℕ) (name : Bytes) (r : Round) (l : Loop)
    → 0 < m.jitter
    → m.jitter + over + slow < m.early
    → Kept l.store
    → IsPrompt m slow over r l.now
    → Kept (refresh_round m persists name r l).0.store
      × IsHot slow name (refresh_round m persists name r l).0
unfolding refresh_round
round-IsHot m persists slow over name r l j room kept p =
    rw
      (
        p.mints,
        rotation_store persists name r.rotated held,
        rotation_now persists name r.rotated held,
      )
      (
        set_bytes-Kept l.store name p.token (some p.expires_at) kept,
        record {
          token = p.token;
          expires_at = p.expires_at;
          holds = read-set_bytes l.store name p.token (some p.expires_at) kept;
          alive =
              wakes_before m slow over (l.now + r.took) p.expires_at r.draw r.late j room p.drawn
                p.wakes p.lives;
        },
      )
  where
    held : Loop
    held = record (slept r.took l) { store = set_bytes l.store name p.token (some p.expires_at) }

All-if : (P : Loop → Type 0) (b : Bool) (ls : List Loop) → All P ls → All P (if b then ls else [])
All-if P true ls h = h
All-if P false ls h = tt

-- Where the early margin is more than the jitter, the longest mint and the longest oversleep
-- together, and every round mints in time a token that outlives the next mint, the loop wakes each
-- time with an unexpired token in the store, which lasts until the next mint is over.
pub refresh_run-IsHot :
    (m : Margins) (persists : Bool) (slow over : ℕ) (name : Bytes) (rounds : List Round) (l : Loop)
    → 0 < m.jitter
    → m.jitter + over + slow < m.early
    → Kept l.store
    → ArePrompt m persists slow over name rounds l
    → All (IsHot slow name) (refresh_run m persists name rounds l)
unfolding refresh_run
refresh_run-IsHot m persists slow over name [] l j room kept p = tt
refresh_run-IsHot m persists slow over name (r ∷ rounds) l j room kept (p, ps) =
    let (kept', hot) = round-IsHot m persists slow over name r l j room kept p in
    (
      hot,
      All-if (IsHot slow name) (refresh_round m persists name r l).1 _ (
          refresh_run-IsHot m persists slow over name rounds (refresh_round m persists name r l).0 j
            room kept' ps),
    )

-- No round mints.
abbrev pub AllFail : List Round → Type 0
AllFail rounds = All (λ (r : Round). r.minted ≡ none) rounds

-- The store and the persisted tokens are as before, and no time was taken back.
abbrev pub Untouched : Loop → Loop → Type 0
Untouched l l' = (l'.store ≡ l.store) × (l'.persisted ≡ l.persisted) × (l.now ≤ l'.now)

failed_round :
    (m : Margins) (persists : Bool) (name : Bytes) (r : Round) (l : Loop)
    → r.minted ≡ none
    → Untouched l (refresh_round m persists name r l).0
unfolding refresh_round
failed_round m persists name r l e = rw e (elim (Bool-cases r.cancelled) [
  | inl stop ↦ rw stop (refl, refl, omega arith)
  | inr on ↦ rw on (refl, refl, omega arith)
])

Untouched-trans : (a b c : Loop) → Untouched a b → Untouched b c → Untouched a c
Untouched-trans a b c (p, q, r) (p', q', r') = (p' ∙ p, q' ∙ q, omega arith)

-- Rounds whose mint fails never touch the store: whenever the loop wakes, the token that was held
-- before is held still, and nothing was persisted.
pub refresh_run-failing :
    (m : Margins) (persists : Bool) (name : Bytes) (rounds : List Round) (l : Loop)
    → AllFail rounds
    → All (Untouched l) (refresh_run m persists name rounds l)
unfolding refresh_run
refresh_run-failing m persists name [] l f = tt
refresh_run-failing m persists name (r ∷ rounds) l (e, f) = (
  failed_round m persists name r l e,
  All-if (Untouched l) (refresh_round m persists name r l).1 _ (
      weaken (refresh_run m persists name rounds (refresh_round m persists name r l).0)
        (refresh_run-failing m persists name rounds (refresh_round m persists name r l).0 f)),
)
  where
    weaken :
        (ls : List Loop)
        → All (Untouched (refresh_round m persists name r l).0) ls
        → All (Untouched l) ls
    weaken [] h = tt
    weaken (x ∷ ls) (u, us) = (
      Untouched-trans l (refresh_round m persists name r l).0 x (failed_round m persists name r l e)
          u,
      weaken ls us,
    )
