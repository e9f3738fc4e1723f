-- ===== src/Broker/Refresher.antt =====
-- The loop that keeps a minted token fresh (internal/broker/refresher.go). Times are nanoseconds.
-- What a minter and the sleeper do in one round of the loop is a record; a minter that rotates
-- nothing and one that cannot rotate are the same here.
pub mod Schedule
pub mod Hot
use agent_creance.Prelude.{
  ℕ, ◌+◌, ◌-◌, ◌*◌, Bool, true, false, List, [], ◌∷◌, Option, none, some, Bytes, if◌then◌else◌, ltb,
}
use agent_creance.Broker.Store.{Store, set_bytes}

pub record Margins : Type 0 where
  pub early : ℕ
  pub jitter : ℕ
  pub backoff : ℕ

abbrev pub second : ℕ
second = 1000000000

abbrev pub github_margins : Margins
github_margins = record { early = 300 * second; jitter = 30 * second; backoff = 30 * second }

abbrev pub oauth2_margins : Margins
oauth2_margins = record { early = 120 * second; jitter = 30 * second; backoff = 30 * second }

pub data Warning : Type 0 where
  mint_failed not_persisted : (name : Bytes) → Warning

-- `minted` is the token and its expiry, or none on a failure; `draw` is the random number below
-- twice the jitter; `late` is by how much the sleep is longer than asked; `cancelled` says that the
-- context is done when the mint fails, `stopped` that the sleep is cut short.
pub record Round : Type 0 where
  pub minted : Option (Bytes × ℕ)
  pub took : ℕ
  pub rotated : Option Bytes
  pub draw : ℕ
  pub late : ℕ
  pub cancelled : Bool
  pub stopped : Bool

pub record Loop : Type 0 where
  pub now : ℕ
  pub store : Store
  pub warned : List Warning
  pub persisted : List (Bytes × Bytes)

-- `untilRefresh`: where the difference is negative there is no sleep.
unfoldable pub until_refresh : Margins → ℕ → ℕ → ℕ → ℕ
until_refresh m now expires_at draw =
    if ltb 0 m.jitter
    then (expires_at + draw) - (now + m.early + m.jitter)
    else expires_at - (now + m.early)

-- `handleRotation`; the flag says whether the callback is set.
abbrev pub handle_rotation : Bool → Bytes → Option Bytes → Loop → Loop
handle_rotation persists name none l = l
handle_rotation persists name (some token) l =
    if persists
    then record l { persisted = (name, token) ∷ l.persisted }
    else record l { warned = not_persisted name ∷ l.warned }

abbrev pub slept : ℕ → Loop → Loop
slept d l = record l { now = l.now + d }

-- One round after the mint returns, and whether the loop goes on.
abbrev pub after_mint : Margins → Bool → Bytes → Round → Option (Bytes × ℕ) → Loop → Loop × Bool
after_mint m persists name r none l = if r.cancelled then (l, false) else (
  slept (m.backoff + r.late) (record l { warned = mint_failed name ∷ l.warned }),
  if r.stopped then false else true,
)
after_mint m persists name r (some (token, expires_at)) l = (
  slept (until_refresh m l.now expires_at r.draw + r.late) (
      handle_rotation persists name r.rotated
        (record l { store = set_bytes l.store name token (some expires_at) })),
  if r.stopped then false else true,
)

unfoldable pub refresh_round : Margins → Bool → Bytes → Round → Loop → Loop × Bool
unfolding until_refresh
refresh_round m persists name r l = after_mint m persists name r r.minted (slept r.took l)

-- `Run`: the states in which the loop wakes
unfoldable pub refresh_run : Margins → Bool → Bytes → List Round → Loop → List Loop
unfolding refresh_round
refresh_run m persists name [] l = []
refresh_run m persists name (r ∷ rounds) l =
    let (l', on) = refresh_round m persists name r l in
    let rest = refresh_run m persists name rounds l' in l' ∷ (if on then rest else [])
