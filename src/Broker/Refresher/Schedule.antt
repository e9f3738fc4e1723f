-- ===== src/Broker/Refresher/Schedule.antt =====
-- When the loop wakes (internal/broker/refresher.go, `untilRefresh`).
use agent_creance.Prelude.{ℕ, ◌+◌, ◌*◌, ◌<◌, ◌≤◌, arith, ◌≡◌}
use agent_creance.Broker.Refresher.{Margins, until_refresh}

-- With a positive jitter and a draw below twice the jitter, the loop sleeps until a moment within
-- the jitter of the early margin before the expiry, where that moment has not begun to pass; less
-- than twice the jitter, where it has; and not at all, where it is over.
pub until_refresh_bounds :
    (m : Margins) (now expires_at draw : ℕ)
    → 0 < m.jitter
    → draw < 2 * m.jitter
    → (now + m.early + m.jitter ≤ expires_at
        → (expires_at ≤ now + until_refresh m now expires_at draw + m.early + m.jitter)
          × (now + until_refresh m now expires_at draw + m.early < expires_at + m.jitter))
      × (expires_at < now + m.early + m.jitter → until_refresh m now expires_at draw < 2 * m.jitter)
      × (expires_at + m.jitter ≤ now + m.early → until_refresh m now expires_at draw ≡ 0)
unfolding until_refresh
until_refresh_bounds m now expires_at draw j d = ground arith
