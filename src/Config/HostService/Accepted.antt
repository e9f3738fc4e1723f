-- ===== src/Config/HostService/Accepted.antt =====
-- Which host services are accepted (internal/config/validate.go, `parseHostService`).
use agent_creance.Prelude.{◌≤◌, false, [], ◌∷◌, ◌++◌, Bytes, any, ◌≡◌, ◌≢◌}
use agent_creance.Config.Model.{HostService}
use agent_creance.Config.Validate.{is_control_rune}

-- What the parser accepts
pub record IsService (s : Bytes) (hs : HostService) : Type 0 where
  pub filled : hs.label ≢ []
  pub clean : any is_control_rune hs.label ≡ false
  pub low : 1 ≤ hs.port
  pub high : hs.port ≤ 65535
  pub rest : Bytes
  pub whole : s ≡ hs.label ++ b':' ∷ rest
