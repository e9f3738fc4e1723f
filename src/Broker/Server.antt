-- ===== src/Broker/Server.antt =====
-- What the broker answers (internal/broker/server.go, internal/broker/protocol.go).
pub mod Answers
use agent_creance.Prelude.{ℕ, Bool, true, false, [], Option, none, some, Bytes, if◌then◌else◌, leb}
use agent_creance.Broker.Store.{Entry, Expiry, Memory, Store, find, get}

pub data AnswerError : Type 0 where
  unknown_credential expired : AnswerError

pub record Response : Type 0 where
  pub token : Bytes
  pub expires_at : Expiry
  pub error : Option AnswerError

abbrev pub refusal : AnswerError → Response
refusal e = record { token = []; expires_at = none; error = some e }

-- Whether the instant is set and not after `now`
abbrev pub is_past : ℕ → Expiry → Bool
is_past now none = false
is_past now (some t) = leb t now

abbrev pub answer_entry : Memory → ℕ → Option Entry → Response
answer_entry m now none = refusal unknown_credential
answer_entry m now (some e) =
    if is_past now e.expires_at
    then refusal expired
    else record { token = m.contents e.token; expires_at = e.expires_at; error = none }

unfoldable pub answer : Store → ℕ → Bytes → Response
unfolding get
answer s now name = answer_entry s.memory now (get s name)

-- What arrives on a connection: nothing, as from a readiness probe, bytes that are no request, or
-- one
pub data Received : Type 0 where
  hung_up malformed : Received
  asked : (credential : Bytes) → Received

-- `handle`: what is written to the connection
abbrev pub handle : Store → ℕ → Received → Option Response
handle s now hung_up = none
handle s now malformed = none
handle s now (asked credential) = some (answer s now credential)
