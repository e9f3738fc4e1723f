-- ===== src/Broker/Server/Answers.antt =====
-- The answer to a request, by what was set (internal/broker/server.go).
use agent_creance.Prelude.{
  ℕ, ◌<◌, ◌≤◌, List, Option, none, some, Bytes, arith, ◌≡◌, refl, ◌∙◌, ap, if◌then◌else◌,
}
use agent_creance.Broker.Store.{Entry, Expiry, Store, new_store, StoreOp, run, get}
use agent_creance.Broker.Store.Refines.{held, content_of, read, run-read}
use agent_creance.Broker.Server.{
  Response, unknown_credential, expired, refusal, is_past, answer_entry, answer,
}

-- The instant is not set, or after `now`.
abbrev pub IsAlive : ℕ → Expiry → Type 0
IsAlive now none = Unit
IsAlive now (some t) = now < t

abbrev from_content : ℕ → Option (Bytes × Expiry) → Response
from_content now none = refusal unknown_credential
from_content now (some (bytes, x)) =
    if is_past now x
    then refusal expired
    else record { token = bytes; expires_at = x; error = none }

answer-content :
    (s : Store) (now : ℕ) (name : Bytes) → answer s now name ≡ from_content now (read s name)
unfolding answer
answer-content s now name = by_entry (get s name)
  where
    by_entry :
        (o : Option Entry) → answer_entry s.memory now o ≡ from_content now (content_of s.memory o)
    by_entry none = refl
    by_entry (some e) = refl

-- After any sequence of sets and wipes, a request at any time is answered by what was last set
-- under its name since the last wipe: its bytes, if its expiry is not set or after that time;
-- `expired`, without a token, at and after the expiry; and `unknown_credential` if nothing was set.
pub answer-run :
    (ops : List StoreOp) (now : ℕ) (name : Bytes)
    → (held ops (λ n. none) name ≡ none
        → answer (run ops new_store) now name ≡ refusal unknown_credential)
      × ((bytes : Bytes) (t : ℕ)
          → held ops (λ n. none) name ≡ some (bytes, some t)
          → t ≤ now
          → answer (run ops new_store) now name ≡ refusal expired)
      × ((bytes : Bytes) (x : Expiry)
          → held ops (λ n. none) name ≡ some (bytes, x)
          → IsAlive now x
          → answer (run ops new_store) now name
            ≡ record { token = bytes; expires_at = x; error = none })
answer-run ops now name = (
  λ h. whole ∙ ap (from_content now) h,
  λ bytes t h past. whole ∙ ap (from_content now) h ∙ dead bytes t past,
  λ bytes x h alive. whole ∙ ap (from_content now) h ∙ lives bytes x alive,
)
  where
    whole : answer (run ops new_store) now name ≡ from_content now (held ops (λ n. none) name)
    whole = answer-content (run ops new_store) now name ∙ ap (from_content now) (run-read ops name)

    dead :
        (bytes : Bytes) (t : ℕ)
        → t ≤ now
        → from_content now (some (bytes, some t)) ≡ refusal expired
    dead bytes t p = ground arith

    lives :
        (bytes : Bytes) (x : Expiry)
        → IsAlive now x
        → from_content now (some (bytes, x))
          ≡ record { token = bytes; expires_at = x; error = none }
    lives bytes none p = refl
    lives bytes (some t) p = ground arith
