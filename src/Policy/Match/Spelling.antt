-- ===== src/Policy/Match/Spelling.antt =====
-- A request is decided by its host's canonical form alone.
use agent_creance.Prelude.{Bytes, [], ◌≡◌, refl, sym, ◌∙◌, ap}
use mathlib.Core.List.{append-nil}
use agent_creance.Policy.Rule.{RuleSet, Request}
use agent_creance.Policy.Host.{canonical_host}
use agent_creance.Policy.Host.Canonical.{IsBareHost, bare, Spelling, canonical_host-Spelling}
use agent_creance.Policy.Match.{decide, decide_canonical}

same_host : (h t : Bytes) → IsBareHost h → Spelling h t → canonical_host t ≡ canonical_host h
same_host h t b s =
    canonical_host-Spelling h t b s
    ∙ sym (canonical_host-Spelling h h b (h, [], sym (append-nil h), refl, bare))

-- Every spelling of a host, in any case and with or without a final dot and a port, gets the result
-- that the bare name gets.
pub decide-Spelling :
    (rs : RuleSet) (req : Request) (t : Bytes)
    → IsBareHost req.host
    → Spelling req.host t
    → decide rs (record req { host = t }) ≡ decide rs req
unfolding decide
decide-Spelling rs req t b s =
    ap (λ h. decide_canonical rs (record req { host = h })) (same_host req.host t b s)
