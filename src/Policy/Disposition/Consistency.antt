-- ===== src/Policy/Disposition/Consistency.antt =====
-- The two stages agree: what `HostDisposition` tunnels, `Decide` tunnels or denies host-wide, and
-- what it refuses, `Decide` refuses.
use agent_creance.Prelude.{
  ℕ, true, List, [], none, Bytes, ◌≡◌, ◌≢◌, ◌≤◌, ◌⊎◌, inl, inr, In, In-get_elem?, arith, refl, ◌∙◌,
}
use agent_creance.Policy.Rule.{Decision, Rule, RuleSet, Request, mode_passthrough}
use agent_creance.Policy.Host.{canonical_host, host_rank, HostCovers}
use agent_creance.Policy.Specificity.{rule_specificity}
use agent_creance.Policy.Specificity.Order.{host_rank_le}
use agent_creance.Policy.Match.{everything, decide, canonical_request}
use agent_creance.Policy.Match.Applies.{RuleApplies, rule_matches_sound, rule_matches_complete}
use agent_creance.Policy.Match.Best.{IsBest}
use agent_creance.Policy.Match.Verdict.{
  decide-allow, decide-hard_deny, decide-soft_deny_iff, decide_of_host_deny, SeesPath,
}
use agent_creance.Policy.Disposition.{host_disposition}
use agent_creance.Policy.Disposition.Tiers.{InTopTier, host_disposition-passthrough_iff}
use agent_creance.Policy.Disposition.Denies.{host_disposition-deny_reason}

-- What the config loader checks of passthrough rules: they carry no paths and no methods.
abbrev pub PassthroughIsBare : List Rule → Type 0
PassthroughIsBare rules =
    (r : Rule) → In r rules → r.mode ≡ mode_passthrough → (r.paths ≡ none) × (r.methods ≡ none)

bare-RuleApplies :
    (r : Rule) (req : Request)
    → HostCovers r.host req.host
    → r.paths ≡ none
    → r.methods ≡ none
    → RuleApplies r req
bare-RuleApplies r req h p m = record { host = h; method = rw m tt; path = rw p tt }

host_rank-rule_specificity :
    (r : Rule) (p : Bytes) → (rule_specificity r p).host_rank ≡ host_rank r.host
unfolding rule_specificity
host_rank-rule_specificity r p = refl

module _ (rs : RuleSet) (req : Request) (bare : PassthroughIsBare rs.allow)
    (passed : (host_disposition rs req.host).passthrough ≡ true) where
  tier : (r : Rule) × InTopTier rs.allow (canonical_host req.host) r
  tier = ((host_disposition-passthrough_iff rs req.host).0 passed).0

  all_pass : (r : Rule) → InTopTier rs.allow (canonical_host req.host) r → r.mode ≡ mode_passthrough
  all_pass = ((host_disposition-passthrough_iff rs req.host).0 passed).1

  tier_applies : RuleApplies tier.0 (canonical_request req)
  tier_applies =
      let (p, m) = bare tier.0 tier.1.listed (all_pass tier.0 tier.1) in
      bare-RuleApplies tier.0 (canonical_request req) tier.1.covers p m

  -- A most specific allow rule that applies stands in the top tier.
  best_passes :
      (i : ℕ) (r : Rule) (p : Bytes)
      → IsBest rs.allow (canonical_request req) everything i r p
      → r.mode ≡ mode_passthrough
  best_passes i r p b =
      let (q, m) = rule_matches_complete tier.0 (canonical_request req) tier_applies in
      let le : host_rank tier.0.host ≤ host_rank r.host = omega (
        arith,
        host_rank_le (rule_specificity tier.0 q) (rule_specificity r p)
            (b.best tier.0 q tier.1.listed (record { may = refl; matched = m })),
        host_rank-rule_specificity tier.0 q,
        host_rank-rule_specificity r p,
      ) in
      all_pass r (record {
        listed = In-get_elem? rs.allow i b.at;
        covers = (rule_matches_sound r (canonical_request req) p b.chosen.matched).0.host;
        highest = λ r' l c. omega (arith, le, tier.1.highest r' l c);
      })

  unseen : ¬ SeesPath rs req
  unseen (inl h) = h tier.0 tier.1.listed tier_applies
  unseen (inr (i, r, p, b, n)) = n (best_passes i r p b)

Decision-cases :
    (d : Decision) → (d ≡ Decision.allow) ⊎ (d ≡ Decision.soft_deny) ⊎ (d ≡ Decision.hard_deny)
Decision-cases Decision.allow = inl refl
Decision-cases Decision.soft_deny = inr (inl refl)
Decision-cases Decision.hard_deny = inr (inr refl)

-- Where the host is tunnelled at the first stage, and passthrough rules carry no paths and no
-- methods, every request to it is allowed under passthrough or hard-denied by a host-wide rule.
pub host_disposition-passthrough-decide :
    (rs : RuleSet) (req : Request)
    → PassthroughIsBare rs.allow
    → (host_disposition rs req.host).passthrough ≡ true
    → (((decide rs req).decision ≡ Decision.allow) × ((decide rs req).mode ≡ mode_passthrough))
      ⊎ (((decide rs req).decision ≡ Decision.hard_deny)
          × ((d : Rule) × In d rs.deny_always
              × (d.paths ≡ none)
              × RuleApplies d (canonical_request req)))
host_disposition-passthrough-decide rs req bare passed =
    elim (Decision-cases (decide rs req).decision) [
      | inl e ↦
          let (i, r, p, b, _, mode, _, _) = decide-allow rs req e in
          inl (e, mode ∙ best_passes rs req bare passed i r p b)
      | inr (inl e) ↦
          let (no_allow, _) = (decide-soft_deny_iff rs req).0 e in
          absurd (
            no_allow (tier rs req bare passed).0 (tier rs req bare passed).1.listed
              (tier_applies rs req bare passed))
      | inr (inr e) ↦
          let (i, d, at, applies, _, _, wide) = decide-hard_deny rs req e in
          inr (
            e,
            (
              d,
              In-get_elem? rs.deny_always i at,
              elim wide [ inl w ↦ w | inr seen ↦ absurd (unseen rs req bare passed seen) ],
              applies,
            ),
          )
    ]

-- Where a deny reason is given at the first stage, and no host-wide deny names methods, every
-- request to the host is hard-denied.
pub host_disposition-deny_reason-decide :
    (rs : RuleSet) (req : Request)
    → ((d : Rule) → In d rs.deny_always → d.paths ≡ none → d.methods ≡ none)
    → (host_disposition rs req.host).deny_reason ≢ []
    → (decide rs req).decision ≡ Decision.hard_deny
host_disposition-deny_reason-decide rs req bare given =
    elim (host_disposition-deny_reason rs req.host) [
      | inl (_, e) ↦ absurd (given e)
      | inr (d, h, _, _) ↦
          decide_of_host_deny rs req d h.listed h.wide
            (bare-RuleApplies d (canonical_request req) h.covers h.wide (bare d h.listed h.wide))
    ]
