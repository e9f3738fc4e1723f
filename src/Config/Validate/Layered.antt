-- ===== src/Config/Validate/Layered.antt =====
-- Validated configurations under merging and in the matcher (internal/config, internal/policy).
use agent_creance.Prelude.{
  List, [], none, map, true, ◌∙◌, ◌≡◌, sym, ap, subst, ◌⊎◌, inl, inr, In, arith, length,
}
use agent_creance.Strings.Affix.{Lacks}
use agent_creance.Policy.Rule
use agent_creance.Policy.Rule.{Decision, Request, mode_intercept, mode_passthrough}
use agent_creance.Policy.Match.{decide, canonical_request}
use agent_creance.Policy.Match.Applies.{RuleApplies}
use agent_creance.Policy.Disposition.{host_disposition}
use agent_creance.Policy.Disposition.Consistency.{
  PassthroughIsBare, host_disposition-passthrough-decide,
}
use agent_creance.Policy.FromConfig.{rule_from_config, from_config}
use agent_creance.Policy.FromConfig.Layers.{decided, In-map_cases, merge_comm-decided}
use agent_creance.Config.Model
use agent_creance.Config.Model.{Config}
use agent_creance.Config.Merge.{merge}
use agent_creance.Config.Merge.Laws.{merge-IsUnion}
use agent_creance.Config.Validate.{validate_rules}
use agent_creance.Config.Validate.Meaning.{IsValid, ModeFits}
use agent_creance.Config.Validate.Accepted.{validate_rules_iff}

-- The rules of the configuration pass the validation.
abbrev pub Validated : Config → Type 0
Validated c =
    (validate_rules c.network.egress.allow ≡ [])
    × (validate_rules c.network.egress.deny_always ≡ [])

united :
    (xs ys zs : List Model.Rule)
    → ((r : Model.Rule) → In r zs → In r xs ⊎ In r ys)
    → validate_rules xs ≡ []
    → validate_rules ys ≡ []
    → validate_rules zs ≡ []
united xs ys zs from vx vy = (validate_rules_iff zs).1 (λ r m. elim (from r m) [
  | inl x ↦ (validate_rules_iff xs).0 vx r x
  | inr y ↦ (validate_rules_iff ys).0 vy r y
])

-- Merging configurations whose rules each pass the validation of their own file gives one whose
-- rules pass it: the merged configuration needs no second validation of them.
pub merge-Validated :
    (base over : Config) → Validated base → Validated over → Validated (merge base over)
merge-Validated base over (ba, bd) (oa, od) =
    let ((allow, _), (deny, _), _, _) = merge-IsUnion base over in
    (united _ _ _ (λ r. (allow r).0) ba oa, united _ _ _ (λ r. (deny r).0) bd od)

intercept_plain : Lacks b'|' mode_intercept
intercept_plain = omega arith

passthrough_plain : Lacks b'|' mode_passthrough
passthrough_plain = omega arith

IsValid-Lacks : (r : Model.Rule) → IsValid r → Lacks b'|' r.mode
IsValid-Lacks r v = elim v.mode [
  | inl e ↦ subst (Lacks b'|') (sym e) intercept_plain
  | inr (e, _, _, _) ↦ subst (Lacks b'|') (sym e) passthrough_plain
]

-- For validated configurations, which of two files is layered over the other decides no request.
pub merge_comm-Validated :
    (a b : Config) (req : Request)
    → Validated a
    → Validated b
    → decided (merge a b) req ≡ decided (merge b a) req
merge_comm-Validated a b req (aa, ad) (ba, bd) =
    merge_comm-decided a b req
      (λ r m. IsValid-Lacks r (either a.network.egress.allow b.network.egress.allow aa ba r m))
      (λ r m.
        IsValid-Lacks r
          (either a.network.egress.deny_always b.network.egress.deny_always ad bd r m))
  where
    either :
        (xs ys : List Model.Rule)
        → validate_rules xs ≡ []
        → validate_rules ys ≡ []
        → (r : Model.Rule) → In r xs ⊎ In r ys
        → IsValid r
    either xs ys vx vy r (inl m) = (validate_rules_iff xs).0 vx r m
    either xs ys vx vy r (inr m) = (validate_rules_iff ys).0 vy r m

bare :
    (rules : List Model.Rule)
    → validate_rules rules ≡ []
    → PassthroughIsBare (map rule_from_config rules)
bare rules v r m e =
    let (c, mc, same) = In-map_cases rule_from_config rules r m in
    by_mode c same ((validate_rules_iff rules).0 v c mc).mode
  where
    by_mode :
        (c : Model.Rule)
        → r ≡ rule_from_config c
        → ModeFits c
        → (r.paths ≡ none) × (r.methods ≡ none)
    by_mode c same (inl i) = absurd (differ (sym e ∙ ap (λ (x : Rule.Rule). x.mode) same ∙ i))
      where
        differ : mode_passthrough ≡ mode_intercept → ⊥
        differ h = omega (arith, ap length h)
    by_mode c same (inr (_, p, q, _)) =
        (ap (λ (x : Rule.Rule). x.paths) same ∙ p, ap (λ (x : Rule.Rule). x.methods) same ∙ q)

-- Under a validated configuration, every request to a host that is tunnelled at the CONNECT stage
-- is allowed under passthrough or hard-denied by a host-wide rule.
pub tunnel-Validated :
    (c : Config) (req : Request)
    → Validated c
    → (host_disposition (from_config c.network.egress) req.host).passthrough ≡ true
    → ((decided c req ≡ Decision.allow)
        × ((decide (from_config c.network.egress) req).mode ≡ mode_passthrough))
      ⊎ ((decided c req ≡ Decision.hard_deny)
          × ((d : Rule.Rule) × In d (from_config c.network.egress).deny_always
              × (d.paths ≡ none)
              × RuleApplies d (canonical_request req)))
tunnel-Validated c req (va, _) passed =
    host_disposition-passthrough-decide (from_config c.network.egress) req
      (bare c.network.egress.allow va) passed
