-- ===== src/Policy/Compile/Union.antt =====
-- What a compiled rule set holds (internal/policy/compile/compile.go).
use agent_creance.Prelude.{
  true, List, [], ◌∷◌, ◌++◌, Bytes, any, ◌≡◌, refl, ◌∙◌, ap, subst, ◌⊎◌, inl, inr, In, Bool-cases,
  or_iff, In-append_cases, In-append_left, In-append_right,
}
use agent_creance.Policy.Rule.{Rule, Request}
use agent_creance.Policy.Match.Applies.{RuleApplies, PathsCover}
use agent_creance.Policy.Path.Cover.{MethodCovers}
use agent_creance.Policy.Host.{HostCovers}
use agent_creance.Policy.FromConfig.{rule_from_config}
use agent_creance.Policy.FromConfig.Layers.{In-map}
use agent_creance.Config.Model
use agent_creance.Config.Model.{Config}
use agent_creance.Config.Merge.Equality.{of_rule}
use agent_creance.Policy.Compile.{
  source_explicit, source_global, source_once, annotate, rule_key, dedupe_rules_from,
  compiled_rules,
}

-- A rule of the list with the same key
abbrev pub HasKey : Rule → List Rule → Type 0
HasKey r rules = (k : Rule) × In k rules × (rule_key r ≡ rule_key k)

any_key :
    (r : Rule) (kept : List Rule)
    → any (λ (k : Rule). of_rule.same (rule_key r) (rule_key k)) kept ≡ true
    → HasKey r kept
any_key r [] h = cc
any_key r (k ∷ kept) h = elim ((or_iff (of_rule.same (rule_key r) (rule_key k)) _).0 h) [
  | inl e ↦ (k, inl refl, (of_rule.same_iff (rule_key r) (rule_key k)).0 e)
  | inr e ↦ let (x, m, same) = any_key r kept e in (x, inr m, same)
]

dedupe-kept : (kept rules : List Rule) (r : Rule) → In r kept → In r (dedupe_rules_from kept rules)
unfolding dedupe_rules_from
dedupe-kept kept [] r h = h
dedupe-kept kept (x ∷ rules) r h =
    elim (Bool-cases (any (λ (k : Rule). of_rule.same (rule_key x) (rule_key k)) kept)) [
      | inl e ↦ rw e (dedupe-kept kept rules r h)
      | inr e ↦ rw e (dedupe-kept (kept ++ x ∷ []) rules r (In-append_left kept (x ∷ []) r h))
    ]

-- Every rule survives up to its provenance.
dedupe-HasKey :
    (kept rules : List Rule) (r : Rule) → In r rules → HasKey r (dedupe_rules_from kept rules)
unfolding dedupe_rules_from
dedupe-HasKey kept [] r h = absurd h
dedupe-HasKey kept (x ∷ rules) r h =
    elim (Bool-cases (any (λ (k : Rule). of_rule.same (rule_key x) (rule_key k)) kept)) [
      | inl e ↦ rw e (elim h [
        | inl here ↦
            let (k, m, same) = any_key x kept e in
            (k, dedupe-kept kept rules k m, ap (λ (y : Rule). rule_key y) here ∙ same)
        | inr there ↦ dedupe-HasKey kept rules r there
      ])
      | inr e ↦ rw e (elim h [
        | inl here ↦ (
          x,
          dedupe-kept (kept ++ x ∷ []) rules x (In-append_right kept (x ∷ []) x (inl refl)),
          ap (λ (y : Rule). rule_key y) here,
        )
        | inr there ↦ dedupe-HasKey (kept ++ x ∷ []) rules r there
      ])
    ]

-- Nothing is added.
pub dedupe-from :
    (kept rules : List Rule) (r : Rule)
    → In r (dedupe_rules_from kept rules)
    → In r kept ⊎ In r rules
unfolding dedupe_rules_from
dedupe-from kept [] r = inl
dedupe-from kept (x ∷ rules) r =
    elim (Bool-cases (any (λ (k : Rule). of_rule.same (rule_key x) (rule_key k)) kept)) [
      | inl e ↦
          rw e (λ h. elim (dedupe-from kept rules r h) [ inl m ↦ inl m | inr m ↦ inr (inr m) ])
      | inr e ↦ rw e (λ h. elim (dedupe-from (kept ++ x ∷ []) rules r h) [
        | inl m ↦ elim (In-append_cases kept (x ∷ []) r m) [
          | inl old ↦ inl old
          | inr (inl here) ↦ inr (inl here)
          | inr (inr never) ↦ absurd never
        ]
        | inr m ↦ inr (inr m)
      ])
    ]

pub RuleApplies-key :
    (r k : Rule) (req : Request) → rule_key r ≡ rule_key k → RuleApplies r req → RuleApplies k req
RuleApplies-key r k req e a = record {
  host = subst (λ h. HostCovers h req.host) (ap (λ (x : Model.Rule). x.host) e) a.host;
  method = subst (λ m. MethodCovers m req.method) (ap (λ (x : Model.Rule). x.methods) e) a.method;
  path = subst (λ p. PathsCover p req.path) (ap (λ (x : Model.Rule). x.paths) e) a.path;
}

-- The rule stands in one of the three lists.
abbrev pub InLayers : Model.Rule → List Model.Rule → List Model.Rule → List Model.Rule → Type 0
InLayers r xs ys zs = In r xs ⊎ In r ys ⊎ In r zs

In-annotate :
    (rules : List Model.Rule) (source : Bytes) (d : Model.Rule)
    → In d rules
    → In (record (rule_from_config d) { source = source }) (annotate rules source)
unfolding annotate
In-annotate rules source d h =
    In-map (λ (r : Model.Rule). record (rule_from_config r) { source = source }) rules d h

pub deny_stands :
    (global project overlay : Config) (generated : List Rule) (d : Model.Rule)
    → InLayers d global.network.egress.deny_always project.network.egress.deny_always
        overlay.network.egress.deny_always
    → HasKey (rule_from_config d) (compiled_rules global project overlay generated).deny_always
deny_stands global project overlay generated d (inl m) =
    dedupe-HasKey [] _ (record (rule_from_config d) { source = source_global })
      (In-append_left _ _ _ (In-annotate global.network.egress.deny_always source_global d m))
deny_stands global project overlay generated d (inr (inl m)) =
    dedupe-HasKey [] _ (record (rule_from_config d) { source = source_explicit })
      (In-append_right (annotate global.network.egress.deny_always source_global) _ _
        (In-append_left _ _ _ (In-annotate project.network.egress.deny_always source_explicit d m)))
deny_stands global project overlay generated d (inr (inr m)) =
    dedupe-HasKey [] _ (record (rule_from_config d) { source = source_once })
      (In-append_right (annotate global.network.egress.deny_always source_global) _ _ (
        In-append_right (annotate project.network.egress.deny_always source_explicit) _ _
          (In-annotate overlay.network.egress.deny_always source_once d m)))
