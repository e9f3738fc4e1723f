-- ===== src/Policy/FromConfig/Layers.antt =====
-- What layering configurations does to decisions (internal/config/merge.go, internal/policy).
use agent_creance.Prelude.{List, [], ◌∷◌, map, none, ◌≡◌, refl, sym, ap, subst, ◌⊎◌, inl, inr, In}
use agent_creance.Strings.Affix.{Lacks}
use agent_creance.Policy.Rule.{Decision, Rule, Request}
use agent_creance.Policy.Match.{decide, canonical_request}
use agent_creance.Policy.Match.Applies.{RuleApplies}
use agent_creance.Policy.Match.Verdict.{decide_of_host_deny}
use agent_creance.Policy.Match.Order.{decide_reorder}
use agent_creance.Policy.FromConfig.{rule_from_config, rules_from_config, from_config}
use agent_creance.Config.Model
use agent_creance.Config.Model.{Config}
use agent_creance.Config.Merge.{merge}
use agent_creance.Config.Merge.Laws.{merge-IsUnion}

pub In-map : {A B : Type 0} (f : A → B) (xs : List A) (a : A) → In a xs → In (f a) (map f xs)
In-map f [] a h = h
In-map f (x ∷ xs) a (inl e) = inl (ap f e)
In-map f (x ∷ xs) a (inr h) = inr (In-map f xs a h)

pub In-map_cases :
    {A B : Type 0} (f : A → B) (xs : List A) (b : B)
    → In b (map f xs)
    → (a : A) × In a xs × (b ≡ f a)
In-map_cases f [] b h = absurd h
In-map_cases f (x ∷ xs) b (inl e) = (x, inl refl, e)
In-map_cases f (x ∷ xs) b (inr h) = let (a, m, e) = In-map_cases f xs b h in (a, inr m, e)

-- The decision under a configuration's rules, all of them from files.
abbrev pub decided : Config → Request → Decision
decided c req = (decide (from_config c.network.egress) req).decision

-- A host-wide deny of any layer that applies is a hard deny under the merged configuration: no file
-- layered below or above lifts it.
pub merge-hard_deny :
    (base over : Config) (d : Model.Rule) (req : Request)
    → In d base.network.egress.deny_always ⊎ In d over.network.egress.deny_always
    → d.paths ≡ none
    → RuleApplies (rule_from_config d) (canonical_request req)
    → decided (merge base over) req ≡ Decision.hard_deny
merge-hard_deny base over d req h wide applies =
    let (_, (denies, _), _, _) = merge-IsUnion base over in
    decide_of_host_deny (from_config (merge base over).network.egress) req (rule_from_config d)
      (In-map rule_from_config (merge base over).network.egress.deny_always d ((denies d).1 h)) wide
      applies

swap : {A B : Type 0} → A ⊎ B → B ⊎ A
swap (inl a) = inr a
swap (inr b) = inl b

same_rules :
    (xs ys : List Model.Rule)
    → ((r : Model.Rule) → In r xs → In r ys)
    → (r : Rule) → In r (rules_from_config xs)
    → In r (rules_from_config ys)
same_rules xs ys h r m =
    let (c, mc, e) = In-map_cases rule_from_config xs r m in
    subst (λ x. In x (rules_from_config ys)) (sym e) (In-map rule_from_config ys c (h c mc))

-- No configured mode of the two holds the byte that separates the fields of a rule's text.
abbrev pub PlainModes : List Model.Rule → List Model.Rule → Type 0
PlainModes xs ys = (r : Model.Rule) → In r xs ⊎ In r ys → Lacks b'|' r.mode

-- Which of two files is layered over the other decides no request, where no rule's mode holds the
-- byte "|".
pub merge_comm-decided :
    (a b : Config) (req : Request)
    → PlainModes a.network.egress.allow b.network.egress.allow
    → PlainModes a.network.egress.deny_always b.network.egress.deny_always
    → decided (merge a b) req ≡ decided (merge b a) req
merge_comm-decided a b req pa pd =
    let ((ab_allow, _), (ab_deny, _), _, _) = merge-IsUnion a b in
    let ((ba_allow, _), (ba_deny, _), _, _) = merge-IsUnion b a in
    (decide_reorder (from_config (merge a b).network.egress)
      (from_config (merge b a).network.egress) req
      (λ r. (
        same_rules _ _ (λ c m. (ba_allow c).1 (swap ((ab_allow c).0 m))) r,
        same_rules _ _ (λ c m. (ab_allow c).1 (swap ((ba_allow c).0 m))) r,
      ))
      (λ r. (
        same_rules _ _ (λ c m. (ba_deny c).1 (swap ((ab_deny c).0 m))) r,
        same_rules _ _ (λ c m. (ab_deny c).1 (swap ((ba_deny c).0 m))) r,
      ))
      (λ r m.
        let (c, mc, e) = In-map_cases rule_from_config (merge a b).network.egress.allow r m in
        subst (λ (x : Rule). Lacks b'|' x.mode) (sym e) (pa c ((ab_allow c).0 mc)))
      (λ r m.
        let (c, mc, e) = In-map_cases rule_from_config (merge a b).network.egress.deny_always r m in
        subst (λ (x : Rule). Lacks b'|' x.mode) (sym e) (pd c ((ab_deny c).0 mc)))).0
