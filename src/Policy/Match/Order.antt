-- ===== src/Policy/Match/Order.antt =====
-- The order in which rules are listed, and how often, decides nothing.
use agent_creance.Prelude.{
  ℕ, Bool, false, List, [], Option, none, some, Bytes, SameMembers, bytes_eq, ◌≡◌, refl, inl, inr,
  In, In-get_elem?, Option-cases, sym, ◌∙◌, ap,
}
use agent_creance.Strings.Affix.{Lacks, last_part_unique}
use agent_creance.Policy.Rule.{Decision, Rule, RuleSet, Request, Result, mode_passthrough}
use agent_creance.Policy.Specificity.{Specificity, rule_specificity, canonical_rule}
use agent_creance.Policy.Specificity.Order.{more_specific_total}
use agent_creance.Policy.Match.{
  best_match, everything, mode_at, carries_passthrough, eligible_deny, allow_result, verdict,
  decide, canonical_request,
}
use agent_creance.Policy.Match.Best.{IsBest, best_match-IsBest, best_match-some}

-- No mode holds the separator of the tie-break text.
abbrev pub HasPlainModes : List Rule → Type 0
HasPlainModes rules = (r : Rule) → In r rules → Lacks b'|' r.mode

canonical-rule_specificity :
    (r : Rule) (p : Bytes) → (rule_specificity r p).canonical ≡ canonical_rule r
unfolding rule_specificity
canonical-rule_specificity r p = refl

mode_of_specificity :
    (r r' : Rule) (p p' : Bytes)
    → Lacks b'|' r.mode
    → Lacks b'|' r'.mode
    → rule_specificity r p ≡ rule_specificity r' p'
    → r.mode ≡ r'.mode
mode_of_specificity r r' p p' h h' e = last_part_unique b'|' _ _ r.mode r'.mode h h' (
    sym (canonical-rule_specificity r p)
    ∙ ap (λ (s : Specificity). s.canonical) e
    ∙ canonical-rule_specificity r' p')

-- The mode that a search found.
found_mode : List Rule → Option ℕ → Option Bytes
found_mode rules none = none
found_mode rules (some i) = some (mode_at rules (some i))

module _ (req : Request) (eligible : Rule → Bool) (rules rules' : List Rule)
    (same : SameMembers rules rules') (plain : HasPlainModes rules) where
  best_modes :
      (i j : ℕ) (r r' : Rule) (p p' : Bytes)
      → IsBest rules req eligible i r p
      → IsBest rules' req eligible j r' p'
      → r.mode ≡ r'.mode
  best_modes i j r r' p p' b b' =
      let l : In r rules = In-get_elem? rules i b.at in
      let l' : In r' rules' = In-get_elem? rules' j b'.at in
      mode_of_specificity r r' p p' (plain r l) (plain r' ((same r').1 l')) (
        more_specific_total (rule_specificity r p) (rule_specificity r' p')
          (b'.best r p ((same r).0 l) b.chosen) (b.best r' p' ((same r').1 l') b'.chosen))

  found_also :
      (i : ℕ)
      → best_match rules req eligible ≡ some i
      → (j : ℕ) × (best_match rules' req eligible ≡ some j)
        × (mode_at rules (some i) ≡ mode_at rules' (some j))
  found_also i e =
      let (r, p, b) = best_match-IsBest req eligible rules i e in
      let (j, e') =
        best_match-some req eligible rules' r p ((same r).0 (In-get_elem? rules i b.at)) b.chosen in
      let (r', p', b') = best_match-IsBest req eligible rules' j e' in
      (j, e', rw (b.at, b'.at, mode_at) (best_modes i j r r' p p' b b'))

  not_found_also : best_match rules req eligible ≡ none → best_match rules' req eligible ≡ none
  not_found_also e = elim (Option-cases (best_match rules' req eligible)) [
    | inl n ↦ n
    | inr (j, f) ↦
        let (r, p, b) = best_match-IsBest req eligible rules' j f in
        let (i, g) =
          best_match-some req eligible rules r p ((same r).1 (In-get_elem? rules' j b.at))
            b.chosen in
        absurd (clash i g)
  ]
    where
      clash : (i : ℕ) → best_match rules req eligible ≡ some i → ⊥
      clash i g = cc

  found_mode-same :
      found_mode rules (best_match rules req eligible)
      ≡ found_mode rules' (best_match rules' req eligible)
  unfolding found_mode
  found_mode-same = elim (Option-cases (best_match rules req eligible)) [
    | inl e ↦ rw (e, not_found_also e)
    | inr (i, e) ↦ let (j, f, m) = found_also i e in rw (e, f) (ap some m)
  ]

-- A result but for the index of its rule.
abbrev pub Summary : Type 0
Summary = Decision × Bytes

abbrev pub summary : Result → Summary
summary v = (v.decision, v.mode)

summary_of : Option Bytes → Option Bytes → Summary
summary_of none none = (Decision.soft_deny, [])
summary_of (some m) none = (Decision.allow, m)
summary_of a (some m) = (Decision.hard_deny, m)

mode_passes : Option Bytes → Bool
mode_passes none = false
mode_passes (some m) = bytes_eq m mode_passthrough

mode_passes-found :
    (rules : List Rule) (o : Option ℕ)
    → carries_passthrough rules o ≡ mode_passes (found_mode rules o)
unfolding carries_passthrough mode_passes found_mode
mode_passes-found rules none = refl
mode_passes-found rules (some i) = refl

summary-verdict :
    (rs : RuleSet) (a d : Option ℕ)
    → summary (verdict rs a d) ≡ summary_of (found_mode rs.allow a) (found_mode rs.deny_always d)
unfolding verdict allow_result summary_of found_mode
summary-verdict rs none none = refl
summary-verdict rs (some i) none = refl
summary-verdict rs none (some j) = refl
summary-verdict rs (some i) (some j) = refl

module _ (rs : RuleSet) (req : Request) where
  abbrev allow_index : Option ℕ
  allow_index = best_match rs.allow (canonical_request req) everything

  -- The mode that the allow rules give, and that the deny rules give after it.
  abbrev allowed : Option Bytes
  allowed = found_mode rs.allow allow_index

  abbrev denied : Bool → Option Bytes
  denied passes =
      found_mode rs.deny_always
        (best_match rs.deny_always (canonical_request req) (eligible_deny passes))

  decide_lem :
      decide rs req
      ≡ verdict rs allow_index (
          best_match rs.deny_always
            (canonical_request req)
            (eligible_deny (carries_passthrough rs.allow allow_index)))
  unfolding decide
  decide_lem = refl

  summary-decide : summary (decide rs req) ≡ summary_of allowed (denied (mode_passes allowed))
  summary-decide =
      ap summary decide_lem
      ∙ summary-verdict rs allow_index _
      ∙ ap (λ b. summary_of allowed (denied b)) (mode_passes-found rs.allow allow_index)

-- Two rule sets with the same members, listed in any order and with any repetitions, give every
-- request the same decision and the same mode, where no mode holds the byte "|".
pub decide_reorder :
    (rs rs' : RuleSet) (req : Request)
    → SameMembers rs.allow rs'.allow
    → SameMembers rs.deny_always rs'.deny_always
    → HasPlainModes rs.allow
    → HasPlainModes rs.deny_always
    → ((decide rs req).decision ≡ (decide rs' req).decision)
      × ((decide rs req).mode ≡ (decide rs' req).mode)
decide_reorder rs rs' req sa sd pa pd =
    (ap (λ (v : Summary). v.0) same, ap (λ (v : Summary). v.1) same)
  where
    same_allowed : allowed rs req ≡ allowed rs' req
    same_allowed = found_mode-same (canonical_request req) everything rs.allow rs'.allow sa pa

    same_denied : (b : Bool) → denied rs req b ≡ denied rs' req b
    same_denied b =
        found_mode-same (canonical_request req) (eligible_deny b) rs.deny_always rs'.deny_always sd
          pd

    same : summary (decide rs req) ≡ summary (decide rs' req)
    same =
        summary-decide rs req
        ∙ ap (λ a. summary_of a (denied rs req (mode_passes a))) same_allowed
        ∙ ap (summary_of (allowed rs' req)) (same_denied (mode_passes (allowed rs' req)))
        ∙ sym (summary-decide rs' req)
