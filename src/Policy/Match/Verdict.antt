-- ===== src/Policy/Match/Verdict.antt =====
-- What each decision of `Decide` says of the rules.
use agent_creance.Prelude.{
  ℕ, Bool, true, false, List, Option, none, some, Bytes, get_elem?, bytes_eq_iff, ◌≡◌, ◌≢◌, refl,
  ◌↔◌, ◌⊎◌, inl, inr, In, In-get_elem?, arith, Bool-cases, Option-cases, sym, ◌∙◌, ap, subst,
}
use agent_creance.Policy.Rule.{Decision, RuleList, Rule, RuleSet, Request, Result, mode_passthrough}
use agent_creance.Policy.Match.{
  best_match, everything, is_host_wide, mode_at, carries_passthrough, eligible_deny, allow_result,
  verdict, decide, canonical_request,
}
use agent_creance.Policy.Match.Applies.{RuleApplies, rule_matches_sound, rule_matches_complete}
use agent_creance.Policy.Match.Best.{IsBest, best_match-IsBest, best_match-some}

pub mode_at_lem :
    (rules : List Rule) (i : ℕ) (r : Rule)
    → get_elem? rules i ≡ some r
    → mode_at rules (some i) ≡ r.mode
mode_at_lem rules i r e = rw (e, mode_at)

module _ (rules : List Rule) (req : Request) (eligible : Rule → Bool) where
  -- A rule that applies and may be chosen makes the search succeed.
  pub best_match_of_applies :
      (r : Rule)
      → In r rules
      → eligible r ≡ true
      → RuleApplies r req
      → (i : ℕ) × (best_match rules req eligible ≡ some i)
  best_match_of_applies r h may a =
      let (p, m) = rule_matches_complete r req a in
      best_match-some req eligible rules r p h (record { may = may; matched = m })

  pub none_applies :
      (r : Rule)
      → best_match rules req eligible ≡ none
      → In r rules
      → eligible r ≡ true
      → ¬ RuleApplies r req
  none_applies r e h may a = let (i, f) = best_match_of_applies r h may a in clash i f
    where
      clash : (i : ℕ) → best_match rules req eligible ≡ some i → ⊥
      clash i f = cc

  -- What the search found.
  pub record Chosen (i : ℕ) : Type 0 where
    pub rule : Rule
    pub listed : In rule rules
    pub found : get_elem? rules i ≡ some rule
    pub may : eligible rule ≡ true
    pub applies : RuleApplies rule req
    pub mode : mode_at rules (some i) ≡ rule.mode

  pub best_match-Chosen : (i : ℕ) → best_match rules req eligible ≡ some i → Chosen i
  best_match-Chosen i e =
      let (r, p, b) = best_match-IsBest req eligible rules i e in
      record {
        rule = r;
        listed = In-get_elem? rules i b.at;
        found = b.at;
        may = b.chosen.may;
        applies = (rule_matches_sound r req p b.chosen.matched).0;
        mode = mode_at_lem rules i r b.at;
      }

pub is_host_wide_iff : (r : Rule) → (is_host_wide r ≡ true) ↔ (r.paths ≡ none)
is_host_wide_iff r = ground arith

-- A host-wide deny is eligible on every host.
pub eligible_host_wide : (b : Bool) (r : Rule) → r.paths ≡ none → eligible_deny b r ≡ true
eligible_host_wide true r e = (is_host_wide_iff r).1 e
eligible_host_wide false r e = refl

carries_passthrough-none : (rules : List Rule) → carries_passthrough rules none ≡ false
unfolding carries_passthrough
carries_passthrough-none rules = refl

carries_passthrough-some :
    (rules : List Rule) (i : ℕ)
    → (carries_passthrough rules (some i) ≡ true) ↔ (mode_at rules (some i) ≡ mode_passthrough)
unfolding carries_passthrough
carries_passthrough-some rules i = bytes_eq_iff (mode_at rules (some i)) mode_passthrough

-- The three decisions by the two searches.
module _ (rs : RuleSet) where
  verdict-allow :
      (a d : Option ℕ)
      → (verdict rs a d).decision ≡ Decision.allow
      → (i : ℕ) × (a ≡ some i)
        × (d ≡ none)
        × ((verdict rs a d).mode ≡ mode_at rs.allow (some i))
        × ((verdict rs a d).matched ≡ some (record { list = RuleList.allow_list; index = i }))
  unfolding verdict allow_result
  verdict-allow (some i) none e = (i, refl, refl, refl, refl)
  verdict-allow none none e = cc
  verdict-allow a (some i) e = cc

  verdict-soft :
      (a d : Option ℕ) → (verdict rs a d).decision ≡ Decision.soft_deny → (a ≡ none) × (d ≡ none)
  unfolding verdict allow_result
  verdict-soft (some i) none e = cc
  verdict-soft none none e = (refl, refl)
  verdict-soft a (some i) e = cc

  verdict-hard :
      (a d : Option ℕ)
      → (verdict rs a d).decision ≡ Decision.hard_deny
      → (i : ℕ) × (d ≡ some i)
        × ((verdict rs a d).mode ≡ mode_at rs.deny_always (some i))
        × ((verdict rs a d).matched ≡ some (record { list = RuleList.deny_always_list; index = i }))
  unfolding verdict allow_result
  verdict-hard (some i) none e = cc
  verdict-hard none none e = cc
  verdict-hard a (some i) e = (i, refl, refl, refl)

  verdict_of_deny : (a : Option ℕ) (i : ℕ) → (verdict rs a (some i)).decision ≡ Decision.hard_deny
  unfolding verdict
  verdict_of_deny a i = refl

  verdict_of_none : (verdict rs none none).decision ≡ Decision.soft_deny
  unfolding verdict allow_result
  verdict_of_none = refl

module _ (rs : RuleSet) (req : Request) where
  -- The two searches of `decide`.
  abbrev allow_index : Option ℕ
  allow_index = best_match rs.allow (canonical_request req) everything

  passthrough : Bool
  passthrough = carries_passthrough rs.allow allow_index

  abbrev deny_index : Option ℕ
  deny_index = best_match rs.deny_always (canonical_request req) (eligible_deny passthrough)

  decide_lem : decide rs req ≡ verdict rs allow_index deny_index
  unfolding decide passthrough
  decide_lem = refl

  passthrough_mode :
      (i : ℕ)
      → allow_index ≡ some i
      → passthrough ≡ true
      → mode_at rs.allow (some i) ≡ mode_passthrough
  unfolding passthrough
  passthrough_mode i a h =
      (carries_passthrough-some rs.allow i).0
        (subst (λ o. carries_passthrough rs.allow o ≡ true) a h)

  passthrough_of_mode :
      (i : ℕ)
      → allow_index ≡ some i
      → mode_at rs.allow (some i) ≡ mode_passthrough
      → passthrough ≡ true
  unfolding passthrough
  passthrough_of_mode i a h =
      subst (λ o. carries_passthrough rs.allow o ≡ true) (sym a)
        ((carries_passthrough-some rs.allow i).1 h)

  not_passthrough : allow_index ≡ none → passthrough ≡ false
  unfolding passthrough
  not_passthrough a = ap (carries_passthrough rs.allow) a ∙ carries_passthrough-none rs.allow

  -- A deny that applies though none was found has paths, on a passthrough host.
  denies_left :
      (d : Rule)
      → deny_index ≡ none
      → In d rs.deny_always
      → RuleApplies d (canonical_request req)
      → (d.paths ≢ none) × (passthrough ≡ true)
  denies_left d e h applies = (
    λ wide. spared (eligible_host_wide passthrough d wide),
    elim (Bool-cases passthrough) [
      | inl p ↦ p
      | inr n ↦ absurd (spared (ap (λ b. eligible_deny b d) n))
    ],
  )
    where
      spared : ¬ (eligible_deny passthrough d ≡ true)
      spared may =
          none_applies rs.deny_always (canonical_request req) (eligible_deny passthrough) d e h may
            applies

  -- A request is allowed only under an allow rule that applies, at the reported index; no allow
  -- rule that applies is more specific, its mode is carried, no host-wide deny applies, and no deny
  -- with paths applies unless that mode is passthrough.
  pub decide-allow :
      (decide rs req).decision ≡ Decision.allow
      → (i : ℕ) × (r : Rule) × (p : Bytes) × IsBest rs.allow
          (canonical_request req)
          everything
          i
          r
          p
        × RuleApplies r (canonical_request req)
        × ((decide rs req).mode ≡ r.mode)
        × ((decide rs req).matched ≡ some (record { list = RuleList.allow_list; index = i }))
        × ((d : Rule)
            → In d rs.deny_always
            → RuleApplies d (canonical_request req)
            → (d.paths ≢ none) × (r.mode ≡ mode_passthrough))
  decide-allow e =
      let (i, a, d, m, at) =
        verdict-allow rs allow_index deny_index
          (ap (λ (v : Result). v.decision) (sym decide_lem) ∙ e) in
      let (r, p, b) = best_match-IsBest (canonical_request req) everything rs.allow i a in
      let mode : mode_at rs.allow (some i) ≡ r.mode = mode_at_lem rs.allow i r b.at in
      (
        i,
        r,
        p,
        b,
        (rule_matches_sound r (canonical_request req) p b.chosen.matched).0,
        ap (λ (v : Result). v.mode) decide_lem ∙ m ∙ mode,
        ap (λ (v : Result). v.matched) decide_lem ∙ at,
        λ q h applies.
            let (scoped, passes) = denies_left q d h applies in
            (scoped, sym mode ∙ passthrough_mode i a passes),
      )

  -- A host-wide deny that applies is a hard deny, whatever the allow rules say.
  pub decide_of_host_deny :
      (d : Rule)
      → In d rs.deny_always
      → d.paths ≡ none
      → RuleApplies d (canonical_request req)
      → (decide rs req).decision ≡ Decision.hard_deny
  decide_of_host_deny d h wide applies =
      let (i, e) =
        best_match_of_applies rs.deny_always (canonical_request req) (eligible_deny passthrough) d h
          (eligible_host_wide passthrough d wide) applies in
      ap (λ (v : Result). v.decision) (decide_lem ∙ ap (verdict rs allow_index) e)
      ∙ verdict_of_deny rs allow_index i

  -- The proxy sees the path: no allow rule applies, or a most specific one does not pass the host
  -- through.
  abbrev pub SeesPath : Type 0
  SeesPath =
      ((r : Rule) → In r rs.allow → ¬ RuleApplies r (canonical_request req))
      ⊎ ((i : ℕ) × (r : Rule) × (p : Bytes) × IsBest rs.allow (canonical_request req) everything i r
            p
          × (r.mode ≢ mode_passthrough))

  seen_path : passthrough ≡ false → SeesPath
  seen_path n = elim (Option-cases allow_index) [
    | inl a ↦ inl (λ r h. none_applies rs.allow (canonical_request req) everything r a h refl)
    | inr (i, a) ↦
        let (r, p, b) = best_match-IsBest (canonical_request req) everything rs.allow i a in
        inr (
          i,
          r,
          p,
          b,
          λ same. differ (passthrough_of_mode i a (mode_at_lem rs.allow i r b.at ∙ same)) n,
        )
  ]
    where
      differ : passthrough ≡ true → passthrough ≡ false → ⊥
      differ p n = cc

  -- A hard deny reports the index of a deny rule that applies, whose mode is carried; it is
  -- host-wide unless the proxy sees the path.
  pub decide-hard_deny :
      (decide rs req).decision ≡ Decision.hard_deny
      → (i : ℕ) × (d : Rule) × (get_elem? rs.deny_always i ≡ some d)
        × RuleApplies d (canonical_request req)
        × ((decide rs req).mode ≡ d.mode)
        × ((decide rs req).matched ≡ some (record { list = RuleList.deny_always_list; index = i }))
        × ((d.paths ≡ none) ⊎ SeesPath)
  decide-hard_deny e =
      let (i, d, m, at) =
        verdict-hard rs allow_index deny_index
          (ap (λ (v : Result). v.decision) (sym decide_lem) ∙ e) in
      let c : Chosen rs.deny_always (canonical_request req) (eligible_deny passthrough) i =
        best_match-Chosen rs.deny_always (canonical_request req) (eligible_deny passthrough) i d in
      (
        i,
        c.rule,
        c.found,
        c.applies,
        ap (λ (v : Result). v.mode) decide_lem ∙ m ∙ c.mode,
        ap (λ (v : Result). v.matched) decide_lem ∙ at,
        elim (Bool-cases passthrough) [
          | inl p ↦
              inl ((is_host_wide_iff c.rule).0 (sym (ap (λ b. eligible_deny b c.rule) p) ∙ c.may))
          | inr n ↦ inr (seen_path n)
        ],
      )

  -- A request is soft-denied exactly if no rule of either list applies.
  pub decide-soft_deny_iff : ((decide rs req).decision ≡ Decision.soft_deny) ↔ (
      ((r : Rule) → In r rs.allow → ¬ RuleApplies r (canonical_request req))
      × ((d : Rule) → In d rs.deny_always → ¬ RuleApplies d (canonical_request req)))
  decide-soft_deny_iff = (
    λ e.
        let (a, d) =
          verdict-soft rs allow_index deny_index
            (ap (λ (v : Result). v.decision) (sym decide_lem) ∙ e) in
        (
          λ r h. none_applies rs.allow (canonical_request req) everything r a h refl,
          λ r h applies. spared (not_passthrough a) ((denies_left r d h applies).1),
        ),
    λ (no_allow, no_deny).
        ap (λ (v : Result). v.decision)
          (decide_lem
            ∙ ap (λ a. verdict rs a deny_index) (not_found rs.allow everything no_allow)
            ∙ ap (verdict rs none) (not_found rs.deny_always (eligible_deny passthrough) no_deny))
        ∙ verdict_of_none rs,
  )
    where
      spared : passthrough ≡ false → passthrough ≡ true → ⊥
      spared n p = cc

      not_found :
          (rules : List Rule) (eligible : Rule → Bool)
          → ((r : Rule) → In r rules → ¬ RuleApplies r (canonical_request req))
          → best_match rules (canonical_request req) eligible ≡ none
      not_found rules eligible h =
          elim (Option-cases (best_match rules (canonical_request req) eligible)) [
            | inl e ↦ e
            | inr (i, e) ↦
                let c : Chosen rules (canonical_request req) eligible i =
                  best_match-Chosen rules (canonical_request req) eligible i e in
                absurd (h c.rule c.listed c.applies)
          ]
