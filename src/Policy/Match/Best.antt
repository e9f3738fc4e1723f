-- ===== src/Policy/Match/Best.antt =====
-- `bestMatch` returns a most specific rule among those that are eligible and match.
use agent_creance.Prelude.{
  ℕ, suc, ◌+◌, Bool, true, false, List, [], ◌∷◌, Option, none, some, Bytes, if◌then◌else◌,
  get_elem?, ◌≡◌, refl, ◌⊎◌, inl, inr, In, arith, Bool-cases, Option-cases, IsStrict, IsTop, top,
  keep, IsTop-of_top, top_of_In, sym, ◌∙◌, ap, subst,
}
use agent_creance.Policy.Rule.{Rule, Request}
use agent_creance.Policy.Specificity.{Specificity, rule_specificity, more_specific}
use agent_creance.Policy.Specificity.Order.{more_specific-IsStrict}
use agent_creance.Policy.Match.{
  rule_matches, Best, better_rule, consider, best_from, index_of, best_match,
}

-- A rule that the loop may choose, and the pattern that it matches by.
pub record Candidate (req : Request) (eligible : Rule → Bool) (r : Rule) (p : Bytes) : Type 0 where
  pub may : eligible r ≡ true
  pub matched : rule_matches r req ≡ some p

-- The rule stands at the index, and no candidate is more specific.
pub record IsBest (rules : List Rule) (req : Request) (eligible : Rule → Bool) (i : ℕ) (r : Rule)
    (p : Bytes) : Type 0 where
  pub at : get_elem? rules i ≡ some r
  pub chosen : Candidate req eligible r p
  pub best :
      (r' : Rule) (p' : Bytes)
      → In r' rules
      → Candidate req eligible r' p'
      → more_specific (rule_specificity r' p') (rule_specificity r p) ≡ false

abbrev Scored : Type 0
Scored = ℕ × Specificity

above : Scored → Scored → Bool
above (i, a) (j, b) = more_specific a b

above-IsStrict : IsStrict above
unfolding above
above-IsStrict = record {
  irrefl = λ a. more_specific-IsStrict.irrefl a.1;
  trans = λ a b c. more_specific-IsStrict.trans a.1 b.1 c.1;
}

-- What `consider` adds to the candidates.
entry : ℕ → Rule → Option Bytes → List Scored → List Scored
entry i r none rest = rest
entry i r (some p) rest = (i, rule_specificity r p) ∷ rest

module _ (req : Request) (eligible : Rule → Bool) where
  scored : ℕ → List Rule → List Scored
  unfolding entry
  scored i [] = []
  scored i (r ∷ rules) =
      if eligible r
      then entry i r (rule_matches r req) (scored (suc i) rules)
      else scored (suc i) rules

  keep-better_rule : (i : ℕ) (s : Specificity) (b : Best) → better_rule i s b ≡ keep above b (i, s)
  unfolding better_rule above
  keep-better_rule i s none = refl
  keep-better_rule i s (some (j, b)) = refl

  best_from-top :
      (rules : List Rule) (i : ℕ) (b : Best)
      → best_from rules req eligible i b ≡ top above b (scored i rules)
  unfolding best_from scored consider top
  best_from-top [] i b = refl
  best_from-top (r ∷ rules) i b = elim (Bool-cases (eligible r)) [
    | inr e ↦ rw e (best_from-top rules (suc i) b)
    | inl e ↦ elim (Option-cases (rule_matches r req)) [
      | inl n ↦ rw (e, n) (best_from-top rules (suc i) b)
      | inr (p, m) ↦
          rw (e, m, keep-better_rule i (rule_specificity r p) b)
            (best_from-top rules (suc i) (keep above b (i, rule_specificity r p)))
    ]
  ]

  -- What a score stands for.
  record Scores (k : ℕ) (rules : List Rule) (v : Scored) : Type 0 where
    index : ℕ
    place : v.0 ≡ k + index
    rule : Rule
    at : get_elem? rules index ≡ some rule
    pattern : Bytes
    chosen : Candidate req eligible rule pattern
    score : v.1 ≡ rule_specificity rule pattern

  Scores-cons :
      (k : ℕ) (r : Rule) (rules : List Rule) (v : Scored)
      → Scores (suc k) rules v
      → Scores k (r ∷ rules) v
  Scores-cons k r rules v s = record {
    index = suc s.index;
    place = s.place ∙ omega arith;
    rule = s.rule;
    at = s.at;
    pattern = s.pattern;
    chosen = s.chosen;
    score = s.score;
  }

  scored-skip :
      (k : ℕ) (r : Rule) (rules : List Rule)
      → eligible r ≡ false
      → scored k (r ∷ rules) ≡ scored (suc k) rules
  unfolding scored
  scored-skip k r rules e = rw e

  scored-none :
      (k : ℕ) (r : Rule) (rules : List Rule)
      → rule_matches r req ≡ none
      → scored k (r ∷ rules) ≡ scored (suc k) rules
  unfolding scored
  scored-none k r rules e = ground arith

  scored-some :
      (k : ℕ) (r : Rule) (rules : List Rule) (p : Bytes)
      → Candidate req eligible r p
      → scored k (r ∷ rules) ≡ (k, rule_specificity r p) ∷ scored (suc k) rules
  unfolding scored
  scored-some k r rules p c = rw (c.may, c.matched)

  Scores-first :
      (k : ℕ) (r : Rule) (rules : List Rule) (p : Bytes) (v : Scored)
      → Candidate req eligible r p
      → v ≡ (k, rule_specificity r p)
      → Scores k (r ∷ rules) v
  Scores-first k r rules p v c e = record {
    index = 0;
    place = ap (λ (u : Scored). u.0) e ∙ omega arith;
    rule = r;
    at = refl;
    pattern = p;
    chosen = c;
    score = ap (λ (u : Scored). u.1) e;
  }

  Scores-of_In : (k : ℕ) (rules : List Rule) (v : Scored) → In v (scored k rules) → Scores k rules v
  unfolding scored
  Scores-of_In k [] v h = absurd h
  Scores-of_In k (r ∷ rules) v h = elim (Bool-cases (eligible r)) [
    | inr e ↦
        Scores-cons k r rules v
          (Scores-of_In (suc k) rules v (subst (In v) (scored-skip k r rules e) h))
    | inl e ↦ elim (Option-cases (rule_matches r req)) [
      | inl n ↦
          Scores-cons k r rules v
            (Scores-of_In (suc k) rules v (subst (In v) (scored-none k r rules n) h))
      | inr (p, m) ↦
          let c : Candidate req eligible r p = record { may = e; matched = m } in
          let h' : (v ≡ (k, rule_specificity r p)) ⊎ In v (scored (suc k) rules) =
            subst (In v) (scored-some k r rules p c) h in
          elim h' [
            | inl first ↦ Scores-first k r rules p v c first
            | inr later ↦ Scores-cons k r rules v (Scores-of_In (suc k) rules v later)
          ]
    ]
  ]

  In-scored_cons :
      (k : ℕ) (q : Rule) (rules : List Rule) (v : Scored)
      → In v (scored (suc k) rules)
      → In v (scored k (q ∷ rules))
  In-scored_cons k q rules v h = elim (Bool-cases (eligible q)) [
    | inr e ↦ subst (In v) (sym (scored-skip k q rules e)) h
    | inl e ↦ elim (Option-cases (rule_matches q req)) [
      | inl n ↦ subst (In v) (sym (scored-none k q rules n)) h
      | inr (p, m) ↦
          subst (In v) (sym (scored-some k q rules p (record { may = e; matched = m }))) (inr h)
    ]
  ]

  In-scored :
      (k : ℕ) (rules : List Rule) (r : Rule) (p : Bytes)
      → In r rules
      → Candidate req eligible r p
      → (i : ℕ) × In (i, rule_specificity r p) (scored k rules)
  In-scored k [] r p h c = absurd h
  In-scored k (q ∷ rules) r p (inl e) c = (
    k,
    subst (λ u. In (k, rule_specificity r p) (scored k (u ∷ rules))) e
        (subst (In (k, rule_specificity r p)) (sym (scored-some k r rules p c)) (inl refl)),
  )
  In-scored k (q ∷ rules) r p (inr h) c =
      let (i, l) = In-scored (suc k) rules r p h c in (i, In-scored_cons k q rules _ l)

  IsBest-of_IsTop :
      (rules : List Rule) (v : Scored)
      → IsTop above above-IsStrict v (scored 0 rules)
      → (r : Rule) × (p : Bytes) × IsBest rules req eligible v.0 r p
  unfolding above
  IsBest-of_IsTop rules v (h, up) =
      let s : Scores 0 rules v = Scores-of_In 0 rules v h in
      let same : s.index ≡ v.0 = omega (arith, s.place) in
      (
        s.rule,
        s.pattern,
        record {
          at = subst (λ j. get_elem? rules j ≡ some s.rule) same s.at;
          chosen = s.chosen;
          best = λ r' p' l c.
              (let (i, m) = In-scored 0 rules r' p' l c in
                subst (λ t. more_specific (rule_specificity r' p') t ≡ false) s.score (up _ m));
        },
      )

  -- An index that is returned is that of a best rule.
  pub best_match-IsBest :
      (rules : List Rule) (i : ℕ)
      → best_match rules req eligible ≡ some i
      → (r : Rule) × (p : Bytes) × IsBest rules req eligible i r p
  unfolding best_match
  best_match-IsBest rules i e =
      let (s, run) = found (best_from rules req eligible 0 none) i e in
      IsBest-of_IsTop rules (i, s)
        (IsTop-of_top above above-IsStrict (i, s) (scored 0 rules)
          (sym (best_from-top rules 0 none) ∙ run))
    where
      found : (b : Best) (i : ℕ) → index_of b ≡ some i → (s : Specificity) × (b ≡ some (i, s))
      found none i e = cc
      found (some (j, s)) i e = (s, ground arith)

  -- An index is returned if some rule is eligible and matches.
  pub best_match-some :
      (rules : List Rule) (r : Rule) (p : Bytes)
      → In r rules
      → Candidate req eligible r p
      → (i : ℕ) × (best_match rules req eligible ≡ some i)
  unfolding best_match
  best_match-some rules r p h c =
      let (i, m) = In-scored 0 rules r p h c in
      let (w, run, _) = top_of_In above above-IsStrict _ (scored 0 rules) m in
      (w.0, ap index_of (best_from-top rules 0 none ∙ run))
