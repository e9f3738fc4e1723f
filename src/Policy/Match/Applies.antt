-- ===== src/Policy/Match/Applies.antt =====
-- When a rule matches a request, and with which of its patterns.
use agent_creance.Prelude.{
  Bool, false, List, [], ◌∷◌, Option, none, some, Bytes, In-select, select, ◌≡◌, refl, inl, inr, In,
  arith, Bool-cases, IsStrict, top, keep, IsTop-of_top, top_of_In, sym, ◌∙◌,
}
use agent_creance.Policy.Rule.{Rule, Request}
use agent_creance.Policy.Host.{HostCovers}
use agent_creance.Policy.Host.Cover.{match_host_iff}
use agent_creance.Policy.Path.{match_path, split_path, SegmentsCover}
use agent_creance.Policy.Path.Cover.{match_path_iff, match_method_iff, MethodCovers}
use agent_creance.Policy.Specificity.{rule_specificity, more_specific}
use agent_creance.Policy.Specificity.Order.{more_specific-IsStrict}
use agent_creance.Policy.Match.{better_path, best_path, path_matches, rule_matches}

abbrev pub PathsCover : Option (List Bytes) → Bytes → Type 0
PathsCover none path = Unit
PathsCover (some ps) path = (p : Bytes) × In p ps × SegmentsCover (split_path p) (split_path path)

-- The rule is about the request: its host pattern, its methods and one of its paths cover it.
pub record RuleApplies (r : Rule) (req : Request) : Type 0 where
  pub host : HostCovers r.host req.host
  pub method : MethodCovers r.methods req.method
  pub path : PathsCover r.paths req.path

-- The patterns that match, in the rule's order.
abbrev matching : Bytes → List Bytes → List Bytes
matching path ps = select (λ p. match_path p path) ps

abbrev above_for : Rule → Bytes → Bytes → Bool
above_for r p q = more_specific (rule_specificity r p) (rule_specificity r q)

above_for-IsStrict : (r : Rule) → IsStrict (above_for r)
above_for-IsStrict r = record {
  irrefl = λ p. more_specific-IsStrict.irrefl (rule_specificity r p);
  trans = λ p q s.
      more_specific-IsStrict.trans (rule_specificity r p) (rule_specificity r q)
        (rule_specificity r s);
}

keep-better_path :
    (r : Rule) (p : Bytes) (m : Option Bytes) → better_path r p m ≡ keep (above_for r) m p
unfolding better_path
keep-better_path r p none = refl
keep-better_path r p (some m) = refl

best_path-top :
    (r : Rule) (path : Bytes) (ps : List Bytes) (m : Option Bytes)
    → best_path r path ps m ≡ top (above_for r) m (matching path ps)
unfolding best_path select top
best_path-top r path [] m = refl
best_path-top r path (p ∷ ps) m = elim (Bool-cases (match_path p path)) [
  | inl e ↦ rw (e, keep-better_path r p m) (best_path-top r path ps (keep (above_for r) m p))
  | inr e ↦ rw e (best_path-top r path ps m)
]

-- The pattern is the rule's own, it covers the path, and no other such pattern is more specific.
-- A host-wide rule reports the empty pattern.
abbrev pub BestPattern : Rule → Bytes → Option (List Bytes) → Bytes → Type 0
BestPattern r path none p = p ≡ []
BestPattern r path (some ps) p =
    In p ps
    × SegmentsCover (split_path p) (split_path path)
    × ((q : Bytes)
        → In q ps
        → SegmentsCover (split_path q) (split_path path)
        → more_specific (rule_specificity r q) (rule_specificity r p) ≡ false)

path_matches_sound :
    (r : Rule) (path : Bytes) (paths : Option (List Bytes)) (p : Bytes)
    → path_matches r path paths ≡ some p
    → BestPattern r path paths p
unfolding path_matches
path_matches_sound r path none p e = ground arith
path_matches_sound r path (some ps) p e =
    let (h, up) =
      IsTop-of_top (above_for r) (above_for-IsStrict r) p (matching path ps)
        (sym (best_path-top r path ps none) ∙ e) in
    let (listed, m) = (In-select (λ p. match_path p path) ps p).0 h in
    (
      listed,
      (match_path_iff p path).0 m,
      λ q l c. up q ((In-select (λ p. match_path p path) ps q).1 (l, (match_path_iff q path).1 c)),
    )

path_matches_complete :
    (r : Rule) (path : Bytes) (paths : Option (List Bytes))
    → PathsCover paths path
    → (p : Bytes) × (path_matches r path paths ≡ some p)
unfolding path_matches
path_matches_complete r path none c = ([], refl)
path_matches_complete r path (some ps) (p, listed, c) =
    let (q, run, _) =
      top_of_In (above_for r) (above_for-IsStrict r) p (matching path ps)
        ((In-select (λ p. match_path p path) ps p).1 (listed, (match_path_iff p path).1 c)) in
    (q, best_path-top r path ps none ∙ run)

PathsCover-of_BestPattern :
    (r : Rule) (path : Bytes) (paths : Option (List Bytes)) (p : Bytes)
    → BestPattern r path paths p
    → PathsCover paths path
PathsCover-of_BestPattern r path none p b = tt
PathsCover-of_BestPattern r path (some ps) p (listed, c, _) = (p, listed, c)

-- A reported pattern means that the rule applies, and is the most specific of its patterns that
-- cover the path.
pub rule_matches_sound :
    (r : Rule) (req : Request) (p : Bytes)
    → rule_matches r req ≡ some p
    → RuleApplies r req × BestPattern r req.path r.paths p
unfolding rule_matches
rule_matches_sound r req p e =
    let b : BestPattern r req.path r.paths p =
      path_matches_sound r req.path r.paths p (ground arith) in
    (
      record {
        host = (match_host_iff r.host req.host).0 (ground arith);
        method = (match_method_iff r.methods req.method).0 (ground arith);
        path = PathsCover-of_BestPattern r req.path r.paths p b;
      },
      b,
    )

-- A rule that applies is reported with a pattern.
pub rule_matches_complete :
    (r : Rule) (req : Request) → RuleApplies r req → (p : Bytes) × (rule_matches r req ≡ some p)
unfolding rule_matches
rule_matches_complete r req a =
    let (p, run) = path_matches_complete r req.path r.paths a.path in
    (
      p,
      ground (
        arith,
        (match_host_iff r.host req.host).1 a.host,
        (match_method_iff r.methods req.method).1 a.method,
      ),
    )
