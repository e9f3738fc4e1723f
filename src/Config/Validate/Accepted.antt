-- ===== src/Config/Validate/Accepted.antt =====
-- The rules that `validateRules` accepts (internal/config/validate.go).
use agent_creance.Prelude.{
  Bool, true, false, ◌&&◌, not, List, [], ◌∷◌, ◌++◌, if◌then◌else◌, bytes_eq, bytes_eq_iff, ◌≡◌,
  refl, sym, subst, ◌∙◌, ◌⊎◌, inl, inr, ◌↔◌, In, Bool-cases,
}
use agent_creance.Policy.Rule.{mode_intercept, mode_passthrough}
use agent_creance.Config.Model.{Rule}
use agent_creance.Config.Validate.{
  host_method_issues, set_issue, mode_issues, issue_if, auth_issues, validate_rules,
  passthrough_paths, passthrough_methods, inject_in_cage, passthrough_inject, unknown_mode,
}
use agent_creance.Config.Validate.Meaning.{
  ModeFits, IsValid, append_nil_iff, host_method_issues_iff, set_issue_iff, issue_if_iff, contrary,
  nand_cases, nand_of, modes_differ,
}

-- The mode and the auth axis of a rule.
abbrev Fits : Rule → Type 0
Fits r = ModeFits r × ((r.inject ≡ []) ⊎ (r.in_cage ≡ false))

Fits-of_issues : (r : Rule) → mode_issues r ≡ [] → auth_issues r ≡ [] → Fits r
unfolding mode_issues auth_issues
Fits-of_issues r m a =
    (by_mode (bytes_eq r.mode mode_intercept) refl (bytes_eq r.mode mode_passthrough) refl m, auth)
  where
    caged : (not (bytes_eq r.inject []) && r.in_cage) ≡ false
    caged =
        (issue_if_iff (not (bytes_eq r.inject []) && r.in_cage) inject_in_cage).0
          ((append_nil_iff (issue_if (not (bytes_eq r.inject []) && r.in_cage) inject_in_cage) (
              issue_if (not (bytes_eq r.inject []) && bytes_eq r.mode mode_passthrough)
                passthrough_inject)).0
            a).0

    tunnelled : (not (bytes_eq r.inject []) && bytes_eq r.mode mode_passthrough) ≡ false
    tunnelled =
        (issue_if_iff (not (bytes_eq r.inject []) && bytes_eq r.mode mode_passthrough)
            passthrough_inject).0
          ((append_nil_iff (issue_if (not (bytes_eq r.inject []) && r.in_cage) inject_in_cage) (
              issue_if (not (bytes_eq r.inject []) && bytes_eq r.mode mode_passthrough)
                passthrough_inject)).0
            a).1

    auth : (r.inject ≡ []) ⊎ (r.in_cage ≡ false)
    auth = elim (nand_cases (bytes_eq r.inject []) r.in_cage caged) [
      | inl e ↦ inl ((bytes_eq_iff r.inject []).0 e)
      | inr e ↦ inr e
    ]

    by_mode :
        (b : Bool)
        → bytes_eq r.mode mode_intercept ≡ b
        → (c : Bool) → bytes_eq r.mode mode_passthrough ≡ c
        → (if b
            then []
            else if c
            then set_issue passthrough_paths r.paths ++ set_issue passthrough_methods r.methods
            else unknown_mode ∷ [])
          ≡ []
        → ModeFits r
    by_mode true e c f h = inl ((bytes_eq_iff r.mode mode_intercept).0 e)
    by_mode false e false f h = cc
    by_mode false e true f h =
        let (p, q) =
          (append_nil_iff (set_issue passthrough_paths r.paths)
              (set_issue passthrough_methods r.methods)).0
            h in
        inr (
          (bytes_eq_iff r.mode mode_passthrough).0 f,
          (set_issue_iff passthrough_paths r.paths).0 p,
          (set_issue_iff passthrough_methods r.methods).0 q,
          elim (nand_cases (bytes_eq r.inject []) (bytes_eq r.mode mode_passthrough) tunnelled) [
            | inl x ↦ (bytes_eq_iff r.inject []).0 x
            | inr x ↦ contrary (bytes_eq r.mode mode_passthrough) f x
          ],
        )

issues_of_Fits : (r : Rule) → Fits r → (mode_issues r ≡ []) × (auth_issues r ≡ [])
unfolding mode_issues auth_issues
issues_of_Fits r (fits, auth) = (
  by_mode fits,
  (append_nil_iff _ _).1
      ((issue_if_iff _ inject_in_cage).1 caged, (issue_if_iff _ passthrough_inject).1 tunnelled),
)
  where
    caged : (not (bytes_eq r.inject []) && r.in_cage) ≡ false
    caged =
        nand_of (bytes_eq r.inject []) r.in_cage
          (elim auth [ inl e ↦ inl ((bytes_eq_iff r.inject []).1 e) | inr e ↦ inr e ])

    no_tunnel :
        r.mode ≡ mode_intercept → (b : Bool) → bytes_eq r.mode mode_passthrough ≡ b → b ≡ false
    no_tunnel e true f = modes_differ (sym ((bytes_eq_iff r.mode mode_passthrough).0 f) ∙ e)
    no_tunnel e false f = refl

    tunnelled : (not (bytes_eq r.inject []) && bytes_eq r.mode mode_passthrough) ≡ false
    tunnelled = nand_of (bytes_eq r.inject []) (bytes_eq r.mode mode_passthrough) (elim fits [
      | inl e ↦ inr (no_tunnel e (bytes_eq r.mode mode_passthrough) refl)
      | inr (_, _, _, i) ↦ inl ((bytes_eq_iff r.inject []).1 i)
    ])

    by_mode :
        ModeFits r
        → (if bytes_eq r.mode mode_intercept
            then []
            else if bytes_eq r.mode mode_passthrough
            then set_issue passthrough_paths r.paths ++ set_issue passthrough_methods r.methods
            else unknown_mode ∷ [])
          ≡ []
    by_mode (inl e) = rw ((bytes_eq_iff r.mode mode_intercept).1 e) refl
    by_mode (inr (e, p, q, _)) = elim (Bool-cases (bytes_eq r.mode mode_intercept)) [
      | inl x ↦ rw x refl
      | inr x ↦ rw (x, (bytes_eq_iff r.mode mode_passthrough).1 e, p, q) refl
    ]

rule_iff :
    (r : Rule) → ((host_method_issues r ++ (mode_issues r ++ auth_issues r)) ≡ []) ↔ IsValid r
rule_iff r = (
  λ h.
      let (hm, ma) = (append_nil_iff (host_method_issues r) (mode_issues r ++ auth_issues r)).0 h in
      let (m, a) = (append_nil_iff (mode_issues r) (auth_issues r)).0 ma in
      let (host, methods) = (host_method_issues_iff r).0 hm in
      let (mode, auth) = Fits-of_issues r m a in
      record { host = host; methods = methods; mode = mode; auth = auth },
  λ v.
      let (m, a) = issues_of_Fits r (v.mode, v.auth) in
      (append_nil_iff (host_method_issues r) (mode_issues r ++ auth_issues r)).1 (
        (host_method_issues_iff r).1 (v.host, v.methods),
        (append_nil_iff (mode_issues r) (auth_issues r)).1 (m, a),
      ),
)

-- The validation of a list records no issue exactly if every rule of it has a host that passes the
-- host check, names only known methods, has one of the two modes, a passthrough rule without paths,
-- methods and credential, and is not both injected and in the cage.
pub validate_rules_iff :
    (rules : List Rule) → (validate_rules rules ≡ []) ↔ ((r : Rule) → In r rules → IsValid r)
unfolding validate_rules
validate_rules_iff [] = (λ _ r h. absurd h, λ _. refl)
validate_rules_iff (x ∷ rules) = (
  λ h r m.
      let (here, there) = (append_nil_iff _ (validate_rules rules)).0 h in
      elim m [
        | inl e ↦ subst IsValid (sym e) ((rule_iff x).0 here)
        | inr k ↦ (validate_rules_iff rules).0 there r k
      ],
  λ h.
      (append_nil_iff _ (validate_rules rules)).1
        ((rule_iff x).1 (h x (inl refl)), (validate_rules_iff rules).1 (λ r m. h r (inr m))),
)
