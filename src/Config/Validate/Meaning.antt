-- ===== src/Config/Validate/Meaning.antt =====
-- What rules pass the checks (internal/config/validate.go).
use agent_creance.Prelude.{
  Bool, true, false, ◌&&◌, not, List, [], ◌∷◌, ◌++◌, Option, none, some, Bytes, any, if◌then◌else◌,
  bytes_eq, bytes_eq_iff, length, ◌≡◌, refl, sym, subst, ap, ◌⊎◌, inl, inr, ◌↔◌, In, Bool-cases,
  arith,
}
use agent_creance.Strings.{contains_byte, trim_prefix, has_prefix}
use agent_creance.Policy.Rule.{mode_intercept, mode_passthrough}
use agent_creance.Config.Model.{Rule}
use agent_creance.Config.Validate.{
  HostError, MethodError, Issue, missing_host, validate_host, known_methods, is_known,
  validate_methods, host_issues, method_issue, method_issues, host_method_issues, set_issue,
  issue_if,
}

-- Only the verbs of the table, spelled as there.
abbrev pub MethodsKnown : Option (List Bytes) → Type 0
MethodsKnown none = Unit
MethodsKnown (some ms) = (m : Bytes) → In m ms → In m known_methods

-- An intercepted rule, or a passthrough one that carries nothing a tunnel cannot enforce.
abbrev pub ModeFits : Rule → Type 0
ModeFits r =
    (r.mode ≡ mode_intercept)
    ⊎ ((r.mode ≡ mode_passthrough) × (r.paths ≡ none) × (r.methods ≡ none) × (r.inject ≡ []))

pub record IsValid (r : Rule) : Type 0 where
  pub host : validate_host r.host ≡ none
  pub methods : MethodsKnown r.methods
  pub mode : ModeFits r
  pub auth : (r.inject ≡ []) ⊎ (r.in_cage ≡ false)

pub append_nil_iff : {A : Type 0} (xs ys : List A) → (xs ++ ys ≡ []) ↔ ((xs ≡ []) × (ys ≡ []))
append_nil_iff [] ys = (λ h. (refl, h), λ h. h.1)
append_nil_iff (x ∷ xs) ys = (λ h. cc, λ h. cc)

any_bytes_iff : (m : Bytes) (ms : List Bytes) → (any (bytes_eq m) ms ≡ true) ↔ In m ms
any_bytes_iff m [] = (λ h. cc, λ h. absurd h)
any_bytes_iff m (x ∷ xs) = elim (Bool-cases (bytes_eq m x)) [
  | inl e ↦ rw e (λ _. inl ((bytes_eq_iff m x).0 e), λ _. refl)
  | inr e ↦ rw e (
    λ h. inr ((any_bytes_iff m xs).0 h),
    λ h. elim h [
      | inl same ↦ absurd (clash ((bytes_eq_iff m x).1 same) e)
      | inr there ↦ (any_bytes_iff m xs).1 there
    ],
  )
]
  where
    clash : bytes_eq m x ≡ true → bytes_eq m x ≡ false → ⊥
    clash h k = cc

no_empty_method : {A : Type 0} → In [] known_methods → A
unfolding bytes_eq
no_empty_method h = absurd (contrary ((any_bytes_iff [] known_methods).1 h))
  where
    contrary : false ≡ true → ⊥
    contrary k = cc

validate_methods-none_iff :
    (ms : List Bytes) → (validate_methods ms ≡ none) ↔ ((m : Bytes) → In m ms → In m known_methods)
unfolding validate_methods
validate_methods-none_iff [] = (λ _ m h. absurd h, λ _. refl)
validate_methods-none_iff ([] ∷ ms) = (λ h. cc, λ h. no_empty_method (h [] (inl refl)))
validate_methods-none_iff ((c ∷ m) ∷ ms) = elim (Bool-cases (is_known (c ∷ m))) [
  | inl e ↦ rw e (
    λ h k i. elim i [
      | inl same ↦
          subst (λ x. In x known_methods) (sym same) ((any_bytes_iff (c ∷ m) known_methods).0 e)
      | inr there ↦ (validate_methods-none_iff ms).0 h k there
    ],
    λ h. (validate_methods-none_iff ms).1 (λ k there. h k (inr there)),
  )
  | inr e ↦ rw e (
    λ h. cc,
    λ h. absurd (clash ((any_bytes_iff (c ∷ m) known_methods).1 (h (c ∷ m) (inl refl))) e),
  )
]
  where
    clash : is_known (c ∷ m) ≡ true → is_known (c ∷ m) ≡ false → ⊥
    clash h k = cc

method_issues_iff : (o : Option (List Bytes)) → (method_issues o ≡ []) ↔ MethodsKnown o
method_issues_iff none = (λ _. tt, λ _. refl)
method_issues_iff (some ms) = by_result (validate_methods ms) refl
  where
    by_result :
        (o : Option MethodError)
        → validate_methods ms ≡ o
        → (method_issue o ≡ []) ↔ MethodsKnown (some ms)
    by_result none e = (λ _. (validate_methods-none_iff ms).0 e, λ _. refl)
    by_result (some x) e = (λ h. cc, λ h. absurd (clash ((validate_methods-none_iff ms).1 h)))
      where
        clash : validate_methods ms ≡ none → ⊥
        clash h = cc

host_issues_iff : (o : Option HostError) → (host_issues o ≡ []) ↔ (o ≡ none)
host_issues_iff none = (λ _. refl, λ _. refl)
host_issues_iff (some e) = (λ h. cc, λ h. cc)

-- The empty host is refused by the check as well.
empty_refused : {A : Type 0} (host : Bytes) → host ≡ [] → validate_host host ≡ none → A
unfolding validate_host contains_byte trim_prefix has_prefix bytes_eq
empty_refused host e h = absurd (refused (subst (λ x. validate_host x ≡ none) e h))
  where
    refused : validate_host [] ≡ none → ⊥
    refused k = cc

pub host_method_issues_iff :
    (r : Rule)
    → (host_method_issues r ≡ []) ↔ ((validate_host r.host ≡ none) × MethodsKnown r.methods)
unfolding host_method_issues
host_method_issues_iff r = by_test (bytes_eq r.host []) refl
  where
    by_test :
        (b : Bool)
        → bytes_eq r.host [] ≡ b
        → ((if b
              then missing_host ∷ []
              else host_issues (validate_host r.host) ++ method_issues r.methods)
            ≡ [])
          ↔ ((validate_host r.host ≡ none) × MethodsKnown r.methods)
    by_test true e =
        (λ h. cc, λ h. absurd (empty_refused r.host ((bytes_eq_iff r.host []).0 e) h.0))
    by_test false e = (
      λ h.
          let (p, q) = (append_nil_iff _ _).0 h in
          ((host_issues_iff (validate_host r.host)).0 p, (method_issues_iff r.methods).0 q),
      λ (p, q).
          (append_nil_iff _ _).1
            ((host_issues_iff (validate_host r.host)).1 p, (method_issues_iff r.methods).1 q),
    )

pub set_issue_iff : (e : Issue) (o : Option (List Bytes)) → (set_issue e o ≡ []) ↔ (o ≡ none)
set_issue_iff e none = (λ _. refl, λ _. refl)
set_issue_iff e (some xs) = (λ h. cc, λ h. cc)

pub issue_if_iff : (b : Bool) (e : Issue) → (issue_if b e ≡ []) ↔ (b ≡ false)
issue_if_iff true e = (λ h. cc, λ h. cc)
issue_if_iff false e = (λ _. refl, λ _. refl)

pub contrary : {A : Type 0} (b : Bool) → b ≡ true → b ≡ false → A
contrary b h k = cc

pub nand_cases : (a b : Bool) → (not a && b) ≡ false → (a ≡ true) ⊎ (b ≡ false)
nand_cases a b h = ground arith

pub nand_of : (a b : Bool) → (a ≡ true) ⊎ (b ≡ false) → (not a && b) ≡ false
nand_of a b h = ground arith

pub modes_differ : {A : Type 0} → mode_passthrough ≡ mode_intercept → A
modes_differ h = absurd (different h)
  where
    different : mode_passthrough ≡ mode_intercept → ⊥
    different k = omega (arith, ap length k)
