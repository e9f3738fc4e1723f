-- ===== src/Config/Validate.antt =====
-- The checks on egress rules (internal/config/validate.go). An issue stands for its message; the
-- two messages on a method that is not known are one.
pub mod Meaning
pub mod Accepted
pub mod Layered
use agent_creance.Prelude.{
  ℕ, Bool, true, false, ◌&&◌, ◌||◌, not, List, [], ◌∷◌, ◌++◌, Option, none, some, Bytes, codes, any,
  all, if◌then◌else◌, ◌==◌, ltb, leb, bytes_eq,
}
use agent_creance.Strings.{has_prefix, trim_prefix, contains_byte, split}
use agent_creance.Config.Model.{Rule, Config}
use agent_creance.Policy.Rule.{mode_intercept, mode_passthrough}

pub data HostError : Type 0 where
  control_character not_bare empty_hostname empty_label invalid_character : HostError

pub data MethodError : Type 0 where
  empty_method unknown_method : MethodError

pub data Issue : Type 0 where
  missing_host passthrough_paths passthrough_methods unknown_mode inject_in_cage
        passthrough_inject :
      Issue
  invalid_host : HostError → Issue
  invalid_method : MethodError → Issue

unfoldable pub is_control_rune : ℕ → Bool
is_control_rune c = ltb c 32 || c == 127

-- strings.Contains
contains_text : Bytes → Bytes → Bool
contains_text [] sub = has_prefix [] sub
contains_text (c ∷ s) sub = if has_prefix (c ∷ s) sub then true else contains_text s sub

-- The bytes of a label
is_label_byte : ℕ → Bool
is_label_byte c =
    (leb b'a' c && leb c b'z')
    || (leb b'A' c && leb c b'Z')
    || (leb b'0' c && leb c b'9')
    || c == b'-'
    || c == b'_'

-- The loop over the labels.
check_labels : List Bytes → Option HostError
check_labels [] = none
check_labels ([] ∷ labels) = some empty_label
check_labels ((c ∷ label) ∷ labels) =
    if not (all is_label_byte (c ∷ label)) then some invalid_character else check_labels labels

check_body : Bytes → Option HostError
check_body [] = some empty_hostname
check_body (c ∷ body) = check_labels (split b'.' (c ∷ body))

unfoldable pub validate_host : Bytes → Option HostError
unfolding is_control_rune contains_text is_label_byte check_labels check_body
validate_host host =
    if any is_control_rune host
    then some control_character
    else if contains_byte b' ' host
        || contains_byte 9 host
        || contains_byte b'/' host
        || contains_text host (codes "://")
    then some not_bare
    else if bytes_eq host (codes "*")
    then none
    else check_body (trim_prefix host (codes "*."))

abbrev pub known_methods : List Bytes
known_methods =
    codes "GET"
    ∷ codes "HEAD"
    ∷ codes "POST"
    ∷ codes "PUT"
    ∷ codes "PATCH"
    ∷ codes "DELETE"
    ∷ codes "OPTIONS"
    ∷ codes "CONNECT"
    ∷ codes "TRACE"
    ∷ []

abbrev pub is_known : Bytes → Bool
is_known m = any (bytes_eq m) known_methods

unfoldable pub validate_methods : List Bytes → Option MethodError
validate_methods [] = none
validate_methods ([] ∷ ms) = some empty_method
validate_methods ((c ∷ m) ∷ ms) =
    if not (is_known (c ∷ m)) then some unknown_method else validate_methods ms

abbrev pub host_issues : Option HostError → List Issue
host_issues none = []
host_issues (some e) = invalid_host e ∷ []

abbrev pub method_issue : Option MethodError → List Issue
method_issue none = []
method_issue (some e) = invalid_method e ∷ []

abbrev pub method_issues : Option (List Bytes) → List Issue
method_issues none = []
method_issues (some ms) = method_issue (validate_methods ms)

-- `validateRuleHostMethods`, for a rule that has a host
unfoldable pub host_method_issues : Rule → List Issue
host_method_issues r =
    if bytes_eq r.host []
    then missing_host ∷ []
    else host_issues (validate_host r.host) ++ method_issues r.methods

abbrev pub set_issue : Issue → Option (List Bytes) → List Issue
set_issue e none = []
set_issue e (some xs) = e ∷ []

-- The switch on the mode
unfoldable pub mode_issues : Rule → List Issue
mode_issues r =
    if bytes_eq r.mode mode_intercept
    then []
    else if bytes_eq r.mode mode_passthrough
    then set_issue passthrough_paths r.paths ++ set_issue passthrough_methods r.methods
    else unknown_mode ∷ []

abbrev pub issue_if : Bool → Issue → List Issue
issue_if b e = if b then e ∷ [] else []

-- `validateRuleAuth`
unfoldable pub auth_issues : Rule → List Issue
auth_issues r =
    issue_if (not (bytes_eq r.inject []) && r.in_cage) inject_in_cage
    ++ issue_if (not (bytes_eq r.inject []) && bytes_eq r.mode mode_passthrough) passthrough_inject

unfoldable pub validate_rules : List Rule → List Issue
validate_rules [] = []
validate_rules (r ∷ rules) =
    (host_method_issues r ++ (mode_issues r ++ auth_issues r)) ++ validate_rules rules
