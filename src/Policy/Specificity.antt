-- ===== src/Policy/Specificity.antt =====
-- `specificity`, `ruleSpecificity` and `moreSpecific` (internal/policy/glob.go).
pub mod Order
use agent_creance.Prelude.{
  ℕ, suc, Bool, List, [], ◌∷◌, ◌++◌, Option, none, some, Bytes, codes, if◌then◌else◌, ◌==◌, ltb,
  length, bytes_lt,
}
use agent_creance.Strings.{join, contains_byte}
use agent_creance.Policy.Rule.{Rule}
use agent_creance.Policy.Host.{host_rank}
use agent_creance.Policy.Path.{split_path}

pub record Specificity : Type 0 where
  pub host_rank : ℕ
  pub path_scoped : ℕ
  pub literal_segs : ℕ
  pub total_segs : ℕ
  pub method_scoped : ℕ
  pub canonical : Bytes

-- A nil slice reads as the empty one.
abbrev pub elements : Option (List Bytes) → List Bytes
elements none = []
elements (some xs) = xs

count_literal : List Bytes → ℕ
count_literal [] = 0
count_literal (seg ∷ segs) =
    if contains_byte b'*' seg then count_literal segs else suc (count_literal segs)

abbrev pub is_scoped : Option (List Bytes) → ℕ
is_scoped none = 0
is_scoped (some xs) = 1

-- The segments of the pattern, if the rule constrains paths.
abbrev scored_segs : Option (List Bytes) → Bytes → List Bytes
scored_segs none pattern = []
scored_segs (some xs) pattern = split_path pattern

abbrev pub bar : Bytes
bar = codes "|"

abbrev pub comma : Bytes
comma = codes ","

abbrev pub canonical_rule : Rule → Bytes
canonical_rule r =
    (r.host ++ bar ++ join comma (elements r.paths) ++ bar ++ join comma (elements r.methods))
    ++ b'|' ∷ r.mode

unfoldable pub rule_specificity : Rule → Bytes → Specificity
unfolding count_literal
rule_specificity r pattern = record {
  host_rank = host_rank r.host;
  path_scoped = is_scoped r.paths;
  literal_segs = count_literal (scored_segs r.paths pattern);
  total_segs = length (scored_segs r.paths pattern);
  method_scoped = is_scoped r.methods;
  canonical = canonical_rule r;
}

-- One case of the switch: the field decides where it differs.
abbrev by_rank : ℕ → ℕ → Bool → Bool
by_rank a b rest = if a == b then rest else ltb b a

unfoldable pub more_specific : Specificity → Specificity → Bool
more_specific a b = by_rank a.host_rank b.host_rank (
    by_rank a.path_scoped b.path_scoped (
      by_rank a.literal_segs b.literal_segs (
        by_rank a.total_segs b.total_segs
          (by_rank a.method_scoped b.method_scoped (bytes_lt a.canonical b.canonical)))))
