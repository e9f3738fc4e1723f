-- ===== src/Config/Merge/Laws.antt =====
-- The laws of `merge` (internal/config/merge.go).
use agent_creance.Prelude.{
  List, [], ◌∷◌, ◌++◌, Option, none, some, Bytes, ◌≡◌, refl, sym, ◌∙◌, ap, subst, ◌⊎◌, inl, inr,
  ◌↔◌, In, In-append_cases, In-append_left, In-append_right,
}
use agent_creance.Config.Model.{Map, Config}
use agent_creance.Config.Merge.Dedupe.{
  Equal, dedupe, dedupe_assoc, In-dedupe, dedupe-NoRepeat, NoRepeat,
}
use agent_creance.Config.Merge.Equality.{of_bytes, of_host_service, of_generator, of_rule}
use agent_creance.Config.Merge.{
  first_non_empty_string, first_non_empty_slice, concat, union, or_else, merge_map, merge,
}

concat_lem : {A : Type 0} (a b : List A) → concat a b ≡ a ++ b
unfolding concat
concat_lem [] b = refl
concat_lem (x ∷ a) [] = append_nil (x ∷ a)
  where
    append_nil : {A : Type 0} (l : List A) → l ≡ l ++ []
    append_nil [] = refl
    append_nil (y ∷ l) = ap (λ r. y ∷ r) (append_nil l)
concat_lem (x ∷ a) (y ∷ b) = refl

union_assoc :
    {A : Type 0} (eq : Equal A) (a b c : List A)
    → union eq (union eq a b) c ≡ union eq a (union eq b c)
union_assoc eq a b c =
    ap (dedupe eq) (concat_lem (union eq a b) c ∙ ap (λ l. dedupe eq l ++ c) (concat_lem a b))
    ∙ dedupe_assoc eq a b c
    ∙ sym
        (ap (dedupe eq) (concat_lem a (union eq b c) ∙ ap (λ l. a ++ dedupe eq l) (concat_lem b c)))

string_assoc :
    (a b c : Bytes)
    → first_non_empty_string c (first_non_empty_string b a)
      ≡ first_non_empty_string (first_non_empty_string c b) a
string_assoc a b [] = refl
string_assoc a b (x ∷ c) = refl

slice_assoc :
    (a b c : List Bytes)
    → first_non_empty_slice c (first_non_empty_slice b a)
      ≡ first_non_empty_slice (first_non_empty_slice c b) a
slice_assoc a b [] = refl
slice_assoc a b (x ∷ c) = refl

or_else_assoc : {V : Type 0} (a b c : Option V) → or_else c (or_else b a) ≡ or_else (or_else c b) a
or_else_assoc a b none = refl
or_else_assoc a b (some v) = refl

map_assoc : {V : Type 0} (a b c : Map V) → merge_map (merge_map a b) c ≡ merge_map a (merge_map b c)
map_assoc a b c = λ i k. or_else_assoc (a k) (b k) (c k) i

-- Three layered configurations give one result whichever two are merged first: every field of it,
-- the maps at every key.
pub merge_assoc : (a b c : Config) → merge (merge a b) c ≡ merge a (merge b c)
merge_assoc a b c = λ i. record {
  agent = record {
    command = slice_assoc a.agent.command b.agent.command c.agent.command i;
    workdir = string_assoc a.agent.workdir b.agent.workdir c.agent.workdir i;
  };
  safehouse = record {
    add_dirs_rw =
        union_assoc of_bytes a.safehouse.add_dirs_rw b.safehouse.add_dirs_rw c.safehouse.add_dirs_rw
          i;
    add_dirs_ro =
        union_assoc of_bytes a.safehouse.add_dirs_ro b.safehouse.add_dirs_ro c.safehouse.add_dirs_ro
          i;
    enable = union_assoc of_bytes a.safehouse.enable b.safehouse.enable c.safehouse.enable i;
  };
  include = [];
  network = record {
    host_services =
        union_assoc of_host_service a.network.host_services b.network.host_services
          c.network.host_services i;
    egress = record {
      generators =
          union_assoc of_generator a.network.egress.generators b.network.egress.generators
            c.network.egress.generators i;
      allow =
          union_assoc of_rule a.network.egress.allow b.network.egress.allow c.network.egress.allow
            i;
      deny_always =
          union_assoc of_rule a.network.egress.deny_always b.network.egress.deny_always
            c.network.egress.deny_always i;
    };
  };
  env = map_assoc a.env b.env c.env i;
  credentials = map_assoc a.credentials b.credentials c.credentials i;
  warnings = [];
}

pub In-union :
    {A : Type 0} (eq : Equal A) (base over : List A) (a : A)
    → In a (union eq base over) ↔ (In a base ⊎ In a over)
In-union eq base over a = (
  λ h.
      In-append_cases base over a
        (subst (In a) (concat_lem base over) ((In-dedupe eq (concat base over) a).0 h)),
  λ h. (In-dedupe eq (concat base over) a).1 (
      subst (In a) (sym (concat_lem base over))
        (elim h [ inl m ↦ In-append_left base over a m | inr m ↦ In-append_right base over a m ])),
)

-- The list unites the two and repeats nothing.
abbrev pub IsUnion : {A : Type 0} → Equal A → List A → List A → List A → Type 0
IsUnion {A = A} eq base over l = ((a : A) → In a l ↔ (In a base ⊎ In a over)) × NoRepeat eq l

-- The merged allow and deny rules, generators and host services are exactly those of the two
-- configurations, each once: a later file adds to an earlier one's, and takes none away.
pub merge-IsUnion :
    (base over : Config)
    → IsUnion of_rule base.network.egress.allow over.network.egress.allow
        (merge base over).network.egress.allow
      × IsUnion of_rule base.network.egress.deny_always over.network.egress.deny_always
          (merge base over).network.egress.deny_always
      × IsUnion of_generator base.network.egress.generators over.network.egress.generators
          (merge base over).network.egress.generators
      × IsUnion of_host_service base.network.host_services over.network.host_services
          (merge base over).network.host_services
merge-IsUnion base over = (
  united of_rule base.network.egress.allow over.network.egress.allow,
  united of_rule base.network.egress.deny_always over.network.egress.deny_always,
  united of_generator base.network.egress.generators over.network.egress.generators,
  united of_host_service base.network.host_services over.network.host_services,
)
  where
    united : {A : Type 0} (eq : Equal A) (xs ys : List A) → IsUnion eq xs ys (union eq xs ys)
    united eq xs ys = (In-union eq xs ys, dedupe-NoRepeat eq (concat xs ys))
