-- ===== src/Config/Load/Scope.antt =====
-- Which includes the loader accepts (internal/config/load.go, `resolveIncludePath`).
use agent_creance.Prelude.{
  Bool, true, false, ◌||◌, List, [], ◌∷◌, ◌++◌, Option, none, some, Bytes, codes, drop,
  if◌then◌else◌, ◌≡◌, refl, ◌↔◌, ◌⊎◌, inl, inr, Bool-cases,
}
use agent_creance.Strings.{has_prefix}
use agent_creance.FilePath.{is_abs, elements, join_path, up_to_slash, or_empty, dir}
use agent_creance.FilePath.Within.{stays_within_iff}
use agent_creance.FilePath.Clean.{is_abs-cases, abs_slash, clean_abs, join_path_abs}
use agent_creance.Config.Load.{
  loaded, refused, include_out_of_scope, path_within, include_target, resolve_include_path,
}

-- The path lies in the directory: the directory's elements are its first elements.
abbrev pub IsUnder : Bytes → Bytes → Type 0
IsUnder base target = (rest : List Bytes) × (elements target ≡ elements base ++ rest)

pub dir_abs : (p : Bytes) → is_abs p ≡ true → is_abs (dir p) ≡ true
unfolding dir up_to_slash
dir_abs p h = let (s, e) = is_abs-cases p h in rw e (clean_abs _ (kept (up_to_slash s)))
  where
    kept :
        (o : Option Bytes)
        → is_abs (or_empty (elim o [ some q ↦ some (b'/' ∷ q) | none ↦ some (b'/' ∷ []) ])) ≡ true
    kept none = abs_slash []
    kept (some q) = abs_slash q

include_target_abs :
    (declaring home inc : Bytes)
    → is_abs declaring ≡ true
    → is_abs home ≡ true
    → is_abs (include_target declaring home inc) ≡ true
unfolding include_target
include_target_abs declaring home inc d h = elim (Bool-cases (has_prefix inc (codes "~/"))) [
  | inl e ↦ rw e (join_path_abs home (drop 2 inc) h)
  | inr e ↦ rw e (elim (Bool-cases (is_abs inc)) [
    | inl a ↦ rw a a
    | inr a ↦ rw a (join_path_abs (dir declaring) inc (dir_abs declaring d))
  ])
]

-- From an absolute file and with an absolute home directory, an include is accepted exactly if the
-- path that it names lies in the directory of the file or in ~/.config, and then it is that path;
-- any other is refused as out of scope.
pub resolve_include_path_iff :
    (declaring home inc : Bytes)
    → is_abs declaring ≡ true
    → is_abs home ≡ true
    → ((resolve_include_path declaring home inc ≡ loaded (include_target declaring home inc)) ↔ (
        IsUnder (dir declaring) (include_target declaring home inc)
        ⊎ IsUnder (join_path home (codes ".config")) (include_target declaring home inc)))
      × ((resolve_include_path declaring home inc ≡ loaded (include_target declaring home inc))
          ⊎ (resolve_include_path declaring home inc ≡ refused include_out_of_scope))
unfolding resolve_include_path path_within
resolve_include_path_iff declaring home inc d h =
    let t = include_target declaring home inc in
    let here =
      stays_within_iff (dir declaring) t (dir_abs declaring d)
        (include_target_abs declaring home inc d h) in
    let there =
      stays_within_iff (join_path home (codes ".config")) t (join_path_abs home (codes ".config") h)
        (include_target_abs declaring home inc d h) in
    by_tests (path_within (dir declaring) t) (path_within (join_path home (codes ".config")) t) here
      there
  where
    by_tests :
        (a b : Bool) {P Q : Type 0} {t : Bytes}
        → (a ≡ true) ↔ P
        → (b ≡ true) ↔ Q
        → (((if a || b then loaded t else refused include_out_of_scope) ≡ loaded t) ↔ (P ⊎ Q))
          × (((if a || b then loaded t else refused include_out_of_scope) ≡ loaded t)
              ⊎ ((if a || b then loaded t else refused include_out_of_scope)
                  ≡ refused include_out_of_scope))
    by_tests true b p q = ((λ _. inl (p.0 refl), λ _. refl), inl refl)
    by_tests false true p q = ((λ _. inr (q.0 refl), λ _. refl), inl refl)
    by_tests false false p q = (
      (λ h. cc, λ h. elim h [ inl x ↦ absurd (clash (p.1 x)) | inr x ↦ absurd (clash (q.1 x)) ]),
      inr refl,
    )
      where
        clash : false ≡ true → ⊥
        clash h = cc
