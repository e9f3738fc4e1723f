-- ===== src/Config/Load/Watch/Complete.antt =====
-- The watch set holds every file that contributes (internal/config/load.go).
use agent_creance.Prelude.{
  ℕ, zero, suc, Bool, true, false, List, [], ◌∷◌, ◌++◌, Option, none, some, Bytes, if◌then◌else◌,
  ◌≡◌, refl, sym, ◌∙◌, ap, subst, ◌⊎◌, inl, inr, In, In-append_left, In-append_right,
  In-append_cases,
}
use mathlib.Core.Option.{some-injective}
use agent_creance.Config.Model.{Config}
use agent_creance.Config.Load.{
  levels, max_include_depth, include_cycle, not_found, Loaded, loaded, refused, Files,
  resolve_include_path, Opened, no_path, absent, broken, opened, open_file, on_stack, located_home,
  global_path,
}
use agent_creance.Config.Load.Includes.{
  Includes, Chain, on_stack_iff, then_load-loaded, loaded_inj, never_loaded,
}
use agent_creance.Config.Load.Watch.{
  collect_includes, collect_parsed, collect_opened, collect_files, resolve_files,
}

-- No file is reached by two absolute paths.
abbrev pub IsUnaliased : Files → Type 0
IsUnaliased fs =
    (p q a b canon x y : Bytes)
    → open_file fs p ≡ opened a canon x
    → open_file fs q ≡ opened b canon y
    → (a ≡ b) × (x ≡ y)

module _ (fs : Files) (home : Bytes) where
  -- The file at the path, if there is one, is in the list.
  abbrev pub IsCovered : List Bytes → Bytes → Type 0
  IsCovered out p =
      (abs canon bytes : Bytes) → open_file fs p ≡ opened abs canon bytes → In canon out

  -- All that the file includes is in the list.
  abbrev IsClosed : List Bytes → Bytes → Type 0
  IsClosed out canon = (p q : Bytes) (i : Includes fs home p q) → i.canon ≡ canon → IsCovered out q

  abbrev Extends : List Bytes → List Bytes → Type 0
  Extends out out' = (c : Bytes) → In c out → In c out'

  -- Each file in the list is being read, or is done.
  abbrev Inv : List Bytes → List Bytes → Type 0
  Inv stack out = (c : Bytes) → In c out → In c stack ⊎ IsClosed out c

  abbrev Collected : List Bytes → List Bytes → List Bytes → Bytes → Type 0
  Collected stack out out' path = Extends out out' × Inv stack out' × IsCovered out' path

  IsClosed-mono :
      (out out' : List Bytes) (c : Bytes) → Extends out out' → IsClosed out c → IsClosed out' c
  IsClosed-mono out out' c x h p q i e a k b o = x k (h p q i e a k b o)

  opened_inj :
      {a k b a' k' b' : Bytes} → opened a k b ≡ opened a' k' b' → (a ≡ a') × (k ≡ k') × (b ≡ b')
  opened_inj h = (cc, cc, cc)

  -- What collects one path, from any list
  abbrev Collects : List Bytes → (Bytes → List Bytes → Loaded (List Bytes)) → Type 0
  Collects stack each =
      (path : Bytes) (out out' : List Bytes)
      → Inv stack out
      → each path out ≡ loaded out'
      → Collected stack out out' path

  collect_includes-Collected :
      (stack : List Bytes) (each : Bytes → List Bytes → Loaded (List Bytes))
      (target : Bytes → Loaded Bytes) (incs out out' : List Bytes)
      → Collects stack each
      → Inv stack out
      → collect_includes each target incs out ≡ loaded out'
      → Extends out out'
        × Inv stack out'
        × ((inc q : Bytes) → In inc incs → target inc ≡ loaded q → IsCovered out' q)
  unfolding collect_includes
  collect_includes-Collected stack each target [] out out' ok inv h =
      let same : out ≡ out' = loaded_inj h in
      (λ c m. subst (In c) same m, subst (Inv stack) same inv, λ inc q m. absurd m)
  collect_includes-Collected stack each target (i ∷ incs) out out' ok inv h =
      let (path, t, h') = then_load-loaded (target i) _ h in
      let (mid, e, h'') = then_load-loaded (each path out) _ h' in
      let (x, inv', cov) = ok path out mid inv e in
      let (x', inv'', cov') =
        collect_includes-Collected stack each target incs mid out' ok inv' h'' in
      (
        λ c m. x' c (x c m),
        inv'',
        λ inc q m r. elim m [
          | inl here ↦ λ a k b o. x' k (
              cov a k b (
                subst (λ (z : Bytes). open_file fs z ≡ opened a k b)
                  (loaded_inj (sym r ∙ (ap target here ∙ t))) o))
          | inr later ↦ cov' inc q later r
        ],
      )

  module _ (unaliased : IsUnaliased fs) where
    -- One file, where what it includes is collected as it should.
    collect_opened-Collected :
        (each : List Bytes → Bytes → List Bytes → Loaded (List Bytes))
        (ok : (stack : List Bytes) → Collects stack (each stack)) (optional : Bool)
        (stack : List Bytes) (path : Bytes) (out out' : List Bytes)
        → Inv stack out
        → collect_opened fs home each optional stack out (open_file fs path) ≡ loaded out'
        → Collected stack out out' path
    collect_opened-Collected each ok optional stack path out out' inv h =
        by_opened (open_file fs path) refl h
      where
        unchanged :
            (w : Opened)
            → open_file fs path ≡ w
            → ((a k b : Bytes) → w ≡ opened a k b → In k out)
            → loaded out ≡ loaded out'
            → Collected stack out out' path
        unchanged w o f e =
            let same : out ≡ out' = loaded_inj e in
            (
              λ c m. subst (In c) same m,
              subst (Inv stack) same inv,
              λ a k b o'. subst (In k) same (f a k b (sym o ∙ o')),
            )

        by_parse :
            (abs canon bytes : Bytes) (p : Option Config)
            → open_file fs path ≡ opened abs canon bytes
            → fs.parse bytes ≡ p
            → collect_parsed home (each) stack abs canon out p ≡ loaded out'
            → Collected stack out out' path
        by_parse abs canon bytes none o e k = cc
        by_parse abs canon bytes (some cfg) o e k =
            let stack' = stack ++ canon ∷ [] in
            let out1 = out ++ canon ∷ [] in
            let grown : Inv stack' out1 = λ c m. elim (In-append_cases out (canon ∷ []) c m) [
              | inl old ↦ elim (inv c old) [
                | inl s ↦ inl (In-append_left stack (canon ∷ []) c s)
                | inr closed ↦
                    inr (IsClosed-mono out out1 c (λ z. In-append_left out (canon ∷ []) z) closed)
              ]
              | inr (inl here) ↦ inl (In-append_right stack (canon ∷ []) c (inl here))
              | inr (inr never) ↦ absurd never
            ] in
            let (x, inv', covered) =
              collect_includes-Collected stack' (each stack') (resolve_include_path abs home)
                cfg.include out1 out' (ok stack') grown k in
            (
              λ c m. x c (In-append_left out (canon ∷ []) c m),
              λ c m. elim (inv' c m) [
                | inr closed ↦ inr closed
                | inl s ↦ elim (In-append_cases stack (canon ∷ []) c s) [
                  | inl old ↦ inl old
                  | inr (inl here) ↦ inr (λ p q i same.
                      let (same_abs, same_bytes) =
                        unaliased p path i.abs abs canon i.bytes bytes
                          (subst (λ (z : Bytes). open_file fs p ≡ opened i.abs z i.bytes)
                            (same ∙ here) i.found)
                          o in
                      let cfgs : i.cfg ≡ cfg =
                        some-injective i.cfg cfg (sym i.parsed ∙ (ap fs.parse same_bytes ∙ e)) in
                      covered i.entry q (subst (λ (z : Config). In i.entry z.include) cfgs i.listed)
                        (subst (λ (z : Bytes). resolve_include_path z home i.entry ≡ loaded q)
                          same_abs i.target))
                  | inr (inr never) ↦ absurd never
                ]
              ],
              λ a k' b o'.
                  let (_, same, _) = opened_inj (sym o ∙ o') in
                  subst (λ (z : Bytes). In z out') same
                    (x canon (In-append_right out (canon ∷ []) canon (inl refl))),
            )

        by_seen :
            (abs canon bytes : Bytes) (b : Bool)
            → open_file fs path ≡ opened abs canon bytes
            → on_stack out canon ≡ b
            → (if b
                then loaded out
                else collect_parsed home (each) stack abs canon out (fs.parse bytes))
              ≡ loaded out'
            → Collected stack out out' path
        by_seen abs canon bytes true o e k =
            unchanged (opened abs canon bytes) o
              (λ a c y w.
                subst (λ (z : Bytes). In z out) (opened_inj w).1 ((on_stack_iff out canon).0 e))
              k
        by_seen abs canon bytes false o e k = by_parse abs canon bytes (fs.parse bytes) o refl k

        by_stack :
            (abs canon bytes : Bytes) (b : Bool)
            → open_file fs path ≡ opened abs canon bytes
            → (if b
                then refused include_cycle
                else if on_stack out canon
                then loaded out
                else collect_parsed home (each) stack abs canon out (fs.parse bytes))
              ≡ loaded out'
            → Collected stack out out' path
        by_stack abs canon bytes true o k = cc
        by_stack abs canon bytes false o k = by_seen abs canon bytes (on_stack out canon) o refl k

        by_opened :
            (w : Opened)
            → open_file fs path ≡ w
            → collect_opened fs home (each) optional stack out w ≡ loaded out'
            → Collected stack out out' path
        by_opened no_path o k = cc
        by_opened broken o k = cc
        by_opened absent o k =
            elim optional
                as (λ b.
                  (if b then loaded out else refused not_found) ≡ loaded out'
                  → Collected stack out out' path) [
                    | true ↦ λ k'. unchanged absent o (λ a c y w. cc) k'
                    | false ↦ λ k'. cc
                  ]
              k
        by_opened (opened abs canon bytes) o k = by_stack abs canon bytes (on_stack stack canon) o k

    collect_files-Collected :
        (left : ℕ) (optional : Bool) (stack : List Bytes) (path : Bytes) (out out' : List Bytes)
        → Inv stack out
        → collect_files fs home left optional stack path out ≡ loaded out'
        → Collected stack out out' path
    unfolding collect_files
    collect_files-Collected zero optional stack path out out' inv h =
        never_loaded max_include_depth h
    collect_files-Collected (suc left) optional stack path out out' inv h =
        collect_opened-Collected (collect_files fs home left false)
          (λ s p o o' v r. collect_files-Collected left false s p o o' v r) optional stack path out
          out' inv h

  -- Everything an include chain leads to is in a list that is closed.
  Chain-IsCovered :
      (out : List Bytes) (k : ℕ) (p q : Bytes)
      → Inv [] out
      → IsCovered out p
      → Chain fs home k p q
      → IsCovered out q
  Chain-IsCovered out zero p q inv cov same = subst (IsCovered out) same cov
  Chain-IsCovered out (suc k) p q inv cov (m, i, rest) =
      Chain-IsCovered out k m q inv
        (elim (inv i.canon (cov i.abs i.canon i.bytes i.found)) [
          | inl never ↦ absurd never
          | inr closed ↦ closed p m i refl
        ])
        rest

-- Where no file is reached by two absolute paths, the files that `ResolveFiles` returns are
-- complete: every file that a chain of includes leads to, from the project file or from the global
-- file, has its canonical path among them.
pub resolve_files-IsCovered :
    (fs : Files) (home project : Bytes) (out : List Bytes)
    → IsUnaliased fs
    → fs.home ≡ some home
    → resolve_files fs project ≡ loaded out
    → (k : ℕ) (p q : Bytes) → (p ≡ project) ⊎ (p ≡ global_path home)
    → Chain fs home k p q
    → IsCovered fs home out q
unfolding resolve_files
resolve_files-IsCovered fs home project out unaliased at h k p q root chain =
    let (home', l, h') = then_load-loaded (located_home fs.home) _ h in
    let same : home' ≡ home = loaded_inj (sym l ∙ ap located_home at) in
    let (mid, first, second) =
      then_load-loaded (collect_files fs home' levels true [] (global_path home') []) _ h' in
    let first' : collect_files fs home levels true [] (global_path home) [] ≡ loaded mid =
      subst (λ x. collect_files fs x levels true [] (global_path x) [] ≡ loaded mid) same first in
    let second' : collect_files fs home levels false [] project mid ≡ loaded out =
      subst (λ x. collect_files fs x levels false [] project mid ≡ loaded out) same second in
    let (_, inv, cov) =
      collect_files-Collected fs home unaliased levels true [] (global_path home) [] mid
        (λ c m. absurd m) first' in
    let (x, inv', cov') =
      collect_files-Collected fs home unaliased levels false [] project mid out inv second' in
    Chain-IsCovered fs home out k p q inv'
      (elim root [
        | inl e ↦ subst (IsCovered fs home out) (sym e) cov'
        | inr e ↦ subst (IsCovered fs home out) (sym e) (λ a c b o. x c (cov a c b o))
      ])
      chain
