-- ===== src/Config/Load/Entries/Layer.antt =====
-- The entries of a resolved layer (internal/config/load.go, `ResolveLayer`).
use agent_creance.Prelude.{
  ℕ, zero, suc, Bool, true, false, List, [], ◌∷◌, ◌++◌, Option, none, some, Bytes, ◌≡◌, refl, sym,
  ◌∙◌, subst, ap, ◌↔◌, In, if◌then◌else◌,
}
use agent_creance.Config.Model.{Config}
use agent_creance.Config.Load.{
  levels, max_include_depth, bad_path, not_found, unreadable, include_cycle, invalid, loaded,
  refused, Files, empty_config, Opened, no_path, absent, broken, opened, open_file, on_stack,
  resolve_parsed, resolve_opened, resolve, resolve_layer, located_home,
}
use agent_creance.Config.Load.Includes.{then_load-loaded, loaded_inj, never_loaded}
use agent_creance.Config.Load.Entries.{Entries, Reached, parsed_entries}

module _ {A : Type 0} (es : Entries A) (fs : Files) where
  -- An absent file reaches nothing.
  absent_reaches :
      (home path : Bytes) (a : A) → open_file fs path ≡ absent → Reached es fs home path a → ⊥
  absent_reaches home path a gone (zero, q, here, d) = clash (
      sym gone
      ∙ subst (λ (z : Bytes). open_file fs z ≡ opened d.abs d.canon d.bytes) (sym here) d.found)
    where
      clash : {x y z : Bytes} → absent ≡ opened x y z → ⊥
      clash h = cc
  absent_reaches home path a gone (suc k, z, (p, i, chain), d) = clash (sym gone ∙ i.found)
    where
      clash : {x y z : Bytes} → absent ≡ opened x y z → ⊥
      clash h = cc

  resolve-entries :
      (home : Bytes) (left : ℕ) (optional : Bool) (stack : List Bytes) (path : Bytes) (c : Config)
      (a : A)
      → resolve fs home left optional stack path ≡ loaded c
      → In a (es.get c) ↔ Reached es fs home path a
  unfolding resolve
  resolve-entries home zero optional stack path c a h = never_loaded max_include_depth h
  resolve-entries home (suc left) optional stack path c a h =
      by_opened (open_file fs path) refl h (λ s q r e. resolve-entries home left false s q r a e)
    where
      Below : Type 0
      Below =
          (s : List Bytes) (q : Bytes) (r : Config)
          → resolve fs home left false s q ≡ loaded r
          → In a (es.get r) ↔ Reached es fs home q a

      by_parse :
          (abs canon bytes : Bytes) (o : Option Config)
          → open_file fs path ≡ opened abs canon bytes
          → fs.parse bytes ≡ o
          → resolve_parsed fs home (resolve fs home left false) stack abs canon o ≡ loaded c
          → Below
          → In a (es.get c) ↔ Reached es fs home path a
      by_parse abs canon bytes none found p k below = never_loaded invalid k
      by_parse abs canon bytes (some cfg) found p k below =
          parsed_entries es fs home (resolve fs home left false (stack ++ canon ∷ [])) abs path
            canon bytes cfg c a found p (below (stack ++ canon ∷ [])) k

      by_stack :
          (b : Bool) (abs canon bytes : Bytes)
          → open_file fs path ≡ opened abs canon bytes
          → (if b
              then refused include_cycle
              else resolve_parsed fs home
                  (resolve fs home left false)
                  stack
                  abs
                  canon
                  (fs.parse bytes))
            ≡ loaded c
          → Below
          → In a (es.get c) ↔ Reached es fs home path a
      by_stack true abs canon bytes found k below = never_loaded include_cycle k
      by_stack false abs canon bytes found k below =
          by_parse abs canon bytes (fs.parse bytes) found refl k below

      by_absent :
          (b : Bool)
          → open_file fs path ≡ absent
          → (if b then loaded empty_config else refused not_found) ≡ loaded c
          → In a (es.get c) ↔ Reached es fs home path a
      by_absent true gone k = (
        λ m. absurd (
            subst (In a) es.starts
              (subst (λ (x : Config). In a (es.get x)) (sym (loaded_inj k)) m)),
        λ reached. absurd (absent_reaches home path a gone reached),
      )
      by_absent false gone k = never_loaded not_found k

      by_opened :
          (w : Opened)
          → open_file fs path ≡ w
          → resolve_opened fs home (resolve fs home left false) optional stack w ≡ loaded c
          → Below
          → In a (es.get c) ↔ Reached es fs home path a
      by_opened no_path found k below = never_loaded bad_path k
      by_opened absent found k below = by_absent optional found k
      by_opened broken found k below = never_loaded unreadable k
      by_opened (opened abs canon bytes) found k below =
          by_stack (on_stack stack canon) abs canon bytes found k below

  -- In a list that merging unites, as the allow rules and the deny rules, a resolved layer has
  -- exactly the entries of the file at its path and of the files that its includes lead to,
  -- directly or through others: no include takes one away.
  pub resolve_layer-entries :
      (home : Bytes) (optional : Bool) (path : Bytes) (c : Config) (a : A)
      → fs.home ≡ some home
      → resolve_layer fs optional path ≡ loaded c
      → In a (es.get c) ↔ Reached es fs home path a
  unfolding resolve_layer
  resolve_layer-entries home optional path c a at h =
      let (home', l, h') = then_load-loaded (located_home fs.home) _ h in
      let same : home' ≡ home = loaded_inj (sym l ∙ ap located_home at) in
      let (c', run, e) = then_load-loaded (resolve fs home' levels optional [] path) _ h' in
      let run' : resolve fs home levels optional [] path ≡ loaded c' =
        subst (λ x. resolve fs x levels optional [] path ≡ loaded c') same run in
      let ih = resolve-entries home levels optional [] path c' a run' in
      let kept : es.get c ≡ es.get c' = ap es.get (sym (loaded_inj e)) ∙ es.own c' in
      (λ m. ih.0 (subst (In a) kept m), λ r. subst (In a) (sym kept) (ih.1 r))
