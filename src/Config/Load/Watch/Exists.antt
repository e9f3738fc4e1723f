-- ===== src/Config/Load/Watch/Exists.antt =====
-- A configuration that loads has a watch set (internal/config/load.go).
use agent_creance.Prelude.{
  ℕ, zero, suc, Bool, true, false, List, [], ◌∷◌, ◌++◌, some, Bytes, if◌then◌else◌, ◌≡◌, refl, In,
  inl, inr, ◌⊎◌, Bool-cases,
}
use agent_creance.Config.Model.{Config}
use agent_creance.Config.Load.{
  levels, max_include_depth, not_found, Loaded, loaded, refused, Files, empty_config,
  resolve_include_path, Opened, no_path, absent, broken, opened, open_file, on_stack,
  resolve_opened, resolve, load, located_home, global_path,
}
use agent_creance.Config.Load.Includes.{
  then_load-loaded, then_load_of, never_loaded, Resolved, resolve-Resolved, Chain,
}
use agent_creance.Config.Load.Watch.Complete.{IsUnaliased, IsCovered, resolve_files-IsCovered}
use agent_creance.Config.Load.Watch.{collect_includes, collect_opened, collect_files, resolve_files}

abbrev Collects : Loaded (List Bytes) → Type 0
Collects r = (out : List Bytes) × (r ≡ loaded out)

collect_includes-each :
    (each : Bytes → List Bytes → Loaded (List Bytes)) (target : Bytes → Loaded Bytes)
    (incs out : List Bytes)
    → ((inc : Bytes)
        → In inc incs
        → (q : Bytes) × (target inc ≡ loaded q) × ((o : List Bytes) → Collects (each q o)))
    → Collects (collect_includes each target incs out)
unfolding collect_includes
collect_includes-each each target [] out f = (out, refl)
collect_includes-each each target (i ∷ incs) out f =
    let (q, t, run) = f i (inl refl) in
    let (mid, e) = run out in
    let (out', rest) = collect_includes-each each target incs mid (λ inc m. f inc (inr m)) in
    (out', rw (t, e) rest)

-- A path that resolves is collected, whatever is in the list already.
pub collect_of_resolve :
    (fs : Files) (home : Bytes) (left : ℕ) (optional : Bool) (stack : List Bytes) (path : Bytes)
    (c : Config) (out : List Bytes)
    → resolve fs home left optional stack path ≡ loaded c
    → Collects (collect_files fs home left optional stack path out)
unfolding resolve collect_files
collect_of_resolve fs home zero optional stack path c out h = never_loaded max_include_depth h
collect_of_resolve fs home (suc left) optional stack path c out h =
    by_opened (open_file fs path) refl h
      (λ a k b o. resolve-Resolved fs home left optional stack path c a k b h o)
      (λ s p r o run. collect_of_resolve fs home left false s p r o run)
  where
    Below : Type 0
    Below =
        (s : List Bytes) (p : Bytes) (r : Config) (o : List Bytes)
        → resolve fs home left false s p ≡ loaded r
        → Collects (collect_files fs home left false s p o)

    by_opened :
        (w : Opened)
        → open_file fs path ≡ w
        → resolve_opened fs home (resolve fs home left false) optional stack w ≡ loaded c
        → ((a k b : Bytes) → open_file fs path ≡ opened a k b → Resolved fs home left stack a k b)
        → Below
        → Collects (collect_opened fs home (collect_files fs home left false) optional stack out w)
    by_opened no_path o k res below = cc
    by_opened broken o k res below = cc
    by_opened absent o k res below =
        elim optional
            as (λ b.
              (if b then loaded empty_config else refused not_found) ≡ loaded c
              → Collects (if b then loaded out else refused not_found)) [
                | true ↦ λ k'. (out, refl)
                | false ↦ λ k'. cc
              ]
          k
    by_opened (opened a canon b) o k res below =
        let r = res a canon b o in
        rw r.fresh (elim (Bool-cases (on_stack out canon)) [
          | inl e ↦ rw e (out, refl)
          | inr e ↦
              rw (e, r.parsed)
                (collect_includes-each (collect_files fs home left false (stack ++ canon ∷ []))
                  (resolve_include_path a home) r.cfg.include (out ++ canon ∷ [])
                  (λ inc m.
                    let (q, cfg, t, run) = r.each inc m in
                    (q, t, λ o'. below (stack ++ canon ∷ []) q cfg o' run)))
        ])

-- A configuration that `Load` accepts has a watch set: `ResolveFiles` succeeds on the same file.
pub resolve_files_of_load :
    (fs : Files) (project : Bytes) (c : Config)
    → load fs project ≡ loaded c
    → (out : List Bytes) × (resolve_files fs project ≡ loaded out)
unfolding load resolve_files
resolve_files_of_load fs project c h =
    let (home, l, h1) = then_load-loaded (located_home fs.home) _ h in
    let (g, run, h2) = then_load-loaded (resolve fs home levels true [] (global_path home)) _ h1 in
    let (p, run', _) = then_load-loaded (resolve fs home levels false [] project) _ h2 in
    let (mid, first) = collect_of_resolve fs home levels true [] (global_path home) g [] run in
    let (out, second) = collect_of_resolve fs home levels false [] project p mid run' in
    (
      out,
      then_load_of (located_home fs.home) _ home (loaded out) l (
          then_load_of (collect_files fs home levels true [] (global_path home) []) _ mid
            (loaded out) first second),
    )

-- Where no file is reached by two absolute paths, a configuration that `Load` accepts can be
-- watched: `ResolveFiles` succeeds on the same project file, and among the paths that it returns is
-- the canonical path of every file that a chain of includes leads to, from the project file or from
-- the global file.
pub load_watched :
    (fs : Files) (home project : Bytes) (c : Config)
    → IsUnaliased fs
    → fs.home ≡ some home
    → load fs project ≡ loaded c
    → (out : List Bytes) × (resolve_files fs project ≡ loaded out)
      × ((k : ℕ) (p q : Bytes)
          → (p ≡ project) ⊎ (p ≡ global_path home)
          → Chain fs home k p q
          → IsCovered fs home out q)
load_watched fs home project c unaliased at h =
    let (out, run) = resolve_files_of_load fs project c h in
    (out, run, resolve_files-IsCovered fs home project out unaliased at run)
