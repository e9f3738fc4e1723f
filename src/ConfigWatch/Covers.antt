-- ===== src/ConfigWatch/Covers.antt =====
-- What is watched after a reload (internal/configwatch/configwatch.go, `doReload`).
use agent_creance.Prelude.{
  ℕ, suc, Bool, true, false, List, [], ◌∷◌, ◌++◌, some, Bytes, if◌then◌else◌, ◌≡◌, ◌≢◌, refl, sym,
  ◌∙◌, ap, subst, Bool-cases, ◌⊎◌, inl, inr, ◌↔◌, In, In-append_cases, In-append_left,
  In-append_right, In-select,
}
use agent_creance.FilePath.{dir}
use agent_creance.Config.Model.{Config}
use agent_creance.Config.Merge.Dedupe.{any_iff}
use agent_creance.Config.Merge.Equality.{of_bytes}
use agent_creance.Config.Load.{loaded, Files, opened, open_file, load, global_path}
use agent_creance.Config.Load.Includes.{Chain}
use agent_creance.Config.Load.Watch.{resolve_files}
use agent_creance.Config.Load.Watch.Complete.{IsUnaliased}
use agent_creance.Config.Load.Watch.Exists.{load_watched}
use agent_creance.ConfigWatch.{
  Watcher, Answers, ReloadResult, reload_failed, unchanged, changed, policy_unchanged, reloaded,
  not_watched, is_in, note, dirs_from, dirs_of, add_dir, add_missing, reconcile_dirs, rederive,
  reported, do_reload,
}

pub is_in_iff : (paths : List Bytes) (p : Bytes) → (is_in paths p ≡ true) ↔ In p paths
is_in_iff paths p = any_iff of_bytes p paths

-- One of the files is in the directory.
abbrev pub HoldsOne : List Bytes → Bytes → Type 0
HoldsOne files d = (f : Bytes) × In f files × (d ≡ dir f)

dirs_from-In :
    (seen files : List Bytes) (d : Bytes)
    → In d (dirs_from seen files) ↔ (In d seen ⊎ HoldsOne files d)
unfolding dirs_from
dirs_from-In seen [] d = (inl, λ o. elim o [ inl m ↦ m | inr (f, m, e) ↦ absurd m ])
dirs_from-In seen (f ∷ files) d = elim (Bool-cases (is_in seen (dir f))) [
  | inl e ↦
      let ih = dirs_from-In seen files d in
      rw e (
        λ m. elim (ih.0 m) [ inl s ↦ inl s | inr (g, l, k) ↦ inr (g, inr l, k) ],
        λ o. elim o [
          | inl s ↦ ih.1 (inl s)
          | inr (g, inl here, k) ↦ ih.1 (
              inl (
                subst (λ (x : Bytes). In x seen) (sym (k ∙ ap dir here))
                  ((is_in_iff seen (dir f)).0 e)))
          | inr (g, inr l, k) ↦ ih.1 (inr (g, l, k))
        ],
      )
  | inr e ↦
      let ih = dirs_from-In (seen ++ dir f ∷ []) files d in
      rw e (
        λ m. elim (ih.0 m) [
          | inl s ↦ elim (In-append_cases seen (dir f ∷ []) d s) [
            | inl old ↦ inl old
            | inr (inl here) ↦ inr (f, inl refl, here)
            | inr (inr never) ↦ absurd never
          ]
          | inr (g, l, k) ↦ inr (g, inr l, k)
        ],
        λ o. elim o [
          | inl s ↦ ih.1 (inl (In-append_left seen (dir f ∷ []) d s))
          | inr (g, inl here, k) ↦
              ih.1 (inl (In-append_right seen (dir f ∷ []) d (inl (k ∙ ap dir here))))
          | inr (g, inr l, k) ↦ ih.1 (inr (g, l, k))
        ],
      )
]

-- The directory is to be added.
record New (a : Answers) (have want : List Bytes) (d : Bytes) : Type 0 where
  wanted : In d want
  new : is_in have d ≡ false
  fine : a.unwatchable d ≡ false

add_missing-In :
    (a : Answers) (have want : List Bytes) (w : Watcher) (d : Bytes)
    → In d w.dirs ⊎ New a have want d
    → In d (add_missing a have want w).dirs
unfolding add_missing
add_missing-In a have [] w d o = elim o [ inl m ↦ m | inr n ↦ absurd n.wanted ]
add_missing-In a have (x ∷ want) w d o =
    add_missing-In a have want (if is_in have x then w else add_dir a x w) d (elim o [
      | inl m ↦ inl (kept (is_in have x) (a.unwatchable x) m)
      | inr n ↦ elim n.wanted [
        | inl here ↦ inl (
            added (is_in have x) (a.unwatchable x) (ap (is_in have) (sym here) ∙ n.new)
              (ap a.unwatchable (sym here) ∙ n.fine) here)
        | inr l ↦ inr (record { wanted = l; new = n.new; fine = n.fine })
      ]
    ])
  where
    kept :
        (b u : Bool)
        → In d w.dirs
        → In d
            (if b
              then w
              else if u
              then note (not_watched x) w
              else record w { dirs = w.dirs ++ x ∷ [] }).dirs
    kept true u m = m
    kept false true m = m
    kept false false m = In-append_left w.dirs (x ∷ []) d m

    added :
        (b u : Bool)
        → b ≡ false
        → u ≡ false
        → d ≡ x
        → In d
            (if b
              then w
              else if u
              then note (not_watched x) w
              else record w { dirs = w.dirs ++ x ∷ [] }).dirs
    added true u h k here = cc
    added false true h k here = cc
    added false false h k here = In-append_right w.dirs (x ∷ []) d (inl here)

-- Where everything can be watched, what is wanted is watched, and nothing else.
reconcile_dirs-In :
    (a : Answers) (want : List Bytes) (w : Watcher) (d : Bytes)
    → ((x : Bytes) → a.unwatchable x ≡ false)
    → In d (reconcile_dirs a want w).dirs ↔ In d want
unfolding reconcile_dirs
reconcile_dirs-In a want w d fine = (
  λ m. (is_in_iff want d).0 ((In-select (is_in want) (add_missing a w.dirs want w).dirs d).0 m).1,
  λ m. (In-select (is_in want) (add_missing a w.dirs want w).dirs d).1 (
    add_missing-In a w.dirs want w d (elim (Bool-cases (is_in w.dirs d)) [
      | inl e ↦ inl ((is_in_iff w.dirs d).0 e)
      | inr e ↦ inr (record { wanted = m; new = e; fine = fine d })
    ]),
    (is_in_iff want d).1 m,
  ),
)

add_missing-watched :
    (a : Answers) (have want : List Bytes) (w : Watcher)
    → (add_missing a have want w).watched ≡ w.watched
unfolding add_missing
add_missing-watched a have [] w = refl
add_missing-watched a have (d ∷ want) w =
    add_missing-watched a have want (if is_in have d then w else add_dir a d w)
    ∙ by_tests (is_in have d) (a.unwatchable d)
  where
    by_tests :
        (b u : Bool)
        → (if b
            then w
            else if u
            then note (not_watched d) w
            else record w { dirs = w.dirs ++ d ∷ [] }).watched
          ≡ w.watched
    by_tests true u = refl
    by_tests false true = refl
    by_tests false false = refl

-- The files are watched, and their directories and no others.
pub record Watches (files : List Bytes) (w : Watcher) : Type 0 where
  pub whole : w.watched ≡ files
  pub dirs : (d : Bytes) → In d w.dirs ↔ HoldsOne files d

rederive-Watches :
    (a : Answers) (files : List Bytes) (w : Watcher)
    → a.files ≡ loaded files
    → ((d : Bytes) → a.unwatchable d ≡ false)
    → Watches files (rederive a w)
unfolding rederive reconcile_dirs
rederive-Watches a files w at fine = rw at (record {
  whole = watched;
  dirs = λ d.
      let r = reconcile_dirs-In a (dirs_of files) (record w { watched = files }) d fine in
      let of_files = dirs_from-In [] files d in
      (
        λ m. elim (of_files.0 (r.0 m)) [ inl never ↦ absurd never | inr one ↦ one ],
        λ one. r.1 (of_files.1 (inr one)),
      );
})
  where
    watched : (add_missing a w.dirs (dirs_of files) (record w { watched = files })).watched ≡ files
    watched = add_missing-watched a w.dirs (dirs_of files) (record w { watched = files })

do_reload-Watches :
    (a : Answers) (files : List Bytes) (w : Watcher)
    → a.reload ≢ reload_failed
    → a.files ≡ loaded files
    → ((d : Bytes) → a.unwatchable d ≡ false)
    → Watches files (do_reload a w)
unfolding do_reload
do_reload-Watches a files w ok at fine = by_result a.reload ok
  where
    by_result :
        (r : ReloadResult)
        → r ≢ reload_failed
        → Watches files (reported a r (record w { reloads = suc w.reloads }))
    by_result reload_failed n = absurd (n refl)
    by_result unchanged n =
        rederive-Watches a files (note policy_unchanged (record w { reloads = suc w.reloads })) at
          fine
    by_result (changed summary) n =
        rederive-Watches a files (note (reloaded summary) (record w { reloads = suc w.reloads })) at
          fine

-- After a reload that succeeds on a configuration that loads, where no file is reached by two
-- absolute paths and every directory can be watched, the watcher waits for edits of every file that
-- the configuration is made of, by its canonical path, and watches its directory, also where an
-- edit has just added the include.
pub do_reload-covers :
    (fs : Files) (home project : Bytes) (c : Config) (a : Answers) (w : Watcher) (k : ℕ)
    (p q abs canon bytes : Bytes)
    → IsUnaliased fs
    → fs.home ≡ some home
    → load fs project ≡ loaded c
    → a.files ≡ resolve_files fs project
    → a.reload ≢ reload_failed
    → ((d : Bytes) → a.unwatchable d ≡ false)
    → (p ≡ project) ⊎ (p ≡ global_path home)
    → Chain fs home k p q
    → open_file fs q ≡ opened abs canon bytes
    → (is_in (do_reload a w).watched canon ≡ true) × In (dir canon) (do_reload a w).dirs
do_reload-covers fs home project c a w k p q abs canon bytes unaliased at h scan ok fine from chain
      o =
    let (out, run, covered) = load_watched fs home project c unaliased at h in
    let watches = do_reload-Watches a out w ok (scan ∙ run) fine in
    let listed : In canon out = covered k p q from chain abs canon bytes o in
    (
      (is_in_iff (do_reload a w).watched canon).1 (subst (In canon) (sym watches.whole) listed),
      (watches.dirs (dir canon)).1 (canon, listed, refl),
    )
