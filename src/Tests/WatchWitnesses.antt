-- ===== src/Tests/WatchWitnesses.antt =====
-- The watcher's theorems at the project of the loader's.
use agent_creance.Prelude.{
  ℕ, true, false, List, [], ◌∷◌, ◌++◌, none, codes, bytes_eq, arith, ◌≡◌, refl, inl, In,
}
use agent_creance.Strings.{has_prefix, split, split_from, join}
use agent_creance.FilePath.{
  elements, clean_from, clean_step, clean, join_path, up_to_slash, dir, rel, rel_elements,
}
use agent_creance.Config.Load.{resolve_include_path, path_within, include_target, open_file}
use agent_creance.Config.Load.Watch.{resolve_files}
use agent_creance.ConfigWatch.{
  Answers, unchanged, Wake, Watcher, is_in, do_reload, event, timer, loop,
}
use agent_creance.ConfigWatch.Debounce.{
  Burst, over, more, edits, unrelated, early, Reloaded, loop-Burst,
}
use agent_creance.ConfigWatch.Covers.{do_reload-covers}
use agent_creance.Tests.LoadWitnesses.{
  home, project, files, effective_config, files-IsUnaliased, load_run,
}

abbrev answers : Answers
answers = record {
  reload = unchanged;
  files = resolve_files files project;
  unwatchable = λ d. false;
}

-- The include has just been added: only the project's file is watched yet.
abbrev watcher : Watcher
watcher = record {
  watched = project ∷ [];
  dirs = codes "/p" ∷ [];
  deadline = none;
  reloads = 2;
  out = [];
}

do_reload-covers_example :
    (is_in (do_reload answers watcher).watched (codes "/p/b") ≡ true)
    × In (dir (codes "/p/b")) (do_reload answers watcher).dirs
unfolding open_file resolve_include_path path_within include_target rel rel_elements elements
    clean_from clean_step split split_from has_prefix join join_path clean dir up_to_slash bytes_eq
do_reload-covers_example =
    do_reload-covers files home project effective_config answers watcher 1 project (codes "/p/b")
      (codes "/p/b") (codes "/p/b") (codes "B") files-IsUnaliased refl load_run refl (λ h. cc)
      (λ d. refl) (inl refl)
      (
        codes "/p/b",
        record {
          abs = project;
          canon = project;
          bytes = codes "A";
          cfg = _;
          entry = codes "b";
          found = refl;
          parsed = refl;
          listed = inl refl;
          target = refl;
        },
        refl,
      )
      refl

abbrev burst : List (ℕ × Wake)
burst =
    (20, event project false true)
    ∷ (25, event (codes "/p/c") true false)
    ∷ (90, timer answers)
    ∷ (110, event project true false)
    ∷ []

burst-Burst : Burst 100 watcher.watched 10 burst 110
unfolding bytes_eq
burst-Burst =
    more (edits (omega arith) refl refl) (
      more (unrelated refl)
        (more (early (omega arith)) (more (edits (omega arith) refl refl) over)))

named_run : is_in watcher.watched project ≡ true
unfolding bytes_eq
named_run = refl

loop-Burst_example :
    Reloaded watcher
      (loop 100 ((10, event project true false) ∷ (burst ++ (215, timer answers) ∷ [])) watcher)
loop-Burst_example =
    loop-Burst 100 10 110 215 project true false burst answers watcher refl named_run burst-Burst
      (omega arith)
