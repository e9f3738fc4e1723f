-- ===== src/ConfigWatch.antt =====
-- Recompiling on an edit of the configuration (internal/configwatch/configwatch.go). Each thing
-- that the loop wakes for has its time; what a reload and the file system answer is part of it.
pub mod Debounce
pub mod Covers
use agent_creance.Prelude.{
  ℕ, suc, ◌+◌, Bool, true, false, not, ◌||◌, List, [], ◌∷◌, ◌++◌, Option, none, some, Bytes,
  bytes_eq, any, select, if◌then◌else◌, leb,
}
use agent_creance.FilePath.{dir}
use agent_creance.Config.Load.{Loaded, loaded, refused}

pub data ReloadResult : Type 0 where
  reload_failed unchanged : ReloadResult
  changed : (summary : Bytes) → ReloadResult

pub data Notice : Type 0 where
  not_watched : (path : Bytes) → Notice
  watch_error kept_last_good policy_unchanged scan_failed : Notice
  reloaded : (summary : Bytes) → Notice

-- What `ResolveFiles` returns, which directories cannot be watched, and what a reload returns
pub record Answers : Type 0 where
  pub reload : ReloadResult
  pub files : Loaded (List Bytes)
  pub unwatchable : Bytes → Bool

pub record Watcher : Type 0 where
  pub watched : List Bytes
  pub dirs : List Bytes
  -- when the debounce timer fires, if it runs
  pub deadline : Option ℕ
  pub reloads : ℕ
  pub out : List Notice

abbrev pub is_in : List Bytes → Bytes → Bool
is_in paths p = any (bytes_eq p) paths

abbrev pub note : Notice → Watcher → Watcher
note n w = record w { out = n ∷ w.out }

-- `dirsOf`, with the directories seen so far
unfoldable pub dirs_from : List Bytes → List Bytes → List Bytes
dirs_from seen [] = seen
dirs_from seen (f ∷ files) =
    if is_in seen (dir f) then dirs_from seen files else dirs_from (seen ++ dir f ∷ []) files

abbrev pub dirs_of : List Bytes → List Bytes
dirs_of files = dirs_from [] files

abbrev pub add_dir : Answers → Bytes → Watcher → Watcher
add_dir a d w =
    if a.unwatchable d then note (not_watched d) w else record w { dirs = w.dirs ++ d ∷ [] }

-- The loop of `Start` over the directories
unfoldable pub add_all : Answers → List Bytes → Watcher → Watcher
add_all a [] w = w
add_all a (d ∷ ds) w = add_all a ds (add_dir a d w)

-- The first loop of `reconcileDirs`, over what was watched before
unfoldable pub add_missing : Answers → List Bytes → List Bytes → Watcher → Watcher
add_missing a have [] w = w
add_missing a have (d ∷ want) w =
    add_missing a have want (if is_in have d then w else add_dir a d w)

-- `reconcileDirs`; removing a directory that is watched does not fail.
unfoldable pub reconcile_dirs : Answers → List Bytes → Watcher → Watcher
unfolding add_missing
reconcile_dirs a want w =
    let added = add_missing a w.dirs want w in
    record added { dirs = select (is_in want) added.dirs }

abbrev pub rederive_from : Answers → Loaded (List Bytes) → Watcher → Watcher
rederive_from a (refused e) w = note scan_failed w
rederive_from a (loaded files) w = reconcile_dirs a (dirs_of files) (record w { watched = files })

-- `rederive`
unfoldable pub rederive : Answers → Watcher → Watcher
unfolding reconcile_dirs
rederive a w = rederive_from a a.files w

abbrev pub reported : Answers → ReloadResult → Watcher → Watcher
reported a reload_failed w = note kept_last_good w
reported a unchanged w = rederive a (note policy_unchanged w)
reported a (changed summary) w = rederive a (note (reloaded summary) w)

-- `doReload`
unfoldable pub do_reload : Answers → Watcher → Watcher
unfolding rederive
do_reload a w = reported a a.reload (record w { reloads = suc w.reloads })

-- `Start`, where the files resolve and the watcher is made
unfoldable pub start : Answers → List Bytes → Watcher
unfolding add_all dirs_from
start a files =
    add_all a (dirs_of files)
      (record { watched = files; dirs = []; deadline = none; reloads = 0; out = [] })

-- What the loop wakes for. The timer is ready at a time only if it runs out by then.
pub data Wake : Type 0 where
  cancelled stopping events_closed errors_closed failing : Wake
  event : (name : Bytes) (creates writes : Bool) → Wake
  timer : Answers → Wake

abbrev pub arm : ℕ → ℕ → Watcher → Watcher
arm debounce now w = record w { deadline = some (now + debounce) }

abbrev pub fire : ℕ → Answers → Option ℕ → Watcher → Watcher
fire now a none w = w
fire now a (some d) w = if leb d now then do_reload a (record w { deadline = none }) else w

-- One round of the loop, and whether it goes on
unfoldable pub step : ℕ → ℕ → Wake → Watcher → Watcher × Bool
unfolding do_reload
step debounce now cancelled w = (w, false)
step debounce now stopping w = (w, false)
step debounce now events_closed w = (w, false)
step debounce now errors_closed w = (w, false)
step debounce now failing w = (note watch_error w, true)
step debounce now (event name creates writes) w =
    if not (creates || writes)
    then (w, true)
    else if not (is_in w.watched name)
    then (w, true)
    else (arm debounce now w, true)
step debounce now (timer a) w = (fire now a w.deadline w, true)

unfoldable pub loop : ℕ → List (ℕ × Wake) → Watcher → Watcher
unfolding step
loop debounce [] w = w
loop debounce ((now, wake) ∷ wakes) w =
    let (w', on) = step debounce now wake w in
    let rest = loop debounce wakes w' in if on then rest else w'
