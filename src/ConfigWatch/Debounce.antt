-- ===== src/ConfigWatch/Debounce.antt =====
-- One reload for a burst of edits (internal/configwatch/configwatch.go, `loop`).
use agent_creance.Prelude.{
  ℕ, suc, ◌+◌, ◌≤◌, ◌<◌, Bool, true, false, ◌||◌, List, [], ◌∷◌, ◌++◌, none, some, Bytes,
  if◌then◌else◌, leb, arith, ◌≡◌, refl, sym, ◌∙◌, ap, subst, Bool-cases, inl, inr,
}
use agent_creance.ConfigWatch.{
  not_watched, policy_unchanged, reloaded, Watcher, Answers, ReloadResult, reload_failed, unchanged,
  changed, is_in, note, add_dir, add_missing, dirs_of, reconcile_dirs, rederive_from, rederive,
  reported, do_reload, Wake, failing, event, timer, arm, step, loop,
}
use agent_creance.Config.Load.{Loaded, loaded, refused}

-- A wake during a burst whose timer was last armed at `last`: an edit of a watched file, which arms
-- it again; an event that is left out; an error; or a look at the timer before it runs out.
pub data DuringBurst (debounce : ℕ) (watched : List Bytes) (last : ℕ) : ℕ → Wake → ℕ → Type 0 where
  edits :
      {now : ℕ} {name : Bytes} {creates writes : Bool}
      → last ≤ now
      → (creates || writes) ≡ true
      → is_in watched name ≡ true
      → DuringBurst debounce watched last now (event name creates writes) now
  unrelated :
      {now : ℕ} {name : Bytes} {creates writes : Bool}
      → is_in watched name ≡ false
      → DuringBurst debounce watched last now (event name creates writes) last
  metadata :
      {now : ℕ} {name : Bytes} → DuringBurst debounce watched last now (event name false false) last
  errs : {now : ℕ} → DuringBurst debounce watched last now failing last
  early :
      {now : ℕ} {a : Answers}
      → now < last + debounce
      → DuringBurst debounce watched last now (timer a) last

-- The wakes of a burst, from the time of its first edit to that of its last
pub data Burst (debounce : ℕ) (watched : List Bytes) : ℕ → List (ℕ × Wake) → ℕ → Type 0 where
  over : {last : ℕ} → Burst debounce watched last [] last
  more :
      {last now next final : ℕ} {w : Wake} {wakes : List (ℕ × Wake)}
      → DuringBurst debounce watched last now w next
      → Burst debounce watched next wakes final
      → Burst debounce watched last ((now, w) ∷ wakes) final

-- The counts and the timer, which watching directories leaves alone
record Kept (w w' : Watcher) : Type 0 where
  reloads : w'.reloads ≡ w.reloads
  deadline : w'.deadline ≡ w.deadline

add_missing-Kept :
    (a : Answers) (have want : List Bytes) (w : Watcher) → Kept w (add_missing a have want w)
unfolding add_missing
add_missing-Kept a have [] w = record { reloads = refl; deadline = refl }
add_missing-Kept a have (d ∷ want) w =
    let rest = add_missing-Kept a have want (if is_in have d then w else add_dir a d w) in
    record {
      reloads =
          rest.reloads
          ∙ by_tests (is_in have d) (a.unwatchable d) (λ x. x.reloads) (λ n. refl) (λ n. refl);
      deadline =
          rest.deadline
          ∙ by_tests (is_in have d) (a.unwatchable d) (λ x. x.deadline) (λ n. refl) (λ n. refl);
    }
  where
    by_tests :
        (b u : Bool) {A : Type 0} (get : Watcher → A)
        → ((n : Watcher) → get (note (not_watched d) n) ≡ get n)
        → ((n : Watcher) → get (record n { dirs = n.dirs ++ d ∷ [] }) ≡ get n)
        → get (
            if b
            then w
            else if u
            then note (not_watched d) w
            else record w { dirs = w.dirs ++ d ∷ [] })
          ≡ get w
    by_tests true u get f g = refl
    by_tests false true get f g = f w
    by_tests false false get f g = g w

rederive-Kept : (a : Answers) (w : Watcher) → Kept w (rederive a w)
unfolding rederive reconcile_dirs
rederive-Kept a w = by_files a.files
  where
    by_files : (r : Loaded (List Bytes)) → Kept w (rederive_from a r w)
    by_files (refused e) = record { reloads = refl; deadline = refl }
    by_files (loaded files) =
        let k = add_missing-Kept a w.dirs (dirs_of files) (record w { watched = files }) in
        record { reloads = k.reloads; deadline = k.deadline }

do_reload-Kept :
    (a : Answers) (w : Watcher) → Kept (record w { reloads = suc w.reloads }) (do_reload a w)
unfolding do_reload
do_reload-Kept a w = by_result a.reload
  where
    by_result :
        (r : ReloadResult)
        → Kept
            (record w { reloads = suc w.reloads })
            (reported a r (record w { reloads = suc w.reloads }))
    by_result reload_failed = record { reloads = refl; deadline = refl }
    by_result unchanged =
        let k = rederive-Kept a (note policy_unchanged (record w { reloads = suc w.reloads })) in
        record { reloads = k.reloads; deadline = k.deadline }
    by_result (changed summary) =
        let k = rederive-Kept a (note (reloaded summary) (record w { reloads = suc w.reloads })) in
        record { reloads = k.reloads; deadline = k.deadline }

-- The loop goes on with the timer set, and has not reloaded.
record Armed (debounce : ℕ) (w : Watcher) (last : ℕ) (r : Watcher × Bool) : Type 0 where
  on : r.1 ≡ true
  deadline : r.0.deadline ≡ some (last + debounce)
  reloads : r.0.reloads ≡ w.reloads
  watched : r.0.watched ≡ w.watched

step-Armed :
    (debounce last now next : ℕ) (k : Wake) (w : Watcher)
    → w.deadline ≡ some (last + debounce)
    → DuringBurst debounce w.watched last now k next
    → Armed debounce w next (step debounce now k w)
unfolding step
step-Armed debounce last now next k w at (edits later kind named) =
    rw (kind, named) (record { on = refl; deadline = refl; reloads = refl; watched = refl })
step-Armed debounce last now next (event name creates writes) w at (unrelated other) =
    elim (Bool-cases (creates || writes)) [
      | inl e ↦ rw (e, other) (record { on = refl; deadline = at; reloads = refl; watched = refl })
      | inr e ↦ rw e (record { on = refl; deadline = at; reloads = refl; watched = refl })
    ]
step-Armed debounce last now next k w at metadata = record {
  on = refl;
  deadline = at;
  reloads = refl;
  watched = refl;
}
step-Armed debounce last now next k w at errs = record {
  on = refl;
  deadline = at;
  reloads = refl;
  watched = refl;
}
step-Armed debounce last now next (timer a) w at (early soon) =
    rw at
      (rw (not_yet soon) (record { on = refl; deadline = refl; reloads = refl; watched = refl }))
  where
    not_yet : now < last + debounce → leb (last + debounce) now ≡ false
    not_yet soon = ground arith

-- What a burst and the timer after it leave
pub record Reloaded (w after : Watcher) : Type 0 where
  pub reloads : after.reloads ≡ suc w.reloads
  pub idle : after.deadline ≡ none

fires-Reloaded :
    (debounce now last : ℕ) (a : Answers) (w : Watcher)
    → w.deadline ≡ some (last + debounce)
    → last + debounce ≤ now
    → Reloaded w (loop debounce ((now, timer a) ∷ []) w)
unfolding loop step
fires-Reloaded debounce now last a w at late =
    let k = do_reload-Kept a (record w { deadline = none }) in
    rw at (rw (ready late) (record { reloads = k.reloads; idle = k.deadline }))
  where
    ready : last + debounce ≤ now → leb (last + debounce) now ≡ true
    ready late = ground arith

Burst-Reloaded :
    (debounce last final now : ℕ) (wakes : List (ℕ × Wake)) (a : Answers) (w : Watcher)
    → w.deadline ≡ some (last + debounce)
    → Burst debounce w.watched last wakes final
    → final + debounce ≤ now
    → Reloaded w (loop debounce (wakes ++ (now, timer a) ∷ []) w)
unfolding loop
Burst-Reloaded debounce last final now [] a w at over late =
    fires-Reloaded debounce now last a w at late
Burst-Reloaded debounce last final now ((t, k) ∷ wakes) a w at (more {next = next} d rest) late =
    let armed = step-Armed debounce last t next k w at d in
    let w' = (step debounce t k w).0 in
    let after =
      Burst-Reloaded debounce next final now wakes a w' armed.deadline
        (subst (λ (x : List Bytes). Burst debounce x next wakes final) (sym armed.watched) rest)
        late in
    rw armed.on (record { reloads = after.reloads ∙ ap suc armed.reloads; idle = after.idle })

-- However the loop stands, an edit of a watched file and what follows it with less than the
-- debounce period after the last edit, any number of edits and other wakes, is followed by exactly
-- one reload, when the timer fires; then no reload is pending.
pub loop-Burst :
    (debounce first final now : ℕ) (name : Bytes) (creates writes : Bool) (wakes : List (ℕ × Wake))
    (a : Answers) (w : Watcher)
    → (creates || writes) ≡ true
    → is_in w.watched name ≡ true
    → Burst debounce w.watched first wakes final
    → final + debounce ≤ now
    → Reloaded w
        (loop debounce ((first, event name creates writes) ∷ (wakes ++ (now, timer a) ∷ [])) w)
unfolding loop step
loop-Burst debounce first final now name creates writes wakes a w kind named burst late =
    let after =
      Burst-Reloaded debounce first final now wakes a (arm debounce first w) refl burst late in
    rw (kind, named) (record { reloads = after.reloads; idle = after.idle })
