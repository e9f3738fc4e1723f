-- ===== src/Audit/Follow/Once.antt =====
-- Each line that is logged is written once, across rotations (internal/audit/follow.go).
use agent_creance.Prelude.{
  ℕ, suc, true, false, List, [], ◌∷◌, ◌++◌, Option, none, some, Bytes, length, if◌then◌else◌, ◌==◌,
  ==_iff, arith, ◌≡◌, refl, sym, ◌∙◌, ap, subst,
}
use mathlib.Core.List.{append_assoc, append-nil}
use agent_creance.Audit.Lines.{complete_from}
use agent_creance.Audit.Follow.{
  Disk, Handle, Follower, FollowError, print, drain, switch_from, open_log, close_file, then_follow,
  check_rotation, sync, started,
}
use agent_creance.Audit.Follow.Fed.{concat, Fed, print-append, Drained, drain-Drained}

-- The log's file and what every file holds
pub record World : Type 0 where
  pub inode : ℕ
  pub contents : ℕ → Bytes

-- What happens between two calls of `sync`: the file grows; or it grows by a tail, and a new file
-- takes its place, with the bytes that it has by then.
pub data Change : Type 0 where
  grows : Bytes → Change
  rotates : (last first : Bytes) → Change

abbrev pub grown : (ℕ → Bytes) → ℕ → Bytes → ℕ → Bytes
grown m i bytes j = if j == i then m i ++ bytes else m j

abbrev pub changed : Change → World → World
changed (grows bytes) w = record w { contents = grown w.contents w.inode bytes }
changed (rotates last first) w = record {
  inode = suc w.inode;
  contents = λ j. if j == suc w.inode then first else grown w.contents w.inode last j;
}

-- A file system that answers everything
abbrev pub disk_of : (Bytes → List Bytes) → World → Disk
disk_of cut w = record {
  current = some w.inode;
  contents = w.contents;
  stat_fails = false;
  open_fails = false;
  read_fails = false;
  cut = cut;
}

-- The complete lines of each file, the bytes of the current one so far being `cur`
abbrev pub logged : List Change → Bytes → List Bytes
logged [] cur = (complete_from [] cur).0
logged (grows bytes ∷ changes) cur = logged changes (cur ++ bytes)
logged (rotates last first ∷ changes) cur =
    (complete_from [] (cur ++ last)).0 ++ logged changes first

module _ (show : Bytes → Option Bytes) where
  abbrev pub follow_changes : (Bytes → List Bytes) → List Change → World → Follower → Follower
  follow_changes cut [] w f = f
  follow_changes cut (c ∷ changes) w f =
      follow_changes cut changes (changed c w) (sync show (disk_of cut (changed c w)) f).0

  -- The follower is at the end of the file, and has read what came after `before`.
  record Follows (base : List Bytes) (before bytes : Bytes) (w : World) (f : Follower)
      : Type 0 where
    file : f.file ≡ some (record { inode = w.inode; offset = length (w.contents w.inode) })
    holds : w.contents w.inode ≡ before ++ bytes
    fed : Fed show base bytes f

  same_inode : (i : ℕ) → (i == i) ≡ true
  same_inode i = (==_iff i i).1 refl

  -- At the same file, a sync is a drain.
  sync_same :
      (cut : Bytes → List Bytes) (w : World) (f : Follower) (h : Handle)
      → f.file ≡ some h
      → (h.inode == w.inode) ≡ true
      → sync show (disk_of cut w) f ≡ drain show (disk_of cut w) f
  unfolding sync check_rotation
  sync_same cut w f h file same =
      subst
        (λ (o : Option Handle).
          then_follow (switch_from show (disk_of cut w) f w.inode o) (drain show (disk_of cut w))
          ≡ drain show (disk_of cut w) f)
        (sym file) (rw same refl)

  -- At another file, the old one is drained, and then the new one from its start.
  sync_rotated :
      (cut : Bytes → List Bytes) (w : World) (f : Follower) (h : Handle)
      → f.file ≡ some h
      → (h.inode == w.inode) ≡ false
      → (drain show (disk_of cut w) f).1 ≡ none
      → sync show (disk_of cut w) f
        ≡ drain show (disk_of cut w) (record (drain show (disk_of cut w) f).0 {
          file = some (record { inode = w.inode; offset = 0 });
          leftover = [];
        })
  unfolding sync check_rotation open_log
  sync_rotated cut w f h file other fine =
      subst
        (λ (o : Option Handle).
          then_follow (switch_from show (disk_of cut w) f w.inode o) (drain show (disk_of cut w))
          ≡ drain show (disk_of cut w) (record (drain show (disk_of cut w) f).0 {
            file = some (record { inode = w.inode; offset = 0 });
            leftover = [];
          }))
        (sym file) (rw other (by_drain (drain show (disk_of cut w) f) fine))
    where
      by_drain :
          (r : Follower × Option FollowError)
          → r.1 ≡ none
          → then_follow
              (then_follow r (λ f'. open_log (disk_of cut w) false (close_file f')))
              (drain show (disk_of cut w))
            ≡ drain show
                (disk_of cut w)
                (record r.0 { file = some (record { inode = w.inode; offset = 0 }); leftover = [] })
      by_drain (g, none) e = refl
      by_drain (g, some x) e = cc

  module _ (cut : Bytes → List Bytes) (whole : (b : Bytes) → concat (cut b) ≡ b) where
    Drained-Follows :
        (base : List Bytes) (before bytes : Bytes) (w : World) (r : Follower × Option FollowError)
        → Drained show (disk_of cut w) refl whole base bytes w.inode r
        → w.contents w.inode ≡ before ++ bytes
        → Follows base before bytes w r.0
    Drained-Follows base before bytes w r dr holds = record {
      file = dr.at;
      holds = holds;
      fed = dr.fed;
    }

    grows-Follows :
        (base : List Bytes) (before bytes more : Bytes) (w : World) (f : Follower)
        → Follows base before bytes w f
        → Follows base before
            (bytes ++ more)
            (changed (grows more) w)
            (sync show (disk_of cut (changed (grows more) w)) f).0
    grows-Follows base before bytes more w f follows =
        let w' = changed (grows more) w in
        let h : Handle = record { inode = w.inode; offset = length (w.contents w.inode) } in
        let at : w'.contents w.inode ≡ w.contents w.inode ++ more = rw (same_inode w.inode) refl in
        let dr =
          drain-Drained show (disk_of cut w') refl whole base bytes (w.contents w.inode) more f h
            follows.file refl at follows.fed in
        subst (λ (r : Follower × Option FollowError). Follows base before (bytes ++ more) w' r.0)
          (sym (sync_same cut w' f h follows.file (same_inode w.inode)))
          (Drained-Follows base before (bytes ++ more) w' (drain show (disk_of cut w') f) dr
            (at ∙ ap (λ (b : Bytes). b ++ more) follows.holds ∙ append_assoc before bytes more))

    rotates-Follows :
        (base : List Bytes) (before bytes last first : Bytes) (w : World) (f : Follower)
        → Follows base before bytes w f
        → Follows
            (base ++ print show (complete_from [] (bytes ++ last)).0)
            []
            first
            (changed (rotates last first) w)
            (sync show (disk_of cut (changed (rotates last first) w)) f).0
    unfolding complete_from print
    rotates-Follows base before bytes last first w f follows =
        let w' = changed (rotates last first) w in
        let h : Handle = record { inode = w.inode; offset = length (w.contents w.inode) } in
        let at : w'.contents w.inode ≡ w.contents w.inode ++ last =
          rw (older w.inode, same_inode w.inode) refl in
        let dr =
          drain-Drained show (disk_of cut w') refl whole base bytes (w.contents w.inode) last f h
            follows.file refl at follows.fed in
        let g : Follower = record (drain show (disk_of cut w') f).0 {
          file = some (record { inode = suc w.inode; offset = 0 });
          leftover = [];
        } in
        let fresh : w'.contents (suc w.inode) ≡ first = rw (same_inode (suc w.inode)) refl in
        let dr' =
          drain-Drained show (disk_of cut w') refl whole
            (base ++ print show (complete_from [] (bytes ++ last)).0) [] [] first g
            (record { inode = suc w.inode; offset = 0 }) refl refl fresh
            (record { waits = refl; wrote = dr.fed.wrote ∙ sym (append-nil _) }) in
        subst
          (λ (r : Follower × Option FollowError).
            Follows (base ++ print show (complete_from [] (bytes ++ last)).0) [] first w' r.0)
          (sym (sync_rotated cut w' f h follows.file (newer w.inode) dr.fine))
          (Drained-Follows _ [] first w' (drain show (disk_of cut w') g) dr' fresh)
      where
        older : (i : ℕ) → (i == suc i) ≡ false
        older i = ground arith

        newer : (i : ℕ) → (i == suc i) ≡ false
        newer i = ground arith

    follow_changes-out :
        (changes : List Change) (base : List Bytes) (before bytes : Bytes) (w : World)
        (f : Follower)
        → Follows base before bytes w f
        → (follow_changes cut changes w f).out ≡ base ++ print show (logged changes bytes)
    follow_changes-out [] base before bytes w f follows = follows.fed.wrote
    follow_changes-out (grows more ∷ changes) base before bytes w f follows =
        follow_changes-out changes base before (bytes ++ more) (changed (grows more) w)
          (sync show (disk_of cut (changed (grows more) w)) f).0
          (grows-Follows base before bytes more w f follows)
    follow_changes-out (rotates last first ∷ changes) base before bytes w f follows =
        follow_changes-out changes (base ++ print show (complete_from [] (bytes ++ last)).0) []
          first (changed (rotates last first) w)
          (sync show (disk_of cut (changed (rotates last first) w)) f).0
          (rotates-Follows base before bytes last first w f follows)
        ∙ append_assoc base (print show (complete_from [] (bytes ++ last)).0)
            (print show (logged changes first))
        ∙ ap (λ (l : List Bytes). base ++ l)
            (sym (print-append show (complete_from [] (bytes ++ last)).0 (logged changes first)))

  -- A follower that starts at the end of the log, and is woken after each change of the file, has
  -- at the end written every complete line that was logged since, each once and in order, of the
  -- files that were rotated away as well, blank and malformed lines left out; whatever the sizes of
  -- its reads. Between two wakes the file grows, or is rotated once.
  pub follow_changes_once :
      (cut : Bytes → List Bytes) (changes : List Change) (w : World)
      → ((b : Bytes) → concat (cut b) ≡ b)
      → (follow_changes cut changes w (open_log (disk_of cut w) true started).0).out
        ≡ print show (logged changes [])
  unfolding open_log complete_from print
  follow_changes_once cut changes w whole =
      follow_changes-out cut whole changes [] (w.contents w.inode) [] w
        (open_log (disk_of cut w) true started).0
        (record {
          file = refl;
          holds = sym (append-nil (w.contents w.inode));
          fed = record { waits = refl; wrote = refl };
        })
