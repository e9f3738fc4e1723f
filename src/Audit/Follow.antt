-- ===== src/Audit/Follow.antt =====
-- Following the log (internal/audit/follow.go). The bytes of each file that was ever at the path
-- are known by an inode number; a read that fails is the first of its drain; `show` decodes and
-- formats a line, and is none on a malformed one. The writer that lines go to never fails.
pub mod Fed
pub mod Once
use agent_creance.Prelude.{
  ℕ, ◌+◌, Bool, true, false, ◌||◌, not, List, [], ◌∷◌, ◌++◌, Option, none, some, Bytes, length,
  drop, if◌then◌else◌, ◌==◌, bytes_eq,
}
use agent_creance.Audit.Lines.{is_blank, complete_from}

pub data FollowError : Type 0 where
  stat_failed open_failed read_failed watch_failed : FollowError

-- What the file system says during a call of `sync`; `cut` is how the reads divide the bytes.
pub record Disk : Type 0 where
  pub current : Option ℕ
  pub contents : ℕ → Bytes
  pub stat_fails : Bool
  pub open_fails : Bool
  pub read_fails : Bool
  pub cut : Bytes → List Bytes

pub record Handle : Type 0 where
  pub inode : ℕ
  pub offset : ℕ

pub record Follower : Type 0 where
  pub file : Option Handle
  pub leftover : Bytes
  -- what was written, the first line first
  pub out : List Bytes

abbrev pub at_end : Disk → Follower → Handle → Follower
at_end d f h = record f {
  file = some (record h { offset = h.offset + length (drop h.offset (d.contents h.inode)) });
}

-- `open`, at the end or at the start of the file that is current
abbrev pub open_current : Disk → Bool → Follower → Option ℕ → Follower × Option FollowError
open_current d at_tail f none = (record f { file = none }, none)
open_current d at_tail f (some i) = if d.open_fails then (f, some open_failed) else (
  record f {
    file = some (record { inode = i; offset = if at_tail then length (d.contents i) else 0 });
    leftover = [];
  },
  none,
)

unfoldable pub open_log : Disk → Bool → Follower → Follower × Option FollowError
open_log d at_tail f = open_current d at_tail f d.current

abbrev pub then_follow :
    Follower × Option FollowError
    → (Follower → Follower × Option FollowError)
    → Follower × Option FollowError
then_follow (f, none) k = k f
then_follow (f, some e) k = (f, some e)

-- `closeFile`
abbrev pub close_file : Follower → Follower
close_file f = record f { file = none }

-- What the loop of `Follow` wakes for
pub data Wake : Type 0 where
  cancelled closed watch_error tick : Wake
  event : (name : Bytes) (only_chmod : Bool) → Wake

pub data Verdict : Type 0 where
  goes_on returns : Verdict
  fails : FollowError → Verdict

abbrev pub synced : Follower × Option FollowError → Follower × Verdict
synced (f, none) = (f, goes_on)
synced (f, some e) = (f, fails e)

abbrev pub started : Follower
started = record { file = none; leftover = []; out = [] }

module _ (show : Bytes → Option Bytes) where
  abbrev pub shown : Option Bytes → List Bytes
  shown none = []
  shown (some text) = text ∷ []

  -- The lines that are written, blank and malformed ones skipped
  unfoldable pub print : List Bytes → List Bytes
  print [] = []
  print (line ∷ lines) = if is_blank line then print lines else shown (show line) ++ print lines

  -- `emitLines`
  unfoldable pub emit_lines : Follower → Follower
  unfolding print complete_from
  emit_lines f =
      let (lines, rest) = complete_from [] f.leftover in
      record f { leftover = rest; out = f.out ++ print lines }

  -- The loop of `drain`, over what each read returns
  unfoldable pub drain_chunks : List Bytes → Follower → Follower
  unfolding emit_lines
  drain_chunks [] f = f
  drain_chunks (chunk ∷ chunks) f =
      drain_chunks chunks (emit_lines (record f { leftover = f.leftover ++ chunk }))

  abbrev pub drain_handle : Disk → Follower → Option Handle → Follower × Option FollowError
  drain_handle d f none = (f, none)
  drain_handle d f (some h) =
      if d.read_fails
      then (f, some read_failed)
      else (drain_chunks (d.cut (drop h.offset (d.contents h.inode))) (at_end d f h), none)

  -- `drain`
  unfoldable pub drain : Disk → Follower → Follower × Option FollowError
  unfolding drain_chunks
  drain d f = drain_handle d f f.file

  -- The switch to the file at the path, the old handle drained first
  abbrev pub switch_from : Disk → Follower → ℕ → Option Handle → Follower × Option FollowError
  switch_from d f i none = open_log d false f
  switch_from d f i (some h) =
      if h.inode == i
      then (f, none)
      else then_follow (drain d f) (λ f'. open_log d false (close_file f'))

  abbrev pub check_current : Disk → Follower → Option ℕ → Follower × Option FollowError
  check_current d f none = (f, none)
  check_current d f (some i) = switch_from d f i f.file

  -- `checkRotation`
  unfoldable pub check_rotation : Disk → Follower → Follower × Option FollowError
  unfolding drain open_log
  check_rotation d f = if d.stat_fails then (f, some stat_failed) else check_current d f d.current

  -- `sync`
  unfoldable pub sync : Disk → Follower → Follower × Option FollowError
  unfolding check_rotation drain
  sync d f = then_follow (check_rotation d f) (drain d)

  abbrev pub follow_step : Bytes → Disk → Wake → Follower → Follower × Verdict
  follow_step path d cancelled f = (f, returns)
  follow_step path d closed f = (f, returns)
  follow_step path d watch_error f = (f, fails watch_failed)
  follow_step path d tick f = synced (sync d f)
  follow_step path d (event name only_chmod) f =
      if not (bytes_eq name path) || only_chmod then (f, goes_on) else synced (sync d f)

  -- The loop of `Follow`, while it is woken
  unfoldable pub follow_loop : Bytes → List (Disk × Wake) → Follower → Follower × Verdict
  unfolding sync
  follow_loop path [] f = (f, goes_on)
  follow_loop path ((d, w) ∷ wakes) f =
      let (f', v) = follow_step path d w f in
      let rest = follow_loop path wakes f' in
      elim v [ goes_on ↦ rest | returns ↦ (f', returns) | fails e ↦ (f', fails e) ]
