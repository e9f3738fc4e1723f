-- ===== src/Tests/AuditWitnesses.antt =====
-- The audit log's theorems at a small log.
use agent_creance.Prelude.{
  true, false, List, [], ◌∷◌, ◌++◌, Option, none, some, Bytes, codes, bytes_eq, ◌≡◌, refl, ap,
  if◌then◌else◌, ◌==◌,
}
use agent_creance.Audit.Lines.{Entry, complete_from, complete}
use agent_creance.Audit.Summary.{Summary, Reader}
use agent_creance.Audit.Follow.{print, open_log, started}
use agent_creance.Audit.Follow.Fed.{concat}
use agent_creance.Audit.Follow.Once.{
  World, Change, grows, rotates, disk_of, logged, follow_changes, follow_changes_once,
}

abbrev up_to_newline : Bytes → Bytes
up_to_newline [] = []
up_to_newline (c ∷ s) = if c == 10 then [] else c ∷ up_to_newline s

-- A line is its decision; "x" is malformed.
abbrev parse : Bytes → Option Entry
parse line =
    if bytes_eq (up_to_newline line) (codes "x")
    then none
    else some record {
      ts = [];
      method = [];
      url = [];
      host = [];
      decision = up_to_newline line;
      rule = none;
      status = 200;
    }

abbrev log : List Reader
log =
    record { content = codes "allow" ++ 10 ∷ []; fails = false }
    ∷ record { content = codes "soft-deny" ++ 10 ∷ 10 ∷ codes "x"; fails = false }
    ∷ []

abbrev tallied : Summary
tallied = record {
  total = 2;
  allow = 1;
  soft_deny = 1;
  hard_deny = 0;
  intercepted = 2;
  passthrough = 0;
  unknown = 0;
  malformed = 1;
}

whole_line : (complete (codes "allow" ++ 10 ∷ [])).1 ≡ []
unfolding complete_from
whole_line = refl

abbrev show : Bytes → Option Bytes
show line = some line

-- Reads of one byte
abbrev bytewise : Bytes → List Bytes
bytewise [] = []
bytewise (c ∷ s) = (c ∷ []) ∷ bytewise s

bytewise-concat : (b : Bytes) → concat (bytewise b) ≡ b
bytewise-concat [] = refl
bytewise-concat (c ∷ b) = ap (λ (s : Bytes). c ∷ s) (bytewise-concat b)

abbrev before : World
before = record { inode = 7; contents = λ i. codes "old" ++ 10 ∷ [] }

abbrev changes : List Change
changes =
    grows (codes "a")
    ∷ rotates (codes "b" ++ 10 ∷ codes "lost") (codes "c" ++ 10 ∷ [])
    ∷ grows (codes "d" ++ 10 ∷ [])
    ∷ []

follow_changes_once_example :
    (follow_changes show bytewise changes before
      (open_log (disk_of bytewise before) true started).0).out
    ≡ print show (logged changes [])
follow_changes_once_example = follow_changes_once show bytewise changes before bytewise-concat

-- The part of a line that a rotation cuts off is not written.
printed_run : print show (logged changes []) ≡ codes "ab" ∷ codes "c" ∷ codes "d" ∷ []
unfolding print complete_from
printed_run = refl
