-- ===== src/Audit/Summary.antt =====
-- The tally of the log and its listing (internal/audit/summary.go, internal/audit/read.go). A
-- reader is the bytes that it gives and whether it fails after them.
pub mod Totals
use agent_creance.Prelude.{
  ℕ, suc, ◌+◌, Bool, true, false, List, [], ◌∷◌, ◌++◌, Option, none, some, Bytes, map,
  if◌then◌else◌, bytes_eq,
}
use agent_creance.Audit.Lines.{
  Entry, decision_allow, decision_soft_deny, decision_hard_deny, is_passthrough, is_blank, complete,
}

pub record Summary : Type 0 where
  pub total : ℕ
  pub allow : ℕ
  pub soft_deny : ℕ
  pub hard_deny : ℕ
  pub intercepted : ℕ
  pub passthrough : ℕ
  pub unknown : ℕ
  pub malformed : ℕ

abbrev pub nothing : Summary
nothing = record {
  total = 0;
  allow = 0;
  soft_deny = 0;
  hard_deny = 0;
  intercepted = 0;
  passthrough = 0;
  unknown = 0;
  malformed = 0;
}

pub record Reader : Type 0 where
  pub content : Bytes
  pub fails : Bool

pub data FileAt : Type 0 where
  missing unreadable : FileAt
  holding : Reader → FileAt

-- What `ReadString` returns, one call after the other: the last text has no newline.
abbrev pub read_lines : Bytes → List Bytes
read_lines content =
    let (lines, rest) = complete content in
    map (λ (line : Bytes). line ++ 10 ∷ []) lines ++ rest ∷ []

abbrev pub count_decision : Bytes → Summary → Summary
count_decision decision s =
    if bytes_eq decision decision_allow
    then record s { allow = suc s.allow }
    else if bytes_eq decision decision_soft_deny
    then record s { soft_deny = suc s.soft_deny }
    else if bytes_eq decision decision_hard_deny
    then record s { hard_deny = suc s.hard_deny }
    else record s { unknown = suc s.unknown }

abbrev pub count_kind : Bool → Summary → Summary
count_kind true s = record s { passthrough = suc s.passthrough }
count_kind false s = record s { intercepted = suc s.intercepted }

abbrev pub tally_entry : Option Entry → Summary → Summary
tally_entry none s = record s { malformed = suc s.malformed }
tally_entry (some e) s =
    count_decision e.decision (count_kind (is_passthrough e) (record s { total = suc s.total }))

module _ (parse : Bytes → Option Entry) where
  -- `tally`
  unfoldable pub tally : Bytes → Summary → Summary
  tally line s = tally_entry (parse line) s

  unfoldable pub tally_lines : List Bytes → Summary → Summary
  unfolding tally
  tally_lines [] s = s
  tally_lines (line ∷ lines) s = tally_lines lines (if is_blank line then s else tally line s)

  -- `consume`
  unfoldable pub consume : Reader → Summary → Option Summary
  unfolding tally_lines
  consume r s = if r.fails then none else some (tally_lines (read_lines r.content) s)

  -- `Summarize`
  unfoldable pub summarize_from : List Reader → Summary → Option Summary
  unfolding consume
  summarize_from [] s = some s
  summarize_from (r ∷ readers) s = elim (consume r s) [
    | none ↦ none
    | some s' ↦ summarize_from readers s'
  ]

  abbrev pub summarize : List Reader → Option Summary
  summarize readers = summarize_from readers nothing

abbrev pub onto : Reader → Option (List Reader) → Option (List Reader)
onto r none = none
onto r (some readers) = some (r ∷ readers)

-- `openStreams`
abbrev pub open_streams : List FileAt → Option (List Reader)
open_streams [] = some []
open_streams (missing ∷ files) = open_streams files
open_streams (unreadable ∷ files) = none
open_streams (holding r ∷ files) = onto r (open_streams files)

abbrev pub summarize_opened : (Bytes → Option Entry) → Option (List Reader) → Option Summary
summarize_opened parse none = none
summarize_opened parse (some readers) = summarize parse readers

-- `SummarizeFiles`
abbrev pub summarize_files : (Bytes → Option Entry) → FileAt → FileAt → Option Summary
summarize_files parse rotated current =
    summarize_opened parse (open_streams (rotated ∷ current ∷ []))
