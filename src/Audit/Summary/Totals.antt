-- ===== src/Audit/Summary/Totals.antt =====
-- What the numbers of a tally are (internal/audit/summary.go).
use agent_creance.Prelude.{
  ℕ, ◌+◌, false, List, [], ◌∷◌, ◌++◌, Option, some, Bytes, map, select, not, ◌≡◌, refl, sym, ◌∙◌,
  ap,
}
use mathlib.Core.List.{append_assoc, map-append}
use agent_creance.Audit.Lines.{Entry, is_blank, complete, complete_from-append}
use agent_creance.Audit.Summary.{
  Summary, nothing, Reader, read_lines, tally_lines, consume, summarize_from, summarize,
}

-- The lines of a reader that are not blank
abbrev pub entries : List Reader → List Bytes
entries [] = []
entries (r ∷ readers) =
    select (λ line. not (is_blank line)) (read_lines r.content) ++ entries readers

-- Every entry has one decision and one kind, and every line is an entry or malformed.
abbrev pub Adds : Summary → ℕ → Type 0
Adds s lines =
    (s.total ≡ s.allow + s.soft_deny + s.hard_deny + s.unknown)
    × (s.total ≡ s.intercepted + s.passthrough)
    × (s.total + s.malformed ≡ lines)

module _ (parse : Bytes → Option Entry) where
  tally_lines-append :
      (xs ys : List Bytes) (s : Summary)
      → tally_lines parse (xs ++ ys) s ≡ tally_lines parse ys (tally_lines parse xs s)
  unfolding tally_lines
  tally_lines-append [] ys s = refl
  tally_lines-append (x ∷ xs) ys s = tally_lines-append xs ys _

  -- The lines of two files are those of one file, and an empty text between them.
  read_lines-append :
      (xs ys : Bytes) (s : Summary)
      → (complete xs).1 ≡ []
      → tally_lines parse (read_lines (xs ++ ys)) s
        ≡ tally_lines parse (read_lines ys) (tally_lines parse (read_lines xs) s)
  unfolding tally_lines
  read_lines-append xs ys s whole =
      let ls = (complete xs).0 in
      let more = read_lines ys in
      ap (λ (l : List Bytes). tally_lines parse l s) joined
      ∙ tally_lines-append (map with_newline ls) more s
      ∙ ap (tally_lines parse more) (
          sym (
            ap (λ (r : Bytes). tally_lines parse (map with_newline ls ++ r ∷ []) s) whole
            ∙ tally_lines-append (map with_newline ls) ([] ∷ []) s))
    where
      with_newline : Bytes → Bytes
      with_newline line = line ++ 10 ∷ []

      joined : read_lines (xs ++ ys) ≡ map with_newline (complete xs).0 ++ read_lines ys
      joined =
          rw
            (
              complete_from-append [] xs ys,
              whole,
              map-append with_newline (complete xs).0 (complete ys).0,
            )
            (append_assoc (map with_newline (complete xs).0) (map with_newline (complete ys).0)
              ((complete ys).1 ∷ []))

  -- Where the rotated file ends with a newline, or is empty, it does not matter that the log is in
  -- two files: the summary of both is that of one file with the bytes of both.
  pub summarize_rotated :
      (rotated current : Bytes)
      → (complete rotated).1 ≡ []
      → summarize parse (
          record { content = rotated; fails = false }
          ∷ record { content = current; fails = false }
          ∷ [])
        ≡ summarize parse (record { content = rotated ++ current; fails = false } ∷ [])
  unfolding summarize_from consume
  summarize_rotated rotated current whole =
      ap some (sym (read_lines-append rotated current nothing whole))
