-- ===== src/Audit/Follow/Fed.antt =====
-- What a drain writes of the bytes it reads (internal/audit/follow.go).
use agent_creance.Prelude.{
  ℕ, ◌+◌, length-append, false, List, [], ◌∷◌, ◌++◌, Option, none, some, Bytes, length, drop, ◌==◌,
  arith, ◌≡◌, refl, sym, ◌∙◌, ap, subst, Bool-cases, inl, inr,
}
use mathlib.Core.List.{append_assoc, append-nil}
use agent_creance.Audit.Lines.{is_blank, complete_from, complete_from-append}
use agent_creance.Audit.Follow.{
  Disk, Handle, Follower, FollowError, shown, print, emit_lines, drain_chunks, at_end, drain,
  drain_handle,
}

abbrev pub concat : List Bytes → Bytes
concat [] = []
concat (c ∷ chunks) = c ++ concat chunks

module _ (show : Bytes → Option Bytes) where
  pub print-append : (xs ys : List Bytes) → print show (xs ++ ys) ≡ print show xs ++ print show ys
  unfolding print
  print-append [] ys = refl
  print-append (x ∷ xs) ys = elim (Bool-cases (is_blank x)) [
    | inl e ↦ rw e (print-append xs ys)
    | inr e ↦
        rw (e, print-append xs ys)
          (sym (append_assoc (shown show (show x)) (print show xs) (print show ys)))
  ]

  -- `bytes` of the file are read: their complete lines are written after `base`, and the rest
  -- waits.
  pub record Fed (base : List Bytes) (bytes : Bytes) (f : Follower) : Type 0 where
    pub waits : f.leftover ≡ (complete_from [] bytes).1
    pub wrote : f.out ≡ base ++ print show (complete_from [] bytes).0

  -- The rest of a buffer has no newline.
  rest_of :
      (cur s : Bytes)
      → complete_from [] cur ≡ ([], cur)
      → complete_from [] (complete_from cur s).1 ≡ ([], (complete_from cur s).1)
  unfolding complete_from
  rest_of cur [] h = h
  rest_of cur (c ∷ s) h = elim (Bool-cases (c == 10)) [
    | inl e ↦ rw e (rest_of [] s refl)
    | inr e ↦
        rw e (rest_of (cur ++ c ∷ []) s (complete_from-append [] cur (c ∷ []) ∙ rw (h, e) refl))
  ]

  -- Reading goes on where it stopped.
  complete-more :
      (bytes more : Bytes)
      → complete_from [] (bytes ++ more) ≡ (
        (complete_from [] bytes).0 ++ (complete_from [] ((complete_from [] bytes).1 ++ more)).0,
        (complete_from [] ((complete_from [] bytes).1 ++ more)).1,
      )
  unfolding complete_from
  complete-more bytes more =
      complete_from-append [] bytes more
      ∙ ap (λ (p : List Bytes × Bytes). ((complete_from [] bytes).0 ++ p.0, p.1)) (sym waiting)
    where
      rest : Bytes
      rest = (complete_from [] bytes).1

      waiting : complete_from [] (rest ++ more) ≡ complete_from rest more
      waiting = complete_from-append [] rest more ∙ rw (rest_of [] bytes refl) refl

  pub emit-Fed :
      (base : List Bytes) (bytes chunk : Bytes) (f : Follower)
      → Fed base bytes f
      → Fed base (bytes ++ chunk) (emit_lines show (record f { leftover = f.leftover ++ chunk }))
  unfolding emit_lines
  emit-Fed base bytes chunk f fed = record {
    waits = rw (fed.waits, complete-more bytes chunk) refl;
    wrote =
        rw
          (
            fed.waits,
            fed.wrote,
            complete-more bytes chunk,
            print-append (complete_from [] bytes).0
                (complete_from [] ((complete_from [] bytes).1 ++ chunk)).0,
          )
          (append_assoc base _ _);
  }

  pub drain_chunks-Fed :
      (base : List Bytes) (bytes : Bytes) (chunks : List Bytes) (f : Follower)
      → Fed base bytes f
      → Fed base (bytes ++ concat chunks) (drain_chunks show chunks f)
  unfolding drain_chunks
  drain_chunks-Fed base bytes [] f fed =
      subst (λ (b : Bytes). Fed base b f) (sym (append-nil bytes)) fed
  drain_chunks-Fed base bytes (chunk ∷ chunks) f fed =
      subst (λ (b : Bytes). Fed base b (drain_chunks show (chunk ∷ chunks) f))
        (append_assoc bytes chunk (concat chunks))
        (drain_chunks-Fed base (bytes ++ chunk) chunks _ (emit-Fed base bytes chunk f fed))

  pub drain_chunks-file :
      (chunks : List Bytes) (f : Follower) → (drain_chunks show chunks f).file ≡ f.file
  unfolding drain_chunks emit_lines
  drain_chunks-file [] f = refl
  drain_chunks-file (chunk ∷ chunks) f = drain_chunks-file chunks _

pub drop-append : (xs ys : Bytes) → drop (length xs) (xs ++ ys) ≡ ys
drop-append [] ys = refl
drop-append (x ∷ xs) ys = drop-append xs ys

module _ (show : Bytes → Option Bytes) (d : Disk) (reads : d.read_fails ≡ false)
    (whole : (b : Bytes) → concat (d.cut b) ≡ b) where
  pub record Drained (base : List Bytes) (bytes : Bytes) (i : ℕ) (r : Follower × Option FollowError)
      : Type 0 where
    pub fine : r.1 ≡ none
    pub at : r.0.file ≡ some (record { inode = i; offset = length (d.contents i) })
    pub fed : Fed show base bytes r.0

  -- A drain writes what is new in the file.
  pub drain-Drained :
      (base : List Bytes) (bytes old more : Bytes) (f : Follower) (h : Handle)
      → f.file ≡ some h
      → h.offset ≡ length old
      → d.contents h.inode ≡ old ++ more
      → Fed show base bytes f
      → Drained base (bytes ++ more) h.inode (drain show d f)
  unfolding drain
  drain-Drained base bytes old more f h file at_old holds fed =
      subst (λ (o : Option Handle). Drained base (bytes ++ more) h.inode (drain_handle show d f o))
        (sym file)
        (rw reads (record {
          fine = refl;
          at =
              drain_chunks-file show (d.cut (drop h.offset (d.contents h.inode))) (at_end d f h)
              ∙ ap (λ (n : ℕ). some (record { inode = h.inode; offset = n })) total;
          fed =
              subst
                (λ (b : Bytes).
                  Fed show base (bytes ++ b)
                    (drain_chunks show (d.cut (drop h.offset (d.contents h.inode))) (at_end d f h)))
                (whole _ ∙ new)
                (drain_chunks-Fed show base bytes (d.cut (drop h.offset (d.contents h.inode)))
                  (at_end d f h) (record { waits = fed.waits; wrote = fed.wrote }));
        }))
    where
      new : drop h.offset (d.contents h.inode) ≡ more
      new = rw (at_old, holds) (drop-append old more)

      total : h.offset + length (drop h.offset (d.contents h.inode)) ≡ length (d.contents h.inode)
      total =
          ap (λ (b : Bytes). h.offset + length b) new
          ∙ omega (arith, at_old, ap (λ (b : Bytes). length b) holds, length-append old more)
