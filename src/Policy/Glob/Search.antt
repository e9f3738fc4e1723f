-- ===== src/Policy/Glob/Search.antt =====
-- The loop of `matchSegmentGlob` never needs an earlier star than the last, and its fuel suffices.
use agent_creance.Prelude.{
  ℕ, zero, suc, ◌+◌, ◌*◌, ◌≤◌, ◌<◌, Bool, true, false, ◌&&◌, ◌||◌, [], ◌∷◌, ◌++◌, Option, none,
  some, Bytes, ◌==◌, ◌≡◌, ◌≢◌, refl, ◌↔◌, inl, inr, if◌then◌else◌, length, tail, arith, ap, ==_iff,
  Bool-cases, ◌∙◌,
}
use agent_creance.Policy.Glob.{
  Star, resume, glob_loop, glob_fuel, match_segment_glob, GlobMatches, glob_ref,
  rest_is_stars-glob_ref, star_step, double_star, skip_literal, star_ref, IsKept,
}

-- The two lengths of a saved star, and the room that is left below the fuel.
record Fits (f m k : ℕ) (p s : Bytes) : Type 0 where
  text_bound : length s ≤ m
  pattern_bound : length p < k
  fuel : m * k + length p < f

abbrev LoopIs : (Bytes → Bytes → Star → Option Bool) → ℕ → ℕ → ℕ → Type 0
LoopIs go f m k =
    (p s : Bytes) (star : Star)
    → Fits f m k p s
    → IsKept m k p s star
    → go p s star ≡ some (glob_ref p s || star_ref star)

star_kept :
    (after text : Bytes)
    → glob_ref (b'*' ∷ after) (tail text) ≡ true
    → glob_ref (b'*' ∷ after) text ≡ true
star_kept after text h = ground (arith, star_step after text)

kept :
    (m k : ℕ) (p s : Bytes) (star : Star)
    → IsKept m k p s star
    → star_ref star ≡ true
    → glob_ref (b'*' ∷ p) s ≡ true
kept m k p s none keep h = cc
kept m k p s (some (after, text)) keep h = keep.0 h

-- The saved star stays good after a byte that matches itself.
IsKept-along :
    (m k x : ℕ) (p : Bytes) (c : ℕ) (s : Bytes) (star : Star)
    → x ≢ b'*'
    → IsKept m k (x ∷ p) (c ∷ s) star
    → IsKept m k p s star
IsKept-along m k x p c s none n keep = tt
IsKept-along m k x p c s (some (after, text)) n keep =
    (λ h. skip_literal x p c s n (keep.0 h), omega arith, keep.2, keep.3)

-- A star takes over from the one before it.
absorb :
    (m k x : ℕ) (p s : Bytes) (star : Star)
    → x ≡ b'*'
    → IsKept m k (x ∷ p) s star
    → glob_ref (b'*' ∷ p) s ≡ (glob_ref (x ∷ p) s || star_ref star)
absorb m k x p s star e keep =
    let keep' : IsKept m k (b'*' ∷ p) s star = rw e at keep in
    rw e (ground (arith, kept m k (b'*' ∷ p) s star keep', double_star p s))

glob_ref_star_end : (p : Bytes) → glob_ref (b'*' ∷ p) [] ≡ glob_ref p []
unfolding glob_ref
glob_ref_star_end p = refl

glob_ref_literal :
    (x : ℕ) (p : Bytes) (c : ℕ) (s : Bytes)
    → x ≢ b'*'
    → glob_ref (x ∷ p) (c ∷ s) ≡ (x == c && glob_ref p s)
unfolding glob_ref
glob_ref_literal x p c s n = ground arith

glob_ref_empty : (c : ℕ) (s : Bytes) → glob_ref [] (c ∷ s) ≡ false
unfolding glob_ref
glob_ref_empty c s = refl

resume-ref :
    (go : Bytes → Bytes → Star → Option Bool) (f m k : ℕ) (p : Bytes) (c : ℕ) (s : Bytes)
    (star : Star)
    → ((n : ℕ) → LoopIs go f n k)
    → Fits (suc f) m k p (c ∷ s)
    → IsKept m k p (c ∷ s) star
    → resume star go ≡ some (star_ref star)
unfolding resume
resume-ref go f m k p c s none ih fit keep = refl
resume-ref go f m k p c s (some (after, [])) ih fit keep = absurd (omega arith)
resume-ref go f zero k p c s (some (after, d ∷ text)) ih fit keep = absurd (omega arith)
resume-ref go f (suc m) k p c s (some (after, d ∷ text)) ih fit keep =
    ih m after text (some (after, text))
      (record { text_bound = omega arith; pattern_bound = omega arith; fuel = omega arith })
      (star_kept after text, omega arith, omega arith, keep.3)
    ∙ ap some (star_step after text)

glob_loop-ref : (f m k : ℕ) → LoopIs (glob_loop f) f m k
unfolding glob_loop
glob_loop-ref zero m k p s star fit keep = absurd (omega arith)
glob_loop-ref (suc f) m k p [] star fit keep =
    ground (arith, rest_is_stars-glob_ref p, glob_ref_star_end p, kept m k p [] star keep)
glob_loop-ref (suc f) m k [] (c ∷ s) star fit keep =
    rw (glob_ref_empty c s)
      (resume-ref (glob_loop f) f m k [] c s star (λ n. glob_loop-ref f n k) fit keep)
glob_loop-ref (suc f) m k (x ∷ p) (c ∷ s) star fit keep = elim (Bool-cases (x == b'*')) [
  | inl e ↦ rw e (
      at_star ((==_iff x b'*').0 e) (
        glob_loop-ref f m k p (c ∷ s) (some (p, c ∷ s))
          (record { text_bound = fit.text_bound; pattern_bound = omega arith; fuel = omega arith })
          (star_kept p (c ∷ s), omega arith, fit.text_bound, omega arith)))
  | inr e ↦ rw e (
      at_byte (ground arith)
        (λ n.
          glob_loop-ref f m k p s star
            (record { text_bound = omega arith; pattern_bound = omega arith; fuel = omega arith })
            (IsKept-along m k x p c s star n keep))
        (resume-ref (glob_loop f) f m k (x ∷ p) c s star (λ n. glob_loop-ref f n k) fit keep))
]
  where
    at_star :
        x ≡ b'*'
        → glob_loop f p (c ∷ s) (some (p, c ∷ s))
          ≡ some (glob_ref p (c ∷ s) || glob_ref (b'*' ∷ p) s)
        → glob_loop f p (c ∷ s) (some (p, c ∷ s)) ≡ some (glob_ref (x ∷ p) (c ∷ s) || star_ref star)
    at_star e run = run ∙ ap some (star_step p (c ∷ s) ∙ absorb m k x p (c ∷ s) star e keep)

    at_byte :
        x ≢ b'*'
        → (x ≢ b'*' → glob_loop f p s star ≡ some (glob_ref p s || star_ref star))
        → resume star (glob_loop f) ≡ some (star_ref star)
        → (if x == c then glob_loop f p s star else resume star (glob_loop f))
          ≡ some (glob_ref (x ∷ p) (c ∷ s) || star_ref star)
    at_byte n along back = ground (arith, glob_ref_literal x p c s n, along n, back)

-- The loop stops within its fuel, with the answer that tries both ways at each star.
match_segment_glob-ref :
    (pat seg : Bytes) → glob_loop (glob_fuel pat seg) pat seg none ≡ some (glob_ref pat seg)
match_segment_glob-ref pat seg =
    glob_loop-ref (glob_fuel pat seg) (length seg) (suc (length pat)) pat seg none
      (record { text_bound = omega arith; pattern_bound = omega arith; fuel = omega arith }) tt
    ∙ ap some (or_false (glob_ref pat seg))
  where
    or_false : (b : Bool) → (b || false) ≡ b
    or_false b = ground arith

GlobMatches→glob_ref : (pat seg : Bytes) → GlobMatches pat seg → glob_ref pat seg ≡ true
unfolding glob_ref
GlobMatches→glob_ref [] seg h = rw h
GlobMatches→glob_ref (x ∷ p) seg (inl (e, (run, rest, split, more))) =
    rw (e, split) (run_of_rest run rest (GlobMatches→glob_ref p rest more))
  where
    run_of_rest :
        (run rest : Bytes) → glob_ref p rest ≡ true → glob_ref (b'*' ∷ p) (run ++ rest) ≡ true
    run_of_rest [] rest h = ground (arith, star_step p rest)
    run_of_rest (c ∷ run) rest h = ground (arith, run_of_rest run rest h)
GlobMatches→glob_ref (x ∷ p) seg (inr (n, (rest, split, more))) =
    rw split (ground (arith, GlobMatches→glob_ref p rest more))

longer_run :
    (x : ℕ) (p : Bytes) (c : ℕ) (s : Bytes)
    → x ≡ b'*'
    → GlobMatches (x ∷ p) s
    → GlobMatches (x ∷ p) (c ∷ s)
longer_run x p c s e (inl (_, (run, rest, split, more))) =
    inl (e, (c ∷ run, rest, ap (λ t. c ∷ t) split, more))
longer_run x p c s e (inr (n, _)) = absurd (n e)

glob_ref→GlobMatches : (pat seg : Bytes) → glob_ref pat seg ≡ true → GlobMatches pat seg
unfolding glob_ref
glob_ref→GlobMatches [] [] h = refl
glob_ref→GlobMatches [] (c ∷ s) h = cc
glob_ref→GlobMatches (x ∷ p) [] h =
    inl (ground arith, ([], [], refl, glob_ref→GlobMatches p [] (ground arith)))
glob_ref→GlobMatches (x ∷ p) (c ∷ s) h = elim (Bool-cases (x == b'*')) [
  | inl e ↦ elim (Bool-cases (glob_ref p (c ∷ s))) [
    | inl now ↦ inl (ground arith, ([], c ∷ s, refl, glob_ref→GlobMatches p (c ∷ s) now))
    | inr later ↦ longer_run x p c s (ground arith) (glob_ref→GlobMatches (x ∷ p) s (ground arith))
  ]
  | inr e ↦ inr (ground arith, (s, ground arith, glob_ref→GlobMatches p s (ground arith)))
]

-- The glob matcher stops within its fuel, and accepts exactly the segments that the pattern means.
pub match_segment_glob_iff :
    (pat seg : Bytes)
    → (glob_loop (glob_fuel pat seg) pat seg none ≡ some (match_segment_glob pat seg))
      × ((match_segment_glob pat seg ≡ true) ↔ GlobMatches pat seg)
unfolding match_segment_glob
match_segment_glob_iff pat seg =
    rw (match_segment_glob-ref pat seg)
      (refl, (glob_ref→GlobMatches pat seg, GlobMatches→glob_ref pat seg))
