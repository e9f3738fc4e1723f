-- ===== src/Policy/Glob.antt =====
-- `matchSegmentGlob` (internal/policy/glob.go), and what a pattern means: a
-- star with any run of bytes and every other byte with itself.
pub mod Search
use agent_creance.Prelude.{
  ℕ, zero, suc, ◌+◌, ◌*◌, ◌≤◌, ◌<◌, Bool, true, false, ◌&&◌, ◌||◌, List, [], ◌∷◌, ◌++◌, Option,
  none, some, Bytes, ◌==◌, ◌≡◌, ◌≢◌, refl, ◌↔◌, ◌⊎◌, inl, inr, if◌then◌else◌, length, tail, arith,
  ap, sym, or_iff, eq_of_imp, ==_iff, Bool-cases,
}

-- The loop's last star: the pattern behind it (`pat[star+1:]`) and the text that is left to it
-- (`seg[starMatchEnd:]`).
abbrev pub Star : Type 0
Star = Option (Bytes × Bytes)

-- The case `star >= 0` and the default of the switch.
resume : Star → (Bytes → Bytes → Star → Option Bool) → Option Bool
resume none go = some false
resume (some (after, text)) go = go after (tail text) (some (after, tail text))

-- The second loop and the final test.
rest_is_stars : Bytes → Bool
rest_is_stars [] = true
rest_is_stars (x ∷ p) = if x == b'*' then rest_is_stars p else false

-- The position is what is left of the pattern and of the segment; `none` is lack of fuel.
unfoldable pub glob_loop : ℕ → Bytes → Bytes → Star → Option Bool
unfolding resume rest_is_stars
glob_loop zero p s star = none
glob_loop (suc fuel) p [] star = some (rest_is_stars p)
glob_loop (suc fuel) [] (c ∷ s) star = resume star (glob_loop fuel)
glob_loop (suc fuel) (x ∷ p) (c ∷ s) star =
    let onto_star = glob_loop fuel p (c ∷ s) (some (p, c ∷ s)) in
    let along = glob_loop fuel p s star in
    if x == b'*' then onto_star else if x == c then along else resume star (glob_loop fuel)

-- Enough rounds for every pair: each star restarts at most once per byte of the segment.
abbrev pub glob_fuel : Bytes → Bytes → ℕ
glob_fuel pat seg = length seg * suc (length pat) + length pat + 1

abbrev answer : Option Bool → Bool
answer none = false
answer (some b) = b

unfoldable pub match_segment_glob : Bytes → Bytes → Bool
unfolding glob_loop
match_segment_glob pat seg = answer (glob_loop (glob_fuel pat seg) pat seg none)

-- What the pattern means: a star is any run of bytes, any other byte is itself.
abbrev pub GlobMatches : Bytes → Bytes → Type 0
GlobMatches [] s = s ≡ []
GlobMatches (x ∷ p) s =
    (x ≡ b'*') × ((run : Bytes) × (rest : Bytes) × (s ≡ run ++ rest) × GlobMatches p rest)
    ⊎ (x ≢ b'*') × ((rest : Bytes) × (s ≡ x ∷ rest) × GlobMatches p rest)

-- The same by trying both ways at each star.
glob_ref : Bytes → Bytes → Bool
glob_ref [] [] = true
glob_ref [] (c ∷ s) = false
glob_ref (x ∷ p) [] = if x == b'*' then glob_ref p [] else false
glob_ref (x ∷ p) (c ∷ s) =
    let here = glob_ref p (c ∷ s) || glob_ref (x ∷ p) s in
    let same = x == c && glob_ref p s in if x == b'*' then here else same

rest_is_stars-glob_ref : (p : Bytes) → rest_is_stars p ≡ glob_ref p []
unfolding rest_is_stars glob_ref
rest_is_stars-glob_ref [] = refl
rest_is_stars-glob_ref (x ∷ p) = ground (arith, rest_is_stars-glob_ref p)

star_step : (p t : Bytes) → (glob_ref p t || glob_ref (b'*' ∷ p) (tail t)) ≡ glob_ref (b'*' ∷ p) t
unfolding glob_ref
star_step p [] = ground arith
star_step p (c ∷ t) = refl

double_star : (p s : Bytes) → glob_ref (b'*' ∷ b'*' ∷ p) s ≡ true → glob_ref (b'*' ∷ p) s ≡ true
unfolding glob_ref
double_star p [] h = h
double_star p (c ∷ s) h = ground (arith, double_star p s)

skip_literal :
    (x : ℕ) (p : Bytes) (c : ℕ) (s : Bytes)
    → x ≢ b'*'
    → glob_ref (b'*' ∷ x ∷ p) (c ∷ s) ≡ true
    → glob_ref (b'*' ∷ p) s ≡ true
unfolding glob_ref
skip_literal x p c [] n h = ground arith
skip_literal x p c (d ∷ s) n h = ground (arith, skip_literal x p d s n)

-- What the last star may still find.
abbrev star_ref : Star → Bool
star_ref none = false
star_ref (some (after, text)) = glob_ref (b'*' ∷ after) (tail text)

-- Whatever the last star may still find, a star in front of the present position finds too.
abbrev IsKept : ℕ → ℕ → Bytes → Bytes → Star → Type 0
IsKept m k p s none = Unit
IsKept m k p s (some (after, text)) =
    (glob_ref (b'*' ∷ after) (tail text) ≡ true → glob_ref (b'*' ∷ p) s ≡ true)
    × (length s ≤ length text)
    × (length text ≤ m)
    × (length after < k)
