-- ===== src/FilePath/Clean.antt =====
-- The elements of a cleaned path and of a joined one.
use agent_creance.Prelude.{
  ℕ, true, false, List, [], ◌∷◌, ◌++◌, Bytes, codes, bytes_eq, bytes_eq_iff, arith, All, Bool-cases,
  ◌==◌, ◌≡◌, ◌≢◌, refl, sym, ◌∙◌, ap, inl, inr, if◌then◌else◌,
}
use mathlib.Core.List.{reverse, reverse-cons, reverse-reverse, append_assoc, append-nil}
use agent_creance.Strings.{has_prefix, contains_byte, split, split_from, join}
use agent_creance.FilePath.{is_abs, clean_step, clean_from, elements, clean, join_path}
use agent_creance.FilePath.Within.{IsName, elements-IsName}

pub is_abs-cases : (p : Bytes) → is_abs p ≡ true → (q : Bytes) × (p ≡ b'/' ∷ q)
unfolding has_prefix
is_abs-cases [] h = cc
is_abs-cases (c ∷ p) h = (p, ap (λ (x : ℕ). x ∷ p) (ground arith))

pub abs_slash : (q : Bytes) → is_abs (b'/' ∷ q) ≡ true
unfolding has_prefix
abs_slash q = refl

pub clean_abs : (p : Bytes) → is_abs p ≡ true → is_abs (clean p) ≡ true
unfolding clean has_prefix
clean_abs p h = rw h (abs_slash (join (codes "/") (elements p)))

pub join_path_abs : (p q : Bytes) → is_abs p ≡ true → is_abs (join_path p q) ≡ true
unfolding join_path
join_path_abs p q h = let (s, e) = is_abs-cases p h in rw e (joined s q)
  where
    joined : (s q : Bytes) → is_abs (join_path (b'/' ∷ s) q) ≡ true
    joined s [] = clean_abs (b'/' ∷ s) (abs_slash s)
    joined s (d ∷ q) =
        clean_abs ((b'/' ∷ s) ++ (codes "/" ++ (d ∷ q))) (abs_slash (s ++ (codes "/" ++ (d ∷ q))))

-- A text without a slash is read whole.
split_from-whole :
    (cur n s : Bytes)
    → contains_byte b'/' n ≡ false
    → split_from b'/' cur (n ++ b'/' ∷ s) ≡ (cur ++ n) ∷ split_from b'/' [] s
unfolding split_from contains_byte
split_from-whole cur [] s h = rw (append-nil cur) refl
split_from-whole cur (c ∷ n) s h = elim (Bool-cases (c == b'/')) [
  | inl e ↦ absurd (slash e h)
  | inr e ↦ rw e (
      split_from-whole (cur ++ c ∷ []) n s (rest e h)
      ∙ ap (λ (x : Bytes). x ∷ split_from b'/' [] s) (append_assoc cur (c ∷ []) n))
]
  where
    slash : (c == b'/') ≡ true → (if c == b'/' then true else contains_byte b'/' n) ≡ false → ⊥
    slash e h = ground arith

    rest :
        (c == b'/') ≡ false
        → (if c == b'/' then true else contains_byte b'/' n) ≡ false
        → contains_byte b'/' n ≡ false
    rest e h = ground arith

split_from-last :
    (cur n : Bytes) → contains_byte b'/' n ≡ false → split_from b'/' cur n ≡ (cur ++ n) ∷ []
unfolding split_from contains_byte
split_from-last cur [] h = rw (append-nil cur) refl
split_from-last cur (c ∷ n) h = elim (Bool-cases (c == b'/')) [
  | inl e ↦ absurd (slash e h)
  | inr e ↦ rw e (
      split_from-last (cur ++ c ∷ []) n (rest e h)
      ∙ ap (λ (x : Bytes). x ∷ []) (append_assoc cur (c ∷ []) n))
]
  where
    slash : (c == b'/') ≡ true → (if c == b'/' then true else contains_byte b'/' n) ≡ false → ⊥
    slash e h = ground arith

    rest :
        (c == b'/') ≡ false
        → (if c == b'/' then true else contains_byte b'/' n) ≡ false
        → contains_byte b'/' n ≡ false
    rest e h = ground arith

-- Splitting what was joined
split-join :
    (n : Bytes) (es : List Bytes)
    → All IsName (n ∷ es)
    → split_from b'/' [] (join (codes "/") (n ∷ es)) ≡ n ∷ es
unfolding join
split-join n [] (h, _) = split_from-last [] n h.whole
split-join n (m ∷ es) (h, hs) =
    ap (split_from b'/' []) (append_assoc n (codes "/") (join (codes "/") (m ∷ es)))
    ∙ split_from-whole [] n (join (codes "/") (m ∷ es)) h.whole
    ∙ ap (λ (x : List Bytes). n ∷ x) (split-join m es hs)

bytes_ne : (a b : Bytes) → a ≢ b → bytes_eq a b ≡ false
bytes_ne a b n = elim (Bool-cases (bytes_eq a b)) [
  | inl e ↦ absurd (n ((bytes_eq_iff a b).0 e))
  | inr e ↦ e
]

clean_step-name : (kept : List Bytes) (n : Bytes) → IsName n → clean_step true kept n ≡ n ∷ kept
unfolding clean_step
clean_step-name kept n h =
    rw (bytes_ne n [] h.filled, bytes_ne n (codes ".") h.not_dot, bytes_ne n (codes "..") h.not_up)
      refl

clean_from-names :
    (kept es : List Bytes) → All IsName es → clean_from true kept es ≡ reverse es ++ kept
unfolding clean_from
clean_from-names kept [] h = refl
clean_from-names kept (e ∷ es) (h, hs) =
    ap (λ (k : List Bytes). clean_from true k es) (clean_step-name kept e h)
    ∙ clean_from-names (e ∷ kept) es hs
    ∙ rw (reverse-cons e es) (sym (append_assoc (reverse es) (e ∷ []) kept))

clean_from-append :
    (kept xs ys : List Bytes)
    → clean_from true kept (xs ++ ys) ≡ clean_from true (clean_from true kept xs) ys
unfolding clean_from
clean_from-append kept [] ys = refl
clean_from-append kept (x ∷ xs) ys = clean_from-append (clean_step true kept x) xs ys

split_from-slash :
    (cur p n : Bytes)
    → split_from b'/' cur (p ++ b'/' ∷ n) ≡ split_from b'/' cur p ++ split_from b'/' [] n
unfolding split_from
split_from-slash cur [] n = refl
split_from-slash cur (c ∷ p) n = elim (Bool-cases (c == b'/')) [
  | inl e ↦ rw e (ap (λ (x : List Bytes). cur ∷ x) (split_from-slash [] p n))
  | inr e ↦ rw e (split_from-slash (cur ++ c ∷ []) p n)
]

elements-abs :
    (p : Bytes) → is_abs p ≡ true → elements p ≡ reverse (clean_from true [] (split_from b'/' [] p))
unfolding elements split
elements-abs p h = rw h refl

clean_abs_lem : (p : Bytes) → is_abs p ≡ true → clean p ≡ codes "/" ++ join (codes "/") (elements p)
unfolding clean
clean_abs_lem p h = rw h refl

read_back :
    (es : List Bytes)
    → All IsName es
    → reverse (clean_from true [] (split_from b'/' [] (codes "/" ++ join (codes "/") es))) ≡ es
unfolding split_from clean_from clean_step bytes_eq join
read_back [] names = refl
read_back (n ∷ es) names =
    ap (λ (x : List Bytes). reverse (clean_from true [] x)) (split-join n es names)
    ∙ ap reverse (clean_from-names [] (n ∷ es) names ∙ append-nil (reverse (n ∷ es)))
    ∙ reverse-reverse (n ∷ es)

-- The elements of names that are joined are these names.
pub elements-joined :
    (es : List Bytes) → All IsName es → elements (codes "/" ++ join (codes "/") es) ≡ es
elements-joined es names =
    elements-abs (codes "/" ++ join (codes "/") es) (abs_slash (join (codes "/") es))
    ∙ read_back es names

-- Cleaning an absolute path keeps its elements.
pub elements-clean : (p : Bytes) → is_abs p ≡ true → elements (clean p) ≡ elements p
elements-clean p h =
    ap elements (clean_abs_lem p h) ∙ elements-joined (elements p) (elements-IsName p h)

-- Joining a name to an absolute path adds it to the elements.
pub elements-join_path :
    (p n : Bytes) → is_abs p ≡ true → IsName n → elements (join_path p n) ≡ elements p ++ n ∷ []
unfolding join_path clean_from has_prefix
elements-join_path p n h name =
    let (q, at) = is_abs-cases p h in
    rw at (by_name n name (b'/' ∷ q) (abs_slash q) (joined q n name))
  where
    still : (p n : Bytes) → is_abs p ≡ true → is_abs (p ++ b'/' ∷ n) ≡ true
    still [] n h = cc
    still (c ∷ p) n h = h

    joined : (q n : Bytes) → IsName n → join_path (b'/' ∷ q) n ≡ clean ((b'/' ∷ q) ++ b'/' ∷ n)
    joined q [] name = absurd (name.filled refl)
    joined q (d ∷ n) name = refl

    by_name :
        (n : Bytes)
        → IsName n
        → (p : Bytes) → is_abs p ≡ true
        → join_path p n ≡ clean (p ++ b'/' ∷ n)
        → elements (join_path p n) ≡ elements p ++ n ∷ []
    by_name n name p h e =
        ap elements e
        ∙ elements-clean (p ++ b'/' ∷ n) (still p n h)
        ∙ elements-abs (p ++ b'/' ∷ n) (still p n h)
        ∙ ap (λ (x : List Bytes). reverse (clean_from true [] x))
            (split_from-slash [] p n
              ∙ ap (λ (x : List Bytes). split_from b'/' [] p ++ x)
                  (split_from-last [] n name.whole))
        ∙ ap reverse (
            clean_from-append [] (split_from b'/' [] p) (n ∷ [])
            ∙ clean_step-name (clean_from true [] (split_from b'/' [] p)) n name)
        ∙ reverse-cons n (clean_from true [] (split_from b'/' [] p))
        ∙ ap (λ (x : List Bytes). x ++ n ∷ []) (sym (elements-abs p h))
