-- ===== src/Prelude/Lists.antt =====
-- Lists measured and indexed by native numbers, under the library's names, and membership.
use Prim.Native.Nat.{ℕ, zero, suc, ◌+◌}
use mathlib.Core.Path.{◌≡◌}
use mathlib.Core.Bool.{Bool, true, false, ◌&&◌, ◌||◌}
use mathlib.Core.Logic.{◌⊎◌, inl, inr, ◌↔◌}
use mathlib.Core.List.{List, [], ◌∷◌, ◌++◌}
use mathlib.Core.Option.{Option, none, some}
use native.Mathlib.Omega.{arith}
use agent_creance.Prelude.Tests.{if◌then◌else◌, Bool-cases}

module _ {ℓ} {A : Type ℓ} where
  abbrev pub length : List A → ℕ
  length [] = 0
  length (x ∷ xs) = suc (length xs)

  abbrev pub get_elem? : List A → ℕ → Option A
  get_elem? [] i = none
  get_elem? (x ∷ xs) zero = some x
  get_elem? (x ∷ xs) (suc i) = get_elem? xs i

  abbrev pub take : ℕ → List A → List A
  take zero xs = []
  take (suc n) [] = []
  take (suc n) (x ∷ xs) = x ∷ take n xs

  abbrev pub drop : ℕ → List A → List A
  drop zero xs = xs
  drop (suc n) [] = []
  drop (suc n) (x ∷ xs) = drop n xs

  abbrev pub tail : List A → List A
  tail [] = []
  tail (x ∷ xs) = xs

  pub length-append : (xs ys : List A) → length (xs ++ ys) ≡ length xs + length ys
  length-append [] ys = omega arith
  length-append (x ∷ xs) ys = omega (arith, length-append xs ys)

module _ {A : Type 0} where
  -- The value stands in the list.
  abbrev pub In : A → List A → Type 0
  In a [] = ⊥
  In a (x ∷ xs) = (a ≡ x) ⊎ In a xs

  pub In-get_elem? : (xs : List A) (i : ℕ) {a : A} → get_elem? xs i ≡ some a → In a xs
  In-get_elem? [] i h = cc
  In-get_elem? (x ∷ xs) zero h = inl (cc)
  In-get_elem? (x ∷ xs) (suc i) h = inr (In-get_elem? xs i h)

  pub In-append_left : (xs ys : List A) (a : A) → In a xs → In a (xs ++ ys)
  In-append_left [] ys a h = absurd h
  In-append_left (x ∷ xs) ys a (inl e) = inl e
  In-append_left (x ∷ xs) ys a (inr h) = inr (In-append_left xs ys a h)

  pub In-append_right : (xs ys : List A) (a : A) → In a ys → In a (xs ++ ys)
  In-append_right [] ys a h = h
  In-append_right (x ∷ xs) ys a h = inr (In-append_right xs ys a h)

  pub In-append_cases : (xs ys : List A) (a : A) → In a (xs ++ ys) → In a xs ⊎ In a ys
  In-append_cases [] ys a h = inr h
  In-append_cases (x ∷ xs) ys a (inl e) = inl (inl e)
  In-append_cases (x ∷ xs) ys a (inr h) = elim (In-append_cases xs ys a h) [
    | inl l ↦ inl (inr l)
    | inr r ↦ inr r
  ]

module _ {ℓ κ} {A : Type ℓ} where
  abbrev pub All : (A → Type κ) → List A → Type κ
  All P [] = Unit
  All P (x ∷ xs) = P x × All P xs

module _ {ℓ} {A : Type ℓ} where
  abbrev pub any : (A → Bool) → List A → Bool
  any p [] = false
  any p (x ∷ xs) = p x || any p xs

  abbrev pub all : (A → Bool) → List A → Bool
  all p [] = true
  all p (x ∷ xs) = p x && all p xs

module _ {A : Type 0} where
  -- The two lists hold the same values, in any order and as often as they like.
  abbrev pub SameMembers : List A → List A → Type 0
  SameMembers xs ys = (a : A) → In a xs ↔ In a ys

  pub get_elem?-In : (xs : List A) (a : A) → In a xs → (i : ℕ) × (get_elem? xs i ≡ some a)
  get_elem?-In [] a h = absurd h
  get_elem?-In (x ∷ xs) a (inl e) = (0, cc)
  get_elem?-In (x ∷ xs) a (inr h) = let (i, e) = get_elem?-In xs a h in (suc i, e)

  -- The members that pass a test, in order.
  unfoldable pub select : (A → Bool) → List A → List A
  select p [] = []
  select p (x ∷ xs) = if p x then x ∷ select p xs else select p xs

  pub In-select :
      (p : A → Bool) (xs : List A) (a : A) → In a (select p xs) ↔ (In a xs × (p a ≡ true))
  unfolding select
  In-select p [] a = (λ h. absurd h, λ h. absurd h.0)
  In-select p (x ∷ xs) a = elim (Bool-cases (p x)) [
    | inl e ↦ rw e (
      elim [
        | inl same ↦ (inl same, rw same e)
        | inr h ↦ (inr ((In-select p xs a).0 h).0, ((In-select p xs a).0 h).1)
      ],
      λ (h, m). elim h [ inl same ↦ inl same | inr l ↦ inr ((In-select p xs a).1 (l, m)) ],
    )
    | inr e ↦ rw e (
      λ h. (inr ((In-select p xs a).0 h).0, ((In-select p xs a).0 h).1),
      λ (h, m). elim h [ inl same ↦ absurd (clash same m e) | inr l ↦ (In-select p xs a).1 (l, m) ],
    )
  ]
    where
      clash : a ≡ x → p a ≡ true → p x ≡ false → ⊥
      clash same m e = cc
