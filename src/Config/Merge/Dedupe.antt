-- ===== src/Config/Merge/Dedupe.antt =====
-- Dropping duplicates, the first occurrence kept (internal/config/merge.go).
use agent_creance.Prelude.{
  Bool, true, false, List, [], ◌∷◌, ◌++◌, any, if◌then◌else◌, ◌≡◌, refl, sym, ◌∙◌, ap, subst, ◌⊎◌,
  inl, inr, ◌↔◌, In, Bool-cases, In-append_cases, In-append_left, In-append_right,
}

-- A Boolean equality.
pub record Equal (A : Type 0) : Type 0 where
  pub same : A → A → Bool
  pub same_iff : (a b : A) → (same a b ≡ true) ↔ (a ≡ b)

module _ {A : Type 0} (eq : Equal A) where
  -- The loop, with what it has kept.
  unfoldable pub dedupe_from : List A → List A → List A
  dedupe_from kept [] = kept
  dedupe_from kept (x ∷ xs) =
      if any (eq.same x) kept then dedupe_from kept xs else dedupe_from (kept ++ x ∷ []) xs

  unfoldable pub dedupe : List A → List A
  unfolding dedupe_from
  dedupe xs = dedupe_from [] xs

  pub any_iff : (x : A) (kept : List A) → (any (eq.same x) kept ≡ true) ↔ In x kept
  any_iff x [] = (λ h. cc, λ h. absurd h)
  any_iff x (y ∷ ys) = elim (Bool-cases (eq.same x y)) [
    | inl e ↦ rw e (λ _. inl ((eq.same_iff x y).0 e), λ _. refl)
    | inr e ↦ rw e (
      λ h. inr ((any_iff x ys).0 h),
      λ h. elim h [
        | inl same ↦ absurd (clash ((eq.same_iff x y).1 same) e)
        | inr m ↦ (any_iff x ys).1 m
      ],
    )
  ]
    where
      clash : eq.same x y ≡ true → eq.same x y ≡ false → ⊥
      clash h k = cc

  -- The loop keeps what it had and what it meets.
  pub In-dedupe_from :
      (kept xs : List A) (a : A) → In a (dedupe_from kept xs) ↔ (In a kept ⊎ In a xs)
  unfolding dedupe_from
  In-dedupe_from kept [] a = (inl, λ h. elim h [ inl m ↦ m | inr m ↦ absurd m ])
  In-dedupe_from kept (x ∷ xs) a = elim (Bool-cases (any (eq.same x) kept)) [
    | inl e ↦ rw e (
      λ h. elim ((In-dedupe_from kept xs a).0 h) [ inl m ↦ inl m | inr m ↦ inr (inr m) ],
      λ h. (In-dedupe_from kept xs a).1 (elim h [
        | inl m ↦ inl m
        | inr (inl here) ↦ inl (subst (λ y. In y kept) (sym here) ((any_iff x kept).0 e))
        | inr (inr m) ↦ inr m
      ]),
    )
    | inr e ↦ rw e (
      λ h. elim ((In-dedupe_from (kept ++ x ∷ []) xs a).0 h) [
        | inl m ↦ elim (In-append_cases kept (x ∷ []) a m) [
          | inl old ↦ inl old
          | inr (inl here) ↦ inr (inl here)
          | inr (inr never) ↦ absurd never
        ]
        | inr m ↦ inr (inr m)
      ],
      λ h. (In-dedupe_from (kept ++ x ∷ []) xs a).1 (elim h [
        | inl m ↦ inl (In-append_left kept (x ∷ []) a m)
        | inr (inl here) ↦ inl (In-append_right kept (x ∷ []) a (inl here))
        | inr (inr m) ↦ inr m
      ]),
    )
  ]

  pub dedupe_from-append :
      (kept xs ys : List A) → dedupe_from kept (xs ++ ys) ≡ dedupe_from (dedupe_from kept xs) ys
  unfolding dedupe_from
  dedupe_from-append kept [] ys = refl
  dedupe_from-append kept (x ∷ xs) ys = elim (Bool-cases (any (eq.same x) kept)) [
    | inl e ↦ rw e (dedupe_from-append kept xs ys)
    | inr e ↦ rw e (dedupe_from-append (kept ++ x ∷ []) xs ys)
  ]

  -- What the inner loop dropped the outer one would have dropped.
  dedupe_from_twice :
      (kept inner xs : List A)
      → dedupe_from kept (dedupe_from inner xs) ≡ dedupe_from (dedupe_from kept inner) xs
  unfolding dedupe_from
  dedupe_from_twice kept inner [] = refl
  dedupe_from_twice kept inner (x ∷ xs) = elim (Bool-cases (any (eq.same x) inner)) [
    | inl e ↦ rw (e, dropped e) (dedupe_from_twice kept inner xs)
    | inr e ↦ rw e (
        dedupe_from_twice kept (inner ++ x ∷ []) xs
        ∙ ap (λ k. dedupe_from k xs) (dedupe_from-append kept inner (x ∷ []))
        ∙ sym (dedupe_from-append (dedupe_from kept inner) (x ∷ []) xs))
  ]
    where
      dropped : any (eq.same x) inner ≡ true → any (eq.same x) (dedupe_from kept inner) ≡ true
      dropped h =
          (any_iff x (dedupe_from kept inner)).1
            ((In-dedupe_from kept inner x).1 (inr ((any_iff x inner).0 h)))

  pub dedupe_from-dedupe : (kept xs : List A) → dedupe_from kept (dedupe xs) ≡ dedupe_from kept xs
  unfolding dedupe dedupe_from
  dedupe_from-dedupe kept xs = dedupe_from_twice kept [] xs

  append_assoc : (xs ys zs : List A) → (xs ++ ys) ++ zs ≡ xs ++ (ys ++ zs)
  append_assoc [] ys zs = refl
  append_assoc (x ∷ xs) ys zs = ap (λ l. x ∷ l) (append_assoc xs ys zs)

  -- Uniting three lists drops the same duplicates whichever two are united first.
  pub dedupe_assoc :
      (xs ys zs : List A) → dedupe (dedupe (xs ++ ys) ++ zs) ≡ dedupe (xs ++ dedupe (ys ++ zs))
  unfolding dedupe
  dedupe_assoc xs ys zs =
      dedupe_from-append [] (dedupe (xs ++ ys)) zs
      ∙ ap (λ k. dedupe_from k zs) (dedupe_from-dedupe [] (xs ++ ys))
      ∙ sym (dedupe_from-append [] (xs ++ ys) zs)
      ∙ ap (dedupe_from []) (append_assoc xs ys zs)
      ∙ dedupe_from-append [] xs (ys ++ zs)
      ∙ sym (dedupe_from-dedupe (dedupe_from [] xs) (ys ++ zs))
      ∙ sym (dedupe_from-append [] xs (dedupe (ys ++ zs)))

  pub In-dedupe : (xs : List A) (a : A) → In a (dedupe xs) ↔ In a xs
  unfolding dedupe
  In-dedupe xs a = (
    λ h. elim ((In-dedupe_from [] xs a).0 h) [ inl m ↦ absurd m | inr m ↦ m ],
    λ h. (In-dedupe_from [] xs a).1 (inr h),
  )

  -- No value stands in the list twice.
  abbrev pub NoRepeat : List A → Type 0
  NoRepeat [] = Unit
  NoRepeat (x ∷ xs) = (¬ In x xs) × NoRepeat xs

  NoRepeat-snoc : (xs : List A) (x : A) → NoRepeat xs → ¬ In x xs → NoRepeat (xs ++ x ∷ [])
  NoRepeat-snoc [] x n h = (λ m. m, tt)
  NoRepeat-snoc (y ∷ ys) x (ny, n) h = (
    λ m. elim (In-append_cases ys (x ∷ []) y m) [
      | inl old ↦ ny old
      | inr (inl here) ↦ h (inl (sym here))
      | inr (inr never) ↦ never
    ],
    NoRepeat-snoc ys x n (λ m. h (inr m)),
  )

  dedupe_from-NoRepeat : (kept xs : List A) → NoRepeat kept → NoRepeat (dedupe_from kept xs)
  unfolding dedupe_from
  dedupe_from-NoRepeat kept [] n = n
  dedupe_from-NoRepeat kept (x ∷ xs) n = elim (Bool-cases (any (eq.same x) kept)) [
    | inl e ↦ rw e (dedupe_from-NoRepeat kept xs n)
    | inr e ↦ rw e (
        dedupe_from-NoRepeat (kept ++ x ∷ []) xs
          (NoRepeat-snoc kept x n (λ m. clash ((any_iff x kept).1 m) e)))
  ]
    where
      clash : any (eq.same x) kept ≡ true → any (eq.same x) kept ≡ false → ⊥
      clash h k = cc

  pub dedupe-NoRepeat : (xs : List A) → NoRepeat (dedupe xs)
  unfolding dedupe
  dedupe-NoRepeat xs = dedupe_from-NoRepeat [] xs tt
