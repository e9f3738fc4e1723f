-- ===== src/Proxy/Attach/Ready.antt =====
-- When the polls for a starting process succeed (internal/proxy/lifecycle.go).
use agent_creance.Prelude.{
  ℕ, zero, suc, ◌+◌, ◌<◌, ◌≤◌, Bool, true, false, none, ◌≡◌, refl, subst, ◌⊎◌, inl, inr, ◌↔◌,
  Bool-cases, arith,
}
use agent_creance.Proxy.Program.{Poll}
use agent_creance.Proxy.Broker.{wait_ready}

-- Poll `i` finds the process ready, and at each earlier one it was alive and the sleep went on.
abbrev pub ReadyAt : (ℕ → Poll) → ℕ → ℕ → Type 0
ReadyAt poll first i =
    ((poll i).probe ≡ true)
    × ((j : ℕ) → first ≤ j → j < i → ((poll j).alive ≡ true) × ((poll j).slept ≡ true))

-- A process that the first poll does not find ready is found by a later one, and was alive until
-- then.
later :
    (poll : ℕ → Poll) (first i : ℕ)
    → (poll first).probe ≡ false
    → first ≤ i
    → ReadyAt poll first i
    → (first + 1 ≤ i) × ((poll first).alive ≡ true) × ((poll first).slept ≡ true)
later poll first i miss a (hit, before) =
    let (x, y) = before first (omega arith) (omega (arith, lt)) in (lt, x, y)
  where
    differ : i ≡ first → ⊥
    differ same = clash (subst (λ k. (poll k).probe ≡ true) same hit) miss
      where
        clash : (poll first).probe ≡ true → (poll first).probe ≡ false → ⊥
        clash h k = cc

    lt : first + 1 ≤ i
    lt = by_cases (cases a)
      where
        cases : first ≤ i → (i ≡ first) ⊎ (first + 1 ≤ i)
        cases h = ground arith

        by_cases : (i ≡ first) ⊎ (first + 1 ≤ i) → first + 1 ≤ i
        by_cases (inl h) = absurd (differ h)
        by_cases (inr h) = h

extend :
    (poll : ℕ → Poll) (first i : ℕ)
    → (poll first).alive ≡ true
    → (poll first).slept ≡ true
    → ReadyAt poll (first + 1) i
    → ReadyAt poll first i
extend poll first i x y (hit, before) = (hit, λ j a b. by_cases j b (cases j a))
  where
    cases : (j : ℕ) → first ≤ j → (j ≡ first) ⊎ (first + 1 ≤ j)
    cases j h = ground arith

    by_cases :
        (j : ℕ)
        → j < i
        → (j ≡ first) ⊎ (first + 1 ≤ j)
        → ((poll j).alive ≡ true) × ((poll j).slept ≡ true)
    by_cases j b (inl e) = rw e (x, y)
    by_cases j b (inr h) = before j h b

contrary : {A : Type 0} (b : Bool) → b ≡ true → b ≡ false → A
contrary b h k = cc

-- The poll loop succeeds exactly when one of its attempts finds the process listening and at every
-- earlier attempt the process was alive and the sleep was not cut short.
pub wait_ready-none_iff :
    (poll : ℕ → Poll) (left first : ℕ)
    → (wait_ready poll left first ≡ none)
      ↔ ((i : ℕ) × (first ≤ i) × (i < first + left) × ReadyAt poll first i)
unfolding wait_ready
wait_ready-none_iff poll zero first = (λ h. cc, λ (i, a, b, _). ground arith)
wait_ready-none_iff poll (suc left) first = elim (Bool-cases (poll first).probe) [
  | inl e ↦ rw e (
    λ _. (first, omega arith, omega arith, (e, λ j a b. absurd (omega (arith, a, b)))),
    λ _. refl,
  )
  | inr e ↦ elim (Bool-cases (poll first).alive) [
    | inr f ↦ rw (e, f) (λ h. cc, λ (i, a, b, r). contrary _ (later poll first i e a r).1 f)
    | inl f ↦ elim (Bool-cases (poll first).slept) [
      | inr g ↦ rw (e, f, g) (λ h. cc, λ (i, a, b, r). contrary _ (later poll first i e a r).2 g)
      | inl g ↦
          rw (e, f, g)
            (
              λ h.
                  let (i, a, b, r) = (wait_ready-none_iff poll left (first + 1)).0 h in
                  (i, omega (arith, a), omega (arith, b), extend poll first i f g r),
              λ (i, a, b, (hit, before)). (wait_ready-none_iff poll left (first + 1)).1 (
                i,
                (later poll first i e a (hit, before)).0,
                omega (arith, b),
                (hit, λ j x y. before j (omega (arith, x)) y),
              ),
            )
    ]
  ]
]
