-- ===== src/Prelude/Top.antt =====
-- A scan that keeps the first value above which no later one stands.
use mathlib.Core.Path.{◌≡◌, refl, sym, ◌∙◌, subst}
use mathlib.Core.Bool.{Bool, true, false}
use mathlib.Core.Logic.{◌⊎◌, inl, inr}
use mathlib.Core.List.{List, [], ◌∷◌}
use mathlib.Core.Option.{Option, none, some, some-injective}
use agent_creance.Prelude.Tests.{if◌then◌else◌, Bool-cases}
use agent_creance.Prelude.Lists.{In}

module _ {V : Type 0} (above : V → V → Bool) where
  abbrev pub keep : Option V → V → Option V
  keep none v = some v
  keep (some best) v = if above v best then some v else some best

  unfoldable pub top : Option V → List V → Option V
  top best [] = best
  top best (v ∷ vs) = top (keep best v) vs

-- The order of such a scan.
pub record IsStrict {V : Type 0} (above : V → V → Bool) : Type 0 where
  pub irrefl : (a : V) → above a a ≡ false
  pub trans : (a b c : V) → above a b ≡ true → above b c ≡ true → above a c ≡ true

module _ {V : Type 0} (above : V → V → Bool) (strict : IsStrict above) where
  -- `v` is among the values and none of them is above it.
  abbrev pub IsTop : V → List V → Type 0
  IsTop v vs = In v vs × ((w : V) → In w vs → above w v ≡ false)

  -- Where `old` is above `v`, or is `v`, what is not above `v` is not above `old`.
  not_above_of :
      (w v old : V) → (v ≡ old) ⊎ (above v old ≡ true) → above w old ≡ false → above w v ≡ false
  not_above_of w v old (inl e) h = cc
  not_above_of w v old (inr up) h = elim (Bool-cases (above w v)) [
    | inl e ↦ absurd (clash (strict.trans w v old e up))
    | inr e ↦ e
  ]
    where
      clash : above w old ≡ true → ⊥
      clash e = cc

  -- The scan from `best` ends in `v`.
  record Found (best : V) (vs : List V) (v : V) : Type 0 where
    risen : (v ≡ best) ⊎ (above v best ≡ true)
    source : (v ≡ best) ⊎ In v vs
    highest : (w : V) → In w vs → above w v ≡ false

  Found-taken :
      (best x : V) (vs : List V) (v : V)
      → above x best ≡ true
      → Found x vs v
      → Found best (x ∷ vs) v
  Found-taken best x vs v up f = record {
    risen = inr (elim f.risen [ inl e ↦ cc | inr higher ↦ strict.trans v x best higher up ]);
    source = inr f.source;
    highest = λ w. elim [
      | inl e ↦ not_above_of w v x f.risen (rw e (strict.irrefl x))
      | inr h ↦ f.highest w h
    ];
  }

  Found-left_out :
      (best x : V) (vs : List V) (v : V)
      → above x best ≡ false
      → Found best vs v
      → Found best (x ∷ vs) v
  Found-left_out best x vs v stay f = record {
    risen = f.risen;
    source = elim f.source [ inl e ↦ inl e | inr h ↦ inr (inr h) ];
    highest =
        λ w. elim [ inl e ↦ not_above_of w v best f.risen (rw e stay) | inr h ↦ f.highest w h ];
  }

  top-Found :
      (best : V) (vs : List V) → (v : V) × (top above (some best) vs ≡ some v) × Found best vs v
  unfolding top
  top-Found best [] =
      (best, refl, record { risen = inl refl; source = inl refl; highest = λ w h. absurd h })
  top-Found best (x ∷ vs) = elim (Bool-cases (above x best)) [
    | inl up ↦ let (v, run, f) = top-Found x vs in (v, rw up run, Found-taken best x vs v up f)
    | inr stay ↦
        let (v, run, f) = top-Found best vs in (v, rw stay run, Found-left_out best x vs v stay f)
  ]

  -- The scan of a non-empty list ends in a top value.
  pub top-IsTop :
      (x : V) (vs : List V) → (v : V) × (top above none (x ∷ vs) ≡ some v) × IsTop v (x ∷ vs)
  unfolding top
  top-IsTop x vs =
      let (v, run, f) = top-Found x vs in
      (
        v,
        run,
        (
          f.source,
          λ w. elim [
            | inl e ↦ not_above_of w v x f.risen (rw e (strict.irrefl x))
            | inr h ↦ f.highest w h
          ],
        ),
      )

  -- What the scan returns is a top value.
  pub IsTop-of_top : (v : V) (vs : List V) → top above none vs ≡ some v → IsTop v vs
  unfolding top
  IsTop-of_top v [] e = cc
  IsTop-of_top v (x ∷ vs) e =
      let (w, run, t) = top-IsTop x vs in
      let same : w ≡ v = some-injective w v (sym run ∙ e) in subst (λ u. IsTop u (x ∷ vs)) same t

  -- It returns one if there is a value.
  pub top_of_In :
      (v : V) (vs : List V) → In v vs → (w : V) × (top above none vs ≡ some w) × IsTop w vs
  top_of_In v [] h = absurd h
  top_of_In v (x ∷ vs) h = top-IsTop x vs
