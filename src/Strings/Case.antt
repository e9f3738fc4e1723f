-- ===== src/Strings/Case.antt =====
-- Lowering the case of a text.
use mathlib.Core.List.{map-append}
use agent_creance.Prelude.{ℕ, [], ◌∷◌, ◌++◌, Bytes, ◌≡◌, refl, arith}
use agent_creance.Strings.{lower_byte, to_lower}
use agent_creance.Strings.Affix.{Lacks, EndsOther}

pub lower_byte_idem : (c : ℕ) → lower_byte (lower_byte c) ≡ lower_byte c
unfolding lower_byte
lower_byte_idem c = ground arith

pub to_lower_idem : (s : Bytes) → to_lower (to_lower s) ≡ to_lower s
unfolding to_lower
to_lower_idem [] = refl
to_lower_idem (c ∷ s) = ground (arith, lower_byte_idem c, to_lower_idem s)

pub to_lower-append : (s t : Bytes) → to_lower (s ++ t) ≡ to_lower s ++ to_lower t
unfolding to_lower
to_lower-append s t = map-append lower_byte s t

-- Bytes that are no letters are neither lowered nor the result of it.
abbrev pub IsUncased : ℕ → Type 0
IsUncased b = (c : ℕ) → lower_byte c ≡ b → c ≡ b

pub Lacks-to_lower : (b : ℕ) (s : Bytes) → IsUncased b → Lacks b s → Lacks b (to_lower s)
unfolding to_lower
Lacks-to_lower b [] u h = tt
Lacks-to_lower b (c ∷ s) u (h, hs) = (λ e. h (u c e), Lacks-to_lower b s u hs)

pub EndsOther-to_lower :
    (b : ℕ) (s : Bytes) → IsUncased b → EndsOther b s → EndsOther b (to_lower s)
unfolding to_lower
EndsOther-to_lower b [] u h = tt
EndsOther-to_lower b (c ∷ []) u h = λ e. h (u c e)
EndsOther-to_lower b (c ∷ d ∷ s) u h = EndsOther-to_lower b (d ∷ s) u h

pub dot-IsUncased : IsUncased b'.'
unfolding lower_byte
dot-IsUncased c e = ground arith

pub colon-IsUncased : IsUncased b':'
unfolding lower_byte
colon-IsUncased c e = ground arith
