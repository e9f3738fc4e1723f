-- ===== src/Config/HostService/Printed.antt =====
-- Host services that are written are read back (internal/config/validate.go).
use agent_creance.Prelude.{
  some_inj, ℕ, zero, suc, ◌+◌, ◌-◌, ◌*◌, ◌^◌, ◌/◌, ◌%◌, ◌≤◌, ◌<◌, Bool, true, false, [], ◌∷◌, ◌++◌,
  none, some, Bytes, any, take, drop, length, if◌then◌else◌, ltb, ◌==◌, arith, ◌≡◌, ◌≢◌, refl, sym,
  ◌∙◌, ap, ap₂, subst, All, Bool-cases, inl, inr,
}
use agent_creance.Strings.{last_index}
use agent_creance.Config.Validate.{is_control_rune}
use agent_creance.Config.HostService.{
  service, natural, is_digit, digits_from, digits, in_int, atoi, ported, labelled, split_at,
  parse_host_service,
}

-- A number in decimal, by as many digits as there is fuel for
unfoldable pub decimal : ℕ → ℕ → Bytes
decimal zero n = []
decimal (suc fuel) n = elim (ltb n 10) [
  | true ↦ (b'0' + n) ∷ []
  | false ↦ decimal fuel (n / 10) ++ (b'0' + n % 10) ∷ []
]

digits_from-snoc :
    (acc m c : ℕ) (s : Bytes)
    → digits_from acc s ≡ some m
    → is_digit c ≡ true
    → digits_from acc (s ++ c ∷ []) ≡ some (m * 10 + (c - b'0'))
unfolding digits_from
digits_from-snoc acc m c [] h d = rw d (ap (λ (x : ℕ). some (x * 10 + (c - b'0'))) (some_inj h))
digits_from-snoc acc m c (x ∷ s) h d =
    by_digit (is_digit x) h (λ k. digits_from-snoc (acc * 10 + (x - b'0')) m c s k d)
  where
    by_digit :
        (b : Bool)
        → (if b then digits_from (acc * 10 + (x - b'0')) s else none) ≡ some m
        → (digits_from (acc * 10 + (x - b'0')) s ≡ some m
            → digits_from (acc * 10 + (x - b'0')) (s ++ c ∷ []) ≡ some (m * 10 + (c - b'0')))
        → (if b then digits_from (acc * 10 + (x - b'0')) (s ++ c ∷ []) else none)
          ≡ some (m * 10 + (c - b'0'))
    by_digit true k f = f k
    by_digit false k f = cc

digit_of : (n : ℕ) → n < 10 → is_digit (b'0' + n) ≡ true
digit_of n h = ground arith

decimal-one : (fuel n : ℕ) → ltb n 10 ≡ true → decimal (suc fuel) n ≡ (b'0' + n) ∷ []
unfolding decimal
decimal-one fuel n e = rw (e, decimal) refl

decimal-more :
    (fuel n : ℕ)
    → ltb n 10 ≡ false
    → decimal (suc fuel) n ≡ decimal fuel (n / 10) ++ (b'0' + n % 10) ∷ []
unfolding decimal
decimal-more fuel n e = rw (e, decimal) refl

decimal-read : (fuel n : ℕ) → n < fuel → digits_from 0 (decimal fuel n) ≡ some n
unfolding digits_from
decimal-read zero n h = absurd (omega arith)
decimal-read (suc fuel) n h = elim (Bool-cases (ltb n 10)) [
  | inl e ↦ ap (digits_from 0) (decimal-one fuel n e) ∙ small (ground arith)
  | inr e ↦
      ap (digits_from 0) (decimal-more fuel n e)
      ∙ digits_from-snoc 0 (n / 10) (b'0' + n % 10) (decimal fuel (n / 10))
          (decimal-read fuel (n / 10) (less e)) (digit_of (n % 10) (omega arith))
      ∙ sum
]
  where
    small :
        n < 10
        → (if is_digit (b'0' + n) then some (0 * 10 + ((b'0' + n) - b'0')) else none) ≡ some n
    small k = rw (digit_of n k) (ap some (omega arith))

    less : ltb n 10 ≡ false → n / 10 < fuel
    less e = ground arith

    sum : some (n / 10 * 10 + ((b'0' + n % 10) - b'0')) ≡ some n
    sum = ap some (omega arith)

-- The bytes of a number in decimal
abbrev AreDigits : Bytes → Type 0
AreDigits s = All (λ (c : ℕ). is_digit c ≡ true) s

All-snoc : (P : ℕ → Type 0) (s : Bytes) (c : ℕ) → All P s → P c → All P (s ++ c ∷ [])
All-snoc P [] c h k = (k, tt)
All-snoc P (x ∷ s) c (p, h) k = (p, All-snoc P s c h k)

decimal-AreDigits : (fuel n : ℕ) → AreDigits (decimal fuel n)
unfolding decimal
decimal-AreDigits zero n = tt
decimal-AreDigits (suc fuel) n = elim (Bool-cases (ltb n 10)) [
  | inl e ↦ subst AreDigits (sym (decimal-one fuel n e)) (digit_of n (ground arith), tt)
  | inr e ↦ subst AreDigits (sym (decimal-more fuel n e)) (
      All-snoc (λ (c : ℕ). is_digit c ≡ true) (decimal fuel (n / 10)) (b'0' + n % 10)
        (decimal-AreDigits fuel (n / 10)) (digit_of (n % 10) (omega arith)))
]

-- Digits hold no colon.
no_colon : (s : Bytes) → AreDigits s → last_index b':' s ≡ none
unfolding last_index
no_colon [] h = refl
no_colon (c ∷ s) (d, h) = rw (no_colon s h) (rw (other d) refl)
  where
    other : is_digit c ≡ true → (c == b':') ≡ false
    other d = ground arith

last_colon :
    (label port : Bytes)
    → AreDigits port
    → last_index b':' (label ++ b':' ∷ port) ≡ some (length label)
unfolding last_index
last_colon [] port h = rw (no_colon port h) refl
last_colon (c ∷ label) port h = rw (last_colon label port h) refl

take_label : (label rest : Bytes) → take (length label) (label ++ rest) ≡ label
take_label [] rest = refl
take_label (c ∷ label) rest = ap (λ (s : Bytes). c ∷ s) (take_label label rest)

drop_label : (label rest : Bytes) → drop (suc (length label)) (label ++ b':' ∷ rest) ≡ rest
drop_label [] rest = refl
drop_label (c ∷ label) rest = drop_label label rest

atoi-digits :
    (s : Bytes) (n : ℕ)
    → AreDigits s
    → digits_from 0 s ≡ some n
    → 1 ≤ n
    → n ≤ 65535
    → atoi s ≡ some (natural n)
unfolding atoi digits digits_from
atoi-digits [] n h e low high = absurd (zero_only e)
  where
    zero_only : some 0 ≡ some n → ⊥
    zero_only e = omega (arith, none_of e)
      where
        none_of : some 0 ≡ some n → 0 ≡ n
        none_of e = cc
atoi-digits (c ∷ s) n (d, h) e low high =
    rw (no_minus d, no_plus d) (ap (in_int natural (2 ^ 63 - 1)) e ∙ fits)
  where
    no_minus : is_digit c ≡ true → (c == b'-') ≡ false
    no_minus d = ground arith

    no_plus : is_digit c ≡ true → (c == b'+') ≡ false
    no_plus d = ground arith

    fits : in_int natural (2 ^ 63 - 1) (some n) ≡ some (natural n)
    fits = ground arith

-- A host service with a label that is not empty and holds no control character, and a port from 1
-- to 65535, is read back from its label, a colon and its port in decimal; the label may hold
-- colons.
pub parse_host_service-decimal :
    (label : Bytes) (port fuel : ℕ)
    → label ≢ []
    → any is_control_rune label ≡ false
    → 1 ≤ port
    → port ≤ 65535
    → port < fuel
    → parse_host_service (label ++ b':' ∷ decimal fuel port)
      ≡ service (record { label = label; port = port })
unfolding parse_host_service
parse_host_service-decimal label port fuel filled clean low high enough =
    ap (split_at (label ++ b':' ∷ decimal fuel port))
      (last_colon label (decimal fuel port) (decimal-AreDigits fuel port))
    ∙ ap₂ labelled (take_label label (b':' ∷ decimal fuel port))
        (drop_label label (decimal fuel port))
    ∙ read label filled clean
  where
    ported_at :
        (label : Bytes)
        → ported label (some (natural port)) ≡ service (record { label = label; port = port })
    ported_at label = ground arith

    read :
        (label : Bytes)
        → label ≢ []
        → any is_control_rune label ≡ false
        → labelled label (decimal fuel port) ≡ service (record { label = label; port = port })
    read [] filled clean = absurd (filled refl)
    read (c ∷ label) filled clean = rw clean (
        ap (ported (c ∷ label)) (
          atoi-digits (decimal fuel port) port (decimal-AreDigits fuel port)
            (decimal-read fuel port enough) low high)
        ∙ ported_at (c ∷ label))
