-- ===== src/Audit/Lines.antt =====
-- The lines of a log (internal/audit/entry.go, follow.go and summary.go).
use agent_creance.Prelude.{
  ℕ, Bool, ◌||◌, List, [], ◌∷◌, ◌++◌, Option, Bytes, codes, bytes_eq, all, if◌then◌else◌, ◌==◌, leb,
  ◌&&◌, not, ◌≡◌, refl, Bool-cases, inl, inr,
}

pub record LoggedRule : Type 0 where
  pub list : Bytes
  pub index : ℕ

pub record Entry : Type 0 where
  pub ts : Bytes
  pub method : Bytes
  pub url : Bytes
  pub host : Bytes
  pub decision : Bytes
  pub rule : Option LoggedRule
  pub status : ℕ

abbrev pub decision_allow : Bytes
decision_allow = codes "allow"

abbrev pub decision_soft_deny : Bytes
decision_soft_deny = codes "soft-deny"

abbrev pub decision_hard_deny : Bytes
decision_hard_deny = codes "hard-deny"

-- `IsPassthrough`
abbrev pub is_passthrough : Entry → Bool
is_passthrough e = not (bytes_eq e.host [])

-- The ASCII white space of strings.TrimSpace
abbrev pub is_space : ℕ → Bool
is_space c = c == 32 || leb 9 c && leb c 13

-- strings.TrimSpace leaves nothing.
abbrev pub is_blank : Bytes → Bool
is_blank line = all is_space line

-- The complete lines of a buffer, without their newlines, and what is after the last newline.
unfoldable pub complete_from : Bytes → Bytes → List Bytes × Bytes
complete_from cur [] = ([], cur)
complete_from cur (c ∷ s) =
    let closed = complete_from [] s in
    let longer = complete_from (cur ++ c ∷ []) s in
    if c == 10 then (cur ∷ closed.0, closed.1) else longer

abbrev pub complete : Bytes → List Bytes × Bytes
complete s = complete_from [] s

pub complete_from-append :
    (cur s t : Bytes)
    → complete_from cur (s ++ t) ≡ (
      (complete_from cur s).0 ++ (complete_from (complete_from cur s).1 t).0,
      (complete_from (complete_from cur s).1 t).1,
    )
unfolding complete_from
complete_from-append cur [] t = refl
complete_from-append cur (c ∷ s) t = elim (Bool-cases (c == 10)) [
  | inl e ↦ rw (e, complete_from-append [] s t) refl
  | inr e ↦ rw (e, complete_from-append (cur ++ c ∷ []) s t) refl
]

-- What has been read of a line is read again with what follows.
pub complete_from-cur : (cur s : Bytes) (r : Bytes) → complete_from r [] ≡ ([], r)
unfolding complete_from
complete_from-cur cur s r = refl
