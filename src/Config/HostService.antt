-- ===== src/Config/HostService.antt =====
-- A "label:port" entry of the host services (internal/config/validate.go, `parseHostService`).
pub mod Printed
pub mod Accepted
use agent_creance.Prelude.{
  ℕ, zero, suc, ◌+◌, ◌-◌, ◌*◌, ◌^◌, Bool, true, false, ◌&&◌, ◌||◌, List, [], ◌∷◌, Option, none,
  some, Bytes, any, take, drop, if◌then◌else◌, leb, ltb, ◌==◌,
}
use agent_creance.Strings.{last_index}
use agent_creance.Config.Model.{HostService}
use agent_creance.Config.Validate.{is_control_rune}

pub data ServiceError : Type 0 where
  not_label_port empty_label control_in_label not_numeric out_of_range : ServiceError

pub data ParsedService : Type 0 where
  service : HostService → ParsedService
  no_service : ServiceError → ParsedService

-- What strconv.Atoi returns
pub data Number : Type 0 where
  natural negative : ℕ → Number

abbrev pub is_digit : ℕ → Bool
is_digit c = leb b'0' c && leb c b'9'

unfoldable pub digits_from : ℕ → Bytes → Option ℕ
digits_from acc [] = some acc
digits_from acc (c ∷ s) =
    let rest = digits_from (acc * 10 + (c - b'0')) s in if is_digit c then rest else none

unfoldable pub digits : Bytes → Option ℕ
unfolding digits_from
digits [] = none
digits (c ∷ s) = digits_from 0 (c ∷ s)

-- A number of 64 bits with its sign
abbrev pub in_int : (ℕ → Number) → ℕ → Option ℕ → Option Number
in_int sign bound none = none
in_int sign bound (some n) = if leb n bound then some (sign n) else none

-- strconv.Atoi
unfoldable pub atoi : Bytes → Option Number
unfolding digits
atoi [] = none
atoi (c ∷ s) =
    if c == b'-'
    then in_int negative (2 ^ 63) (digits s)
    else in_int natural (2 ^ 63 - 1) (digits (if c == b'+' then s else c ∷ s))

abbrev pub ported : Bytes → Option Number → ParsedService
ported label none = no_service not_numeric
ported label (some (negative n)) = no_service out_of_range
ported label (some (natural n)) =
    if ltb n 1 || ltb 65535 n
    then no_service out_of_range
    else service (record { label = label; port = n })

abbrev pub labelled : Bytes → Bytes → ParsedService
labelled [] port = no_service empty_label
labelled (c ∷ label) port =
    if any is_control_rune (c ∷ label)
    then no_service control_in_label
    else ported (c ∷ label) (atoi port)

abbrev pub split_at : Bytes → Option ℕ → ParsedService
split_at s none = no_service not_label_port
split_at s (some i) = labelled (take i s) (drop (suc i) s)

unfoldable pub parse_host_service : Bytes → ParsedService
unfolding atoi last_index
parse_host_service s = split_at s (last_index b':' s)
