-- ===== src/Policy/Disposition.antt =====
-- `HostDisposition` (internal/policy/policy.go): what is decided when only the host is known.
pub mod Tiers
pub mod Denies
pub mod Consistency
use agent_creance.Prelude.{
  ℕ, Bool, true, false, ◌&&◌, not, List, [], ◌∷◌, Option, none, some, Bytes, if◌then◌else◌, ltb,
  ◌==◌, bytes_eq,
}
use agent_creance.Policy.Rule.{Rule, RuleSet, mode_passthrough}
use agent_creance.Policy.Host.{canonical_host, match_host, host_rank}
use agent_creance.Policy.Match.{is_host_wide}

pub record HostDisposition : Type 0 where
  pub passthrough : Bool
  pub deny_reason : Bytes

-- `rank > best`, where `none` is -1
abbrev above_rank : ℕ → Option ℕ → Bool
above_rank rank none = true
above_rank rank (some best) = ltb best rank

-- `bestDenyRank` and `denyReason`
pub record DenyScan : Type 0 where
  pub rank : Option ℕ
  pub reason : Bytes

deny_scan : List Rule → Bytes → DenyScan → DenyScan
deny_scan [] host best = best
deny_scan (r ∷ rules) host best = deny_scan rules host (
    if is_host_wide r && match_host r.host host
    then (if above_rank (host_rank r.host) best.rank
        then record { rank = some (host_rank r.host); reason = r.reason }
        else best)
    else best)

top_rank_from : List Rule → Bytes → Option ℕ → Option ℕ
top_rank_from [] host best = best
top_rank_from (r ∷ rules) host best = top_rank_from rules host (
    if match_host r.host host
    then (if above_rank (host_rank r.host) best then some (host_rank r.host) else best)
    else best)

-- The last loop: false at the first rule of the top tier that is not passthrough.
tier_passes : List Rule → Bytes → ℕ → Bool
tier_passes [] host top = true
tier_passes (r ∷ rules) host top =
    if match_host r.host host && host_rank r.host == top && not (bytes_eq r.mode mode_passthrough)
    then false
    else tier_passes rules host top

passes : List Rule → Bytes → Option ℕ → Bool
passes rules host none = false
passes rules host (some top) = tier_passes rules host top

unfoldable pub host_disposition : RuleSet → Bytes → HostDisposition
unfolding deny_scan top_rank_from tier_passes passes
host_disposition rs host =
    let h = canonical_host host in
    let denied = deny_scan rs.deny_always h (record { rank = none; reason = [] }) in
    record {
      passthrough = passes rs.allow h (top_rank_from rs.allow h none);
      deny_reason = denied.reason;
    }
