-- ===== src/Policy/Disposition/Denies.antt =====
-- Which deny rule `HostDisposition` reports.
use agent_creance.Prelude.{
  Bool, true, false, ◌&&◌, List, [], ◌∷◌, Option, none, some, Bytes, if◌then◌else◌, ◌≡◌, ◌≤◌, ◌↔◌,
  ◌⊎◌, inl, inr, In, select, In-select, arith, Bool-cases, Option-cases, IsTop, top, keep,
  IsTop-of_top, top_of_In, refl, ◌∙◌, ap,
}
use agent_creance.Policy.Rule.{Rule, RuleSet}
use agent_creance.Policy.Host.{canonical_host, match_host, host_rank, HostCovers}
use agent_creance.Policy.Host.Cover.{match_host_iff}
use agent_creance.Policy.Match.{is_host_wide}
use agent_creance.Policy.Match.Verdict.{is_host_wide_iff}
use agent_creance.Policy.Disposition.{above_rank, DenyScan, deny_scan, host_disposition}
use agent_creance.Policy.Disposition.Tiers.{rank_of, ranks_above, ranks_above-IsStrict}

abbrev covering_wide : Bytes → Rule → Bool
covering_wide host r = is_host_wide r && match_host r.host host

abbrev nothing_denied : DenyScan
nothing_denied = record { rank = none; reason = [] }

deny_view : Option Rule → DenyScan
deny_view none = nothing_denied
deny_view (some r) = record { rank = some (rank_of r); reason = r.reason }

keep-deny_view :
    (r : Rule) (b : Option Rule)
    → (if above_rank (host_rank r.host) (deny_view b).rank
        then record { rank = some (host_rank r.host); reason = r.reason }
        else deny_view b)
      ≡ deny_view (keep ranks_above b r)
unfolding deny_view ranks_above rank_of
keep-deny_view r none = refl
keep-deny_view r (some b) = ground arith

deny_scan-top :
    (rules : List Rule) (host : Bytes) (b : Option Rule)
    → deny_scan rules host (deny_view b)
      ≡ deny_view (top ranks_above b (select (covering_wide host) rules))
unfolding deny_scan top select
deny_scan-top [] host b = refl
deny_scan-top (r ∷ rules) host b = elim (Bool-cases (is_host_wide r && match_host r.host host)) [
  | inl e ↦ rw (e, keep-deny_view r b) (deny_scan-top rules host (keep ranks_above b r))
  | inr e ↦ rw e (deny_scan-top rules host b)
]

-- A host-wide deny that covers the host.
pub record DeniesHost (rules : List Rule) (host : Bytes) (d : Rule) : Type 0 where
  pub listed : In d rules
  pub wide : d.paths ≡ none
  pub covers : HostCovers d.host host

In-covering_wide :
    (rules : List Rule) (host : Bytes) (d : Rule)
    → In d (select (covering_wide host) rules) ↔ DeniesHost rules host d
In-covering_wide rules host d = (
  λ h.
      let (l, c) = (In-select (covering_wide host) rules d).0 h in
      record {
        listed = l;
        wide = (is_host_wide_iff d).0 (ground arith);
        covers = (match_host_iff d.host host).0 (ground arith);
      },
  λ d'.
      let m : match_host d.host host ≡ true = (match_host_iff d.host host).1 d'.covers in
      let w : is_host_wide d ≡ true = (is_host_wide_iff d).1 d'.wide in
      (In-select (covering_wide host) rules d).1 (d'.listed, ground arith),
)

-- What the scan reports.
data Denied (rules : List Rule) (host : Bytes) (reason : Bytes) : Type 0 where
  nobody : ((d : Rule) → ¬ DeniesHost rules host d) → reason ≡ [] → Denied rules host reason
  by_rule :
      (d : Rule)
      → DeniesHost rules host d
      → reason ≡ d.reason
      → ((d' : Rule) → DeniesHost rules host d' → host_rank d'.host ≤ host_rank d.host)
      → Denied rules host reason

deny_scan-Denied :
    (rules : List Rule) (host : Bytes)
    → Denied rules host (deny_scan rules host nothing_denied).reason
unfolding deny_view
deny_scan-Denied rules host =
    elim (Option-cases (top ranks_above none (select (covering_wide host) rules))) [
      | inl e ↦
          nobody
            (λ d h. uncovered e (
              top_of_In ranks_above ranks_above-IsStrict d (select (covering_wide host) rules)
                ((In-covering_wide rules host d).1 h)))
            (ap (λ (s : DenyScan). s.reason) (deny_scan-top rules host none ∙ ap deny_view e))
      | inr (d, e) ↦
          let (h, up) =
            IsTop-of_top ranks_above ranks_above-IsStrict d (select (covering_wide host) rules) e in
          by_rule d ((In-covering_wide rules host d).0 h)
            (ap (λ (s : DenyScan). s.reason) (deny_scan-top rules host none ∙ ap deny_view e))
            (λ d' h'. not_above d' d (up d' ((In-covering_wide rules host d').1 h')))
    ]
  where
    not_above : (a b : Rule) → ranks_above a b ≡ false → host_rank a.host ≤ host_rank b.host
    not_above a b h = unfold ranks_above rank_of in ground arith

    uncovered :
        top ranks_above none (select (covering_wide host) rules) ≡ none
        → (w : Rule) × (top ranks_above none (select (covering_wide host) rules) ≡ some w)
          × IsTop ranks_above ranks_above-IsStrict w (select (covering_wide host) rules)
        → ⊥
    uncovered e (w, f, _) = cc

-- The reason is that of a host-wide deny that covers the host, of the highest rank among those; it
-- is empty if there is none.
pub host_disposition-deny_reason :
    (rs : RuleSet) (host : Bytes)
    → (((d : Rule) → ¬ DeniesHost rs.deny_always (canonical_host host) d)
        × ((host_disposition rs host).deny_reason ≡ []))
      ⊎ ((d : Rule) × DeniesHost rs.deny_always (canonical_host host) d
          × ((host_disposition rs host).deny_reason ≡ d.reason)
          × ((d' : Rule)
              → DeniesHost rs.deny_always (canonical_host host) d'
              → host_rank d'.host ≤ host_rank d.host))
unfolding host_disposition
host_disposition-deny_reason rs host =
    as_sum (deny_scan-Denied rs.deny_always (canonical_host host))
  where
    as_sum :
        {rules : List Rule} {h reason : Bytes}
        → Denied rules h reason
        → (((d : Rule) → ¬ DeniesHost rules h d) × (reason ≡ []))
          ⊎ ((d : Rule) × DeniesHost rules h d
              × (reason ≡ d.reason)
              × ((d' : Rule) → DeniesHost rules h d' → host_rank d'.host ≤ host_rank d.host))
    as_sum (nobody h e) = inl (h, e)
    as_sum (by_rule d h e up) = inr (d, h, e, up)
