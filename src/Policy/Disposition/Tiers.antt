-- ===== src/Policy/Disposition/Tiers.antt =====
-- What `HostDisposition` says of the rules that cover the host.
use agent_creance.Prelude.{
  ℕ, Bool, true, List, [], ◌∷◌, Option, none, some, Bytes, if◌then◌else◌, ltb, ◌≡◌, ◌≤◌, ◌↔◌, ◌⊎◌,
  bytes_eq_iff, inl, inr, In, select, In-select, arith, Bool-cases, Option-cases, IsStrict, IsTop,
  top, keep, IsTop-of_top, top_of_In, refl, sym, ◌∙◌, ap, subst,
}
use agent_creance.Policy.Rule.{Rule, RuleSet, mode_passthrough}
use agent_creance.Policy.Host.{canonical_host, match_host, host_rank, HostCovers}
use agent_creance.Policy.Host.Cover.{match_host_iff}
use agent_creance.Policy.Disposition.{
  above_rank, top_rank_from, tier_passes, passes, host_disposition,
}

unfoldable pub rank_of : Rule → ℕ
rank_of r = host_rank r.host

unfoldable pub ranks_above : Rule → Rule → Bool
ranks_above a b = ltb (rank_of b) (rank_of a)

pub ranks_above-IsStrict : IsStrict ranks_above
unfolding ranks_above
ranks_above-IsStrict = record { irrefl = λ a. ground arith; trans = λ a b c h k. ground arith }

abbrev covering : Bytes → Rule → Bool
covering host r = match_host r.host host

rank_view : Option Rule → Option ℕ
rank_view none = none
rank_view (some r) = some (rank_of r)

keep-rank_view :
    (r : Rule) (b : Option Rule)
    → (if above_rank (host_rank r.host) (rank_view b) then some (host_rank r.host) else rank_view b)
      ≡ rank_view (keep ranks_above b r)
unfolding rank_view ranks_above rank_of
keep-rank_view r none = refl
keep-rank_view r (some b) = ground arith

top_rank_from-top :
    (rules : List Rule) (host : Bytes) (b : Option Rule)
    → top_rank_from rules host (rank_view b)
      ≡ rank_view (top ranks_above b (select (covering host) rules))
unfolding top_rank_from top select
top_rank_from-top [] host b = refl
top_rank_from-top (r ∷ rules) host b = elim (Bool-cases (match_host r.host host)) [
  | inl e ↦ rw (e, keep-rank_view r b) (top_rank_from-top rules host (keep ranks_above b r))
  | inr e ↦ rw e (top_rank_from-top rules host b)
]

-- The rule covers the host, and none that does has a higher rank.
pub record InTopTier (rules : List Rule) (host : Bytes) (r : Rule) : Type 0 where
  pub listed : In r rules
  pub covers : HostCovers r.host host
  pub highest :
      (r' : Rule) → In r' rules → HostCovers r'.host host → host_rank r'.host ≤ host_rank r.host

InTopTier_of_IsTop :
    (rules : List Rule) (host : Bytes) (r : Rule)
    → IsTop ranks_above ranks_above-IsStrict r (select (covering host) rules)
    → InTopTier rules host r
unfolding ranks_above rank_of
InTopTier_of_IsTop rules host r (h, up) =
    let (l, c) = (In-select (covering host) rules r).0 h in
    record {
      listed = l;
      covers = (match_host_iff r.host host).0 c;
      highest = λ r' l' c'. ground (
        arith,
        up r' ((In-select (covering host) rules r').1 (l', (match_host_iff r'.host host).1 c')),
      );
    }

-- What the scan for the top rank finds.
top_rank_cases :
    (rules : List Rule) (host : Bytes)
    → ((top_rank_from rules host none ≡ none)
        × ((r : Rule) → In r rules → ¬ HostCovers r.host host))
      ⊎ ((r : Rule) × (top_rank_from rules host none ≡ some (host_rank r.host))
          × InTopTier rules host r)
unfolding rank_view rank_of
top_rank_cases rules host =
    elim (Option-cases (top ranks_above none (select (covering host) rules))) [
      | inl e ↦ inl (
        top_rank_from-top rules host none ∙ ap rank_view e,
        λ r l c. uncovered e (
            top_of_In ranks_above ranks_above-IsStrict r (select (covering host) rules)
              ((In-select (covering host) rules r).1 (l, (match_host_iff r.host host).1 c))),
      )
      | inr (r, e) ↦ inr (
        r,
        top_rank_from-top rules host none ∙ ap rank_view e,
        InTopTier_of_IsTop rules host r
            (IsTop-of_top ranks_above ranks_above-IsStrict r (select (covering host) rules) e),
      )
    ]
  where
    uncovered :
        top ranks_above none (select (covering host) rules) ≡ none
        → (w : Rule) × (top ranks_above none (select (covering host) rules) ≡ some w)
          × IsTop ranks_above ranks_above-IsStrict w (select (covering host) rules)
        → ⊥
    uncovered e (w, f, _) = cc

abbrev PassesAt : Bytes → ℕ → Rule → Type 0
PassesAt host top r = HostCovers r.host host → host_rank r.host ≡ top → r.mode ≡ mode_passthrough

tier_passes-head :
    (x : Rule) (rules : List Rule) (host : Bytes) (top : ℕ)
    → tier_passes (x ∷ rules) host top ≡ true
    → PassesAt host top x
unfolding tier_passes
tier_passes-head x rules host top h c rank =
    ground (arith, (match_host_iff x.host host).1 c, bytes_eq_iff x.mode mode_passthrough)

tier_passes_iff :
    (rules : List Rule) (host : Bytes) (top : ℕ)
    → (tier_passes rules host top ≡ true) ↔ ((r : Rule) → In r rules → PassesAt host top r)
unfolding tier_passes
tier_passes_iff [] host top = (λ _ r h. absurd h, λ _. refl)
tier_passes_iff (x ∷ rules) host top = (
  λ h r. elim [
    | inl e ↦ subst (PassesAt host top) (sym e) (tier_passes-head x rules host top h)
    | inr l ↦ (tier_passes_iff rules host top).0 (ground arith) r l
  ],
  λ every.
      let head : match_host x.host host ≡ true
          → host_rank x.host ≡ top
          → x.mode ≡ mode_passthrough =
        λ m. every x (inl refl) ((match_host_iff x.host host).0 m) in
      let rest : tier_passes rules host top ≡ true =
        (tier_passes_iff rules host top).1 (λ r l. every r (inr l)) in
      ground (arith, bytes_eq_iff x.mode mode_passthrough),
)

-- The host is passed through exactly if a rule covers it and every rule of the top tier that does
-- is a passthrough rule.
pub host_disposition-passthrough_iff :
    (rs : RuleSet) (host : Bytes)
    → ((host_disposition rs host).passthrough ≡ true) ↔ (
        ((r : Rule) × InTopTier rs.allow (canonical_host host) r)
        × ((r : Rule) → InTopTier rs.allow (canonical_host host) r → r.mode ≡ mode_passthrough))
unfolding host_disposition
host_disposition-passthrough_iff rs host = passes_iff rs.allow (canonical_host host)
  where
    tier_of :
        (rules : List Rule) (h : Bytes) (top : Rule)
        → InTopTier rules h top
        → (r : Rule) → InTopTier rules h r
        → host_rank r.host ≡ host_rank top.host
    tier_of rules h top t r u =
        omega (arith, t.highest r u.listed u.covers, u.highest top t.listed t.covers)

    lifted :
        (rules : List Rule) (h : Bytes) (top : Rule)
        → InTopTier rules h top
        → (r : Rule) → In r rules
        → HostCovers r.host h
        → host_rank r.host ≡ host_rank top.host
        → InTopTier rules h r
    lifted rules h top t r l c e = record {
      listed = l;
      covers = c;
      highest = λ r' l' c'. omega (arith, e, t.highest r' l' c');
    }

    passes_iff :
        (rules : List Rule) (h : Bytes)
        → (passes rules h (top_rank_from rules h none) ≡ true) ↔ (
            ((r : Rule) × InTopTier rules h r)
            × ((r : Rule) → InTopTier rules h r → r.mode ≡ mode_passthrough))
    passes_iff rules h = elim (top_rank_cases rules h) [
      | inl (e, uncovered) ↦ rw e (
        λ f. cc,
        λ (some_top, _). absurd (uncovered some_top.0 some_top.1.listed some_top.1.covers),
      )
      | inr (r, e, t) ↦ rw e (
        λ f. (
          (r, t),
          λ q u.
              (tier_passes_iff rules h (host_rank r.host)).0 f q u.listed u.covers
                (tier_of rules h r t q u),
        ),
        λ (_, every).
            (tier_passes_iff rules h (host_rank r.host)).1
              (λ q l c same. every q (lifted rules h r t q l c same)),
      )
    ]
