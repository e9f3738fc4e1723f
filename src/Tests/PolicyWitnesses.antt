-- ===== src/Tests/PolicyWitnesses.antt =====
-- The matcher's theorems at inputs that meet their hypotheses.
use agent_creance.Prelude.{
  ℕ, true, [], ◌∷◌, none, some, Bytes, codes, ◌≡◌, ◌≢◌, refl, inl, inr, arith, ◌↔◌, ◌⊎◌, ◌≤◌, In,
  SameMembers, sym, ◌∙◌, ap, length,
}
use agent_creance.Strings.{to_lower, lower_byte, last_index, trim_suffix_byte}
use agent_creance.Strings.Affix.{Lacks}
use agent_creance.Policy.Rule.{
  Decision, Rule, RuleSet, Request, RuleList, mode_intercept, mode_passthrough,
}
use agent_creance.Policy.Host.{canonical_host, match_host, host_rank, HostCovers, is_all_digits}
use agent_creance.Policy.Host.Canonical.{Spelling, rooted_ported}
use agent_creance.Policy.Host.Cover.{match_host_iff}
use agent_creance.Policy.Glob.{glob_loop, glob_fuel, match_segment_glob, GlobMatches}
use agent_creance.Policy.Glob.Search.{match_segment_glob_iff}
use agent_creance.Policy.Path.{split_path, match_path, SegmentsCover}
use agent_creance.Policy.Path.Cover.{match_path_iff}
use agent_creance.Policy.Match.{decide, everything, canonical_request}
use agent_creance.Policy.Match.Applies.{RuleApplies}
use agent_creance.Policy.Match.Best.{IsBest, best_match-IsBest}
use agent_creance.Policy.Match.Verdict.{decide-allow, decide_of_host_deny}
use agent_creance.Policy.Match.Order.{decide_reorder, HasPlainModes}
use agent_creance.Policy.Match.Spelling.{decide-Spelling}
use agent_creance.Policy.Disposition.{host_disposition}
use agent_creance.Policy.Disposition.Denies.{DeniesHost, host_disposition-deny_reason}
use agent_creance.Policy.Disposition.Consistency.{
  PassthroughIsBare, host_disposition-deny_reason-decide,
}
use agent_creance.Tests.PolicyRuns.{
  api, tunnel, blocked, scoped, rules, ask, allowed_run, reason_run, best_run,
}

abbrev items : Request
items = ask (codes "API.x.io:443") (codes "/v1/a/items/7")

abbrev evil : Request
evil = ask (codes "evil.t.io") (codes "/")

decide-allow_example :
    (i : ℕ) × (r : Rule) × (p : Bytes) × IsBest rules.allow
      (canonical_request items)
      everything
      i
      r
      p
    × RuleApplies r (canonical_request items)
    × ((decide rules items).mode ≡ r.mode)
    × ((decide rules items).matched ≡ some (record { list = RuleList.allow_list; index = i }))
    × ((d : Rule)
        → In d rules.deny_always
        → RuleApplies d (canonical_request items)
        → (d.paths ≢ none) × (r.mode ≡ mode_passthrough))
decide-allow_example = decide-allow rules items allowed_run

blocked-RuleApplies : RuleApplies blocked (canonical_request evil)
unfolding canonical_host to_lower lower_byte last_index trim_suffix_byte
blocked-RuleApplies = record { host = inr (inr refl); method = tt; path = tt }

decide_of_host_deny_example : (decide rules evil).decision ≡ Decision.hard_deny
decide_of_host_deny_example =
    decide_of_host_deny rules evil blocked (inl refl) refl blocked-RuleApplies

abbrev reordered : RuleSet
reordered = record { allow = tunnel ∷ api ∷ tunnel ∷ []; deny_always = scoped ∷ blocked ∷ [] }

same_allow : SameMembers rules.allow reordered.allow
same_allow r = (
  elim [ inl e ↦ inr (inl e) | inr (inl e) ↦ inl e | inr (inr h) ↦ absurd h ],
  elim [
    | inl e ↦ inr (inl e)
    | inr (inl e) ↦ inl e
    | inr (inr (inl e)) ↦ inr (inl e)
    | inr (inr (inr h)) ↦ absurd h
  ],
)

same_deny : SameMembers rules.deny_always reordered.deny_always
same_deny r = (
  elim [ inl e ↦ inr (inl e) | inr (inl e) ↦ inl e | inr (inr h) ↦ absurd h ],
  elim [ inl e ↦ inr (inl e) | inr (inl e) ↦ inl e | inr (inr h) ↦ absurd h ],
)

intercept_plain : Lacks b'|' mode_intercept
intercept_plain = omega arith

passthrough_plain : Lacks b'|' mode_passthrough
passthrough_plain = omega arith

plain_allow : HasPlainModes rules.allow
plain_allow r (inl e) = rw e intercept_plain
plain_allow r (inr (inl e)) = rw e passthrough_plain
plain_allow r (inr (inr h)) = absurd h

plain_deny : HasPlainModes rules.deny_always
plain_deny r (inl e) = rw e intercept_plain
plain_deny r (inr (inl e)) = rw e intercept_plain
plain_deny r (inr (inr h)) = absurd h

decide_reorder_example :
    ((decide rules evil).decision ≡ (decide reordered evil).decision)
    × ((decide rules evil).mode ≡ (decide reordered evil).mode)
decide_reorder_example =
    decide_reorder rules reordered evil same_allow same_deny plain_allow plain_deny

evil-Spelling : Spelling (codes "evil.t.io") (codes "EVIL.t.io.:8443")
unfolding to_lower lower_byte
evil-Spelling =
    (codes "EVIL.t.io", codes ".:8443", refl, refl, rooted_ported (codes "8443") (port_digits))
  where
    port_digits : is_all_digits (codes "8443") ≡ true
    port_digits = unfold is_all_digits in refl

decide-Spelling_example :
    decide rules (record evil { host = codes "EVIL.t.io.:8443" }) ≡ decide rules evil
decide-Spelling_example =
    decide-Spelling rules evil (codes "EVIL.t.io.:8443") (omega arith) evil-Spelling

match_segment_glob_iff_example :
    (glob_loop (glob_fuel (codes "a*b*c") (codes "axbbc")) (codes "a*b*c") (codes "axbbc") none
      ≡ some (match_segment_glob (codes "a*b*c") (codes "axbbc")))
    × ((match_segment_glob (codes "a*b*c") (codes "axbbc") ≡ true)
        ↔ GlobMatches (codes "a*b*c") (codes "axbbc"))
match_segment_glob_iff_example = match_segment_glob_iff (codes "a*b*c") (codes "axbbc")

match_path_iff_example :
    (match_path (codes "/v1/**/items") (codes "v1/a/items/7") ≡ true)
    ↔ SegmentsCover (split_path (codes "/v1/**/items")) (split_path (codes "v1/a/items/7"))
match_path_iff_example = match_path_iff (codes "/v1/**/items") (codes "v1/a/items/7")

match_host_iff_example :
    (match_host (codes "*.T.io") (codes "a.t.io") ≡ true)
    ↔ HostCovers (codes "*.T.io") (codes "a.t.io")
match_host_iff_example = match_host_iff (codes "*.T.io") (codes "a.t.io")

best_match-IsBest_example :
    (r : Rule) × (p : Bytes) × IsBest rules.allow
      (ask (codes "api.x.io") (codes "/v1/a/items/7"))
      everything
      0
      r
      p
best_match-IsBest_example =
    best_match-IsBest (ask (codes "api.x.io") (codes "/v1/a/items/7")) everything rules.allow 0
      best_run

host_disposition-deny_reason_example :
    (((d : Rule) → ¬ DeniesHost rules.deny_always (canonical_host (codes "evil.t.io")) d)
      × ((host_disposition rules (codes "evil.t.io")).deny_reason ≡ []))
    ⊎ ((d : Rule) × DeniesHost rules.deny_always (canonical_host (codes "evil.t.io")) d
        × ((host_disposition rules (codes "evil.t.io")).deny_reason ≡ d.reason)
        × ((d' : Rule)
            → DeniesHost rules.deny_always (canonical_host (codes "evil.t.io")) d'
            → host_rank d'.host ≤ host_rank d.host))
host_disposition-deny_reason_example = host_disposition-deny_reason rules (codes "evil.t.io")

allow_bare : PassthroughIsBare rules.allow
allow_bare r (inl e) m = absurd (differ (sym m ∙ ap (λ (q : Rule). q.mode) e))
  where
    differ : mode_passthrough ≡ mode_intercept → ⊥
    differ h = omega (arith, ap length h)
allow_bare r (inr (inl e)) m = rw e (refl, refl)
allow_bare r (inr (inr h)) m = absurd h

deny_any_method : (d : Rule) → In d rules.deny_always → d.paths ≡ none → d.methods ≡ none
deny_any_method d (inl e) p = rw e refl
deny_any_method d (inr (inl e)) p = rw e refl
deny_any_method d (inr (inr h)) p = absurd h

host_disposition-deny_reason-decide_example : (decide rules evil).decision ≡ Decision.hard_deny
host_disposition-deny_reason-decide_example =
    host_disposition-deny_reason-decide rules evil deny_any_method
      (λ e. differ (sym reason_run ∙ e))
  where
    differ : codes "why" ≡ [] → ⊥
    differ h = omega (arith, ap length h)
