-- ===== src/Policy/Compile/History.antt =====
-- policy.json over a sequence of compiler runs (internal/policy/compile/compile.go).
use agent_creance.Prelude.{
  true, List, [], ◌∷◌, Option, none, some, Bytes, ◌≡◌, ◌≢◌, refl, sym, ◌∙◌, ap, subst, inl, inr, In,
}
use agent_creance.Policy.Rule.{Rule, RuleSet}
use agent_creance.Config.Model.{Map}
use agent_creance.Policy.Compile.{Built, done, failed, Runner, build_rule_set}
use agent_creance.Policy.Compile.Credentials.{
  CompiledCredential, undefined_unless, undefined_inject, or_next, check_injects,
  validate_inject_refs,
}
use agent_creance.Policy.Compile.Gate.{
  Compiled, Inputs, CompileResult, Artifact, absent, garbled, artifact, Disk, Faults, read_compiled,
  input_credentials, compiled_of, build, usable, past_gate, compile, Invalidate, GeneratorRefresh,
  RefreshResult, refresh_result, after_invalidation, invalidate_all, refresh,
}
use agent_creance.Policy.Compile.Rerun.{build-Stored, build-failed, usable-compiled}

-- Every credential that a rule injects is defined.
abbrev pub InjectsDefined : Map CompiledCredential → List Rule → Type 0
InjectsDefined creds rules = (r : Rule) → In r rules → r.inject ≢ [] → creds r.inject ≢ none

undefined_inject-none :
    (creds : Map CompiledCredential) (name : Bytes)
    → undefined_inject creds name ≡ none
    → name ≢ []
    → creds name ≢ none
undefined_inject-none creds [] h n e = absurd (n refl)
undefined_inject-none creds (c ∷ name) h n e = clash (ap (undefined_unless (c ∷ name)) (sym e) ∙ h)
  where
    clash : some (c ∷ name) ≡ none → ⊥
    clash q = cc

or_next-none : {A : Type 0} (a b : Option A) → or_next a b ≡ none → (a ≡ none) × (b ≡ none)
or_next-none none b h = (refl, h)
or_next-none (some a) b h = cc

check_injects-InjectsDefined :
    (creds : Map CompiledCredential) (rules : List Rule)
    → check_injects creds rules ≡ none
    → InjectsDefined creds rules
unfolding check_injects
check_injects-InjectsDefined creds [] h r m n = absurd m
check_injects-InjectsDefined creds (x ∷ rules) h r m n =
    let (first, rest) =
      or_next-none (undefined_inject creds x.inject) (check_injects creds rules) h in
    elim m [
      | inl here ↦ rw here (
          undefined_inject-none creds x.inject first
            (λ q. n (ap (λ (y : Rule). y.inject) here ∙ q)))
      | inr later ↦ check_injects-InjectsDefined creds rules rest r later n
    ]

validate_inject_refs-InjectsDefined :
    (creds : Map CompiledCredential) (rs : RuleSet)
    → validate_inject_refs rs creds ≡ none
    → InjectsDefined creds rs.allow × InjectsDefined creds rs.deny_always
unfolding validate_inject_refs
validate_inject_refs-InjectsDefined creds rs h =
    let (first, rest) =
      or_next-none (check_injects creds rs.allow) (check_injects creds rs.deny_always) h in
    (
      check_injects-InjectsDefined creds rs.allow first,
      check_injects-InjectsDefined creds rs.deny_always rest,
    )

pub data Event : Type 0 where
  compiling : Runner → Faults → Inputs → Event
  refreshing : Invalidate → Runner → Faults → Inputs → Event

abbrev pub step : Event → Disk → Disk
step (compiling run faults ins) disk = (compile run faults ins disk).0
step (refreshing inv run faults ins) disk = (refresh inv run faults ins disk).0

unfoldable pub steps : List Event → Disk → Disk
steps [] disk = disk
steps (e ∷ es) disk = steps es (step e disk)

-- The policy that a build of some inputs produces, with all its credentials
pub record Genuine (c : Compiled) : Type 0 where
  pub run : Runner
  pub inputs : Inputs
  pub rules : RuleSet
  pub built :
      build_rule_set run inputs.global inputs.project inputs.overlay inputs.manifests ≡ done rules
  pub whole : c ≡ compiled_of inputs rules
  pub injects :
      InjectsDefined c.credentials c.rules.allow × InjectsDefined c.credentials c.rules.deny_always

abbrev pub IsGenuine : Artifact → Type 0
IsGenuine absent = Unit
IsGenuine garbled = ⊥
IsGenuine (artifact c) = Genuine c

build-IsGenuine :
    (run : Runner) (faults : Faults) (ins : Inputs) (disk : Disk)
    → IsGenuine disk.policy_json
    → IsGenuine (build run faults ins disk).0.policy_json
build-IsGenuine run faults ins disk g = by_result (build run faults ins disk) refl
  where
    by_result :
        (p : Disk × Built CompileResult) → build run faults ins disk ≡ p → IsGenuine p.0.policy_json
    by_result (after, done res) h =
        let st = build-Stored run faults ins disk after res h in
        subst IsGenuine (sym st.stored) (record {
          run = run;
          inputs = ins;
          rules = st.rules;
          built = st.built;
          whole = refl;
          injects = validate_inject_refs-InjectsDefined (input_credentials ins) st.rules st.checked;
        })
    by_result (after, failed e) h =
        subst IsGenuine (sym (build-failed run faults ins disk after e h)) g

refresh_result-disk :
    (gens : List GeneratorRefresh) (p : Disk × Built CompileResult)
    → (refresh_result gens p).0 ≡ p.0
refresh_result-disk gens (disk, done r) = refl
refresh_result-disk gens (disk, failed e) = refl

step-IsGenuine :
    (e : Event) (disk : Disk) → IsGenuine disk.policy_json → IsGenuine (step e disk).policy_json
unfolding compile refresh
step-IsGenuine (compiling run faults ins) disk g =
    by_gate (usable ins (read_compiled disk.policy_json))
  where
    by_gate : (u : Option Compiled) → IsGenuine (past_gate run faults ins disk u).0.policy_json
    by_gate (some c) = g
    by_gate none = build-IsGenuine run faults ins disk g
step-IsGenuine (refreshing inv run faults ins) disk g =
    by_invalidation (invalidate_all inv ins.manifests)
  where
    by_invalidation :
        (b : Built (List GeneratorRefresh))
        → IsGenuine (after_invalidation run faults ins disk b).0.policy_json
    by_invalidation (done gens) =
        subst (λ (d : Disk). IsGenuine d.policy_json)
          (sym (refresh_result-disk gens (build run faults ins disk)))
          (build-IsGenuine run faults ins disk g)
    by_invalidation (failed e) = g

-- Whatever sequence of compiles and refreshes runs, with whatever failures, a policy.json that was
-- absent or genuine before is absent or genuine after: never a partial file, always the whole build
-- of some inputs under their hash, with every credential that its rules inject defined.
pub steps-IsGenuine :
    (es : List Event) (disk : Disk)
    → IsGenuine disk.policy_json
    → IsGenuine (steps es disk).policy_json
unfolding steps
steps-IsGenuine [] disk g = g
steps-IsGenuine (e ∷ es) disk g = steps-IsGenuine es (step e disk) (step-IsGenuine e disk g)

-- A refresh that succeeds rebuilds the policy, so that a compile of the same inputs after it is a
-- cache hit with the counts the refresh reported.
pub compile-refresh :
    (inv : Invalidate) (run run' : Runner) (faults faults' : Faults) (ins : Inputs)
    (disk after : Disk) (res : RefreshResult)
    → refresh inv run faults ins disk ≡ (after, done res)
    → compile run' faults' ins after ≡ (
      after,
      done record {
        input_hash = ins.hash;
        skipped = true;
        allow_count = res.allow_count;
        deny_count = res.deny_count;
      },
    )
unfolding compile refresh
compile-refresh inv run run' faults faults' ins disk after res h =
    by_invalidation (invalidate_all inv ins.manifests) h
  where
    Hit : Type 0
    Hit = past_gate run' faults' ins after (usable ins (read_compiled after.policy_json)) ≡ (
      after,
      done record {
        input_hash = ins.hash;
        skipped = true;
        allow_count = res.allow_count;
        deny_count = res.deny_count;
      },
    )

    by_build :
        (gens : List GeneratorRefresh) (p : Disk × Built CompileResult)
        → build run faults ins disk ≡ p
        → refresh_result gens p ≡ (after, done res)
        → Hit
    by_build gens (d, done r) e k =
        let st = build-Stored run faults ins disk d r e in
        rw (here k, st.stored, usable-compiled ins st.rules, allowed k, denied k, st.reported) refl
      where
        here : refresh_result gens (d, done r) ≡ (after, done res) → after ≡ d
        here q = cc

        allowed :
            refresh_result gens (d, done r) ≡ (after, done res) → res.allow_count ≡ r.allow_count
        allowed q = cc

        denied : refresh_result gens (d, done r) ≡ (after, done res) → res.deny_count ≡ r.deny_count
        denied q = cc
    by_build gens (d, failed x) e k = cc

    by_invalidation :
        (b : Built (List GeneratorRefresh))
        → after_invalidation run faults ins disk b ≡ (after, done res)
        → Hit
    by_invalidation (done gens) k = by_build gens (build run faults ins disk) refl k
    by_invalidation (failed x) k = cc
