-- ===== src/Policy/Compile/Rerun.antt =====
-- Running the compiler over what it wrote (internal/policy/compile/compile.go).
use agent_creance.Prelude.{
  true, false, Option, none, some, Bytes, arith, bytes_eq_iff, ◌≡◌, refl, sym, ◌∙◌, ap,
}
use agent_creance.Policy.Rule.{RuleSet}
use agent_creance.Policy.Compile.{CompileError, Built, done, failed, Runner, build_rule_set}
use agent_creance.Policy.Compile.Credentials.{validate_inject_refs}
use agent_creance.Policy.Compile.Gate.{
  Compiled, Inputs, CompileResult, artifact, Disk, Faults, read_compiled, write, result_of,
  input_credentials, compiled_of, after_write, after_check, after_rules, build, usable, past_gate,
  compile,
}

-- What a build that succeeds leaves
pub record Stored (run : Runner) (ins : Inputs) (disk : Disk) (res : CompileResult) : Type 0 where
  pub rules : RuleSet
  pub built : build_rule_set run ins.global ins.project ins.overlay ins.manifests ≡ done rules
  pub checked : validate_inject_refs rules (input_credentials ins) ≡ none
  pub stored : disk.policy_json ≡ artifact (compiled_of ins rules)
  pub reported : res ≡ result_of false (compiled_of ins rules)

write-artifact :
    (faults : Faults) (disk after : Disk) (c : Compiled)
    → write faults disk c ≡ (after, none)
    → after.policy_json ≡ artifact c
unfolding write
write-artifact faults disk after c h = ground arith

write-kept :
    (faults : Faults) (disk after : Disk) (c : Compiled) (e : CompileError)
    → write faults disk c ≡ (after, some e)
    → after.policy_json ≡ disk.policy_json
unfolding write
write-kept faults disk after c e h = ground arith

pub build-Stored :
    (run : Runner) (faults : Faults) (ins : Inputs) (disk after : Disk) (res : CompileResult)
    → build run faults ins disk ≡ (after, done res)
    → Stored run ins after res
unfolding build
build-Stored run faults ins disk after res h =
    by_rules (build_rule_set run ins.global ins.project ins.overlay ins.manifests) refl h
  where
    by_write :
        (rs : RuleSet) (w : Disk × Option CompileError)
        → build_rule_set run ins.global ins.project ins.overlay ins.manifests ≡ done rs
        → validate_inject_refs rs (input_credentials ins) ≡ none
        → write faults disk (compiled_of ins rs) ≡ w
        → after_write (compiled_of ins rs) w ≡ (after, done res)
        → Stored run ins after res
    by_write rs (d, none) e v w k = record {
      rules = rs;
      built = e;
      checked = v;
      stored =
          ap (λ (p : Disk × Built CompileResult). p.0.policy_json) (sym k)
          ∙ write-artifact faults disk d (compiled_of ins rs) w;
      reported = cc;
    }
    by_write rs (d, some x) e v w k = cc

    by_check :
        (rs : RuleSet) (v : Option Bytes)
        → build_rule_set run ins.global ins.project ins.overlay ins.manifests ≡ done rs
        → validate_inject_refs rs (input_credentials ins) ≡ v
        → after_check faults ins disk rs v ≡ (after, done res)
        → Stored run ins after res
    by_check rs none e v k = by_write rs (write faults disk (compiled_of ins rs)) e v refl k
    by_check rs (some x) e v k = cc

    by_rules :
        (b : Built RuleSet)
        → build_rule_set run ins.global ins.project ins.overlay ins.manifests ≡ b
        → after_rules faults ins disk b ≡ (after, done res)
        → Stored run ins after res
    by_rules (done rs) e k = by_check rs (validate_inject_refs rs (input_credentials ins)) e refl k
    by_rules (failed x) e k = cc

pub build-failed :
    (run : Runner) (faults : Faults) (ins : Inputs) (disk after : Disk) (e : CompileError)
    → build run faults ins disk ≡ (after, failed e)
    → after.policy_json ≡ disk.policy_json
unfolding build
build-failed run faults ins disk after e h =
    by_rules (build_rule_set run ins.global ins.project ins.overlay ins.manifests) h
  where
    by_write :
        (c : Compiled) (w : Disk × Option CompileError)
        → write faults disk c ≡ w
        → after_write c w ≡ (after, failed e)
        → after.policy_json ≡ disk.policy_json
    by_write c (d, none) w k = cc
    by_write c (d, some x) w k =
        ap (λ (p : Disk × Built CompileResult). p.0.policy_json) (sym k)
        ∙ write-kept faults disk d c x w

    by_check :
        (rs : RuleSet) (v : Option Bytes)
        → after_check faults ins disk rs v ≡ (after, failed e)
        → after.policy_json ≡ disk.policy_json
    by_check rs none k =
        by_write (compiled_of ins rs) (write faults disk (compiled_of ins rs)) refl k
    by_check rs (some x) k = cc

    by_rules :
        (b : Built RuleSet)
        → after_rules faults ins disk b ≡ (after, failed e)
        → after.policy_json ≡ disk.policy_json
    by_rules (done rs) k = by_check rs (validate_inject_refs rs (input_credentials ins)) k
    by_rules (failed x) k = cc

pub usable-compiled :
    (ins : Inputs) (rs : RuleSet)
    → usable ins (some (compiled_of ins rs)) ≡ some (compiled_of ins rs)
unfolding usable
usable-compiled ins rs = rw ((bytes_eq_iff ins.hash ins.hash).1 refl) refl

-- After a run of the compiler that succeeds, a cache hit or not, a run on the same inputs is a
-- cache hit: it leaves the files as they are and reports the same hash and the same counts, without
-- a generator being called or a write that could fail.
pub compile_again :
    (run run' : Runner) (faults faults' : Faults) (ins : Inputs) (disk after : Disk)
    (res : CompileResult)
    → compile run faults ins disk ≡ (after, done res)
    → compile run' faults' ins after ≡ (after, done record res { skipped = true })
unfolding compile
compile_again run run' faults faults' ins disk after res h =
    by_gate (usable ins (read_compiled disk.policy_json)) refl h
  where
    by_gate :
        (u : Option Compiled)
        → usable ins (read_compiled disk.policy_json) ≡ u
        → past_gate run faults ins disk u ≡ (after, done res)
        → past_gate run' faults' ins after (usable ins (read_compiled after.policy_json))
          ≡ (after, done record res { skipped = true })
    by_gate (some c) e k = rw (here k, e, there k) refl
      where
        here : past_gate run faults ins disk (some c) ≡ (after, done res) → after ≡ disk
        here q = cc

        there :
            past_gate run faults ins disk (some c) ≡ (after, done res)
            → res ≡ record (result_of true c) { input_hash = ins.hash }
        there q = cc
    by_gate none e k =
        let st = build-Stored run faults ins disk after res k in
        rw (st.stored, usable-compiled ins st.rules, st.reported) refl
