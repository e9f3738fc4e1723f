-- ===== src/Policy/Compile/Resolve/Whole.antt =====
-- Compiling from the files on the disk (internal/policy/compile/compile.go).
use agent_creance.Prelude.{
  true, false, List, ◌++◌, Option, none, some, Bytes, codes, ◌≡◌, ap, subst, ◌⊎◌, inl, inr, ◌↔◌, In,
}
use agent_creance.FilePath.{join_path}
use agent_creance.State.{Layout, resolve_layout, session_overlay, layout_file}
use agent_creance.Config.Model
use agent_creance.Config.Model.{Config, Generator}
use agent_creance.Config.Merge.Dedupe.{In-dedupe}
use agent_creance.Config.Merge.Equality.{of_generator}
use agent_creance.Config.Load.{
  Loaded, loaded, refused, holding, located_home, global_path, resolve_layer,
}
use agent_creance.Config.Load.Entries.{deny_entries, Reached}
use agent_creance.Config.Load.Entries.Layer.{resolve_layer-entries}
use agent_creance.Policy.Rule.{Decision, Request}
use agent_creance.Policy.Match.{decide, canonical_request}
use agent_creance.Policy.Match.Applies.{RuleApplies}
use agent_creance.Policy.FromConfig.{rule_from_config}
use agent_creance.Policy.Compile.{ManifestInput, ResolvedGenerator, done, Runner}
use agent_creance.Policy.Compile.Outcome.{build_rule_set-hard_deny}
use agent_creance.Policy.Compile.Rerun.{build-Stored}
use agent_creance.Policy.Compile.Gate.{
  Compiled, Inputs, CompileResult, artifact, Disk, Faults, read_compiled, compiled_of, build,
  usable, past_gate, compile,
}
use agent_creance.Policy.Compile.Resolve.{
  prepared, of_loaded, merge_generators, resolve_generators, read_manifests, load_overlay, Machine,
  paths_of, located, resolve_inputs, compile_project,
}
use agent_creance.Policy.Compile.Resolve.Manifests.{
  then_prepare-prepared, prepared_inj, ResolvesTo, resolve_generators-In, read_manifests-In,
}

abbrev pub project_config : Layout → Bytes
project_config l = join_path l.canonical (codes ".agent-creance.yaml")

-- Where the parts of the inputs come from
pub record Sources (m : Machine) (project_dir : Bytes) (ins : Inputs) : Type 0 where
  pub layout : Layout
  pub home : Bytes
  pub gens : List ResolvedGenerator
  pub found : resolve_layout (paths_of m) project_dir ≡ some layout
  pub at : m.files.home ≡ some home
  pub global : resolve_layer m.files true (global_path home) ≡ loaded ins.global
  pub project : resolve_layer m.files false (project_config layout) ≡ loaded ins.project
  pub generators :
      resolve_generators (
        merge_generators ins.global.network.egress.generators ins.project.network.egress.generators)
      ≡ prepared gens
  pub read : read_manifests m.files layout.canonical gens ≡ prepared ins.manifests

of_loaded-prepared : {A : Type 0} (r : Loaded A) {a : A} → of_loaded r ≡ prepared a → r ≡ loaded a
of_loaded-prepared (loaded x) h = ap loaded (prepared_inj h)
of_loaded-prepared (refused e) h = cc

located-prepared : (o : Option Layout) {l : Layout} → located o ≡ prepared l → o ≡ some l
located-prepared none h = cc
located-prepared (some x) h = ap some (prepared_inj h)

located_home-loaded :
    (o : Option Bytes) {home : Bytes} → located_home o ≡ loaded home → o ≡ some home
located_home-loaded none h = cc
located_home-loaded (some x) h = cc

pub resolve_inputs-Sources :
    (m : Machine) (project_dir : Bytes) (ins : Inputs)
    → resolve_inputs m project_dir ≡ prepared ins
    → Sources m project_dir ins
unfolding resolve_inputs
resolve_inputs-Sources m project_dir ins h =
    let (l, f, h₁) =
      then_prepare-prepared (located (resolve_layout (paths_of m) project_dir)) _ h in
    let (home, a, h₂) = then_prepare-prepared (of_loaded (located_home m.files.home)) _ h₁ in
    let (global, g, h₃) =
      then_prepare-prepared (of_loaded (resolve_layer m.files true (global_path home))) _ h₂ in
    let (project, p, h₄) =
      then_prepare-prepared (of_loaded (resolve_layer m.files false (project_config l))) _ h₃ in
    let (overlay, o, h₅) =
      then_prepare-prepared (load_overlay m.files (m.files.read (layout_file l session_overlay))) _
        h₄ in
    let (gens, r, h₆) =
      then_prepare-prepared
        (resolve_generators
          (merge_generators global.network.egress.generators project.network.egress.generators))
        _ h₅ in
    let (ms, s, h₇) = then_prepare-prepared (read_manifests m.files l.canonical gens) _ h₆ in
    subst (Sources m project_dir) (prepared_inj h₇) (record {
      layout = l;
      home = home;
      gens = gens;
      found = located-prepared _ f;
      at = located_home-loaded _ (of_loaded-prepared _ a);
      global = of_loaded-prepared _ g;
      project = of_loaded-prepared _ p;
      generators = r;
      read = s;
    })

-- The manifests of a build are exactly those that the generators of the two layers name, or their
-- default file in the project's directory, and that are on the disk.
pub resolve_inputs-manifests :
    (m : Machine) (project_dir : Bytes) (ins : Inputs) (mi : ManifestInput)
    → resolve_inputs m project_dir ≡ prepared ins
    → (l : Layout) × (resolve_layout (paths_of m) project_dir ≡ some l)
      × (In mi ins.manifests ↔ (
          ResolvesTo
            (ins.global.network.egress.generators ++ ins.project.network.egress.generators)
            mi.gen
          × (m.files.read (join_path l.canonical mi.gen.path) ≡ holding mi.bytes)))
resolve_inputs-manifests m project_dir ins mi h =
    let s = resolve_inputs-Sources m project_dir ins h in
    let gens =
      resolve_generators-In
        (merge_generators ins.global.network.egress.generators
          ins.project.network.egress.generators)
        s.gens mi.gen s.generators in
    let ms = read_manifests-In m.files s.layout.canonical s.gens ins.manifests mi s.read in
    let same = λ (g : Generator).
      In-dedupe of_generator
        (ins.global.network.egress.generators ++ ins.project.network.egress.generators) g in
    (
      s.layout,
      s.found,
      (
        λ l. (moved _ _ (λ g. (same g).0) (gens.0 (ms.0 l).of_generator), (ms.0 l).holds),
        λ (r, holds).
            ms.1 (record { of_generator = gens.1 (moved _ _ (λ g. (same g).1) r); holds = holds }),
      ),
    )
  where
    moved :
        (xs ys : List Generator)
        → ((g : Generator) → In g xs → In g ys)
        → ResolvesTo xs mi.gen
        → ResolvesTo ys mi.gen
    moved xs ys f (g, meta, l, k, r) = (g, meta, f g l, k, r)

-- The policy that a compilation of the project writes, when it is not skipped, refuses with a hard
-- deny every request to which a host-wide deny rule applies that the global file, the project's
-- file, or a file that includes lead to from one of them, has: whatever other files, generators and
-- the session allow.
pub compile_project-hard_deny :
    (m : Machine) (run : Runner) (faults : Faults) (project_dir : Bytes) (disk after : Disk)
    (res : CompileResult)
    → compile_project m run faults project_dir disk ≡ prepared (after, done res)
    → res.skipped ≡ false
    → (c : Compiled) × (l : Layout) × (home : Bytes) × (after.policy_json ≡ artifact c)
      × (resolve_layout (paths_of m) project_dir ≡ some l)
      × (m.files.home ≡ some home)
      × ((d : Model.Rule) (req : Request)
          → Reached deny_entries m.files home (project_config l) d
            ⊎ Reached deny_entries m.files home (global_path home) d
          → d.paths ≡ none
          → RuleApplies (rule_from_config d) (canonical_request req)
          → (decide c.rules req).decision ≡ Decision.hard_deny)
unfolding compile_project compile
compile_project-hard_deny m run faults project_dir disk after res h fresh =
    let (ins, prep, h') = then_prepare-prepared (resolve_inputs m project_dir) _ h in
    let s = resolve_inputs-Sources m project_dir ins prep in
    let st =
      build-Stored run faults ins disk after res
        (by_gate ins (usable ins (read_compiled disk.policy_json)) (prepared_inj h')) in
    (
      compiled_of ins st.rules,
      s.layout,
      s.home,
      st.stored,
      s.found,
      s.at,
      λ d req reached wide applies.
          build_rule_set-hard_deny run ins.global ins.project ins.overlay ins.manifests st.rules d
            req st.built
            (elim reached [
              | inl p ↦ inr (
                  inl (
                    (resolve_layer-entries deny_entries m.files s.home false
                        (project_config s.layout) ins.project d s.at s.project).1
                      p))
              | inr g ↦ inl (
                  (resolve_layer-entries deny_entries m.files s.home true (global_path s.home)
                      ins.global d s.at s.global).1
                    g)
            ])
            wide applies,
    )
  where
    by_gate :
        (ins : Inputs) (o : Option Compiled)
        → past_gate run faults ins disk o ≡ (after, done res)
        → build run faults ins disk ≡ (after, done res)
    by_gate ins none k = k
    by_gate ins (some c) k = absurd (kept k fresh)
      where
        kept : past_gate run faults ins disk (some c) ≡ (after, done res) → res.skipped ≡ false → ⊥
        kept k fresh = cc
