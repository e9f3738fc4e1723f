-- ===== src/Policy/Compile/Resolve/Manifests.antt =====
-- Which manifests a build reads (internal/policy/compile/compile.go, `resolveGenerators` and
-- `readManifests`).
use agent_creance.Prelude.{
  List, [], ◌∷◌, Option, none, some, Bytes, any, bytes_eq, bytes_eq_iff, and_iff, ◌≡◌, refl, sym,
  ◌∙◌, ap, ap₂, subst, ◌⊎◌, inl, inr, ◌↔◌, In, In-append_cases, In-append_left, In-append_right,
  Bool-cases,
}
use agent_creance.FilePath.{join_path}
use agent_creance.Config.Model.{Generator}
use agent_creance.Config.Merge.Dedupe.{Equal, any_iff}
use agent_creance.Config.Load.{FileRead, missing, failing, holding, Files}
use agent_creance.Policy.Compile.{ResolvedGenerator, ManifestInput}
use agent_creance.Policy.Compile.Resolve.{
  Metadata, ecosystems, lookup_in, Prepared, prepared, stopped, then_prepare, same_generator,
  resolved_generator, looked_up, keep_new, resolve_generators_from, resolve_generators,
  with_manifest, read_manifests,
}

pub then_prepare-prepared :
    {A B : Type 0} (m : Prepared A) (f : A → Prepared B) {b : B}
    → then_prepare m f ≡ prepared b
    → (a : A) × (m ≡ prepared a) × (f a ≡ prepared b)
then_prepare-prepared (prepared a) f h = (a, refl, h)
then_prepare-prepared (stopped e) f h = cc

pub prepared_inj : {A : Type 0} {a b : A} → prepared a ≡ prepared b → a ≡ b
prepared_inj h = cc

abbrev of_resolved : Equal ResolvedGenerator
of_resolved = record {
  same = same_generator;
  same_iff = λ a b. (
    λ h.
        let (k, p) = (and_iff (bytes_eq a.kind b.kind) (bytes_eq a.path b.path)).0 h in
        ap₂ (λ (x y : Bytes). record { kind = x; path = y }) ((bytes_eq_iff a.kind b.kind).0 k)
          ((bytes_eq_iff a.path b.path).0 p),
    λ h. (and_iff (bytes_eq a.kind b.kind) (bytes_eq a.path b.path)).1 (
      (bytes_eq_iff a.kind b.kind).1 (ap (λ (x : ResolvedGenerator). x.kind) h),
      (bytes_eq_iff a.path b.path).1 (ap (λ (x : ResolvedGenerator). x.path) h),
    ),
  );
}

-- An entry of the list resolves to the generator.
abbrev pub ResolvesTo : List Generator → ResolvedGenerator → Type 0
ResolvesTo gens rg =
    (g : Generator) × (meta : Metadata) × In g gens
    × (lookup_in g.kind ecosystems ≡ some meta)
    × (rg ≡ resolved_generator g meta)

keep_new-In :
    (rg : ResolvedGenerator) (out : List ResolvedGenerator) (a : ResolvedGenerator)
    → In a (keep_new rg out) ↔ (In a out ⊎ (a ≡ rg))
keep_new-In rg out a = elim (Bool-cases (any (same_generator rg) out)) [
  | inl e ↦ rw e (
    inl,
    λ o. elim o [
      | inl m ↦ m
      | inr here ↦
          subst (λ (x : ResolvedGenerator). In x out) (sym here) ((any_iff of_resolved rg out).0 e)
    ],
  )
  | inr e ↦ rw e (
    λ m. elim (In-append_cases out (rg ∷ []) a m) [
      | inl old ↦ inl old
      | inr (inl here) ↦ inr here
      | inr (inr never) ↦ absurd never
    ],
    λ o. elim o [
      | inl m ↦ In-append_left out (rg ∷ []) a m
      | inr here ↦ In-append_right out (rg ∷ []) a (inl here)
    ],
  )
]

resolve_from-In :
    (out out' : List ResolvedGenerator) (gens : List Generator) (a : ResolvedGenerator)
    → resolve_generators_from out gens ≡ prepared out'
    → In a out' ↔ (In a out ⊎ ResolvesTo gens a)
unfolding resolve_generators_from
resolve_from-In out out' [] a h = (
  λ m. inl (subst (In a) (sym (prepared_inj h)) m),
  λ o. elim o [ inl m ↦ subst (In a) (prepared_inj h) m | inr (g, meta, m, l, r) ↦ absurd m ],
)
resolve_from-In out out' (g ∷ gens) a h =
    let (meta, found, h') =
      then_prepare-prepared (looked_up g.kind (lookup_in g.kind ecosystems)) _ h in
    let known = known_as (lookup_in g.kind ecosystems) meta found in
    let kept = keep_new-In (resolved_generator g meta) out a in
    let ih = resolve_from-In (keep_new (resolved_generator g meta) out) out' gens a h' in
    (
      λ m. elim (ih.0 m) [
        | inl k ↦ elim (kept.0 k) [
          | inl old ↦ inl old
          | inr here ↦ inr (g, meta, inl refl, known, here)
        ]
        | inr (x, y, l, k, r) ↦ inr (x, y, inr l, k, r)
      ],
      λ o. elim o [
        | inl old ↦ ih.1 (inl (kept.1 (inl old)))
        | inr (x, y, inl here, k, r) ↦ ih.1 (inl (kept.1 (inr (r ∙ same x y meta here k known))))
        | inr (x, y, inr l, k, r) ↦ ih.1 (inr (x, y, l, k, r))
      ],
    )
  where
    known_as :
        (o : Option Metadata) (meta : Metadata) → looked_up g.kind o ≡ prepared meta → o ≡ some meta
    known_as none meta e = cc
    known_as (some x) meta e = cc

    same :
        (x : Generator) (y meta : Metadata)
        → x ≡ g
        → lookup_in x.kind ecosystems ≡ some y
        → lookup_in g.kind ecosystems ≡ some meta
        → resolved_generator x y ≡ resolved_generator g meta
    same x y meta here k known = ap₂ resolved_generator here one
      where
        one : y ≡ meta
        one = cc

pub resolve_generators-In :
    (gens : List Generator) (out : List ResolvedGenerator) (a : ResolvedGenerator)
    → resolve_generators gens ≡ prepared out
    → In a out ↔ ResolvesTo gens a
resolve_generators-In gens out a h =
    let at = resolve_from-In [] out gens a h in
    (λ m. elim (at.0 m) [ inl never ↦ absurd never | inr r ↦ r ], λ r. at.1 (inr r))

-- The manifest of one of the generators, as it is on the disk
pub record IsRead (fs : Files) (dir : Bytes) (gens : List ResolvedGenerator) (m : ManifestInput)
    : Type 0 where
  pub of_generator : In m.gen gens
  pub holds : fs.read (join_path dir m.gen.path) ≡ holding m.bytes

pub read_manifests-In :
    (fs : Files) (dir : Bytes) (gens : List ResolvedGenerator) (ms : List ManifestInput)
    (m : ManifestInput)
    → read_manifests fs dir gens ≡ prepared ms
    → In m ms ↔ IsRead fs dir gens m
unfolding read_manifests
read_manifests-In fs dir [] ms m h =
    (λ l. absurd (subst (In m) (sym (prepared_inj h)) l), λ r. absurd r.of_generator)
read_manifests-In fs dir (rg ∷ gens) ms m h =
    by_read (fs.read (join_path dir rg.path)) refl h
      (λ rest e. read_manifests-In fs dir gens rest m e)
  where
    Rest : Type 0
    Rest =
        (rest : List ManifestInput)
        → read_manifests fs dir gens ≡ prepared rest
        → In m rest ↔ IsRead fs dir gens m

    later : IsRead fs dir gens m → IsRead fs dir (rg ∷ gens) m
    later r = record { of_generator = inr r.of_generator; holds = r.holds }

    by_read :
        (r : FileRead)
        → fs.read (join_path dir rg.path) ≡ r
        → with_manifest rg r (read_manifests fs dir gens) ≡ prepared ms
        → Rest
        → In m ms ↔ IsRead fs dir (rg ∷ gens) m
    by_read missing e k below =
        let ih = below ms k in
        (
          λ l. later (ih.0 l),
          λ r. elim r.of_generator [
            | inl here ↦ absurd (gone r.holds here)
            | inr l ↦ ih.1 (record { of_generator = l; holds = r.holds })
          ],
        )
      where
        gone : fs.read (join_path dir m.gen.path) ≡ holding m.bytes → m.gen ≡ rg → ⊥
        gone x here = cc
    by_read failing e k below = cc
    by_read (holding bytes) e k below =
        let (rest, run, whole) = then_prepare-prepared (read_manifests fs dir gens) _ k in
        let ih = below rest run in
        let all : record { gen = rg; bytes = bytes } ∷ rest ≡ ms = prepared_inj whole in
        (
          λ l. elim (subst (In m) (sym all) l) [
            | inl here ↦ record {
              of_generator = inl (ap (λ (x : ManifestInput). x.gen) here);
              holds = read_back here;
            }
            | inr l' ↦ later (ih.0 l')
          ],
          λ r. subst (In m) all (elim r.of_generator [
            | inl here ↦ inl (one r.holds here)
            | inr l ↦ inr (ih.1 (record { of_generator = l; holds = r.holds }))
          ]),
        )
      where
        read_back :
            m ≡ record { gen = rg; bytes = bytes }
            → fs.read (join_path dir m.gen.path) ≡ holding m.bytes
        read_back here = rw here e

        holding_inj : {x y : Bytes} → holding x ≡ holding y → x ≡ y
        holding_inj q = cc

        one :
            fs.read (join_path dir m.gen.path) ≡ holding m.bytes
            → m.gen ≡ rg
            → m ≡ record { gen = rg; bytes = bytes }
        one x here =
            ap₂ (λ (g : ResolvedGenerator) (b : Bytes). record { gen = g; bytes = b }) here
              (holding_inj
                (sym x ∙ ap (λ (g : ResolvedGenerator). fs.read (join_path dir g.path)) here ∙ e))
