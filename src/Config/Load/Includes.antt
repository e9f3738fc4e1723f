-- ===== src/Config/Load/Includes.antt =====
-- The include graph that the loader walks (internal/config/load.go).
use agent_creance.Prelude.{
  ℕ, zero, suc, Bool, true, false, List, [], ◌∷◌, ◌++◌, Option, none, some, Bytes, ◌≡◌, refl, sym,
  inl, inr, ◌↔◌, In, Bool-cases, subst, if◌then◌else◌, bytes_eq, bytes_eq_iff,
}
use agent_creance.Config.Model.{Config}
use agent_creance.Config.Merge.{merge}
use agent_creance.Config.Load.{
  LoadError, include_cycle, Loaded, loaded, refused, then_load, Files, empty_config,
  resolve_include_path, opened, open_file, on_stack, merge_includes, resolve_parsed, resolve_opened,
  resolve,
}

-- The file at path `p` includes the path `q`.
pub record Includes (fs : Files) (home p q : Bytes) : Type 0 where
  pub abs : Bytes
  pub canon : Bytes
  pub bytes : Bytes
  pub cfg : Config
  pub entry : Bytes
  pub found : open_file fs p ≡ opened abs canon bytes
  pub parsed : fs.parse bytes ≡ some cfg
  pub listed : In entry cfg.include
  pub target : resolve_include_path abs home entry ≡ loaded q

-- `k` includes lead from one path to another.
abbrev pub Chain : Files → Bytes → ℕ → Bytes → Bytes → Type 0
Chain fs home zero p r = p ≡ r
Chain fs home (suc k) p r = (q : Bytes) × Includes fs home p q × Chain fs home k q r

pub on_stack_iff :
    (stack : List Bytes) (canon : Bytes) → (on_stack stack canon ≡ true) ↔ In canon stack
on_stack_iff [] canon = (λ h. cc, λ h. absurd h)
on_stack_iff (s ∷ stack) canon = elim (Bool-cases (bytes_eq s canon)) [
  | inl e ↦ rw e (λ _. inl (sym ((bytes_eq_iff s canon).0 e)), λ _. refl)
  | inr e ↦ rw e (
    λ h. inr ((on_stack_iff stack canon).0 h),
    λ h. elim h [
      | inl same ↦ absurd (clash ((bytes_eq_iff s canon).1 (sym same)) e)
      | inr m ↦ (on_stack_iff stack canon).1 m
    ],
  )
]
  where
    clash : bytes_eq s canon ≡ true → bytes_eq s canon ≡ false → ⊥
    clash h k = cc

pub then_load-loaded :
    {A B : Type 0} (m : Loaded A) (f : A → Loaded B) {b : B}
    → then_load m f ≡ loaded b
    → (a : A) × (m ≡ loaded a) × (f a ≡ loaded b)
then_load-loaded (loaded a) f h = (a, refl, h)
then_load-loaded (refused e) f h = cc

pub then_load_of :
    {A B : Type 0} (m : Loaded A) (f : A → Loaded B) (a : A) (r : Loaded B)
    → m ≡ loaded a
    → f a ≡ r
    → then_load m f ≡ r
then_load_of m f a r e h = rw e h

pub loaded_inj : {A : Type 0} {a b : A} → loaded a ≡ loaded b → a ≡ b
loaded_inj h = cc

pub never_loaded : {A B : Type 0} {a : A} (e : LoadError) → refused e ≡ loaded a → B
never_loaded e h = cc

-- Where the loop over includes succeeds, each of them has a target that resolves.
pub merge_includes-each :
    (each : Bytes → Loaded Config) (target : Bytes → Loaded Bytes) (incs : List Bytes)
    (acc c : Config) (inc : Bytes)
    → merge_includes each target incs acc ≡ loaded c
    → In inc incs
    → (q : Bytes) × (r : Config) × (target inc ≡ loaded q) × (each q ≡ loaded r)
unfolding merge_includes
merge_includes-each each target [] acc c inc h m = absurd m
merge_includes-each each target (i ∷ incs) acc c inc h m =
    let (q, e, h') = then_load-loaded (target i) _ h in
    let (r, e', h'') = then_load-loaded (each q) _ h' in
    elim m [
      | inl here ↦ rw here (q, r, e, e')
      | inr later ↦ merge_includes-each each target incs (merge acc r) c inc h'' later
    ]

-- What a file that resolves has: its canonical path is not on the stack, its bytes parse, and every
-- include resolves one level below.
pub record Resolved (fs : Files) (home : Bytes) (left : ℕ) (stack : List Bytes)
    (abs canon bytes : Bytes) : Type 0 where
  pub fresh : on_stack stack canon ≡ false
  pub cfg : Config
  pub parsed : fs.parse bytes ≡ some cfg
  pub each :
      (inc : Bytes)
      → In inc cfg.include
      → (q : Bytes) × (r : Config) × (resolve_include_path abs home inc ≡ loaded q)
        × (resolve fs home left false (stack ++ canon ∷ []) q ≡ loaded r)

pub resolve-Resolved :
    (fs : Files) (home : Bytes) (left : ℕ) (optional : Bool) (stack : List Bytes) (path : Bytes)
    (c : Config) (abs canon bytes : Bytes)
    → resolve fs home (suc left) optional stack path ≡ loaded c
    → open_file fs path ≡ opened abs canon bytes
    → Resolved fs home left stack abs canon bytes
unfolding resolve
resolve-Resolved fs home left optional stack path c abs canon bytes h o =
    by_stack (on_stack stack canon) refl (
      subst (λ w. resolve_opened fs home (resolve fs home left false) optional stack w ≡ loaded c) o
        h)
  where
    by_parse :
        (p : Option Config)
        → on_stack stack canon ≡ false
        → fs.parse bytes ≡ p
        → resolve_parsed fs home (resolve fs home left false) stack abs canon p ≡ loaded c
        → Resolved fs home left stack abs canon bytes
    by_parse none f e k = cc
    by_parse (some cfg) f e k =
        let (acc, run, _) =
          then_load-loaded
            (merge_includes (resolve fs home left false (stack ++ canon ∷ []))
              (resolve_include_path abs home) cfg.include empty_config)
            _ k in
        record {
          fresh = f;
          cfg = cfg;
          parsed = e;
          each = λ inc m.
              merge_includes-each (resolve fs home left false (stack ++ canon ∷ []))
                (resolve_include_path abs home) cfg.include empty_config acc inc run m;
        }

    by_stack :
        (b : Bool)
        → on_stack stack canon ≡ b
        → (if b
            then refused include_cycle
            else resolve_parsed fs home
                (resolve fs home left false)
                stack
                abs
                canon
                (fs.parse bytes))
          ≡ loaded c
        → Resolved fs home left stack abs canon bytes
    by_stack true e k = cc
    by_stack false e k = by_parse (fs.parse bytes) e refl k
