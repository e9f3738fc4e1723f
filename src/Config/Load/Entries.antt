-- ===== src/Config/Load/Entries.antt =====
-- What a resolved file has of the files on its chains of includes (internal/config/load.go).
pub mod Layer
use agent_creance.Prelude.{
  ℕ, zero, suc, Bool, true, false, List, [], ◌∷◌, ◌++◌, Option, none, some, Bytes, ◌≡◌, refl, sym,
  ◌∙◌, subst, ap, inl, inr, ◌⊎◌, ◌↔◌, In, if◌then◌else◌,
}
use agent_creance.Config.Model.{Config, Rule}
use agent_creance.Config.Merge.{merge}
use agent_creance.Config.Merge.Equality.{of_rule}
use agent_creance.Config.Merge.Laws.{In-union}
use agent_creance.Config.Load.{
  levels, max_include_depth, bad_path, not_found, unreadable, include_cycle, invalid, Loaded,
  loaded, refused, then_load, Files, empty_config, resolve_include_path, Opened, no_path, absent,
  broken, opened, open_file, on_stack, merge_includes, resolve_parsed, resolve_opened, resolve,
  resolve_layer, located_home,
}
use agent_creance.Config.Load.Includes.{
  Chain, then_load-loaded, loaded_inj, never_loaded, merge_includes-each,
}

-- A list of a configuration that merging unites
pub record Entries (A : Type 0) : Type 0 where
  pub get : Config → List A
  pub unites :
      (base over : Config) (a : A)
      → In a (get (merge base over)) ↔ (In a (get base) ⊎ In a (get over))
  pub own : (cfg : Config) → get (record cfg { include = [] }) ≡ get cfg
  pub starts : get empty_config ≡ []

abbrev pub allow_entries : Entries Rule
allow_entries = record {
  get = λ c. c.network.egress.allow;
  unites = λ base over a. In-union of_rule base.network.egress.allow over.network.egress.allow a;
  own = λ cfg. refl;
  starts = refl;
}

abbrev pub deny_entries : Entries Rule
deny_entries = record {
  get = λ c. c.network.egress.deny_always;
  unites = λ base over a.
      In-union of_rule base.network.egress.deny_always over.network.egress.deny_always a;
  own = λ cfg. refl;
  starts = refl;
}

module _ {A : Type 0} (es : Entries A) (fs : Files) where
  -- The file at the path has the entry itself.
  pub record Declares (p : Bytes) (a : A) : Type 0 where
    pub abs : Bytes
    pub canon : Bytes
    pub bytes : Bytes
    pub cfg : Config
    pub found : open_file fs p ≡ opened abs canon bytes
    pub parsed : fs.parse bytes ≡ some cfg
    pub has : In a (es.get cfg)

  -- The file at the path, or one that a chain of includes leads to, has the entry.
  abbrev pub Reached : Bytes → Bytes → A → Type 0
  Reached home p a = (k : ℕ) × (q : Bytes) × Chain fs home k p q × Declares q a

  -- One of the includes resolves to a configuration with the entry.
  abbrev FromIncludes : (Bytes → Loaded Config) → (Bytes → Loaded Bytes) → List Bytes → A → Type 0
  FromIncludes each target incs a =
      (inc q : Bytes) × (r : Config) × In inc incs
      × (target inc ≡ loaded q)
      × (each q ≡ loaded r)
      × In a (es.get r)

  merge_includes-In :
      (each : Bytes → Loaded Config) (target : Bytes → Loaded Bytes) (incs : List Bytes)
      (acc c : Config) (a : A)
      → merge_includes each target incs acc ≡ loaded c
      → In a (es.get c) ↔ (In a (es.get acc) ⊎ FromIncludes each target incs a)
  unfolding merge_includes
  merge_includes-In each target [] acc c a h = (
    λ m. inl (subst (λ (x : Config). In a (es.get x)) (sym (loaded_inj h)) m),
    λ o. elim o [
      | inl m ↦ subst (λ (x : Config). In a (es.get x)) (loaded_inj h) m
      | inr (inc, q, r, m, t, e, g) ↦ absurd m
    ],
  )
  merge_includes-In each target (i ∷ incs) acc c a h =
      let (q, t, h') = then_load-loaded (target i) _ h in
      let (r, e, h'') = then_load-loaded (each q) _ h' in
      let ih = merge_includes-In each target incs (merge acc r) c a h'' in
      (
        λ m. elim (ih.0 m) [
          | inl merged ↦ elim ((es.unites acc r a).0 merged) [
            | inl old ↦ inl old
            | inr new ↦ inr (i, q, r, inl refl, t, e, new)
          ]
          | inr (inc, q', r', l, t', e', m') ↦ inr (inc, q', r', inr l, t', e', m')
        ],
        λ o. elim o [
          | inl old ↦ ih.1 (inl ((es.unites acc r a).1 (inl old)))
          | inr (inc, q', r', inl here, t', e', m) ↦
              ih.1 (inl ((es.unites acc r a).1 (inr (same q r inc q' r' here t e t' e' m))))
          | inr (inc, q', r', inr l, t', e', m) ↦ ih.1 (inr (inc, q', r', l, t', e', m))
        ],
      )
    where
      same :
          (q : Bytes) (r : Config) (inc q' : Bytes) (r' : Config)
          → inc ≡ i
          → target i ≡ loaded q
          → each q ≡ loaded r
          → target inc ≡ loaded q'
          → each q' ≡ loaded r'
          → In a (es.get r')
          → In a (es.get r)
      same q r inc q' r' here t e t' e' m = subst (λ (x : Config). In a (es.get x)) one m
        where
          one : r' ≡ r
          one = cc

  -- The file that was opened and parsed, by its own entries and those of its includes
  pub parsed_entries :
      (home : Bytes) (each : Bytes → Loaded Config) (abs path canon bytes : Bytes) (cfg c : Config)
      (a : A)
      → open_file fs path ≡ opened abs canon bytes
      → fs.parse bytes ≡ some cfg
      → ((q : Bytes) (r : Config) → each q ≡ loaded r → In a (es.get r) ↔ Reached home q a)
      → then_load
          (merge_includes each (resolve_include_path abs home) cfg.include empty_config)
          (λ acc. loaded (merge acc (record cfg { include = [] })))
        ≡ loaded c
      → In a (es.get c) ↔ Reached home path a
  parsed_entries home each abs path canon bytes cfg c a found parsed below h =
      let (acc, run, e) =
        then_load-loaded
          (merge_includes each (resolve_include_path abs home) cfg.include empty_config) _ h in
      let merged =
        merge_includes-In each (resolve_include_path abs home) cfg.include empty_config acc a run in
      let whole : merge acc (record cfg { include = [] }) ≡ c = loaded_inj e in
      (
        λ m.
            elim ((es.unites acc (record cfg { include = [] }) a).0
              (subst (λ (x : Config). In a (es.get x)) (sym whole) m)) [
                | inl of_includes ↦ elim (merged.0 of_includes) [
                  | inl none_yet ↦ absurd (subst (In a) es.starts none_yet)
                  | inr (inc, q, r, l, t, e', m') ↦ further inc q l t ((below q r e').0 m')
                ]
                | inr of_file ↦ (
                  0,
                  path,
                  refl,
                  record {
                    abs = abs;
                    canon = canon;
                    bytes = bytes;
                    cfg = cfg;
                    found = found;
                    parsed = parsed;
                    has = subst (In a) (es.own cfg) of_file;
                  },
                )
              ],
        λ reached.
            subst (λ (x : Config). In a (es.get x)) whole
              ((es.unites acc (record cfg { include = [] }) a).1 (back acc run merged reached)),
      )
    where
      further :
          (inc q : Bytes)
          → In inc cfg.include
          → resolve_include_path abs home inc ≡ loaded q
          → Reached home q a
          → Reached home path a
      further inc q l t (k, z, chain, d) = (
        suc k,
        z,
        (
          q,
          record {
            abs = abs;
            canon = canon;
            bytes = bytes;
            cfg = cfg;
            entry = inc;
            found = found;
            parsed = parsed;
            listed = l;
            target = t;
          },
          chain,
        ),
        d,
      )

      opened_abs : {x y z u v w : Bytes} → opened x y z ≡ opened u v w → x ≡ u
      opened_abs h = cc

      opened_bytes : {x y z u v w : Bytes} → opened x y z ≡ opened u v w → z ≡ w
      opened_bytes h = cc

      same_cfg : (b : Bytes) (x : Config) → bytes ≡ b → fs.parse b ≡ some x → cfg ≡ x
      same_cfg b x h p = cc

      back :
          (acc : Config)
          → merge_includes each (resolve_include_path abs home) cfg.include empty_config
            ≡ loaded acc
          → In a (es.get acc) ↔ (
              In a (es.get empty_config)
              ⊎ FromIncludes each (resolve_include_path abs home) cfg.include a)
          → Reached home path a
          → In a (es.get acc) ⊎ In a (es.get (record cfg { include = [] }))
      back acc run merged (zero, q, here, d) =
          let at : opened abs canon bytes ≡ opened d.abs d.canon d.bytes =
            sym found
            ∙ subst (λ (z : Bytes). open_file fs z ≡ opened d.abs d.canon d.bytes) (sym here)
                d.found in
          let one = same_cfg d.bytes d.cfg (opened_bytes at) d.parsed in
          inr (
            subst (In a) (sym (es.own cfg))
              (subst (λ (x : Config). In a (es.get x)) (sym one) d.has))
      back acc run merged (suc k, z, (p, i, chain), d) =
          let at : opened abs canon bytes ≡ opened i.abs i.canon i.bytes = sym found ∙ i.found in
          let one = same_cfg i.bytes i.cfg (opened_bytes at) i.parsed in
          let listed : In i.entry cfg.include =
            subst (λ (x : Config). In i.entry x.include) (sym one) i.listed in
          let target : resolve_include_path abs home i.entry ≡ loaded p =
            subst (λ (x : Bytes). resolve_include_path x home i.entry ≡ loaded p)
              (sym (opened_abs at)) i.target in
          let (q, r, t, e) =
            merge_includes-each each (resolve_include_path abs home) cfg.include empty_config acc
              i.entry run listed in
          let to_p : q ≡ p = loaded_inj (sym t ∙ target) in
          inl (
            merged.1 (
              inr (
                i.entry,
                q,
                r,
                listed,
                t,
                e,
                (below q r e).1
                    (k, z, subst (λ (x : Bytes). Chain fs home k x z) (sym to_p) chain, d),
              )))
