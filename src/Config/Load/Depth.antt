-- ===== src/Config/Load/Depth.antt =====
-- How deep the files are that the loader reads (internal/config/load.go).
use agent_creance.Prelude.{
  ℕ, zero, suc, ◌<◌, ◌≤◌, Bool, false, List, [], ◌∷◌, ◌++◌, Bytes, arith, ◌≡◌, refl, sym, ◌∙◌, ap,
  subst, some, In,
}
use mathlib.Core.Option.{some-injective}
use agent_creance.Config.Model.{Config}
use agent_creance.Config.Load.{
  levels, max_include_depth, loaded, Files, resolve, resolve_layer, located_home,
}
use agent_creance.Config.Load.Includes.{
  Includes, Chain, then_load-loaded, loaded_inj, never_loaded, resolve-Resolved,
}

-- An include of a file that resolves is resolved one level below.
pub resolve-below :
    (fs : Files) (home : Bytes) (left : ℕ) (optional : Bool) (stack : List Bytes) (p q : Bytes)
    (c : Config)
    → resolve fs home (suc left) optional stack p ≡ loaded c
    → (i : Includes fs home p q)
    → (r : Config) × (resolve fs home left false (stack ++ i.canon ∷ []) q ≡ loaded r)
resolve-below fs home left optional stack p q c h i =
    let res = resolve-Resolved fs home left optional stack p c i.abs i.canon i.bytes h i.found in
    let same : i.cfg ≡ res.cfg = some-injective i.cfg res.cfg (sym i.parsed ∙ res.parsed) in
    let (q', r, t, run) =
      res.each i.entry (subst (λ (x : Config). In i.entry x.include) same i.listed) in
    let to : q' ≡ q = loaded_inj (sym t ∙ i.target) in
    (r, subst (λ x. resolve fs home left false (stack ++ i.canon ∷ []) x ≡ loaded r) to run)

resolve_depth :
    (fs : Files) (home : Bytes) (left k : ℕ) (optional : Bool) (stack : List Bytes) (p q : Bytes)
    (c : Config)
    → resolve fs home left optional stack p ≡ loaded c
    → Chain fs home k p q
    → k < left
unfolding resolve
resolve_depth fs home zero k optional stack p q c h chain = never_loaded max_include_depth h
resolve_depth fs home (suc left) zero optional stack p q c h chain = omega arith
resolve_depth fs home (suc left) (suc k) optional stack p q c h (next, i, rest) =
    let (r, run) = resolve-below fs home left optional stack p next c h i in
    omega (arith, resolve_depth fs home left k false (stack ++ i.canon ∷ []) next q r run rest)

Chain-append :
    (fs : Files) (home : Bytes) (j k : ℕ) (p q r : Bytes)
    → Chain fs home j p q
    → Chain fs home k q r
    → (n : ℕ) × (k ≤ n) × (j ≤ n) × Chain fs home n p r
Chain-append fs home zero k p q r e c =
    (k, omega arith, omega arith, subst (λ x. Chain fs home k x r) (sym e) c)
Chain-append fs home (suc j) k p q r (m, i, rest) c =
    let (n, a, b, d) = Chain-append fs home j k m q r rest c in
    (suc n, omega arith, omega arith, (m, i, d))

-- Going round a cycle often enough makes a chain of any length.
cycle-Chain :
    (fs : Files) (home : Bytes) (k times : ℕ) (q : Bytes)
    → Chain fs home (suc k) q q
    → (n : ℕ) × (times ≤ n) × Chain fs home n q q
cycle-Chain fs home k zero q c = (0, omega arith, refl)
cycle-Chain fs home k (suc times) q (m, i, rest) =
    let (n, a, d) = cycle-Chain fs home k times q (m, i, rest) in
    let (n', b, _, d') = Chain-append fs home k n m q q rest d in (suc n', omega arith, (m, i, d'))

-- A layer resolves only if every chain of includes that starts at its file has at most 10 links; so
-- no file that it leads to includes itself, directly or through others.
pub resolve_layer_depth :
    (fs : Files) (home : Bytes) (optional : Bool) (path : Bytes) (c : Config)
    → fs.home ≡ some home
    → resolve_layer fs optional path ≡ loaded c
    → ((k : ℕ) (q : Bytes) → Chain fs home k path q → k ≤ 10)
      × ((j k : ℕ) (q : Bytes) → Chain fs home j path q → ¬ Chain fs home (suc k) q q)
unfolding resolve_layer
resolve_layer_depth fs home optional path c at h =
    let (home', l, h') = then_load-loaded (located_home fs.home) _ h in
    let same : home' ≡ home = loaded_inj (sym l ∙ ap located_home at) in
    let (c', run, _) = then_load-loaded (resolve fs home' levels optional [] path) _ h' in
    let run' : resolve fs home levels optional [] path ≡ loaded c' =
      subst (λ x. resolve fs x levels optional [] path ≡ loaded c') same run in
    let bound = λ (k : ℕ) (q : Bytes) (ch : Chain fs home k path q).
      resolve_depth fs home levels k optional [] path q c' run' ch in
    (
      λ k q ch. omega (arith, bound k q ch),
      λ j k q to loop.
          let (n, a, around) = cycle-Chain fs home k 11 q loop in
          let (m, b, _, whole) = Chain-append fs home j n path q q to around in
          absurd (omega (arith, bound m q whole)),
    )
