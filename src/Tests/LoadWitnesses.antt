-- ===== src/Tests/LoadWitnesses.antt =====
-- The loader's theorems at a project with one include.
use agent_creance.Prelude.{
  ℕ, suc, ◌≤◌, true, false, List, [], ◌∷◌, none, some, Bytes, codes, bytes_eq, if◌then◌else◌, ◌≡◌,
  refl, sym, ◌∙◌, ap, ◌↔◌, ◌⊎◌,
}
use agent_creance.Strings.{has_prefix, split, split_from, join}
use agent_creance.FilePath.{
  elements, clean_from, clean_step, clean, join_path, up_to_slash, dir, rel, rel_elements,
}
use agent_creance.Config.Model.{Config}
use agent_creance.Config.Merge.{merge, concat}
use agent_creance.Config.Merge.Dedupe.{dedupe, dedupe_from}
use agent_creance.Config.Load.{
  loaded, refused, include_out_of_scope, FileRead, missing, failing, holding, Files, empty_config,
  path_within, include_target, resolve_include_path, opened, read_at, open_file, merge_includes,
  resolve, resolve_layer, validate_effective, load, global_path,
}
use agent_creance.Config.Load.Includes.{Chain}
use agent_creance.Config.Load.Depth.{resolve_layer_depth}
use agent_creance.Config.Load.Scope.{IsUnder, resolve_include_path_iff}
use agent_creance.Config.Load.Watch.{resolve_files}
use agent_creance.Config.Load.Watch.Complete.{IsUnaliased, IsCovered}
use agent_creance.Config.Load.Watch.Exists.{load_watched}

abbrev pub home : Bytes
home = codes "/h"

abbrev pub project : Bytes
project = codes "/p/a"

abbrev parent : Config
parent = record empty_config { include = codes "b" ∷ [] }

abbrev child : Config
child = record empty_config { env = λ k. some (codes "v") }

abbrev read_sample : Bytes → FileRead
read_sample path =
    if bytes_eq path project
    then holding (codes "A")
    else if bytes_eq path (codes "/p/b")
    then holding (codes "B")
    else missing

abbrev pub files : Files
files = record {
  absolute = λ path. some path;
  read = read_sample;
  eval_symlinks = λ path. none;
  home = some home;
  parse = λ bytes. if bytes_eq bytes (codes "A") then some parent else some child;
  warnings = λ cfg. [];
}

abbrev layer : Config
layer =
    record (merge (merge empty_config (merge empty_config child))
      (record parent { include = [] })) { include = [] }

layer_run : resolve_layer files false project ≡ loaded layer
unfolding resolve_layer resolve merge_includes open_file resolve_include_path path_within
    include_target rel rel_elements elements clean_from clean_step split split_from has_prefix join
    join_path clean dir up_to_slash bytes_eq dedupe dedupe_from concat
layer_run = refl

resolve_layer_depth_example :
    ((k : ℕ) (q : Bytes) → Chain files home k project q → k ≤ 10)
    × ((j k : ℕ) (q : Bytes) → Chain files home j project q → ¬ Chain files home (suc k) q q)
resolve_layer_depth_example = resolve_layer_depth files home false project layer refl layer_run

-- The canonical path is the absolute one.
opened_sample :
    (p a canon x : Bytes)
    → open_file files p ≡ opened a canon x
    → (a ≡ canon) × (files.read a ≡ holding x)
unfolding open_file
opened_sample p a canon x h = by_read (read_sample p) refl h
  where
    by_read :
        (r : FileRead)
        → read_sample p ≡ r
        → read_at files p r ≡ opened a canon x
        → (a ≡ canon) × (files.read a ≡ holding x)
    by_read missing e k = cc
    by_read failing e k = cc
    by_read (holding bytes) e k = (cc, cc)

holding_inj : {x y : Bytes} → holding x ≡ holding y → x ≡ y
holding_inj h = cc

pub files-IsUnaliased : IsUnaliased files
files-IsUnaliased p q a b canon x y h k =
    let (ha, hx) = opened_sample p a canon x h in
    let (hb, hy) = opened_sample q b canon y k in
    let same : a ≡ b = ha ∙ sym hb in (same, holding_inj (sym hx ∙ (ap files.read same ∙ hy)))

abbrev pub effective_config : Config
effective_config =
    record (merge (merge empty_config empty_config)
      (merge (merge empty_config (merge empty_config child)) (record parent { include = [] }))) {
        include = [];
        warnings = [];
      }

pub load_run : load files project ≡ loaded effective_config
unfolding load validate_effective resolve merge_includes open_file resolve_include_path path_within
    include_target rel rel_elements elements clean_from clean_step split split_from has_prefix join
    join_path clean dir up_to_slash bytes_eq dedupe dedupe_from concat
load_run = refl

load_watched_example :
    (out : List Bytes) × (resolve_files files project ≡ loaded out)
    × ((k : ℕ) (p q : Bytes)
        → (p ≡ project) ⊎ (p ≡ global_path home)
        → Chain files home k p q
        → IsCovered files home out q)
load_watched_example =
    load_watched files home project effective_config files-IsUnaliased refl load_run

absolute_project : has_prefix project (codes "/") ≡ true
unfolding has_prefix
absolute_project = refl

absolute_home : has_prefix home (codes "/") ≡ true
unfolding has_prefix
absolute_home = refl

resolve_include_path_iff_example :
    ((resolve_include_path project home (codes "../x")
        ≡ loaded (include_target project home (codes "../x")))
      ↔ (IsUnder (dir project) (include_target project home (codes "../x"))
          ⊎ IsUnder
              (join_path home (codes ".config"))
              (include_target project home (codes "../x"))))
    × ((resolve_include_path project home (codes "../x")
          ≡ loaded (include_target project home (codes "../x")))
        ⊎ (resolve_include_path project home (codes "../x") ≡ refused include_out_of_scope))
resolve_include_path_iff_example =
    resolve_include_path_iff project home (codes "../x") absolute_project absolute_home

-- An include that climbs out of the project is refused.
climbing_run : resolve_include_path project home (codes "../x") ≡ refused include_out_of_scope
unfolding resolve_include_path path_within include_target rel rel_elements elements clean_from
    clean_step split split_from has_prefix join join_path clean dir up_to_slash bytes_eq
climbing_run = refl
