-- ===== src/State/Apart.antt =====
-- Projects do not share their files (internal/state/state.go).
use agent_creance.Prelude.{
  some_inj, true, false, List, [], ◌∷◌, ◌++◌, Option, none, some, Bytes, codes, bytes_eq,
  bytes_eq_iff, arith, subst, if◌then◌else◌, ◌≡◌, refl, sym, ◌∙◌, ap, ap₂, ◌↔◌,
}
use mathlib.Core.List.{reverse, reverse-append, reverse-reverse}
use agent_creance.Strings.{contains_byte}
use agent_creance.FilePath.{is_abs, elements, join_path}
use agent_creance.FilePath.Within.{IsName}
use agent_creance.FilePath.Clean.{elements-join_path, join_path_abs}
use agent_creance.State.{
  Paths, Layout, LayoutFile, policy_json, network_sb, proxy_profile_sb, ca_profile_sb,
  keychain_profile_sb, claude_profile_sb, config_profile_sb, broker_profile_sb, proxy_lock,
  broker_sock, egress_jsonl, egress_jsonl_rotated, session_overlay, file_name, layout_file,
  cache_root, cache_dir, projects_root, project_root, layout_at, canonical_path, resolve_layout,
  then_some,
}

passes-IsName :
    (e : Bytes)
    → bytes_eq e [] ≡ false
    → bytes_eq e (codes "..") ≡ false
    → bytes_eq e (codes ".") ≡ false
    → contains_byte b'/' e ≡ false
    → IsName e
passes-IsName e filled not_up not_dot whole = record {
  filled = λ h. differ e [] h filled;
  not_up = λ h. differ e (codes "..") h not_up;
  not_dot = λ h. differ e (codes ".") h not_dot;
  whole = whole;
}
  where
    differ : (a b : Bytes) → a ≡ b → bytes_eq a b ≡ false → ⊥
    differ a b h k = ground (arith, bytes_eq_iff a b)

file_name-IsName : (f : LayoutFile) → IsName (file_name f)
unfolding contains_byte bytes_eq
file_name-IsName policy_json = passes-IsName _ refl refl refl refl
file_name-IsName network_sb = passes-IsName _ refl refl refl refl
file_name-IsName proxy_profile_sb = passes-IsName _ refl refl refl refl
file_name-IsName ca_profile_sb = passes-IsName _ refl refl refl refl
file_name-IsName keychain_profile_sb = passes-IsName _ refl refl refl refl
file_name-IsName claude_profile_sb = passes-IsName _ refl refl refl refl
file_name-IsName config_profile_sb = passes-IsName _ refl refl refl refl
file_name-IsName broker_profile_sb = passes-IsName _ refl refl refl refl
file_name-IsName proxy_lock = passes-IsName _ refl refl refl refl
file_name-IsName broker_sock = passes-IsName _ refl refl refl refl
file_name-IsName egress_jsonl = passes-IsName _ refl refl refl refl
file_name-IsName egress_jsonl_rotated = passes-IsName _ refl refl refl refl
file_name-IsName session_overlay = passes-IsName _ refl refl refl refl

abbrev all_files : List LayoutFile
all_files =
    policy_json ∷ network_sb ∷ proxy_profile_sb ∷ ca_profile_sb ∷ keychain_profile_sb
    ∷ claude_profile_sb ∷ config_profile_sb ∷ broker_profile_sb ∷ proxy_lock ∷ broker_sock
    ∷ egress_jsonl ∷ egress_jsonl_rotated ∷ session_overlay ∷ []

abbrev search : Bytes → List LayoutFile → LayoutFile
search name [] = policy_json
search name (f ∷ fs) = if bytes_eq name (file_name f) then f else search name fs

search_back : (f : LayoutFile) → search (file_name f) all_files ≡ f
unfolding bytes_eq
search_back policy_json = refl
search_back network_sb = refl
search_back proxy_profile_sb = refl
search_back ca_profile_sb = refl
search_back keychain_profile_sb = refl
search_back claude_profile_sb = refl
search_back config_profile_sb = refl
search_back broker_profile_sb = refl
search_back proxy_lock = refl
search_back broker_sock = refl
search_back egress_jsonl = refl
search_back egress_jsonl_rotated = refl
search_back session_overlay = refl

snoc_inj :
    {A : Type 0} (xs ys : List A) (a b : A) → xs ++ a ∷ [] ≡ ys ++ b ∷ [] → (xs ≡ ys) × (a ≡ b)
snoc_inj xs ys a b h =
    let flip : b ∷ reverse ys ≡ a ∷ reverse xs =
      sym (reverse-append ys (b ∷ [])) ∙ ap reverse (sym h) ∙ reverse-append xs (a ∷ []) in
    (
      sym (reverse-reverse xs) ∙ ap reverse (tails (sym flip)) ∙ reverse-reverse ys,
      heads (sym flip),
    )
  where
    heads : {A : Type 0} {a b : A} {xs ys : List A} → a ∷ xs ≡ b ∷ ys → a ≡ b
    heads h = cc

    tails : {A : Type 0} {a b : A} {xs ys : List A} → a ∷ xs ≡ b ∷ ys → xs ≡ ys
    tails h = cc

-- Two names joined to two absolute paths give the same path only where both are the same.
join_path_inj :
    (p q n m : Bytes)
    → is_abs p ≡ true
    → is_abs q ≡ true
    → IsName n
    → IsName m
    → join_path p n ≡ join_path q m
    → (elements p ≡ elements q) × (n ≡ m)
join_path_inj p q n m hp hq hn hm h =
    snoc_inj (elements p) (elements q) n m
      (sym (elements-join_path p n hp hn) ∙ ap elements h ∙ elements-join_path q m hq hm)

then_some-some :
    {A B : Type 0} (o : Option A) (f : A → Option B) {b : B}
    → then_some o f ≡ some b
    → (a : A) × (o ≡ some a) × (f a ≡ some b)
then_some-some none f h = cc
then_some-some (some a) f h = (a, refl, h)

-- What `Resolve` returns: the directory of the hash below that of all projects
record At (ps : Paths) (l : Layout) : Type 0 where
  projects : Bytes
  among : projects_root ps ≡ some projects
  named : Bytes
  hashed : l.hash ≡ ps.hash_path named
  rooted : l.root ≡ join_path projects l.hash

resolve_layout-At :
    (ps : Paths) (path : Bytes) (l : Layout) → resolve_layout ps path ≡ some l → At ps l
unfolding resolve_layout
resolve_layout-At ps path l h =
    let (c, _, k) = then_some-some (canonical_path ps path) (layout_at ps) h in
    let (root, r, e) = then_some-some (project_root ps (ps.hash_path c)) _ k in
    let (projects, p, q) = then_some-some (projects_root ps) _ r in
    subst (At ps) (some_inj e) (record {
      projects = projects;
      among = p;
      named = c;
      hashed = refl;
      rooted = sym (some_inj q);
    })

projects_root-abs :
    (ps : Paths) (projects : Bytes)
    → ((cache : Bytes) → cache_root ps ≡ some cache → is_abs cache ≡ true)
    → projects_root ps ≡ some projects
    → is_abs projects ≡ true
projects_root-abs ps projects abs h =
    let (base, b, e) = then_some-some (cache_dir ps) _ h in
    let (cache, c, e') = then_some-some (cache_root ps) _ b in
    subst (λ (x : Bytes). is_abs x ≡ true) (some_inj e)
      (join_path_abs base (codes "projects") (
        subst (λ (x : Bytes). is_abs x ≡ true) (some_inj e')
          (join_path_abs cache (codes "agent-creance") (abs cache c))))

-- Where the cache directory is absolute and hashes of paths are names of files, two files of the
-- state of resolved projects have the same path exactly if they are the same file of projects with
-- the same hash.
pub layout_file_iff :
    (ps : Paths) (path path' : Bytes) (l l' : Layout) (f f' : LayoutFile)
    → ((cache : Bytes) → cache_root ps ≡ some cache → is_abs cache ≡ true)
    → ((c : Bytes) → IsName (ps.hash_path c))
    → resolve_layout ps path ≡ some l
    → resolve_layout ps path' ≡ some l'
    → (layout_file l f ≡ layout_file l' f') ↔ ((f ≡ f') × (l.hash ≡ l'.hash))
layout_file_iff ps path path' l l' f f' abs names h h' =
    let at = resolve_layout-At ps path l h in
    let at' = resolve_layout-At ps path' l' h' in
    let rooted = projects_root-abs ps at.projects abs at.among in
    let same : at.projects ≡ at'.projects = some_inj (sym at.among ∙ at'.among) in
    let rooted' = projects_root-abs ps at'.projects abs at'.among in
    let name = subst IsName (sym at.hashed) (names at.named) in
    let name' = subst IsName (sym at'.hashed) (names at'.named) in
    let root_abs =
      subst (λ (x : Bytes). is_abs x ≡ true) (sym at.rooted)
        (join_path_abs at.projects l.hash rooted) in
    let root_abs' =
      subst (λ (x : Bytes). is_abs x ≡ true) (sym at'.rooted)
        (join_path_abs at'.projects l'.hash rooted') in
    (
      λ e.
          let (roots, files) =
            join_path_inj l.root l'.root (file_name f) (file_name f') root_abs root_abs'
              (file_name-IsName f) (file_name-IsName f') e in
          (
            sym (search_back f) ∙ ap (λ (n : Bytes). search n all_files) files ∙ search_back f',
            (snoc_inj (elements at.projects) (elements at'.projects) l.hash l'.hash (
                sym (elements-join_path at.projects l.hash rooted name)
                ∙ ap elements (sym at.rooted)
                ∙ roots
                ∙ ap elements at'.rooted
                ∙ elements-join_path at'.projects l'.hash rooted' name')).1,
          ),
      λ (one, hashes).
          ap₂ join_path (at.rooted ∙ ap₂ join_path same hashes ∙ sym at'.rooted) (ap file_name one),
    )
