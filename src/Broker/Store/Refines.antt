-- ===== src/Broker/Store/Refines.antt =====
-- A store implements a map from names to tokens (internal/broker/store.go).
use agent_creance.Prelude.{
  ℕ, ◌<◌, true, false, List, [], ◌∷◌, Option, none, some, Bytes, if◌then◌else◌, ◌==◌, ==_iff,
  bytes_eq, bytes_eq_iff, arith, ◌≡◌, ◌≢◌, refl, ◌∙◌, ap, inl, inr, Bool-cases,
}
use agent_creance.Broker.Store.{
  Entry, Expiry, Memory, Store, new_store, release, find, release_old, allocate, set_bytes, wipe,
  get, StoreOp, sets, wipes, apply, run, locked,
}
use agent_creance.Broker.Store.Kept.{Kept, find-put, new_store-Kept, apply-Kept}

-- The abstract store: the bytes and the expiry of each credential
abbrev pub Held : Type 0
Held = Bytes → Option (Bytes × Expiry)

abbrev pub held_after : StoreOp → Held → Held
held_after (sets name bytes x) held n = if bytes_eq name n then some (bytes, x) else held n
held_after wipes held n = none

abbrev pub held : List StoreOp → Held → Held
held [] h = h
held (op ∷ ops) h = held ops (held_after op h)

abbrev pub content_of : Memory → Option Entry → Option (Bytes × Expiry)
content_of m none = none
content_of m (some e) = some (m.contents e.token, e.expires_at)

-- What a reader finds under a name
abbrev pub read : Store → Bytes → Option (Bytes × Expiry)
read s name = content_of s.memory (get s name)

abbrev Implements : Store → Held → Type 0
Implements s held = (name : Bytes) → read s name ≡ held name

contents-release_old :
    (m : Memory) (o : Option Entry) (a : ℕ)
    → ((e : Entry) → o ≡ some e → e.token ≢ a)
    → (release_old m o).contents a ≡ m.contents a
unfolding release
contents-release_old m none a h = refl
contents-release_old m (some e) a h = elim (Bool-cases (e.token == a)) [
  | inl same ↦ absurd (h e refl ((==_iff e.token a).0 same))
  | inr other ↦ rw other refl
]

set_bytes-Implements :
    (s : Store) (h : Held) (name bytes : Bytes) (x : Expiry)
    → Kept s
    → Implements s h
    → Implements (set_bytes s name bytes x) (held_after (sets name bytes x) h)
unfolding set_bytes get
set_bytes-Implements s h name bytes x kept imp n = elim (Bool-cases (bytes_eq name n)) [
  | inl same ↦
      rw
        (
          find-put name n new s.entries,
          same,
          contents-release_old handed (find name s.entries) s.memory.next fresh,
          (==_iff s.memory.next s.memory.next).1 refl,
        )
        refl
  | inr other ↦
      rw (find-put name n new s.entries, other) (by_found other (find n s.entries) refl (imp n))
]
  where
    new : Entry
    new = record { token = s.memory.next; expires_at = x }

    handed : Memory
    handed = record (allocate s.memory bytes) { done = locked s.memory.next ∷ s.memory.done }

    fresh : (e : Entry) → find name s.entries ≡ some e → e.token ≢ s.memory.next
    fresh e f same = omega (arith, kept.bounded name e f)

    differ : bytes_eq name n ≡ true → bytes_eq name n ≡ false → ⊥
    differ p q = cc

    below : {a : ℕ} → a < s.memory.next → (s.memory.next == a) ≡ false
    below p = ground arith

    kept_apart :
        bytes_eq name n ≡ false
        → (e : Entry) → find n s.entries ≡ some e
        → (f : Entry) → find name s.entries ≡ some f
        → f.token ≢ e.token
    kept_apart other e p f q same =
        absurd (differ ((bytes_eq_iff name n).1 (kept.apart name n f e q p same)) other)

    by_found :
        bytes_eq name n ≡ false
        → (o : Option Entry) → find n s.entries ≡ o
        → content_of s.memory o ≡ h n
        → content_of (release_old handed (find name s.entries)) o ≡ h n
    by_found other none f i = i
    by_found other (some e) f i =
        rw
          (
            contents-release_old handed (find name s.entries) e.token (kept_apart other e f),
            below (kept.bounded n e f),
          )
          i

apply-Implements :
    (op : StoreOp) (s : Store) (h : Held)
    → Kept s
    → Implements s h
    → Implements (apply op s) (held_after op h)
unfolding wipe get find
apply-Implements (sets name bytes x) s h kept imp = set_bytes-Implements s h name bytes x kept imp
apply-Implements wipes s h kept imp = λ n. refl

run-Implements_from :
    (ops : List StoreOp) (s : Store) (h : Held)
    → Kept s
    → Implements s h
    → Implements (run ops s) (held ops h)
unfolding run
run-Implements_from [] s h kept imp = imp
run-Implements_from (op ∷ ops) s h kept imp =
    run-Implements_from ops (apply op s) (held_after op h) (apply-Kept op s kept)
      (apply-Implements op s h kept imp)

-- What was just set is read.
pub read-set_bytes :
    (s : Store) (name bytes : Bytes) (x : Expiry)
    → Kept s
    → read (set_bytes s name bytes x) name ≡ some (bytes, x)
read-set_bytes s name bytes x kept =
    set_bytes-Implements s (λ n. read s n) name bytes x kept (λ n. refl) name
    ∙ ap (λ b. if b then some (bytes, x) else read s name) ((bytes_eq_iff name name).1 refl)

-- After any sequence of sets and wipes of a new store, a reader finds under each name the bytes and
-- the expiry of the last set of that name since the last wipe, and nothing if there was none.
pub run-read :
    (ops : List StoreOp) (name : Bytes) → read (run ops new_store) name ≡ held ops (λ n. none) name
unfolding get find
run-read ops name = run-Implements_from ops new_store (λ n. none) new_store-Kept (λ n. refl) name
