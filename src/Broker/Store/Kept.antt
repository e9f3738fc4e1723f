-- ===== src/Broker/Store/Kept.antt =====
-- Which buffers hold a token (internal/broker/store.go).
use agent_creance.Prelude.{
  some_inj, ℕ, suc, ◌<◌, true, false, List, [], ◌∷◌, Option, none, some, Bytes, if◌then◌else◌, ◌==◌,
  ==_iff, bytes_eq, bytes_eq_iff, bytes_eq_refl, arith, All, ◌≡◌, refl, sym, ◌∙◌, ap, subst, ◌⊎◌,
  inl, inr, Bool-cases,
}
use agent_creance.Broker.Store.{
  Entry, Expiry, Memory, Store, new_store, zeroed, release, find, put, release_old, allocate,
  set_bytes, release_all, wipe, StoreOp, sets, wipes, apply, run, locked,
}

abbrev pub IsZero : Bytes → Type 0
IsZero bytes = All (λ (c : ℕ). c ≡ 0) bytes

pub record Kept (s : Store) : Type 0 where
  -- what is held was handed over
  pub bounded : (n : Bytes) (e : Entry) → find n s.entries ≡ some e → e.token < s.memory.next
  -- no two names hold one buffer
  pub apart :
      (n m : Bytes) (e f : Entry)
      → find n s.entries ≡ some e
      → find m s.entries ≡ some f
      → e.token ≡ f.token
      → n ≡ m
  -- what was handed over and is not held is zero
  pub cleaned :
      (a : ℕ)
      → a < s.memory.next
      → ((n : Bytes) × (e : Entry) × (find n s.entries ≡ some e) × (e.token ≡ a))
        ⊎ IsZero (s.memory.contents a)

zeroed-IsZero : (bytes : Bytes) → IsZero (zeroed bytes)
zeroed-IsZero [] = tt
zeroed-IsZero (c ∷ bytes) = (refl, zeroed-IsZero bytes)

pub find-put :
    (n m : Bytes) (e : Entry) (es : List (Bytes × Entry))
    → find m (put n e es) ≡ (if bytes_eq n m then some e else find m es)
unfolding find put
find-put n m e [] = refl
find-put n m e ((k, f) ∷ es) =
    ground (arith, bytes_eq_iff k n, bytes_eq_iff n m, bytes_eq_iff k m, find-put n m e es)

find-put_self : (n : Bytes) (e : Entry) (es : List (Bytes × Entry)) → find n (put n e es) ≡ some e
find-put_self n e es = rw (find-put n n e es, bytes_eq_refl n) refl

-- A release zeroes its buffer and leaves the others.
release-IsZero :
    (m : Memory) (e : Entry) (a : ℕ) → IsZero (m.contents a) → IsZero ((release m e).contents a)
unfolding release
release-IsZero m e a z = elim (Bool-cases (e.token == a)) [
  | inl same ↦ rw same (zeroed-IsZero (m.contents e.token))
  | inr other ↦ rw other z
]

release_self : (m : Memory) (e : Entry) → IsZero ((release m e).contents e.token)
unfolding release
release_self m e = rw ((==_iff e.token e.token).1 refl) (zeroed-IsZero (m.contents e.token))

release_old-IsZero :
    (m : Memory) (o : Option Entry) (a : ℕ)
    → IsZero (m.contents a)
    → IsZero ((release_old m o).contents a)
release_old-IsZero m none a z = z
release_old-IsZero m (some e) a z = release-IsZero m e a z

release_old-next : (m : Memory) (o : Option Entry) → (release_old m o).next ≡ m.next
unfolding release
release_old-next m none = refl
release_old-next m (some e) = refl

-- Who is found after a put: the new entry under its own name, and else who was found before.
put_cases :
    (n m : Bytes) (e f : Entry) (es : List (Bytes × Entry))
    → find m (put n e es) ≡ some f
    → ((n ≡ m) × (e ≡ f)) ⊎ (find m es ≡ some f)
put_cases n m e f es h = elim (Bool-cases (bytes_eq n m)) [
  | inl same ↦ inl ((bytes_eq_iff n m).0 same, some_inj (sym (hit same) ∙ h))
  | inr other ↦ inr (sym (miss other) ∙ h)
]
  where
    hit : bytes_eq n m ≡ true → find m (put n e es) ≡ some e
    hit b = rw (find-put n m e es, b) refl

    miss : bytes_eq n m ≡ false → find m (put n e es) ≡ find m es
    miss b = rw (find-put n m e es, b) refl

pub set_bytes-Kept :
    (s : Store) (name bytes : Bytes) (x : Expiry) → Kept s → Kept (set_bytes s name bytes x)
unfolding set_bytes
set_bytes-Kept s name bytes x kept = record {
  bounded = λ n e h. rw next (elim (put_cases name n new e s.entries h) [
    | inl (_, same) ↦ subst (λ (y : Entry). y.token < suc s.memory.next) same (omega arith)
    | inr old ↦ omega (arith, kept.bounded n e old)
  ]);
  apart = λ n m e f h k same. elim (put_cases name n new e s.entries h) [
    | inl (here, is_new) ↦ elim (put_cases name m new f s.entries k) [
      | inl (there, _) ↦ sym here ∙ there
      | inr old ↦ absurd (not_next (ap (λ (y : Entry). y.token) is_new) same (kept.bounded m f old))
    ]
    | inr old ↦ elim (put_cases name m new f s.entries k) [
      | inl (there, is_new) ↦
          absurd (not_next (ap (λ (y : Entry). y.token) is_new) (sym same) (kept.bounded n e old))
      | inr old' ↦ kept.apart n m e f old old' same
    ]
  ];
  cleaned = λ a h. elim (Bool-cases (s.memory.next == a)) [
    | inl here ↦ inl (name, new, find-put_self name new s.entries, (==_iff s.memory.next a).0 here)
    | inr other ↦ elim (kept.cleaned a (below other (subst (λ (k : ℕ). a < k) next h))) [
      | inr zero ↦ inr (release_old-IsZero handed (find name s.entries) a (untouched a other zero))
      | inl (n, e, found, at) ↦ elim (Bool-cases (bytes_eq name n)) [
        | inl same ↦ inr (
            subst (λ (k : ℕ). IsZero ((release_old handed (find name s.entries)).contents k)) at
              (gone e (
                subst (λ (k : Bytes). find k s.entries ≡ some e)
                  (sym ((bytes_eq_iff name n).0 same)) found)))
        | inr apart ↦ inl (n, e, still n apart ∙ found, at)
      ]
    ]
  ];
}
  where
    new : Entry
    new = record { token = s.memory.next; expires_at = x }

    handed : Memory
    handed = record (allocate s.memory bytes) { done = locked s.memory.next ∷ s.memory.done }

    below : {a : ℕ} → (s.memory.next == a) ≡ false → a < suc s.memory.next → a < s.memory.next
    below p q = ground arith

    untouched :
        (a : ℕ)
        → (s.memory.next == a) ≡ false
        → IsZero (s.memory.contents a)
        → IsZero (handed.contents a)
    untouched a p z = rw p z

    gone :
        (e : Entry)
        → find name s.entries ≡ some e
        → IsZero ((release_old handed (find name s.entries)).contents e.token)
    gone e h =
        subst (λ (o : Option Entry). IsZero ((release_old handed o).contents e.token)) (sym h)
          (release_self handed e)

    still :
        (n : Bytes) → bytes_eq name n ≡ false → find n (put name new s.entries) ≡ find n s.entries
    still n b = rw (find-put name n new s.entries, b) refl

    next : (set_bytes s name bytes x).memory.next ≡ suc s.memory.next
    next = release_old-next _ (find name s.entries)

    not_next : {a b : ℕ} → s.memory.next ≡ a → a ≡ b → b < s.memory.next → ⊥
    not_next p q h = omega arith

release_all-IsZero :
    (m : Memory) (es : List (Bytes × Entry)) (a : ℕ)
    → IsZero (m.contents a)
    → IsZero ((release_all m es).contents a)
unfolding release_all
release_all-IsZero m [] a z = z
release_all-IsZero m ((n, e) ∷ es) a z =
    release_all-IsZero (release m e) es a (release-IsZero m e a z)

release_all-found :
    (m : Memory) (es : List (Bytes × Entry)) (n : Bytes) (e : Entry)
    → find n es ≡ some e
    → IsZero ((release_all m es).contents e.token)
unfolding release_all find
release_all-found m [] n e h = cc
release_all-found m ((k, f) ∷ es) n e h = elim (Bool-cases (bytes_eq k n)) [
  | inl here ↦
      subst (λ (y : Entry). IsZero ((release_all (release m f) es).contents y.token)) (first here)
        (release_all-IsZero (release m f) es f.token (release_self m f))
  | inr later ↦ release_all-found (release m f) es n e (second later)
]
  where
    first : bytes_eq k n ≡ true → f ≡ e
    first b = some_inj (sym (hit b) ∙ h)
      where
        hit : bytes_eq k n ≡ true → find n ((k, f) ∷ es) ≡ some f
        hit b = rw b refl

    second : bytes_eq k n ≡ false → find n es ≡ some e
    second b = sym (miss b) ∙ h
      where
        miss : bytes_eq k n ≡ false → find n ((k, f) ∷ es) ≡ find n es
        miss b = rw b refl

release_all-next : (m : Memory) (es : List (Bytes × Entry)) → (release_all m es).next ≡ m.next
unfolding release_all release
release_all-next m [] = refl
release_all-next m ((n, e) ∷ es) = release_all-next (release m e) es

-- A wipe leaves no entry and no byte of a token.
wipe_zeroes :
    (s : Store) → Kept s → (a : ℕ) → a < s.memory.next → IsZero ((wipe s).memory.contents a)
unfolding wipe
wipe_zeroes s kept a h = elim (kept.cleaned a h) [
  | inl (n, e, found, at) ↦
      subst (λ (k : ℕ). IsZero ((release_all s.memory s.entries).contents k)) at
        (release_all-found s.memory s.entries n e found)
  | inr z ↦ release_all-IsZero s.memory s.entries a z
]

pub wipe-Kept : (s : Store) → Kept s → Kept (wipe s)
unfolding find wipe
wipe-Kept s kept = record {
  bounded = λ n e h. absurd (none_found n e h);
  apart = λ n m e f h k same. absurd (none_found n e h);
  cleaned = λ a h. inr (wipe_zeroes s kept a (subst (λ (k : ℕ). a < k) kept_next h));
}
  where
    kept_next : (wipe s).memory.next ≡ s.memory.next
    kept_next = release_all-next s.memory s.entries

    none_found : (n : Bytes) (e : Entry) → find n (wipe s).entries ≡ some e → ⊥
    none_found n e h = cc

pub apply-Kept : (op : StoreOp) (s : Store) → Kept s → Kept (apply op s)
apply-Kept (sets name bytes x) s k = set_bytes-Kept s name bytes x k
apply-Kept wipes s k = wipe-Kept s k

run-Kept_from : (ops : List StoreOp) (s : Store) → Kept s → Kept (run ops s)
unfolding run
run-Kept_from [] s k = k
run-Kept_from (op ∷ ops) s k = run-Kept_from ops (apply op s) (apply-Kept op s k)

pub new_store-Kept : Kept new_store
unfolding find
new_store-Kept = record {
  bounded = λ n e h. cc;
  apart = λ n m e f h k same. cc;
  cleaned = λ a h. absurd (omega arith);
}

-- After any sequence of sets and wipes of a new store, every buffer that it took over is held under
-- exactly one name or is all zeros.
pub run-Kept : (ops : List StoreOp) → Kept (run ops new_store)
run-Kept ops = run-Kept_from ops new_store new_store-Kept

-- A wipe at the end of any sequence of sets and wipes zeroes every buffer that the store ever took
-- over, and finds no credential any more.
pub run-wipe :
    (ops : List StoreOp) (a : ℕ) (name : Bytes)
    → a < (run ops new_store).memory.next
    → IsZero ((wipe (run ops new_store)).memory.contents a)
      × (find name (wipe (run ops new_store)).entries ≡ none)
unfolding wipe find
run-wipe ops a name h = (wipe_zeroes (run ops new_store) (run-Kept ops) a h, refl)
