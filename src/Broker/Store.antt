-- ===== src/Broker/Store.antt =====
-- The tokens the broker holds (internal/broker/store.go). A token is a buffer at an address; taking
-- a byte slice of a string is a new buffer. A lock or an unlock that fails changes nothing.
pub mod Kept
pub mod Refines
use agent_creance.Prelude.{
  ℕ, suc, Bool, List, [], ◌∷◌, Option, none, some, Bytes, map, if◌then◌else◌, ◌==◌, bytes_eq,
}

-- An instant of expiry; `none` is the zero time of a token that does not expire.
abbrev pub Expiry : Type 0
Expiry = Option ℕ

pub record Entry : Type 0 where
  pub token : ℕ
  pub expires_at : Expiry

pub data MemoryOp : Type 0 where
  locked wiped unlocked : (buffer : ℕ) → MemoryOp

pub record Memory : Type 0 where
  pub contents : ℕ → Bytes
  pub next : ℕ
  -- the latest first
  pub done : List MemoryOp

pub record Store : Type 0 where
  pub entries : List (Bytes × Entry)
  pub memory : Memory

abbrev pub new_store : Store
new_store = record { entries = []; memory = record { contents = λ a. []; next = 0; done = [] } }

abbrev pub write_at : (ℕ → Bytes) → ℕ → Bytes → ℕ → Bytes
write_at m a bytes b = if a == b then bytes else m b

abbrev pub zeroed : Bytes → Bytes
zeroed bytes = map (λ _. 0) bytes

-- `release`: wipe first, unlock second
unfoldable pub release : Memory → Entry → Memory
release m e = record m {
  contents = write_at m.contents e.token (zeroed (m.contents e.token));
  done = unlocked e.token ∷ wiped e.token ∷ m.done;
}

unfoldable pub find : Bytes → List (Bytes × Entry) → Option Entry
find name [] = none
find name ((n, e) ∷ entries) = if bytes_eq n name then some e else find name entries

unfoldable pub put : Bytes → Entry → List (Bytes × Entry) → List (Bytes × Entry)
put name e [] = (name, e) ∷ []
put name e ((n, f) ∷ entries) =
    if bytes_eq n name then (name, e) ∷ entries else (n, f) ∷ put name e entries

abbrev pub release_old : Memory → Option Entry → Memory
release_old m none = m
release_old m (some e) = release m e

-- `Set`, for a buffer that the store takes over
unfoldable pub set : Store → Bytes → ℕ → Expiry → Store
unfolding release find put
set s name token expires_at = record {
  entries = put name (record { token = token; expires_at = expires_at }) s.entries;
  memory =
      release_old (record s.memory { done = locked token ∷ s.memory.done }) (find name s.entries);
}

abbrev pub allocate : Memory → Bytes → Memory
allocate m bytes = record m { contents = write_at m.contents m.next bytes; next = suc m.next }

-- `Set` of the bytes of a string
unfoldable pub set_bytes : Store → Bytes → Bytes → Expiry → Store
unfolding set
set_bytes s name bytes expires_at =
    set (record s { memory = allocate s.memory bytes }) name s.memory.next expires_at

-- `Get`
unfoldable pub get : Store → Bytes → Option Entry
unfolding find
get s name = find name s.entries

-- The loop of `Wipe`
unfoldable pub release_all : Memory → List (Bytes × Entry) → Memory
release_all m [] = m
release_all m ((n, e) ∷ entries) = release_all (release m e) entries

-- `Wipe`
unfoldable pub wipe : Store → Store
unfolding release_all release
wipe s = record { entries = []; memory = release_all s.memory s.entries }

-- What is done to a store while the broker runs
pub data StoreOp : Type 0 where
  sets : (name bytes : Bytes) → Expiry → StoreOp
  wipes : StoreOp

abbrev pub apply : StoreOp → Store → Store
apply (sets name bytes expires_at) s = set_bytes s name bytes expires_at
apply wipes s = wipe s

unfoldable pub run : List StoreOp → Store → Store
run [] s = s
run (op ∷ ops) s = run ops (apply op s)
