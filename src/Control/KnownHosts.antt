-- ===== src/Control/KnownHosts.antt =====
-- internal/control/knownhosts.go: the fingerprints of clients, in memory and in a file.
pub mod Saved
mod Runs
use reversproxy.Base.{
  ℕ, ◌≡◌, Bool, true, false, not, List, [], ◌∷◌, Option, none, some, map, if◌then◌else◌, ◌||◌, ltb,
  ◌==◌, take, Str, is_empty, Map, lookup, insert, delete,
}

pub record KnownHost : Type 0 where
  pub name : Str
  pub fingerprint : Str

-- yaml.v3 at one type: what was marshalled is read back.
pub record Yaml : Type 0 where
  pub marshal : List KnownHost → Option (List ℕ)
  pub unmarshal : List ℕ → Option (List KnownHost)
  pub unmarshal-marshal :
      (hosts : List KnownHost) (bytes : List ℕ)
      → marshal hosts ≡ some bytes
      → unmarshal bytes ≡ some hosts

pub record KnownHosts : Type 0 where
  pub path : Str
  pub hosts : Map Str

-- The file at the path and the temporary one beside it.
pub record Disk : Type 0 where
  pub file : Option (List ℕ)
  pub temp : Option (List ℕ)

-- What os.ReadFile finds.
pub data Reading : Type 0 where
  missing failing : Reading
  content : List ℕ → Reading

-- How a rewrite goes: the write of the temporary file fails after some bytes, or the rename fails.
pub data Rewrite : Type 0 where
  write_fails : ℕ → Rewrite
  rename_fails : Rewrite
  goes_well : Rewrite

-- The order of Go strings, byte by byte.
pub str_lt : Str → Str → Bool
str_lt [] [] = false
str_lt [] (y ∷ ys) = true
str_lt (x ∷ xs) [] = false
str_lt (x ∷ xs) (y ∷ ys) = let rest = str_lt xs ys in if x == y then rest else ltb x y

pub insert_sorted : Str → Str → List KnownHost → List KnownHost
unfolding str_lt
insert_sorted n fp [] = record { name = n; fingerprint = fp } ∷ []
insert_sorted n fp (h ∷ hs) =
    let rest = insert_sorted n fp hs in
    if str_lt n h.name then record { name = n; fingerprint = fp } ∷ h ∷ hs else h ∷ rest

-- The entries sorted by name; sort.Slice is modelled by its result, as names differ.
pub list_hosts : Map Str → List KnownHost
unfolding insert_sorted
list_hosts [] = []
list_hosts ((n, fp) ∷ m) = insert_sorted n fp (list_hosts m)

-- The loop of LoadKnownHosts, which drops entries with an empty field.
pub load_each : List KnownHost → Map Str → Map Str
load_each [] m = m
load_each (h ∷ hs) m =
    load_each hs
      (if is_empty h.name || is_empty h.fingerprint then m else insert h.name h.fingerprint m)

pub load_known_hosts : Yaml → Str → Reading → Option KnownHosts
unfolding load_each
load_known_hosts yaml path missing = some (record { path = path; hosts = [] })
load_known_hosts yaml path failing = none
load_known_hosts yaml path (content bytes) = elim (yaml.unmarshal bytes) [
  | none ↦ none
  | some hs ↦ some (record { path = path; hosts = load_each hs [] })
]

pub rewrite_file : List ℕ → Rewrite → Disk → Bool × Disk
rewrite_file data_bytes (write_fails k) disk =
    (false, record disk { temp = some (take k data_bytes) })
rewrite_file data_bytes rename_fails disk = (false, record disk { temp = some data_bytes })
rewrite_file data_bytes goes_well disk = (true, record { file = some data_bytes; temp = none })

-- writeLocked: whether it gives no error, and the files.
pub write_locked : Yaml → KnownHosts → Rewrite → Disk → Bool × Disk
unfolding list_hosts rewrite_file
write_locked yaml k r disk =
    if is_empty k.path then (true, disk) else (elim (yaml.marshal (list_hosts k.hosts)) [
      | none ↦ (false, disk)
      | some bytes ↦ rewrite_file bytes r disk
    ])

unfoldable pub lookup_host : Str → KnownHosts → Option Str
lookup_host name k = lookup name k.hosts

unfoldable pub with_host : Str → Str → KnownHosts → KnownHosts
with_host name fp k = record k { hosts = insert name fp k.hosts }

-- The map is changed before the file is written, and stays so if that fails.
unfoldable pub add_host :
    Yaml → Str → Str → Rewrite → KnownHosts → Disk → (Bool × Disk) × KnownHosts
unfolding write_locked with_host
add_host yaml name fp r k disk =
    (write_locked yaml (with_host name fp k) r disk, with_host name fp k)

unfoldable pub without_host : Str → KnownHosts → KnownHosts
without_host name k = record k { hosts = delete name k.hosts }

unfoldable pub remove_host : Yaml → Str → Rewrite → KnownHosts → Disk → (Bool × Disk) × KnownHosts
unfolding write_locked without_host
remove_host yaml name r k disk =
    (write_locked yaml (without_host name k) r disk, without_host name k)
