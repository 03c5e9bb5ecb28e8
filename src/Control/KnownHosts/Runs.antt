-- ===== src/Control/KnownHosts/Runs.antt =====
-- internal/control/knownhosts.go: a store that is written and loaded.
use reversproxy.Base.{
  ℕ, ◌≡◌, refl, true, false, List, [], ◌∷◌, ◌++◌, Option, none, some, Str, codes, is_empty, lookup,
  length, take, drop, take-length_append, drop-length_append,
}
use reversproxy.Control.KnownHosts.{
  KnownHost, Yaml, KnownHosts, Disk, content, goes_well, load_known_hosts, write_locked,
  lookup_host,
}
use reversproxy.Control.KnownHosts.Saved.{write_locked-load_known_hosts}

-- An encoding of no host and of one host; it gives up on more.
abbrev marshal_one : List KnownHost → Option (List ℕ)
marshal_one [] = some []
marshal_one (h ∷ []) = some (length h.name ∷ h.name ++ h.fingerprint)
marshal_one (h ∷ i ∷ hs) = none

abbrev unmarshal_one : List ℕ → Option (List KnownHost)
unmarshal_one [] = some []
unmarshal_one (n ∷ xs) = some (record { name = take n xs; fingerprint = drop n xs } ∷ [])

unmarshal_one-marshal_one :
    (hosts : List KnownHost) (bytes : List ℕ)
    → marshal_one hosts ≡ some bytes
    → unmarshal_one bytes ≡ some hosts
unmarshal_one-marshal_one [] [] e = refl
unmarshal_one-marshal_one [] (n ∷ xs) e = cc
unmarshal_one-marshal_one (h ∷ []) [] e = cc
unmarshal_one-marshal_one (h ∷ []) (n ∷ xs) e =
    let first : length h.name ≡ n = cc in
    let more : h.name ++ h.fingerprint ≡ xs = cc in
    rw
      (
        ← first,
        ← more,
        take-length_append h.name h.fingerprint,
        drop-length_append h.name h.fingerprint,
      )
      refl
unmarshal_one-marshal_one (h ∷ i ∷ hs) bytes e = cc

abbrev yaml : Yaml
yaml = record {
  marshal = marshal_one;
  unmarshal = unmarshal_one;
  unmarshal-marshal = unmarshal_one-marshal_one;
}

abbrev store : KnownHosts
store = record { path = codes "known"; hosts = (codes "alice", codes "f1") ∷ [] }

abbrev disk : Disk
disk = record { file = none; temp = none }

write_locked-load_known_hosts_example :
    let (fine, after) = write_locked yaml store goes_well disk in
    (fine ≡ false → after.file ≡ none)
    × (fine ≡ true
        → (bytes : List ℕ) × (after.file ≡ some bytes)
          × (loaded : KnownHosts) × (load_known_hosts yaml (codes "known") (content bytes)
              ≡ some loaded)
          × ((name : Str) → lookup_host name loaded ≡ lookup_host name store))
unfolding is_empty lookup
write_locked-load_known_hosts_example =
    write_locked-load_known_hosts yaml store goes_well disk refl (refl, tt) ((refl, refl), tt)
