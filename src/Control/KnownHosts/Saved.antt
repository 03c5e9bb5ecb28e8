-- ===== src/Control/KnownHosts/Saved.antt =====
-- internal/control/knownhosts.go: what is written is what is loaded.
use reversproxy.Base.{
  ℕ, ◌≡◌, refl, sym, ap, ◌∙◌, inl, inr, true, false, List, [], ◌∷◌, Option, none, some,
  if◌then◌else◌, if_cases, Bool-cases, Option-cases, Str, str_eq, str_eq_sound, str_eq_iff,
  is_empty, Map, lookup, insert, IsUnique, lookup-insert, All, arith,
}
use reversproxy.Control.KnownHosts.{
  KnownHost, Yaml, KnownHosts, Disk, content, Rewrite, write_fails, rename_fails, goes_well,
  insert_sorted, list_hosts, str_lt, load_each, load_known_hosts, rewrite_file, write_locked,
  lookup_host,
}

-- The fingerprint of the first entry with a name.
find : Str → List KnownHost → Option Str
find n [] = none
find n (h ∷ hs) = if str_eq h.name n then some h.fingerprint else find n hs

-- Each name stands once, and no field is empty.
abbrev IsClean : List KnownHost → Type 0
IsClean [] = Unit {0}
IsClean (h ∷ hs) =
    (find h.name hs ≡ none)
    × (is_empty h.name ≡ false)
    × (is_empty h.fingerprint ≡ false)
    × IsClean hs

-- No name and no fingerprint is empty.
abbrev pub IsFilled : Map Str → Type 0
IsFilled m = All (λ (n, fp). (is_empty n ≡ false) × (is_empty fp ≡ false)) m

or_else : Option Str → Option Str → Option Str
or_else none o = o
or_else (some x) o = some x

or_none : (o : Option Str) → or_else o none ≡ o
unfolding or_else
or_none none = refl
or_none (some x) = refl

lookup-load_each :
    (n : Str) (hs : List KnownHost) (m : Map Str)
    → IsClean hs
    → lookup n (load_each hs m) ≡ or_else (find n hs) (lookup n m)
unfolding load_each find or_else
lookup-load_each n [] m c = refl
lookup-load_each n (h ∷ hs) m (new, named, filled, c) =
    rw
      (
        named,
        filled,
        lookup-load_each n hs (insert h.name h.fingerprint m) c,
        lookup-insert h.name n h.fingerprint m,
      )
      (elim (Bool-cases (str_eq h.name n)) [
        | inl same ↦
            let none_later : find n hs ≡ none =
              sym (ap (λ (k : Str). find k hs) (str_eq_sound h.name n same)) ∙ new in
            rw (same, none_later) refl
        | inr other ↦ rw other refl
      ])

find-insert_sorted :
    (n k fp : Str) (hs : List KnownHost)
    → find k hs ≡ none
    → find n (insert_sorted k fp hs) ≡ (if str_eq k n then some fp else find n hs)
unfolding insert_sorted find
find-insert_sorted n k fp [] new = refl
find-insert_sorted n k fp (h ∷ hs) new =
    ground (
      arith,
      find-insert_sorted n k fp hs,
      str_eq_iff h.name n,
      str_eq_iff k n,
      str_eq_iff h.name k,
    )

insert_sorted-IsClean :
    (k fp : Str) (hs : List KnownHost)
    → find k hs ≡ none
    → is_empty k ≡ false
    → is_empty fp ≡ false
    → IsClean hs
    → IsClean (insert_sorted k fp hs)
unfolding insert_sorted find
insert_sorted-IsClean k fp [] new named filled c = (refl, named, filled, tt)
insert_sorted-IsClean k fp (h ∷ hs) new named filled (h_new, h_named, h_filled, c) =
    if_cases IsClean (str_lt k h.name) _ _
      (λ _. (new, named, filled, (h_new, h_named, h_filled, c)))
      (λ _. (
        ground (arith, find-insert_sorted h.name k fp hs, str_eq_iff h.name k, str_eq_iff k h.name),
        h_named,
        h_filled,
        insert_sorted-IsClean k fp hs (ground arith) named filled c,
      ))

find-list_hosts :
    (n : Str) (m : Map Str)
    → IsUnique m
    → IsFilled m
    → (find n (list_hosts m) ≡ lookup n m) × IsClean (list_hosts m)
unfolding list_hosts find lookup
find-list_hosts n [] u f = (refl, tt)
find-list_hosts n ((k, fp) ∷ m) (new, u) ((named, filled), f) =
    let (same, c) = find-list_hosts n m u f in
    let (own, _) = find-list_hosts k m u f in
    (
      find-insert_sorted n k fp (list_hosts m) (own ∙ new) ∙ rw same refl,
      insert_sorted-IsClean k fp (list_hosts m) (own ∙ new) named filled c,
    )

rewritten :
    (yaml : Yaml) (k : KnownHosts) (bytes : List ℕ) (r : Rewrite) (disk : Disk)
    → yaml.marshal (list_hosts k.hosts) ≡ some bytes
    → IsUnique k.hosts
    → IsFilled k.hosts
    → let (fine, after) = rewrite_file bytes r disk in
      (fine ≡ false → after.file ≡ disk.file)
      × (fine ≡ true
          → (bytes : List ℕ) × (after.file ≡ some bytes)
            × (loaded : KnownHosts) × (load_known_hosts yaml k.path (content bytes) ≡ some loaded)
            × ((name : Str) → lookup_host name loaded ≡ lookup_host name k))
unfolding rewrite_file load_known_hosts lookup_host lookup or_else
rewritten yaml k bytes (write_fails n) disk e u f = (λ bad. refl, λ good. absurd cc)
rewritten yaml k bytes rename_fails disk e u f = (λ bad. refl, λ good. absurd cc)
rewritten yaml k bytes goes_well disk e u f = (
  λ bad. absurd cc,
  λ good. (
    bytes,
    refl,
    record { path = k.path; hosts = load_each (list_hosts k.hosts) [] },
    rw (load_known_hosts, yaml.unmarshal-marshal (list_hosts k.hosts) bytes e) refl,
    λ name.
        let (same, c) = find-list_hosts name k.hosts u f in
        lookup-load_each name (list_hosts k.hosts) [] c ∙ rw same (or_none (lookup name k.hosts)),
  ),
)

-- A rewrite of the file that fails leaves the file as it was. After one that succeeds, loading the
-- file gives a store with the same fingerprint for every name, if no name and no fingerprint in the
-- store is empty.
pub write_locked-load_known_hosts :
    (yaml : Yaml) (k : KnownHosts) (r : Rewrite) (disk : Disk)
    → is_empty k.path ≡ false
    → IsUnique k.hosts
    → IsFilled k.hosts
    → let (fine, after) = write_locked yaml k r disk in
      (fine ≡ false → after.file ≡ disk.file)
      × (fine ≡ true
          → (bytes : List ℕ) × (after.file ≡ some bytes)
            × (loaded : KnownHosts) × (load_known_hosts yaml k.path (content bytes) ≡ some loaded)
            × ((name : Str) → lookup_host name loaded ≡ lookup_host name k))
unfolding write_locked
write_locked-load_known_hosts yaml k r disk placed u f =
    elim (Option-cases (yaml.marshal (list_hosts k.hosts))) [
      | inl e ↦ rw (placed, e) (λ bad. refl, λ good. absurd cc)
      | inr (bytes, e) ↦ rw (placed, e) (rewritten yaml k bytes r disk e u f)
    ]
