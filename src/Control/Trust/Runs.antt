-- ===== src/Control/Trust/Runs.antt =====
-- cmd/server/main.go: a client that is approved, and an impostor.
use reversproxy.Base.{
  ◌≡◌, refl, true, false, List, [], ◌∷◌, none, some, codes, contains, str_eq, lookup, insert,
  is_empty,
}
use mathlib.Core.List.{Memᴰ}
use reversproxy.Control.KnownHosts.{Yaml, KnownHosts, Disk, goes_well, lookup_host}
use reversproxy.Control.Trust.{shows, Gate, Event, dials, concludes, run}
use reversproxy.Control.Trust.Pins.{new_gate, accepted_once}

-- No list of hosts can be marshalled, so that nothing is asked of the law.
abbrev no_yaml : Yaml
no_yaml = record {
  marshal = λ hosts. none;
  unmarshal = λ bytes. none;
  unmarshal-marshal = λ hosts bytes e. cc;
}

-- Kept in memory only.
abbrev in_memory : KnownHosts
in_memory = record { path = []; hosts = [] }

abbrev empty_disk : Disk
empty_disk = record { file = none; temp = none }

-- The client is approved, dials again, and then an impostor dials.
abbrev meetings : List Event
meetings =
    dials (codes "alice") (shows (codes "f1"))
    ∷ concludes goes_well true (codes "alice")
    ∷ dials (codes "alice") (shows (codes "f1"))
    ∷ dials (codes "alice") (shows (codes "f2"))
    ∷ []

abbrev gate_after : Gate
gate_after = run no_yaml false meetings (new_gate in_memory empty_disk)

impostor_refused :
    gate_after.accepted
    ≡ (codes "alice", some (codes "f1")) ∷ (codes "alice", some (codes "f1")) ∷ []
unfolding run new_gate insert lookup str_eq is_empty
impostor_refused = refl

accepted_once_example :
    (codes "f1" ≡ codes "f1") × (lookup_host (codes "alice") gate_after.known ≡ some (codes "f1"))
unfolding run new_gate insert lookup str_eq is_empty contains
accepted_once_example =
    accepted_once no_yaml false meetings in_memory empty_disk (codes "alice") (codes "f1")
      (codes "f1") (Memᴰ.head refl) (Memᴰ.tail (Memᴰ.head refl)) refl
