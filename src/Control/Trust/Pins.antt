-- ===== src/Control/Trust/Pins.antt =====
-- cmd/server/main.go and internal/control/knownhosts.go: the first fingerprint of a name is the only
-- one.
use reversproxy.Base.{
  ◌≡◌, ◌⊎◌, refl, sym, ap, subst, ◌∙◌, inl, inr, Bool, true, false, List, [], ◌∷◌, Option, none,
  some, if_cases, Bool-cases, Str, str_eq, str_eq_sound, str_eq_refl, contains, Map, lookup, insert,
  delete, lookup-insert, lookup-delete, All, All-map, arith,
}
use mathlib.Core.List.{Memᴰ}
use reversproxy.Control.KnownHosts.{
  Yaml, KnownHosts, Disk, Rewrite, lookup_host, write_locked, with_host, without_host, add_host,
  remove_host,
}
use reversproxy.Control.Trust.{
  Peer, plain, bare, shows, Phase, idle, adding, asking, Gate, set_phase, accept, reject, on_lookup,
  tofu_check, trust, conclude, Event, dials, concludes, removes, dial, step, run,
}

-- The name has been removed, or its fingerprint is the one that was accepted.
abbrev pub IsPinned : Map Str → List Str → Str × Option Str → Type 0
IsPinned hosts removed (name, none) = Unit {0}
IsPinned hosts removed (name, some fp) =
    (contains name removed ≡ true) ⊎ (lookup name hosts ≡ some fp)

-- A loop that is about to add a fingerprint has found none.
abbrev IsNew : Map Str → Str → Phase → Type 0
IsNew hosts name idle = Unit {0}
IsNew hosts name (adding fp) = lookup name hosts ≡ none
IsNew hosts name (asking fp) = lookup name hosts ≡ none

pub record IsTrusting (g : Gate) : Type 0 where
  pub pinned : All (IsPinned g.known.hosts g.removed) g.accepted
  pub fresh : (name : Str) → IsNew g.known.hosts name (g.phases name)

IsNew-phases :
    (hosts : Map Str) (phases : Str → Phase) (name : Str) (phase : Phase)
    → ((n : Str) → IsNew hosts n (phases n))
    → IsNew hosts name phase
    → (n : Str) → IsNew hosts n (set_phase name phase phases n)
IsNew-phases hosts phases name phase old h n =
    if_cases (IsNew hosts n) (str_eq name n) phase (phases n)
      (λ same. subst (λ (n : Str). IsNew hosts n phase) (str_eq_sound name n same) h) (λ _. old n)

module _ (g : Gate) (v : IsTrusting g) where
  accept-IsTrusting :
      (name : Str) (fp : Option Str)
      → IsPinned g.known.hosts g.removed (name, fp)
      → IsTrusting (accept name fp g)
  unfolding accept
  accept-IsTrusting name fp h = record {
    pinned = (h, v.pinned);
    fresh = IsNew-phases g.known.hosts g.phases name idle v.fresh tt;
  }

  reject-IsTrusting : (name : Str) → IsTrusting (reject name g)
  unfolding reject
  reject-IsTrusting name = record {
    pinned = v.pinned;
    fresh = IsNew-phases g.known.hosts g.phases name idle v.fresh tt;
  }

  lookup-IsTrusting :
      (auto_approve : Bool) (name fp : Str) (o : Option Str)
      → lookup name g.known.hosts ≡ o
      → IsTrusting (on_lookup auto_approve name fp o g)
  unfolding on_lookup
  lookup-IsTrusting auto_approve name fp (some existing) e =
      if_cases IsTrusting (str_eq existing fp) _ _
        (λ same. accept-IsTrusting name (some fp) (inr (e ∙ ap some (str_eq_sound _ _ same))))
        (λ _. reject-IsTrusting name)
  lookup-IsTrusting auto_approve name fp none e = record {
    pinned = v.pinned;
    fresh = IsNew-phases g.known.hosts g.phases name _ v.fresh (
        if_cases (IsNew g.known.hosts name) auto_approve (adding fp) (asking fp) (λ _. e) (λ _. e));
  }

  tofu_check-IsTrusting :
      (auto_approve : Bool) (name : Str) (peer : Peer)
      → IsTrusting (tofu_check auto_approve name peer g)
  unfolding tofu_check lookup_host
  tofu_check-IsTrusting auto_approve name plain = accept-IsTrusting name none tt
  tofu_check-IsTrusting auto_approve name bare = reject-IsTrusting name
  tofu_check-IsTrusting auto_approve name (shows fp) = lookup-IsTrusting auto_approve name fp _ refl

-- A fingerprint that is added under a name that had none.
insert-IsPinned :
    (hosts : Map Str) (removed : List Str) (name fp : Str) (x : Str × Option Str)
    → lookup name hosts ≡ none
    → IsPinned hosts removed x
    → IsPinned (insert name fp hosts) removed x
insert-IsPinned hosts removed name fp (n, none) new h = tt
insert-IsPinned hosts removed name fp (n, some f) new (inl gone) = inl gone
insert-IsPinned hosts removed name fp (n, some f) new (inr there) =
    inr (ground (arith, lookup-insert name n fp hosts, str_eq_sound name n))

insert-IsNew :
    (hosts : Map Str) (name fp n : Str) (phase : Phase)
    → str_eq name n ≡ false
    → IsNew hosts n phase
    → IsNew (insert name fp hosts) n phase
insert-IsNew hosts name fp n idle other h = tt
insert-IsNew hosts name fp n (adding f) other h = ground (arith, lookup-insert name n fp hosts)
insert-IsNew hosts name fp n (asking f) other h = ground (arith, lookup-insert name n fp hosts)

delete-IsNew :
    (hosts : Map Str) (name n : Str) (phase : Phase)
    → IsNew hosts n phase
    → IsNew (delete name hosts) n phase
delete-IsNew hosts name n idle h = tt
delete-IsNew hosts name n (adding f) h = ground (arith, lookup-delete name n hosts)
delete-IsNew hosts name n (asking f) h = ground (arith, lookup-delete name n hosts)

delete-IsPinned :
    (hosts : Map Str) (removed : List Str) (name : Str) (x : Str × Option Str)
    → IsPinned hosts removed x
    → IsPinned (delete name hosts) (name ∷ removed) x
unfolding contains
delete-IsPinned hosts removed name (n, none) h = tt
delete-IsPinned hosts removed name (n, some f) (inl gone) = inl (ground arith)
delete-IsPinned hosts removed name (n, some f) (inr there) = elim (Bool-cases (str_eq name n)) [
  | inl same ↦ inl (ground arith)
  | inr other ↦ inr (ground (arith, lookup-delete name n hosts))
]

module _ (yaml : Yaml) (g : Gate) (v : IsTrusting g) where
  trust-IsTrusting :
      (r : Rewrite) (name fp : Str)
      → lookup name g.known.hosts ≡ none
      → IsTrusting (trust yaml r name fp g)
  unfolding trust add_host with_host accept reject
  trust-IsTrusting r name fp new =
      let hosts = insert name fp g.known.hosts in
      let kept : All (IsPinned hosts g.removed) g.accepted =
        All-map (λ x h. insert-IsPinned g.known.hosts g.removed name fp x new h) g.accepted
          v.pinned in
      let others : (n : Str) → IsNew hosts n (set_phase name idle g.phases n) = λ n.
        if_cases (IsNew hosts n) (str_eq name n) idle (g.phases n) (λ _. tt)
          (λ other. insert-IsNew g.known.hosts name fp n (g.phases n) other (v.fresh n)) in
      if_cases IsTrusting (write_locked yaml (with_host name fp g.known) r g.disk).0 _ _
        (λ _. record {
          pinned = (
            inr (ground (arith, lookup-insert name name fp g.known.hosts, str_eq_refl name)),
            kept,
          );
          fresh = others;
        })
        (λ _. record { pinned = kept; fresh = others })

  conclude-IsTrusting :
      (r : Rewrite) (approved : Bool) (name : Str) (phase : Phase)
      → g.phases name ≡ phase
      → IsTrusting (conclude yaml r approved name phase g)
  unfolding conclude
  conclude-IsTrusting r approved name idle e = v
  conclude-IsTrusting r approved name (adding fp) e =
      trust-IsTrusting r name fp (subst (IsNew g.known.hosts name) e (v.fresh name))
  conclude-IsTrusting r approved name (asking fp) e =
      if_cases IsTrusting approved _ _
        (λ _. trust-IsTrusting r name fp (subst (IsNew g.known.hosts name) e (v.fresh name)))
        (λ _. reject-IsTrusting g v name)

  dial-IsTrusting :
      (auto_approve : Bool) (name : Str) (peer : Peer) (phase : Phase)
      → IsTrusting (dial yaml auto_approve name peer phase g)
  unfolding dial
  dial-IsTrusting auto_approve name peer idle = tofu_check-IsTrusting g v auto_approve name peer
  dial-IsTrusting auto_approve name peer (adding fp) = v
  dial-IsTrusting auto_approve name peer (asking fp) = v

  step-IsTrusting : (auto_approve : Bool) (e : Event) → IsTrusting (step yaml auto_approve e g)
  unfolding step remove_host without_host
  step-IsTrusting auto_approve (dials name peer) = dial-IsTrusting auto_approve name peer _
  step-IsTrusting auto_approve (concludes r approved name) =
      conclude-IsTrusting r approved name _ refl
  step-IsTrusting auto_approve (removes r name) = record {
    pinned = All-map (λ x h. delete-IsPinned g.known.hosts g.removed name x h) g.accepted v.pinned;
    fresh = λ n. delete-IsNew g.known.hosts name n (g.phases n) (v.fresh n);
  }

run-IsTrusting :
    (yaml : Yaml) (auto_approve : Bool) (es : List Event) (g : Gate)
    → IsTrusting g
    → IsTrusting (run yaml auto_approve es g)
unfolding run
run-IsTrusting yaml auto_approve [] g v = v
run-IsTrusting yaml auto_approve (e ∷ es) g v =
    run-IsTrusting yaml auto_approve es _ (step-IsTrusting yaml g v auto_approve e)

-- No loop is in tofuCheck and nothing has been accepted.
unfoldable pub new_gate : KnownHosts → Disk → Gate
new_gate known disk = record {
  known = known;
  disk = disk;
  phases = λ n. idle;
  accepted = [];
  removed = [];
}

new_gate-IsTrusting : (known : KnownHosts) (disk : Disk) → IsTrusting (new_gate known disk)
unfolding new_gate
new_gate-IsTrusting known disk = record { pinned = tt; fresh = λ n. tt }

All-Memᴰ : {A : Type 0} (P : A → Type 0) (x : A) (xs : List A) → All P xs → Memᴰ x xs → P x
All-Memᴰ P x [] h mem = elim mem [ ]
All-Memᴰ P x (y ∷ xs) (p, h) (Memᴰ.head e) = subst P (sym e) p
All-Memᴰ P x (y ∷ xs) (p, h) (Memᴰ.tail mem) = All-Memᴰ P x xs h mem

stored :
    (g : Gate)
    → IsTrusting g
    → (name fp : Str) → contains name g.removed ≡ false
    → Memᴰ (name, some fp) g.accepted
    → lookup name g.known.hosts ≡ some fp
stored g v name fp kept mem =
    elim (All-Memᴰ (IsPinned g.known.hosts g.removed) (name, some fp) g.accepted v.pinned mem) [
      | inl gone ↦ absurd cc
      | inr there ↦ there
    ]

-- Whatever connections the dial loops make, whatever the operator decides and whichever writes of the
-- file fail, with one dial loop for each name: two connections that were accepted over TLS under one
-- name, which the operator has not removed, had one fingerprint, and it is the one that is stored.
pub accepted_once :
    (yaml : Yaml) (auto_approve : Bool) (es : List Event) (known : KnownHosts) (disk : Disk)
    (name fp fp' : Str)
    → let g = run yaml auto_approve es (new_gate known disk) in
      Memᴰ (name, some fp) g.accepted
      → Memᴰ (name, some fp') g.accepted
      → contains name g.removed ≡ false
      → (fp ≡ fp') × (lookup_host name g.known ≡ some fp)
unfolding lookup_host
accepted_once yaml auto_approve es known disk name fp fp' first second kept =
    let g = run yaml auto_approve es (new_gate known disk) in
    let v =
      run-IsTrusting yaml auto_approve es (new_gate known disk) (new_gate-IsTrusting known disk) in
    let one = stored g v name fp kept first in
    (ground (arith, one, stored g v name fp' kept second), one)
