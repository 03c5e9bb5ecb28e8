-- ===== src/Control/Trust.antt =====
-- cmd/server/main.go: tofuCheck, which trusts the first fingerprint that a client shows.
pub mod Pins
mod Runs
use reversproxy.Base.{
  ℕ, Bool, true, false, not, List, [], ◌∷◌, Option, none, some, if◌then◌else◌, Str, str_eq,
}
use reversproxy.Control.KnownHosts.{
  Yaml, KnownHosts, Disk, Rewrite, lookup_host, add_host, remove_host,
}

-- The connection that the server has dialled: without TLS, without a certificate, or with one.
pub data Peer : Type 0 where
  plain bare : Peer
  shows : Str → Peer

-- Where a dial loop is: outside tofuCheck, before the Add of an automatic approval, or waiting for
-- the operator.
pub data Phase : Type 0 where
  idle : Phase
  adding : Str → Phase
  asking : Str → Phase

-- There is one dial loop for each name. `accepted` are the names of the connections that
-- were accepted, with the fingerprint of those over TLS, and `removed` the names that the operator has
-- removed.
pub record Gate : Type 0 where
  pub known : KnownHosts
  pub disk : Disk
  pub phases : Str → Phase
  pub accepted : List (Str × Option Str)
  pub removed : List Str

abbrev pub set_phase : Str → Phase → (Str → Phase) → Str → Phase
set_phase name phase phases n = if str_eq name n then phase else phases n

pub accept : Str → Option Str → Gate → Gate
accept name fp g = record g {
  accepted = (name, fp) ∷ g.accepted;
  phases = set_phase name idle g.phases;
}

pub reject : Str → Gate → Gate
reject name g = record g { phases = set_phase name idle g.phases }

pub on_lookup : Bool → Str → Str → Option Str → Gate → Gate
unfolding accept reject
on_lookup auto_approve name fp (some existing) g =
    if str_eq existing fp then accept name (some fp) g else reject name g
on_lookup auto_approve name fp none g = record g {
  phases = set_phase name (if auto_approve then adding fp else asking fp) g.phases;
}

-- tofuCheck up to its wait, or to its end. A connection without TLS is let through, with no
-- fingerprint to compare, and one without a certificate is an error.
pub tofu_check : Bool → Str → Peer → Gate → Gate
unfolding on_lookup accept reject lookup_host
tofu_check auto_approve name plain g = accept name none g
tofu_check auto_approve name bare g = reject name g
tofu_check auto_approve name (shows fp) g =
    on_lookup auto_approve name fp (lookup_host name g.known) g

-- The Add, after which the connection is accepted unless it gave an error.
pub trust : Yaml → Rewrite → Str → Str → Gate → Gate
unfolding accept reject add_host
trust yaml r name fp g =
    let ((fine, disk), known) = add_host yaml name fp r g.known g.disk in
    let g1 = record g { known = known; disk = disk } in
    if fine then accept name (some fp) g1 else reject name g1

-- The rest of tofuCheck, with the operator's decision.
pub conclude : Yaml → Rewrite → Bool → Str → Phase → Gate → Gate
unfolding trust reject
conclude yaml r approved name idle g = g
conclude yaml r approved name (adding fp) g = trust yaml r name fp g
conclude yaml r approved name (asking fp) g =
    if approved then trust yaml r name fp g else reject name g

pub data Event : Type 0 where
  dials : Str → Peer → Event
  concludes : Rewrite → Bool → Str → Event
  removes : Rewrite → Str → Event

module _ (yaml : Yaml) (auto_approve : Bool) where
  -- A loop dials only when it is not in tofuCheck.
  unfoldable pub dial : Str → Peer → Phase → Gate → Gate
  unfolding tofu_check
  dial name peer idle g = tofu_check auto_approve name peer g
  dial name peer (adding fp) g = g
  dial name peer (asking fp) g = g

  unfoldable pub step : Event → Gate → Gate
  unfolding dial conclude remove_host
  step (dials name peer) g = dial name peer (g.phases name) g
  step (concludes r approved name) g = conclude yaml r approved name (g.phases name) g
  step (removes r name) g =
      let ((fine, disk), known) = remove_host yaml name r g.known g.disk in
      record g { known = known; disk = disk; removed = name ∷ g.removed }

  unfoldable pub run : List Event → Gate → Gate
  unfolding step
  run [] g = g
  run (e ∷ es) g = run es (step e g)
