-- ===== src/Control/Approvals.antt =====
-- internal/control/approval.go: requests that wait for the operator.
pub mod Decisions
mod Runs
use reversproxy.Base.{
  ℕ, suc, Bool, true, false, Option, none, some, if◌then◌else◌, ◌==◌, Str, Map, lookup, insert,
  delete, update, List, [],
}

pub data Decision : Type 0 where
  approved rejected : Decision

-- `decision` is the channel, which has room for one value.
pub record PendingRequest : Type 0 where
  pub client_name : Str
  pub addr : Str
  pub fingerprint : Str
  pub decision : Option Decision

-- `requests` are the objects that the map points to.
pub record Approver : Type 0 where
  pub pending : Map ℕ
  pub requests : ℕ → PendingRequest
  pub next : ℕ

abbrev pub no_request : PendingRequest
no_request = record { client_name = []; addr = []; fingerprint = []; decision = none }

pub new_approver : Approver
new_approver = record { pending = []; requests = λ _. no_request; next = 0 }

-- A send that does not block: a full channel keeps its value.
pub offer : Decision → Option Decision → Option Decision
offer d none = some d
offer d (some old) = some old

-- The earlier request for the name, if there is one, is told that it is superseded.
pub supersede : Option ℕ → (ℕ → PendingRequest) → ℕ → PendingRequest
unfolding offer
supersede none requests = requests
supersede (some p) requests =
    update requests p (record (requests p) { decision = offer rejected (requests p).decision })

-- Submit up to its wait: the number of the request, and the approver.
pub submit : Str → Str → Str → Approver → ℕ × Approver
unfolding supersede
submit name addr fingerprint a = (
  a.next,
  record a {
    pending = insert name a.next a.pending;
    requests =
        update (supersede (lookup name a.pending) a.requests) a.next
          (record { client_name = name; addr = addr; fingerprint = fingerprint; decision = none });
    next = suc a.next;
  },
)

-- The wait of Submit: `none` while it blocks, else the decision and the approver after it was taken
-- from the channel. With `done` the context is cancelled and the select takes that case.
pub receive : Bool → ℕ → Approver → Option (Decision × Approver)
receive done p a = if done then some (rejected, a) else (elim (a.requests p).decision [
  | none ↦ none
  | some d ↦
      some
        (d, record a { requests = update a.requests p (record (a.requests p) { decision = none }) })
])

-- The deferred end of Submit: the entry is deleted if it still is this request.
pub leave : Str → ℕ → Approver → Approver
leave name p a = elim (lookup name a.pending) [
  | none ↦ a
  | some q ↦ if q == p then record a { pending = delete name a.pending } else a
]

pub decision_for : Bool → Decision
decision_for approve = if approve then approved else rejected

-- Whether a request was found and resolved, and the approver.
pub decide : Str → Bool → Approver → Bool × Approver
unfolding decision_for
decide name approve a = elim (lookup name a.pending) [
  | none ↦ (false, a)
  | some p ↦ elim (a.requests p).decision [
    | some _ ↦ (false, a)
    | none ↦ (
      true,
      record a {
        requests =
            update a.requests p (record (a.requests p) { decision = some (decision_for approve) });
      },
    )
  ]
]
