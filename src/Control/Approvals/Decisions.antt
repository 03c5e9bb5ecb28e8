-- ===== src/Control/Approvals/Decisions.antt =====
-- internal/control/approval.go: who learns what the operator decides.
use reversproxy.Base.{
  ℕ, ◌<◌, ◌≡◌, refl, ap, Bool, true, false, none, some, Str, str_eq_refl, lookup, update,
  lookup-insert, arith,
}
use reversproxy.Control.Approvals.{
  Decision, rejected, Approver, offer, supersede, submit, receive, leave, decision_for, decide,
}

receive_full :
    (p : ℕ) (a : Approver) (d : Decision)
    → (a.requests p).decision ≡ some d
    → (b : Approver) × (receive false p a ≡ some (d, b))
unfolding receive
receive_full p a d e = (
  record a { requests = update a.requests p (record (a.requests p) { decision = none }) },
  rw (e, receive) refl,
)

module _ (name : Str) (p : ℕ) (a : Approver) (found : lookup name a.pending ≡ some p)
    (empty : (a.requests p).decision ≡ none) where
  decide_found :
      (approve : Bool)
      → decide name approve a ≡ (
        true,
        record a {
          requests =
              update a.requests p
                (record (a.requests p) { decision = some (decision_for approve) });
        },
      )
  unfolding decide
  decide_found approve = rw (found, empty, decide) refl

  decide_again :
      (approve again : Bool)
      → decide name again (decide name approve a).1 ≡ (false, (decide name approve a).1)
  unfolding decide
  decide_again approve again = rw (decide_found approve) (rw (found, decide) (ground arith))

  receive_decided :
      (approve : Bool)
      → (d : Approver) × (receive false p (decide name approve a).1
          ≡ some (decision_for approve, d))
  receive_decided approve =
      receive_full p (decide name approve a).1 (decision_for approve)
        (rw (decide_found approve) (ground arith))

-- The operator's decision on a name resolves the request that was submitted for it last: its
-- goroutine reads that decision, and a second decision before it does so is refused.
pub decide-submit :
    (name addr fingerprint : Str) (approve again : Bool) (a : Approver)
    → let (p, b) = submit name addr fingerprint a in
      let (found, c) = decide name approve b in
      (found ≡ true)
      × ((d : Approver) × (receive false p c ≡ some (decision_for approve, d)))
      × (decide name again c ≡ (false, c))
unfolding submit
decide-submit name addr fingerprint approve again a =
    let p = a.next in
    let b = (submit name addr fingerprint a).1 in
    let found : lookup name b.pending ≡ some p =
      ground (arith, lookup-insert name name a.next a.pending, str_eq_refl name) in
    let empty : (b.requests p).decision ≡ none = ground arith in
    (
      ap (λ (x : Bool × Approver). x.0) (decide_found name p b found empty approve),
      receive_decided name p b found empty approve,
      decide_again name p b found empty approve again,
    )

-- A request that waits is superseded by a later one for the same name: its goroutine reads that it
-- is rejected, and when it leaves, the later request stays.
pub submit_supersedes :
    (name addr fingerprint : Str) (p : ℕ) (a : Approver)
    → lookup name a.pending ≡ some p
    → (a.requests p).decision ≡ none
    → p < a.next
    → let (q, b) = submit name addr fingerprint a in
      ((d : Approver) × (receive false p b ≡ some (rejected, d)))
      × (lookup name (leave name p b).pending ≡ some q)
unfolding submit leave supersede offer
submit_supersedes name addr fingerprint p a found empty older =
    let b = (submit name addr fingerprint a).1 in
    let newest : lookup name b.pending ≡ some a.next =
      ground (arith, lookup-insert name name a.next a.pending, str_eq_refl name) in
    let told : (b.requests p).decision ≡ some rejected = ground arith in
    (receive_full p b rejected told, ground arith)
