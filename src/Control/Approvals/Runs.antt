-- ===== src/Control/Approvals/Runs.antt =====
-- internal/control/approval.go: two requests for one name.
use reversproxy.Base.{◌≡◌, refl, false, some, str_eq, codes, lookup, insert, arith}
use reversproxy.Control.Approvals.{Approver, rejected, new_approver, submit, receive, leave}
use reversproxy.Control.Approvals.Decisions.{submit_supersedes}

waiting : Approver
unfolding new_approver submit insert str_eq lookup
waiting = (submit (codes "pc") (codes "a") (codes "f") new_approver).1

submit_supersedes_example :
    let (q, b) = submit (codes "pc") (codes "b") (codes "g") waiting in
    ((d : Approver) × (receive false 0 b ≡ some (rejected, d)))
    × (lookup (codes "pc") (leave (codes "pc") 0 b).pending ≡ some q)
unfolding waiting
submit_supersedes_example =
    submit_supersedes (codes "pc") (codes "b") (codes "g") 0 waiting refl refl (omega arith)
