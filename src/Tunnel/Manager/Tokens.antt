-- ===== src/Tunnel/Manager/Tokens.antt =====
-- internal/tunnel/manager.go: external connections that wait for the client's data connection,
-- and the secret by which that connection is known.
use reversproxy.Base.{
  ℕ, true, false, ◌≡◌, ◌≢◌, refl, ◌∙◌, inl, inr, List, [], Option, none, some, if◌then◌else◌,
  Option-cases, ◌==◌, Str, str_eq, str_eq_refl, str_eq_sound, str_eq_ne, is_empty, is_empty_ne,
  is_empty-nil, Map, lookup, delete, lookup-insert, lookup-delete, update, arith,
}
use reversproxy.Base.Result.{ok, err}
use reversproxy.Tunnel.Manager.{
  PendingConn, Manager, unknown_conn, invalid_token, new_data_token, register_pending,
  cancel_pending, fulfill_pending, wait_ready,
}
use reversproxy.Tunnel.Manager.Hex.{new_data_token_filled}
use reversproxy.Tunnel.Pointers.{IsWaiting, insert-IsWaiting, settle-IsWaiting, delete-IsWaiting}

-- An object whose channel is open and that holds no data connection.
abbrev pub Waits : PendingConn → Type 0
Waits c = (c.ready ≡ false) × (c.data_conn ≡ none)

abbrev pub IsPending : Manager → Type 0
IsPending m = IsWaiting Waits m.pending m.conns m.next_conn

abbrev fulfilled : Str → ℕ → ℕ → Manager → Manager
fulfilled k p d m = record m {
  pending = delete k m.pending;
  conns = update m.conns p (record (m.conns p) { ready = true; data_conn = some d });
}

pub fulfill_pending_found :
    (k token : Str) (d : ℕ) (m n : Manager)
    → fulfill_pending k d token m ≡ ok n
    → (p : ℕ) × (lookup k m.pending ≡ some p)
      × (is_empty (m.conns p).data_token ≡ false)
      × (str_eq (m.conns p).data_token token ≡ true)
      × (n ≡ fulfilled k p d m)
unfolding fulfill_pending
fulfill_pending_found k token d m n h = elim (Option-cases (lookup k m.pending)) [
  | inl e ↦ absurd (ground arith)
  | inr (p, e) ↦ (p, e, ground arith, ground arith, ground arith)
]

pub fulfill_pending_unknown :
    (k token : Str) (d : ℕ) (m : Manager)
    → lookup k m.pending ≡ none
    → fulfill_pending k d token m ≡ err (unknown_conn k)
unfolding fulfill_pending
fulfill_pending_unknown k token d m e = ground arith

lookup-delete_self : (k : Str) (m : Map ℕ) → lookup k (delete k m) ≡ none
lookup-delete_self k m = ground (arith, lookup-delete k k m, str_eq_refl k)

-- A data connection is accepted only under the identity of a waiting connection and with that
-- connection's token, which is not empty. Then the goroutine that waits for it reads the data
-- connection, every other waiting goroutine sees no change, and a second data connection under
-- the same identity is refused whatever its token.
pub fulfill_pending_ok :
    (k token : Str) (d : ℕ) (m n : Manager)
    → fulfill_pending k d token m ≡ ok n
    → (p : ℕ) × (lookup k m.pending ≡ some p)
      × (token ≢ [])
      × ((m.conns p).data_token ≡ token)
      × ((q : ℕ) → wait_ready q n ≡ (if p == q then some (some d) else wait_ready q m))
      × ((d' : ℕ) (token' : Str) → fulfill_pending k d' token' n ≡ err (unknown_conn k))
unfolding wait_ready
fulfill_pending_ok k token d m n h =
    let (p, e, filled, same, r) = fulfill_pending_found k token d m n h in
    let eq : (m.conns p).data_token ≡ token = str_eq_sound _ _ same in
    (
      p,
      e,
      (λ z. is_empty_ne (m.conns p).data_token filled (eq ∙ z)),
      eq,
      (λ q. rw r (ground arith)),
      λ d' token'. rw r (
          fulfill_pending_unknown k token' d' (fulfilled k p d m) (lookup-delete_self k m.pending)),
    )

-- A data connection with any other token is refused.
pub fulfill_pending_wrong :
    (k token : Str) (d p : ℕ) (m : Manager)
    → lookup k m.pending ≡ some p
    → (m.conns p).data_token ≢ token
    → fulfill_pending k d token m ≡ err (invalid_token k)
unfolding fulfill_pending
fulfill_pending_wrong k token d p m e other =
    ground (arith, str_eq_ne (m.conns p).data_token token other)

-- A connection that was registered with working random bytes is waited for, and the data
-- connection that brings its token reaches the goroutine that waits.
pub fulfill_pending-register_pending :
    (bytes : List ℕ) (k : Str) (ext d : ℕ) (m : Manager)
    → bytes ≢ []
    → let (p, m') = register_pending (some bytes) k ext m in
      (wait_ready p m' ≡ none)
      × (n : Manager) × (fulfill_pending k d (new_data_token (some bytes)) m' ≡ ok n)
      × (wait_ready p n ≡ some (some d))
      × ((n.conns p).ext_conn ≡ ext)
unfolding register_pending fulfill_pending wait_ready
fulfill_pending-register_pending bytes k ext d m filled =
    let m' : Manager = (register_pending (some bytes) k ext m).1 in
    (
      ground arith,
      fulfilled k m.next_conn d m',
      ground (
        arith,
        lookup-insert k k m.next_conn m.pending,
        str_eq_refl k,
        str_eq_refl (new_data_token (some bytes)),
        new_data_token_filled bytes filled,
      ),
      ground arith,
      ground arith,
    )

-- If the random source fails, no data connection is accepted for the connection.
pub fulfill_pending_fails_closed :
    (k token : Str) (ext d : ℕ) (m : Manager)
    → fulfill_pending k d token (register_pending none k ext m).1 ≡ err (invalid_token k)
unfolding register_pending fulfill_pending new_data_token
fulfill_pending_fails_closed k token ext d m =
    ground (arith, lookup-insert k k m.next_conn m.pending, str_eq_refl k, is_empty-nil)

cancel_pending_found :
    (k : Str) (p : ℕ) (m : Manager)
    → lookup k m.pending ≡ some p
    → cancel_pending k m ≡ record m {
      pending = delete k m.pending;
      conns = update m.conns p (record (m.conns p) { ready = true });
    }
unfolding cancel_pending
cancel_pending_found k p m e = ground arith

-- Cancelling wakes the goroutine that waits with no data connection, leaves all others as they
-- were, and the identity is unknown from then on.
pub cancel_pending_lem :
    (k : Str) (p : ℕ) (m : Manager)
    → IsPending m
    → lookup k m.pending ≡ some p
    → ((q : ℕ) → wait_ready q (cancel_pending k m) ≡ (if p == q then some none else wait_ready q m))
      × ((d : ℕ) (token : Str)
          → fulfill_pending k d token (cancel_pending k m) ≡ err (unknown_conn k))
unfolding wait_ready
cancel_pending_lem k p m v e = (
  (λ q. rw (cancel_pending_found k p m e) (ground (arith, v.waits k p e))),
  λ d token.
      rw (cancel_pending_found k p m e)
        (fulfill_pending_unknown k token d _ (lookup-delete_self k m.pending)),
)

pub register_pending-IsPending :
    (random : Option (List ℕ)) (k : Str) (ext : ℕ) (m : Manager)
    → IsPending m
    → IsPending (register_pending random k ext m).1
unfolding register_pending
register_pending-IsPending random k ext m v =
    insert-IsWaiting Waits m.pending m.conns m.next_conn v k _ (refl, refl)

pub cancel_pending-IsPending :
    (k : Str) (m : Manager) → IsPending m → IsPending (cancel_pending k m)
unfolding cancel_pending
cancel_pending-IsPending k m v = elim (Option-cases (lookup k m.pending)) [
  | inl e ↦ rw (e, cancel_pending) (delete-IsWaiting Waits m.pending m.conns m.next_conn v k)
  | inr (p, e) ↦
      rw (e, cancel_pending) (settle-IsWaiting Waits m.pending m.conns m.next_conn v k p _ e)
]

pub fulfill_pending-IsPending :
    (k token : Str) (d : ℕ) (m n : Manager)
    → IsPending m
    → fulfill_pending k d token m ≡ ok n
    → IsPending n
fulfill_pending-IsPending k token d m n v h =
    let (p, e, _, _, r) = fulfill_pending_found k token d m n h in
    rw r (settle-IsWaiting Waits m.pending m.conns m.next_conn v k p _ e)
