-- ===== src/Tunnel/Edge/Late.antt =====
-- internal/tunnel/http_proxy.go, https_proxy.go and server.go: data connections that come too late.
use reversproxy.Base.{
  ℕ, ◌≡◌, ◌≢◌, refl, inl, inr, ◌⊎◌, true, List, [], ◌∷◌, none, some, Option-cases, Str, str_eq_refl,
  lookup, lookup-delete, update, arith,
}
use reversproxy.Protocol.Messages.{DataConnHello}
use reversproxy.Tunnel.Manager.{PendingConn, Manager, cancel_pending, wait_ready}
use reversproxy.Tunnel.Manager.Tokens.{fulfill_pending_unknown}
use reversproxy.Tunnel.Edge.{
  tcp, web, waits, over, Edge, close, on_hello, fulfilled_by, Choice, wait_done, times_out,
  cancelled, give_up, relay_external_conn, relay_http_conn, advance,
}
use reversproxy.Tunnel.Edge.Paths.{fulfill_pending_right}

cancel_pending_forgets : (k : Str) (m : Manager) → lookup k (cancel_pending k m).pending ≡ none
unfolding cancel_pending
cancel_pending_forgets k m = elim (Option-cases (lookup k m.pending)) [
  | inl e ↦ ground (arith, lookup-delete k k m.pending, str_eq_refl k)
  | inr (p, e) ↦ ground (arith, lookup-delete k k m.pending, str_eq_refl k)
]

on_hello_unknown :
    (d : ℕ) (hello : DataConnHello) (g : Edge)
    → lookup hello.conn_id g.manager.pending ≡ none
    → on_hello d (some hello) g ≡ close d g
unfolding on_hello fulfilled_by
on_hello_unknown d hello g e =
    rw (fulfill_pending_unknown hello.conn_id hello.token d g.manager e, fulfilled_by) refl

cancelled_wakes :
    (p : ℕ) (k : Str) (raw : List ℕ) (g : Edge)
    → lookup k g.manager.pending ≡ some p
    → wait_done p (advance p (waits tcp k raw) cancelled g) ≡ some (g.manager.conns p).data_conn
unfolding advance relay_external_conn give_up close wait_done wait_ready cancel_pending
cancelled_wakes p k raw g e = ground arith

gives_up_web :
    (p : ℕ) (k : Str) (raw : List ℕ) (c : Choice) (g : Edge)
    → (c ≡ times_out) ⊎ (c ≡ cancelled)
    → advance p (waits web k raw) c g ≡ give_up p g
unfolding advance relay_http_conn
gives_up_web p k raw c g (inl late) = rw late refl
gives_up_web p k raw c g (inr ended) = rw ended refl

-- A data connection that comes for an entry whose goroutine has given up.
fulfill_leaks :
    (p d : ℕ) (hello : DataConnHello) (g g2 : Edge)
    → lookup hello.conn_id g.manager.pending ≡ some p
    → (g.manager.conns p).data_token ≡ hello.token
    → hello.token ≢ []
    → g2 ≡ give_up p g
    → let g3 = on_hello d (some hello) g2 in
      (g3.hellos ≡ (d, hello) ∷ g.hellos)
      × (g3.closed ≡ g2.closed)
      × (g3.joined ≡ g.joined)
      × (g3.relays p ≡ over)
      × (wait_done p g2 ≡ wait_done p g)
      × (wait_done p g3 ≡ some (some d))
unfolding on_hello fulfilled_by give_up close wait_done wait_ready
fulfill_leaks p d hello g g2 e right filled same =
    let c : PendingConn = record (g.manager.conns p) { ready = true; data_conn = some d } in
    let own : update g.manager.conns p c p ≡ c = ground arith in
    rw
      (
        same,
        fulfill_pending_right p d hello.conn_id hello.token g.manager e right filled,
        fulfilled_by,
      )
      (refl, refl, refl, ground arith, refl, rw own refl)

-- A goroutine that gives up on a data connection. The one of a TCP tunnel, when it is cancelled,
-- cancels its entry: the goroutine in WaitReady that it started gets a result, and a data connection
-- that comes later is closed. The one of an HTTP or HTTPS user, whether it times out or is
-- cancelled, leaves the entry and does not change what the goroutine in WaitReady has got: a later
-- data connection with the right token is accepted, neither closed nor joined, and goes to that
-- goroutine, while the relay goroutine has ended.
pub late_data_conn :
    (p d : ℕ) (k token : Str) (raw : List ℕ) (c : Choice) (g : Edge)
    → lookup k g.manager.pending ≡ some p
    → (g.manager.conns p).data_token ≡ token
    → token ≢ []
    → (c ≡ times_out) ⊎ (c ≡ cancelled)
    → let hello : DataConnHello = record { conn_id = k; token = token } in
      let g1 = advance p (waits tcp k raw) cancelled g in
      let g2 = advance p (waits web k raw) c g in
      let g3 = on_hello d (some hello) g2 in
      ((on_hello d (some hello) g1 ≡ close d g1)
        × (wait_done p g1 ≡ some (g.manager.conns p).data_conn))
      × (g3.hellos ≡ (d, hello) ∷ g.hellos)
      × (g3.closed ≡ g2.closed)
      × (g3.joined ≡ g.joined)
      × (g3.relays p ≡ over)
      × (wait_done p g2 ≡ wait_done p g)
      × (wait_done p g3 ≡ some (some d))
late_data_conn p d k token raw c g e right filled choice =
    let hello : DataConnHello = record { conn_id = k; token = token } in
    let g1 = advance p (waits tcp k raw) cancelled g in
    let (taken, still, unjoined, ended, blocked, got) =
      fulfill_leaks p d hello g _ e right filled (gives_up_web p k raw c g choice) in
    (
      (
        on_hello_unknown d hello g1
            (unfold advance relay_external_conn in (cancel_pending_forgets k g.manager)),
        cancelled_wakes p k raw g e,
      ),
      taken,
      still,
      unjoined,
      ended,
      blocked,
      got,
    )
