-- ===== src/Tunnel/Edge/Joins.antt =====
-- internal/tunnel/http_proxy.go, https_proxy.go and server.go: which connections are joined.
use reversproxy.Base.{
  ℕ, ◌≡◌, refl, Bool, false, List, [], ◌∷◌, Option, none, some, if_cases, Str, All, arith,
}
use reversproxy.Protocol.Messages.{Envelope, DataConnHello}
use reversproxy.Protocol.Framing.{Gob}
use reversproxy.Tunnel.Sni.{peek_sni}
use reversproxy.Tunnel.Manager.{
  wait_ready, add_http_tunnel, add_https_tunnel, remove_tunnels_for_client,
  remove_http_tunnels_for_client,
}
use reversproxy.Tunnel.Edge.{
  Library, Kind, tcp, web, Relay, idle, waits, copies, over, Edge, handle_https_conn,
  accept_external, replay, met, give_up, Choice, arrives, times_out, cancelled, relay_external_conn,
  relay_http_conn, advance,
}
use reversproxy.Tunnel.Edge.Events.{
  Event, http_user, https_user, tcp_user, data_conn, relay, connects, serves_http, serves_https,
  leaves, new_edge, step, run,
}
use reversproxy.Tunnel.Edge.Routed.{
  IsRouted, IsMatch, close-IsRouted, write-IsRouted, new_edge-IsRouted,
}
use reversproxy.Tunnel.Edge.Users.{
  told-IsRouted, http-IsRouted, https-IsRouted, data-IsRouted, tables-IsRouted, http_table-IsRouted,
  https_table-IsRouted,
}
use reversproxy.Tunnel.Edge.Relays.{over-IsRouted, join-IsRouted, cancel-IsRouted}

module _ (lib : Library) (apart : (i j : ℕ) → lib.uuid i ≡ lib.uuid j → i ≡ j) where
  module _ (g : Edge) (v : IsRouted lib g) where
    pub met-IsRouted :
        (p : ℕ) (kind : Kind) (k : Str) (raw : List ℕ) (write_ok : Bool) (o : Option (Option ℕ))
        → g.relays p ≡ waits kind k raw
        → wait_ready p g.manager ≡ o
        → IsRouted lib (met write_ok p raw o g)
    unfolding met wait_ready replay
    met-IsRouted p kind k raw write_ok none waiting e = v
    met-IsRouted p kind k raw write_ok (some none) waiting e =
        let (name, below, awaited) = v.served p kind k raw waiting in
        absurd (ground (arith, awaited.there))
    met-IsRouted p kind k [] write_ok (some (some d)) waiting e =
        let (name, below, awaited) = v.served p kind k [] waiting in
        join-IsRouted lib g v p d below (ground arith) awaited.told
    met-IsRouted p kind k (b ∷ bs) write_ok (some (some d)) waiting e =
        let (name, below, awaited) = v.served p kind k (b ∷ bs) waiting in
        if_cases (IsRouted lib) write_ok _ _
          (λ _.
            join-IsRouted lib _ (write-IsRouted lib d (b ∷ bs) g v) p d below (ground arith)
              awaited.told)
          (λ _. close-IsRouted lib d _ (close-IsRouted lib _ _ (over-IsRouted lib g v p)))

    give_up-IsRouted : (p : ℕ) → IsRouted lib (give_up p g)
    unfolding give_up
    give_up-IsRouted p = close-IsRouted lib _ _ (over-IsRouted lib g v p)

    relay-IsRouted :
        (p : ℕ) (r : Relay) (c : Choice) → g.relays p ≡ r → IsRouted lib (advance p r c g)
    unfolding advance relay_external_conn relay_http_conn
    relay-IsRouted p idle c e = v
    relay-IsRouted p (waits tcp k raw) (arrives write_ok) e =
        met-IsRouted p tcp k raw write_ok _ e refl
    relay-IsRouted p (waits tcp k raw) times_out e = v
    relay-IsRouted p (waits tcp k raw) cancelled e =
        let (name, below, awaited) = v.served p tcp k raw e in
        close-IsRouted lib _ _ (cancel-IsRouted lib g v apart p k name)
    relay-IsRouted p (waits web k raw) (arrives write_ok) e =
        met-IsRouted p web k raw write_ok _ e refl
    relay-IsRouted p (waits web k raw) times_out e = give_up-IsRouted p
    relay-IsRouted p (waits web k raw) cancelled e = give_up-IsRouted p
    relay-IsRouted p (copies ext d) c e =
        close-IsRouted lib d _ (close-IsRouted lib ext _ (over-IsRouted lib g v p))
    relay-IsRouted p over c e = v

  module _ (envelopes : Gob Envelope) (hellos : Gob DataConnHello) where
    step-IsRouted :
        (e : Event) (g : Edge) → IsRouted lib g → IsRouted lib (step lib envelopes hellos e g)
    unfolding step accept_external handle_https_conn add_http_tunnel add_https_tunnel
        remove_tunnels_for_client remove_http_tunnels_for_client
    step-IsRouted (http_user req ext t) g v = http-IsRouted lib g v req ext t
    step-IsRouted (https_user input ext t) g v =
        https-IsRouted lib g v (peek_sni lib.to_lower input) ext t
    step-IsRouted (tcp_user entry cw ext t) g v = told-IsRouted lib g v tcp cw _ _ _ [] ext t
    step-IsRouted (data_conn set_ok clear_ok input conn) g v =
        data-IsRouted lib g v envelopes hellos set_ok clear_ok input conn
    step-IsRouted (relay p c) g v = relay-IsRouted g v p _ c refl
    step-IsRouted (connects c w) g v = tables-IsRouted lib g v _ _ _ _ _ _
    step-IsRouted (serves_http id c name host port) g v = http_table-IsRouted lib g v _
    step-IsRouted (serves_https id c name host port) g v = https_table-IsRouted lib g v _
    step-IsRouted (leaves c) g v = tables-IsRouted lib g v _ _ _ _ _ _

    run-IsRouted :
        (es : List Event) (g : Edge) → IsRouted lib g → IsRouted lib (run lib envelopes hellos es g)
    unfolding run
    run-IsRouted [] g v = v
    run-IsRouted (e ∷ es) g v = run-IsRouted es _ (step-IsRouted e g v)

    -- Whatever users, clients and relay goroutines do and in whatever order, if no identity is given
    -- twice: a user's connection is only joined with a data connection that was accepted for the
    -- identity and the non-empty token of that user's pending connection, and that identity and that
    -- token had been sent to a client in an OpenConnection message; and no relay goroutine uses a nil
    -- connection.
    pub joined-IsMatch :
        (es : List Event)
        → let g = run lib envelopes hellos es new_edge in
          All (IsMatch lib g) g.joined × (g.crashed ≡ false)
    joined-IsMatch es =
        let v = run-IsRouted es new_edge (new_edge-IsRouted lib) in (v.matched, v.safe)
