-- ===== src/Client/Session/Trust.antt =====
-- internal/client/handler.go: which connections a client opens for its server.
use reversproxy.Base.{
  ℕ, zero, suc, ◌≡◌, ap, inl, inr, Bool, true, false, List, [], ◌∷◌, Option, none, some, ◌==◌,
  if_cases, Option-cases, Str, codes, lookup, get_elem?, arith,
}
use reversproxy.Base.Result.{Result, ok, err}
use reversproxy.Protocol.Messages.{
  Envelope, Ping, OpenConnection, SocksReady, SocksData, SocksClose, msg_ping, msg_disconnect,
  msg_open_connection, msg_socks_ready, msg_socks_data, msg_socks_close,
}
use reversproxy.Tunnel.Mux.{Mux}
use reversproxy.Client.Session.Entry.{Accepted, handshake-IsBefore, register_tunnels-IsBefore}
use reversproxy.Client.Session.Grants.{AreGranted, IsGranted, register_tunnels-AreGranted}
use reversproxy.Client.Session.{
  Sent, sent_pong, sent_disconnect, sent_disconnect_ack, Decoders, ClientConfig, Session, Opening,
  Exchange, say, leave, handshake, register_tunnels, Event, cancels, read_fails, shuts_down,
  receives, on_ping, on_open_connection, with_mux, on_socks_ready, on_socks_data, on_socks_close,
  dispatch, step, run, new_session, handle_server_conn,
}

added_known :
    (Grants : Str → Str → Type 0) (oc : OpenConnection) (addr : Str)
    (l : List (OpenConnection × Str))
    → Grants oc.tunnel_id addr
    → ((i : ℕ) (c : OpenConnection) (a : Str) → get_elem? l i ≡ some (c, a) → Grants c.tunnel_id a)
    → (i : ℕ) (c : OpenConnection) (a : Str) → get_elem? ((oc, addr) ∷ l) i ≡ some (c, a)
    → Grants c.tunnel_id a
added_known Grants oc addr l new known zero c a p =
    let key : oc ≡ c = ground arith in
    let value : addr ≡ a = ground arith in rw (← key, ← value) new
added_known Grants oc addr l new known (suc i) c a p = known i c a p

module _ (d : Decoders) (auth_token name : Str) (o : Opening) (Grants : Str → Str → Type 0) where
  -- In the message loop: the server is accepted, the addresses of the session are granted, and every
  -- connection that was opened is for a tunnel of this session, to an address granted with it.
  record IsTrusted (s : Session) : Type 0 where
    pub accepted : Accepted d auth_token name o
    pub granted : AreGranted Grants s
    pub known :
        (i : ℕ) (oc : OpenConnection) (addr : Str)
        → get_elem? s.opened i ≡ some (oc, addr)
        → Grants oc.tunnel_id addr

  leave-IsTrusted : (s : Session) → IsTrusted s → IsTrusted (leave s)
  unfolding leave
  leave-IsTrusted s v = record { accepted = v.accepted; granted = v.granted; known = v.known }

  on_ping-IsTrusted :
      (p : Option Ping) (b : Bool) (s : Session) → IsTrusted s → IsTrusted (on_ping p b s)
  unfolding on_ping
  on_ping-IsTrusted none b s v = v
  on_ping-IsTrusted (some p) true s v = record {
    accepted = v.accepted;
    granted = v.granted;
    known = v.known;
  }
  on_ping-IsTrusted (some p) false s v =
      leave-IsTrusted (say (sent_pong (record { seq = p.seq })) s)
        (record { accepted = v.accepted; granted = v.granted; known = v.known })

  on_open_connection-IsTrusted :
      (r : Option OpenConnection) (s : Session) → IsTrusted s → IsTrusted (on_open_connection r s)
  unfolding on_open_connection
  on_open_connection-IsTrusted none s v = v
  on_open_connection-IsTrusted (some oc) s v =
      elim (Option-cases (lookup oc.tunnel_id s.data_addrs)) [
        | inl e ↦ rw (e, on_open_connection) v
        | inr (addr, e) ↦
            rw (e, on_open_connection)
              (record {
                accepted = v.accepted;
                granted = v.granted;
                known = added_known Grants oc addr s.opened (v.granted oc.tunnel_id addr e) v.known;
              })
      ]

  with_mux-IsTrusted :
      {E : Type 0} (s : Session) (r : Result E Mux) → IsTrusted s → IsTrusted (with_mux s r)
  unfolding with_mux
  with_mux-IsTrusted s (ok m) v = record {
    accepted = v.accepted;
    granted = v.granted;
    known = v.known;
  }
  with_mux-IsTrusted s (err e) v = v

  on_socks_ready-IsTrusted :
      (r : Option SocksReady) (s : Session) → IsTrusted s → IsTrusted (on_socks_ready r s)
  unfolding on_socks_ready
  on_socks_ready-IsTrusted none s v = v
  on_socks_ready-IsTrusted (some r) s v = with_mux-IsTrusted s _ v

  on_socks_data-IsTrusted :
      (r : Option SocksData) (s : Session) → IsTrusted s → IsTrusted (on_socks_data r s)
  unfolding on_socks_data
  on_socks_data-IsTrusted none s v = v
  on_socks_data-IsTrusted (some r) s v = with_mux-IsTrusted s _ v

  on_socks_close-IsTrusted :
      (r : Option SocksClose) (s : Session) → IsTrusted s → IsTrusted (on_socks_close r s)
  unfolding on_socks_close
  on_socks_close-IsTrusted none s v = v
  on_socks_close-IsTrusted (some r) s v = record {
    accepted = v.accepted;
    granted = v.granted;
    known = v.known;
  }

  said-IsTrusted : (m : Sent) (s : Session) → IsTrusted s → IsTrusted (say m s)
  said-IsTrusted m s v = record { accepted = v.accepted; granted = v.granted; known = v.known }

  dispatch-IsTrusted :
      (env : Envelope) (b : Bool) (s : Session) → IsTrusted s → IsTrusted (dispatch d env b s)
  unfolding dispatch
  dispatch-IsTrusted env b s v =
      if_cases IsTrusted (env.type == msg_ping) _ _ (λ _. on_ping-IsTrusted _ b s v)
        (λ _.
          if_cases IsTrusted (env.type == msg_disconnect) _ _
            (λ _.
              leave-IsTrusted (say sent_disconnect_ack s) (said-IsTrusted sent_disconnect_ack s v))
            (λ _.
              if_cases IsTrusted (env.type == msg_open_connection) _ _
                (λ _. on_open_connection-IsTrusted _ s v)
                (λ _.
                  if_cases IsTrusted (env.type == msg_socks_ready) _ _
                    (λ _. on_socks_ready-IsTrusted _ s v)
                    (λ _.
                      if_cases IsTrusted (env.type == msg_socks_data) _ _
                        (λ _. on_socks_data-IsTrusted _ s v)
                        (λ _.
                          if_cases IsTrusted (env.type == msg_socks_close) _ _
                            (λ _. on_socks_close-IsTrusted _ s v) (λ _. v))))))

  step-IsTrusted : (e : Event) (s : Session) → IsTrusted s → IsTrusted (step d e s)
  unfolding step
  step-IsTrusted cancels s v =
      if_cases IsTrusted s.looping (leave s) s (λ _. leave-IsTrusted s v) (λ _. v)
  step-IsTrusted read_fails s v =
      if_cases IsTrusted s.looping (leave s) s (λ _. leave-IsTrusted s v) (λ _. v)
  step-IsTrusted shuts_down s v =
      said-IsTrusted (sent_disconnect (record { reason = codes "client shutdown" })) s v
  step-IsTrusted (receives env b) s v =
      if_cases IsTrusted s.looping (dispatch d env b s) s (λ _. dispatch-IsTrusted env b s v)
        (λ _. v)

  run-IsTrusted : (es : List Event) (s : Session) → IsTrusted s → IsTrusted (run d es s)
  unfolding run
  run-IsTrusted [] s v = v
  run-IsTrusted (e ∷ es) s v = run-IsTrusted es (step d e s) (step-IsTrusted e s v)

-- A client opens a connection for a server only when the server has registered with the client's
-- token, and only to an address that the server gave for that tunnel: the request of this session for
-- some configured TCP, HTTP or HTTPS tunnel was written and answered with a response of the right type
-- that decodes and says ok, with this tunnel and this address.
pub opened_accepted :
    (d : Decoders) (auth_token name : Str) (o : Opening) (cfg : ClientConfig) (x y z : ℕ → Exchange)
    (es : List Event) (m : Mux) (i : ℕ) (oc : OpenConnection) (addr : Str)
    → let s = handle_server_conn d auth_token name cfg o x y z es m in
      get_elem? s.opened i ≡ some (oc, addr)
      → Accepted d auth_token name o × IsGranted d cfg x y z oc.tunnel_id addr
unfolding handle_server_conn
opened_accepted d auth_token name o cfg x y z es m i oc addr =
    let s0 = register_tunnels d cfg x y z (handshake d auth_token name o (new_session m)) in
    let before =
      register_tunnels-IsBefore d auth_token name o cfg x y z _
        (handshake-IsBefore d auth_token name o m) in
    let nothing : s0.opened ≡ [] = before.1 in
    if_cases
      (λ (s : Session).
        get_elem? s.opened i ≡ some (oc, addr)
        → Accepted d auth_token name o × IsGranted d cfg x y z oc.tunnel_id addr)
      s0.looping (run d es s0) s0
      (λ runs p.
        let v = run-IsTrusted d auth_token name o (IsGranted d cfg x y z) es s0 (record {
          accepted = before.0 runs;
          granted = register_tunnels-AreGranted d auth_token name o cfg x y z m;
          known = λ j c a q.
              absurd
                (ground (arith, ap (λ (l : List (OpenConnection × Str)). get_elem? l j) nothing));
        }) in
        (v.accepted, v.known i oc addr p))
      (λ stopped p.
        absurd (ground (arith, ap (λ (l : List (OpenConnection × Str)). get_elem? l i) nothing)))
