-- ===== src/Client/Session/Entry.antt =====
-- internal/client/handler.go: how a session gets to its message loop.
use reversproxy.Base.{
  ℕ, suc, ◌≡◌, refl, inl, inr, true, not, List, [], ◌∷◌, Option, none, some, if◌then◌else◌, ◌==◌,
  Bool-cases, if_cases, map, Str, codes, str_eq, str_eq_sound, arith,
}
use reversproxy.Protocol.Messages.{
  Envelope, ClientRegister, msg_client_register, msg_tunnel_resp, msg_http_tunnel_resp,
}
use reversproxy.Tunnel.Mux.{Mux}
use reversproxy.Client.Session.{
  Sent, register_error, Decoders, ClientConfig, Session, Opening, Exchange, say, leave, welcome,
  on_register, read_register, handshake, Granted, grant, read_grant, ask, ask_each,
  register_tunnels, register_tcp, register_http, register_https, tunnel_grant, http_tunnel_grant,
  sent_request_tunnel, sent_request_http_tunnel, sent_request_https_tunnel, new_session,
}

module _ (d : Decoders) (auth_token name : Str) (o : Opening) where
  -- The message of the handshake was a registration with the client's token.
  abbrev pub Accepted : Type 0
  Accepted =
      (env : Envelope) × (msg : ClientRegister) × (o.answer ≡ some env)
      × (env.type == msg_client_register ≡ true)
      × (d.client_register env.payload ≡ some msg)
      × (msg.auth_token ≡ auth_token)

  -- Before the message loop: it is reached only with the right token, and nothing is open.
  abbrev pub IsBefore : Session → Type 0
  IsBefore s = (s.looping ≡ true → Accepted) × (s.opened ≡ [])

  leave-IsBefore : (s : Session) → s.opened ≡ [] → IsBefore (leave s)
  unfolding leave
  leave-IsBefore s e = (λ q. cc, e)

  welcome-IsBefore :
      (msg : ClientRegister) (s : Session)
      → Accepted
      → s.opened ≡ []
      → IsBefore (welcome name msg o s)
  unfolding welcome leave
  welcome-IsBefore msg s a e = (λ q. a, ground arith)

  on_register-IsBefore :
      (env : Envelope) (r : Option ClientRegister) (s : Session)
      → o.answer ≡ some env
      → env.type == msg_client_register ≡ true
      → d.client_register env.payload ≡ r
      → s.opened ≡ []
      → IsBefore (on_register auth_token name r o s)
  unfolding on_register
  on_register-IsBefore env none s p q r e =
      leave-IsBefore (say (register_error (codes "malformed ClientRegister payload")) s) e
  on_register-IsBefore env (some msg) s p q r e =
      if_cases IsBefore (not (str_eq msg.auth_token auth_token)) _ _
        (λ other. leave-IsBefore (say (register_error (codes "invalid token")) s) e)
        (λ same. welcome-IsBefore msg s (env, msg, p, q, r, str_eq_sound _ _ (ground arith)) e)

  read_register-IsBefore :
      (r : Option Envelope) (s : Session)
      → o.answer ≡ r
      → s.opened ≡ []
      → IsBefore (read_register d auth_token name r o s)
  unfolding read_register
  read_register-IsBefore none s p e = leave-IsBefore s e
  read_register-IsBefore (some env) s p e =
      if_cases IsBefore (not (env.type == msg_client_register)) _ _ (λ other. leave-IsBefore s e)
        (λ same. on_register-IsBefore env (d.client_register env.payload) s p (ground arith) refl e)

  pub handshake-IsBefore : (m : Mux) → IsBefore (handshake d auth_token name o (new_session m))
  unfolding handshake
  handshake-IsBefore m =
      if_cases IsBefore (not o.deadline_ok) _ _ (λ fails. leave-IsBefore (new_session m) refl)
        (λ fine. read_register-IsBefore o.answer (new_session m) refl refl)

  grant-IsBefore : (g : Option Granted) (s : Session) → IsBefore s → IsBefore (grant g s)
  unfolding grant
  grant-IsBefore none s (a, e) = leave-IsBefore s e
  grant-IsBefore (some g) s (a, e) = elim (Bool-cases (str_eq g.status (codes "ok"))) [
    | inl fine ↦ rw (fine, grant) (a, e)
    | inr fails ↦ rw (fails, grant) (leave-IsBefore s e)
  ]

  read_grant-IsBefore :
      (expected : ℕ) (decode : List ℕ → Option Granted) (r : Option Envelope) (s : Session)
      → IsBefore s
      → IsBefore (read_grant expected decode r s)
  unfolding read_grant
  read_grant-IsBefore expected decode none s (a, e) = leave-IsBefore s e
  read_grant-IsBefore expected decode (some env) s (a, e) =
      elim (Bool-cases (env.type == expected)) [
        | inl same ↦ rw (same, read_grant) (grant-IsBefore _ s (a, e))
        | inr other ↦ rw (other, read_grant) (leave-IsBefore s e)
      ]

  ask-IsBefore :
      (expected : ℕ) (decode : List ℕ → Option Granted) (x : Exchange) (r : Sent) (s : Session)
      → IsBefore s
      → IsBefore (ask expected decode x r s)
  unfolding ask
  ask-IsBefore expected decode x r s (a, e) = elim (Bool-cases x.write_ok) [
    | inl fine ↦ rw (fine, ask) (read_grant-IsBefore expected decode x.answer (say r s) (a, e))
    | inr fails ↦ rw (fails, ask) (leave-IsBefore (say r s) e)
  ]

  ask_each-IsBefore :
      (expected : ℕ) (decode : List ℕ → Option Granted) (x : ℕ → Exchange) (i : ℕ) (rs : List Sent)
      (s : Session)
      → IsBefore s
      → IsBefore (ask_each expected decode x i rs s)
  unfolding ask_each
  ask_each-IsBefore expected decode x i [] s v = v
  ask_each-IsBefore expected decode x i (r ∷ rs) s v =
      ask_each-IsBefore expected decode x (suc i) rs
        (if s.looping then ask expected decode (x i) r s else s)
        (if_cases IsBefore s.looping (ask expected decode (x i) r s) s
          (λ runs. ask-IsBefore expected decode (x i) r s v) (λ stopped. v))

  module _ (cfg : ClientConfig) where
    register_tcp-IsBefore :
        (x : ℕ → Exchange) (s : Session) → IsBefore s → IsBefore (register_tcp d cfg x s)
    unfolding register_tcp
    register_tcp-IsBefore x s v =
        ask_each-IsBefore msg_tunnel_resp (tunnel_grant d) x 0 (map sent_request_tunnel cfg.tunnels)
          s v

    register_http-IsBefore :
        (x : ℕ → Exchange) (s : Session) → IsBefore s → IsBefore (register_http d cfg x s)
    unfolding register_http
    register_http-IsBefore x s v =
        ask_each-IsBefore msg_http_tunnel_resp (http_tunnel_grant d) x 0
          (map sent_request_http_tunnel cfg.http_tunnels) s v

    register_https-IsBefore :
        (x : ℕ → Exchange) (s : Session) → IsBefore s → IsBefore (register_https d cfg x s)
    unfolding register_https
    register_https-IsBefore x s v =
        ask_each-IsBefore msg_http_tunnel_resp (http_tunnel_grant d) x 0
          (map sent_request_https_tunnel cfg.https_tunnels) s v

    pub register_tunnels-IsBefore :
        (x y z : ℕ → Exchange) (s : Session)
        → IsBefore s
        → IsBefore (register_tunnels d cfg x y z s)
    unfolding register_tunnels
    register_tunnels-IsBefore x y z s v =
        register_https-IsBefore z _ (register_http-IsBefore y _ (register_tcp-IsBefore x s v))
