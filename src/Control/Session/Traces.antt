-- ===== src/Control/Session/Traces.antt =====
-- internal/control/handler.go: what a control connection leaves behind.
use reversproxy.Base.{
  ℕ, ◌≡◌, refl, sym, ap, subst, ◌∙◌, inl, inr, ◌⊎◌, Bool, true, false, List, [], ◌∷◌, Option, none,
  some, if◌then◌else◌, Str, str_eq, insert, lookup, lookup-insert, lookup-delete, arith,
}
use reversproxy.Base.Result.{ok, Result-cases}
use reversproxy.Protocol.Messages.{Envelope, Pong, SocksConnect, SocksData, SocksClose}
use reversproxy.Tunnel.Manager.{Manager, get_tunnel, get_http_tunnel, get_https_tunnel}
use reversproxy.Tunnel.Manager.Hosts.{without}
use reversproxy.Tunnel.Manager.Calls.{IsSound}
use reversproxy.Tunnel.Mux.{deliver}
use reversproxy.Tunnel.Writer.{ControlConnRegistry, get_writer, register_writer, deregister_writer}
use reversproxy.Control.Registry.{Registry, get_client, register, deregister}
use reversproxy.Control.Requests.{sent_disconnect_ack, Answers, Work, say}
use reversproxy.Control.Dials.{Turn, Relays}
use reversproxy.Control.Requests.Tables.{
  tunnel_without, IsBeside, same-IsAside, remove-IsBeside, handle_request_tunnel-IsBeside,
  handle_request_http_tunnel-IsBeside, handle_request_https_tunnel-IsBeside,
}
use reversproxy.Control.Session.Cases.{if_both, dispatch_cases, open_session_ok}
use reversproxy.Control.Session.{
  Setup, Server, Opening, Session, Event, cancels, read_fails, receives, turns, clean_up, on_pong,
  on_socks_connect, on_socks_data, on_socks_close, requests, dispatch, turn, step, run,
  first_session, unregister, close_conn, open_session,
}

-- The identity that a message's handling would give a tunnel names no tunnel of the manager.
abbrev pub IsFreshFor : Event → Session → Type 0
IsFreshFor (receives env a) s = lookup a.uuid s.work.manager.tunnels ≡ none
IsFreshFor _ s = Unit {0}

abbrev pub IsFreshAlong : Setup → List Event → Session → Type 0
IsFreshAlong setup [] s = Unit {0}
IsFreshAlong setup (e ∷ es) s = IsFreshFor e s × IsFreshAlong setup es (step setup e s)

-- Nothing of client `c` is left in a manager, and the rest is as in the first one.
pub record IsRid (c : Str) (m n : Manager) : Type 0 where
  pub tunnels : (id : Str) → get_tunnel n id ≡ tunnel_without c (get_tunnel m id)
  pub http : (h : Str) → get_http_tunnel n h ≡ without c (get_http_tunnel m h)
  pub https : (h : Str) → get_https_tunnel n h ≡ without c (get_https_tunnel m h)

module _ (setup : Setup) (managed : setup.has_manager ≡ true) (first : Session) (m : Manager) where
  -- While the loop runs, and when it has ended.
  record IsLooping (s : Session) : Type 0 where
    pub client : s.client_id ≡ first.client_id
    pub conn : s.conn ≡ first.conn
    pub registry : s.registry ≡ first.registry
    pub writers : s.writers ≡ first.writers
    pub runs : s.looping ≡ true
    pub beside : IsBeside first.client_id m s.work.manager

  record IsEnded (s : Session) : Type 0 where
    pub registry : s.registry ≡ unregister first.client_id first.conn first.registry
    pub writers : s.writers ≡ (
        if setup.has_writers
        then deregister_writer first.client_id first.writers
        else first.writers)
    pub runs : s.looping ≡ false
    pub rid : IsRid first.client_id m s.work.manager

  abbrev IsEither : Session → Type 0
  IsEither s = IsLooping s ⊎ IsEnded s

  clean_up-IsEnded : (s : Session) → IsLooping s → IsEnded (clean_up setup s)
  unfolding clean_up
  clean_up-IsEnded s v =
      let (t, h, hs) = remove-IsBeside first.client_id m s.work.manager v.beside in
      record {
        registry = ground (arith, v.client, v.conn, v.registry);
        writers = ground (arith, v.client, v.writers);
        runs = refl;
        rid = rw (managed, v.client) (record { tunnels = t; http = h; https = hs });
      }

  requests-IsBeside :
      (env : Envelope) (a : Answers) (s : Session)
      → lookup a.uuid s.work.manager.tunnels ≡ none
      → IsLooping s
      → IsBeside first.client_id m (requests setup env a s).manager
  unfolding requests
  requests-IsBeside env a s fresh v =
      rw (managed, v.client)
        (if_both (λ (w : Work). IsBeside first.client_id m w.manager) _ _ _
          (handle_request_tunnel-IsBeside a first.client_id setup.data_addr m s.work v.beside
            setup.decimal _ fresh)
          (if_both (λ (w : Work). IsBeside first.client_id m w.manager) _ _ _
            (handle_request_http_tunnel-IsBeside a first.client_id setup.data_addr m s.work v.beside
              _)
            (handle_request_https_tunnel-IsBeside a first.client_id setup.data_addr m s.work
              v.beside _)))

  relays-IsLooping : (s : Session) (r : Relays) → IsLooping s → IsLooping (record s { relays = r })
  relays-IsLooping s r v = record {
    client = v.client;
    conn = v.conn;
    registry = v.registry;
    writers = v.writers;
    runs = v.runs;
    beside = v.beside;
  }

  work-IsLooping :
      (s : Session) (w : Work)
      → IsBeside first.client_id m w.manager
      → IsLooping s
      → IsLooping (record s { work = w })
  work-IsLooping s w b v = record {
    client = v.client;
    conn = v.conn;
    registry = v.registry;
    writers = v.writers;
    runs = v.runs;
    beside = b;
  }

  on_pong-IsLooping :
      (d : Option Pong) (a : Answers) (s : Session) → IsLooping s → IsLooping (on_pong d a s)
  unfolding on_pong
  on_pong-IsLooping none a s v = v
  on_pong-IsLooping (some p) a s v = record {
    client = v.client;
    conn = v.conn;
    registry = v.registry;
    writers = v.writers;
    runs = v.runs;
    beside = v.beside;
  }

  on_socks_connect-IsLooping :
      (d : Option SocksConnect) (s : Session) → IsLooping s → IsLooping (on_socks_connect d s)
  unfolding on_socks_connect
  on_socks_connect-IsLooping none s v = v
  on_socks_connect-IsLooping (some sc) s v = relays-IsLooping s _ v

  on_socks_data-IsLooping :
      (d : Option SocksData) (s : Session) → IsLooping s → IsLooping (on_socks_data d s)
  unfolding on_socks_data
  on_socks_data-IsLooping none s v = v
  on_socks_data-IsLooping (some sd) s v =
      elim (Result-cases (deliver sd.conn_id sd.payload s.relays.mux)) [
        | inl (_, e) ↦ rw (e, on_socks_data) v
        | inr (n, e) ↦ rw (e, on_socks_data) (relays-IsLooping s _ v)
      ]

  on_socks_close-IsLooping :
      (d : Option SocksClose) (s : Session) → IsLooping s → IsLooping (on_socks_close d s)
  unfolding on_socks_close
  on_socks_close-IsLooping none s v = v
  on_socks_close-IsLooping (some sc) s v = relays-IsLooping s _ v

  dispatch-IsEither :
      (env : Envelope) (a : Answers) (s : Session)
      → lookup a.uuid s.work.manager.tunnels ≡ none
      → IsLooping s
      → IsEither (dispatch setup env a s)
  dispatch-IsEither env a s fresh v =
      dispatch_cases IsEither setup env a s (inl (on_pong-IsLooping _ a s v))
        (inr (clean_up-IsEnded _ (work-IsLooping s (say sent_disconnect_ack s.work) v.beside v)))
        (inl (work-IsLooping s _ (requests-IsBeside env a s fresh v) v))
        (inl (on_socks_connect-IsLooping _ s v)) (inl (on_socks_data-IsLooping _ s v))
        (inl (on_socks_close-IsLooping _ s v)) (inl v)

  -- A goroutine's step touches neither the tables nor the registries.
  turn-IsEither : (i : ℕ) (t : Turn) (s : Session) → IsEither s → IsEither (turn setup i t s)
  unfolding turn
  turn-IsEither i t s (inl v) = inl (record {
    client = v.client;
    conn = v.conn;
    registry = v.registry;
    writers = v.writers;
    runs = v.runs;
    beside = v.beside;
  })
  turn-IsEither i t s (inr v) =
      inr (record { registry = v.registry; writers = v.writers; runs = v.runs; rid = v.rid })

  -- A round of the loop happens only while it runs.
  ended_once :
      (s n : Session)
      → IsEither s
      → (IsLooping s → IsEither n)
      → IsEither (if s.looping then n else s)
  ended_once s n (inl v) onward = subst (λ b. IsEither (if b then n else s)) (sym v.runs) (onward v)
  ended_once s n (inr v) onward = subst (λ b. IsEither (if b then n else s)) (sym v.runs) (inr v)

  step-IsEither :
      (e : Event) (s : Session) → IsFreshFor e s → IsEither s → IsEither (step setup e s)
  unfolding step
  step-IsEither cancels s fresh v =
      ended_once s (clean_up setup s) v (λ w. inr (clean_up-IsEnded s w))
  step-IsEither read_fails s fresh v =
      ended_once s (clean_up setup s) v (λ w. inr (clean_up-IsEnded s w))
  step-IsEither (receives env a) s fresh v =
      ended_once s (dispatch setup env a s) v (dispatch-IsEither env a s fresh)
  step-IsEither (turns i t) s fresh v = turn-IsEither i t s v

  run-IsEither :
      (es : List Event) (s : Session)
      → IsFreshAlong setup es s
      → IsEither s
      → IsEither (run setup es s)
  unfolding run
  run-IsEither [] s fresh v = v
  run-IsEither (e ∷ es) s (f, fs) v = run-IsEither es (step setup e s) fs (step-IsEither e s f v)

get_client-unregister :
    (id j : Str) (conn : ℕ) (name addr : Str) (has_cancel : Bool) (r : Registry)
    → get_client j (unregister id conn (register id name addr (some conn) has_cancel r).1)
      ≡ (if str_eq id j then none else get_client j r)
unfolding get_client unregister register deregister close_conn
get_client-unregister id j conn name addr has_cancel r = ground (
  arith,
  lookup-delete id j (register id name addr (some conn) has_cancel r).1.clients,
  lookup-insert id j (register id name addr (some conn) has_cancel r).0 r.clients,
)

get_writer-deregister_writer :
    (id j : Str) (w : ℕ) (r : ControlConnRegistry)
    → get_writer j (deregister_writer id (register_writer id w r))
      ≡ (if str_eq id j then none else get_writer j r)
unfolding get_writer deregister_writer register_writer
get_writer-deregister_writer id j w r =
    ground (arith, lookup-delete id j (insert id w r.writers), lookup-insert id j w r.writers)

-- When the message loop of a session has ended, whatever came before and whatever its goroutines
-- still do, nothing of the client is left in the tables of tunnels and hostnames, in the client
-- registry and in the registry of writers; and what the others have there is what they had when
-- the connection was opened. Each new tunnel must have had a fresh identity.
pub session_leaves_no_trace :
    (setup : Setup) (o : Opening) (srv : Server) (s : Session) (es : List Event)
    → setup.has_manager ≡ true
    → setup.has_writers ≡ true
    → IsSound srv.manager
    → open_session setup o srv ≡ ok s
    → IsFreshAlong setup es s
    → (run setup es s).looping ≡ false
    → IsRid o.id srv.manager (run setup es s).work.manager
      × ((id : Str)
          → get_client id (run setup es s).registry
            ≡ (if str_eq o.id id then none else get_client id srv.registry))
      × ((id : Str)
          → get_writer id (run setup es s).writers
            ≡ (if str_eq o.id id then none else get_writer id srv.writers))
unfolding first_session
session_leaves_no_trace setup o srv s es managed written sound e fresh stopped =
    let (resp, same, _) = open_session_ok setup o srv s e in
    let start : IsLooping setup managed (first_session setup o resp srv) srv.manager s =
      rw same (record {
        client = refl;
        conn = refl;
        registry = refl;
        writers = refl;
        runs = refl;
        beside = record {
          ports = sound.ports;
          tunnels = λ id. refl;
          http = same-IsAside o.id srv.manager.http sound.http;
          https = same-IsAside o.id srv.manager.https sound.https;
        };
      }) in
    elim (run-IsEither setup managed (first_session setup o resp srv) srv.manager es s fresh
      (inl start)) [
        | inl v ↦ absurd (ground (arith, v.runs))
        | inr v ↦ (
          v.rid,
          λ id.
              ap (get_client id) v.registry
              ∙ (get_client-unregister o.id id o.conn _ o.addr true srv.registry),
          λ id.
              ap (get_writer id) v.writers
              ∙ (rw written (get_writer-deregister_writer o.id id o.writer srv.writers)),
        )
      ]
