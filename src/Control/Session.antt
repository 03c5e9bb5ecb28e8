-- ===== src/Control/Session.antt =====
-- internal/control/handler.go: HandleControlConn, a control connection from the handshake to the
-- cleanup.
pub mod Cases
pub mod Traces
pub mod Channels
pub mod Targets
mod Runs
use reversproxy.Base.{
  ℕ, Bool, true, false, not, ◌&&◌, ◌||◌, ◌≡◌, List, [], ◌∷◌, ◌++◌, Option, none, some, map,
  if◌then◌else◌, ◌==◌, Str, codes, str_eq, is_empty, lookup,
}
use reversproxy.Base.Result.{Result, ok, err}
use reversproxy.Protocol.Messages.{
  Envelope, ClientRegister, RegisterResp, Pong, Disconnect, RequestTunnel, RequestHttpTunnel,
  RequestHttpsTunnel, SocksConnect, SocksReady, SocksData, SocksClose, msg_register_resp, msg_pong,
  msg_disconnect, msg_request_tunnel, msg_request_http_tunnel, msg_request_https_tunnel,
  msg_socks_connect, msg_socks_data, msg_socks_close,
}
use reversproxy.Tunnel.Manager.{Manager, remove_tunnels_for_client, remove_http_tunnels_for_client}
use reversproxy.Tunnel.Mux.{Mux, new_mux, deliver, deliver_close, close_all}
use reversproxy.Tunnel.Writer.{ControlConnRegistry, register_writer, deregister_writer}
use reversproxy.Control.Registry.{Client, Registry, register, deregister}
use reversproxy.Control.Requests.{
  Sent, sent_disconnect_ack, sent_socks_ready, Answers, Work, say, handle_request_tunnel,
  handle_request_http_tunnel, handle_request_https_tunnel,
}
use reversproxy.Control.Dials.{Net, Turn, Relays, over, handle_server_socks_connect, run_task}

-- The gob decoder of each message; `none` is its error.
pub record Decoders : Type 0 where
  pub register_resp : List ℕ → Option RegisterResp
  pub pong : List ℕ → Option Pong
  pub disconnect : List ℕ → Option Disconnect
  pub request_tunnel : List ℕ → Option RequestTunnel
  pub request_http_tunnel : List ℕ → Option RequestHttpTunnel
  pub request_https_tunnel : List ℕ → Option RequestHttpsTunnel
  pub socks_connect : List ℕ → Option SocksConnect
  pub socks_data : List ℕ → Option SocksData
  pub socks_close : List ℕ → Option SocksClose

-- The arguments of HandleControlConn and the package variable allowPrivateSOCKSTargets;
-- `has_manager` and `has_writers` are whether the pointers are not nil.
pub record Setup : Type 0 where
  pub data_addr : Str
  pub has_manager : Bool
  pub has_writers : Bool
  pub allow_private : Bool
  pub decoders : Decoders
  pub net : Net
  pub is_ip : Str → Bool
  pub decimal : ℕ → Str

-- What the control connections of all clients share.
pub record Server : Type 0 where
  pub registry : Registry
  pub writers : ControlConnRegistry
  pub manager : Manager

-- What happens while the handshake runs: `answer` is the message that is read, if one is.
pub record Opening : Type 0 where
  pub id : Str
  pub addr : Str
  pub conn : ℕ
  pub writer : ℕ
  pub deadline_ok : Bool
  pub write_ok : Bool
  pub answer : Option Envelope
  pub clear_ok : Bool

-- `heartbeat` is when the last Pong came, and `looping` is whether the message loop still runs.
pub record Session : Type 0 where
  pub client_id : Str
  pub conn : ℕ
  pub registry : Registry
  pub writers : ControlConnRegistry
  pub relays : Relays
  pub work : Work
  pub heartbeat : Option ℕ
  pub looping : Bool

-- One round of the message loop, which finds its context cancelled, cannot read, or handles a
-- message, or one step of a SOCKS goroutine.
pub data Event : Type 0 where
  cancels : Event
  read_fails : Event
  receives : Envelope → Answers → Event
  turns : ℕ → Turn → Event

-- The deferred conn.Close().
pub close_conn : ℕ → Registry → Registry
close_conn conn r = record r { closed = conn ∷ r.closed }

-- The deferred cleanup; Deregister comes before the cancel function, and conn.Close() last.
pub unregister : Str → ℕ → Registry → Registry
unfolding close_conn
unregister id conn r =
    let r1 = deregister id r in close_conn conn (record r1 { cancelled = id ∷ r1.cancelled })

pub clean_up : Setup → Session → Session
unfolding unregister
clean_up setup s = record s {
  relays = record s.relays { mux = close_all s.relays.mux };
  work =
      if setup.has_manager
      then record s.work {
        manager =
            remove_http_tunnels_for_client s.client_id
              (remove_tunnels_for_client s.client_id s.work.manager);
      }
      else s.work;
  writers = if setup.has_writers then deregister_writer s.client_id s.writers else s.writers;
  registry = unregister s.client_id s.conn s.registry;
  looping = false;
}

abbrev pub with_work : Session → Work → Session
with_work s w = record s { work = w }

abbrev pub with_mux : Session → Mux → Session
with_mux s m = record s { relays = record s.relays { mux = m } }

-- The cases of the message loop that concern SOCKS.
pub on_socks_connect : Option SocksConnect → Session → Session
on_socks_connect none s = s
on_socks_connect (some sc) s = record s { relays = handle_server_socks_connect sc s.relays }

-- The loop blocks until the Write that Deliver begins has returned; the events that follow in a run
-- may come before or after that.
pub on_socks_data : Option SocksData → Session → Session
on_socks_data none s = s
on_socks_data (some sd) s = elim (deliver sd.conn_id sd.payload s.relays.mux) [
  | err _ ↦ s
  | ok m ↦ with_mux s m
]

pub on_socks_close : Option SocksClose → Session → Session
on_socks_close none s = s
on_socks_close (some sc) s = with_mux s (deliver_close sc.conn_id s.relays.mux)

pub on_pong : Option Pong → Answers → Session → Session
on_pong none a s = s
on_pong (some _) a s = record s { heartbeat = some a.now }

-- The cases that need the manager; without one the message is ignored.
pub requests : Setup → Envelope → Answers → Session → Work
requests setup env a s =
    let d = setup.decoders in
    if not setup.has_manager
    then s.work
    else (if env.type == msg_request_tunnel
        then handle_request_tunnel setup.decimal (d.request_tunnel env.payload) a s.client_id
            setup.data_addr s.work
        else (if env.type == msg_request_http_tunnel
            then handle_request_http_tunnel (d.request_http_tunnel env.payload) a s.client_id
                setup.data_addr s.work
            else handle_request_https_tunnel (d.request_https_tunnel env.payload) a s.client_id
                setup.data_addr s.work))

abbrev pub is_request : ℕ → Bool
is_request type =
    type == msg_request_tunnel
    || type == msg_request_http_tunnel
    || type == msg_request_https_tunnel

pub dispatch : Setup → Envelope → Answers → Session → Session
unfolding on_pong clean_up requests on_socks_connect on_socks_data on_socks_close
dispatch setup env a s =
    let d = setup.decoders in
    if env.type == msg_pong
    then on_pong (d.pong env.payload) a s
    else (if env.type == msg_disconnect
        then clean_up setup (with_work s (say sent_disconnect_ack s.work))
        else (if is_request env.type
            then with_work s (requests setup env a s)
            else (if env.type == msg_socks_connect
                then on_socks_connect (d.socks_connect env.payload) s
                else (if env.type == msg_socks_data
                    then on_socks_data (d.socks_data env.payload) s
                    else (if env.type == msg_socks_close
                        then on_socks_close (d.socks_close env.payload) s
                        else s)))))

-- The goroutines go on after the loop has ended.
pub turn : Setup → ℕ → Turn → Session → Session
turn setup i t s =
    let (r, sent) = run_task setup.net setup.is_ip setup.allow_private i t s.relays in
    record s {
      relays = r;
      work = record s.work { sent = map sent_socks_ready sent ++ s.work.sent };
    }

pub step : Setup → Event → Session → Session
unfolding dispatch turn
step setup cancels s = if s.looping then clean_up setup s else s
step setup read_fails s = if s.looping then clean_up setup s else s
step setup (receives env a) s = if s.looping then dispatch setup env a s else s
step setup (turns i t) s = turn setup i t s

pub run : Setup → List Event → Session → Session
unfolding step
run setup [] s = s
run setup (e ∷ es) s = run setup es (step setup e s)

abbrev pub no_tasks : Relays
no_tasks = record { mux = new_mux; tasks = λ _. over; next_task = 0 }

-- The message that the server sends first.
abbrev pub greeting : Str → ClientRegister
greeting auth_token = record {
  auth_token = auth_token;
  name = codes "server";
  version = codes "0.1.0";
}

-- The connection is closed and nothing else has changed.
unfoldable pub give_up : Opening → Server → Server
unfolding close_conn
give_up o srv = record srv { registry = close_conn o.conn srv.registry }

-- The name that the client answered, or its address.
pub client_name : Opening → RegisterResp → Str
client_name o resp = if is_empty resp.server_id then o.addr else resp.server_id

-- The session when the message loop starts.
pub first_session : Setup → Opening → RegisterResp → Server → Session
first_session setup o resp srv = record {
  client_id = o.id;
  conn = o.conn;
  registry = (register o.id (client_name o resp) o.addr (some o.conn) true srv.registry).1;
  writers = if setup.has_writers then register_writer o.id o.writer srv.writers else srv.writers;
  relays = no_tasks;
  work = record { manager = srv.manager; sent = []; served = [] };
  heartbeat = none;
  looping = true;
}

-- The client is registered; if the deadline cannot be cleared it is taken out again.
unfoldable pub admit : Setup → Opening → RegisterResp → Server → Result Server Session
admit setup o resp srv =
    let s = first_session setup o resp srv in
    if not o.clear_ok
    then err (record srv { registry = unregister o.id o.conn s.registry })
    else ok s

unfoldable pub answered : Setup → Opening → Option RegisterResp → Server → Result Server Session
unfolding give_up admit
answered setup o none srv = err (give_up o srv)
answered setup o (some resp) srv =
    if str_eq resp.status (codes "ok") then admit setup o resp srv else err (give_up o srv)

unfoldable pub read_answer : Setup → Opening → Option Envelope → Server → Result Server Session
unfolding answered
read_answer setup o none srv = err (give_up o srv)
read_answer setup o (some env) srv =
    if not (env.type == msg_register_resp)
    then err (give_up o srv)
    else answered setup o (setup.decoders.register_resp env.payload) srv

-- The registration phase: the session, or the server after a handshake that failed.
unfoldable pub open_session : Setup → Opening → Server → Result Server Session
unfolding read_answer
open_session setup o srv =
    if not o.deadline_ok || not o.write_ok
    then err (give_up o srv)
    else read_answer setup o o.answer srv
