-- ===== src/Control/Session/Runs.antt =====
-- internal/control/handler.go: a session on given messages.
use reversproxy.Base.{
  ℕ, ◌≡◌, refl, true, false, List, [], ◌∷◌, none, some, if◌then◌else◌, Str, str_eq, codes, lookup,
  insert, is_empty, arith,
}
use reversproxy.Base.Result.{ok}
use reversproxy.Protocol.Messages.{SocksConnect}
use reversproxy.Protocol.Validation.{validate_target, validate_domain}
use reversproxy.Tunnel.Manager.{new_manager, add_tunnel, add_http_tunnel}
use reversproxy.Tunnel.Manager.Calls.{new_manager-IsSound}
use reversproxy.Tunnel.Table.{add_route, empty_table}
use reversproxy.Tunnel.Mux.{new_mux, new_channel}
use reversproxy.Tunnel.Writer.{get_writer}
use reversproxy.Control.Registry.{get_client}
use reversproxy.Control.Requests.{
  Answers, handle_request_tunnel, handle_request_http_tunnel, open_tunnel,
}
use reversproxy.Control.Dials.{
  Net, Turn, relaying, run_task, handle_server_socks_connect, control_allows, is_blocked_target_ip,
}
use reversproxy.Control.Dials.Vetting.{IsOutside}
use reversproxy.Control.Dials.Holders.{holds}
use reversproxy.Control.Session.{
  Decoders, Setup, Server, Opening, Session, Event, receives, turns, open_session, run,
  first_session,
}
use reversproxy.Control.Session.Traces.{IsRid, IsFreshAlong, session_leaves_no_trace}
use reversproxy.Control.Session.Channels.{channels_released}
use reversproxy.Control.Session.Targets.{tasks-IsOutside}

-- Every payload decodes to the same message of its type; the name "b" is the client's, the
-- target of its SOCKS user is a:80, and the host it wants to serve is "h".
abbrev connect : SocksConnect
connect = record { conn_id = codes "k"; target_host = codes "a"; target_port = 80; data_token = [] }

abbrev decoders : Decoders
decoders = record {
  register_resp = λ _.
      some (record {
        assigned_client_id = [];
        server_id = codes "b";
        status = codes "ok";
        error = [];
      });
  pong = λ _. some (record { seq = 1 });
  disconnect = λ _. some (record { reason = [] });
  request_tunnel =
      λ _. some (record { local_host = codes "l"; local_port = 22; requested_port = 9000 });
  request_http_tunnel =
      λ _. some (record { hostname = codes "h"; local_host = codes "l"; local_port = 80 });
  request_https_tunnel = λ _. none;
  socks_connect = λ _. some connect;
  socks_data = λ _. none;
  socks_close = λ _. none;
}

-- No address is internal.
abbrev net : Net
net = record {
  is_loopback = λ _. false;
  is_private = λ _. false;
  is_link_local_unicast = λ _. false;
  is_link_local_multicast = λ _. false;
  is_unspecified = λ _. false;
  is_multicast = λ _. false;
  parse_ip = λ s. some s;
  split_host_port = λ s. some (s, []);
  validation_text = λ _. [];
  mux_text = λ _. [];
  refusal_text = λ _. [];
}

abbrev setup : Setup
setup = record {
  data_addr = codes "d";
  has_manager = true;
  has_writers = true;
  allow_private = false;
  decoders = decoders;
  net = net;
  is_ip = λ s. str_eq s (codes "a");
  decimal = λ _. [];
}

abbrev server : Server
server = record {
  registry = record { clients = []; cancelled = []; closed = [] };
  writers = record { writers = [] };
  manager = new_manager;
}

abbrev opening : Opening
opening = record {
  id = codes "c";
  addr = codes "x";
  conn = 3;
  writer = 4;
  deadline_ok = true;
  write_ok = true;
  answer = some (record { type = 2; payload = [] });
  clear_ok = true;
}

abbrev answers : Str → Answers
answers uuid = record { now = 5; uuid = uuid; listens = ok (7, 9000); write_ok = true }

abbrev dials : Turn
dials = record { resolved = ok (codes "a"); write_ok = true }

abbrev message : ℕ → Str → Event
message type uuid = receives (record { type = type; payload = [] }) (answers uuid)

-- The requests for a tunnel, a hostname and a SOCKS connection, and the copying of its bytes.
abbrev busy : List Event
busy =
    message 11 (codes "t")
    ∷ message 7 (codes "u")
    ∷ message 14 (codes "v")
    ∷ turns 0 dials
    ∷ turns 0 dials
    ∷ []

-- The client disconnects, and the goroutine comes to its end.
abbrev leaves : List Event
leaves =
    message 11 (codes "t")
    ∷ message 7 (codes "u")
    ∷ message 14 (codes "v")
    ∷ turns 0 dials
    ∷ turns 0 dials
    ∷ message 5 (codes "w")
    ∷ turns 0 dials
    ∷ turns 0 dials
    ∷ []

session : Session
session =
    first_session setup opening
      (record { assigned_client_id = []; server_id = codes "b"; status = codes "ok"; error = [] })
      server

opens : open_session setup opening server ≡ ok session
unfolding open_session str_eq session
opens = refl

busy_runs : (run setup busy session).relays.tasks 0 ≡ relaying connect (codes "a")
unfolding run session run_task first_session handle_server_socks_connect validate_target
    validate_domain is_empty str_eq new_channel lookup new_mux control_allows is_blocked_target_ip
busy_runs = refl

tasks-IsOutside_example :
    (validate_target setup.is_ip (codes "a") 80 1 ≡ ok tt) × IsOutside net (codes "a")
tasks-IsOutside_example =
    tasks-IsOutside setup opening server session busy 0 connect (codes "a") refl opens busy_runs

leaves_idle : (i : ℕ) (k : Str) → holds k ((run setup leaves session).relays.tasks i) ≡ false
unfolding run session run_task first_session handle_server_socks_connect validate_target
    validate_domain is_empty str_eq new_channel lookup new_mux control_allows is_blocked_target_ip
    holds
leaves_idle i k = ground arith

channels_released_example :
    ((run setup leaves session).relays.mux.channels ≡ [])
    × ((run setup leaves session).relays.mux.wg ≡ 0)
    × ((run setup leaves session).relays.mux.negative ≡ false)
channels_released_example = channels_released setup opening server session leaves opens leaves_idle

leaves_stopped : (run setup leaves session).looping ≡ false
unfolding run session first_session
leaves_stopped = refl

leaves_fresh : IsFreshAlong setup leaves session
unfolding run session run_task first_session handle_server_socks_connect validate_target
    validate_domain is_empty str_eq new_channel lookup new_mux control_allows is_blocked_target_ip
    handle_request_http_tunnel handle_request_tunnel open_tunnel new_manager add_http_tunnel
    add_tunnel add_route empty_table insert
leaves_fresh = (refl, (refl, (refl, (tt, (tt, (refl, (tt, (tt, tt))))))))

session_leaves_no_trace_example :
    IsRid (codes "c") new_manager (run setup leaves session).work.manager
    × ((id : Str)
        → get_client id (run setup leaves session).registry
          ≡ (if str_eq (codes "c") id then none else get_client id server.registry))
    × ((id : Str)
        → get_writer id (run setup leaves session).writers
          ≡ (if str_eq (codes "c") id then none else get_writer id server.writers))
session_leaves_no_trace_example =
    session_leaves_no_trace setup opening server session leaves refl refl new_manager-IsSound opens
      leaves_fresh leaves_stopped
