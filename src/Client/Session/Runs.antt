-- ===== src/Client/Session/Runs.antt =====
-- internal/client/handler.go: a session on given messages.
use reversproxy.Base.{
  ℕ, ◌≡◌, refl, true, false, List, [], ◌∷◌, Option, none, some, if◌then◌else◌, Str, codes, str_eq,
  is_empty, lookup, insert, get_elem?, length, take, drop, ◌++◌, take-length_append,
  drop-length_append,
}
use reversproxy.Base.Result.{ok, err}
use reversproxy.Protocol.Messages.{RegisterResp, OpenConnection}
use reversproxy.Tunnel.Mux.{new_mux}
use reversproxy.Tunnel.Manager.{new_manager}
use reversproxy.Control.Session as Control
use reversproxy.Control.Session.{Setup, Server, greeting, give_up, first_session, open_session}
use reversproxy.Client.Session.{
  Decoders, ClientConfig, Opening, Exchange, Event, receives, new_session, handle_server_conn,
  handshake, sent_register_resp,
}
use reversproxy.Client.Session.Grants.{IsGranted}
use reversproxy.Client.Session.Entry.{Accepted}
use reversproxy.Client.Session.Trust.{opened_accepted}
use reversproxy.Client.Session.Handshake.{hearing, answering, handshake-open_session}

abbrev call : OpenConnection
call = record {
  tunnel_id = codes "t";
  conn_id = codes "k";
  local_host = codes "l";
  local_port = 80;
  data_token = codes "z";
}

-- Every payload decodes to the same message of its type.
abbrev decoders : Decoders
decoders = record {
  client_register = λ _. some (greeting (codes "token"));
  tunnel_resp = λ _. some (record {
    tunnel_id = codes "t";
    public_port = 9000;
    server_data_addr = codes "d";
    status = codes "ok";
    error = [];
  });
  http_tunnel_resp = λ _. none;
  ping = λ _. none;
  open_connection = λ _. some call;
  socks_ready = λ _. none;
  socks_data = λ _. none;
  socks_close = λ _. none;
}

abbrev config : ClientConfig
config = record {
  tunnels = record { local_host = codes "l"; local_port = 80; requested_port = 9000 } ∷ [];
  http_tunnels = [];
  https_tunnels = [];
}

abbrev starts : Opening
starts = record {
  deadline_ok = true;
  answer = some (record { type = 1; payload = [] });
  write_ok = true;
  clear_ok = true;
}

abbrev exchange : ℕ → Exchange
exchange i = record { write_ok = true; answer = some (record { type = 8; payload = [] }) }

abbrev calls : List Event
calls = receives (record { type = 9; payload = [] }) true ∷ []

calls_open :
    get_elem?
      (handle_server_conn decoders
        (codes "token")
        (codes "pc")
        config
        starts
        exchange
        exchange
        exchange
        calls
        new_mux).opened
      0
    ≡ some (call, codes "d")
unfolding handle_server_conn str_eq is_empty lookup insert
calls_open = refl

opened_accepted_example :
    Accepted decoders (codes "token") (codes "pc") starts
    × IsGranted decoders config exchange exchange exchange (codes "t") (codes "d")
opened_accepted_example =
    opened_accepted decoders (codes "token") (codes "pc") starts config exchange exchange exchange
      calls new_mux 0 call (codes "d") calls_open

-- An encoding of the answer: the length of each field, and then its bytes.
put : Str → List ℕ → List ℕ
put s rest = length s ∷ s ++ rest

split : List ℕ → Str × List ℕ
split [] = ([], [])
split (n ∷ bytes) = (take n bytes, drop n bytes)

split-put : (s : Str) (rest : List ℕ) → split (put s rest) ≡ (s, rest)
unfolding split put
split-put s rest = λ i. (take-length_append s rest i, drop-length_append s rest i)

encode : RegisterResp → List ℕ
encode r = put r.assigned_client_id (put r.server_id (put r.status (put r.error [])))

build : Str → Str → Str → Str → Option RegisterResp
build a b c e = some (record { assigned_client_id = a; server_id = b; status = c; error = e })

decode : List ℕ → Option RegisterResp
decode bytes =
    let x = split bytes in let y = split x.1 in let z = split y.1 in build x.0 y.0 z.0 (split z.1).0

decode-encode : (r : RegisterResp) → decode (encode r) ≡ some r
unfolding decode encode build
decode-encode r =
    rw
      (
        split-put r.assigned_client_id (put r.server_id (put r.status (put r.error []))),
        split-put r.server_id (put r.status (put r.error [])),
        split-put r.status (put r.error []),
        split-put r.error [],
      )
      refl

-- The server of a client that has chosen the same token, and that decodes answers so.
abbrev setup : Setup
setup = record {
  data_addr = codes "d";
  has_manager = true;
  has_writers = true;
  allow_private = false;
  decoders = record {
    register_resp = decode;
    pong = λ _. none;
    disconnect = λ _. none;
    request_tunnel = λ _. none;
    request_http_tunnel = λ _. none;
    request_https_tunnel = λ _. none;
    socks_connect = λ _. none;
    socks_data = λ _. none;
    socks_close = λ _. none;
  };
  net = record {
    is_loopback = λ _. false;
    is_private = λ _. false;
    is_link_local_unicast = λ _. false;
    is_link_local_multicast = λ _. false;
    is_unspecified = λ _. false;
    is_multicast = λ _. false;
    parse_ip = λ s. some s;
    split_host_port = λ s. some (s, []);
    validation_text = λ _. [];
    mux_text = λ _. [];
    refusal_text = λ _. [];
  };
  is_ip = λ _. true;
  decimal = λ _. [];
}

abbrev server : Server
server = record {
  registry = record { clients = []; cancelled = []; closed = [] };
  writers = record { writers = [] };
  manager = new_manager;
}

abbrev dialled : Control.Opening
dialled = record {
  id = codes "c";
  addr = codes "x";
  conn = 3;
  writer = 4;
  deadline_ok = true;
  write_ok = true;
  answer = none;
  clear_ok = true;
}

handshake-open_session_example :
    let s = handshake decoders (codes "token") (codes "pc") (hearing []) (new_session new_mux) in
    (r : RegisterResp) × (s.sent ≡ sent_register_resp r ∷ [])
    × (s.looping ≡ str_eq (codes "token") (codes "token"))
    × (open_session setup (answering dialled (encode r)) server ≡ (
        if str_eq (codes "token") (codes "token")
        then ok (first_session setup (answering dialled (encode r)) r server)
        else err (give_up (answering dialled (encode r)) server)))
handshake-open_session_example =
    handshake-open_session decoders setup encode (codes "token") (codes "token") (codes "pc") []
      new_mux dialled server refl decode-encode
