-- ===== src/Client/Session.antt =====
-- internal/client/handler.go: HandleServerConn, the client's side of a control connection.
pub mod Entry
pub mod Grants
pub mod Trust
pub mod Handshake
mod Runs
use reversproxy.Base.{
  ℕ, suc, Bool, true, false, not, List, [], ◌∷◌, ◌++◌, Option, none, some, map, if◌then◌else◌, ◌==◌,
  Str, codes, str_eq, is_empty, Map, lookup, insert,
}
use reversproxy.Base.Result.{Result, ok, err}
use reversproxy.Protocol.Messages.{
  Envelope, ClientRegister, RegisterResp, Ping, Pong, Disconnect, RequestTunnel, TunnelResp,
  OpenConnection, RequestHttpTunnel, RequestHttpsTunnel, HttpTunnelResp, SocksReady, SocksData,
  SocksClose, msg_client_register, msg_tunnel_resp, msg_http_tunnel_resp, msg_ping, msg_disconnect,
  msg_open_connection, msg_socks_ready, msg_socks_data, msg_socks_close,
}
use reversproxy.Tunnel.Mux.{Mux, deliver, deliver_ready, deliver_close, close_all}

-- A message that is written to the server.
pub data Sent : Type 0 where
  sent_register_resp : RegisterResp → Sent
  sent_request_tunnel : RequestTunnel → Sent
  sent_request_http_tunnel : RequestHttpTunnel → Sent
  sent_request_https_tunnel : RequestHttpsTunnel → Sent
  sent_pong : Pong → Sent
  sent_disconnect : Disconnect → Sent
  sent_disconnect_ack : Sent

-- The gob decoder of each message; `none` is its error.
pub record Decoders : Type 0 where
  pub client_register : List ℕ → Option ClientRegister
  pub tunnel_resp : List ℕ → Option TunnelResp
  pub http_tunnel_resp : List ℕ → Option HttpTunnelResp
  pub ping : List ℕ → Option Ping
  pub open_connection : List ℕ → Option OpenConnection
  pub socks_ready : List ℕ → Option SocksReady
  pub socks_data : List ℕ → Option SocksData
  pub socks_close : List ℕ → Option SocksClose

-- The tunnels of the configuration.
pub record ClientConfig : Type 0 where
  pub tunnels : List RequestTunnel
  pub http_tunnels : List RequestHttpTunnel
  pub https_tunnels : List RequestHttpsTunnel

-- `data_addrs` is tunnelDataAddrs, `opened` are the calls of HandleOpenConnection with their data
-- address, and `sent` the messages written, both the last one first. `looping` is whether the
-- function has not returned.
pub record Session : Type 0 where
  pub server_name : Str
  pub mux : Mux
  pub data_addrs : Map Str
  pub data_addr : Str
  pub opened : List (OpenConnection × Str)
  pub sent : List Sent
  pub looping : Bool

-- What happens in the handshake: the message that is read, if one is, and which calls succeed.
pub record Opening : Type 0 where
  pub deadline_ok : Bool
  pub answer : Option Envelope
  pub write_ok : Bool
  pub clear_ok : Bool

-- One request of the registration and the message that is read after it.
pub record Exchange : Type 0 where
  pub write_ok : Bool
  pub answer : Option Envelope

abbrev pub say : Sent → Session → Session
say m s = record s { sent = m ∷ s.sent }

-- A return, with the deferred CloseAll.
unfoldable pub leave : Session → Session
leave s = record s { mux = close_all s.mux; looping = false }

pub register_error : Str → Sent
register_error text =
    sent_register_resp
      (record { assigned_client_id = []; server_id = []; status = codes "error"; error = text })

pub register_ok : Str → RegisterResp
register_ok name = record {
  assigned_client_id = [];
  server_id = name;
  status = codes "ok";
  error = [];
}

-- The answer to a server whose token is right.
pub welcome : Str → ClientRegister → Opening → Session → Session
unfolding leave register_ok
welcome name msg o s =
    let s1 = say (sent_register_resp (register_ok name)) s in
    let s2 = record s1 { server_name = if is_empty msg.name then s1.server_name else msg.name } in
    if not o.write_ok then leave s1 else (if not o.clear_ok then leave s2 else s2)

pub on_register : Str → Str → Option ClientRegister → Opening → Session → Session
unfolding leave register_error welcome
on_register auth_token name none o s =
    leave (say (register_error (codes "malformed ClientRegister payload")) s)
on_register auth_token name (some msg) o s =
    if not (str_eq msg.auth_token auth_token)
    then leave (say (register_error (codes "invalid token")) s)
    else welcome name msg o s

pub read_register : Decoders → Str → Str → Option Envelope → Opening → Session → Session
unfolding leave on_register
read_register d auth_token name none o s = leave s
read_register d auth_token name (some env) o s =
    if not (env.type == msg_client_register)
    then leave s
    else on_register auth_token name (d.client_register env.payload) o s

-- The registration handshake.
pub handshake : Decoders → Str → Str → Opening → Session → Session
unfolding leave read_register
handshake d auth_token name o s =
    if not o.deadline_ok then leave s else read_register d auth_token name o.answer o s

-- What a response to a request gives: its status, the tunnel and the address for data.
pub record Granted : Type 0 where
  pub status : Str
  pub tunnel_id : Str
  pub server_data_addr : Str

pub grant : Option Granted → Session → Session
unfolding leave
grant none s = leave s
grant (some g) s = if not (str_eq g.status (codes "ok")) then leave s else record s {
  data_addrs = insert g.tunnel_id g.server_data_addr s.data_addrs;
  data_addr = if is_empty s.data_addr then g.server_data_addr else s.data_addr;
}

pub read_grant : ℕ → (List ℕ → Option Granted) → Option Envelope → Session → Session
unfolding leave grant
read_grant expected decode none s = leave s
read_grant expected decode (some env) s =
    if not (env.type == expected) then leave s else grant (decode env.payload) s

-- One round of a loop over configured tunnels.
pub ask : ℕ → (List ℕ → Option Granted) → Exchange → Sent → Session → Session
unfolding leave read_grant
ask expected decode x request s =
    let s1 = say request s in
    if x.write_ok then read_grant expected decode x.answer s1 else leave s1

-- The loop, which ends when a round returns.
pub ask_each : ℕ → (List ℕ → Option Granted) → (ℕ → Exchange) → ℕ → List Sent → Session → Session
unfolding ask
ask_each expected decode x i [] s = s
ask_each expected decode x i (r ∷ rs) s =
    ask_each expected decode x (suc i) rs (if s.looping then ask expected decode (x i) r s else s)

abbrev pub of_tunnel_resp : TunnelResp → Granted
of_tunnel_resp r = record {
  status = r.status;
  tunnel_id = r.tunnel_id;
  server_data_addr = r.server_data_addr;
}

abbrev pub of_http_tunnel_resp : HttpTunnelResp → Granted
of_http_tunnel_resp r = record {
  status = r.status;
  tunnel_id = r.tunnel_id;
  server_data_addr = r.server_data_addr;
}

abbrev pub decoded : {A : Type 0} → (A → Granted) → Option A → Option Granted
decoded f none = none
decoded f (some a) = some (f a)

abbrev pub tunnel_grant : Decoders → List ℕ → Option Granted
tunnel_grant d bytes = decoded of_tunnel_resp (d.tunnel_resp bytes)

abbrev pub http_tunnel_grant : Decoders → List ℕ → Option Granted
http_tunnel_grant d bytes = decoded of_http_tunnel_resp (d.http_tunnel_resp bytes)

-- The three loops over the configuration.
pub register_tcp : Decoders → ClientConfig → (ℕ → Exchange) → Session → Session
unfolding ask_each
register_tcp d cfg x s =
    ask_each msg_tunnel_resp (tunnel_grant d) x 0 (map sent_request_tunnel cfg.tunnels) s

pub register_http : Decoders → ClientConfig → (ℕ → Exchange) → Session → Session
unfolding ask_each
register_http d cfg x s =
    ask_each msg_http_tunnel_resp (http_tunnel_grant d) x 0
      (map sent_request_http_tunnel cfg.http_tunnels) s

pub register_https : Decoders → ClientConfig → (ℕ → Exchange) → Session → Session
unfolding ask_each
register_https d cfg x s =
    ask_each msg_http_tunnel_resp (http_tunnel_grant d) x 0
      (map sent_request_https_tunnel cfg.https_tunnels) s

-- The exchanges of each loop are given apart.
pub register_tunnels :
    Decoders → ClientConfig → (ℕ → Exchange) → (ℕ → Exchange) → (ℕ → Exchange) → Session → Session
unfolding register_tcp register_http register_https
register_tunnels d cfg x y z s =
    register_https d cfg z (register_http d cfg y (register_tcp d cfg x s))

-- One round of the message loop, or the goroutine that sends a Disconnect at a shutdown.
pub data Event : Type 0 where
  cancels : Event
  read_fails : Event
  shuts_down : Event
  receives : Envelope → Bool → Event

pub on_ping : Option Ping → Bool → Session → Session
unfolding leave
on_ping none write_ok s = s
on_ping (some p) write_ok s =
    let s1 = say (sent_pong (record { seq = p.seq })) s in if write_ok then s1 else leave s1

pub on_open_connection : Option OpenConnection → Session → Session
on_open_connection none s = s
on_open_connection (some oc) s = elim (lookup oc.tunnel_id s.data_addrs) [
  | none ↦ s
  | some addr ↦ record s { opened = (oc, addr) ∷ s.opened }
]

-- The messages of the multiplexer.
pub with_mux : {E : Type 0} → Session → Result E Mux → Session
with_mux s (ok m) = record s { mux = m }
with_mux s (err e) = s

pub on_socks_ready : Option SocksReady → Session → Session
unfolding with_mux
on_socks_ready none s = s
on_socks_ready (some r) s = with_mux s (deliver_ready r.conn_id r.success r.error s.mux)

-- The loop blocks until the Write that Deliver begins has returned; the events that follow in a run
-- may come before or after that.
unfoldable pub on_socks_data : Option SocksData → Session → Session
unfolding with_mux
on_socks_data none s = s
on_socks_data (some sd) s = with_mux s (deliver sd.conn_id sd.payload s.mux)

unfoldable pub on_socks_close : Option SocksClose → Session → Session
on_socks_close none s = s
on_socks_close (some sc) s = record s { mux = deliver_close sc.conn_id s.mux }

unfoldable pub dispatch : Decoders → Envelope → Bool → Session → Session
unfolding leave on_ping on_open_connection on_socks_ready on_socks_data on_socks_close
dispatch d env write_ok s =
    if env.type == msg_ping
    then on_ping (d.ping env.payload) write_ok s
    else (if env.type == msg_disconnect
        then leave (say sent_disconnect_ack s)
        else (if env.type == msg_open_connection
            then on_open_connection (d.open_connection env.payload) s
            else (if env.type == msg_socks_ready
                then on_socks_ready (d.socks_ready env.payload) s
                else (if env.type == msg_socks_data
                    then on_socks_data (d.socks_data env.payload) s
                    else (if env.type == msg_socks_close
                        then on_socks_close (d.socks_close env.payload) s
                        else s)))))

unfoldable pub step : Decoders → Event → Session → Session
unfolding leave dispatch
step d cancels s = if s.looping then leave s else s
step d read_fails s = if s.looping then leave s else s
step d shuts_down s = say (sent_disconnect (record { reason = codes "client shutdown" })) s
step d (receives env write_ok) s = if s.looping then dispatch d env write_ok s else s

unfoldable pub run : Decoders → List Event → Session → Session
unfolding step
run d [] s = s
run d (e ∷ es) s = run d es (step d e s)

-- The session as the caller makes it.
abbrev pub new_session : Mux → Session
new_session m = record {
  server_name = [];
  mux = m;
  data_addrs = [];
  data_addr = [];
  opened = [];
  sent = [];
  looping = true;
}

pub handle_server_conn :
    Decoders
    → Str
    → Str
    → ClientConfig
    → Opening
    → (ℕ → Exchange)
    → (ℕ → Exchange)
    → (ℕ → Exchange)
    → List Event
    → Mux
    → Session
unfolding handshake register_tunnels run
handle_server_conn d auth_token name cfg o x y z es m =
    let s = register_tunnels d cfg x y z (handshake d auth_token name o (new_session m)) in
    if s.looping then run d es s else s
