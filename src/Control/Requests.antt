-- ===== src/Control/Requests.antt =====
-- internal/control/handler.go: the requests for tunnels that a client sends.
pub mod Refusals
mod Runs
pub mod Tables
use reversproxy.Base.{
  ℕ, Bool, true, false, List, [], ◌∷◌, ◌++◌, Option, none, some, if◌then◌else◌, Str, codes,
}
use reversproxy.Base.Result.{Result, ok, err}
use reversproxy.Protocol.Messages.{
  ClientRegister, RequestTunnel, TunnelResp, RequestHttpTunnel, RequestHttpsTunnel, HttpTunnelResp,
  SocksReady,
}
use reversproxy.Tunnel.Manager.{TunnelEntry, Manager, add_tunnel, add_http_tunnel, add_https_tunnel}
use reversproxy.Tunnel.Manager.Calls.{after}

-- A message that is handed to the connection's writer.
pub data Sent : Type 0 where
  sent_disconnect_ack : Sent
  sent_tunnel_resp : TunnelResp → Sent
  sent_http_tunnel_resp : HttpTunnelResp → Sent
  sent_socks_ready : SocksReady → Sent

-- What the libraries and the system answer while one message is handled: the time, a new UUID,
-- the listener and its port or the error's text, and whether the writer succeeds.
pub record Answers : Type 0 where
  pub now : ℕ
  pub uuid : Str
  pub listens : Result Str (ℕ × ℕ)
  pub write_ok : Bool

-- The manager, the messages that were sent, the last one first, and the tunnels whose public
-- listener has a goroutine.
pub record Work : Type 0 where
  pub manager : Manager
  pub sent : List Sent
  pub served : List TunnelEntry

abbrev pub say : Sent → Work → Work
say s w = record w { sent = s ∷ w.sent }

abbrev status_ok : Str
status_ok = codes "ok"

abbrev status_error : Str
status_error = codes "error"

pub tunnel_error : Str → Sent
tunnel_error text = sent_tunnel_resp (record {
  tunnel_id = [];
  public_port = 0;
  server_data_addr = [];
  status = status_error;
  error = text;
})

pub http_tunnel_error : Str → Sent
http_tunnel_error text = sent_http_tunnel_resp (record {
  hostname = [];
  tunnel_id = [];
  server_data_addr = [];
  status = status_error;
  error = text;
})

pub http_tunnel_ok : Str → Str → Str → Sent
http_tunnel_ok hostname tunnel_id data_addr = sent_http_tunnel_resp (record {
  hostname = hostname;
  tunnel_id = tunnel_id;
  server_data_addr = data_addr;
  status = status_ok;
  error = [];
})

-- The entry is added and answered; when the answer cannot be sent, the listener is closed, and
-- the entry stays.
unfoldable pub open_tunnel : RequestTunnel → ℕ → ℕ → Answers → Str → Str → Work → Work
open_tunnel req listener port a client_id data_addr w =
    let entry : TunnelEntry = record {
      id = a.uuid;
      client_id = client_id;
      local_host = req.local_host;
      local_port = req.local_port;
      public_port = port;
      listener = some listener;
    } in
    let m = add_tunnel entry w.manager in
    let resp : TunnelResp = record {
      tunnel_id = a.uuid;
      public_port = port;
      server_data_addr = data_addr;
      status = status_ok;
      error = [];
    } in
    if a.write_ok
    then record { manager = m; sent = sent_tunnel_resp resp ∷ w.sent; served = entry ∷ w.served }
    else record {
      manager = record m { closed = listener ∷ m.closed };
      sent = sent_tunnel_resp resp ∷ w.sent;
      served = w.served;
    }

-- The request is what the payload decodes to, if it does; `decimal` is how fmt prints a port.
unfoldable pub handle_request_tunnel :
    (ℕ → Str) → Option RequestTunnel → Answers → Str → Str → Work → Work
unfolding open_tunnel
handle_request_tunnel decimal none a client_id data_addr w =
    say (tunnel_error (codes "malformed RequestTunnel payload")) w
handle_request_tunnel decimal (some req) a client_id data_addr w = elim a.listens [
  | err text ↦
      say
        (tunnel_error
          (codes "could not listen on :" ++ decimal req.requested_port ++ codes ": " ++ text))
        w
  | ok (listener, port) ↦ open_tunnel req listener port a client_id data_addr w
]

-- The error of the manager is not looked at: the answer is "ok" in every case.
pub handle_http_tunnel_request : Bool → Str → Str → ℕ → Answers → Str → Str → Work → Work
handle_http_tunnel_request is_tls hostname local_host local_port a client_id data_addr w =
    record w {
      manager =
          if is_tls
          then after w.manager
              (add_https_tunnel a.uuid client_id hostname local_host local_port w.manager)
          else after w.manager
              (add_http_tunnel a.uuid client_id hostname local_host local_port w.manager);
      sent = http_tunnel_ok hostname a.uuid data_addr ∷ w.sent;
    }

unfoldable pub handle_request_http_tunnel :
    Option RequestHttpTunnel → Answers → Str → Str → Work → Work
unfolding handle_http_tunnel_request
handle_request_http_tunnel none a client_id data_addr w =
    say (http_tunnel_error (codes "malformed RequestHTTPTunnel payload")) w
handle_request_http_tunnel (some req) a client_id data_addr w =
    handle_http_tunnel_request false req.hostname req.local_host req.local_port a client_id
      data_addr w

pub handle_request_https_tunnel : Option RequestHttpsTunnel → Answers → Str → Str → Work → Work
unfolding handle_http_tunnel_request
handle_request_https_tunnel none a client_id data_addr w =
    say (http_tunnel_error (codes "malformed RequestHTTPSTunnel payload")) w
handle_request_https_tunnel (some req) a client_id data_addr w =
    handle_http_tunnel_request true req.hostname req.local_host req.local_port a client_id data_addr
      w
