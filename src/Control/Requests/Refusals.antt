-- ===== src/Control/Requests/Refusals.antt =====
-- internal/control/handler.go: the answer to a request for a hostname that is taken.
use reversproxy.Base.{ℕ, ◌≡◌, ◌≢◌, ap, Bool, true, false, [], ◌∷◌, some, if◌then◌else◌, Str, codes}
use reversproxy.Protocol.Messages.{HttpTunnelResp}
use reversproxy.Tunnel.Table.{HttpTunnelEntry}
use reversproxy.Tunnel.Manager.{get_http_tunnel, get_https_tunnel}
use reversproxy.Tunnel.Manager.Hosts.{add_http_tunnel_taken, add_https_tunnel_taken}
use reversproxy.Tunnel.Manager.Calls.{after}
use reversproxy.Control.Requests.{
  sent_http_tunnel_resp, Answers, Work, http_tunnel_ok, handle_http_tunnel_request,
}

-- A response that says "ok" for a hostname and a tunnel's identity.
abbrev pub ok_resp : Str → Str → Str → HttpTunnelResp
ok_resp hostname tunnel_id data_addr = record {
  hostname = hostname;
  tunnel_id = tunnel_id;
  server_data_addr = data_addr;
  status = codes "ok";
  error = [];
}

-- A client's request for a hostname that another client holds, be it for HTTP or for HTTPS, is
-- answered with status "ok" and the identity of a tunnel, while the manager stays as it was, so
-- that the hostname goes on being served by the other client.
pub handle_http_tunnel_request_taken :
    (is_tls : Bool) (a : Answers) (client_id data_addr h host : Str) (port : ℕ)
    (old : HttpTunnelEntry) (w : Work)
    → old.client_id ≢ client_id
    → (if is_tls then get_https_tunnel w.manager h else get_http_tunnel w.manager h) ≡ some old
    → handle_http_tunnel_request is_tls h host port a client_id data_addr w
      ≡ record w { sent = sent_http_tunnel_resp (ok_resp h a.uuid data_addr) ∷ w.sent }
unfolding handle_http_tunnel_request http_tunnel_ok
handle_http_tunnel_request_taken true a client_id data_addr h host port old w other p =
    ap
      (λ r. record w {
        manager = after w.manager r;
        sent = sent_http_tunnel_resp (ok_resp h a.uuid data_addr) ∷ w.sent;
      })
      (add_https_tunnel_taken a.uuid client_id h host port w.manager old other p)
handle_http_tunnel_request_taken false a client_id data_addr h host port old w other p =
    ap
      (λ r. record w {
        manager = after w.manager r;
        sent = sent_http_tunnel_resp (ok_resp h a.uuid data_addr) ∷ w.sent;
      })
      (add_http_tunnel_taken a.uuid client_id h host port w.manager old other p)
