-- ===== src/Control/Requests/Runs.antt =====
-- internal/control/handler.go: a request for a hostname on a given manager.
use reversproxy.Base.{◌≡◌, refl, true, false, [], ◌∷◌, some, codes, str_eq, lookup, arith}
use reversproxy.Base.Result.{ok}
use reversproxy.Tunnel.Table.{HttpTunnelEntry}
use reversproxy.Tunnel.Manager.{new_manager, get_http_tunnel}
use reversproxy.Control.Requests.{sent_http_tunnel_resp, Answers, Work, handle_http_tunnel_request}
use reversproxy.Control.Requests.Refusals.{ok_resp, handle_http_tunnel_request_taken}

abbrev taken : HttpTunnelEntry
taken = record {
  id = codes "t";
  client_id = codes "a";
  hostname = codes "h";
  local_host = codes "l";
  local_port = 80;
  is_tls = false;
}

abbrev serving : Work
serving = record {
  manager = record new_manager {
    http = record {
      routes = (codes "h", taken) ∷ [];
      by_client = (codes "a", codes "h" ∷ []) ∷ [];
    };
  };
  sent = [];
  served = [];
}

abbrev given : Answers
given = record { now = 0; uuid = codes "u"; listens = ok (1, 2); write_ok = true }

serving_taken : get_http_tunnel serving.manager (codes "h") ≡ some taken
unfolding get_http_tunnel lookup str_eq
serving_taken = refl

handle_http_tunnel_request_taken_example :
    handle_http_tunnel_request false
      (codes "h")
      (codes "m")
      81
      given
      (codes "b")
      (codes "d")
      serving
    ≡ record serving {
      sent = sent_http_tunnel_resp (ok_resp (codes "h") (codes "u") (codes "d")) ∷ [];
    }
handle_http_tunnel_request_taken_example =
    handle_http_tunnel_request_taken false given (codes "b") (codes "d") (codes "h") (codes "m") 81
      taken serving (λ e. ground arith) serving_taken
