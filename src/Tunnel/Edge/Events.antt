-- ===== src/Tunnel/Edge/Events.antt =====
-- internal/tunnel/http_proxy.go, https_proxy.go and server.go: users, clients and relay goroutines in
-- any order.
use reversproxy.Base.{ℕ, Bool, false, List, [], ◌∷◌, Option, Str}
use reversproxy.Base.Result.{Result, ok, err}
use reversproxy.Protocol.Messages.{Envelope, DataConnHello}
use reversproxy.Protocol.Framing.{Gob}
use reversproxy.Tunnel.Manager.{
  TunnelEntry, Manager, new_manager, add_http_tunnel, add_https_tunnel, remove_tunnels_for_client,
  remove_http_tunnels_for_client,
}
use reversproxy.Tunnel.Writer.{new_control_conn_registry, register_writer, deregister_writer}
use reversproxy.Tunnel.Edge.{
  Library, HttpRequest, idle, Edge, Turn, handle_http_conn, handle_https_conn, accept_external,
  handle_data_conn, Choice, advance,
}

-- What happens at the edge: a user of each listener comes, a client's data connection comes, a
-- relay goroutine goes on, and sessions come, serve hostnames and go.
pub data Event : Type 0 where
  http_user : Option HttpRequest → ℕ → Turn → Event
  https_user : List ℕ → ℕ → Turn → Event
  tcp_user : TunnelEntry → ℕ → ℕ → Turn → Event
  data_conn : Bool → Bool → List ℕ → ℕ → Event
  relay : ℕ → Choice → Event
  connects : Str → ℕ → Event
  serves_http serves_https : Str → Str → Str → Str → ℕ → Event
  leaves : Str → Event

abbrev pub with_manager {ℓ} : {E : Type ℓ} → Result E Manager → Edge → Edge
with_manager (err e) g = g
with_manager (ok m) g = record g { manager = m }

unfoldable pub new_edge : Edge
unfolding new_manager
new_edge = record {
  manager = new_manager;
  writers = new_control_conn_registry;
  calls = 0;
  relays = λ _. idle;
  sent = [];
  hellos = [];
  written = [];
  closed = [];
  joined = [];
  crashed = false;
}

module _ (lib : Library) (envelopes : Gob Envelope) (hellos : Gob DataConnHello) where
  unfoldable pub step : Event → Edge → Edge
  unfolding advance
  step (http_user req ext t) g = handle_http_conn lib req ext t g
  step (https_user input ext t) g = handle_https_conn lib input ext t g
  step (tcp_user entry cw ext t) g = accept_external lib entry cw ext t g
  step (data_conn set_ok clear_ok input conn) g =
      handle_data_conn envelopes hellos set_ok clear_ok input conn g
  step (relay p c) g = advance p (g.relays p) c g
  step (connects c w) g = record g { writers = register_writer c w g.writers }
  step (serves_http id c name host port) g =
      with_manager (add_http_tunnel id c name host port g.manager) g
  step (serves_https id c name host port) g =
      with_manager (add_https_tunnel id c name host port g.manager) g
  step (leaves c) g = record g {
    manager = remove_http_tunnels_for_client c (remove_tunnels_for_client c g.manager);
    writers = deregister_writer c g.writers;
  }

  unfoldable pub run : List Event → Edge → Edge
  run [] g = g
  run (e ∷ es) g = run es (step e g)
