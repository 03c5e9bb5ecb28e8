-- ===== src/Tunnel/Edge.antt =====
-- internal/tunnel/http_proxy.go, https_proxy.go and server.go: the connections of outside users, the
-- data connections of clients, and the goroutines that join the ones with the others.
pub mod Events
pub mod Routed
pub mod Relays
pub mod Users
pub mod Joins
pub mod Paths
pub mod Late
pub mod Links
mod Runs
use reversproxy.Base.{
  ℕ, suc, Bool, true, false, not, List, [], ◌∷◌, ◌++◌, Option, none, some, if◌then◌else◌, ◌==◌,
  length, Str, codes, is_empty, update,
}
use reversproxy.Base.Result.{Result, ok, err}
use reversproxy.Protocol.Messages.{Envelope, OpenConnection, DataConnHello, msg_data_conn_hello}
use reversproxy.Protocol.Framing.{Gob, FrameError, read_message, decode_payload}
use reversproxy.Tunnel.Table.{HttpTunnelEntry}
use reversproxy.Tunnel.Manager.{
  TunnelEntry, Manager, ManagerError, register_pending, cancel_pending, fulfill_pending, wait_ready,
  get_http_tunnel, get_https_tunnel,
}
use reversproxy.Tunnel.Writer.{ControlConnRegistry, get_writer}
use reversproxy.Tunnel.Sni.{PeekError, peek_sni}

-- What other packages do: `uuid` is the identity that a call of uuid.New gives, by the number of
-- calls before it; `decimal` and `quote` are fmt's %d and %q.
pub record Library : Type 0 where
  pub split_host_port : Str → Option (Str × Str)
  pub status_text : ℕ → Str
  pub decimal : ℕ → Str
  pub quote : Str → Str
  pub to_lower : Str → Str
  pub uuid : ℕ → Str

-- A request that http.ReadRequest has parsed: its host, what req.Write makes of it, and the bytes
-- that are left in the buffer then.
pub record HttpRequest : Type 0 where
  pub host : Str
  pub written : List ℕ
  pub buffered : List ℕ

-- The loop of relayExternalConn, or the one of relayHTTPConn and relayHTTPSConn.
pub data Kind : Type 0 where
  tcp web : Kind

-- A relay goroutine: none, one that waits for a data connection and replays bytes to it, one in
-- RelayBiDirectional, and one that has ended.
pub data Relay : Type 0 where
  idle : Relay
  waits : Kind → Str → List ℕ → Relay
  copies : ℕ → ℕ → Relay
  over : Relay

-- Connections and writers are handles. A relay goroutine goes by the address of its pending object.
-- `sent` are the OpenConnection messages that were written, with the writer; `hellos` the data
-- connections that were accepted; `written` what was written to a connection; `joined` the calls of
-- RelayBiDirectional; all with the last one first. `crashed` is whether a nil connection was used.
pub record Edge : Type 0 where
  pub manager : Manager
  pub writers : ControlConnRegistry
  pub calls : ℕ
  pub relays : ℕ → Relay
  pub sent : List (ℕ × OpenConnection)
  pub hellos : List (ℕ × DataConnHello)
  pub written : List (ℕ × List ℕ)
  pub closed : List ℕ
  pub joined : List (ℕ × ℕ)
  pub crashed : Bool

-- What the random source gives, and whether the write to the client succeeds.
pub record Turn : Type 0 where
  pub random : Option (List ℕ)
  pub write_ok : Bool

abbrev crlf : Str
crlf = 13 ∷ 10 ∷ []

pub close : ℕ → Edge → Edge
close conn g = record g { closed = conn ∷ g.closed }

pub write : ℕ → List ℕ → Edge → Edge
write conn bytes g = record g { written = (conn, bytes) ∷ g.written }

pub http_error : Library → ℕ → Str → Str
http_error lib code msg =
    let body = lib.decimal code ++ codes " " ++ msg ++ 10 ∷ [] in
    codes "HTTP/1.1 "
    ++ lib.decimal code
    ++ codes " "
    ++ lib.status_text code
    ++ crlf
    ++ codes "Content-Type: text/plain"
    ++ crlf
    ++ codes "Content-Length: "
    ++ lib.decimal (length body)
    ++ crlf
    ++ codes "Connection: close"
    ++ crlf
    ++ crlf
    ++ body

pub write_http_error : Library → ℕ → ℕ → Str → Edge → Edge
unfolding write http_error
write_http_error lib conn code msg g = write conn (http_error lib code msg) g

pub strip_port : Library → Str → Str
strip_port lib host = elim (lib.split_host_port host) [ none ↦ host | some (h, port) ↦ h ]

pub open_message : Str → Str → ℕ → Str → Str → OpenConnection
open_message tunnel_id local_host local_port conn_id token = record {
  tunnel_id = tunnel_id;
  conn_id = conn_id;
  local_host = local_host;
  local_port = local_port;
  data_token = token;
}

-- The end of the three handlers: the pending entry is made, the client is told, and the relay
-- goroutine starts unless the write fails. `message` is the message but for its last two fields.
pub notify : Library → Kind → ℕ → (Str → Str → OpenConnection) → List ℕ → ℕ → Turn → Edge → Edge
unfolding close register_pending
notify lib kind w message raw ext t g =
    let k = lib.uuid g.calls in
    let (p, m) = register_pending t.random k ext g.manager in
    let g1 = record g { manager = m; calls = suc g.calls } in
    if t.write_ok
    then record g1 {
      sent = (w, message k (m.conns p).data_token) ∷ g1.sent;
      relays = update g1.relays p (waits kind k raw);
    }
    else close ext g1

-- handleHTTPConn from its look-ups on.
pub http_client : Library → Str → HttpTunnelEntry → Option ℕ → List ℕ → ℕ → Turn → Edge → Edge
unfolding close write_http_error notify open_message
http_client lib host entry none raw ext t g =
    close ext (write_http_error lib ext 502 (codes "Client tunnel not available") g)
http_client lib host entry (some w) raw ext t g =
    notify lib web w (open_message entry.id entry.local_host entry.local_port) raw ext t g

pub http_route : Library → Str → Option HttpTunnelEntry → List ℕ → ℕ → Turn → Edge → Edge
unfolding close write_http_error http_client get_writer
http_route lib host none raw ext t g =
    close ext
      (write_http_error lib ext 502 (codes "No tunnel registered for host " ++ lib.quote host) g)
http_route lib host (some entry) raw ext t g =
    http_client lib host entry (get_writer entry.client_id g.writers) raw ext t g

-- handleHTTPConn on what http.ReadRequest returns.
pub handle_http_conn : Library → Option HttpRequest → ℕ → Turn → Edge → Edge
unfolding close write_http_error strip_port http_route get_http_tunnel
handle_http_conn lib none ext t g = close ext (write_http_error lib ext 400 (codes "Bad Request") g)
handle_http_conn lib (some req) ext t g =
    let host = strip_port lib req.host in
    if is_empty host
    then close ext (write_http_error lib ext 400 (codes "Missing Host header") g)
    else http_route lib host (get_http_tunnel g.manager host) (req.written ++ req.buffered) ext t g

pub https_client : Library → HttpTunnelEntry → Option ℕ → List ℕ → ℕ → Turn → Edge → Edge
unfolding close notify open_message
https_client lib entry none peeked ext t g = close ext g
https_client lib entry (some w) peeked ext t g =
    notify lib web w (open_message entry.id entry.local_host entry.local_port) peeked ext t g

pub https_route : Library → Option HttpTunnelEntry → List ℕ → ℕ → Turn → Edge → Edge
unfolding close https_client get_writer
https_route lib none peeked ext t g = close ext g
https_route lib (some entry) peeked ext t g =
    https_client lib entry (get_writer entry.client_id g.writers) peeked ext t g

pub https_peeked : Library → Result PeekError (List ℕ × Str × List ℕ) → ℕ → Turn → Edge → Edge
unfolding close strip_port https_route get_https_tunnel
https_peeked lib (err e) ext t g = close ext g
https_peeked lib (ok (peeked, sni, rest)) ext t g =
    let host = strip_port lib sni in
    if is_empty host
    then close ext g
    else https_route lib (get_https_tunnel g.manager host) peeked ext t g

-- handleHTTPSConn on the bytes that come in.
pub handle_https_conn : Library → List ℕ → ℕ → Turn → Edge → Edge
unfolding https_peeked
handle_https_conn lib input ext t g = https_peeked lib (peek_sni lib.to_lower input) ext t g

-- The body of the loop of StartPublicListener.
pub accept_external : Library → TunnelEntry → ℕ → ℕ → Turn → Edge → Edge
unfolding notify open_message
accept_external lib entry cw ext t g =
    notify lib tcp cw (open_message entry.id entry.local_host entry.local_port) [] ext t g

pub fulfilled_by : ℕ → DataConnHello → Result ManagerError Manager → Edge → Edge
unfolding close
fulfilled_by conn hello (err e) g = close conn g
fulfilled_by conn hello (ok m) g = record g { manager = m; hellos = (conn, hello) ∷ g.hellos }

pub on_hello : ℕ → Option DataConnHello → Edge → Edge
unfolding close fulfilled_by
on_hello conn none g = close conn g
on_hello conn (some hello) g =
    fulfilled_by conn hello (fulfill_pending hello.conn_id conn hello.token g.manager) g

pub on_envelope : Gob DataConnHello → Bool → ℕ → Result FrameError (Envelope × List ℕ) → Edge → Edge
unfolding close on_hello
on_envelope hellos clear_ok conn (err e) g = close conn g
on_envelope hellos clear_ok conn (ok (env, rest)) g =
    if not clear_ok
    then close conn g
    else (if not (env.type == msg_data_conn_hello)
        then close conn g
        else on_hello conn (decode_payload hellos env.payload) g)

-- handleDataConn on the bytes that come in; the two flags are whether a deadline can be set and
-- cleared.
pub handle_data_conn : Gob Envelope → Gob DataConnHello → Bool → Bool → List ℕ → ℕ → Edge → Edge
unfolding close on_envelope
handle_data_conn envelopes hellos deadline_ok clear_ok input conn g =
    if not deadline_ok
    then close conn g
    else on_envelope hellos clear_ok conn (read_message envelopes input) g

-- Which case of the select is taken, and whether the replay succeeds.
pub data Choice : Type 0 where
  arrives : Bool → Choice
  times_out : Choice
  cancelled : Choice

-- The call of RelayBiDirectional.
pub join : ℕ → ℕ → Edge → Edge
join p d g =
    let ext = (g.manager.conns p).ext_conn in
    record g { joined = (ext, d) ∷ g.joined; relays = update g.relays p (copies ext d) }

pub replay : Bool → ℕ → List ℕ → ℕ → Edge → Edge
unfolding join write close
replay write_ok p [] d g = join p d g
replay write_ok p (b ∷ bs) d g =
    if write_ok
    then join p d (write d (b ∷ bs) g)
    else close d (close (g.manager.conns p).ext_conn (record g { relays = update g.relays p over }))

-- What is received from `waitDone`; a goroutine that has received nothing waits on.
pub met : Bool → ℕ → List ℕ → Option (Option ℕ) → Edge → Edge
unfolding replay
met write_ok p raw none g = g
met write_ok p raw (some none) g = record g { crashed = true }
met write_ok p raw (some (some d)) g = replay write_ok p raw d g

-- The goroutine inside it that sends the result of WaitReady(pending) to `waitDone`, which has room
-- for it: what it has sent; `none` is that it is still blocked in WaitReady. It does not stop when
-- the relay goroutine around it gives up.
pub wait_done : ℕ → Edge → Option (Option ℕ)
wait_done p g = wait_ready p g.manager

-- The pending external connection is closed, and the goroutine returns.
unfoldable pub give_up : ℕ → Edge → Edge
unfolding close
give_up p g = close (g.manager.conns p).ext_conn (record g { relays = update g.relays p over })

-- relayExternalConn has no timeout; the last case is none of its select.
pub relay_external_conn : ℕ → Str → List ℕ → Choice → Edge → Edge
unfolding met give_up wait_done
relay_external_conn p conn_id raw (arrives write_ok) g = met write_ok p raw (wait_done p g) g
relay_external_conn p conn_id raw cancelled g =
    give_up p (record g { manager = cancel_pending conn_id g.manager })
relay_external_conn p conn_id raw times_out g = g

-- relayHTTPConn, and relayHTTPSConn in the same way.
pub relay_http_conn : ℕ → List ℕ → Choice → Edge → Edge
unfolding met give_up wait_done
relay_http_conn p raw (arrives write_ok) g = met write_ok p raw (wait_done p g) g
relay_http_conn p raw times_out g = give_up p g
relay_http_conn p raw cancelled g = give_up p g

-- A relay goroutine goes on; RelayBiDirectional closes both connections before it returns.
unfoldable pub advance : ℕ → Relay → Choice → Edge → Edge
unfolding relay_external_conn relay_http_conn close
advance p idle c g = g
advance p (waits tcp conn_id raw) c g = relay_external_conn p conn_id raw c g
advance p (waits web conn_id raw) c g = relay_http_conn p raw c g
advance p (copies ext d) c g = close d (close ext (record g { relays = update g.relays p over }))
advance p over c g = g
