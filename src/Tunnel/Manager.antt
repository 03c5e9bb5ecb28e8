-- ===== src/Tunnel/Manager.antt =====
-- internal/tunnel/manager.go: the tunnels, and the connections that wait for a client.
pub mod Hosts
pub mod Ports
pub mod Hex
pub mod Tokens
pub mod Calls
pub mod Served
mod Runs
use reversproxy.Base.{
  ℕ, suc, Bool, true, false, not, ◌≡◌, List, [], ◌∷◌, ◌++◌, ◌+◌, ◌/◌, ◌%◌, ltb, Option, none, some,
  if◌then◌else◌, Str, is_empty, str_eq, Map, lookup, insert, delete, values, update, ◌||◌,
}
use reversproxy.Base.Result.{Result, ok, err}
use reversproxy.Tunnel.Table.{HttpTunnelEntry, Table, Taken, empty_table, add_route, remove_routes}

-- Connections and listeners are handles.
pub record TunnelEntry : Type 0 where
  pub id : Str
  pub client_id : Str
  pub local_host : Str
  pub local_port : ℕ
  pub public_port : ℕ
  pub listener : Option ℕ

-- `ready` is whether the channel has been closed.
pub record PendingConn : Type 0 where
  pub ext_conn : ℕ
  pub ready : Bool
  pub data_conn : Option ℕ
  pub data_token : Str

pub record PendingSocks : Type 0 where
  pub ready : Bool
  pub success : Bool
  pub err_msg : Str

-- The maps hold pointers: `conns` and `dials` are the objects that they point to, which the
-- goroutines that wait for them share; the next object is made at `next_conn` and `next_dial`.
-- `closed` lists the listeners that were closed, the last one first.
pub record Manager : Type 0 where
  pub tunnels : Map TunnelEntry
  pub by_client : Map (List Str)
  pub pending : Map ℕ
  pub pending_socks : Map ℕ
  pub http : Table
  pub https : Table
  pub conns : ℕ → PendingConn
  pub next_conn : ℕ
  pub dials : ℕ → PendingSocks
  pub next_dial : ℕ
  pub closed : List ℕ

pub data ManagerError : Type 0 where
  unknown_conn : Str → ManagerError
  invalid_token : Str → ManagerError
  -- `close` of a closed channel.
  panic : ManagerError

abbrev pub no_conn : PendingConn
no_conn = record { ext_conn = 0; ready = false; data_conn = none; data_token = [] }

abbrev pub no_dial : PendingSocks
no_dial = record { ready = false; success = false; err_msg = [] }

unfoldable pub new_manager : Manager
new_manager = record {
  tunnels = [];
  by_client = [];
  pending = [];
  pending_socks = [];
  http = empty_table;
  https = empty_table;
  conns = λ _. no_conn;
  next_conn = 0;
  dials = λ _. no_dial;
  next_dial = 0;
  closed = [];
}

pub tunnels_of : Map (List Str) → Str → List Str
tunnels_of by_client c = elim (lookup c by_client) [ none ↦ [] | some ids ↦ ids ]

unfoldable pub add_tunnel : TunnelEntry → Manager → Manager
add_tunnel e m = record m {
  tunnels = insert e.id e m.tunnels;
  by_client = insert e.client_id (tunnels_of m.by_client e.client_id ++ e.id ∷ []) m.by_client;
}

unfoldable pub get_tunnel : Manager → Str → Option TunnelEntry
get_tunnel m id = lookup id m.tunnels

-- The listeners that a loop over the client's tunnels closes.
pub close_listener : Option ℕ → List ℕ → List ℕ
close_listener none closed = closed
close_listener (some l) closed = l ∷ closed

unfoldable pub close_each : List Str → Map TunnelEntry → List ℕ → Map TunnelEntry × List ℕ
unfolding close_listener
close_each [] ts closed = (ts, closed)
close_each (id ∷ ids) ts closed =
    close_each ids (elim (lookup id ts) [ none ↦ ts | some _ ↦ delete id ts ])
      (elim (lookup id ts) [ none ↦ closed | some e ↦ close_listener e.listener closed ])

unfoldable pub remove_tunnels_for_client : Str → Manager → Manager
unfolding close_each
remove_tunnels_for_client c m =
    let (ts, closed) = close_each (tunnels_of m.by_client c) m.tunnels m.closed in
    record m { tunnels = ts; by_client = delete c m.by_client; closed = closed }

unfoldable pub hex_digit : ℕ → ℕ
hex_digit d = if ltb d 10 then 48 + d else 87 + d

unfoldable pub hex_encode : List ℕ → Str
unfolding hex_digit
hex_encode [] = []
hex_encode (b ∷ bs) = hex_digit (b / 16) ∷ hex_digit (b % 16) ∷ hex_encode bs

-- The 32 bytes that the random source gives; `none` where it fails.
unfoldable pub new_data_token : Option (List ℕ) → Str
unfolding hex_encode
new_data_token none = []
new_data_token (some bytes) = hex_encode bytes

-- RegisterPending: the new object's address with the new state.
unfoldable pub register_pending : Option (List ℕ) → Str → ℕ → Manager → ℕ × Manager
register_pending random conn_id ext m = (
  m.next_conn,
  record m {
    pending = insert conn_id m.next_conn m.pending;
    conns = update m.conns m.next_conn (record {
      ext_conn = ext;
      ready = false;
      data_conn = none;
      data_token = new_data_token random;
    });
    next_conn = suc m.next_conn;
  },
)

unfoldable pub cancel_pending : Str → Manager → Manager
cancel_pending conn_id m = elim (lookup conn_id m.pending) [
  | none ↦ record m { pending = delete conn_id m.pending }
  | some p ↦ record m {
    pending = delete conn_id m.pending;
    conns = update m.conns p (record (m.conns p) { ready = true });
  }
]

unfoldable pub fulfill_pending : Str → ℕ → Str → Manager → Result ManagerError Manager
fulfill_pending conn_id data_conn token m = elim (lookup conn_id m.pending) [
  | none ↦ err (unknown_conn conn_id)
  | some p ↦
      let want = (m.conns p).data_token in
      if is_empty want || not (str_eq want token)
      then err (invalid_token conn_id)
      else ok (record m {
        pending = delete conn_id m.pending;
        conns = update m.conns p (record (m.conns p) { ready = true; data_conn = some data_conn });
      })
]

-- WaitReady: `none` while the channel is open, else what the waiting goroutine reads, which is
-- nil after a cancelled wait.
unfoldable pub wait_ready : ℕ → Manager → Option (Option ℕ)
wait_ready p m = if (m.conns p).ready then some (m.conns p).data_conn else none

-- The entry that AddHTTPTunnel and AddHTTPSTunnel build from their arguments.
abbrev pub http_entry : Bool → Str → Str → Str → Str → ℕ → HttpTunnelEntry
http_entry tls tunnel_id client_id hostname local_host local_port = record {
  id = tunnel_id;
  client_id = client_id;
  hostname = hostname;
  local_host = local_host;
  local_port = local_port;
  is_tls = tls;
}

unfoldable pub with_http : Manager → Result Taken Table → Result Taken Manager
with_http m (err e) = err e
with_http m (ok t) = ok (record m { http = t })

unfoldable pub with_https : Manager → Result Taken Table → Result Taken Manager
with_https m (err e) = err e
with_https m (ok t) = ok (record m { https = t })

unfoldable pub add_http_tunnel : Str → Str → Str → Str → ℕ → Manager → Result Taken Manager
unfolding with_http
add_http_tunnel tunnel_id client_id hostname local_host local_port m =
    with_http m
      (add_route (http_entry false tunnel_id client_id hostname local_host local_port) m.http)

unfoldable pub add_https_tunnel : Str → Str → Str → Str → ℕ → Manager → Result Taken Manager
unfolding with_https
add_https_tunnel tunnel_id client_id hostname local_host local_port m =
    with_https m
      (add_route (http_entry true tunnel_id client_id hostname local_host local_port) m.https)

unfoldable pub get_http_tunnel : Manager → Str → Option HttpTunnelEntry
get_http_tunnel m hostname = lookup hostname m.http.routes

unfoldable pub get_https_tunnel : Manager → Str → Option HttpTunnelEntry
get_https_tunnel m hostname = lookup hostname m.https.routes

pub list_tunnels : Manager → List TunnelEntry
list_tunnels m = values m.tunnels

pub list_http_tunnels : Manager → List HttpTunnelEntry
list_http_tunnels m = values m.http.routes ++ values m.https.routes

unfoldable pub remove_http_tunnels_for_client : Str → Manager → Manager
remove_http_tunnels_for_client c m = record m {
  http = remove_routes c m.http;
  https = remove_routes c m.https;
}

unfoldable pub register_pending_socks : Str → Manager → ℕ × Manager
register_pending_socks conn_id m = (
  m.next_dial,
  record m {
    pending_socks = insert conn_id m.next_dial m.pending_socks;
    dials = update m.dials m.next_dial (record { ready = false; success = false; err_msg = [] });
    next_dial = suc m.next_dial;
  },
)

-- FulfillSOCKS closes the channel with no `sync.Once`, so a second close would panic.
pub fulfill_socks : Str → Bool → Str → Manager → Result ManagerError Manager
fulfill_socks conn_id success err_msg m = elim (lookup conn_id m.pending_socks) [
  | none ↦ err (unknown_conn conn_id)
  | some p ↦
      if (m.dials p).ready
      then err panic
      else ok (record m {
        pending_socks = delete conn_id m.pending_socks;
        dials = update m.dials p (record { ready = true; success = success; err_msg = err_msg });
      })
]

pub wait_socks_ready : ℕ → Manager → Option (Bool × Str)
wait_socks_ready p m =
    if (m.dials p).ready then some ((m.dials p).success, (m.dials p).err_msg) else none
