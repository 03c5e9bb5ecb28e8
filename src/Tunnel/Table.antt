-- ===== src/Tunnel/Table.antt =====
-- internal/tunnel/manager.go: one routing table with the hostnames listed under each client.
-- The manager keeps two of them, for plain HTTP and for HTTPS.
pub mod Ownership
use reversproxy.Base.{
  ℕ, Bool, true, false, not, ◌≡◌, List, [], ◌∷◌, ◌++◌, Option, none, some, if◌then◌else◌, Str,
  str_eq, contains, Map, lookup, insert, delete, delete_all, ◌&&◌,
}
use reversproxy.Base.Result.{Result, ok, err}

pub record HttpTunnelEntry : Type 0 where
  pub id : Str
  pub client_id : Str
  pub hostname : Str
  pub local_host : Str
  pub local_port : ℕ
  pub is_tls : Bool

pub record Table : Type 0 where
  pub routes : Map HttpTunnelEntry
  pub by_client : Map (List Str)

-- The client that already holds the hostname.
pub data Taken : Type 0 where
  taken_by : Str → Taken

unfoldable pub empty_table : Table
empty_table = record { routes = []; by_client = [] }

-- A missing key of a map of slices reads as nil, the empty slice.
unfoldable pub owned : Table → Str → List Str
owned t c = elim (lookup c t.by_client) [ none ↦ [] | some hs ↦ hs ]

pub track : Table → Str → Str → Map (List Str)
track t c h =
    if contains h (owned t c) then t.by_client else insert c (owned t c ++ h ∷ []) t.by_client

-- The locked part of AddHTTPTunnel and AddHTTPSTunnel.
unfoldable pub add_route : HttpTunnelEntry → Table → Result Taken Table
unfolding track
add_route e t =
    let added : Table = record {
      routes = insert e.hostname e t.routes;
      by_client = track t e.client_id e.hostname;
    } in
    elim (lookup e.hostname t.routes) [
      | none ↦ ok added
      | some existing ↦
          if not (str_eq existing.client_id e.client_id)
          then err (taken_by existing.client_id)
          else ok added
    ]

-- One half of RemoveHTTPTunnelsForClient.
pub remove_routes : Str → Table → Table
remove_routes c t = record {
  routes = delete_all (owned t c) t.routes;
  by_client = delete c t.by_client;
}
