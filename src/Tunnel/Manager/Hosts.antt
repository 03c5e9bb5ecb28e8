-- ===== src/Tunnel/Manager/Hosts.antt =====
-- internal/tunnel/manager.go: hostname routing through the manager's two tables.
use reversproxy.Base.{
  ℕ, true, false, ◌≡◌, ◌≢◌, refl, inl, inr, Option, none, some, if◌then◌else◌, Option-cases, Str,
  str_eq, str_eq_iff, lookup, arith,
}
use reversproxy.Base.Result.{Result, ok, err}
use reversproxy.Tunnel.Table.{HttpTunnelEntry, Table, Taken, taken_by, add_route, remove_routes}
use reversproxy.Tunnel.Table.Ownership.{
  IsTracked, added, add_route-ok, add_route-err, lookup-add_route, lookup-remove_routes,
  remove_routes_own, remove_routes_other,
}
use reversproxy.Tunnel.Manager.{
  Manager, http_entry, with_http, with_https, add_http_tunnel, add_https_tunnel, get_http_tunnel,
  get_https_tunnel, remove_http_tunnels_for_client,
}

with_http_ok :
    (m n : Manager) (r : Result Taken Table)
    → with_http m r ≡ ok n
    → (t : Table) × (r ≡ ok t) × (n ≡ record m { http = t })
unfolding with_http
with_http_ok m n (ok t) p = (t, refl, ground arith)
with_http_ok m n (err e) p = cc

with_https_ok :
    (m n : Manager) (r : Result Taken Table)
    → with_https m r ≡ ok n
    → (t : Table) × (r ≡ ok t) × (n ≡ record m { https = t })
unfolding with_https
with_https_ok m n (ok t) p = (t, refl, ground arith)
with_https_ok m n (err e) p = cc

module _ (id c h host : Str) (port : ℕ) (m : Manager) where
  -- A registration that succeeds puts the new entry under the hostname, keeps every other
  -- hostname of its table, and leaves the rest of the manager alone.
  pub add_http_tunnel_ok :
      (n : Manager)
      → add_http_tunnel id c h host port m ≡ ok n
      → (t : Table) × (add_route (http_entry false id c h host port) m.http ≡ ok t)
        × (n ≡ record m { http = t })
  unfolding add_http_tunnel
  add_http_tunnel_ok n p = with_http_ok m n _ p

  pub add_https_tunnel_ok :
      (n : Manager)
      → add_https_tunnel id c h host port m ≡ ok n
      → (t : Table) × (add_route (http_entry true id c h host port) m.https ≡ ok t)
        × (n ≡ record m { https = t })
  unfolding add_https_tunnel
  add_https_tunnel_ok n p = with_https_ok m n _ p

  -- Registering a plain HTTP hostname that no other client holds succeeds; then requests for
  -- that hostname go to the new entry, requests for any other hostname go where they went
  -- before, and HTTPS routing is unchanged.
  pub get_http_tunnel-add :
      ((old : HttpTunnelEntry) → get_http_tunnel m h ≡ some old → old.client_id ≡ c)
      → (n : Manager) × (add_http_tunnel id c h host port m ≡ ok n)
        × ((h' : Str)
            → get_http_tunnel n h' ≡ (
                if str_eq h h'
                then some (http_entry false id c h host port)
                else get_http_tunnel m h'))
        × ((h' : Str) → get_https_tunnel n h' ≡ get_https_tunnel m h')
  unfolding get_http_tunnel get_https_tunnel add_http_tunnel with_http
  get_http_tunnel-add free = (
    record m { http = added (http_entry false id c h host port) m.http },
    rw (add_route-ok (http_entry false id c h host port) m.http free),
    λ h'. lookup-add_route (http_entry false id c h host port) m.http h',
    λ h'. refl,
  )

  -- A hostname that another client holds is refused, with the holder's identity.
  pub add_http_tunnel_taken :
      (old : HttpTunnelEntry)
      → old.client_id ≢ c
      → get_http_tunnel m h ≡ some old
      → add_http_tunnel id c h host port m ≡ err (taken_by old.client_id)
  unfolding get_http_tunnel add_http_tunnel
  add_http_tunnel_taken old other p =
      rw (add_route-err (http_entry false id c h host port) old m.http p other)

  pub add_https_tunnel_taken :
      (old : HttpTunnelEntry)
      → old.client_id ≢ c
      → get_https_tunnel m h ≡ some old
      → add_https_tunnel id c h host port m ≡ err (taken_by old.client_id)
  unfolding get_https_tunnel add_https_tunnel
  add_https_tunnel_taken old other p =
      rw (add_route-err (http_entry true id c h host port) old m.https p other)

-- What is left of a route when client `c` leaves.
abbrev pub without : Str → Option HttpTunnelEntry → Option HttpTunnelEntry
without c none = none
without c (some e) = if str_eq e.client_id c then none else some e

pub lookup-remove_routes-without :
    (c h : Str) (t : Table)
    → IsTracked t
    → lookup h (remove_routes c t).routes ≡ without c (lookup h t.routes)
lookup-remove_routes-without c h t v = elim (Option-cases (lookup h t.routes)) [
  | inl p ↦ rw p (ground (arith, lookup-remove_routes c h t))
  | inr (e, p) ↦ rw p (
      ground (
        arith,
        remove_routes_own c t v h e p,
        remove_routes_other c t v h e p,
        str_eq_iff e.client_id c,
      ))
]

-- After a client has left, the hostnames that it held, in either table, are served by nobody,
-- and all other hostnames are served as before.
pub get_tunnel-remove_http_tunnels :
    (c h : Str) (m : Manager)
    → IsTracked m.http
    → IsTracked m.https
    → (get_http_tunnel (remove_http_tunnels_for_client c m) h ≡ without c (get_http_tunnel m h))
      × (get_https_tunnel (remove_http_tunnels_for_client c m) h ≡ without c (get_https_tunnel m h))
unfolding get_http_tunnel get_https_tunnel remove_http_tunnels_for_client
get_tunnel-remove_http_tunnels c h m v w =
    (lookup-remove_routes-without c h m.http v, lookup-remove_routes-without c h m.https w)
