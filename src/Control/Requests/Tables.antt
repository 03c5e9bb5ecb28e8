-- ===== src/Control/Requests/Tables.antt =====
-- internal/control/handler.go: what a client's requests do to the tables of the other clients.
use reversproxy.Base.{
  ℕ, ◌≡◌, refl, sym, ap, ◌∙◌, inl, inr, Bool, true, false, List, Option, none, some, if◌then◌else◌,
  Bool-cases, Option-cases, Str, str_eq, str_eq_iff, str_eq_refl, str_eq_sound, lookup, arith,
}
use reversproxy.Base.Result.{ok, Result-cases}
use reversproxy.Protocol.Messages.{RequestTunnel, RequestHttpTunnel, RequestHttpsTunnel}
use reversproxy.Tunnel.Table.{HttpTunnelEntry, Table, add_route, remove_routes}
use reversproxy.Tunnel.Table.Ownership.{
  IsTracked, add_route_free, lookup-add_route, add_route-IsTracked,
}
use reversproxy.Tunnel.Manager.{
  TunnelEntry, Manager, add_tunnel, add_http_tunnel, add_https_tunnel, get_tunnel, get_http_tunnel,
  get_https_tunnel, remove_tunnels_for_client, remove_http_tunnels_for_client,
}
use reversproxy.Tunnel.Manager.Hosts.{
  add_http_tunnel_ok, add_https_tunnel_ok, without, lookup-remove_routes-without,
}
use reversproxy.Tunnel.Manager.Ports.{
  IsPorted, add_tunnel-IsPorted, lookup-add_tunnel, lookup-remove_tunnels, remove_tunnels_other,
}
use reversproxy.Tunnel.Manager.Calls.{after}
use reversproxy.Control.Requests.{
  Answers, Work, open_tunnel, handle_request_tunnel, handle_http_tunnel_request,
  handle_request_http_tunnel, handle_request_https_tunnel,
}

-- What is left of a tunnel when client `c` leaves.
abbrev pub tunnel_without : Str → Option TunnelEntry → Option TunnelEntry
tunnel_without c none = none
tunnel_without c (some e) = if str_eq e.client_id c then none else some e

-- But for the routes of client `c`, the second table is like the first.
pub record IsAside (c : Str) (t u : Table) : Type 0 where
  pub tracked : IsTracked u
  pub others : (h : Str) → without c (lookup h u.routes) ≡ without c (lookup h t.routes)

-- But for what client `c` has in them, the second manager's tables are like the first's.
pub record IsBeside (c : Str) (m n : Manager) : Type 0 where
  pub ports : IsPorted n.tunnels n.by_client
  pub tunnels :
      (id : Str) → tunnel_without c (lookup id n.tunnels) ≡ tunnel_without c (lookup id m.tunnels)
  pub http : IsAside c m.http n.http
  pub https : IsAside c m.https n.https

without_own :
    (c : Str) (o : Option HttpTunnelEntry)
    → ((e : HttpTunnelEntry) → o ≡ some e → e.client_id ≡ c)
    → without c o ≡ none
without_own c none own = refl
without_own c (some e) own = ground (arith, own e refl, str_eq_refl c)

add_route-IsAside :
    (c : Str) (e : HttpTunnelEntry) (t u x : Table)
    → e.client_id ≡ c
    → add_route e u ≡ ok x
    → IsAside c t u
    → IsAside c t x
add_route-IsAside c e t u x mine p v =
    let (free, same) = add_route_free e u x p in
    record {
      tracked = add_route-IsTracked e u x v.tracked p;
      others = λ h. elim (Bool-cases (str_eq e.hostname h)) [
        | inl here ↦
            ap (without c) (ap (λ (y : Table). lookup h y.routes) same ∙ lookup-add_route e u h)
            ∙ rw here (
                without_own c (some e) (λ y q. ground arith)
                ∙ sym (
                    without_own c (lookup h u.routes)
                      (λ old q. free old (rw (str_eq_sound e.hostname h here) q) ∙ mine))
                ∙ v.others h)
        | inr there ↦
            ap (without c) (ap (λ (y : Table). lookup h y.routes) same ∙ lookup-add_route e u h)
            ∙ rw there (v.others h)
      ];
    }

pub same-IsAside : (c : Str) (t : Table) → IsTracked t → IsAside c t t
same-IsAside c t v = record { tracked = v; others = λ h. refl }

pub remove_routes-IsAside :
    (c : Str) (t u : Table)
    → IsAside c t u
    → (h : Str) → lookup h (remove_routes c u).routes ≡ without c (lookup h t.routes)
remove_routes-IsAside c t u v h = lookup-remove_routes-without c h u v.tracked ∙ v.others h

tunnel_without_own :
    (c : Str) (e : TunnelEntry) → e.client_id ≡ c → tunnel_without c (some e) ≡ none
tunnel_without_own c e q = ground (arith, str_eq_refl c)

lookup-remove_tunnels_without :
    (c : Str) (n : Manager)
    → IsPorted n.tunnels n.by_client
    → (id : Str)
    → lookup id (remove_tunnels_for_client c n).tunnels ≡ tunnel_without c (lookup id n.tunnels)
lookup-remove_tunnels_without c n v id = elim (Option-cases (lookup id n.tunnels)) [
  | inl p ↦ rw p (ground (arith, lookup-remove_tunnels c n id))
  | inr (e, p) ↦ rw p (elim (Bool-cases (str_eq e.client_id c)) [
    | inl mine ↦ rw mine (
        ground
          (arith, lookup-remove_tunnels c n id, v.listed id e p, str_eq_sound e.client_id c mine))
    | inr other ↦
        rw other (remove_tunnels_other c n id e v p (λ q. ground (arith, str_eq_iff e.client_id c)))
  ])
]

module _ (c : Str) (m n : Manager) (v : IsBeside c m n) where
  add_tunnel-IsBeside :
      (e : TunnelEntry)
      → e.client_id ≡ c
      → lookup e.id n.tunnels ≡ none
      → IsBeside c m (add_tunnel e n)
  unfolding add_tunnel
  add_tunnel-IsBeside e mine fresh = record {
    ports = add_tunnel-IsPorted e n fresh v.ports;
    tunnels = λ id. elim (Bool-cases (str_eq e.id id)) [
      | inl here ↦
          ap (tunnel_without c) (lookup-add_tunnel e n id)
          ∙ rw here (
              tunnel_without_own c e mine
              ∙ ap (tunnel_without c)
                  (sym fresh ∙ ap (λ i. lookup i n.tunnels) (str_eq_sound e.id id here))
              ∙ v.tunnels id)
      | inr there ↦ ap (tunnel_without c) (lookup-add_tunnel e n id) ∙ rw there (v.tunnels id)
    ];
    http = v.http;
    https = v.https;
  }

  add_http-IsBeside :
      (id h host : Str) (port : ℕ) → IsBeside c m (after n (add_http_tunnel id c h host port n))
  add_http-IsBeside id h host port = elim (Result-cases (add_http_tunnel id c h host port n)) [
    | inl (e, p) ↦ rw p v
    | inr (x, p) ↦
        let (t, q, r) = add_http_tunnel_ok id c h host port n x p in
        rw (p, r)
          (record {
            ports = v.ports;
            tunnels = v.tunnels;
            http = add_route-IsAside c _ m.http n.http t refl q v.http;
            https = v.https;
          })
  ]

  add_https-IsBeside :
      (id h host : Str) (port : ℕ) → IsBeside c m (after n (add_https_tunnel id c h host port n))
  add_https-IsBeside id h host port = elim (Result-cases (add_https_tunnel id c h host port n)) [
    | inl (e, p) ↦ rw p v
    | inr (x, p) ↦
        let (t, q, r) = add_https_tunnel_ok id c h host port n x p in
        rw (p, r)
          (record {
            ports = v.ports;
            tunnels = v.tunnels;
            http = v.http;
            https = add_route-IsAside c _ m.https n.https t refl q v.https;
          })
  ]

  -- When the client leaves, nothing of it is left, and the rest is as it was.
  pub remove-IsBeside :
      let left = remove_http_tunnels_for_client c (remove_tunnels_for_client c n) in
      ((id : Str) → get_tunnel left id ≡ tunnel_without c (get_tunnel m id))
      × ((h : Str) → get_http_tunnel left h ≡ without c (get_http_tunnel m h))
      × ((h : Str) → get_https_tunnel left h ≡ without c (get_https_tunnel m h))
  unfolding remove_http_tunnels_for_client remove_tunnels_for_client get_tunnel get_http_tunnel
      get_https_tunnel
  remove-IsBeside = (
    λ id. lookup-remove_tunnels_without c n v.ports id ∙ v.tunnels id,
    λ h. remove_routes-IsAside c m.http n.http v.http h,
    λ h. remove_routes-IsAside c m.https n.https v.https h,
  )

-- A closed listener changes no table.
close-IsBeside :
    (c : Str) (m n : Manager) (closed : List ℕ)
    → IsBeside c m n
    → IsBeside c m (record n { closed = closed })
close-IsBeside c m n closed v = record {
  ports = v.ports;
  tunnels = v.tunnels;
  http = v.http;
  https = v.https;
}

module _ (a : Answers) (c data_addr : Str) (m : Manager) (w : Work)
    (v : IsBeside c m w.manager) where
  open_tunnel-IsBeside :
      (req : RequestTunnel) (l port : ℕ)
      → lookup a.uuid w.manager.tunnels ≡ none
      → IsBeside c m (open_tunnel req l port a c data_addr w).manager
  unfolding open_tunnel
  open_tunnel-IsBeside req l port fresh = elim (Bool-cases a.write_ok) [
    | inl fine ↦ rw (fine, open_tunnel) (add_tunnel-IsBeside c m w.manager v _ refl fresh)
    | inr fails ↦
        rw (fails, open_tunnel)
          (close-IsBeside c m _ _ (add_tunnel-IsBeside c m w.manager v _ refl fresh))
  ]

  pub handle_request_tunnel-IsBeside :
      (decimal : ℕ → Str) (d : Option RequestTunnel)
      → lookup a.uuid w.manager.tunnels ≡ none
      → IsBeside c m (handle_request_tunnel decimal d a c data_addr w).manager
  unfolding handle_request_tunnel
  handle_request_tunnel-IsBeside decimal none fresh = v
  handle_request_tunnel-IsBeside decimal (some req) fresh = elim (Result-cases a.listens) [
    | inl (text, p) ↦ rw (p, handle_request_tunnel) v
    | inr ((l, port), p) ↦ rw (p, handle_request_tunnel) (open_tunnel-IsBeside req l port fresh)
  ]

  handle_http_tunnel_request-IsBeside :
      (tls : Bool) (h host : Str) (port : ℕ)
      → IsBeside c m (handle_http_tunnel_request tls h host port a c data_addr w).manager
  unfolding handle_http_tunnel_request
  handle_http_tunnel_request-IsBeside true h host port =
      add_https-IsBeside c m w.manager v a.uuid h host port
  handle_http_tunnel_request-IsBeside false h host port =
      add_http-IsBeside c m w.manager v a.uuid h host port

  pub handle_request_http_tunnel-IsBeside :
      (d : Option RequestHttpTunnel)
      → IsBeside c m (handle_request_http_tunnel d a c data_addr w).manager
  unfolding handle_request_http_tunnel
  handle_request_http_tunnel-IsBeside none = v
  handle_request_http_tunnel-IsBeside (some req) = handle_http_tunnel_request-IsBeside false _ _ _

  pub handle_request_https_tunnel-IsBeside :
      (d : Option RequestHttpsTunnel)
      → IsBeside c m (handle_request_https_tunnel d a c data_addr w).manager
  unfolding handle_request_https_tunnel
  handle_request_https_tunnel-IsBeside none = v
  handle_request_https_tunnel-IsBeside (some req) = handle_http_tunnel_request-IsBeside true _ _ _
