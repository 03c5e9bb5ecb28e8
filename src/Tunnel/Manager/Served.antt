-- ===== src/Tunnel/Manager/Served.antt =====
-- internal/tunnel/manager.go: what the manager promises of the hostnames, which forgets its lists:
-- a partial map from hostnames to entries for HTTP and one for HTTPS.
use reversproxy.Base.{
  ℕ, ◌≡◌, refl, ap, ◌∙◌, inl, inr, true, false, not, List, [], ◌∷◌, Option, none, some,
  if◌then◌else◌, Bool-cases, Option-cases, Str, str_eq, lookup,
}
use reversproxy.Base.Result.{Result, ok, err}
use reversproxy.Tunnel.Table.{HttpTunnelEntry, Table, Taken, taken_by, add_route, empty_table}
use reversproxy.Tunnel.Table.Ownership.{added, lookup-add_route}
use reversproxy.Tunnel.Manager.{
  Manager, new_manager, http_entry, with_http, with_https, add_tunnel, remove_tunnels_for_client,
  register_pending, cancel_pending, add_http_tunnel, add_https_tunnel, get_http_tunnel,
  get_https_tunnel, register_pending_socks,
}
use reversproxy.Tunnel.Manager.Hosts.{without, get_tunnel-remove_http_tunnels}
use reversproxy.Tunnel.Manager.Tokens.{fulfill_pending_found}
use reversproxy.Tunnel.Manager.Calls.{
  Call, adds_tunnel, removes_tunnels, registers, cancels, fulfills, adds_http, adds_https,
  removes_hosts, registers_dial, fulfills_dial, after, apply, run, IsSound, IsFreshAlong,
  apply-IsSound, fulfill_socks_found, new_manager-IsSound,
}

-- Who serves a hostname.
abbrev pub Routes : Type 0
Routes = Str → Option HttpTunnelEntry

pub record Served : Type 0 where
  pub http : Routes
  pub https : Routes

abbrev pub nobody : Served
nobody = record { http = λ h. none; https = λ h. none }

abbrev pub claimed : HttpTunnelEntry → Routes → Routes
claimed e r h = if str_eq e.hostname h then some e else r h

-- A claim on a hostname: it is refused when another client serves the hostname.
settle_claim : HttpTunnelEntry → Routes → Option HttpTunnelEntry → Result Taken Routes
settle_claim e r none = ok (claimed e r)
settle_claim e r (some old) =
    if not (str_eq old.client_id e.client_id)
    then err (taken_by old.client_id)
    else ok (claimed e r)

pub claim : HttpTunnelEntry → Routes → Result Taken Routes
unfolding settle_claim
claim e r = settle_claim e r (r e.hostname)

abbrev pub kept : Routes → Result Taken Routes → Routes
kept r (ok s) = s
kept r (err e) = r

-- What a call of the manager does to what is served.
pub serve : Call → Served → Served
serve (adds_http id c h host port) s = record s {
  http = kept s.http (claim (http_entry false id c h host port) s.http);
}
serve (adds_https id c h host port) s = record s {
  https = kept s.https (claim (http_entry true id c h host port) s.https);
}
serve (removes_hosts c) s = record {
  http = λ h. without c (s.http h);
  https = λ h. without c (s.https h);
}
serve (adds_tunnel e) s = s
serve (removes_tunnels c) s = s
serve (registers random k ext) s = s
serve (cancels k) s = s
serve (fulfills k d token) s = s
serve (registers_dial k) s = s
serve (fulfills_dial k success message) s = s

pub serve_all : List Call → Served → Served
unfolding serve
serve_all [] s = s
serve_all (c ∷ cs) s = serve_all cs (serve c s)

-- What a manager serves.
pub view : Manager → Served
view m = record { http = get_http_tunnel m; https = get_https_tunnel m }

abbrev routes_of : Table → Routes
routes_of t h = lookup h t.routes

-- The table that a claim leaves, and whether it is refused.
abbrev settled : Table → Result Taken Table → Table
settled t (ok u) = u
settled t (err e) = t

abbrev pub refusal {ℓ} : {A : Type ℓ} → Result Taken A → Option Taken
refusal (ok a) = none
refusal (err e) = some e

routes_of-added :
    (e : HttpTunnelEntry) (t : Table) → routes_of (added e t) ≡ claimed e (routes_of t)
routes_of-added e t = λ i h. lookup-add_route e t h i

module _ (e : HttpTunnelEntry) (t : Table) where
  add_route-claim :
      (routes_of (settled t (add_route e t)) ≡ kept (routes_of t) (claim e (routes_of t)))
      × (refusal (add_route e t) ≡ refusal (claim e (routes_of t)))
  unfolding add_route claim settle_claim
  add_route-claim = elim (Option-cases (lookup e.hostname t.routes)) [
    | inl free ↦ rw (free, add_route, claim, settle_claim) (routes_of-added e t, refl)
    | inr (old, taken) ↦ elim (Bool-cases (str_eq old.client_id e.client_id)) [
      | inl mine ↦ rw (taken, mine, add_route, claim, settle_claim) (routes_of-added e t, refl)
      | inr other ↦ rw (taken, other, add_route, claim, settle_claim) (refl, refl)
    ]
  ]

-- The two calls that claim a hostname.
module _ (id c h host : Str) (port : ℕ) (m : Manager) where
  http_of-after :
      (r : Result Taken Table)
      → (get_http_tunnel (after m (with_http m r)) ≡ routes_of (settled m.http r))
        × (get_https_tunnel (after m (with_http m r)) ≡ get_https_tunnel m)
        × (refusal (with_http m r) ≡ refusal r)
  unfolding with_http get_http_tunnel get_https_tunnel
  http_of-after (ok t) = (refl, refl, refl)
  http_of-after (err e) = (refl, refl, refl)

  https_of-after :
      (r : Result Taken Table)
      → (get_https_tunnel (after m (with_https m r)) ≡ routes_of (settled m.https r))
        × (get_http_tunnel (after m (with_https m r)) ≡ get_http_tunnel m)
        × (refusal (with_https m r) ≡ refusal r)
  unfolding with_https get_http_tunnel get_https_tunnel
  https_of-after (ok t) = (refl, refl, refl)
  https_of-after (err e) = (refl, refl, refl)

  view-add_http :
      (view (after m (add_http_tunnel id c h host port m))
        ≡ serve (adds_http id c h host port) (view m))
      × (refusal (add_http_tunnel id c h host port m)
          ≡ refusal (claim (http_entry false id c h host port) (view m).http))
  unfolding view serve add_http_tunnel get_http_tunnel
  view-add_http =
      let (mine, other, refused) =
        http_of-after (add_route (http_entry false id c h host port) m.http) in
      let (same, same_refusal) = add_route-claim (http_entry false id c h host port) m.http in
      (λ i. record { http = (mine ∙ same) i; https = other i }, refused ∙ same_refusal)

  view-add_https :
      (view (after m (add_https_tunnel id c h host port m))
        ≡ serve (adds_https id c h host port) (view m))
      × (refusal (add_https_tunnel id c h host port m)
          ≡ refusal (claim (http_entry true id c h host port) (view m).https))
  unfolding view serve add_https_tunnel get_https_tunnel
  view-add_https =
      let (mine, other, refused) =
        https_of-after (add_route (http_entry true id c h host port) m.https) in
      let (same, same_refusal) = add_route-claim (http_entry true id c h host port) m.https in
      (λ i. record { http = other i; https = (mine ∙ same) i }, refused ∙ same_refusal)

view-after {ℓ} :
    {E : Type ℓ} (m : Manager) (r : Result E Manager)
    → ((n : Manager) → r ≡ ok n → view n ≡ view m)
    → view (after m r) ≡ view m
view-after m (ok n) same = same n refl
view-after m (err e) same = refl

view-cancel_pending : (k : Str) (m : Manager) → view (cancel_pending k m) ≡ view m
unfolding view cancel_pending get_http_tunnel get_https_tunnel
view-cancel_pending k m = elim (Option-cases (lookup k m.pending)) [
  | inl e ↦ rw (e, cancel_pending) refl
  | inr (p, e) ↦ rw (e, cancel_pending) refl
]

view-apply : (c : Call) (m : Manager) → IsSound m → view (apply c m) ≡ serve c (view m)
unfolding apply serve view add_tunnel remove_tunnels_for_client register_pending
    register_pending_socks get_http_tunnel get_https_tunnel
view-apply (adds_tunnel e) m v = refl
view-apply (removes_tunnels c) m v = refl
view-apply (registers random k ext) m v = refl
view-apply (cancels k) m v = view-cancel_pending k m
view-apply (fulfills k d token) m v =
    view-after m _
      (λ n e. let (p, _, _, _, same) = fulfill_pending_found k token d m n e in ap view same)
view-apply (adds_http id c h host port) m v = (view-add_http id c h host port m).0
view-apply (adds_https id c h host port) m v = (view-add_https id c h host port m).0
view-apply (removes_hosts c) m v = λ i. record {
  http = λ h. (get_tunnel-remove_http_tunnels c h m v.http v.https).0 i;
  https = λ h. (get_tunnel-remove_http_tunnels c h m v.http v.https).1 i;
}
view-apply (registers_dial k) m v = refl
view-apply (fulfills_dial k success message) m v =
    view-after m _
      (λ n e. let (p, _, same) = fulfill_socks_found k success message m n e in ap view same)

view-run :
    (cs : List Call) (m : Manager)
    → IsFreshAlong cs m
    → IsSound m
    → (view (run cs m) ≡ serve_all cs (view m)) × IsSound (run cs m)
unfolding run serve_all
view-run [] m fresh v = (refl, v)
view-run (c ∷ cs) m (f, fs) v =
    let (later, sound) = view-run cs (apply c m) fs (apply-IsSound m v c f) in
    (later ∙ ap (serve_all cs) (view-apply c m v), sound)

view-new_manager : view new_manager ≡ nobody
unfolding view new_manager get_http_tunnel get_https_tunnel empty_table lookup
view-new_manager = refl

-- The manager implements two partial maps from hostnames to entries. After any sequence of calls on
-- a new one, in which each new TCP tunnel has a fresh identity, it serves what the maps say after the
-- same calls, and the next claim on a hostname, of either kind, is refused exactly when the map
-- refuses it, with the same holder.
pub view-run-new_manager :
    (cs : List Call) (id c h host : Str) (port : ℕ)
    → IsFreshAlong cs new_manager
    → let m = run cs new_manager in
      let s = serve_all cs nobody in
      (view m ≡ s)
      × (refusal (add_http_tunnel id c h host port m)
          ≡ refusal (claim (http_entry false id c h host port) s.http))
      × (refusal (add_https_tunnel id c h host port m)
          ≡ refusal (claim (http_entry true id c h host port) s.https))
view-run-new_manager cs id c h host port fresh =
    let same : view (run cs new_manager) ≡ serve_all cs nobody =
      (view-run cs new_manager fresh new_manager-IsSound).0 ∙ ap (serve_all cs) view-new_manager in
    (
      same,
      (view-add_http id c h host port (run cs new_manager)).1
          ∙ ap (λ (s : Served). refusal (claim (http_entry false id c h host port) s.http)) same,
      (view-add_https id c h host port (run cs new_manager)).1
          ∙ ap (λ (s : Served). refusal (claim (http_entry true id c h host port) s.https)) same,
    )
