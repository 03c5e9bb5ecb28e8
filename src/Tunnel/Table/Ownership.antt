-- ===== src/Tunnel/Table/Ownership.antt =====
-- The two maps of a routing table agree, and what adding and removing routes does to both.
use reversproxy.Base.{
  true, false, ◌≡◌, ◌≢◌, inl, inr, List, [], ◌∷◌, ◌++◌, none, some, if◌then◌else◌, Bool-cases,
  Option-cases, Str, str_eq, str_eq_iff, str_eq_refl, str_eq_sound, str_eq_ne, contains,
  contains-snoc, Map, lookup, insert, lookup-nil, lookup-insert, lookup-delete, lookup-delete_all,
  arith, ◌||◌,
}
use reversproxy.Base.Result.{ok, err}
use reversproxy.Tunnel.Table.{
  HttpTunnelEntry, Table, taken_by, empty_table, owned, track, add_route, remove_routes,
}

-- Every route is listed under its client, and every listed hostname is a route of that client
-- whose entry carries the hostname.
pub record IsTracked (t : Table) : Type 0 where
  pub listed :
      (h : Str) (e : HttpTunnelEntry)
      → lookup h t.routes ≡ some e
      → contains h (owned t e.client_id) ≡ true
  pub routed :
      (c h : Str)
      → contains h (owned t c) ≡ true
      → (e : HttpTunnelEntry) × (lookup h t.routes ≡ some e) × (e.client_id ≡ c)
  pub named : (h : Str) (e : HttpTunnelEntry) → lookup h t.routes ≡ some e → e.hostname ≡ h

-- What the lists hold after a route is added.
owned-track :
    (t : Table) (r : Map HttpTunnelEntry) (c h c' h' : Str)
    → contains h' (owned (record { routes = r; by_client = track t c h }) c')
      ≡ (contains h' (owned t c') || (if str_eq c c' then str_eq h h' else false))
unfolding track owned
owned-track t r c h c' h' = ground (
  arith,
  lookup-insert c c' (owned t c ++ h ∷ []) t.by_client,
  contains-snoc h' h (owned t c),
  str_eq_iff c c',
  str_eq_iff h h',
)

-- The hostname is free, or it is the client's own.
abbrev pub IsFreeFor : Table → HttpTunnelEntry → Type 0
IsFreeFor t e =
    (old : HttpTunnelEntry) → lookup e.hostname t.routes ≡ some old → old.client_id ≡ e.client_id

abbrev pub added : HttpTunnelEntry → Table → Table
added e t = record {
  routes = insert e.hostname e t.routes;
  by_client = track t e.client_id e.hostname;
}

pub add_route-ok :
    (e : HttpTunnelEntry) (t : Table) → IsFreeFor t e → add_route e t ≡ ok (added e t)
unfolding add_route
add_route-ok e t free = elim (Option-cases (lookup e.hostname t.routes)) [
  | inl p ↦ ground arith
  | inr (old, p) ↦ ground (arith, free old p, str_eq_iff old.client_id e.client_id)
]

pub add_route-err :
    (e old : HttpTunnelEntry) (t : Table)
    → lookup e.hostname t.routes ≡ some old
    → old.client_id ≢ e.client_id
    → add_route e t ≡ err (taken_by old.client_id)
unfolding add_route
add_route-err e old t p other = ground (arith, str_eq_ne old.client_id e.client_id other)

-- A table that comes out of `add_route` was made from a hostname that was free for the client.
pub add_route_free :
    (e : HttpTunnelEntry) (t u : Table) → add_route e t ≡ ok u → IsFreeFor t e × (u ≡ added e t)
unfolding add_route
add_route_free e t u p = elim (Option-cases (lookup e.hostname t.routes)) [
  | inl q ↦ (λ old r. cc, ground arith)
  | inr (old, q) ↦ elim (Bool-cases (str_eq old.client_id e.client_id)) [
    | inl same ↦ (λ old' r. str_eq_sound _ _ (ground arith), ground arith)
    | inr other ↦ absurd (ground arith)
  ]
]

pub lookup-add_route :
    (e : HttpTunnelEntry) (t : Table) (h : Str)
    → lookup h (added e t).routes ≡ (if str_eq e.hostname h then some e else lookup h t.routes)
lookup-add_route e t h = lookup-insert e.hostname h e t.routes

module _ (e : HttpTunnelEntry) (t : Table) (v : IsTracked t) (free : IsFreeFor t e) where
  added-listed :
      (h : Str) (x : HttpTunnelEntry)
      → lookup h (added e t).routes ≡ some x
      → contains h (owned (added e t) x.client_id) ≡ true
  added-listed h x p = ground (
    arith,
    lookup-add_route e t h,
    owned-track t (insert e.hostname e t.routes) e.client_id e.hostname x.client_id h,
    str_eq_refl e.client_id,
    v.listed h x,
  )

  added-routed :
      (c h : Str)
      → contains h (owned (added e t) c) ≡ true
      → (x : HttpTunnelEntry) × (lookup h (added e t).routes ≡ some x) × (x.client_id ≡ c)
  added-routed c h p = elim (Bool-cases (str_eq e.hostname h)) [
    | inl here ↦ elim (Bool-cases (contains h (owned t c))) [
      | inl old ↦
          let (x, q, r) = v.routed c h old in
          (
            e,
            ground (arith, lookup-add_route e t h),
            ground (arith, free x, str_eq_iff e.hostname h),
          )
      | inr new ↦ (
        e,
        ground (arith, lookup-add_route e t h),
        ground (
          arith,
          owned-track t (insert e.hostname e t.routes) e.client_id e.hostname c h,
          str_eq_iff e.client_id c,
        ),
      )
    ]
    | inr there ↦
        let (x, q, r) = v.routed c h (
          ground
            (arith, owned-track t (insert e.hostname e t.routes) e.client_id e.hostname c h)) in
        (x, ground (arith, lookup-add_route e t h), r)
  ]

  added-IsTracked : IsTracked (added e t)
  added-IsTracked = record {
    listed = added-listed;
    routed = added-routed;
    named = λ h x p. ground (arith, lookup-add_route e t h, str_eq_iff e.hostname h, v.named h x);
  }

pub add_route-IsTracked :
    (e : HttpTunnelEntry) (t u : Table) → IsTracked t → add_route e t ≡ ok u → IsTracked u
add_route-IsTracked e t u v p =
    let (free, q) = add_route_free e t u p in rw q (added-IsTracked e t v free)

pub lookup-remove_routes :
    (c h : Str) (t : Table)
    → lookup h (remove_routes c t).routes
      ≡ (if contains h (owned t c) then none else lookup h t.routes)
unfolding remove_routes
lookup-remove_routes c h t = lookup-delete_all h (owned t c) t.routes

owned-remove_routes :
    (c c' h : Str) (t : Table)
    → contains h (owned (remove_routes c t) c')
      ≡ (if str_eq c c' then false else contains h (owned t c'))
unfolding remove_routes owned contains
owned-remove_routes c c' h t = ground (arith, lookup-delete c c' t.by_client)

module _ (c : Str) (t : Table) (v : IsTracked t) where
  removed-listed :
      (h : Str) (x : HttpTunnelEntry)
      → lookup h (remove_routes c t).routes ≡ some x
      → contains h (owned (remove_routes c t) x.client_id) ≡ true
  removed-listed h x p = ground (
    arith,
    lookup-remove_routes c h t,
    owned-remove_routes c x.client_id h t,
    str_eq_iff c x.client_id,
    v.listed h x,
  )

  removed-routed :
      (c' h : Str)
      → contains h (owned (remove_routes c t) c') ≡ true
      → (x : HttpTunnelEntry) × (lookup h (remove_routes c t).routes ≡ some x) × (x.client_id ≡ c')
  removed-routed c' h p =
      let (x, q, r) = v.routed c' h (ground (arith, owned-remove_routes c c' h t)) in
      (
        x,
        elim (Bool-cases (contains h (owned t c))) [
          | inl both ↦
              let (y, q', r') = v.routed c h both in
              absurd (ground (arith, owned-remove_routes c c' h t, str_eq_iff c c'))
          | inr out ↦ ground (arith, lookup-remove_routes c h t)
        ],
        r,
      )

  pub remove_routes-IsTracked : IsTracked (remove_routes c t)
  remove_routes-IsTracked = record {
    listed = removed-listed;
    routed = removed-routed;
    named = λ h x p. ground (arith, lookup-remove_routes c h t, v.named h x);
  }

  -- A departing client takes its own routes with it.
  pub remove_routes_own :
      (h : Str) (e : HttpTunnelEntry)
      → lookup h t.routes ≡ some e
      → e.client_id ≡ c
      → lookup h (remove_routes c t).routes ≡ none
  remove_routes_own h e p q = ground (arith, lookup-remove_routes c h t, v.listed h e)

  -- The routes of the other clients stay.
  pub remove_routes_other :
      (h : Str) (e : HttpTunnelEntry)
      → lookup h t.routes ≡ some e
      → e.client_id ≢ c
      → lookup h (remove_routes c t).routes ≡ some e
  remove_routes_other h e p other = elim (Bool-cases (contains h (owned t c))) [
    | inl mine ↦ let (y, q, r) = v.routed c h mine in absurd (other (ground arith))
    | inr out ↦ ground (arith, lookup-remove_routes c h t)
  ]

pub empty_table-IsTracked : IsTracked empty_table
unfolding empty_table owned contains
empty_table-IsTracked = record {
  listed = λ h e p. absurd (ground (arith, lookup-nil {V = HttpTunnelEntry} h));
  routed = λ c h p. absurd (ground (arith, lookup-nil {V = List Str} c));
  named = λ h e p. absurd (ground (arith, lookup-nil {V = HttpTunnelEntry} h));
}
