-- ===== src/Tunnel/Manager/Ports.antt =====
-- internal/tunnel/manager.go: the TCP tunnels, their clients and their listeners.
use reversproxy.Base.{
  ℕ, true, false, ◌≡◌, ◌≢◌, refl, inl, inr, List, [], ◌∷◌, ◌++◌, ◌||◌, Option, none, some,
  if◌then◌else◌, Bool-cases, Option-cases, Str, str_eq, str_eq_iff, str_eq_refl, str_eq_sound,
  contains, contains-snoc, has, Map, lookup, delete, lookup-nil, lookup-insert, lookup-delete,
  arith,
}
use reversproxy.Tunnel.Manager.{
  TunnelEntry, Manager, tunnels_of, add_tunnel, close_listener, close_each,
  remove_tunnels_for_client,
}

-- Every tunnel is listed under its client and every listed tunnel is one of that client.
pub record IsPorted (tunnels : Map TunnelEntry) (by_client : Map (List Str)) : Type 0 where
  pub listed :
      (id : Str) (e : TunnelEntry)
      → lookup id tunnels ≡ some e
      → contains id (tunnels_of by_client e.client_id) ≡ true
  pub opened :
      (c id : Str)
      → contains id (tunnels_of by_client c) ≡ true
      → (e : TunnelEntry) × (lookup id tunnels ≡ some e) × (e.client_id ≡ c)

tunnels_of-add_tunnel :
    (e : TunnelEntry) (m : Manager) (c id : Str)
    → contains id (tunnels_of (add_tunnel e m).by_client c) ≡ (
        contains id (tunnels_of m.by_client c)
        || (if str_eq e.client_id c then str_eq e.id id else false))
unfolding add_tunnel tunnels_of
tunnels_of-add_tunnel e m c id = ground (
  arith,
  lookup-insert e.client_id c (tunnels_of m.by_client e.client_id ++ e.id ∷ []) m.by_client,
  contains-snoc id e.id (tunnels_of m.by_client e.client_id),
  str_eq_iff e.client_id c,
)

pub lookup-add_tunnel :
    (e : TunnelEntry) (m : Manager) (id : Str)
    → lookup id (add_tunnel e m).tunnels ≡ (if str_eq e.id id then some e else lookup id m.tunnels)
unfolding add_tunnel
lookup-add_tunnel e m id = lookup-insert e.id id e m.tunnels

pub add_tunnel-IsPorted :
    (e : TunnelEntry) (m : Manager)
    → lookup e.id m.tunnels ≡ none
    → IsPorted m.tunnels m.by_client
    → IsPorted (add_tunnel e m).tunnels (add_tunnel e m).by_client
add_tunnel-IsPorted e m fresh v = record {
  listed = λ id x p. ground (
    arith,
    lookup-add_tunnel e m id,
    tunnels_of-add_tunnel e m x.client_id id,
    str_eq_refl e.client_id,
    v.listed id x,
  );
  opened = λ c id p. elim (Bool-cases (contains id (tunnels_of m.by_client c))) [
    | inl old ↦
        let (x, q, r) = v.opened c id old in
        (x, ground (arith, lookup-add_tunnel e m id, str_eq_iff e.id id), r)
    | inr new ↦ (
      e,
      ground (arith, lookup-add_tunnel e m id, tunnels_of-add_tunnel e m c id),
      ground (arith, tunnels_of-add_tunnel e m c id, str_eq_iff e.client_id c),
    )
  ];
}

lookup-close_each :
    (j : Str) (ids : List Str) (ts : Map TunnelEntry) (closed : List ℕ)
    → lookup j (close_each ids ts closed).0 ≡ (if contains j ids then none else lookup j ts)
unfolding close_each contains
lookup-close_each j [] ts closed = refl
lookup-close_each j (id ∷ ids) ts closed = elim (Option-cases (lookup id ts)) [
  | inl p ↦ rw (p, close_each) (ground (arith, lookup-close_each j ids ts closed, str_eq_iff id j))
  | inr (e, p) ↦
      rw (p, close_each)
        (ground (
          arith,
          lookup-close_each j ids (delete id ts) (close_listener e.listener closed),
          lookup-delete id j ts,
        ))
]

has-close_listener :
    (l : ℕ) (o : Option ℕ) (closed : List ℕ)
    → has l closed ≡ true
    → has l (close_listener o closed) ≡ true
unfolding close_listener has
has-close_listener l none closed h = h
has-close_listener l (some k) closed h = ground arith

has-close_listener_self :
    (l : ℕ) (o : Option ℕ) (closed : List ℕ) → o ≡ some l → has l (close_listener o closed) ≡ true
unfolding close_listener has
has-close_listener_self l none closed h = cc
has-close_listener_self l (some k) closed h = ground arith

-- What is closed stays closed.
has-close_each :
    (l : ℕ) (ids : List Str) (ts : Map TunnelEntry) (closed : List ℕ)
    → has l closed ≡ true
    → has l (close_each ids ts closed).1 ≡ true
unfolding close_each
has-close_each l [] ts closed h = h
has-close_each l (id ∷ ids) ts closed h = elim (Option-cases (lookup id ts)) [
  | inl p ↦ rw (p, close_each) (has-close_each l ids ts closed h)
  | inr (e, p) ↦
      rw (p, close_each)
        (has-close_each l ids (delete id ts) (close_listener e.listener closed)
          (has-close_listener l e.listener closed h))
]

-- The loop closes the listener of every tunnel that it is given.
has-close_each_listed :
    (l : ℕ) (j : Str) (e : TunnelEntry) (ids : List Str) (ts : Map TunnelEntry) (closed : List ℕ)
    → lookup j ts ≡ some e
    → e.listener ≡ some l
    → contains j ids ≡ true
    → has l (close_each ids ts closed).1 ≡ true
unfolding close_each contains
has-close_each_listed l j e [] ts closed p q h = cc
has-close_each_listed l j e (id ∷ ids) ts closed p q h = elim (Bool-cases (str_eq id j)) [
  | inl here ↦
      let found : lookup id ts ≡ some e = rw (str_eq_sound id j here) p in
      rw (found, close_each)
        (has-close_each l ids (delete id ts) (close_listener e.listener closed)
          (has-close_listener_self l e.listener closed q))
  | inr there ↦ elim (Option-cases (lookup id ts)) [
    | inl r ↦ rw (r, close_each) (has-close_each_listed l j e ids ts closed p q (ground arith))
    | inr (x, r) ↦
        rw (r, close_each)
          (has-close_each_listed l j e ids (delete id ts) (close_listener x.listener closed)
            (ground (arith, lookup-delete id j ts)) q (ground arith))
  ]
]

module _ (c : Str) (m : Manager) where
  pub lookup-remove_tunnels :
      (id : Str)
      → lookup id (remove_tunnels_for_client c m).tunnels
        ≡ (if contains id (tunnels_of m.by_client c) then none else lookup id m.tunnels)
  unfolding remove_tunnels_for_client
  lookup-remove_tunnels id = lookup-close_each id (tunnels_of m.by_client c) m.tunnels m.closed

  tunnels_of-remove_tunnels :
      (c' id : Str)
      → contains id (tunnels_of (remove_tunnels_for_client c m).by_client c')
        ≡ (if str_eq c c' then false else contains id (tunnels_of m.by_client c'))
  unfolding remove_tunnels_for_client tunnels_of contains
  tunnels_of-remove_tunnels c' id = ground (arith, lookup-delete c c' m.by_client)

  pub remove_tunnels-IsPorted :
      IsPorted m.tunnels m.by_client
      → IsPorted (remove_tunnels_for_client c m).tunnels (remove_tunnels_for_client c m).by_client
  remove_tunnels-IsPorted v = record {
    listed = λ id x p. ground (
      arith,
      lookup-remove_tunnels id,
      tunnels_of-remove_tunnels x.client_id id,
      str_eq_iff c x.client_id,
      v.listed id x,
    );
    opened = λ c' id p.
        let (x, q, r) = v.opened c' id (ground (arith, tunnels_of-remove_tunnels c' id)) in
        (
          x,
          elim (Bool-cases (contains id (tunnels_of m.by_client c))) [
            | inl both ↦
                let (y, q', r') = v.opened c id both in
                absurd (ground (arith, tunnels_of-remove_tunnels c' id, str_eq_iff c c'))
            | inr out ↦ ground (arith, lookup-remove_tunnels id)
          ],
          r,
        );
  }

  -- When a client leaves, each tunnel that it had is gone and its listener is closed.
  pub remove_tunnels_own :
      (id : Str) (e : TunnelEntry) (l : ℕ)
      → IsPorted m.tunnels m.by_client
      → lookup id m.tunnels ≡ some e
      → e.client_id ≡ c
      → e.listener ≡ some l
      → (lookup id (remove_tunnels_for_client c m).tunnels ≡ none)
        × (has l (remove_tunnels_for_client c m).closed ≡ true)
  remove_tunnels_own id e l v p q r =
      let mine : contains id (tunnels_of m.by_client c) ≡ true = ground (arith, v.listed id e p) in
      (
        ground (arith, lookup-remove_tunnels id),
        unfold remove_tunnels_for_client in
            has-close_each_listed l id e (tunnels_of m.by_client c) m.tunnels m.closed p r mine,
      )

  -- When a client leaves, the tunnels of the other clients stay as they are.
  pub remove_tunnels_other :
      (id : Str) (e : TunnelEntry)
      → IsPorted m.tunnels m.by_client
      → lookup id m.tunnels ≡ some e
      → e.client_id ≢ c
      → lookup id (remove_tunnels_for_client c m).tunnels ≡ some e
  remove_tunnels_other id e v p other = elim (Bool-cases (contains id (tunnels_of m.by_client c))) [
    | inl mine ↦ let (y, q, r) = v.opened c id mine in absurd (other (ground arith))
    | inr out ↦ ground (arith, lookup-remove_tunnels id)
  ]

pub nil-IsPorted : IsPorted [] []
unfolding tunnels_of contains
nil-IsPorted = record {
  listed = λ id e p. absurd (ground (arith, lookup-nil {V = TunnelEntry} id));
  opened = λ c id p. absurd (ground (arith, lookup-nil {V = List Str} c));
}
