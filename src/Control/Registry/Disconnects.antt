-- ===== src/Control/Registry/Disconnects.antt =====
-- internal/control/registry.go: whom a disconnection reaches.
use reversproxy.Base.{
  ℕ, ◌≡◌, refl, ap, true, false, List, [], ◌∷◌, none, some, Str, str_eq, str_eq_refl, Map, lookup,
  lookup-insert, lookup-delete, delete, values, contains, inl, inr, Bool-cases, arith,
}
use reversproxy.Control.Registry.{
  Client, Registry, register, deregister, get_client, stop, disconnect, matches, stop_all,
  disconnect_by_name,
}

disconnect_found :
    (id : Str) (c : Client) (r : Registry)
    → lookup id r.clients ≡ some c
    → disconnect id r ≡ (true, stop c r)
unfolding disconnect
disconnect_found id c r there = rw (there, disconnect) refl

disconnect_unknown :
    (id : Str) (r : Registry) → lookup id r.clients ≡ none → disconnect id r ≡ (false, r)
unfolding disconnect
disconnect_unknown id r gone = rw (gone, disconnect) refl

-- Disconnecting a client that was registered with a cancel function and a connection cancels it and
-- closes its connection. It stays in the registry until it deregisters; then it is unknown.
pub disconnect-register :
    (id name addr : Str) (k : ℕ) (r : Registry)
    → let (c, s) = register id name addr (some k) true r in
      (disconnect id s ≡ (true, stop c s))
      × ((stop c s).cancelled ≡ id ∷ r.cancelled)
      × ((stop c s).closed ≡ k ∷ r.closed)
      × (get_client id (stop c s) ≡ some c)
      × (disconnect id (deregister id (stop c s)) ≡ (false, deregister id (stop c s)))
unfolding register stop deregister get_client
disconnect-register id name addr k r =
    let c = (register id name addr (some k) true r).0 in
    let s = (register id name addr (some k) true r).1 in
    let there : lookup id s.clients ≡ some c =
      ground (arith, lookup-insert id id c r.clients, str_eq_refl id) in
    let gone : lookup id (delete id s.clients) ≡ none =
      ground (arith, lookup-delete id id s.clients, str_eq_refl id) in
    (
      disconnect_found id c s there,
      refl,
      refl,
      there,
      disconnect_unknown id (deregister id (stop c s)) gone,
    )

stop_all_stays :
    (x : Str) (cs : List Client) (r : Registry)
    → contains x r.cancelled ≡ true
    → contains x (stop_all cs r).cancelled ≡ true
unfolding stop_all stop contains
stop_all_stays x [] r h = h
stop_all_stays x (c ∷ cs) r h = ground (arith, stop_all_stays x cs (stop c r))

values-matches_cancelled :
    (name k : Str) (c : Client) (m : Map Client) (r : Registry)
    → lookup k m ≡ some c
    → c.name ≡ name
    → c.has_cancel ≡ true
    → contains c.id (stop_all (matches name (values m)) r).cancelled ≡ true
unfolding stop_all matches values lookup stop contains
values-matches_cancelled name k c [] r e named able = ground arith
values-matches_cancelled name k c ((j, d) ∷ m) r e named able = elim (Bool-cases (str_eq j k)) [
  | inl here ↦
      let same : d ≡ c = ground arith in
      let hit : str_eq d.name name ≡ true =
        ground (arith, ap (λ (x : Client). x.name) same, str_eq_refl name) in
      let told : contains c.id (stop d r).cancelled ≡ true = ground (
        arith,
        ap (λ (x : Client). x.id) same,
        ap (λ (x : Client). x.has_cancel) same,
        str_eq_refl c.id,
      ) in
      rw hit (stop_all_stays c.id (matches name (values m)) (stop d r) told)
  | inr on ↦
      ground (
        arith,
        values-matches_cancelled name k c m r,
        values-matches_cancelled name k c m (stop d r),
      )
]

stop_all_clients : (cs : List Client) (r : Registry) → (stop_all cs r).clients ≡ r.clients
unfolding stop_all stop
stop_all_clients [] r = refl
stop_all_clients (c ∷ cs) r = stop_all_clients cs (stop c r)

-- Disconnecting by name reaches each client of that name which has a cancel function, and leaves the
-- registry's clients to deregister themselves.
pub disconnect_by_name_cancels :
    (name id : Str) (c : Client) (r : Registry)
    → lookup id r.clients ≡ some c
    → c.name ≡ name
    → c.has_cancel ≡ true
    → (contains c.id (disconnect_by_name name r).1.cancelled ≡ true)
      × ((disconnect_by_name name r).1.clients ≡ r.clients)
unfolding disconnect_by_name
disconnect_by_name_cancels name id c r there named able = (
  values-matches_cancelled name id c r.clients r there named able,
  stop_all_clients (matches name (values r.clients)) r,
)
