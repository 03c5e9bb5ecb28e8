-- ===== src/Tunnel/Manager/Calls.antt =====
-- internal/tunnel/manager.go: any sequence of calls of the manager's methods. Each method holds
-- the manager's lock, so calls of several goroutines happen one after the other.
use reversproxy.Base.{
  ℕ, Bool, true, false, ◌≡◌, refl, inl, inr, List, [], ◌∷◌, Option, none, some, if◌then◌else◌,
  Option-cases, Str, lookup, update, delete, lookup-delete, str_eq_refl, ◌==◌, arith,
}
use reversproxy.Base.Result.{Result, ok, err}
use reversproxy.Tunnel.Table.Ownership.{
  IsTracked, add_route-IsTracked, remove_routes-IsTracked, empty_table-IsTracked,
}
use reversproxy.Tunnel.Manager.{
  TunnelEntry, PendingSocks, Manager, unknown_conn, new_manager, add_tunnel,
  remove_tunnels_for_client, register_pending, cancel_pending, fulfill_pending, add_http_tunnel,
  add_https_tunnel, remove_http_tunnels_for_client, register_pending_socks, fulfill_socks,
  wait_socks_ready,
}
use reversproxy.Tunnel.Manager.Hosts.{add_http_tunnel_ok, add_https_tunnel_ok}
use reversproxy.Tunnel.Pointers.{
  IsWaiting, nil-IsWaiting, insert-IsWaiting, settle-IsWaiting, delete-IsWaiting,
}
use reversproxy.Tunnel.Manager.Ports.{
  IsPorted, nil-IsPorted, add_tunnel-IsPorted, remove_tunnels-IsPorted,
}
use reversproxy.Tunnel.Manager.Tokens.{Waits, fulfill_pending_found}

-- A dial result that has not been reported.
abbrev pub Dials : PendingSocks → Type 0
Dials d = d.ready ≡ false

pub record IsSound (m : Manager) : Type 0 where
  pub ports : IsPorted m.tunnels m.by_client
  pub http : IsTracked m.http
  pub https : IsTracked m.https
  pub waiting : IsWaiting Waits m.pending m.conns m.next_conn
  pub dialing : IsWaiting Dials m.pending_socks m.dials m.next_dial

pub data Call : Type 0 where
  adds_tunnel : TunnelEntry → Call
  removes_tunnels : Str → Call
  registers : Option (List ℕ) → Str → ℕ → Call
  cancels : Str → Call
  fulfills : Str → ℕ → Str → Call
  adds_http : Str → Str → Str → Str → ℕ → Call
  adds_https : Str → Str → Str → Str → ℕ → Call
  removes_hosts : Str → Call
  registers_dial : Str → Call
  fulfills_dial : Str → Bool → Str → Call

-- A call that fails leaves the manager as it was.
abbrev pub after {ℓ} : {E : Type ℓ} → Manager → Result E Manager → Manager
after m (ok n) = n
after m (err e) = m

unfoldable pub apply : Call → Manager → Manager
apply (adds_tunnel e) m = add_tunnel e m
apply (removes_tunnels c) m = remove_tunnels_for_client c m
apply (registers random k ext) m = (register_pending random k ext m).1
apply (cancels k) m = cancel_pending k m
apply (fulfills k d token) m = after m (fulfill_pending k d token m)
apply (adds_http id c h host port) m = after m (add_http_tunnel id c h host port m)
apply (adds_https id c h host port) m = after m (add_https_tunnel id c h host port m)
apply (removes_hosts c) m = remove_http_tunnels_for_client c m
apply (registers_dial k) m = (register_pending_socks k m).1
apply (fulfills_dial k success message) m = after m (fulfill_socks k success message m)

unfoldable pub run : List Call → Manager → Manager
run [] m = m
run (c ∷ cs) m = run cs (apply c m)

-- The identity of a new tunnel is a fresh UUID: it names no tunnel of the manager.
abbrev pub IsFresh : Call → Manager → Type 0
IsFresh (adds_tunnel e) m = lookup e.id m.tunnels ≡ none
IsFresh _ m = Unit {0}

abbrev pub IsFreshAlong : List Call → Manager → Type 0
IsFreshAlong [] m = Unit {0}
IsFreshAlong (c ∷ cs) m = IsFresh c m × IsFreshAlong cs (apply c m)

after-IsSound {ℓ} :
    {E : Type ℓ} (m : Manager) (r : Result E Manager)
    → IsSound m
    → ((n : Manager) → r ≡ ok n → IsSound n)
    → IsSound (after m r)
after-IsSound m (ok n) v keep = keep n refl
after-IsSound m (err e) v keep = v

pub fulfill_socks_found :
    (k : Str) (success : Bool) (message : Str) (m n : Manager)
    → fulfill_socks k success message m ≡ ok n
    → (p : ℕ) × (lookup k m.pending_socks ≡ some p)
      × (n ≡ record m {
        pending_socks = delete k m.pending_socks;
        dials = update m.dials p (record { ready = true; success = success; err_msg = message });
      })
unfolding fulfill_socks
fulfill_socks_found k success message m n h = elim (Option-cases (lookup k m.pending_socks)) [
  | inl e ↦ absurd (ground arith)
  | inr (p, e) ↦ (p, e, ground arith)
]

module _ (m : Manager) (v : IsSound m) where
  fulfill_pending-IsSound :
      (k token : Str) (d : ℕ) (n : Manager) → fulfill_pending k d token m ≡ ok n → IsSound n
  fulfill_pending-IsSound k token d n h =
      let (p, e, _, _, r) = fulfill_pending_found k token d m n h in
      rw r (record {
        ports = v.ports;
        http = v.http;
        https = v.https;
        waiting = settle-IsWaiting Waits m.pending m.conns m.next_conn v.waiting k p _ e;
        dialing = v.dialing;
      })

  cancel_pending-IsSound : (k : Str) → IsSound (cancel_pending k m)
  unfolding cancel_pending
  cancel_pending-IsSound k = elim (Option-cases (lookup k m.pending)) [
    | inl e ↦
        rw (e, cancel_pending)
          (record {
            ports = v.ports;
            http = v.http;
            https = v.https;
            waiting = delete-IsWaiting Waits m.pending m.conns m.next_conn v.waiting k;
            dialing = v.dialing;
          })
    | inr (p, e) ↦
        rw (e, cancel_pending)
          (record {
            ports = v.ports;
            http = v.http;
            https = v.https;
            waiting = settle-IsWaiting Waits m.pending m.conns m.next_conn v.waiting k p _ e;
            dialing = v.dialing;
          })
  ]

  fulfill_socks-IsSound :
      (k : Str) (success : Bool) (message : Str) (n : Manager)
      → fulfill_socks k success message m ≡ ok n
      → IsSound n
  fulfill_socks-IsSound k success message n h =
      let (p, e, r) = fulfill_socks_found k success message m n h in
      rw r (record {
        ports = v.ports;
        http = v.http;
        https = v.https;
        waiting = v.waiting;
        dialing = settle-IsWaiting Dials m.pending_socks m.dials m.next_dial v.dialing k p _ e;
      })

  add_http-IsSound :
      (id c h host : Str) (port : ℕ) (n : Manager)
      → add_http_tunnel id c h host port m ≡ ok n
      → IsSound n
  add_http-IsSound id c h host port n p =
      let (t, q, r) = add_http_tunnel_ok id c h host port m n p in
      rw r (record {
        ports = v.ports;
        http = add_route-IsTracked _ m.http t v.http q;
        https = v.https;
        waiting = v.waiting;
        dialing = v.dialing;
      })

  add_https-IsSound :
      (id c h host : Str) (port : ℕ) (n : Manager)
      → add_https_tunnel id c h host port m ≡ ok n
      → IsSound n
  add_https-IsSound id c h host port n p =
      let (t, q, r) = add_https_tunnel_ok id c h host port m n p in
      rw r (record {
        ports = v.ports;
        http = v.http;
        https = add_route-IsTracked _ m.https t v.https q;
        waiting = v.waiting;
        dialing = v.dialing;
      })

  -- The calls that only change the maps of routes and tunnels, or make an object that waits.
  pub apply-IsSound : (c : Call) → IsFresh c m → IsSound (apply c m)
  unfolding apply add_tunnel remove_tunnels_for_client register_pending register_pending_socks
      remove_http_tunnels_for_client
  apply-IsSound (adds_tunnel e) fresh = record {
    ports = add_tunnel-IsPorted e m fresh v.ports;
    http = v.http;
    https = v.https;
    waiting = v.waiting;
    dialing = v.dialing;
  }
  apply-IsSound (removes_tunnels c) fresh = record {
    ports = remove_tunnels-IsPorted c m v.ports;
    http = v.http;
    https = v.https;
    waiting = v.waiting;
    dialing = v.dialing;
  }
  apply-IsSound (registers random k ext) fresh = record {
    ports = v.ports;
    http = v.http;
    https = v.https;
    waiting = insert-IsWaiting Waits m.pending m.conns m.next_conn v.waiting k _ (refl, refl);
    dialing = v.dialing;
  }
  apply-IsSound (cancels k) fresh = cancel_pending-IsSound k
  apply-IsSound (fulfills k d token) fresh = after-IsSound m _ v (fulfill_pending-IsSound k token d)
  apply-IsSound (adds_http id c h host port) fresh =
      after-IsSound m _ v (add_http-IsSound id c h host port)
  apply-IsSound (adds_https id c h host port) fresh =
      after-IsSound m _ v (add_https-IsSound id c h host port)
  apply-IsSound (removes_hosts c) fresh = record {
    ports = v.ports;
    http = remove_routes-IsTracked c m.http v.http;
    https = remove_routes-IsTracked c m.https v.https;
    waiting = v.waiting;
    dialing = v.dialing;
  }
  apply-IsSound (registers_dial k) fresh = record {
    ports = v.ports;
    http = v.http;
    https = v.https;
    waiting = v.waiting;
    dialing = insert-IsWaiting Dials m.pending_socks m.dials m.next_dial v.dialing k _ refl;
  }
  apply-IsSound (fulfills_dial k success message) fresh =
      after-IsSound m _ v (fulfill_socks-IsSound k success message)

pub new_manager-IsSound : IsSound new_manager
unfolding new_manager
new_manager-IsSound = record {
  ports = nil-IsPorted;
  http = empty_table-IsTracked;
  https = empty_table-IsTracked;
  waiting = nil-IsWaiting Waits _ 0;
  dialing = nil-IsWaiting Dials _ 0;
}

run-IsSound : (cs : List Call) (m : Manager) → IsFreshAlong cs m → IsSound m → IsSound (run cs m)
unfolding run
run-IsSound [] m fresh v = v
run-IsSound (c ∷ cs) m (f, fs) v = run-IsSound cs (apply c m) fs (apply-IsSound m v c f)

-- After any sequence of calls on a new manager, in which each new TCP tunnel has a fresh
-- identity, the manager is sound: the maps of tunnels and of hostnames agree with the lists kept
-- for each client, and every object in the maps of waiting connections and dials is there once,
-- still open and still without a result.
pub run-new_manager-IsSound :
    (cs : List Call) → IsFreshAlong cs new_manager → IsSound (run cs new_manager)
run-new_manager-IsSound cs fresh = run-IsSound cs new_manager fresh new_manager-IsSound

-- In a sound manager the report of a dial never closes a closed channel. A report for a waiting
-- dial succeeds, its goroutine reads the reported result, every other goroutine that waits sees
-- no change, and a second report for the same dial is refused.
pub fulfill_socks_lem :
    (k : Str) (p : ℕ) (success : Bool) (message : Str) (m : Manager)
    → IsSound m
    → lookup k m.pending_socks ≡ some p
    → (n : Manager) × (fulfill_socks k success message m ≡ ok n)
      × ((q : ℕ)
          → wait_socks_ready q n
            ≡ (if p == q then some (success, message) else wait_socks_ready q m))
      × ((again : Bool) (text : Str) → fulfill_socks k again text n ≡ err (unknown_conn k))
unfolding fulfill_socks wait_socks_ready
fulfill_socks_lem k p success message m v e = (
  record m {
    pending_socks = delete k m.pending_socks;
    dials = update m.dials p (record { ready = true; success = success; err_msg = message });
  },
  ground (arith, v.dialing.waits k p e),
  λ q. ground arith,
  λ again text. ground (arith, lookup-delete k k m.pending_socks, str_eq_refl k),
)
