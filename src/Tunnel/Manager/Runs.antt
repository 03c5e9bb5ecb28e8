-- ===== src/Tunnel/Manager/Runs.antt =====
-- Runs of the manager, and its theorems at concrete inputs.
use reversproxy.Base.{
  ℕ, ◌≡◌, ◌≢◌, refl, true, false, List, [], ◌∷◌, some, if◌then◌else◌, ◌==◌, Str, str_eq, codes,
  lookup, insert, contains, is_empty,
}
use reversproxy.Base.Result.{ok, err}
use reversproxy.Tunnel.Table.{empty_table, owned, add_route}
use reversproxy.Tunnel.Manager.Served.{
  view, nobody, serve_all, claim, refusal, view-run-new_manager,
}
use reversproxy.Tunnel.Manager.{
  TunnelEntry, Manager, unknown_conn, new_manager, tunnels_of, http_entry, add_tunnel,
  new_data_token, register_pending, fulfill_pending, wait_ready, add_http_tunnel, add_https_tunnel,
  register_pending_socks,
}
use reversproxy.Tunnel.Manager.Calls.{
  Call, adds_tunnel, registers, adds_http, adds_https, registers_dial, apply, run, IsSound,
  run-new_manager-IsSound,
}
use reversproxy.Tunnel.Manager.Tokens.{fulfill_pending_ok}

abbrev web : TunnelEntry
web = record {
  id = codes "t1";
  client_id = codes "alice";
  local_host = codes "127.0.0.1";
  local_port = 80;
  public_port = 9000;
  listener = some 5;
}

abbrev calls : List Call
calls =
    adds_tunnel web
    ∷ adds_http (codes "h1") (codes "alice") (codes "a.org") (codes "::1") 80
    ∷ adds_https (codes "h2") (codes "bob") (codes "b.org") (codes "::1") 443
    ∷ registers (some (255 ∷ [])) (codes "c1") 7
    ∷ registers_dial (codes "d1")
    ∷ []

-- The manager after these calls, computed.
busy : Manager
unfolding run apply add_tunnel tunnels_of add_http_tunnel add_https_tunnel register_pending
    register_pending_socks new_data_token new_manager add_route empty_table owned lookup insert
    contains str_eq
busy = run calls new_manager

busy-IsSound : IsSound busy
unfolding busy
busy-IsSound = run-new_manager-IsSound calls (refl, (tt, (tt, (tt, (tt, tt)))))

run-new_manager-IsSound_example : IsSound (run calls new_manager)
unfolding new_manager lookup
run-new_manager-IsSound_example = run-new_manager-IsSound calls (refl, (tt, (tt, (tt, (tt, tt)))))

busy-accepts : (n : Manager) × (fulfill_pending (codes "c1") 8 (codes "ff") busy ≡ ok n)
unfolding busy fulfill_pending is_empty
busy-accepts = (_, refl)

fulfill_pending_ok_example :
    (p : ℕ) × (lookup (codes "c1") busy.pending ≡ some p)
    × (codes "ff" ≢ [])
    × ((busy.conns p).data_token ≡ codes "ff")
    × ((q : ℕ)
        → wait_ready q busy-accepts.0 ≡ (if p == q then some (some 8) else wait_ready q busy))
    × ((d : ℕ) (token : Str)
        → fulfill_pending (codes "c1") d token busy-accepts.0 ≡ err (unknown_conn (codes "c1")))
fulfill_pending_ok_example =
    fulfill_pending_ok (codes "c1") (codes "ff") 8 busy busy-accepts.0 busy-accepts.1

-- After these calls bob claims the hostname of alice.
view-run-new_manager_example :
    (view (run calls new_manager) ≡ serve_all calls nobody)
    × (refusal (
          add_http_tunnel
            (codes "h3")
            (codes "bob")
            (codes "a.org")
            (codes "::1")
            81
            (run calls new_manager))
        ≡ refusal (
            claim
              (http_entry false (codes "h3") (codes "bob") (codes "a.org") (codes "::1") 81)
              (serve_all calls nobody).http))
    × (refusal (
          add_https_tunnel
            (codes "h3")
            (codes "bob")
            (codes "a.org")
            (codes "::1")
            81
            (run calls new_manager))
        ≡ refusal (
            claim
              (http_entry true (codes "h3") (codes "bob") (codes "a.org") (codes "::1") 81)
              (serve_all calls nobody).https))
unfolding new_manager lookup
view-run-new_manager_example =
    view-run-new_manager calls (codes "h3") (codes "bob") (codes "a.org") (codes "::1") 81
      (refl, (tt, (tt, (tt, (tt, tt)))))
