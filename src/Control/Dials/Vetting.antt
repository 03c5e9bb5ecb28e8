-- ===== src/Control/Dials/Vetting.antt =====
-- internal/control/handler.go: where the goroutines that the server dials for may connect to.
use reversproxy.Base.{
  ℕ, ◌≡◌, refl, inl, inr, Bool, true, false, some, ◌==◌, Bool-cases, Option-cases, Str, update,
  List, arith,
}
use reversproxy.Base.Result.{Result, ok, err}
use reversproxy.Protocol.Messages.{SocksConnect}
use reversproxy.Protocol.Validation.{ValidationError, validate_target}
use reversproxy.Tunnel.Mux.{Mux, MuxError}
use reversproxy.Control.Dials.{
  Net, is_blocked_target_ip, control_allows, Phase, started, dialing, relaying, leaving, over, Turn,
  Relays, allocate, begin, dial, advance, run_task, handle_server_socks_connect,
}

-- An address that the guard lets through: its host is an IP address of no internal class.
abbrev pub IsOutside : Net → Str → Type 0
IsOutside net address =
    (host port : Str) × (ip : List ℕ) × (net.split_host_port address ≡ some (host, port))
    × (net.parse_ip host ≡ some ip)
    × (net.is_loopback ip ≡ false)
    × (net.is_private ip ≡ false)
    × (net.is_link_local_unicast ip ≡ false)
    × (net.is_link_local_multicast ip ≡ false)
    × (net.is_unspecified ip ≡ false)
    × (net.is_multicast ip ≡ false)

pub control_allows_lem :
    (net : Net) (address : Str) → control_allows net false address ≡ true → IsOutside net address
unfolding control_allows is_blocked_target_ip
control_allows_lem net address h = elim (Option-cases (net.split_host_port address)) [
  | inl p ↦ absurd (ground arith)
  | inr ((host, port), p) ↦ elim (Option-cases (net.parse_ip host)) [
    | inl q ↦ absurd (ground arith)
    | inr (ip, q) ↦ (
      host,
      port,
      ip,
      p,
      q,
      ground arith,
      ground arith,
      ground arith,
      ground arith,
      ground arith,
      ground arith,
    )
  ]
]

-- What has been checked for a goroutine in each phase.
abbrev pub Passed : Net → (Str → Bool) → Bool → Phase → Type 0
Passed net is_ip allow (started sc) = Unit {0}
Passed net is_ip allow (dialing sc) = validate_target is_ip sc.target_host sc.target_port 1 ≡ ok tt
Passed net is_ip allow (relaying sc address) =
    (validate_target is_ip sc.target_host sc.target_port 1 ≡ ok tt)
    × (control_allows net allow address ≡ true)
Passed net is_ip allow (leaving sc) = Unit {0}
Passed net is_ip allow over = Unit {0}

module _ (net : Net) (is_ip : Str → Bool) (allow : Bool) where
  allocate-Passed :
      (sc : SocksConnect) (m : Mux) (r : Result MuxError (ℕ × Mux))
      → validate_target is_ip sc.target_host sc.target_port 1 ≡ ok tt
      → Passed net is_ip allow (allocate net sc m r).0
  unfolding allocate
  allocate-Passed sc m (ok (p, n)) v = v
  allocate-Passed sc m (err e) v = tt

  begin-Passed :
      (sc : SocksConnect) (m : Mux) (r : Result ValidationError (Unit {0}))
      → validate_target is_ip sc.target_host sc.target_port 1 ≡ r
      → Passed net is_ip allow (begin net sc m r).0
  unfolding begin
  begin-Passed sc m (ok _) e = allocate-Passed sc m _ e
  begin-Passed sc m (err x) e = tt

  dial-Passed :
      (sc : SocksConnect) (m : Mux) (t : Turn) (r : Result Str Str)
      → validate_target is_ip sc.target_host sc.target_port 1 ≡ ok tt
      → Passed net is_ip allow (dial net allow sc m t r).0
  unfolding dial
  dial-Passed sc m t (err text) v = tt
  dial-Passed sc m t (ok address) v = elim (Bool-cases (control_allows net allow address)) [
    | inl fine ↦
        rw (fine, dial)
          (elim (Bool-cases t.write_ok) [
            | inl sent ↦ rw (sent, dial) (v, fine)
            | inr lost ↦ rw (lost, dial) tt
          ])
    | inr refused ↦ rw (refused, dial) tt
  ]

  advance-Passed :
      (t : Turn) (ph : Phase) (m : Mux)
      → Passed net is_ip allow ph
      → Passed net is_ip allow (advance net is_ip allow t ph m).0
  unfolding advance
  advance-Passed t (started sc) m v = begin-Passed sc m _ refl
  advance-Passed t (dialing sc) m v = dial-Passed sc m t t.resolved v
  advance-Passed t (relaying sc address) m v = tt
  advance-Passed t (leaving sc) m v = tt
  advance-Passed t over m v = tt

  abbrev pub IsVetted : Relays → Type 0
  IsVetted r = (i : ℕ) → Passed net is_ip allow (r.tasks i)

  update-Passed :
      (tasks : ℕ → Phase) (i : ℕ) (ph : Phase)
      → ((j : ℕ) → Passed net is_ip allow (tasks j))
      → Passed net is_ip allow ph
      → (j : ℕ) → Passed net is_ip allow (update tasks i ph j)
  update-Passed tasks i ph v p j = elim (Bool-cases (i == j)) [
    | inl same ↦ rw same p
    | inr other ↦ rw other (v j)
  ]

  pub run_task-IsVetted :
      (i : ℕ) (t : Turn) (r : Relays) → IsVetted r → IsVetted (run_task net is_ip allow i t r).0
  unfolding run_task
  run_task-IsVetted i t r v = update-Passed r.tasks i _ v (advance-Passed t (r.tasks i) r.mux (v i))

  pub connect-IsVetted :
      (sc : SocksConnect) (r : Relays) → IsVetted r → IsVetted (handle_server_socks_connect sc r)
  unfolding handle_server_socks_connect
  connect-IsVetted sc r v = update-Passed r.tasks r.next_task (started sc) v tt
