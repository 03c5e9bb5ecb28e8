-- ===== src/Control/Dials.antt =====
-- internal/control/handler.go: the connections that the server opens for a client's SOCKS users.
pub mod Vetting
pub mod Holders
use reversproxy.Base.{
  ℕ, suc, Bool, true, false, not, ◌||◌, List, [], ◌∷◌, Option, none, some, if◌then◌else◌, Str,
  update,
}
use reversproxy.Base.Result.{Result, ok, err}
use reversproxy.Protocol.Messages.{SocksConnect, SocksReady}
use reversproxy.Protocol.Validation.{ValidationError, validate_target}
use reversproxy.Tunnel.Mux.{Mux, MuxError, new_channel, remove}

-- What the package `net` and the texts of errors say; an IP address is its bytes.
pub record Net : Type 0 where
  pub is_loopback : List ℕ → Bool
  pub is_private : List ℕ → Bool
  pub is_link_local_unicast : List ℕ → Bool
  pub is_link_local_multicast : List ℕ → Bool
  pub is_unspecified : List ℕ → Bool
  pub is_multicast : List ℕ → Bool
  pub parse_ip : Str → Option (List ℕ)
  pub split_host_port : Str → Option (Str × Str)
  pub validation_text : ValidationError → Str
  pub mux_text : MuxError → Str
  pub refusal_text : Str → Str

unfoldable pub is_blocked_target_ip : Net → List ℕ → Bool
is_blocked_target_ip net ip =
    net.is_loopback ip
    || net.is_private ip
    || net.is_link_local_unicast ip
    || net.is_link_local_multicast ip
    || net.is_unspecified ip
    || net.is_multicast ip

-- The Control hook of newSOCKSDialer on the address that a name has been resolved to: whether
-- the dial goes on.
unfoldable pub control_allows : Net → Bool → Str → Bool
control_allows net allow_private address =
    if allow_private then true else elim (net.split_host_port address) [
      | none ↦ false
      | some (host, port) ↦ elim (net.parse_ip host) [
        | none ↦ false
        | some ip ↦ not (is_blocked_target_ip net ip)
      ]
    ]

-- Where a goroutine of handleServerSOCKSConnect is: before its checks, at the dial with its
-- channel allocated, copying to the address that it dialled, at the deferred Remove, at its end.
pub data Phase : Type 0 where
  started : SocksConnect → Phase
  dialing : SocksConnect → Phase
  relaying : SocksConnect → Str → Phase
  leaving : SocksConnect → Phase
  over : Phase

-- The outcome of a dial before the hook, which is the address or the error's text, and whether
-- a write succeeds.
pub record Turn : Type 0 where
  pub resolved : Result Str Str
  pub write_ok : Bool

pub record Relays : Type 0 where
  pub mux : Mux
  pub tasks : ℕ → Phase
  pub next_task : ℕ

pub failure : SocksConnect → Str → SocksReady
failure sc text = record { conn_id = sc.conn_id; success = false; error = text }

pub success : SocksConnect → SocksReady
success sc = record { conn_id = sc.conn_id; success = true; error = [] }

-- The new goroutine.
unfoldable pub handle_server_socks_connect : SocksConnect → Relays → Relays
handle_server_socks_connect sc r = record r {
  tasks = update r.tasks r.next_task (started sc);
  next_task = suc r.next_task;
}

-- What a goroutine does next: its phase, the mux, and the message that it sends.
pub allocate : Net → SocksConnect → Mux → Result MuxError (ℕ × Mux) → Phase × Mux × List SocksReady
allocate net sc m (ok (p, n)) = (dialing sc, n, [])
allocate net sc m (err e) = (over, m, failure sc (net.mux_text e) ∷ [])

pub begin :
    Net → SocksConnect → Mux → Result ValidationError (Unit {0}) → Phase × Mux × List SocksReady
unfolding allocate
begin net sc m (ok _) = allocate net sc m (new_channel sc.conn_id m)
begin net sc m (err e) = (over, m, failure sc (net.validation_text e) ∷ [])

pub dial : Net → Bool → SocksConnect → Mux → Turn → Result Str Str → Phase × Mux × List SocksReady
dial net allow_private sc m t (err text) = (leaving sc, m, failure sc text ∷ [])
dial net allow_private sc m t (ok address) =
    if not (control_allows net allow_private address)
    then (leaving sc, m, failure sc (net.refusal_text address) ∷ [])
    else (if t.write_ok
        then (relaying sc address, m, success sc ∷ [])
        else (leaving sc, m, success sc ∷ []))

unfoldable pub advance :
    Net → (Str → Bool) → Bool → Turn → Phase → Mux → Phase × Mux × List SocksReady
unfolding begin dial
advance net is_ip allow_private t (started sc) m =
    begin net sc m (validate_target is_ip sc.target_host sc.target_port 1)
advance net is_ip allow_private t (dialing sc) m = dial net allow_private sc m t t.resolved
advance net is_ip allow_private t (relaying sc address) m = (leaving sc, remove sc.conn_id m, [])
advance net is_ip allow_private t (leaving sc) m = (over, remove sc.conn_id m, [])
advance net is_ip allow_private t over m = (over, m, [])

unfoldable pub run_task : Net → (Str → Bool) → Bool → ℕ → Turn → Relays → Relays × List SocksReady
unfolding advance
run_task net is_ip allow_private i t r =
    let (phase, m, sent) = advance net is_ip allow_private t (r.tasks i) r.mux in
    (record r { mux = m; tasks = update r.tasks i phase }, sent)
