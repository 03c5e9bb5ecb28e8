-- ===== src/Control/Session/Targets.antt =====
-- internal/control/handler.go: the addresses that a session's SOCKS goroutines are connected to.
use reversproxy.Base.{
  ℕ, ◌≡◌, inl, inr, false, List, [], ◌∷◌, Option, none, some, Str, subst, sym, ap, ◌∙◌,
}
use reversproxy.Base.Result.{ok, Result-cases}
use reversproxy.Protocol.Messages.{Envelope, Pong, SocksConnect, SocksData, SocksClose}
use reversproxy.Protocol.Validation.{validate_target}
use reversproxy.Tunnel.Mux.{deliver}
use reversproxy.Control.Requests.{Answers}
use reversproxy.Control.Dials.{relaying, control_allows, Phase}
use reversproxy.Control.Dials.Vetting.{
  IsOutside, Passed, control_allows_lem, IsVetted, run_task-IsVetted, connect-IsVetted,
}
use reversproxy.Control.Session.Cases.{if_both, dispatch_cases, open_session_ok}
use reversproxy.Control.Session.{
  Setup, Server, Opening, Session, Event, cancels, read_fails, receives, turns, clean_up,
  first_session, on_pong, on_socks_connect, on_socks_data, on_socks_close, dispatch, turn, step,
  run, open_session,
}

module _ (setup : Setup) where
  abbrev IsSafe : Session → Type 0
  IsSafe s = IsVetted setup.net setup.is_ip setup.allow_private s.relays

  on_pong-IsSafe : (d : Option Pong) (a : Answers) (s : Session) → IsSafe s → IsSafe (on_pong d a s)
  unfolding on_pong
  on_pong-IsSafe none a s v = v
  on_pong-IsSafe (some p) a s v = v

  on_socks_connect-IsSafe :
      (d : Option SocksConnect) (s : Session) → IsSafe s → IsSafe (on_socks_connect d s)
  unfolding on_socks_connect
  on_socks_connect-IsSafe none s v = v
  on_socks_connect-IsSafe (some sc) s v =
      connect-IsVetted setup.net setup.is_ip setup.allow_private sc s.relays v

  on_socks_data-IsSafe :
      (d : Option SocksData) (s : Session) → IsSafe s → IsSafe (on_socks_data d s)
  unfolding on_socks_data
  on_socks_data-IsSafe none s v = v
  on_socks_data-IsSafe (some sd) s v =
      elim (Result-cases (deliver sd.conn_id sd.payload s.relays.mux)) [
        | inl (_, e) ↦ rw (e, on_socks_data) v
        | inr (n, e) ↦ rw (e, on_socks_data) v
      ]

  on_socks_close-IsSafe :
      (d : Option SocksClose) (s : Session) → IsSafe s → IsSafe (on_socks_close d s)
  unfolding on_socks_close
  on_socks_close-IsSafe none s v = v
  on_socks_close-IsSafe (some sc) s v = v

  clean_up-IsSafe : (s : Session) → IsSafe s → IsSafe (clean_up setup s)
  unfolding clean_up
  clean_up-IsSafe s v = v

  dispatch-IsSafe :
      (env : Envelope) (a : Answers) (s : Session) → IsSafe s → IsSafe (dispatch setup env a s)
  dispatch-IsSafe env a s v =
      dispatch_cases IsSafe setup env a s (on_pong-IsSafe _ a s v) (clean_up-IsSafe _ v) v
        (on_socks_connect-IsSafe _ s v) (on_socks_data-IsSafe _ s v) (on_socks_close-IsSafe _ s v) v

  step-IsSafe : (e : Event) (s : Session) → IsSafe s → IsSafe (step setup e s)
  unfolding step turn
  step-IsSafe cancels s v = if_both IsSafe s.looping _ _ (clean_up-IsSafe s v) v
  step-IsSafe read_fails s v = if_both IsSafe s.looping _ _ (clean_up-IsSafe s v) v
  step-IsSafe (receives env a) s v = if_both IsSafe s.looping _ _ (dispatch-IsSafe env a s v) v
  step-IsSafe (turns i t) s v =
      run_task-IsVetted setup.net setup.is_ip setup.allow_private i t s.relays v

  run-IsSafe : (es : List Event) (s : Session) → IsSafe s → IsSafe (run setup es s)
  unfolding run
  run-IsSafe [] s v = v
  run-IsSafe (e ∷ es) s v = run-IsSafe es (step setup e s) (step-IsSafe e s v)

-- Unless private targets are allowed, a SOCKS goroutine of a session copies bytes only for a
-- target that has been validated, and only to an address whose host is an IP address that is
-- none of loopback, private, link-local, unspecified and multicast.
pub tasks-IsOutside :
    (setup : Setup) (o : Opening) (srv : Server) (s : Session) (es : List Event) (i : ℕ)
    (sc : SocksConnect) (address : Str)
    → setup.allow_private ≡ false
    → open_session setup o srv ≡ ok s
    → (run setup es s).relays.tasks i ≡ relaying sc address
    → (validate_target setup.is_ip sc.target_host sc.target_port 1 ≡ ok tt)
      × IsOutside setup.net address
unfolding first_session
tasks-IsOutside setup o srv s es i sc address guarded e at =
    let (resp, same, _) = open_session_ok setup o srv s e in
    let start : IsSafe setup s = subst (λ (x : Session). IsSafe setup x) (sym same) (λ j. tt) in
    let (fine, allowed) =
      subst (λ (ph : Phase). Passed setup.net setup.is_ip setup.allow_private ph) at
        (run-IsSafe setup es s start i) in
    (
      fine,
      control_allows_lem setup.net address
          (ap (λ b. control_allows setup.net b address) (sym guarded) ∙ allowed),
    )
