-- ===== src/Control/Session/Channels.antt =====
-- internal/control/handler.go: the SOCKS channels of a session, from its beginning to its end.
use reversproxy.Base.{ℕ, ◌≡◌, refl, inl, inr, false, List, [], ◌∷◌, Option, none, some, Str, arith}
use reversproxy.Base.Result.{ok, Result-cases}
use reversproxy.Protocol.Messages.{Envelope, Pong, SocksConnect, SocksData, SocksClose}
use reversproxy.Tunnel.Mux.{deliver}
use reversproxy.Control.Requests.{Answers}
use reversproxy.Control.Dials.Holders.{
  holds, IsHeld, run_task-IsHeld, connect-IsHeld, deliver-IsHeld, remove-IsHeld, close_all-IsHeld,
  idle-IsHeld, no_tasks-IsHeld,
}
use reversproxy.Control.Session.Cases.{dispatch_cases, open_session_ok}
use reversproxy.Control.Session.{
  Setup, Server, Opening, Session, Event, cancels, read_fails, receives, turns, clean_up, on_pong,
  on_socks_connect, on_socks_data, on_socks_close, dispatch, turn, step, run, first_session,
  open_session,
}

on_socks_data-IsHeld :
    (d : Option SocksData) (s : Session) → IsHeld s.relays → IsHeld (on_socks_data d s).relays
unfolding on_socks_data
on_socks_data-IsHeld none s v = v
on_socks_data-IsHeld (some sd) s v =
    elim (Result-cases (deliver sd.conn_id sd.payload s.relays.mux)) [
      | inl (_, e) ↦ rw (e, on_socks_data) v
      | inr (m, e) ↦ rw (e, on_socks_data) (deliver-IsHeld sd.conn_id sd.payload s.relays m e v)
    ]

on_socks_close-IsHeld :
    (d : Option SocksClose) (s : Session) → IsHeld s.relays → IsHeld (on_socks_close d s).relays
unfolding on_socks_close
on_socks_close-IsHeld none s v = v
on_socks_close-IsHeld (some sc) s v = remove-IsHeld sc.conn_id s.relays v

on_socks_connect-IsHeld :
    (d : Option SocksConnect) (s : Session) → IsHeld s.relays → IsHeld (on_socks_connect d s).relays
unfolding on_socks_connect
on_socks_connect-IsHeld none s v = v
on_socks_connect-IsHeld (some sc) s v = connect-IsHeld sc s.relays v

on_pong_relays : (d : Option Pong) (a : Answers) (s : Session) → (on_pong d a s).relays ≡ s.relays
unfolding on_pong
on_pong_relays none a s = refl
on_pong_relays (some _) a s = refl

module _ (setup : Setup) where
  clean_up-IsHeld : (s : Session) → IsHeld s.relays → IsHeld (clean_up setup s).relays
  unfolding clean_up
  clean_up-IsHeld s v = close_all-IsHeld s.relays v

  dispatch-IsHeld :
      (env : Envelope) (a : Answers) (s : Session)
      → IsHeld s.relays
      → IsHeld (dispatch setup env a s).relays
  dispatch-IsHeld env a s v =
      dispatch_cases (λ n. IsHeld n.relays) setup env a s
        (rw (on_pong_relays (setup.decoders.pong env.payload) a s) v) (clean_up-IsHeld _ v) v
        (on_socks_connect-IsHeld _ s v) (on_socks_data-IsHeld _ s v) (on_socks_close-IsHeld _ s v) v

  step-IsHeld : (e : Event) (s : Session) → IsHeld s.relays → IsHeld (step setup e s).relays
  unfolding step turn
  step-IsHeld cancels s v = ground (arith, clean_up-IsHeld s v)
  step-IsHeld read_fails s v = ground (arith, clean_up-IsHeld s v)
  step-IsHeld (receives env a) s v = ground (arith, dispatch-IsHeld env a s v)
  step-IsHeld (turns i t) s v =
      run_task-IsHeld setup.net setup.is_ip setup.allow_private i t s.relays v

  run-IsHeld : (es : List Event) (s : Session) → IsHeld s.relays → IsHeld (run setup es s).relays
  unfolding run
  run-IsHeld [] s v = v
  run-IsHeld (e ∷ es) s v = run-IsHeld es (step setup e s) (step-IsHeld e s v)

-- Whatever a client sends and however its SOCKS goroutines and the message loop interleave, in a
-- session whose goroutines are all at their end, or have not begun, no channel is left, and the
-- WaitGroup's counter is zero and was never negative.
pub channels_released :
    (setup : Setup) (o : Opening) (srv : Server) (s : Session) (es : List Event)
    → open_session setup o srv ≡ ok s
    → ((i : ℕ) (k : Str) → holds k ((run setup es s).relays.tasks i) ≡ false)
    → ((run setup es s).relays.mux.channels ≡ [])
      × ((run setup es s).relays.mux.wg ≡ 0)
      × ((run setup es s).relays.mux.negative ≡ false)
channels_released setup o srv s es e idle =
    let (resp, same, _) = open_session_ok setup o srv s e in
    let v : IsHeld s.relays = rw same (unfold first_session in no_tasks-IsHeld _ refl) in
    idle-IsHeld (run setup es s).relays (run-IsHeld setup es s v) idle
