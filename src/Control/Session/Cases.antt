-- ===== src/Control/Session/Cases.antt =====
-- internal/control/handler.go: the cases of one round of the message loop.
use reversproxy.Base.Result.{ok}
use reversproxy.Base.{
  ◌≡◌, Option, none, some, codes, str_eq, arith, Bool, true, false, if◌then◌else◌, ◌==◌,
}
use reversproxy.Protocol.Messages.{
  Envelope, RegisterResp, msg_pong, msg_disconnect, msg_socks_connect, msg_socks_data,
  msg_socks_close,
}
use reversproxy.Control.Requests.{sent_disconnect_ack, Answers, say}
use reversproxy.Control.Session.{
  Setup, Server, Opening, Session, first_session, answered, admit, read_answer, open_session,
  clean_up, with_work, on_pong, on_socks_connect, on_socks_data, on_socks_close, requests,
  is_request, dispatch,
}

pub if_both {ℓ} :
    {A : Type 0} (P : A → Type ℓ) (b : Bool) (x y : A) → P x → P y → P (if b then x else y)
if_both P true x y p q = p
if_both P false x y p q = q

-- What holds behind each case holds behind the round.
pub dispatch_cases {ℓ} :
    (P : Session → Type ℓ) (setup : Setup) (env : Envelope) (a : Answers) (s : Session)
    → P (on_pong (setup.decoders.pong env.payload) a s)
    → P (clean_up setup (with_work s (say sent_disconnect_ack s.work)))
    → P (with_work s (requests setup env a s))
    → P (on_socks_connect (setup.decoders.socks_connect env.payload) s)
    → P (on_socks_data (setup.decoders.socks_data env.payload) s)
    → P (on_socks_close (setup.decoders.socks_close env.payload) s)
    → P s
    → P (dispatch setup env a s)
unfolding dispatch
dispatch_cases P setup env a s pong bye request connect data_case close_case none_of_them =
    if_both P (env.type == msg_pong) _ _ pong (
      if_both P (env.type == msg_disconnect) _ _ bye (
        if_both P (is_request env.type) _ _ request (
          if_both P (env.type == msg_socks_connect) _ _ connect (
            if_both P (env.type == msg_socks_data) _ _ data_case
              (if_both P (env.type == msg_socks_close) _ _ close_case none_of_them)))))

-- A handshake that succeeds: its session, and the answer that the client gave.
module _ (setup : Setup) (o : Opening) (srv : Server) (s : Session) where
  abbrev Opened : Type 0
  Opened =
      (resp : RegisterResp) × (s ≡ first_session setup o resp srv)
      × (str_eq resp.status (codes "ok") ≡ true)

  answered_ok : (r : Option RegisterResp) → answered setup o r srv ≡ ok s → Opened
  unfolding answered admit
  answered_ok none e = absurd (ground arith)
  answered_ok (some resp) e = (resp, ground arith, ground arith)

  read_answer_ok : (r : Option Envelope) → read_answer setup o r srv ≡ ok s → Opened
  unfolding read_answer
  read_answer_ok none e = absurd (ground arith)
  read_answer_ok (some env) e =
      answered_ok (setup.decoders.register_resp env.payload) (ground arith)

  pub open_session_ok : open_session setup o srv ≡ ok s → Opened
  unfolding open_session
  open_session_ok e = read_answer_ok o.answer (ground arith)
