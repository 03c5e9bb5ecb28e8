-- ===== src/Client/Session/Handshake.antt =====
-- internal/client/handler.go and internal/control/handler.go: the handshake between the two sides.
use reversproxy.Base.{
  ◌≡◌, refl, inl, inr, true, List, [], ◌∷◌, some, if◌then◌else◌, ℕ, Bool-cases, Str, codes, str_eq,
  is_empty,
}
use reversproxy.Base.Result.{ok, err}
use reversproxy.Protocol.Messages.{RegisterResp}
use reversproxy.Tunnel.Mux.{Mux}
use reversproxy.Client.Session.{
  sent_register_resp, Decoders, Opening, new_session, register_ok, register_error, welcome,
  on_register, read_register, handshake, leave,
}
use reversproxy.Control.Session.{Setup, Server, greeting, give_up, first_session, open_session}
use reversproxy.Control.Session as Control

-- How the server reads the client's answer.
abbrev pub answering : Control.Opening → List ℕ → Control.Opening
answering p bytes = record p {
  deadline_ok = true;
  write_ok = true;
  answer = some (record { type = 2; payload = bytes });
  clear_ok = true;
}

-- How the client reads the server's message.
abbrev pub hearing : List ℕ → Opening
hearing bytes = record {
  deadline_ok = true;
  answer = some (record { type = 1; payload = bytes });
  write_ok = true;
  clear_ok = true;
}

register_failed : RegisterResp
register_failed = record {
  assigned_client_id = [];
  server_id = [];
  status = codes "error";
  error = codes "invalid token";
}

-- The server and the client agree on whether they are connected. If each decodes what the other has
-- encoded, and no call of the system fails, the client writes one answer; it goes on exactly when the
-- server's token is its own; and on that answer the server has a session exactly then, and else
-- nothing but a closed connection.
pub handshake-open_session :
    (d : Decoders) (setup : Setup) (encode : RegisterResp → List ℕ)
    (server_token auth_token name : Str) (hello : List ℕ) (m : Mux) (p : Control.Opening)
    (srv : Server)
    → d.client_register hello ≡ some (greeting server_token)
    → ((r : RegisterResp) → setup.decoders.register_resp (encode r) ≡ some r)
    → let s = handshake d auth_token name (hearing hello) (new_session m) in
      (r : RegisterResp) × (s.sent ≡ sent_register_resp r ∷ [])
      × (s.looping ≡ str_eq server_token auth_token)
      × (open_session setup (answering p (encode r)) srv ≡ (
          if str_eq server_token auth_token
          then ok (first_session setup (answering p (encode r)) r srv)
          else err (give_up (answering p (encode r)) srv)))
unfolding handshake read_register on_register welcome leave register_error register_ok
    register_failed open_session Control.read_answer Control.answered Control.admit str_eq is_empty
handshake-open_session d setup encode server_token auth_token name hello m p srv heard lawful =
    elim (Bool-cases (str_eq server_token auth_token)) [
      | inl same ↦ (
        register_ok name,
        rw (heard, same, on_register) refl,
        rw (heard, same, on_register) refl,
        rw (lawful (register_ok name), same, Control.answered) refl,
      )
      | inr other ↦ (
        register_failed,
        rw (heard, other, on_register) refl,
        rw (heard, other, on_register) refl,
        rw (lawful register_failed, other, Control.answered) refl,
      )
    ]
