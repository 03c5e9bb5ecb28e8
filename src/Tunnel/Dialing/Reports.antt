-- ===== src/Tunnel/Dialing/Reports.antt =====
-- internal/tunnel/client.go: what the server learns of a SOCKS connection.
use reversproxy.Base.{◌≡◌, refl, Bool, true, false, [], ◌∷◌, if◌then◌else◌, Option, none, some, Str}
use reversproxy.Base.Result.{Result, ok, err}
use reversproxy.Protocol.Messages.{
  Envelope, DataConnHello, SocksConnect, SocksReady, msg_data_conn_hello,
}
use reversproxy.Protocol.Framing.{Gob, FrameError, Conn, write_message}
use reversproxy.Tunnel.Dialing.{
  reported, relays, unreported, Connected, hello_of, ready_failed, ready_ok, after_socks_hello,
  on_data_dial, handle_socks_connect_async,
}

module _ (frame_text : FrameError → Str) (hellos : Gob DataConnHello) (envelopes : Gob Envelope)
    (msg : SocksConnect) where
  abbrev says_hello : Conn → Option FrameError × Conn
  says_hello c =
      write_message hellos envelopes msg_data_conn_hello (hello_of msg.conn_id msg.data_token) c

  -- One message tells how a connection went: a success only if the target was dialled and the hello
  -- was written to a data connection, a failure only if nothing is copied. Bytes are copied only after
  -- a success that the server could be told of.
  pub record IsReport (dialled : Result Str (Unit {0})) (data_dial : Result Str Conn)
      (ready_sent : Bool) (done : Connected) : Type 0 where
    pub ready : SocksReady
    pub one : done.1 ≡ ready ∷ []
    pub same : ready.conn_id ≡ msg.conn_id
    pub good :
        ready.success ≡ true
        → (dialled ≡ ok tt) × (c : Conn) × (data_dial ≡ ok c) × ((says_hello c).0 ≡ none)
    pub bad : ready.success ≡ false → done.0 ≡ reported
    pub relayed : done.0 ≡ relays → (ready.success ≡ true) × (ready_sent ≡ true)
    pub copied : ready.success ≡ true → ready_sent ≡ true → done.0 ≡ relays

  relays_sent : (sent : Bool) → (if sent then relays else unreported) ≡ relays → sent ≡ true
  relays_sent true e = refl
  relays_sent false e = cc

  hello-IsReport :
      (ready_sent : Bool) (c : Conn) (e : Option FrameError)
      → (says_hello c).0 ≡ e
      → IsReport
          (ok tt)
          (ok c)
          ready_sent
          (after_socks_hello frame_text hellos envelopes msg ready_sent e (says_hello c).1)
  unfolding after_socks_hello ready_failed ready_ok
  hello-IsReport ready_sent c (some e) said = record {
    ready = _;
    one = refl;
    same = refl;
    good = λ h. absurd cc;
    bad = λ h. refl;
    relayed = λ h. absurd cc;
    copied = λ h. absurd cc;
  }
  hello-IsReport ready_sent c none said = record {
    ready = _;
    one = refl;
    same = refl;
    good = λ h. (refl, c, refl, said);
    bad = λ h. absurd cc;
    relayed = λ h. (refl, relays_sent ready_sent h);
    copied = λ h sent. rw sent refl;
  }

  -- Whatever fails, the client writes one SOCKSReady message for the connection that it was asked to
  -- open, or tries to: it says success only if the target was dialled, the server was dialled and
  -- the hello was written. Bytes are copied if and only if it says success and that message could be
  -- written: after a failure of any step, that of the message itself included, nothing is copied.
  pub handle_socks_connect_async-IsReport :
      (dialled : Result Str (Unit {0})) (data_dial : Result Str Conn) (ready_sent : Bool)
      → IsReport dialled data_dial ready_sent
          (handle_socks_connect_async frame_text hellos envelopes msg dialled data_dial ready_sent)
  unfolding handle_socks_connect_async on_data_dial ready_failed
  handle_socks_connect_async-IsReport (err text) data_dial ready_sent = record {
    ready = _;
    one = refl;
    same = refl;
    good = λ h. absurd cc;
    bad = λ h. refl;
    relayed = λ h. absurd cc;
    copied = λ h. absurd cc;
  }
  handle_socks_connect_async-IsReport (ok _) (err text) ready_sent = record {
    ready = _;
    one = refl;
    same = refl;
    good = λ h. absurd cc;
    bad = λ h. refl;
    relayed = λ h. absurd cc;
    copied = λ h. absurd cc;
  }
  handle_socks_connect_async-IsReport (ok _) (ok c) ready_sent = hello-IsReport ready_sent c _ refl
