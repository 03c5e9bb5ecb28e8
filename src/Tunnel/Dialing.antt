-- ===== src/Tunnel/Dialing.antt =====
-- internal/tunnel/client.go: what a client does when the server asks it to open a connection.
pub mod Reports
use reversproxy.Base.{
  ℕ, Bool, true, false, List, [], ◌∷◌, ◌++◌, Option, none, some, if◌then◌else◌, Str, codes,
}
use reversproxy.Base.Result.{Result, ok, err}
use reversproxy.Protocol.Messages.{
  Envelope, OpenConnection, DataConnHello, SocksConnect, SocksReady, msg_data_conn_hello,
}
use reversproxy.Protocol.Framing.{Gob, FrameError, Conn, write_message}

-- How handleOpenConnAsync ends: with an error at one of three places, or in the relay.
pub data OpenEnd : Type 0 where
  no_data_conn no_hello no_service relays : OpenEnd

pub after_hello : Option FrameError → Bool → OpenEnd
after_hello (some e) service_ok = no_hello
after_hello none service_ok = if service_ok then relays else no_service

unfoldable pub hello_of : Str → Str → DataConnHello
hello_of conn_id token = record { conn_id = conn_id; token = token }

-- The dials are the data connection, if there is one, and whether the local service answers. The
-- data connection is given back with what was written to it.
unfoldable pub handle_open_conn_async :
    Gob DataConnHello → Gob Envelope → OpenConnection → Option Conn → Bool → OpenEnd × Option Conn
unfolding after_hello hello_of
handle_open_conn_async hellos envelopes msg none service_ok = (no_data_conn, none)
handle_open_conn_async hellos envelopes msg (some c) service_ok =
    let (e, c1) =
      write_message hellos envelopes msg_data_conn_hello (hello_of msg.conn_id msg.data_token) c in
    (after_hello e service_ok, some c1)

-- How handleSOCKSConnectAsync ends: with a failure that it reports, with a success that it could
-- not report, or in the relay.
pub data ConnectEnd : Type 0 where
  reported unreported relays : ConnectEnd

-- The end, the SOCKSReady messages whose write was tried, and the data connection.
abbrev pub Connected : Type 0
Connected = ConnectEnd × List SocksReady × Option Conn

pub ready_failed : Str → Str → SocksReady
ready_failed conn_id text = record { conn_id = conn_id; success = false; error = text }

pub ready_ok : Str → SocksReady
ready_ok conn_id = record { conn_id = conn_id; success = true; error = [] }

-- `frame_text` is the text of an error of WriteMessage, `ready_sent` whether the SOCKSReady message
-- can be written.
module _ (frame_text : FrameError → Str) (hellos : Gob DataConnHello)
    (envelopes : Gob Envelope) where
  pub after_socks_hello : SocksConnect → Bool → Option FrameError → Conn → Connected
  unfolding ready_failed ready_ok
  after_socks_hello msg ready_sent (some e) c = (
    reported,
    ready_failed msg.conn_id (codes "send DataConnHello: " ++ frame_text e) ∷ [],
    some c,
  )
  after_socks_hello msg ready_sent none c =
      (if ready_sent then relays else unreported, ready_ok msg.conn_id ∷ [], some c)

  pub on_data_dial : SocksConnect → Bool → Result Str Conn → Connected
  unfolding after_socks_hello ready_failed hello_of
  on_data_dial msg ready_sent (err text) =
      (reported, ready_failed msg.conn_id (codes "dial server data addr: " ++ text) ∷ [], none)
  on_data_dial msg ready_sent (ok c) =
      let (e, c1) =
        write_message hellos envelopes msg_data_conn_hello (hello_of msg.conn_id msg.data_token)
          c in
      after_socks_hello msg ready_sent e c1

  -- The dial of the target, whose error has a text, and then the dial of the server.
  pub handle_socks_connect_async :
      SocksConnect → Result Str (Unit {0}) → Result Str Conn → Bool → Connected
  unfolding on_data_dial ready_failed
  handle_socks_connect_async msg (err text) data_dial ready_sent =
      (reported, ready_failed msg.conn_id text ∷ [], none)
  handle_socks_connect_async msg (ok _) data_dial ready_sent = on_data_dial msg ready_sent data_dial
