-- ===== src/Socks/Server.antt =====
-- internal/socks/server.go: the server's SOCKS5 listener, which sends its users to a client.
pub mod Replies
mod Runs
use reversproxy.Base.{
  ℕ, suc, Bool, true, false, List, [], ◌∷◌, Option, none, some, if◌then◌else◌, Str,
}
use reversproxy.Base.Result.{Result, ok, err}
use reversproxy.Protocol.Messages.{SocksConnect}
use reversproxy.Tunnel.Manager.{
  Manager, register_pending, register_pending_socks, wait_ready, wait_socks_ready,
}
use reversproxy.Tunnel.Writer.{ControlConnRegistry, pick_any}
use reversproxy.Socks.Negotiate.{NegotiateError, Link, negotiate_socks5, send_socks_reply}

-- Where the handler of a connection is: at the wait for the client's dial, with the pending objects
-- of the dial and of the connection; at the wait for the data connection; at the copying between
-- the two connections; at its end. A nil data connection would crash it.
pub data Phase : Type 0 where
  dialing : ℕ → ℕ → Phase
  fetching : ℕ → Phase
  copying : ℕ → Phase
  crashed : Phase
  over : Phase

pub record Server : Type 0 where
  pub manager : Manager
  pub writers : ControlConnRegistry
  pub sent : List (ℕ × SocksConnect)

-- What the random source and uuid.New give, and whether the write to the client succeeds.
pub record Turn : Type 0 where
  pub random : Option (List ℕ)
  pub conn_id : Str
  pub write_ok : Bool

pub answer : ℕ → Link → Link
answer rep l = (send_socks_reply rep l).1

unfoldable pub refuse : ℕ → Link → Phase × Link
unfolding answer
refuse rep l = (over, answer rep l)

pub connect_message : Str → Str → ℕ → Str → SocksConnect
connect_message conn_id host port token = record {
  conn_id = conn_id;
  target_host = host;
  target_port = port;
  data_token = token;
}

-- Both entries are made before the client is told.
pub tell_client : ℕ → Str → ℕ → ℕ → Turn → Link → Server → (Phase × Link) × Server
unfolding refuse connect_message register_pending register_pending_socks
tell_client w host port ext t l s =
    let (p, m1) = register_pending_socks t.conn_id s.manager in
    let (q, m2) = register_pending t.random t.conn_id ext m1 in
    if t.write_ok
    then (
      (dialing p q, l),
      record s {
        manager = m2;
        sent = (w, connect_message t.conn_id host port (m2.conns q).data_token) ∷ s.sent;
      },
    )
    else (refuse 1 l, record s { manager = m2 })

pub route : Option ℕ → Str → ℕ → ℕ → Turn → Link → Server → (Phase × Link) × Server
unfolding refuse tell_client
route none host port ext t l s = (refuse 1 l, s)
route (some w) host port ext t l s = tell_client w host port ext t l s

pub negotiated :
    Result NegotiateError (Str × ℕ) → ℕ → Turn → Link → Server → (Phase × Link) × Server
unfolding route
negotiated (err e) ext t l s = ((over, l), s)
negotiated (ok (host, port)) ext t l s = route (pick_any s.writers) host port ext t l s

-- handleSOCKSConn up to its first wait, with the arguments of the handshake.
pub handle_socks_conn :
    (List ℕ → Str) → (Str → Bool) → Str → Str → ℕ → Turn → Link → Server → (Phase × Link) × Server
unfolding negotiated
handle_socks_conn ip_string is_ip user pass ext t l s =
    let (r, l1) = negotiate_socks5 ip_string is_ip user pass l in negotiated r ext t l1 s

-- Which case of a select is taken: what is waited for, the timeout, or the end of the context.
pub data Choice : Type 0 where
  arrives times_out cancelled : Choice

pub on_ready : Option (Bool × Str) → ℕ → ℕ → Link → Phase × Link
unfolding refuse
on_ready none p q l = (dialing p q, l)
on_ready (some (success, text)) p q l = if success then (fetching q, l) else refuse 5 l

pub on_data : Option (Option ℕ) → ℕ → Link → Phase × Link
unfolding answer
on_data none q l = (fetching q, l)
on_data (some none) q l = (crashed, answer 0 l)
on_data (some (some d)) q l = (copying d, answer 0 l)

-- The handler goes on; the manager is what it is at that time. The last step is the end of both
-- copies.
unfoldable pub advance : Choice → Manager → Phase → Link → Phase × Link
unfolding on_ready on_data refuse
advance arrives m (dialing p q) l = on_ready (wait_socks_ready p m) p q l
advance times_out m (dialing p q) l = refuse 1 l
advance cancelled m (dialing p q) l = refuse 1 l
advance arrives m (fetching q) l = on_data (wait_ready q m) q l
advance times_out m (fetching q) l = refuse 1 l
advance cancelled m (fetching q) l = refuse 1 l
advance c m (copying d) l = (over, l)
advance c m crashed l = (crashed, l)
advance c m over l = (over, l)

unfoldable pub run : List (Choice × Manager) → Phase → Link → Phase × Link
unfolding advance
run [] phase l = (phase, l)
run ((c, m) ∷ ts) phase l = let r = advance c m phase l in run ts r.0 r.1
