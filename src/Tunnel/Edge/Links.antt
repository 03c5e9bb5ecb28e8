-- ===== src/Tunnel/Edge/Links.antt =====
-- internal/tunnel/http_proxy.go, server.go and client.go: the server and the client together, from
-- the request of a user to the joined connections.
use reversproxy.Base.{
  ℕ, ◌≡◌, ◌≢◌, ◌≤◌, refl, false, true, Bool, List, [], ◌∷◌, ◌++◌, Option, none, some, is_empty,
  length,
}
use reversproxy.Protocol.Messages.{
  Envelope, DataConnHello, OpenConnection, msg_data_conn_hello, max_message_size,
}
use reversproxy.Protocol.Framing.{Gob, Conn}
use reversproxy.Protocol.Framing.RoundTrip.{calm, frame, write_message-calm, read_message-frame}
use reversproxy.Tunnel.Table.{HttpTunnelEntry}
use reversproxy.Tunnel.Manager.{new_data_token, get_http_tunnel}
use reversproxy.Tunnel.Writer.{get_writer}
use reversproxy.Tunnel.Dialing.{OpenEnd, after_hello, hello_of, handle_open_conn_async}
use reversproxy.Tunnel.Edge.{
  Library, HttpRequest, Edge, strip_port, open_message, handle_http_conn, handle_data_conn, arrives,
  advance,
}
use reversproxy.Tunnel.Edge.Paths.{served_user_joins}

-- The client's side: the hello that it sends, if nothing fails, is one frame.
pub handle_open_conn_async-frame :
    (hellos : Gob DataConnHello) (envelopes : Gob Envelope) (msg : OpenConnection)
    (body bytes : List ℕ) (service_ok : Bool)
    → hellos.encode (hello_of msg.conn_id msg.data_token) ≡ some body
    → envelopes.encode (record { type = msg_data_conn_hello; payload = body }) ≡ some bytes
    → handle_open_conn_async hellos envelopes msg (some (calm [])) service_ok
      ≡ (after_hello none service_ok, some (calm (frame bytes)))
unfolding handle_open_conn_async
handle_open_conn_async-frame hellos envelopes msg body bytes service_ok p q =
    rw
      (write_message-calm hellos envelopes msg_data_conn_hello (hello_of msg.conn_id msg.data_token)
        [] body bytes p q)
      refl

-- What a client writes to its data connection; nothing, if it has none.
abbrev pub sent_on : OpenEnd × Option Conn → List ℕ
sent_on (end, none) = []
sent_on (end, some c) = c.sent

-- The server and the client together: a user asks for a hostname that a connected client serves; the
-- client gets the message that the server sends, dials, and writes its hello; and when the server
-- reads these bytes from the data connection, it joins the user's connection with it. This is for
-- working random bytes, writes that succeed and a hello below the size limit.
pub request_reaches_client :
    (lib : Library) (envelopes : Gob Envelope) (hellos : Gob DataConnHello) (r : HttpRequest)
    (entry : HttpTunnelEntry) (w ext d : ℕ) (random body bytes more : List ℕ) (service_ok : Bool)
    (g : Edge)
    → is_empty (strip_port lib r.host) ≡ false
    → get_http_tunnel g.manager (strip_port lib r.host) ≡ some entry
    → get_writer entry.client_id g.writers ≡ some w
    → random ≢ []
    → let k = lib.uuid g.calls in
      let token = new_data_token (some random) in
      let msg = open_message entry.id entry.local_host entry.local_port k token in
      hellos.encode (hello_of k token) ≡ some body
      → envelopes.encode (record { type = msg_data_conn_hello; payload = body }) ≡ some bytes
      → length bytes ≤ max_message_size
      → let g1 =
          handle_http_conn lib (some r) ext (record { random = some random; write_ok = true }) g in
        let wire =
          sent_on (handle_open_conn_async hellos envelopes msg (some (calm [])) service_ok) in
        let g2 = handle_data_conn envelopes hellos true true (wire ++ more) d g1 in
        let g3 = advance g.manager.next_conn (g2.relays g.manager.next_conn) (arrives true) g2 in
        (g1.sent ≡ (w, msg) ∷ g.sent) × (g3.joined ≡ (ext, d) ∷ g.joined)
unfolding open_message hello_of
request_reaches_client lib envelopes hellos r entry w ext d random body bytes more service_ok g
      named served there filled p q small =
    let k = lib.uuid g.calls in
    let token = new_data_token (some random) in
    let msg = open_message entry.id entry.local_host entry.local_port k token in
    let env : Envelope = record { type = msg_data_conn_hello; payload = body } in
    let (told, joined, _) =
      served_user_joins lib envelopes hellos r entry w ext d random (frame bytes ++ more) more env g
        named served there filled (read_message-frame envelopes env bytes more q small) refl
        (hellos.decode-encode (hello_of k token) body p) in
    rw (handle_open_conn_async-frame hellos envelopes msg body bytes service_ok p q) (told, joined)
