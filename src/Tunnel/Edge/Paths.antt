-- ===== src/Tunnel/Edge/Paths.antt =====
-- internal/tunnel/http_proxy.go, https_proxy.go and server.go: the way of one user's connection, from
-- the hostname to the data connection.
use reversproxy.Base.{
  ℕ, ◌≡◌, ◌≢◌, refl, inl, inr, ◌⊎◌, true, false, List, [], ◌∷◌, ◌++◌, Option, none, some, if_cases,
  Option-cases, Str, str_eq_refl, is_empty, is_empty_ne, ◌∙◌, ne-is_empty, codes, ap, lookup,
  delete, lookup-insert, update, arith,
}
use reversproxy.Base.Result.{ok}
use reversproxy.Protocol.Messages.{Envelope, OpenConnection, DataConnHello, msg_data_conn_hello}
use reversproxy.Protocol.Framing.{Gob, read_message, decode_payload}
use reversproxy.Tunnel.Table.{HttpTunnelEntry}
use reversproxy.Tunnel.Manager.{
  PendingConn, Manager, new_data_token, register_pending, fulfill_pending, wait_ready,
  get_http_tunnel,
}
use reversproxy.Tunnel.Writer.{get_writer}
use reversproxy.Tunnel.Edge.Routed.{made, update-new}
use reversproxy.Tunnel.Manager.Hex.{new_data_token_filled}
use reversproxy.Tunnel.Edge.{
  Library, HttpRequest, Kind, tcp, web, waits, Edge, Turn, close, write, strip_port, open_message,
  notify, write_http_error, http_client, http_route, handle_http_conn, handle_data_conn,
  on_envelope, on_hello, fulfilled_by, arrives, join, replay, met, relay_external_conn,
  relay_http_conn, advance,
}

-- What a handler of an HTTP user does: it answers with an error and closes the connection, or it
-- tells the client that serves the host of the request.
abbrev pub IsAnswered : Library → Option HttpRequest → ℕ → Turn → Edge → Edge → Type 0
IsAnswered lib req ext t g g' =
    ((code : ℕ) × (msg : Str) × (g' ≡ close ext (write_http_error lib ext code msg g)))
    ⊎ ((r : HttpRequest) × (entry : HttpTunnelEntry) × (w : ℕ) × (req ≡ some r)
        × (get_http_tunnel g.manager (strip_port lib r.host) ≡ some entry)
        × (get_writer entry.client_id g.writers ≡ some w)
        × (g'
            ≡ notify lib web w (open_message entry.id entry.local_host entry.local_port)
                (r.written ++ r.buffered) ext t g))

http_route-IsAnswered :
    (lib : Library) (r : HttpRequest) (ext : ℕ) (t : Turn) (g : Edge)
    → let host = strip_port lib r.host in
      IsAnswered lib
        (some r)
        ext
        t
        g
        (http_route lib host (get_http_tunnel g.manager host) (r.written ++ r.buffered) ext t g)
unfolding http_route http_client
http_route-IsAnswered lib r ext t g =
    elim (Option-cases (get_http_tunnel g.manager (strip_port lib r.host))) [
      | inl e ↦ inl (
        502,
        codes "No tunnel registered for host " ++ lib.quote (strip_port lib r.host),
        rw (e, http_route) refl,
      )
      | inr (entry, e) ↦ elim (Option-cases (get_writer entry.client_id g.writers)) [
        | inl f ↦
            inl (502, codes "Client tunnel not available", rw (e, http_route, f, http_client) refl)
        | inr (w, f) ↦ inr (r, entry, w, refl, e, f, rw (e, http_route, f, http_client) refl)
      ]
    ]

-- The handler of an HTTP user always either answers with an error and closes the connection, with
-- nothing registered and nobody told, or tells the one client that serves the host of the request.
pub handle_http_conn-IsAnswered :
    (lib : Library) (req : Option HttpRequest) (ext : ℕ) (t : Turn) (g : Edge)
    → IsAnswered lib req ext t g (handle_http_conn lib req ext t g)
unfolding handle_http_conn
handle_http_conn-IsAnswered lib none ext t g = inl (_, _, refl)
handle_http_conn-IsAnswered lib (some r) ext t g =
    if_cases (IsAnswered lib (some r) ext t g) (is_empty (strip_port lib r.host)) _ _
      (λ _. inl (_, _, refl)) (λ _. http_route-IsAnswered lib r ext t g)

pub fulfill_pending_right :
    (p d : ℕ) (k token : Str) (m : Manager)
    → lookup k m.pending ≡ some p
    → (m.conns p).data_token ≡ token
    → token ≢ []
    → fulfill_pending k d token m
      ≡ ok (record m {
        pending = delete k m.pending;
        conns = update m.conns p (record (m.conns p) { ready = true; data_conn = some d });
      })
unfolding fulfill_pending
fulfill_pending_right p d k token m e right filled =
    ground (arith, str_eq_refl token, ne-is_empty token filled)

-- A data connection whose first message is a hello.
handle_data_conn_hello :
    (envelopes : Gob Envelope) (hellos : Gob DataConnHello) (input rest : List ℕ) (env : Envelope)
    (hello : DataConnHello) (d : ℕ) (g : Edge)
    → read_message envelopes input ≡ ok (env, rest)
    → env.type ≡ msg_data_conn_hello
    → hellos.decode env.payload ≡ some hello
    → handle_data_conn envelopes hellos true true input d g ≡ on_hello d (some hello) g
unfolding handle_data_conn on_envelope decode_payload
handle_data_conn_hello envelopes hellos input rest env hello d g e same decoded =
    rw (e, on_envelope, same, decoded) refl

-- The handler of a request whose host is served.
handle_http_conn_served :
    (lib : Library) (r : HttpRequest) (entry : HttpTunnelEntry) (w ext : ℕ) (t : Turn) (g : Edge)
    → is_empty (strip_port lib r.host) ≡ false
    → get_http_tunnel g.manager (strip_port lib r.host) ≡ some entry
    → get_writer entry.client_id g.writers ≡ some w
    → handle_http_conn lib (some r) ext t g
      ≡ notify lib web w
          (open_message entry.id entry.local_host entry.local_port)
          (r.written ++ r.buffered)
          ext
          t
          g
unfolding handle_http_conn http_route http_client
handle_http_conn_served lib r entry w ext t g named served there =
    rw (named, served, http_route, there, http_client) refl

-- A pending connection whose data connection is there is joined with it, after the replay.
advance_arrives :
    (p d : ℕ) (kind : Kind) (k : Str) (raw : List ℕ) (g : Edge)
    → wait_ready p g.manager ≡ some (some d)
    → let g' = advance p (waits kind k raw) (arrives true) g in
      (g'.joined ≡ ((g.manager.conns p).ext_conn, d) ∷ g.joined)
      × (raw ≢ [] → g'.written ≡ (d, raw) ∷ g.written)
unfolding advance relay_external_conn relay_http_conn met replay join write
advance_arrives p d tcp k [] g e = rw (e, met) (refl, λ ne. absurd (ne refl))
advance_arrives p d tcp k (b ∷ bs) g e = rw (e, met) (refl, λ ne. refl)
advance_arrives p d web k [] g e = rw (e, met) (refl, λ ne. absurd (ne refl))
advance_arrives p d web k (b ∷ bs) g e = rw (e, met) (refl, λ ne. refl)

-- The data connection that a goroutine waits for comes, and the goroutine goes on.
hello_joins :
    (p d : ℕ) (kind : Kind) (k token : Str) (raw : List ℕ) (g : Edge)
    → lookup k g.manager.pending ≡ some p
    → (g.manager.conns p).data_token ≡ token
    → token ≢ []
    → g.relays p ≡ waits kind k raw
    → let g2 = on_hello d (some (record { conn_id = k; token = token })) g in
      let g3 = advance p (g2.relays p) (arrives true) g2 in
      (g3.joined ≡ ((g.manager.conns p).ext_conn, d) ∷ g.joined)
      × (raw ≢ [] → g3.written ≡ (d, raw) ∷ g.written)
unfolding on_hello fulfilled_by wait_ready
hello_joins p d kind k token raw g e right filled waiting =
    let c : PendingConn = record (g.manager.conns p) { ready = true; data_conn = some d } in
    let m : Manager = record g.manager {
      pending = delete k g.manager.pending;
      conns = update g.manager.conns p c;
    } in
    let hello : DataConnHello = record { conn_id = k; token = token } in
    let g2 : Edge = record g { manager = m; hellos = (d, hello) ∷ g.hellos } in
    let own : update g.manager.conns p c p ≡ c = ground arith in
    let (joined, written) = advance_arrives p d kind k raw g2 (rw own refl) in
    rw (fulfill_pending_right p d k token g.manager e right filled, fulfilled_by, waiting)
      (joined ∙ rw own refl, written)

-- The three facts of a connection that has been registered and told of.
notify_waits :
    (lib : Library) (w : ℕ) (message : Str → Str → OpenConnection) (raw : List ℕ) (ext : ℕ)
    (random : Option (List ℕ)) (g : Edge)
    → let g1 = notify lib web w message raw ext (record { random = random; write_ok = true }) g in
      let p = g.manager.next_conn in
      (lookup (lib.uuid g.calls) g1.manager.pending ≡ some p)
      × (g1.manager.conns p ≡ made random ext)
      × (g1.relays p ≡ waits web (lib.uuid g.calls) raw)
unfolding notify register_pending
notify_waits lib w message raw ext random g =
    let p = g.manager.next_conn in
    (
      ground (
        arith,
        lookup-insert (lib.uuid g.calls) (lib.uuid g.calls) p g.manager.pending,
        str_eq_refl (lib.uuid g.calls),
      ),
      update-new g.manager.conns p (made random ext),
      update-new g.relays p (waits web (lib.uuid g.calls) raw),
    )

notify_kept :
    (lib : Library) (w : ℕ) (message : Str → Str → OpenConnection) (raw : List ℕ) (ext : ℕ)
    (random : Option (List ℕ)) (g : Edge)
    → let g1 = notify lib web w message raw ext (record { random = random; write_ok = true }) g in
      (g1.sent ≡ (w, message (lib.uuid g.calls) (new_data_token random)) ∷ g.sent)
      × (g1.joined ≡ g.joined)
      × (g1.written ≡ g.written)
unfolding notify register_pending
notify_kept lib w message raw ext random g =
    (rw (update-new g.manager.conns g.manager.next_conn (made random ext)) refl, refl, refl)

-- A user's request for a hostname that a connected client serves, with working random bytes and a
-- write that succeeds: the client is sent one message, with the local address of its entry, an
-- identity and a token; and when a data connection comes whose hello has that identity and that
-- token, the user's connection is joined with it, after the bytes of the request.
pub served_user_joins :
    (lib : Library) (envelopes : Gob Envelope) (hellos : Gob DataConnHello) (r : HttpRequest)
    (entry : HttpTunnelEntry) (w ext d : ℕ) (bytes input rest : List ℕ) (env : Envelope) (g : Edge)
    → is_empty (strip_port lib r.host) ≡ false
    → get_http_tunnel g.manager (strip_port lib r.host) ≡ some entry
    → get_writer entry.client_id g.writers ≡ some w
    → bytes ≢ []
    → read_message envelopes input ≡ ok (env, rest)
    → env.type ≡ msg_data_conn_hello
    → let p = g.manager.next_conn in
      let k = lib.uuid g.calls in
      let token = new_data_token (some bytes) in
      let raw = r.written ++ r.buffered in
      let g1 =
        handle_http_conn lib (some r) ext (record { random = some bytes; write_ok = true }) g in
      let g2 = handle_data_conn envelopes hellos true true input d g1 in
      let g3 = advance p (g2.relays p) (arrives true) g2 in
      hellos.decode env.payload ≡ some (record { conn_id = k; token = token })
      → (g1.sent ≡ (w, open_message entry.id entry.local_host entry.local_port k token) ∷ g.sent)
        × (g3.joined ≡ (ext, d) ∷ g.joined)
        × (raw ≢ [] → g3.written ≡ (d, raw) ∷ g.written)
served_user_joins lib envelopes hellos r entry w ext d bytes input rest env g named served there
      filled e same decoded =
    let k = lib.uuid g.calls in
    let token = new_data_token (some bytes) in
    let hello : DataConnHello = record { conn_id = k; token = token } in
    let t : Turn = record { random = some bytes; write_ok = true } in
    let raw = r.written ++ r.buffered in
    let message = open_message entry.id entry.local_host entry.local_port in
    let g1 = notify lib web w message raw ext t g in
    let (registered, is_made, waiting) = notify_waits lib w message raw ext (some bytes) g in
    let (told, none_joined, none_written) = notify_kept lib w message raw ext (some bytes) g in
    let (joined, written) =
      hello_joins g.manager.next_conn d web k token raw g1 registered
        (ap (λ (c : PendingConn). c.data_token) is_made)
        (is_empty_ne token (new_data_token_filled bytes filled)) waiting in
    rw
      (
        handle_http_conn_served lib r entry w ext t g named served there,
        handle_data_conn_hello envelopes hellos input rest env hello d g1 e same decoded,
      )
      (told, rw (joined, is_made, none_joined) refl, λ ne. rw (written ne, none_written) refl)
