-- ===== src/Tunnel/Edge/Users.antt =====
-- internal/tunnel/http_proxy.go, https_proxy.go and server.go: the handlers of users and of data
-- connections keep what relates the pending connections and the relay goroutines.
use reversproxy.Base.{
  ℕ, Map, refl, sym, inl, inr, Bool, List, Option, none, some, if_cases, ◌==◌, Str, is_empty,
  is_empty_ne, str_eq_sound, is_empty, not,
}
use reversproxy.Base.Result.{Result, Result-cases, ok, err}
use reversproxy.Protocol.Messages.{Envelope, DataConnHello, msg_data_conn_hello}
use reversproxy.Protocol.Framing.{Gob, FrameError}
use reversproxy.Tunnel.Table.{Table, Taken, HttpTunnelEntry}
use reversproxy.Tunnel.Sni.{PeekError}
use reversproxy.Tunnel.Manager.{fulfill_pending, with_http, with_https, TunnelEntry}
use reversproxy.Tunnel.Manager.Tokens.{fulfill_pending_found}
use reversproxy.Tunnel.Writer.{ControlConnRegistry}
use reversproxy.Tunnel.Edge.{
  Library, HttpRequest, Kind, web, Edge, Turn, close, strip_port, open_message, http_client,
  http_route, handle_http_conn, https_client, https_route, https_peeked, fulfilled_by, on_hello,
  on_envelope, handle_data_conn, notify, write_http_error,
}
use reversproxy.Tunnel.Edge.Events.{with_manager}
use reversproxy.Tunnel.Edge.Routed.{IsRouted, close-IsRouted, write-IsRouted, notify-IsRouted}
use reversproxy.Tunnel.Edge.Relays.{accept-IsRouted}

module _ (lib : Library) (g : Edge) (v : IsRouted lib g) where
  -- A request that is refused with an answer.
  refuse-IsRouted :
      (code : ℕ) (msg : Str) (ext : ℕ)
      → IsRouted lib (close ext (write_http_error lib ext code msg g))
  unfolding write_http_error
  refuse-IsRouted code msg ext = close-IsRouted lib ext _ (write-IsRouted lib ext _ g v)

  pub told-IsRouted :
      (kind : Kind) (w : ℕ) (id host : Str) (port : ℕ) (raw : List ℕ) (ext : ℕ) (t : Turn)
      → IsRouted lib (notify lib kind w (open_message id host port) raw ext t g)
  unfolding open_message
  told-IsRouted kind w id host port raw ext t =
      notify-IsRouted lib kind w (open_message id host port) raw ext t g (λ k token. refl)
        (λ k token. refl) v

  http_client-IsRouted :
      (host : Str) (entry : HttpTunnelEntry) (w : Option ℕ) (raw : List ℕ) (ext : ℕ) (t : Turn)
      → IsRouted lib (http_client lib host entry w raw ext t g)
  unfolding http_client
  http_client-IsRouted host entry none raw ext t = refuse-IsRouted 502 _ ext
  http_client-IsRouted host entry (some w) raw ext t = told-IsRouted web w _ _ _ raw ext t

  http_route-IsRouted :
      (host : Str) (entry : Option HttpTunnelEntry) (raw : List ℕ) (ext : ℕ) (t : Turn)
      → IsRouted lib (http_route lib host entry raw ext t g)
  unfolding http_route
  http_route-IsRouted host none raw ext t = refuse-IsRouted 502 _ ext
  http_route-IsRouted host (some entry) raw ext t = http_client-IsRouted host entry _ raw ext t

  pub http-IsRouted :
      (req : Option HttpRequest) (ext : ℕ) (t : Turn)
      → IsRouted lib (handle_http_conn lib req ext t g)
  unfolding handle_http_conn
  http-IsRouted none ext t = refuse-IsRouted 400 _ ext
  http-IsRouted (some req) ext t =
      if_cases (IsRouted lib) (is_empty (strip_port lib req.host)) _ _
        (λ _. refuse-IsRouted 400 _ ext) (λ _. http_route-IsRouted _ _ _ ext t)

  https_client-IsRouted :
      (entry : HttpTunnelEntry) (w : Option ℕ) (peeked : List ℕ) (ext : ℕ) (t : Turn)
      → IsRouted lib (https_client lib entry w peeked ext t g)
  unfolding https_client
  https_client-IsRouted entry none peeked ext t = close-IsRouted lib ext g v
  https_client-IsRouted entry (some w) peeked ext t = told-IsRouted web w _ _ _ peeked ext t

  https_route-IsRouted :
      (entry : Option HttpTunnelEntry) (peeked : List ℕ) (ext : ℕ) (t : Turn)
      → IsRouted lib (https_route lib entry peeked ext t g)
  unfolding https_route
  https_route-IsRouted none peeked ext t = close-IsRouted lib ext g v
  https_route-IsRouted (some entry) peeked ext t = https_client-IsRouted entry _ peeked ext t

  pub https-IsRouted :
      (r : Result PeekError (List ℕ × Str × List ℕ)) (ext : ℕ) (t : Turn)
      → IsRouted lib (https_peeked lib r ext t g)
  unfolding https_peeked
  https-IsRouted (err e) ext t = close-IsRouted lib ext g v
  https-IsRouted (ok (peeked, sni, rest)) ext t =
      if_cases (IsRouted lib) (is_empty (strip_port lib sni)) _ _ (λ _. close-IsRouted lib ext g v)
        (λ _. https_route-IsRouted _ peeked ext t)

  hello-IsRouted : (conn : ℕ) (hello : Option DataConnHello) → IsRouted lib (on_hello conn hello g)
  unfolding on_hello fulfilled_by
  hello-IsRouted conn none = close-IsRouted lib conn g v
  hello-IsRouted conn (some hello) =
      let o = fulfill_pending hello.conn_id conn hello.token g.manager in
      elim (Result-cases o) [
        | inl (e, refused) ↦ rw (refused, fulfilled_by) (close-IsRouted lib conn g v)
        | inr (n, taken) ↦
            let (p, found, filled, same, eq) =
              fulfill_pending_found hello.conn_id hello.token conn g.manager n taken in
            rw (taken, fulfilled_by, eq)
              (accept-IsRouted lib g v hello conn p found (sym (str_eq_sound _ _ same))
                (is_empty_ne _ filled))
      ]

  envelope-IsRouted :
      (hellos : Gob DataConnHello) (clear_ok : Bool) (conn : ℕ)
      (r : Result FrameError (Envelope × List ℕ))
      → IsRouted lib (on_envelope hellos clear_ok conn r g)
  unfolding on_envelope
  envelope-IsRouted hellos clear_ok conn (err e) = close-IsRouted lib conn g v
  envelope-IsRouted hellos clear_ok conn (ok (env, rest)) =
      if_cases (IsRouted lib) (not clear_ok) _ _ (λ _. close-IsRouted lib conn g v)
        (λ _.
          if_cases (IsRouted lib) (not (env.type == msg_data_conn_hello)) _ _
            (λ _. close-IsRouted lib conn g v) (λ _. hello-IsRouted conn _))

  pub data-IsRouted :
      (envelopes : Gob Envelope) (hellos : Gob DataConnHello) (set_ok clear_ok : Bool)
      (input : List ℕ) (conn : ℕ)
      → IsRouted lib (handle_data_conn envelopes hellos set_ok clear_ok input conn g)
  unfolding handle_data_conn
  data-IsRouted envelopes hellos set_ok clear_ok input conn =
      if_cases (IsRouted lib) (not set_ok) _ _ (λ _. close-IsRouted lib conn g v)
        (λ _. envelope-IsRouted hellos clear_ok conn _)

  -- What the relay goroutines do not read may change in any way.
  pub tables-IsRouted :
      (tunnels : Map TunnelEntry) (by_client : Map (List Str)) (http https : Table)
      (closed : List ℕ) (writers : ControlConnRegistry)
      → IsRouted lib (record g {
        manager = record g.manager {
          tunnels = tunnels;
          by_client = by_client;
          http = http;
          https = https;
          closed = closed;
        };
        writers = writers;
      })
  tables-IsRouted tunnels by_client http https closed writers = record {
    counted = v.counted;
    waiting = v.waiting;
    named = v.named;
    filled = v.filled;
    served = v.served;
    matched = v.matched;
    safe = v.safe;
  }

  pub http_table-IsRouted :
      (r : Result Taken Table) → IsRouted lib (with_manager (with_http g.manager r) g)
  unfolding with_http
  http_table-IsRouted (err e) = v
  http_table-IsRouted (ok t) = tables-IsRouted _ _ t _ _ _

  pub https_table-IsRouted :
      (r : Result Taken Table) → IsRouted lib (with_manager (with_https g.manager r) g)
  unfolding with_https
  https_table-IsRouted (err e) = v
  https_table-IsRouted (ok t) = tables-IsRouted _ _ _ t _ _
