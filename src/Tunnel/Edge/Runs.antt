-- ===== src/Tunnel/Edge/Runs.antt =====
-- The theorems on the edge at concrete inputs.
use reversproxy.Base.{
  ℕ, ◌≡◌, refl, inr, true, false, List, [], ◌∷◌, ◌++◌, Option, none, some, codes, length, take,
  drop, take-length_append, drop-length_append, All, lookup, insert, is_empty, str_eq, delete,
  arith,
}
use reversproxy.Base.Result.{ok}
use reversproxy.Protocol.Messages.{Envelope, DataConnHello, SocksConnect}
use reversproxy.Protocol.Framing.{Gob, read_message, read_body_of, read_uint32, decode_payload}
use reversproxy.Tunnel.Table.{add_route, empty_table, owned}
use reversproxy.Tunnel.Writer.{register_writer, new_control_conn_registry, get_writer}
use reversproxy.Tunnel.Manager.{
  new_manager, new_data_token, hex_encode, hex_digit, http_entry, register_pending, fulfill_pending,
  wait_ready, add_http_tunnel, get_http_tunnel, with_http,
}
use reversproxy.Tunnel.Edge.{
  Library, HttpRequest, tcp, web, waits, over, Edge, close, open_message, handle_http_conn,
  handle_data_conn, fulfilled_by, give_up, http_client, http_error, http_route, join, met, notify,
  on_envelope, relay_http_conn, replay, strip_port, write, write_http_error, on_hello, arrives,
  times_out, cancelled, wait_done, advance,
}
use reversproxy.Tunnel.Edge.Events.{
  Event, http_user, data_conn, relay, connects, serves_http, new_edge, step, run,
}
use reversproxy.Tunnel.Edge.Routed.{IsMatch}
use reversproxy.Tunnel.Edge.Joins.{joined-IsMatch}
use reversproxy.Tunnel.Edge.Late.{late_data_conn}
use reversproxy.Tunnel.Edge.Links.{sent_on, request_reaches_client}
use reversproxy.Tunnel.Dialing.{hello_of, handle_open_conn_async, handle_socks_connect_async}
use reversproxy.Tunnel.Dialing.Reports.{IsReport, handle_socks_connect_async-IsReport}
use reversproxy.Protocol.Framing.RoundTrip.{calm}

abbrev decode_tagged : List ℕ → Option Envelope
decode_tagged [] = none
decode_tagged (t ∷ xs) = some (record { type = t; payload = xs })

tagged_law :
    (e : Envelope) (bytes : List ℕ)
    → some (e.type ∷ e.payload) ≡ some bytes
    → decode_tagged bytes ≡ some e
tagged_law e [] p = cc
tagged_law e (t ∷ xs) p = ground arith

-- An envelope as its type and its payload.
abbrev tagged : Gob Envelope
tagged = record {
  encode = λ e. some (e.type ∷ e.payload);
  decode = decode_tagged;
  decode-encode = tagged_law;
}

abbrev decode_hello : List ℕ → Option DataConnHello
decode_hello [] = none
decode_hello (n ∷ xs) = some (record { conn_id = take n xs; token = drop n xs })

hello_law :
    (h : DataConnHello) (bytes : List ℕ)
    → some (length h.conn_id ∷ h.conn_id ++ h.token) ≡ some bytes
    → decode_hello bytes ≡ some h
hello_law h [] p = cc
hello_law h (n ∷ xs) p =
    let first : length h.conn_id ≡ n = cc in
    let more : h.conn_id ++ h.token ≡ xs = cc in
    rw (← first, ← more, take-length_append h.conn_id h.token, drop-length_append h.conn_id h.token)
      refl

-- A hello as the length of its identity, the identity and the token.
abbrev hellos : Gob DataConnHello
hellos = record {
  encode = λ h. some (length h.conn_id ∷ h.conn_id ++ h.token);
  decode = decode_hello;
  decode-encode = hello_law;
}

abbrev lib : Library
lib = record {
  split_host_port = λ s. some (s, []);
  status_text = λ n. [];
  decimal = λ n. [];
  quote = λ s. s;
  to_lower = λ s. s;
  uuid = λ n. n ∷ [];
}

uuid_apart : (i j : ℕ) → i ∷ [] ≡ j ∷ [] → i ≡ j
uuid_apart i j e = cc

abbrev get_root : HttpRequest
get_root = record { host = codes "a.org"; written = codes "GET / HTTP/1.1"; buffered = codes "x" }

-- The frame of a hello with the first identity and its token.
abbrev hello_bytes : List ℕ
hello_bytes = 0 ∷ 0 ∷ 0 ∷ 5 ∷ 10 ∷ 1 ∷ 0 ∷ 48 ∷ 49 ∷ []

abbrev opened : List Event
opened =
    connects (codes "alice") 7
    ∷ serves_http (codes "h1") (codes "alice") (codes "a.org") (codes "::1") 80
    ∷ []

abbrev visited : List Event
visited =
    connects (codes "alice") 7
    ∷ serves_http (codes "h1") (codes "alice") (codes "a.org") (codes "::1") 80
    ∷ http_user (some get_root) 100 (record { random = some (1 ∷ []); write_ok = true })
    ∷ http_user (some get_root) 101 (record { random = some (2 ∷ []); write_ok = true })
    ∷ data_conn true true hello_bytes 200
    ∷ relay 1 times_out
    ∷ relay 0 (arrives true)
    ∷ []

one_is_joined : (run lib tagged hellos visited new_edge).joined ≡ (100, 200) ∷ []
unfolding run step handle_data_conn read_message decode_payload fulfill_pending lookup
    handle_http_conn is_empty add_http_tunnel add_route new_edge empty_table insert str_eq
    register_writer new_control_conn_registry new_data_token delete read_body_of read_uint32 advance
    close fulfilled_by give_up http_client http_error http_route join met notify on_envelope
    on_hello open_message relay_http_conn replay strip_port write write_http_error get_http_tunnel
    hello_of hex_digit hex_encode new_manager register_pending wait_ready with_http owned get_writer
one_is_joined = refl

joined-IsMatch_example :
    All
      (IsMatch lib (run lib tagged hellos visited new_edge))
      (run lib tagged hellos visited new_edge).joined
    × ((run lib tagged hellos visited new_edge).crashed ≡ false)
joined-IsMatch_example = joined-IsMatch lib uuid_apart tagged hellos visited

-- The client alice is connected and serves a.org.
abbrev serving : Edge
serving = run lib tagged hellos opened new_edge

request_reaches_client_example :
    let msg = open_message (codes "h1") (codes "::1") 80 (0 ∷ []) (codes "01") in
    let g1 =
      handle_http_conn lib
        (some get_root)
        100
        (record { random = some (1 ∷ []); write_ok = true })
        serving in
    let wire = sent_on (handle_open_conn_async hellos tagged msg (some (calm [])) true) in
    let g2 = handle_data_conn tagged hellos true true (wire ++ 9 ∷ []) 200 g1 in
    let g3 = advance 0 (g2.relays 0) (arrives true) g2 in
    (g1.sent ≡ (7, msg) ∷ []) × (g3.joined ≡ (100, 200) ∷ [])
unfolding run step handle_data_conn read_message decode_payload fulfill_pending lookup
    handle_http_conn is_empty add_http_tunnel add_route new_edge empty_table insert str_eq
    register_writer new_control_conn_registry new_data_token delete read_body_of read_uint32 advance
    close fulfilled_by give_up http_client http_error http_route join met notify on_envelope
    on_hello open_message relay_http_conn replay strip_port write write_http_error get_http_tunnel
    hello_of hex_digit hex_encode new_manager register_pending wait_ready with_http owned get_writer
request_reaches_client_example =
    request_reaches_client lib tagged hellos get_root
      (http_entry false (codes "h1") (codes "alice") (codes "a.org") (codes "::1") 80) 7 100 200
      (1 ∷ []) (1 ∷ 0 ∷ codes "01") (10 ∷ 1 ∷ 0 ∷ codes "01") (9 ∷ []) true serving refl refl refl
      (λ e. cc) refl refl (omega arith)

-- The state in which the first user waits for a data connection.
abbrev asked : Edge
asked =
    run lib tagged hellos
      (connects (codes "alice") 7
        ∷ serves_http (codes "h1") (codes "alice") (codes "a.org") (codes "::1") 80
        ∷ http_user (some get_root) 100 (record { random = some (1 ∷ []); write_ok = true })
        ∷ [])
      new_edge

asked_entry : lookup (0 ∷ []) asked.manager.pending ≡ some 0
unfolding run step handle_data_conn read_message decode_payload fulfill_pending lookup
    handle_http_conn is_empty add_http_tunnel add_route new_edge empty_table insert str_eq
    register_writer new_control_conn_registry new_data_token delete read_body_of read_uint32 advance
    close fulfilled_by give_up http_client http_error http_route join met notify on_envelope
    on_hello open_message relay_http_conn replay strip_port write write_http_error get_http_tunnel
    hello_of hex_digit hex_encode new_manager register_pending wait_ready with_http owned get_writer
asked_entry = refl

asked_token : (asked.manager.conns 0).data_token ≡ codes "01"
unfolding run step handle_data_conn read_message decode_payload fulfill_pending lookup
    handle_http_conn is_empty add_http_tunnel add_route new_edge empty_table insert str_eq
    register_writer new_control_conn_registry new_data_token delete read_body_of read_uint32 advance
    close fulfilled_by give_up http_client http_error http_route join met notify on_envelope
    on_hello open_message relay_http_conn replay strip_port write write_http_error get_http_tunnel
    hex_digit hex_encode new_manager register_pending wait_ready with_http owned get_writer
asked_token = refl

late_data_conn_example :
    let hello : DataConnHello = record { conn_id = 0 ∷ []; token = codes "01" } in
    let g1 = advance 0 (waits tcp (0 ∷ []) []) cancelled asked in
    let g2 = advance 0 (waits web (0 ∷ []) []) cancelled asked in
    let g3 = on_hello 200 (some hello) g2 in
    ((on_hello 200 (some hello) g1 ≡ close 200 g1)
      × (wait_done 0 g1 ≡ some (asked.manager.conns 0).data_conn))
    × (g3.hellos ≡ (200, hello) ∷ asked.hellos)
    × (g3.closed ≡ g2.closed)
    × (g3.joined ≡ asked.joined)
    × (g3.relays 0 ≡ over)
    × (wait_done 0 g2 ≡ wait_done 0 asked)
    × (wait_done 0 g3 ≡ some (some 200))
late_data_conn_example =
    late_data_conn 0 200 (0 ∷ []) (codes "01") [] cancelled asked asked_entry asked_token (λ e. cc)
      (inr refl)

abbrev asked_for : SocksConnect
asked_for = record {
  conn_id = 0 ∷ [];
  target_host = codes "a.org";
  target_port = 80;
  data_token = codes "01";
}

handle_socks_connect_async-IsReport_example :
    IsReport
      (λ e. [])
      hellos
      tagged
      asked_for
      (ok tt)
      (ok (calm []))
      true
      (handle_socks_connect_async (λ e. []) hellos tagged asked_for (ok tt) (ok (calm [])) true)
handle_socks_connect_async-IsReport_example =
    handle_socks_connect_async-IsReport (λ e. []) hellos tagged asked_for (ok tt) (ok (calm []))
      true
