-- ===== src/Socks/Server/Runs.antt =====
-- internal/socks/server.go: a user whose target is reached.
use reversproxy.Base.{ℕ, ◌≡◌, refl, Bool, true, false, List, [], ◌∷◌, some, Str, str_eq, is_empty}
use reversproxy.Base.Result.{ok}
use reversproxy.Protocol.Framing.{conn_write}
use reversproxy.Protocol.Validation.{validate_target, validate_domain, decode_rune}
use reversproxy.Tunnel.Manager.{Manager, new_manager}
use reversproxy.Tunnel.Writer.{new_control_conn_registry, register_writer}
use reversproxy.Socks.Negotiate.{Link, ◌>>=◌, negotiate_socks5}
use reversproxy.Socks.Server.{Server, Turn, Choice, arrives, handle_socks_conn, run}
use reversproxy.Socks.Server.Replies.{IsReplied, handle_socks_conn-IsReplied}

abbrev before : Link
before = record {
  input = 5 ∷ 1 ∷ 0 ∷ 5 ∷ 1 ∷ 0 ∷ 3 ∷ 1 ∷ 97 ∷ 0 ∷ 80 ∷ [];
  out = record { sent = []; faults = [] };
}

abbrev after : Link
after = record { input = []; out = record { sent = 5 ∷ 0 ∷ []; faults = [] } }

abbrev no_ip : Str → Bool
no_ip s = false

abbrev as_it_is : List ℕ → Str
as_it_is bytes = bytes

greeted : negotiate_socks5 as_it_is no_ip [] [] before ≡ (ok (97 ∷ [], 80), after)
unfolding negotiate_socks5 conn_write validate_target validate_domain decode_rune ◌>>=◌ is_empty
    str_eq
greeted = refl

abbrev one_client : Server
one_client = record {
  manager = new_manager;
  writers = register_writer (97 ∷ []) 7 new_control_conn_registry;
  sent = [];
}

abbrev turn : Turn
turn = record { random = some (1 ∷ []); conn_id = 99 ∷ []; write_ok = true }

-- The manager when the dial has been reported and the data connection has come.
abbrev reached : Manager
reached = record new_manager {
  dials = λ p. record { ready = true; success = true; err_msg = [] };
  conns = λ q. record { ext_conn = 100; ready = true; data_conn = some 200; data_token = [] };
}

abbrev waits : List (Choice × Manager)
waits = (arrives, new_manager) ∷ (arrives, reached) ∷ (arrives, reached) ∷ []

handle_socks_conn-IsReplied_example :
    let start = (handle_socks_conn as_it_is no_ip [] [] 100 turn before one_client).0 in
    let end = run waits start.0 start.1 in
    IsReplied one_client.manager.next_dial one_client.manager.next_conn after waits end.0 end.1
handle_socks_conn-IsReplied_example =
    handle_socks_conn-IsReplied as_it_is no_ip [] [] (97 ∷ []) 80 100 turn before after one_client
      waits greeted
