-- ===== src/Socks/Negotiate/Runs.antt =====
-- internal/socks/proto.go: a handshake on given bytes.
use reversproxy.Base.{
  ℕ, ◌≡◌, refl, Bool, has, true, false, List, [], ◌∷◌, ◌++◌, length, Str, str_eq, is_empty, arith,
}
use reversproxy.Base.Result.{ok}
use reversproxy.Protocol.Framing.{conn_write}
use reversproxy.Protocol.Validation.{validate_target, validate_domain, decode_rune}
use reversproxy.Socks.Negotiate.{Link, ◌>>=◌, negotiate_socks5}
use reversproxy.Socks.Negotiate.Auth.{negotiate_socks5_authenticated}

-- The user is "u", the password "p", the target a:80.
abbrev socks_bytes : List ℕ
socks_bytes = 5 ∷ 2 ∷ 0 ∷ 2 ∷ 1 ∷ 1 ∷ 117 ∷ 1 ∷ 112 ∷ 5 ∷ 1 ∷ 0 ∷ 3 ∷ 1 ∷ 97 ∷ 0 ∷ 80 ∷ []

abbrev no_ip : Str → Bool
no_ip s = false

abbrev as_it_is : List ℕ → Str
as_it_is bytes = bytes

abbrev before : Link
before = record { input = socks_bytes; out = record { sent = []; faults = [] } }

abbrev after : Link
after = record { input = []; out = record { sent = 5 ∷ 2 ∷ 1 ∷ 0 ∷ []; faults = [] } }

before_runs :
    negotiate_socks5 as_it_is no_ip (117 ∷ []) (112 ∷ []) before ≡ (ok (97 ∷ [], 80), after)
unfolding negotiate_socks5 conn_write validate_target validate_domain decode_rune ◌>>=◌ is_empty
    str_eq
before_runs = refl

negotiate_socks5_authenticated_example :
    (validate_target no_ip (97 ∷ []) 80 1 ≡ ok tt)
    × ((methods rest : List ℕ) × (has 2 methods ≡ true)
        × (socks_bytes
            ≡ (5 ∷ length methods ∷ methods) ++ ((1 ∷ 1 ∷ 117 ∷ []) ++ (1 ∷ 112 ∷ [])) ++ rest))
negotiate_socks5_authenticated_example =
    negotiate_socks5_authenticated as_it_is no_ip (97 ∷ []) 80 (117 ∷ []) (112 ∷ []) before after
      (λ e. ground arith) (λ e. ground arith) before_runs
