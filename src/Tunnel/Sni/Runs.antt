-- ===== src/Tunnel/Sni/Runs.antt =====
-- Runs of the parser, and its theorems at concrete inputs.
use reversproxy.Base.{ℕ, ◌≡◌, refl, List, [], ◌∷◌, ◌++◌, Str, codes, take}
use reversproxy.Base.Result.{ok}
use reversproxy.Tunnel.Sni.{
  done, byte_at, slice, uint16, uint16_at, walk_names, parse_sni_extension, walk_extensions, skip8,
  skip16, parse_extensions, parse_sni_from_client_hello, read_full, peek_record, peek_sni,
}
use reversproxy.Tunnel.Sni.Bounds.{IsDone, parse_sni-IsDone}
use reversproxy.Tunnel.Sni.Hello.{Hello, encode_hello, parse_sni-encode_hello}
use reversproxy.Tunnel.Sni.Peek.{Peeks, peek_sni-Peeks}

-- In these runs `to_lower` keeps its argument.
abbrev same : Str → Str
same s = s

abbrev zeros : List ℕ
zeros = 0 ∷ 0 ∷ 0 ∷ 0 ∷ 0 ∷ 0 ∷ 0 ∷ 0 ∷ []

abbrev hello : Hello
hello = record {
  len = (0, 0, 60);
  version_random = 3 ∷ 3 ∷ zeros ++ zeros ++ zeros ++ zeros;
  session = 9 ∷ 9 ∷ [];
  ciphers = 0x13 ∷ 0x01 ∷ [];
  compression = 0 ∷ [];
  before = record { kind = 10; body = 0 ∷ 2 ∷ 0 ∷ 29 ∷ [] } ∷ [];
  host = codes "a.org";
  names = [];
  later = 0 ∷ 43 ∷ 0 ∷ 0 ∷ [];
}

parses_hello : parse_sni_from_client_hello same (encode_hello hello) ≡ done (codes "a.org")
unfolding parse_sni_from_client_hello skip8 skip16 parse_extensions walk_extensions
    parse_sni_extension walk_names byte_at slice uint16 uint16_at
parses_hello = refl

plain_text : peek_sni same (codes "GET / HTTP/1.0") ≡ ok (codes "GET /", [], codes " HTTP/1.0")
unfolding peek_sni read_full peek_record
plain_text = refl

parse_sni-encode_hello_example :
    parse_sni_from_client_hello same (encode_hello hello) ≡ done (codes "a.org")
parse_sni-encode_hello_example = parse_sni-encode_hello same hello refl ((λ e. cc), tt)

parse_sni-IsDone_example : IsDone (parse_sni_from_client_hello same (take 70 (encode_hello hello)))
parse_sni-IsDone_example = parse_sni-IsDone same (take 70 (encode_hello hello))

peek_sni-Peeks_example :
    Peeks
      (0x16 ∷ 3 ∷ 1 ∷ 0 ∷ 2 ∷ 1 ∷ 0 ∷ 7 ∷ [])
      16389
      (peek_sni same (0x16 ∷ 3 ∷ 1 ∷ 0 ∷ 2 ∷ 1 ∷ 0 ∷ 7 ∷ []))
peek_sni-Peeks_example = peek_sni-Peeks same (0x16 ∷ 3 ∷ 1 ∷ 0 ∷ 2 ∷ 1 ∷ 0 ∷ 7 ∷ [])
