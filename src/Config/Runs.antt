-- ===== src/Config/Runs.antt =====
-- internal/config/config.go: the check on concrete configurations.
use reversproxy.Base.{ℕ, ◌≡◌, ◌↔◌, refl, [], ◌∷◌, none, some, codes, str_eq, is_empty}
use reversproxy.Config.{
  ServerConfig, weak_token, weak_client_token, validate_security, default_server_config,
}
use reversproxy.Config.Tokens.{IsStrong, validate_security_iff}

default_refused : validate_security {Float = ℕ} (default_server_config 0) ≡ some weak_token
unfolding validate_security is_empty
default_refused = refl

-- One client inherits the token of the server, the other has its own.
abbrev two_clients : ServerConfig ℕ
two_clients = record (default_server_config 0) {
  auth_token = codes "s3cret";
  clients =
      record { name = codes "a"; address = codes "a.org:1"; auth_token = [] }
      ∷ record { name = codes "b"; address = codes "b.org:1"; auth_token = codes "changeme" }
      ∷ [];
}

second_refused : validate_security two_clients ≡ some (weak_client_token (codes "b"))
unfolding validate_security is_empty str_eq
second_refused = refl

validate_security_iff_example : (validate_security two_clients ≡ none) ↔ IsStrong two_clients
validate_security_iff_example = validate_security_iff two_clients refl
