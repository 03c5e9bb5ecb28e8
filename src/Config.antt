-- ===== src/Config.antt =====
-- internal/config/config.go: the check of the credentials at startup; internal/app/server_app.go and
-- cmd/server/main.go: the token that a client is sent.
pub mod Tokens
mod Runs
use reversproxy.Base.{
  ℕ, Bool, true, false, not, ◌&&◌, ◌||◌, List, [], ◌∷◌, Option, none, some, if◌then◌else◌, Str,
  codes, str_eq, is_empty,
}

pub record ClientTarget : Type 0 where
  pub name : Str
  pub address : Str
  pub auth_token : Str

pub record FileTransferConfig : Type 0 where
  pub enabled : Bool
  pub receive_addr : Str
  pub drop_dir : Str
  pub token : Str
  pub max_file_size : ℕ
  pub send_endpoint : Str
  pub control_addr : Str

-- A rate is a floating-point number, whose type is an argument.
pub record ServerConfig (Float : Type 0) : Type 0 where
  pub data_addr : Str
  pub http_addr : Str
  pub https_addr : Str
  pub admin_addr : Str
  pub auth_token : Str
  pub cert_path : Str
  pub key_path : Str
  pub admin_token : Str
  pub min_port : ℕ
  pub allow_private_targets : Bool
  pub insecure : Bool
  pub client_ca_cert : Str
  pub tls_fingerprint : Str
  pub max_conn_rate : Float
  pub max_conn_burst : ℕ
  pub max_concurrent : ℕ
  pub log_level : Str
  pub clients : List ClientTarget
  pub known_hosts_path : Str
  pub auto_approve : Bool
  pub file_transfer : FileTransferConfig

pub data SecurityError : Type 0 where
  weak_token : SecurityError
  weak_client_token : Str → SecurityError

pub is_weak_token : Str → Bool
is_weak_token t = is_empty t || str_eq t (codes "changeme")

-- The loop over the clients; `none` is Go's nil error.
pub validate_clients : List ClientTarget → Option SecurityError
unfolding is_weak_token
validate_clients [] = none
validate_clients (c ∷ cs) =
    let rest = validate_clients cs in
    if not (is_empty c.auth_token) && is_weak_token c.auth_token
    then some (weak_client_token c.name)
    else rest

pub validate_security : {Float : Type 0} → ServerConfig Float → Option SecurityError
unfolding validate_clients is_weak_token
validate_security cfg =
    if cfg.insecure
    then none
    else (if is_weak_token cfg.auth_token then some weak_token else validate_clients cfg.clients)

-- The token that startClientDialLoops gives to the dial loop of a client.
pub effective_token : {Float : Type 0} → ServerConfig Float → ClientTarget → Str
effective_token cfg target =
    if is_empty target.auth_token then cfg.auth_token else target.auth_token

abbrev pub default_file_transfer_config : FileTransferConfig
default_file_transfer_config = record {
  enabled = false;
  receive_addr = codes "127.0.0.1:8089";
  drop_dir = codes "received";
  token = [];
  max_file_size = 0;
  send_endpoint = [];
  control_addr = codes "127.0.0.1:8077";
}

-- DefaultServerConfig, with the zero of the rate.
abbrev pub default_server_config : {Float : Type 0} → Float → ServerConfig Float
default_server_config rate = record {
  data_addr = codes ":8444";
  http_addr = codes ":8080";
  https_addr = codes ":8445";
  admin_addr = codes ":9090";
  auth_token = [];
  cert_path = codes "server.crt";
  key_path = codes "server.key";
  admin_token = [];
  min_port = 1;
  allow_private_targets = false;
  insecure = false;
  client_ca_cert = [];
  tls_fingerprint = [];
  max_conn_rate = rate;
  max_conn_burst = 0;
  max_concurrent = 0;
  log_level = codes "info";
  clients = [];
  known_hosts_path = codes "known_hosts.yaml";
  auto_approve = false;
  file_transfer = default_file_transfer_config;
}
