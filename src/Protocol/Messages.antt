-- ===== src/Protocol/Messages.antt =====
-- internal/protocol/messages.go: the types of messages and their fields.
use reversproxy.Base.{ℕ, Bool, List, Str, ◌*◌}

abbrev pub msg_client_register : ℕ
msg_client_register = 1

abbrev pub msg_register_resp : ℕ
msg_register_resp = 2

abbrev pub msg_ping : ℕ
msg_ping = 3

abbrev pub msg_pong : ℕ
msg_pong = 4

abbrev pub msg_disconnect : ℕ
msg_disconnect = 5

abbrev pub msg_disconnect_ack : ℕ
msg_disconnect_ack = 6

abbrev pub msg_request_tunnel : ℕ
msg_request_tunnel = 7

abbrev pub msg_tunnel_resp : ℕ
msg_tunnel_resp = 8

abbrev pub msg_open_connection : ℕ
msg_open_connection = 9

abbrev pub msg_data_conn_hello : ℕ
msg_data_conn_hello = 10

abbrev pub msg_request_http_tunnel : ℕ
msg_request_http_tunnel = 11

abbrev pub msg_request_https_tunnel : ℕ
msg_request_https_tunnel = 12

abbrev pub msg_http_tunnel_resp : ℕ
msg_http_tunnel_resp = 13

abbrev pub msg_socks_connect : ℕ
msg_socks_connect = 14

abbrev pub msg_socks_ready : ℕ
msg_socks_ready = 15

abbrev pub msg_socks_data : ℕ
msg_socks_data = 16

abbrev pub msg_socks_close : ℕ
msg_socks_close = 17

abbrev pub max_message_size : ℕ
max_message_size = 1 * 1024 * 1024

-- What stands on the wire: a message type and the gob encoding of that message.
pub record Envelope : Type 0 where
  pub type : ℕ
  pub payload : List ℕ

pub record ClientRegister : Type 0 where
  pub auth_token : Str
  pub name : Str
  pub version : Str

pub record RegisterResp : Type 0 where
  pub assigned_client_id : Str
  pub server_id : Str
  pub status : Str
  pub error : Str

pub record Ping : Type 0 where
  pub seq : ℕ

pub record Pong : Type 0 where
  pub seq : ℕ

pub record Disconnect : Type 0 where
  pub reason : Str

pub record RequestTunnel : Type 0 where
  pub local_host : Str
  pub local_port : ℕ
  pub requested_port : ℕ

pub record TunnelResp : Type 0 where
  pub tunnel_id : Str
  pub public_port : ℕ
  pub server_data_addr : Str
  pub status : Str
  pub error : Str

pub record OpenConnection : Type 0 where
  pub tunnel_id : Str
  pub conn_id : Str
  pub local_host : Str
  pub local_port : ℕ
  pub data_token : Str

pub record DataConnHello : Type 0 where
  pub conn_id : Str
  pub token : Str

pub record RequestHttpTunnel : Type 0 where
  pub hostname : Str
  pub local_host : Str
  pub local_port : ℕ

pub record RequestHttpsTunnel : Type 0 where
  pub hostname : Str
  pub local_host : Str
  pub local_port : ℕ

pub record HttpTunnelResp : Type 0 where
  pub hostname : Str
  pub tunnel_id : Str
  pub server_data_addr : Str
  pub status : Str
  pub error : Str

pub record SocksConnect : Type 0 where
  pub conn_id : Str
  pub target_host : Str
  pub target_port : ℕ
  pub data_token : Str

pub record SocksReady : Type 0 where
  pub conn_id : Str
  pub success : Bool
  pub error : Str

pub record SocksData : Type 0 where
  pub conn_id : Str
  pub payload : List ℕ

pub record SocksClose : Type 0 where
  pub conn_id : Str
