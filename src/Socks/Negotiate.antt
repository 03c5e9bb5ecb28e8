-- ===== src/Socks/Negotiate.antt =====
-- internal/socks/proto.go: the handshake with a SOCKS5 user.
pub mod Talks
pub mod Auth
mod Runs
use reversproxy.Base.{
  ℕ, ◌+◌, ◌*◌, Bool, true, false, not, ◌&&◌, List, [], ◌∷◌, ◌++◌, Option, none, some, if◌then◌else◌,
  ◌==◌, ltb, length, take, drop, get_elem?, Str, str_eq, is_empty,
}
use reversproxy.Base.Result.{Result, ok, err}
use reversproxy.Protocol.Framing.{Conn, conn_write}
use reversproxy.Protocol.Validation.{ValidationError, validate_target}

pub data NegotiateError : Type 0 where
  read_greeting bad_version no_methods read_auth_methods no_acceptable write_selection :
      NegotiateError
  read_auth_header bad_auth_version read_username read_password_length read_password :
      NegotiateError
  auth_failed write_auth : NegotiateError
  read_request bad_request_version bad_command bad_address_type : NegotiateError
  read_address read_domain_length read_domain read_port invalid_target : NegotiateError

-- The bytes that are still to be read, and the side that is written to.
pub record Link : Type 0 where
  pub input : List ℕ
  pub out : Conn

-- A part of the handshake: its result or its error, and the connection behind it.
abbrev pub Talk : Type 0 → Type 0
Talk A = Link → Result NegotiateError A × Link

pub goes_on :
    {A B : Type 0} → (A → Talk B) → Result NegotiateError A → Link → Result NegotiateError B × Link
goes_on f (ok a) l = f a l
goes_on f (err e) l = (err e, l)

infixl 5 ◌>>=◌ ◌>>◌
unfoldable pub ◌>>=◌ : {A B : Type 0} → Talk A → (A → Talk B) → Talk B
unfolding goes_on
◌>>=◌ m f l = let r = m l in goes_on f r.0 r.1

abbrev pub ◌>>◌ : {B : Type 0} → Talk (Unit {0}) → Talk B → Talk B
m >> k = m >>= λ _. k

pub done : {A : Type 0} → A → Talk A
done a l = (ok a, l)

pub fail : {A : Type 0} → NegotiateError → Talk A
fail e l = (err e, l)

pub guard : Bool → NegotiateError → Talk (Unit {0})
guard b e l = if b then (ok tt, l) else (err e, l)

-- io.ReadFull of `n` bytes; a stream that ends before is used up.
pub read_full : NegotiateError → ℕ → Talk (List ℕ)
read_full e n l =
    if ltb (length l.input) n
    then (err e, record l { input = [] })
    else (ok (take n l.input), record l { input = drop n l.input })

-- A write whose error is returned, and one whose error is ignored.
pub write_or : NegotiateError → List ℕ → Talk (Unit {0})
write_or e bytes l =
    let (fine, c) = conn_write bytes l.out in (if fine then ok tt else err e, record l { out = c })

pub reply : List ℕ → Talk (Unit {0})
reply bytes l = (ok tt, record l { out = (conn_write bytes l.out).1 })

-- The byte at an index of a buffer that has been filled.
abbrev pub byte : List ℕ → ℕ → ℕ
byte bytes i = elim (get_elem? bytes i) [ none ↦ 0 | some b ↦ b ]

-- The loop over the methods that the user offers; 255 is that none is acceptable.
pub select_method : Bool → List ℕ → ℕ
select_method auth_required [] = 255
select_method auth_required (m ∷ ms) =
    let rest = select_method auth_required ms in
    if auth_required && m == 2 then 2 else (if not auth_required && m == 0 then 0 else rest)

pub auth_required : Str → Str → Bool
auth_required user pass = not (is_empty user) && not (is_empty pass)

pub take_method : ℕ → Talk ℕ
unfolding reply write_or fail
take_method m =
    if m == 255
    then (reply (5 ∷ 255 ∷ []) >> fail no_acceptable)
    else (write_or write_selection (5 ∷ m ∷ []) >> done m)

-- Phase 1: the version, the methods, and the one that is selected.
pub greet : Bool → Talk ℕ
unfolding take_method select_method read_full guard
greet required = do
  hdr ← read_full read_greeting 2
  guard (byte hdr 0 == 5) bad_version
  if byte hdr 1 == 0 then (reply (5 ∷ 255 ∷ []) >> fail no_methods) else (do
    methods ← read_full read_auth_methods (byte hdr 1)
    take_method (select_method required methods))

pub check_password : Bool → Talk (Unit {0})
unfolding reply write_or fail
check_password same =
    if same then write_or write_auth (1 ∷ 0 ∷ []) else (reply (1 ∷ 1 ∷ []) >> fail auth_failed)

-- Phase 2: the user name and the password.
pub authenticate : Str → Str → Talk (Unit {0})
unfolding check_password read_full fail
authenticate user pass = do
  hdr ← read_full read_auth_header 2
  if not (byte hdr 0 == 1) then (reply (1 ∷ 1 ∷ []) >> fail bad_auth_version) else (do
    given_user ← read_full read_username (byte hdr 1)
    pass_len ← read_full read_password_length 1
    given_pass ← read_full read_password (byte pass_len 0)
    check_password (str_eq given_user user && str_eq given_pass pass))

pub maybe_authenticate : ℕ → Str → Str → Talk (Unit {0})
unfolding authenticate done
maybe_authenticate method user pass = if method == 2 then authenticate user pass else done tt

-- sendSOCKSReply with no bound address, which is 0.0.0.0.
pub send_socks_reply : ℕ → Talk (Unit {0})
unfolding reply
send_socks_reply rep = reply (5 ∷ rep ∷ 0 ∷ 1 ∷ 0 ∷ 0 ∷ 0 ∷ 0 ∷ 0 ∷ 0 ∷ [])

-- net.IP(bytes).String() is the argument `ip_string`, and net.ParseIP(s) != nil is `is_ip`.
module _ (ip_string : List ℕ → Str) (is_ip : Str → Bool) where
  pub read_host : ℕ → Talk Str
  unfolding read_full send_socks_reply fail done
  read_host atyp =
      if atyp == 1
      then (do addr ← read_full read_address 4; done (ip_string addr))
      else (if atyp == 3
          then (do len ← read_full read_domain_length 1; read_full read_domain (byte len 0))
          else (if atyp == 4
              then (do addr ← read_full read_address 16; done (ip_string addr))
              else (send_socks_reply 8 >> fail bad_address_type)))

  pub if_valid : Result ValidationError (Unit {0}) → Str → ℕ → Talk (Str × ℕ)
  unfolding send_socks_reply fail done
  if_valid (ok _) host port = done (host, port)
  if_valid (err _) host port = send_socks_reply 1 >> fail invalid_target

  pub check_target : Str → ℕ → Talk (Str × ℕ)
  unfolding if_valid
  check_target host port = if_valid (validate_target is_ip host port 1) host port

  pub connect : ℕ → Talk (Str × ℕ)
  unfolding read_host check_target
  connect atyp = do
    host ← read_host atyp
    port ← read_full read_port 2
    check_target host (byte port 0 * 256 + byte port 1)

  pub checked_command : ℕ → ℕ → Talk (Str × ℕ)
  unfolding connect
  checked_command cmd atyp =
      if not (cmd == 1) then (send_socks_reply 7 >> fail bad_command) else connect atyp

  -- Phase 3: the CONNECT request.
  pub request : Talk (Str × ℕ)
  unfolding checked_command
  request = do
    hdr ← read_full read_request 4
    if not (byte hdr 0 == 5)
        then (send_socks_reply 1 >> fail bad_request_version)
        else checked_command (byte hdr 1) (byte hdr 3)

  unfoldable pub negotiate_socks5 : Str → Str → Talk (Str × ℕ)
  unfolding greet maybe_authenticate request auth_required
  negotiate_socks5 user pass = do
    method ← greet (auth_required user pass)
    maybe_authenticate method user pass
    request
