-- ===== src/Client/Session/Grants.antt =====
-- internal/client/handler.go: where the addresses come from to which a client opens connections.
use reversproxy.Base.{
  true, ◌+◌, ◌<◌, length, ap, ℕ, suc, ◌≡◌, refl, inl, inr, ◌⊎◌, not, List, [], ◌∷◌, Option, none,
  some, if◌then◌else◌, ◌==◌, Bool-cases, if_cases, Map, map, Option-cases, Str, codes, str_eq,
  str_eq_sound, lookup, insert, lookup-insert, lookup-nil, arith,
}
use reversproxy.Protocol.Messages.{
  Envelope, ClientRegister, TunnelResp, HttpTunnelResp, msg_client_register, msg_tunnel_resp,
  msg_http_tunnel_resp,
}
use reversproxy.Tunnel.Mux.{Mux}
use reversproxy.Client.Session.{
  Sent, Decoders, ClientConfig, Session, Opening, Exchange, say, leave, welcome, on_register,
  read_register, handshake, Granted, grant, read_grant, ask, ask_each, register_tunnels,
  register_tcp, register_http, register_https, tunnel_grant, http_tunnel_grant, of_tunnel_resp,
  of_http_tunnel_resp, sent_request_tunnel, sent_request_http_tunnel, sent_request_https_tunnel,
  new_session,
}

insert_granted :
    (Grants : Str → Str → Type 0) (m : Map Str) (k a : Str)
    → Grants k a
    → ((tid addr : Str) → lookup tid m ≡ some addr → Grants tid addr)
    → (tid addr : Str) → lookup tid (insert k a m) ≡ some addr
    → Grants tid addr
insert_granted Grants m k a new old tid addr e = elim (Bool-cases (str_eq k tid)) [
  | inl same ↦
      let key : k ≡ tid = str_eq_sound k tid same in
      let value : a ≡ addr = ground (arith, lookup-insert k tid a m) in rw (← key, ← value) new
  | inr other ↦ old tid addr (ground (arith, lookup-insert k tid a m))
]

-- Every address that a session has for a tunnel was granted.
abbrev pub AreGranted : (Str → Str → Type 0) → Session → Type 0
AreGranted Grants s = (tid addr : Str) → lookup tid s.data_addrs ≡ some addr → Grants tid addr

module _ (Grants : Str → Str → Type 0) where
  grant-AreGranted :
      (r : Option Granted) (s : Session)
      → ((g : Granted) → r ≡ some g → g.status ≡ codes "ok" → Grants g.tunnel_id g.server_data_addr)
      → AreGranted Grants s
      → AreGranted Grants (grant r s)
  unfolding grant leave
  grant-AreGranted none s from v = v
  grant-AreGranted (some g) s from v =
      if_cases (AreGranted Grants) (not (str_eq g.status (codes "ok"))) _ _ (λ fails. v)
        (λ fine.
          insert_granted Grants s.data_addrs g.tunnel_id g.server_data_addr
            (from g refl (str_eq_sound g.status (codes "ok") (ground arith))) v)

  read_grant-AreGranted :
      (expected : ℕ) (decode : List ℕ → Option Granted) (a : Option Envelope) (s : Session)
      → ((env : Envelope) (g : Granted)
          → a ≡ some env
          → env.type ≡ expected
          → decode env.payload ≡ some g
          → g.status ≡ codes "ok"
          → Grants g.tunnel_id g.server_data_addr)
      → AreGranted Grants s
      → AreGranted Grants (read_grant expected decode a s)
  unfolding read_grant leave
  read_grant-AreGranted expected decode none s from v = v
  read_grant-AreGranted expected decode (some env) s from v =
      if_cases (AreGranted Grants) (not (env.type == expected)) _ _ (λ other. v)
        (λ same.
          grant-AreGranted (decode env.payload) s
            (λ g e fine. from env g refl (ground arith) e fine) v)

  -- The rounds that are left have numbers from `i` on and below `n`.
  ask_each-AreGranted :
      (expected : ℕ) (decode : List ℕ → Option Granted) (x : ℕ → Exchange) (n i : ℕ)
      (rs : List Sent) (s : Session)
      → i + length rs ≡ n
      → ((j : ℕ) (env : Envelope) (g : Granted)
          → j < n
          → (x j).write_ok ≡ true
          → (x j).answer ≡ some env
          → env.type ≡ expected
          → decode env.payload ≡ some g
          → g.status ≡ codes "ok"
          → Grants g.tunnel_id g.server_data_addr)
      → AreGranted Grants s
      → AreGranted Grants (ask_each expected decode x i rs s)
  unfolding ask_each ask leave
  ask_each-AreGranted expected decode x n i [] s size from v = v
  ask_each-AreGranted expected decode x n i (r ∷ rs) s size from v =
      let below : i < n = omega arith in
      ask_each-AreGranted expected decode x n (suc i) rs
        (if s.looping then ask expected decode (x i) r s else s) (omega arith) from
        (if_cases (AreGranted Grants) s.looping (ask expected decode (x i) r s) s
          (λ runs.
            if_cases (AreGranted Grants) (x i).write_ok _ _
              (λ fine.
                read_grant-AreGranted expected decode (x i).answer (say r s)
                  (λ env g. from i env g below fine) v)
              (λ fails. v))
          (λ stopped. v))

  on_register-AreGranted :
      (auth_token name : Str) (o : Opening) (r : Option ClientRegister) (s : Session)
      → AreGranted Grants s
      → AreGranted Grants (on_register auth_token name r o s)
  unfolding on_register welcome leave
  on_register-AreGranted auth_token name o none s v = v
  on_register-AreGranted auth_token name o (some msg) s v =
      if_cases (AreGranted Grants) (not (str_eq msg.auth_token auth_token)) _ _ (λ other. v)
        (λ same. welcome_kept)
    where
      welcome_kept : AreGranted Grants (welcome name msg o s)
      welcome_kept tid addr e = v tid addr (ground arith)

  handshake-AreGranted :
      (d : Decoders) (auth_token name : Str) (o : Opening) (m : Mux)
      → AreGranted Grants (handshake d auth_token name o (new_session m))
  unfolding handshake read_register leave
  handshake-AreGranted d auth_token name o m =
      if_cases (AreGranted Grants) (not o.deadline_ok) _ _ (λ fails. nothing)
        (λ fine. read_kept o.answer)
    where
      nothing : AreGranted Grants (new_session m)
      nothing tid addr e = absurd (ground (arith, lookup-nil {V = Str} tid))

      read_kept :
          (a : Option Envelope)
          → AreGranted Grants (read_register d auth_token name a o (new_session m))
      read_kept none = nothing
      read_kept (some env) =
          if_cases (AreGranted Grants) (not (env.type == msg_client_register)) _ _
            (λ other. nothing)
            (λ same.
              on_register-AreGranted auth_token name o (d.client_register env.payload) _ nothing)

-- One of the `n` requests for TCP tunnels was written and answered with a TunnelResp that says ok,
-- with this tunnel and this address.
abbrev pub IsTcpGrant : Decoders → ℕ → (ℕ → Exchange) → Str → Str → Type 0
IsTcpGrant d n x tid addr =
    (i : ℕ) × (env : Envelope) × (r : TunnelResp) × (i < n)
    × ((x i).write_ok ≡ true)
    × ((x i).answer ≡ some env)
    × (env.type ≡ msg_tunnel_resp)
    × (d.tunnel_resp env.payload ≡ some r)
    × (r.status ≡ codes "ok")
    × (r.tunnel_id ≡ tid)
    × (r.server_data_addr ≡ addr)

-- The same with an HTTPTunnelResp, for HTTP or for HTTPS tunnels.
abbrev pub IsWebGrant : Decoders → ℕ → (ℕ → Exchange) → Str → Str → Type 0
IsWebGrant d n x tid addr =
    (i : ℕ) × (env : Envelope) × (r : HttpTunnelResp) × (i < n)
    × ((x i).write_ok ≡ true)
    × ((x i).answer ≡ some env)
    × (env.type ≡ msg_http_tunnel_resp)
    × (d.http_tunnel_resp env.payload ≡ some r)
    × (r.status ≡ codes "ok")
    × (r.tunnel_id ≡ tid)
    × (r.server_data_addr ≡ addr)

-- The requests are those of the configuration.
abbrev pub IsGranted :
    Decoders → ClientConfig → (ℕ → Exchange) → (ℕ → Exchange) → (ℕ → Exchange) → Str → Str → Type 0
IsGranted d cfg x y z tid addr =
    IsTcpGrant d (length cfg.tunnels) x tid addr
    ⊎ IsWebGrant d (length cfg.http_tunnels) y tid addr
    ⊎ IsWebGrant d (length cfg.https_tunnels) z tid addr

module _ (d : Decoders) (n : ℕ) (x : ℕ → Exchange) (i : ℕ) (env : Envelope) (g : Granted) where
  tcp_granted :
      i < n
      → (x i).write_ok ≡ true
      → (x i).answer ≡ some env
      → env.type ≡ msg_tunnel_resp
      → tunnel_grant d env.payload ≡ some g
      → g.status ≡ codes "ok"
      → IsTcpGrant d n x g.tunnel_id g.server_data_addr
  tcp_granted below sent e same got fine = elim (Option-cases (d.tunnel_resp env.payload)) [
    | inl bad ↦ absurd (ground arith)
    | inr (r, good) ↦
        let from : of_tunnel_resp r ≡ g = ground arith in
        (i, env, r, below, sent, e, same, good, ground arith, ground arith, ground arith)
  ]

  web_granted :
      i < n
      → (x i).write_ok ≡ true
      → (x i).answer ≡ some env
      → env.type ≡ msg_http_tunnel_resp
      → http_tunnel_grant d env.payload ≡ some g
      → g.status ≡ codes "ok"
      → IsWebGrant d n x g.tunnel_id g.server_data_addr
  web_granted below sent e same got fine = elim (Option-cases (d.http_tunnel_resp env.payload)) [
    | inl bad ↦ absurd (ground arith)
    | inr (r, good) ↦
        let from : of_http_tunnel_resp r ≡ g = ground arith in
        (i, env, r, below, sent, e, same, good, ground arith, ground arith, ground arith)
  ]

length-map : {A : Type 0} (f : A → Sent) (xs : List A) → length (map f xs) ≡ length xs
length-map f [] = refl
length-map f (x ∷ xs) = ap suc (length-map f xs)

-- After the three loops every address was granted by a response in one of them.
pub register_tunnels-AreGranted :
    (d : Decoders) (auth_token name : Str) (o : Opening) (cfg : ClientConfig) (x y z : ℕ → Exchange)
    (m : Mux)
    → AreGranted
        (IsGranted d cfg x y z)
        (register_tunnels d cfg x y z (handshake d auth_token name o (new_session m)))
unfolding register_tunnels register_tcp register_http register_https
register_tunnels-AreGranted d auth_token name o cfg x y z m =
    let s0 = handshake d auth_token name o (new_session m) in
    let s1 = register_tcp d cfg x s0 in
    let s2 = register_http d cfg y s1 in
    let granted = IsGranted d cfg x y z in
    let after0 : AreGranted granted s0 = handshake-AreGranted granted d auth_token name o m in
    let after1 : AreGranted granted s1 =
      ask_each-AreGranted granted msg_tunnel_resp (tunnel_grant d) x (length cfg.tunnels) 0
        (map sent_request_tunnel cfg.tunnels) s0
        (omega (arith, length-map sent_request_tunnel cfg.tunnels))
        (λ i env g b w e same got fine. inl (tcp_granted d _ x i env g b w e same got fine))
        after0 in
    let after2 : AreGranted granted s2 =
      ask_each-AreGranted granted msg_http_tunnel_resp (http_tunnel_grant d) y
        (length cfg.http_tunnels) 0 (map sent_request_http_tunnel cfg.http_tunnels) s1
        (omega (arith, length-map sent_request_http_tunnel cfg.http_tunnels))
        (λ i env g b w e same got fine. inr (inl (web_granted d _ y i env g b w e same got fine)))
        after1 in
    ask_each-AreGranted granted msg_http_tunnel_resp (http_tunnel_grant d) z
      (length cfg.https_tunnels) 0 (map sent_request_https_tunnel cfg.https_tunnels) s2
      (omega (arith, length-map sent_request_https_tunnel cfg.https_tunnels))
      (λ i env g b w e same got fine. inr (inr (web_granted d _ z i env g b w e same got fine)))
      after2
