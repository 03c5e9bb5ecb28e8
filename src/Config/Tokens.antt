-- ===== src/Config/Tokens.antt =====
-- internal/config/config.go: what a configuration that passes the check promises.
use reversproxy.Base.{
  ◌≡◌, ◌≢◌, ap, ◌↔◌, Str, codes, str_eq, str_eq_refl, str_eq_ne, is_empty_ne, ne-is_empty, All-map,
  refl, sym, ◌∙◌, inl, inr, false, List, [], ◌∷◌, none, some, Bool-cases, All, arith,
}
use reversproxy.Config.{
  ClientTarget, ServerConfig, weak_token, is_weak_token, validate_clients, validate_security,
  effective_token,
}

-- A token that is neither empty nor the well-known default.
abbrev pub IsSecret : Str → Type 0
IsSecret token = (token ≢ []) × (token ≢ codes "changeme")

-- The server's own token and the token with which it dials each client.
abbrev pub IsStrong : {Float : Type 0} → ServerConfig Float → Type 0
IsStrong cfg = IsSecret cfg.auth_token × All (λ c. IsSecret (effective_token cfg c)) cfg.clients

is_weak_token_sound : (token : Str) → is_weak_token token ≡ false → IsSecret token
unfolding is_weak_token
is_weak_token_sound token e = (
  is_empty_ne token (ground arith),
  λ same. absurd (ground (arith, ap (str_eq token) same, str_eq_refl token)),
)

is_weak_token_complete : (token : Str) → IsSecret token → is_weak_token token ≡ false
unfolding is_weak_token
is_weak_token_complete token (filled, other) =
    ground (arith, ne-is_empty token filled, str_eq_ne token (codes "changeme") other)

module _ {Float : Type 0} (cfg : ServerConfig Float)
    (strong : is_weak_token cfg.auth_token ≡ false) where
  validate_clients-strong :
      (cs : List ClientTarget)
      → validate_clients cs ≡ none
      → All (λ c. is_weak_token (effective_token cfg c) ≡ false) cs
  unfolding validate_clients effective_token
  validate_clients-strong [] e = tt
  validate_clients-strong (c ∷ cs) e = (ground arith, validate_clients-strong cs (ground arith))

  strong-validate_clients :
      (cs : List ClientTarget)
      → All (λ c. is_weak_token (effective_token cfg c) ≡ false) cs
      → validate_clients cs ≡ none
  unfolding validate_clients effective_token
  strong-validate_clients [] h = refl
  strong-validate_clients (c ∷ cs) (fine, h) = ground (arith, strong-validate_clients cs h)

-- Without the development mode, a configuration passes the check exactly when the server's token is
-- neither empty nor the well-known default and neither is the token with which the server dials any
-- of its clients, be it the client's own or the one that it inherits.
pub validate_security_iff :
    {Float : Type 0} (cfg : ServerConfig Float)
    → cfg.insecure ≡ false
    → (validate_security cfg ≡ none) ↔ IsStrong cfg
unfolding validate_security
validate_security_iff cfg secure = elim (Bool-cases (is_weak_token cfg.auth_token)) [
  | inl weak ↦
      let refused : validate_security cfg ≡ some weak_token = ground arith in
      (λ e. absurd cc, λ h. absurd (let z = is_weak_token_complete cfg.auth_token h.0 in cc))
  | inr strong ↦
      let same : validate_security cfg ≡ validate_clients cfg.clients = ground arith in
      (
        λ e. (
          is_weak_token_sound cfg.auth_token strong,
          All-map (λ c. is_weak_token_sound (effective_token cfg c)) cfg.clients
              (validate_clients-strong cfg strong cfg.clients (sym same ∙ e)),
        ),
        λ h.
            same
            ∙ strong-validate_clients cfg strong cfg.clients
                (All-map (λ c. is_weak_token_complete (effective_token cfg c)) cfg.clients h.1),
      )
]
