-- ===== src/Tunnel/Manager/Hex.antt =====
-- internal/tunnel/manager.go: the text of a data token.
use reversproxy.Base.{
  ℕ, false, ◌≡◌, ◌≢◌, refl, List, [], ◌∷◌, ◌<◌, ◌/◌, ◌%◌, ◌*◌, some, is_empty, ne-is_empty, length,
  All, arith,
}
use reversproxy.Tunnel.Manager.{hex_digit, hex_encode, new_data_token}

pub new_data_token_filled :
    (bytes : List ℕ) → bytes ≢ [] → is_empty (new_data_token (some bytes)) ≡ false
unfolding new_data_token
new_data_token_filled [] h = absurd (h refl)
new_data_token_filled (b ∷ bs) h = ne-is_empty _ (λ e. cc)

abbrev pub IsByte : ℕ → Type 0
IsByte b = b < 256

length-hex_encode : (bs : List ℕ) → length (hex_encode bs) ≡ 2 * length bs
unfolding hex_encode
length-hex_encode [] = refl
length-hex_encode (b ∷ bs) = omega (arith, length-hex_encode bs)

hex_digit_injective : (a b : ℕ) → a < 16 → b < 16 → hex_digit a ≡ hex_digit b → a ≡ b
unfolding hex_digit
hex_digit_injective a b ha hb e = ground arith

cons-cons_injective :
    (a b c d : ℕ) (xs ys : List ℕ) → a ∷ b ∷ xs ≡ c ∷ d ∷ ys → (a ≡ c) × (b ≡ d) × (xs ≡ ys)
cons-cons_injective a b c d xs ys e = (cc, cc, cc)

hex_encode_injective :
    (cs bs : List ℕ) → All IsByte cs → All IsByte bs → hex_encode cs ≡ hex_encode bs → cs ≡ bs
unfolding hex_encode
hex_encode_injective [] [] ha hb e = refl
hex_encode_injective [] (b ∷ bs) ha hb e = cc
hex_encode_injective (a ∷ cs) [] ha hb e = cc
hex_encode_injective (a ∷ cs) (b ∷ bs) ha hb e =
    let (p, q, r) = cons-cons_injective _ _ _ _ _ _ e in
    let hi : a / 16 ≡ b / 16 = hex_digit_injective _ _ (omega arith) (omega arith) p in
    let lo : a % 16 ≡ b % 16 = hex_digit_injective _ _ (omega arith) (omega arith) q in
    let same : a ≡ b = omega arith in cc (same, hex_encode_injective cs bs ha.1 hb.1 r)

-- A token has two characters for each random byte, and two different draws of the random source
-- give two different tokens.
pub new_data_token_unique :
    (cs bs : List ℕ)
    → All IsByte cs
    → All IsByte bs
    → cs ≢ bs
    → (length (new_data_token (some cs)) ≡ 2 * length cs)
      × (new_data_token (some cs) ≢ new_data_token (some bs))
unfolding new_data_token
new_data_token_unique cs bs ha hb different =
    (length-hex_encode cs, λ e. different (hex_encode_injective cs bs ha hb e))
