-- ===== src/Protocol/Validation/Runes.antt =====
-- internal/protocol/validation.go: domains with bytes outside ASCII, over which the loop ranges by
-- runes, and targets.
use reversproxy.Base.{
  ℕ, zero, suc, ◌+◌, ◌-◌, ◌*◌, ◌%◌, ◌≤◌, ◌≡◌, ◌≢◌, refl, Bool, true, false, ◌&&◌, ◌||◌, List, [],
  ◌∷◌, if◌then◌else◌, ltb, leb, ◌==◌, length, drop, length-drop, Str, is_empty, arith,
}
use reversproxy.Base.Result.{Result, ok, err, ◌>>◌}
use reversproxy.Protocol.Validation.{
  ValidationError, out_of_fuel, decode_rune, two_bytes, three_bytes, four_bytes, is_alpha_num,
  check_rune, check_runes, cons_first, split_dots, check_label, check_labels, validate_domain,
  validate_port, validate_target,
}

two_bytes-width : (a : ℕ) (rest : List ℕ) → 1 ≤ (two_bytes a rest).1
unfolding two_bytes
two_bytes-width a [] = omega arith
two_bytes-width a (b ∷ rest) = ground arith

three_bytes-width : (lo hi a : ℕ) (rest : List ℕ) → 1 ≤ (three_bytes lo hi a rest).1
unfolding three_bytes
three_bytes-width lo hi a [] = omega arith
three_bytes-width lo hi a (b ∷ []) = omega arith
three_bytes-width lo hi a (b ∷ c ∷ rest) = ground arith

four_bytes-width : (lo hi a : ℕ) (rest : List ℕ) → 1 ≤ (four_bytes lo hi a rest).1
unfolding four_bytes
four_bytes-width lo hi a [] = omega arith
four_bytes-width lo hi a (b ∷ []) = omega arith
four_bytes-width lo hi a (b ∷ c ∷ []) = omega arith
four_bytes-width lo hi a (b ∷ c ∷ d ∷ rest) = ground arith

if_holds {ℓ κ} :
    {A : Type ℓ} (P : A → Type κ) (b : Bool) (x y : A) → P x → P y → P (if b then x else y)
if_holds P true x y p q = p
if_holds P false x y p q = q

-- Every rune takes a byte at least, also where the bytes are not UTF-8.
decode_rune-width : (a : ℕ) (rest : List ℕ) → 1 ≤ (decode_rune a rest).1
unfolding decode_rune
decode_rune-width a rest =
    let Takes : ℕ × ℕ → Type 0 = λ r. 1 ≤ r.1 in
    let one : 1 ≤ 1 = omega arith in
    if_holds Takes (ltb a 0x80) _ _ one (
      if_holds Takes (leb 0xc2 a && leb a 0xdf) _ _ (two_bytes-width a rest) (
        if_holds Takes (a == 0xe0) _ _ (three_bytes-width 0xa0 0xbf a rest) (
          if_holds Takes (a == 0xed) _ _ (three_bytes-width 0x80 0x9f a rest) (
            if_holds Takes (leb 0xe1 a && leb a 0xef) _ _ (three_bytes-width 0x80 0xbf a rest) (
              if_holds Takes (a == 0xf0) _ _ (four_bytes-width 0x90 0xbf a rest) (
                if_holds Takes (a == 0xf4) _ _ (four_bytes-width 0x80 0x8f a rest) (
                  if_holds Takes (leb 0xf1 a && leb a 0xf3) _ _ (four_bytes-width 0x80 0xbf a rest)
                    one)))))))

abbrev IsFuelled : Result ValidationError (Unit {0}) → Type 0
IsFuelled r = r ≢ err out_of_fuel

check_rune-IsFuelled : (len i c : ℕ) → IsFuelled (check_rune len i c)
unfolding check_rune
check_rune-IsFuelled len i c = ground arith

seq-IsFuelled :
    (m k : Result ValidationError (Unit {0})) → IsFuelled m → IsFuelled k → IsFuelled (m >> k)
seq-IsFuelled (ok tt) k p q = q
seq-IsFuelled (err e) k p q = p

check_runes-IsFuelled :
    (fuel len i : ℕ) (xs : List ℕ) → length xs ≤ fuel → IsFuelled (check_runes fuel len i xs)
unfolding check_runes
check_runes-IsFuelled fuel len i [] h = λ e. cc
check_runes-IsFuelled zero len i (a ∷ rest) h = absurd (omega arith)
check_runes-IsFuelled (suc fuel) len i (a ∷ rest) h =
    let w : ℕ = (decode_rune a rest).1 in
    seq-IsFuelled _ _ (check_rune-IsFuelled len i (decode_rune a rest).0) (
      check_runes-IsFuelled fuel len (i + w) (drop w (a ∷ rest))
        (omega (arith, length-drop w (a ∷ rest), decode_rune-width a rest)))

check_labels-IsFuelled : (ls : List Str) → IsFuelled (check_labels ls)
unfolding check_labels check_label
check_labels-IsFuelled [] = λ e. cc
check_labels-IsFuelled (l ∷ ls) =
    seq-IsFuelled _ _
      (if_holds IsFuelled (length l == 0 || ltb 63 (length l)) _ _ (λ e. cc)
        (check_runes-IsFuelled (length l) (length l) 0 l (omega arith)))
      (check_labels-IsFuelled ls)

abbrev low_rune : ℕ → ℕ → ℕ
low_rune a b = (a - 0xc0) * 64 + (b - 0x80)

module _ (a b : ℕ) (h1 : 0xc2 ≤ a) (h2 : a ≤ 0xdf) (h3 : 0x80 ≤ b) (h4 : b ≤ 0xbf) where
  decode_two : decode_rune a (b ∷ []) ≡ (low_rune a b, 2)
  unfolding decode_rune two_bytes
  decode_two = ground arith

  split_two : split_dots (a ∷ b ∷ []) ≡ (a ∷ b ∷ []) ∷ []
  unfolding split_dots cons_first
  split_two =
      let no_dot_a : (a == b'.') ≡ false = ground arith in
      let no_dot_b : (b == b'.') ≡ false = ground arith in rw (no_dot_a, no_dot_b)

  check_two : is_alpha_num (low_rune a b % 256) ≡ true → check_label (a ∷ b ∷ []) ≡ ok tt
  unfolding check_label check_runes check_rune
  check_two letter =
      let no_hyphen : (low_rune a b == b'-') ≡ false = ground arith in
      rw (decode_two, letter, no_hyphen)

module _ (is_ip : Str → Bool) where
  -- On any bytes the loops of the check come to their end.
  pub validate_domain-IsFuelled : (d : Str) → validate_domain is_ip d ≢ err out_of_fuel
  unfolding validate_domain
  validate_domain-IsFuelled d =
      if_holds IsFuelled (is_empty d) _ _ (λ e. cc)
        (if_holds IsFuelled (is_ip d) _ _ (λ e. cc)
          (if_holds IsFuelled (ltb 253 (length d)) _ _ (λ e. cc)
            (check_labels-IsFuelled (split_dots d))))

  -- The check looks at the low byte of a rune only: a domain of one rune of two bytes, which is no
  -- letter or digit of ASCII, is accepted whenever its low byte is that of a letter or digit.
  pub validate_domain_truncates :
      (a b : ℕ)
      → 0xc2 ≤ a
      → a ≤ 0xdf
      → 0x80 ≤ b
      → b ≤ 0xbf
      → is_alpha_num (((a - 0xc0) * 64 + (b - 0x80)) % 256) ≡ true
      → validate_domain is_ip (a ∷ b ∷ []) ≡ ok tt
  unfolding validate_domain is_empty check_labels
  validate_domain_truncates a b h1 h2 h3 h4 letter =
      rw (split_two a b h1 h2 h3 h4, check_labels, check_two a b h1 h2 h3 h4 letter)
        (if_holds (λ r. r ≡ ok tt) (is_ip (a ∷ b ∷ [])) (ok tt) (ok tt) refl refl)

  -- An accepted target has an accepted host and a port in the range.
  pub validate_target_ok :
      (host : Str) (port min_port : ℕ)
      → validate_target is_ip host port min_port ≡ ok tt
      → (validate_domain is_ip host ≡ ok tt) × (min_port ≤ port) × (port ≤ 65535)
  unfolding validate_target validate_port
  validate_target_ok host port min_port e = (ground arith, ground arith, ground arith)
