-- ===== src/Protocol/Validation/Labels.antt =====
-- internal/protocol/validation.go: which domains are accepted.
use reversproxy.Base.{
  ℕ, zero, suc, ◌+◌, ◌-◌, ◌%◌, ◌≤◌, ◌<◌, ◌≡◌, ◌≢◌, refl, ◌↔◌, ◌⊎◌, inl, inr, Bool, true, List, [],
  ◌∷◌, some, ◌==◌, length, get_elem?, All, Str, Bool-cases, is_empty_ne, ne-is_empty, arith,
}
use reversproxy.Base.Result.{Result, ok, err, ◌>>◌}
use reversproxy.Protocol.Validation.{
  decode_rune, is_alpha_num, check_rune, check_runes, cons_first, split_dots, check_label,
  check_labels, validate_domain,
}

abbrev pub IsAscii : ℕ → Type 0
IsAscii c = c < 128

abbrev pub IsLetter : ℕ → Type 0
IsLetter c = ((b'a' ≤ c) × (c ≤ b'z')) ⊎ ((b'A' ≤ c) × (c ≤ b'Z'))

abbrev pub IsDigit : ℕ → Type 0
IsDigit c = (b'0' ≤ c) × (c ≤ b'9')

-- A letter or a digit, or a hyphen that is neither first nor last of `len` characters.
abbrev pub IsGoodAt : ℕ → ℕ → ℕ → Type 0
IsGoodAt len i c = IsLetter c ⊎ IsDigit c ⊎ ((c ≡ b'-') × (i ≢ 0) × (i ≢ len - 1))

-- 1 to 63 characters, each good at its place.
abbrev pub IsLabel : Str → Type 0
IsLabel l =
    (1 ≤ length l)
    × (length l ≤ 63)
    × ((i c : ℕ) → get_elem? l i ≡ some c → IsGoodAt (length l) i c)

is_alpha_num_sound : (c : ℕ) → is_alpha_num c ≡ true → IsLetter c ⊎ IsDigit c
unfolding is_alpha_num
is_alpha_num_sound c e = ground arith

is_alpha_num_complete : (c : ℕ) → IsLetter c ⊎ IsDigit c → is_alpha_num c ≡ true
unfolding is_alpha_num
is_alpha_num_complete c e = ground arith

check_rune_sound : (len i c : ℕ) → IsAscii c → check_rune len i c ≡ ok tt → IsGoodAt len i c
unfolding check_rune
check_rune_sound len i c h e = elim (Bool-cases (is_alpha_num c)) [
  | inl good ↦ let plain : IsLetter c ⊎ IsDigit c = is_alpha_num_sound c good in ground arith
  | inr other ↦ let same : c % 256 ≡ c = omega arith in inr (ground arith)
]

check_rune_complete : (len i c : ℕ) → IsAscii c → IsGoodAt len i c → check_rune len i c ≡ ok tt
unfolding check_rune is_alpha_num
check_rune_complete len i c h g = let same : c % 256 ≡ c = omega arith in ground arith

decode_rune_ascii : (a : ℕ) (rest : List ℕ) → IsAscii a → decode_rune a rest ≡ (a, 1)
unfolding decode_rune
decode_rune_ascii a rest h = ground arith

check_runes-step :
    (fuel len i a : ℕ) (rest : List ℕ)
    → IsAscii a
    → check_runes (suc fuel) len i (a ∷ rest)
      ≡ (check_rune len i a >> check_runes fuel len (i + 1) rest)
unfolding check_runes
check_runes-step fuel len i a rest h = rw (decode_rune_ascii a rest h)

seq-ok : {E : Type 0} (m k : Result E (Unit {0})) → (m >> k) ≡ ok tt → (m ≡ ok tt) × (k ≡ ok tt)
seq-ok (ok tt) k e = (refl, e)
seq-ok (err x) k e = cc

check_runes_sound :
    (xs : List ℕ) (fuel len i : ℕ)
    → All IsAscii xs
    → length xs ≤ fuel
    → check_runes fuel len i xs ≡ ok tt
    → (j c : ℕ) → get_elem? xs j ≡ some c
    → IsGoodAt len (i + j) c
check_runes_sound [] fuel len i h f e j c g = cc
check_runes_sound (a ∷ xs) zero len i h f e j c g = absurd (omega arith)
check_runes_sound (a ∷ xs) (suc fuel) len i (h, hs) f e zero c g =
    let now : check_rune len i a ≡ ok tt =
      (seq-ok _ (check_runes fuel len (i + 1) xs)
        (rw (check_runes-step fuel len i a xs h) at e)).0 in
    let good : IsGoodAt len i a = check_rune_sound len i a h now in ground arith
check_runes_sound (a ∷ xs) (suc fuel) len i (h, hs) f e (suc j) c g =
    let later : check_runes fuel len (i + 1) xs ≡ ok tt =
      (seq-ok (check_rune len i a) _ (rw (check_runes-step fuel len i a xs h) at e)).1 in
    let good : IsGoodAt len (i + 1 + j) c =
      check_runes_sound xs fuel len (i + 1) hs (omega arith) later j c g in
    ground arith

check_runes_complete :
    (xs : List ℕ) (fuel len i : ℕ)
    → All IsAscii xs
    → length xs ≤ fuel
    → ((j c : ℕ) → get_elem? xs j ≡ some c → IsGoodAt len (i + j) c)
    → check_runes fuel len i xs ≡ ok tt
check_runes_complete [] fuel len i h f good = unfold check_runes in refl
check_runes_complete (a ∷ xs) zero len i h f good = absurd (omega arith)
check_runes_complete (a ∷ xs) (suc fuel) len i (h, hs) f good =
    let first : IsGoodAt len i a = let g : IsGoodAt len (i + 0) a = good 0 a refl in ground arith in
    rw (check_runes-step fuel len i a xs h, check_rune_complete len i a h first)
      (check_runes_complete xs fuel len (i + 1) hs (omega arith)
        λ j c g. let next : IsGoodAt len (i + suc j) c = good (suc j) c g in ground arith)

check_label_sound : (l : Str) → All IsAscii l → check_label l ≡ ok tt → IsLabel l
unfolding check_label
check_label_sound l h e =
    let run : check_runes (length l) (length l) 0 l ≡ ok tt = ground arith in
    (
      ground arith,
      ground arith,
      λ i c g.
          let good : IsGoodAt (length l) (0 + i) c =
            check_runes_sound l (length l) (length l) 0 h (omega arith) run i c g in
          ground arith,
    )

check_label_complete : (l : Str) → All IsAscii l → IsLabel l → check_label l ≡ ok tt
unfolding check_label
check_label_complete l h (some_char, short, good) = ground (
  arith,
  check_runes_complete l (length l) (length l) 0 h (omega arith)
      λ (i : ℕ) (c : ℕ) (g : get_elem? l i ≡ some c).
        let at_i : IsGoodAt (length l) i c = good i c g in
        let shifted : IsGoodAt (length l) (0 + i) c = ground arith in shifted,
)

check_labels_sound :
    (ls : List Str) → All (All IsAscii) ls → check_labels ls ≡ ok tt → All IsLabel ls
unfolding check_labels
check_labels_sound [] h e = tt
check_labels_sound (l ∷ ls) (h, hs) e =
    let (now, later) = seq-ok (check_label l) _ e in
    (check_label_sound l h now, check_labels_sound ls hs later)

check_labels_complete :
    (ls : List Str) → All (All IsAscii) ls → All IsLabel ls → check_labels ls ≡ ok tt
unfolding check_labels
check_labels_complete [] h g = refl
check_labels_complete (l ∷ ls) (h, hs) (g, gs) =
    rw (check_label_complete l h g) (check_labels_complete ls hs gs)

split_dots-IsAscii : (d : Str) → All IsAscii d → All (All IsAscii) (split_dots d)
unfolding split_dots
split_dots-IsAscii [] h = (tt, tt)
split_dots-IsAscii (c ∷ cs) (h, hs) = elim (Bool-cases (c == b'.')) [
  | inl dot ↦ rw dot (tt, split_dots-IsAscii cs hs)
  | inr other ↦ rw other (cons_first-IsAscii c (split_dots cs) h (split_dots-IsAscii cs hs))
]
  where
    cons_first-IsAscii :
        (a : ℕ) (ps : List Str)
        → IsAscii a
        → All (All IsAscii) ps
        → All (All IsAscii) (cons_first a ps)
    cons_first-IsAscii a [] h p = ((h, tt), tt)
    cons_first-IsAscii a (q ∷ qs) h (p, ps) = ((h, p), ps)

module _ (is_ip : Str → Bool) where
  -- An ASCII domain is accepted exactly when it is not empty and either the library reads it as an IP
  -- address, or it has at most 253 characters and each piece between dots is a label.
  pub validate_domain_iff :
      (d : Str)
      → All IsAscii d
      → (validate_domain is_ip d ≡ ok tt)
        ↔ ((d ≢ []) × ((is_ip d ≡ true) ⊎ ((length d ≤ 253) × All IsLabel (split_dots d))))
  unfolding validate_domain
  validate_domain_iff d h = (
    (λ e. (
      is_empty_ne d (ground arith),
      elim (Bool-cases (is_ip d)) [
        | inl ip ↦ inl ip
        | inr name ↦ inr (
          ground arith,
          check_labels_sound (split_dots d) (split_dots-IsAscii d h) (ground arith),
        )
      ],
    )),
    λ (filled, r). accepts filled r,
  )
    where
      accepts :
          d ≢ []
          → (is_ip d ≡ true) ⊎ ((length d ≤ 253) × All IsLabel (split_dots d))
          → validate_domain is_ip d ≡ ok tt
      accepts filled (inl ip) = ground (arith, ne-is_empty d filled)
      accepts filled (inr (short, labels)) = ground (
        arith,
        ne-is_empty d filled,
        check_labels_complete (split_dots d) (split_dots-IsAscii d h) labels,
      )
