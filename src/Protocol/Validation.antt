-- ===== src/Protocol/Validation.antt =====
-- internal/protocol/validation.go: host names, ports and targets.
pub mod Labels
pub mod Runes
mod Runs
use reversproxy.Base.{
  ℕ, zero, suc, ◌+◌, ◌-◌, ◌*◌, ◌/◌, ◌%◌, ◌≡◌, Bool, true, false, not, ◌&&◌, ◌||◌, List, [], ◌∷◌,
  Option, none, some, if◌then◌else◌, ltb, leb, ◌==◌, length, drop, Str, is_empty,
}
use reversproxy.Base.Result.{Result, ok, err, ◌>>=◌, ◌>>◌}

pub data ValidationError : Type 0 where
  empty_domain domain_too_long label_length bad_character outer_hyphen : ValidationError
  port_range : ValidationError
  -- No error of the source: the loop over a label ran out of rounds.
  out_of_fuel : ValidationError

-- A rune and the number of bytes that it takes.
abbrev Rune : Type 0
Rune = ℕ × ℕ

-- What Go's `range` yields for a byte sequence that is not UTF-8.
abbrev rune_error : Rune
rune_error = (0xfffd, 1)

-- A continuation byte in a range; the general range is 0x80 to 0xbf.
abbrev between : ℕ → ℕ → ℕ → Bool
between lo hi b = leb lo b && leb b hi

two_bytes : ℕ → List ℕ → Rune
two_bytes a (b ∷ rest) =
    if between 0x80 0xbf b then ((a - 0xc0) * 64 + (b - 0x80), 2) else rune_error
two_bytes a [] = rune_error

three_bytes : ℕ → ℕ → ℕ → List ℕ → Rune
three_bytes lo hi a (b ∷ c ∷ rest) =
    if between lo hi b && between 0x80 0xbf c
    then (((a - 0xe0) * 64 + (b - 0x80)) * 64 + (c - 0x80), 3)
    else rune_error
three_bytes lo hi a _ = rune_error

four_bytes : ℕ → ℕ → ℕ → List ℕ → Rune
four_bytes lo hi a (b ∷ c ∷ d ∷ rest) =
    if between lo hi b && between 0x80 0xbf c && between 0x80 0xbf d
    then ((((a - 0xf0) * 64 + (b - 0x80)) * 64 + (c - 0x80)) * 64 + (d - 0x80), 4)
    else rune_error
four_bytes lo hi a _ = rune_error

-- The rune at the front of a string that starts with the byte `a`, as `range` decodes it.
unfoldable pub decode_rune : ℕ → List ℕ → Rune
unfolding two_bytes three_bytes four_bytes
decode_rune a rest =
    if ltb a 0x80
    then (a, 1)
    else (if between 0xc2 0xdf a
        then two_bytes a rest
        else (if a == 0xe0
            then three_bytes 0xa0 0xbf a rest
            else (if a == 0xed
                then three_bytes 0x80 0x9f a rest
                else (if between 0xe1 0xef a
                    then three_bytes 0x80 0xbf a rest
                    else (if a == 0xf0
                        then four_bytes 0x90 0xbf a rest
                        else (if a == 0xf4
                            then four_bytes 0x80 0x8f a rest
                            else (if between 0xf1 0xf3 a
                                then four_bytes 0x80 0xbf a rest
                                else rune_error)))))))

pub is_alpha_num : ℕ → Bool
is_alpha_num c = between b'a' b'z' c || between b'A' b'Z' c || between b'0' b'9' c

-- The body of the loop over the runes of a label: `i` is the index of the rune's first byte.
check_rune : ℕ → ℕ → ℕ → Result ValidationError (Unit {0})
unfolding is_alpha_num
check_rune len i c =
    if not (is_alpha_num (c % 256)) && not (c == b'-')
    then err bad_character
    else (if c == b'-' && (i == 0 || i == len - 1) then err outer_hyphen else ok tt)

-- The loop; each round takes a byte at least, so as many rounds as there are bytes are enough.
pub check_runes : ℕ → ℕ → ℕ → Str → Result ValidationError (Unit {0})
unfolding check_rune
check_runes fuel len i [] = ok tt
check_runes zero len i (a ∷ rest) = err out_of_fuel
check_runes (suc fuel) len i (a ∷ rest) =
    let width = (decode_rune a rest).1 in
    check_rune len i (decode_rune a rest).0
    >> check_runes fuel len (i + width) (drop width (a ∷ rest))

cons_first : ℕ → List Str → List Str
cons_first a [] = (a ∷ []) ∷ []
cons_first a (p ∷ ps) = (a ∷ p) ∷ ps

-- strings.Split(domain, "."): one piece more than there are dots.
pub split_dots : Str → List Str
unfolding cons_first
split_dots [] = [] ∷ []
split_dots (c ∷ cs) = if c == b'.' then [] ∷ split_dots cs else cons_first c (split_dots cs)

pub check_label : Str → Result ValidationError (Unit {0})
unfolding check_runes
check_label label =
    if length label == 0 || ltb 63 (length label)
    then err label_length
    else check_runes (length label) (length label) 0 label

pub check_labels : List Str → Result ValidationError (Unit {0})
unfolding check_label
check_labels [] = ok tt
check_labels (l ∷ ls) = check_label l >> check_labels ls

-- net.ParseIP(s) != nil is the argument `is_ip`.
module _ (is_ip : Str → Bool) where
  unfoldable pub validate_domain : Str → Result ValidationError (Unit {0})
  unfolding check_labels split_dots
  validate_domain domain =
      if is_empty domain
      then err empty_domain
      else (if is_ip domain
          then ok tt
          else (if ltb 253 (length domain)
              then err domain_too_long
              else check_labels (split_dots domain)))

-- Ports are natural numbers; a negative one would fail like 0 below a positive `min_port`.
pub validate_port : ℕ → ℕ → Result ValidationError (Unit {0})
validate_port port min_port = if ltb port min_port || ltb 65535 port then err port_range else ok tt

unfoldable pub validate_target : (Str → Bool) → Str → ℕ → ℕ → Result ValidationError (Unit {0})
unfolding validate_port
validate_target is_ip host port min_port = validate_domain is_ip host >> validate_port port min_port
