-- ===== src/Protocol/Validation/Runs.antt =====
-- Runs of the checks, and their theorems at concrete inputs.
use reversproxy.Base.{
  ◌≤◌, ◌≡◌, ◌≢◌, refl, ◌↔◌, ◌⊎◌, Bool, true, false, [], ◌∷◌, Str, All, codes, length, is_empty,
  arith,
}
use reversproxy.Base.Result.{ok, err}
use reversproxy.Protocol.Validation.{
  outer_hyphen, is_alpha_num, split_dots, validate_domain, validate_target, decode_rune,
}
use reversproxy.Protocol.Validation.Labels.{IsLabel, validate_domain_iff}
use reversproxy.Protocol.Validation.Runes.{validate_domain_truncates, validate_target_ok}

-- In these runs nothing is an IP address.
abbrev never : Str → Bool
never s = false

hyphen_first : validate_domain never (codes "a.-b") ≡ err outer_hyphen
unfolding validate_domain is_empty decode_rune
hyphen_first = refl

good_target : validate_target never (codes "my-host.org") 443 1 ≡ ok tt
unfolding validate_target validate_domain is_empty decode_rune
good_target = refl

validate_domain_iff_example : (validate_domain never (codes "a-b.org") ≡ ok tt) ↔ (
    (codes "a-b.org" ≢ [])
    × ((never (codes "a-b.org") ≡ true)
        ⊎ ((length (codes "a-b.org") ≤ 253) × All IsLabel (split_dots (codes "a-b.org")))))
validate_domain_iff_example = validate_domain_iff never (codes "a-b.org") (omega arith)

-- U+0141, the letter L with stroke, in UTF-8; its low byte is that of `A`.
validate_domain_truncates_example : validate_domain never (0xc5 ∷ 0x81 ∷ []) ≡ ok tt
unfolding is_alpha_num
validate_domain_truncates_example =
    validate_domain_truncates never 0xc5 0x81 (omega arith) (omega arith) (omega arith)
      (omega arith) refl

validate_target_ok_example :
    (validate_domain never (codes "my-host.org") ≡ ok tt) × (1 ≤ 443) × (443 ≤ 65535)
validate_target_ok_example = validate_target_ok never (codes "my-host.org") 443 1 good_target
