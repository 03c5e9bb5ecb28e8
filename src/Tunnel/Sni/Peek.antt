-- ===== src/Tunnel/Sni/Peek.antt =====
-- internal/tunnel/https_proxy.go: the record that is read before a TLS connection is relayed.
use reversproxy.Base.{
  ℕ, ◌+◌, ◌*◌, ◌≤◌, ◌≡◌, ◌≢◌, refl, ap, ◌∙◌, inl, inr, false, not, List, ◌∷◌, ◌++◌, ◌||◌, some, ltb,
  ◌==◌, length, length-append, length-take, take-append-drop, Str, Bool-cases, Option-cases, arith,
}
use mathlib.Core.List.{append_assoc}
use reversproxy.Base.Result.{Result, ok, err}
use reversproxy.Tunnel.Sni.{
  Scan, done, panic, stuck, PeekError, parser_panic, record_too_large, read_full, named, peek_body,
  peek_record, peek_sni, parse_sni_from_client_hello,
}
use reversproxy.Tunnel.Sni.Bounds.{IsDone, parse_sni-IsDone}

-- A peek that succeeds has taken its bytes from the front of the input, and not too many.
abbrev pub Peeks : List ℕ → ℕ → Result PeekError (List ℕ × Str × List ℕ) → Type 0
Peeks input most (ok (peeked, sni, rest)) = (peeked ++ rest ≡ input) × (length peeked ≤ most)
Peeks input most (err e) = (e ≢ parser_panic) × (e ≢ record_too_large)

read_full_lem :
    (n : ℕ) (input front rest : List ℕ)
    → read_full n input ≡ some (front, rest)
    → (front ++ rest ≡ input) × (length front ≡ n)
unfolding read_full
read_full_lem n input front rest h = ground (arith, take-append-drop n input, length-take n input)

module _ (to_lower : Str → Str) where
  named-Peeks :
      (input peeked rest : List ℕ) (most : ℕ) (r : Scan Str)
      → IsDone r
      → peeked ++ rest ≡ input
      → length peeked ≤ most
      → Peeks input most (named to_lower peeked rest r)
  unfolding named
  named-Peeks input peeked rest most (done sni) d e h = (e, h)
  named-Peeks input peeked rest most panic d e h = absurd d
  named-Peeks input peeked rest most stuck d e h = absurd d

  peek_body-Peeks :
      (hdr : List ℕ) (rec_len : ℕ) (input : List ℕ)
      → length hdr ≡ 5
      → rec_len ≤ 16384
      → Peeks (hdr ++ input) 16389 (peek_body to_lower hdr rec_len input)
  unfolding peek_body
  peek_body-Peeks hdr rec_len input five small = elim (Option-cases (read_full rec_len input)) [
    | inl e ↦ rw (e, peek_body) ((λ q. cc), (λ q. cc))
    | inr ((body, rest), e) ↦
        let (whole, len) = read_full_lem rec_len input body rest e in
        rw (e, peek_body)
          (named-Peeks (hdr ++ input) (hdr ++ body) rest 16389
            (parse_sni_from_client_hello to_lower body) (parse_sni-IsDone to_lower body)
            (append_assoc hdr body rest ∙ ap (◌++◌ hdr) whole)
            (omega (arith, length-append hdr body)))
  ]

  peek_record-Peeks :
      (hdr input : List ℕ)
      → length hdr ≡ 5
      → Peeks (hdr ++ input) 16389 (peek_record to_lower hdr input)
  unfolding peek_record
  peek_record-Peeks (kind ∷ major ∷ minor ∷ hi ∷ lo ∷ more) input five =
      let hdr : List ℕ = kind ∷ major ∷ minor ∷ hi ∷ lo ∷ more in
      elim (Bool-cases (not (kind == 0x16))) [
        | inl other ↦ rw other (refl, omega arith)
        | inr tls ↦ elim (Bool-cases (hi * 256 + lo == 0 || ltb 16384 (hi * 256 + lo))) [
          | inl bad ↦ rw (tls, bad) ((λ q. cc), (λ q. cc))
          | inr good ↦
              let small : hi * 256 + lo ≤ 16384 = ground arith in
              let fits : ltb 65536 (5 + (hi * 256 + lo)) ≡ false = ground arith in
              rw (tls, good, fits) (peek_body-Peeks hdr (hi * 256 + lo) input five small)
        ]
      ]
  peek_record-Peeks hdr input five = absurd (omega arith)

  -- The bytes that are peeked and the stream behind them are together the whole stream, so that
  -- replaying the peeked bytes hides nothing from the client; at most 16389 bytes are peeked. The
  -- parser does not panic, and the test against `maxSNIPeekBytes` never fails.
  pub peek_sni-Peeks : (input : List ℕ) → Peeks input 16389 (peek_sni to_lower input)
  unfolding peek_sni
  peek_sni-Peeks input = elim (Option-cases (read_full 5 input)) [
    | inl e ↦ rw (e, peek_sni) ((λ q. cc), (λ q. cc))
    | inr ((hdr, rest), e) ↦
        let (whole, len) = read_full_lem 5 input hdr rest e in
        rw (e, peek_sni, ← whole) (peek_record-Peeks hdr rest len)
  ]
