-- ===== src/Tunnel/Sni/Hello.antt =====
-- internal/tunnel/https_proxy.go: the parser against ClientHello messages as TLS builds them.
use reversproxy.Base.{
  ℕ, zero, suc, ◌+◌, ◌/◌, ◌%◌, ◌≤◌, ◌<◌, ◌≡◌, ◌≢◌, refl, sym, ap, ◌∙◌, List, [], ◌∷◌, ◌++◌, length,
  length-append, All, Str, arith,
}
use mathlib.Core.List.{append-nil}
use reversproxy.Tunnel.Sni.{
  done, walk_names, parse_sni_extension, walk_extensions, skip8, skip16, parse_extensions,
  parse_sni_from_client_hello,
}
use reversproxy.Tunnel.Sni.Cursor.{
  vec8, vec16, At, At-append, At-cons, At-length, At-byte_at, At-slice, At-uint16_at, At-vec16,
  At-skip8, At-skip16, At-vec8_end, At-vec16_end,
}

pub record Extension : Type 0 where
  pub kind : ℕ
  pub body : List ℕ

abbrev pub IsOther : Extension → Type 0
IsOther e = e.kind ≢ 0

abbrev pub encode_extension : Extension → List ℕ
encode_extension e = e.kind / 256 ∷ e.kind % 256 ∷ vec16 e.body

abbrev pub encode_extensions : List Extension → List ℕ → List ℕ
encode_extensions [] more = more
encode_extensions (e ∷ es) more = encode_extension e ++ encode_extensions es more

-- A server_name extension whose first name is the host name, with other names after it.
abbrev pub server_name : Str → List ℕ → Extension
server_name host names = record { kind = 0; body = vec16 (0 ∷ vec16 (host) ++ names) }

At-split :
    (e : Extension) (rest xs : List ℕ) (pos : ℕ)
    → At xs pos (encode_extension e ++ rest)
    → At xs pos
        (e.kind / 256 ∷ e.kind % 256 ∷ length e.body / 256 ∷ length e.body % 256 ∷ (e.body ++ rest))
At-split e rest xs pos at = at

length-encode_extensions :
    (es : List Extension) (xs ys : List ℕ)
    → length (encode_extensions es (xs ++ ys)) ≡ length (encode_extensions es xs) + length ys
length-encode_extensions [] xs ys = length-append xs ys
length-encode_extensions (e ∷ es) xs ys = omega (
  arith,
  length-encode_extensions es xs ys,
  length-append e.body (encode_extensions es (xs ++ ys)),
  length-append e.body (encode_extensions es xs),
)

length-le-encode_extensions :
    (es : List Extension) (xs : List ℕ) → length es ≤ length (encode_extensions es xs)
length-le-encode_extensions [] xs = omega arith
length-le-encode_extensions (e ∷ es) xs =
    omega (arith, length-le-encode_extensions es xs, length-append e.body (encode_extensions es xs))

-- A ClientHello: the message length, version and random bytes, the three fields behind their
-- lengths, the extensions before server_name, the names in it, and the bytes of the extensions
-- after it.
pub record Hello : Type 0 where
  pub len : ℕ × ℕ × ℕ
  pub version_random : List ℕ
  pub session : List ℕ
  pub ciphers : List ℕ
  pub compression : List ℕ
  pub before : List Extension
  pub host : Str
  pub names : List ℕ
  pub later : List ℕ

abbrev pub extensions : Hello → List ℕ
extensions h = encode_extensions h.before (encode_extension (server_name h.host h.names) ++ h.later)

abbrev pub fields : Hello → List ℕ
fields h = vec8 h.session ++ (vec16 h.ciphers ++ (vec8 h.compression ++ vec16 (extensions h)))

abbrev pub encode_hello : Hello → List ℕ
encode_hello h = 1 ∷ h.len.0 ∷ h.len.1 ∷ h.len.2 ∷ (h.version_random ++ fields h)

module _ (to_lower : Str → Str) where
  walk_names-host :
      (fuel : ℕ) (xs : List ℕ) (pos end : ℕ) (host more : List ℕ)
      → At xs pos (0 ∷ vec16 host ++ more)
      → pos + 3 + length host ≤ end
      → walk_names to_lower (suc fuel) xs pos end ≡ done (to_lower host)
  unfolding walk_names
  walk_names-host fuel xs pos end host more at fits = ground (
    arith,
    At-byte_at xs pos 0 _ at,
    At-vec16 xs (pos + 1) host more (At-cons xs pos 0 _ at),
    At-slice xs (pos + 3) host more
        (At-append xs pos (0 ∷ length host / 256 ∷ length host % 256 ∷ []) _ at),
  )

  parse_server_name :
      (host names : List ℕ)
      → parse_sni_extension to_lower (server_name host names).body ≡ done (to_lower host)
  unfolding parse_sni_extension
  parse_server_name host names =
      let list : List ℕ = 0 ∷ vec16 host ++ names in
      let xs : List ℕ = vec16 list in
      ground (
        arith,
        At-vec16 xs 0 list [] ([], sym (append-nil xs), refl),
        walk_names-host (length xs) xs 2 (length xs) host names
            (length list / 256 ∷ length list % 256 ∷ [], refl, refl)
            (omega (arith, length-append host names)),
      )

  walk_extensions_finds :
      (es : List Extension) (fuel : ℕ) (xs : List ℕ) (pos end : ℕ) (host names more : List ℕ)
      → All IsOther es
      → length es < fuel
      → At xs pos (encode_extensions es (encode_extension (server_name host names) ++ more))
      → pos + length (encode_extensions es (encode_extension (server_name host names))) ≤ end
      → walk_extensions to_lower fuel xs pos end ≡ done (to_lower host)
  unfolding walk_extensions
  walk_extensions_finds es zero xs pos end host names more o f at fits = absurd (omega arith)
  walk_extensions_finds [] (suc fuel) xs pos end host names more o f at fits =
      let body : List ℕ = (server_name host names).body in
      ground (
        arith,
        At-uint16_at xs pos 0 0 _ at,
        At-vec16 xs (pos + 2) body more (At-append xs pos (0 ∷ 0 ∷ []) _ at),
        At-slice xs (pos + 4) body more
            (At-append xs pos (0 ∷ 0 ∷ length body / 256 ∷ length body % 256 ∷ []) _ at),
        parse_server_name host names,
      )
  walk_extensions_finds (e ∷ es) (suc fuel) xs pos end host names more (other, o) f at fits =
      let rest : List ℕ =
        encode_extensions es (encode_extension (server_name host names) ++ more) in
      let head : List ℕ =
        e.kind / 256 ∷ e.kind % 256 ∷ length e.body / 256 ∷ length e.body % 256 ∷ [] in
      let next : At xs (pos + 4 + length e.body) rest =
        At-append xs (pos + 4) e.body rest
          (At-append xs pos head (e.body ++ rest) (At-split e rest xs pos at)) in
      ground (
        arith,
        At-uint16_at xs pos (e.kind / 256) (e.kind % 256) _ at,
        At-vec16 xs (pos + 2) e.body rest
            (At-append xs pos (e.kind / 256 ∷ e.kind % 256 ∷ []) _ (At-split e rest xs pos at)),
        length-append e.body (encode_extensions es (encode_extension (server_name host names))),
        walk_extensions_finds es fuel xs (pos + 4 + length e.body) end host names more o
            (omega arith) next,
      )

  parse_extensions_finds :
      (es : List Extension) (xs : List ℕ) (pos : ℕ) (host names more : List ℕ)
      → All IsOther es
      → At xs pos (vec16 (encode_extensions es (encode_extension (server_name host names) ++ more)))
      → parse_extensions to_lower xs pos ≡ done (to_lower host)
  unfolding parse_extensions
  parse_extensions_finds es xs pos host names more o at =
      let found : List ℕ = encode_extension (server_name host names) in
      let list : List ℕ = encode_extensions es (found ++ more) in
      let at' : At xs pos (vec16 list ++ []) =
        (at.0, at.1 ∙ ap (◌++◌ at.0) (sym (append-nil (vec16 list))), at.2) in
      ground (
        arith,
        At-vec16 xs pos list [] at',
        At-length xs pos (vec16 list) at,
        length-encode_extensions es found more,
        length-le-encode_extensions es (found ++ more),
        walk_extensions_finds es (suc (length xs)) xs (pos + 2) (length xs) host names more o
            (omega (
              arith,
              At-length xs pos (vec16 list) at,
              length-le-encode_extensions es (found ++ more),
            ))
            (At-append xs pos (length list / 256 ∷ length list % 256 ∷ []) list at)
            (omega
              (arith, At-length xs pos (vec16 list) at, length-encode_extensions es found more)),
      )

  -- A ClientHello of any session, cipher suites and compression methods, with any extensions of
  -- other kinds before server_name and any bytes after it, is read as its host name in lower
  -- case.
  pub parse_sni-encode_hello :
      (h : Hello)
      → length h.version_random ≡ 34
      → All IsOther h.before
      → parse_sni_from_client_hello to_lower (encode_hello h) ≡ done (to_lower h.host)
  unfolding parse_sni_from_client_hello
  parse_sni-encode_hello h n o =
      let xs : List ℕ = encode_hello h in
      let p : ℕ = 38 + 1 + length h.session in
      let q : ℕ = p + 2 + length h.ciphers in
      let start : At xs 38 (fields h) =
        (1 ∷ h.len.0 ∷ h.len.1 ∷ h.len.2 ∷ h.version_random, refl, omega arith) in
      let at_ciphers : At xs p _ = At-vec8_end xs 38 h.session _ start in
      let at_methods : At xs q _ = At-vec16_end xs p h.ciphers _ at_ciphers in
      let at_exts : At xs (q + 1 + length h.compression) _ =
        At-vec8_end xs q h.compression (vec16 (extensions h)) at_methods in
      ground (
        arith,
        length-append h.version_random (fields h),
        At-byte_at xs 0 1 _ ([], refl, refl),
        At-skip8 xs 38 h.session _
            (λ (a : ℕ). skip16 xs a (λ b. skip8 xs b (parse_extensions to_lower xs))) start,
        At-skip16 xs p h.ciphers _ (λ (b : ℕ). skip8 xs b (parse_extensions to_lower xs))
            at_ciphers,
        At-skip8 xs q h.compression _ (parse_extensions to_lower xs) at_methods,
        parse_extensions_finds h.before xs _ h.host h.names h.later o at_exts,
      )
