-- ===== src/Tunnel/Sni/Bounds.antt =====
-- internal/tunnel/https_proxy.go: the parser stays within the bytes that it is given, and ends.
use reversproxy.Base.{
  ℕ, zero, suc, ◌+◌, ◌-◌, ◌≤◌, ◌<◌, ◌≡◌, refl, Bool, true, false, not, List, [], ◌∷◌, if◌then◌else◌,
  ltb, leb, ◌==◌, length, take, drop, length-take, length-drop, Str, leb→le, arith,
}
use reversproxy.Tunnel.Sni.{
  Scan, done, panic, stuck, ◌>>=◌, byte_at, slice, uint16, uint16_at, walk_names,
  parse_sni_extension, walk_extensions, skip8, skip16, parse_extensions,
  parse_sni_from_client_hello,
}

abbrev pub IsDone : {A : Type 0} → Scan A → Type 0
IsDone (done a) = Unit {0}
IsDone panic = ⊥
IsDone stuck = ⊥

bind-IsDone :
    {A B : Type 0} (m : Scan A) (f : A → Scan B)
    → IsDone m
    → ((a : A) → m ≡ done a → IsDone (f a))
    → IsDone (m >>= f)
bind-IsDone (done a) f d k = k a refl
bind-IsDone panic f d k = d
bind-IsDone stuck f d k = d

if-IsDone :
    {A : Type 0} (b : Bool) (x y : Scan A)
    → (b ≡ true → IsDone x)
    → (b ≡ false → IsDone y)
    → IsDone (if b then x else y)
if-IsDone true x y p q = p refl
if-IsDone false x y p q = q refl

pub byte_at-IsDone : (xs : List ℕ) (pos : ℕ) → pos < length xs → IsDone (byte_at xs pos)
unfolding byte_at
byte_at-IsDone [] pos h = absurd (omega arith)
byte_at-IsDone (x ∷ xs) zero h = tt
byte_at-IsDone (x ∷ xs) (suc pos) h = byte_at-IsDone xs pos (omega arith)

pub slice_lem :
    (xs : List ℕ) (lo hi : ℕ)
    → lo ≤ hi
    → hi ≤ length xs
    → slice xs lo hi ≡ done (take (hi - lo) (drop lo xs))
unfolding slice
slice_lem xs lo hi h k = ground arith

uint16-IsDone : (xs : List ℕ) → 2 ≤ length xs → IsDone (uint16 xs)
unfolding uint16
uint16-IsDone [] h = absurd (omega arith)
uint16-IsDone (x ∷ []) h = absurd (omega arith)
uint16-IsDone (x ∷ y ∷ xs) h = tt

uint16_at-IsDone : (xs : List ℕ) (pos : ℕ) → pos + 2 ≤ length xs → IsDone (uint16_at xs pos)
unfolding uint16_at
uint16_at-IsDone xs pos h = rw (slice_lem xs pos (pos + 2) (omega arith) h) (
    uint16-IsDone (take (pos + 2 - pos) (drop pos xs))
      (omega (arith, length-take (pos + 2 - pos) (drop pos xs), length-drop pos xs)))

slice-IsDone : (xs : List ℕ) (lo hi : ℕ) → lo ≤ hi → hi ≤ length xs → IsDone (slice xs lo hi)
slice-IsDone xs lo hi h k = rw (slice_lem xs lo hi h k) tt

module _ (to_lower : Str → Str) where
  walk_names-IsDone :
      (fuel : ℕ) (xs : List ℕ) (pos end : ℕ)
      → end ≤ length xs
      → pos ≤ length xs
      → length xs < fuel + pos
      → IsDone (walk_names to_lower fuel xs pos end)
  unfolding walk_names
  walk_names-IsDone zero xs pos end h k f = absurd (omega arith)
  walk_names-IsDone (suc fuel) xs pos end h k f =
      if-IsDone (leb (pos + 3) end) _ _
        (λ fits.
          let room : pos + 3 ≤ end = leb→le (pos + 3) end fits in
          bind-IsDone (byte_at xs pos) _ (byte_at-IsDone xs pos (omega arith)) λ kind _.
            bind-IsDone (uint16_at xs (pos + 1)) _ (uint16_at-IsDone xs (pos + 1) (omega arith))
              λ n _.
                if-IsDone (ltb end (pos + 3 + n)) _ _ (λ _. tt)
                  λ inside.
                    if-IsDone (kind == 0) _ _
                      (λ _.
                        bind-IsDone (slice xs (pos + 3) (pos + 3 + n)) _
                          (slice-IsDone xs _ _ (omega arith) (ground arith)) (λ _ _. tt))
                      (λ _.
                        walk_names-IsDone fuel xs (pos + 3 + n) end h (ground arith) (omega arith)))
        (λ _. tt)

  parse_sni_extension-IsDone : (xs : List ℕ) → IsDone (parse_sni_extension to_lower xs)
  unfolding parse_sni_extension
  parse_sni_extension-IsDone xs =
      if-IsDone (ltb (length xs) 2) _ _ (λ _. tt)
        λ enough. bind-IsDone (uint16_at xs 0) _ (uint16_at-IsDone xs 0 (ground arith)) λ n _.
          walk_names-IsDone (suc (length xs)) xs 2 _ (ground arith) (ground arith) (omega arith)

  walk_extensions-IsDone :
      (fuel : ℕ) (xs : List ℕ) (pos end : ℕ)
      → end ≤ length xs
      → pos ≤ length xs
      → length xs < fuel + pos
      → IsDone (walk_extensions to_lower fuel xs pos end)
  unfolding walk_extensions
  walk_extensions-IsDone zero xs pos end h k f = absurd (omega arith)
  walk_extensions-IsDone (suc fuel) xs pos end h k f =
      if-IsDone (leb (pos + 4) end) _ _
        (λ fits.
          let room : pos + 4 ≤ end = leb→le (pos + 4) end fits in
          bind-IsDone (uint16_at xs pos) _ (uint16_at-IsDone xs pos (omega arith)) λ kind _.
            bind-IsDone (uint16_at xs (pos + 2)) _ (uint16_at-IsDone xs (pos + 2) (omega arith))
              λ n _.
                if-IsDone (ltb end (pos + 4 + n)) _ _ (λ _. tt)
                  λ inside.
                    if-IsDone (kind == 0) _ _
                      (λ _.
                        bind-IsDone (slice xs (pos + 4) (pos + 4 + n)) _
                          (slice-IsDone xs _ _ (omega arith) (ground arith))
                          (λ body _. parse_sni_extension-IsDone body))
                      (λ _.
                        walk_extensions-IsDone fuel xs (pos + 4 + n) end h (ground arith)
                          (omega arith)))
        (λ _. tt)

  skip8-IsDone :
      (xs : List ℕ) (pos : ℕ) (k : ℕ → Scan Str)
      → ((p : ℕ) → IsDone (k p))
      → IsDone (skip8 xs pos k)
  unfolding skip8
  skip8-IsDone xs pos k d =
      if-IsDone (ltb (length xs) (pos + 1)) _ _ (λ _. tt)
        λ enough.
          bind-IsDone (byte_at xs pos) _ (byte_at-IsDone xs pos (ground arith))
            λ n _. if-IsDone (ltb (length xs) (pos + 1 + n)) _ _ (λ _. tt) (λ _. d (pos + 1 + n))

  skip16-IsDone :
      (xs : List ℕ) (pos : ℕ) (k : ℕ → Scan Str)
      → ((p : ℕ) → IsDone (k p))
      → IsDone (skip16 xs pos k)
  unfolding skip16
  skip16-IsDone xs pos k d =
      if-IsDone (ltb (length xs) (pos + 2)) _ _ (λ _. tt)
        λ enough.
          bind-IsDone (uint16_at xs pos) _ (uint16_at-IsDone xs pos (ground arith))
            λ n _. if-IsDone (ltb (length xs) (pos + 2 + n)) _ _ (λ _. tt) (λ _. d (pos + 2 + n))

  parse_extensions-IsDone : (xs : List ℕ) (pos : ℕ) → IsDone (parse_extensions to_lower xs pos)
  unfolding parse_extensions
  parse_extensions-IsDone xs pos =
      if-IsDone (ltb (length xs) (pos + 2)) _ _ (λ _. tt)
        λ enough. bind-IsDone (uint16_at xs pos) _ (uint16_at-IsDone xs pos (ground arith)) λ n _.
          walk_extensions-IsDone (suc (length xs)) xs (pos + 2) _ (ground arith) (ground arith)
            (omega arith)

  -- Whatever bytes a TLS record holds, the parser reads none outside them, its loops end, and it
  -- returns a name, which may be empty.
  pub parse_sni-IsDone : (xs : List ℕ) → IsDone (parse_sni_from_client_hello to_lower xs)
  unfolding parse_sni_from_client_hello
  parse_sni-IsDone xs =
      if-IsDone (ltb (length xs) 4) _ _ (λ _. tt)
        λ enough. bind-IsDone (byte_at xs 0) _ (byte_at-IsDone xs 0 (ground arith)) λ kind _.
          if-IsDone (not (kind == 1)) _ _ (λ _. tt)
            λ _.
              if-IsDone (ltb (length xs) 38) _ _ (λ _. tt)
                λ _.
                  skip8-IsDone xs 38 _
                    λ p. skip16-IsDone xs p _ λ q. skip8-IsDone xs q _ (parse_extensions-IsDone xs)
