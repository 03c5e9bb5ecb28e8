-- ===== src/Tunnel/Sni/Cursor.antt =====
-- internal/tunnel/https_proxy.go: what the parser's reads return at a position whose bytes are known.
use reversproxy.Base.{
  ℕ, ◌+◌, ◌*◌, ◌/◌, ◌%◌, ◌≡◌, refl, sym, ap, ◌∙◌, List, [], ◌∷◌, ◌++◌, length, take, length-append,
  drop-length_append, take-length_append, Str, arith,
}
use mathlib.Core.List.{append_assoc}
use reversproxy.Tunnel.Sni.{Scan, done, byte_at, slice, uint16, uint16_at, skip8, skip16}
use reversproxy.Tunnel.Sni.Bounds.{slice_lem}

-- A field behind its length, of one byte and of two.
abbrev pub vec8 : List ℕ → List ℕ
vec8 xs = length xs ∷ xs

abbrev pub vec16 : List ℕ → List ℕ
vec16 xs = length xs / 256 ∷ length xs % 256 ∷ xs

-- `ys` is what stands from `pos` on.
abbrev pub At : List ℕ → ℕ → List ℕ → Type 0
At xs pos ys = (front : List ℕ) × (xs ≡ front ++ ys) × (length front ≡ pos)

pub At-append :
    (xs : List ℕ) (pos : ℕ) (ys zs : List ℕ) → At xs pos (ys ++ zs) → At xs (pos + length ys) zs
At-append xs pos ys zs (front, e, n) =
    (front ++ ys, e ∙ sym (append_assoc front ys zs), omega (arith, length-append front ys))

pub At-cons : (xs : List ℕ) (pos y : ℕ) (ys : List ℕ) → At xs pos (y ∷ ys) → At xs (pos + 1) ys
At-cons xs pos y ys a = At-append xs pos (y ∷ []) ys a

pub At-length : (xs : List ℕ) (pos : ℕ) (ys : List ℕ) → At xs pos ys → length xs ≡ pos + length ys
At-length xs pos ys (front, e, n) = omega (arith, ap length e, length-append front ys)

byte_at-append :
    (front : List ℕ) (y : ℕ) (ys : List ℕ) → byte_at (front ++ y ∷ ys) (length front) ≡ done y
unfolding byte_at
byte_at-append [] y ys = refl
byte_at-append (x ∷ front) y ys = byte_at-append front y ys

pub At-byte_at :
    (xs : List ℕ) (pos y : ℕ) (ys : List ℕ) → At xs pos (y ∷ ys) → byte_at xs pos ≡ done y
At-byte_at xs pos y ys (front, e, n) = rw (e, ← n) (byte_at-append front y ys)

pub At-slice :
    (xs : List ℕ) (pos : ℕ) (ys zs : List ℕ)
    → At xs pos (ys ++ zs)
    → slice xs pos (pos + length ys) ≡ done ys
At-slice xs pos ys zs (front, e, n) =
    slice_lem xs pos (pos + length ys) (omega arith)
      (omega (arith, ap length e, length-append front (ys ++ zs), length-append ys zs))
    ∙ ap done (
        rw (e, ← n, drop-length_append)
          (ap (λ (k : ℕ). take k (ys ++ zs)) (omega arith) ∙ take-length_append ys zs))

pub At-uint16_at :
    (xs : List ℕ) (pos a b : ℕ) (ys : List ℕ)
    → At xs pos (a ∷ b ∷ ys)
    → uint16_at xs pos ≡ done (a * 256 + b)
unfolding uint16_at uint16
At-uint16_at xs pos a b ys at = rw (At-slice xs pos (a ∷ b ∷ []) ys at)

pub At-vec16 :
    (xs : List ℕ) (pos : ℕ) (ys zs : List ℕ)
    → At xs pos (vec16 ys ++ zs)
    → uint16_at xs pos ≡ done (length ys)
At-vec16 xs pos ys zs at =
    At-uint16_at xs pos (length ys / 256) (length ys % 256) (ys ++ zs) at ∙ ap done (omega arith)

pub At-skip8 :
    (xs : List ℕ) (pos : ℕ) (ys zs : List ℕ) (k : ℕ → Scan Str)
    → At xs pos (vec8 ys ++ zs)
    → skip8 xs pos k ≡ k (pos + 1 + length ys)
unfolding skip8
At-skip8 xs pos ys zs k at =
    ground (arith, At-byte_at xs pos (length ys) _ at, At-length xs pos _ at, length-append ys zs)

pub At-skip16 :
    (xs : List ℕ) (pos : ℕ) (ys zs : List ℕ) (k : ℕ → Scan Str)
    → At xs pos (vec16 ys ++ zs)
    → skip16 xs pos k ≡ k (pos + 2 + length ys)
unfolding skip16
At-skip16 xs pos ys zs k at =
    ground (arith, At-vec16 xs pos ys zs at, At-length xs pos _ at, length-append ys zs)

pub At-vec8_end :
    (xs : List ℕ) (pos : ℕ) (ys zs : List ℕ)
    → At xs pos (vec8 ys ++ zs)
    → At xs (pos + 1 + length ys) zs
At-vec8_end xs pos ys zs at = At-append xs (pos + 1) ys zs (At-append xs pos (length ys ∷ []) _ at)

pub At-vec16_end :
    (xs : List ℕ) (pos : ℕ) (ys zs : List ℕ)
    → At xs pos (vec16 ys ++ zs)
    → At xs (pos + 2 + length ys) zs
At-vec16_end xs pos ys zs at =
    At-append xs (pos + 2) ys zs (At-append xs pos (length ys / 256 ∷ length ys % 256 ∷ []) _ at)
