-- ===== src/Tunnel/Sni.antt =====
-- internal/tunnel/https_proxy.go: reading the server name from a TLS ClientHello.
pub mod Bounds
pub mod Cursor
pub mod Hello
pub mod Peek
mod Runs
use reversproxy.Base.{
  ℕ, zero, suc, ◌+◌, ◌-◌, ◌*◌, Bool, true, false, not, List, [], ◌∷◌, ◌++◌, ◌||◌, Option, none,
  some, if◌then◌else◌, ltb, leb, ◌==◌, length, take, drop, get_elem?, Str,
}
use reversproxy.Base.Result.{Result, ok, err}

-- An access out of range would panic; `stuck` is no Go value: the fuel of a loop ran out.
pub data Scan (A : Type 0) : Type 0 where
  done : A → Scan A
  panic : Scan A
  stuck : Scan A

infixl 5 ◌>>=◌
abbrev pub ◌>>=◌ : {A B : Type 0} → Scan A → (A → Scan B) → Scan B
done a >>= f = f a
panic >>= f = panic
stuck >>= f = stuck

abbrev or_panic : {A : Type 0} → Option A → Scan A
or_panic none = panic
or_panic (some a) = done a

-- data[pos]
pub byte_at : List ℕ → ℕ → Scan ℕ
byte_at xs pos = or_panic (get_elem? xs pos)

-- data[lo:hi]
pub slice : List ℕ → ℕ → ℕ → Scan (List ℕ)
slice xs lo hi =
    if leb lo hi
    then (if leb hi (length xs) then done (take (hi - lo) (drop lo xs)) else panic)
    else panic

-- binary.BigEndian.Uint16
pub uint16 : List ℕ → Scan ℕ
uint16 (hi ∷ lo ∷ rest) = done (hi * 256 + lo)
uint16 _ = panic

pub uint16_at : List ℕ → ℕ → Scan ℕ
unfolding slice uint16
uint16_at xs pos = do two ← slice xs pos (pos + 2); uint16 two

-- A field behind a length of one byte, and behind a length of two bytes.
pub skip8 : List ℕ → ℕ → (ℕ → Scan Str) → Scan Str
skip8 xs pos k =
    if ltb (length xs) (pos + 1)
    then done []
    else (do n ← byte_at xs pos; if ltb (length xs) (pos + 1 + n) then done [] else k (pos + 1 + n))

pub skip16 : List ℕ → ℕ → (ℕ → Scan Str) → Scan Str
skip16 xs pos k = if ltb (length xs) (pos + 2) then done [] else (do
  n ← uint16_at xs pos
  if ltb (length xs) (pos + 2 + n) then done [] else k (pos + 2 + n))

-- strings.ToLower, which goes by Unicode tables, is the argument `to_lower`.
module _ (to_lower : Str → Str) where
  -- The loop of parseSNIExtension.
  pub walk_names : ℕ → List ℕ → ℕ → ℕ → Scan Str
  walk_names zero xs pos end = stuck
  walk_names (suc fuel) xs pos end =
      let next = λ (p : ℕ). walk_names fuel xs p end in
      if leb (pos + 3) end
      then (do
        name_type ← byte_at xs pos
        name_len ← uint16_at xs (pos + 1)
        if ltb end (pos + 3 + name_len)
            then done []
            else (if name_type == 0
                then (do name ← slice xs (pos + 3) (pos + 3 + name_len); done (to_lower name))
                else next (pos + 3 + name_len)))
      else done []

  -- Each round takes three bytes at least, so one round more than there are bytes is enough.
  pub parse_sni_extension : List ℕ → Scan Str
  parse_sni_extension xs = if ltb (length xs) 2 then done [] else (do
    list_len ← uint16_at xs 0
    walk_names (suc (length xs)) xs 2
        (if ltb (length xs) (2 + list_len) then length xs else 2 + list_len))

  -- The loop over the extensions.
  pub walk_extensions : ℕ → List ℕ → ℕ → ℕ → Scan Str
  walk_extensions zero xs pos end = stuck
  walk_extensions (suc fuel) xs pos end =
      let next = λ (p : ℕ). walk_extensions fuel xs p end in
      if leb (pos + 4) end
      then (do
        ext_type ← uint16_at xs pos
        ext_len ← uint16_at xs (pos + 2)
        if ltb end (pos + 4 + ext_len)
            then done []
            else (if ext_type == 0
                then (do body ← slice xs (pos + 4) (pos + 4 + ext_len); parse_sni_extension body)
                else next (pos + 4 + ext_len)))
      else done []

  pub parse_extensions : List ℕ → ℕ → Scan Str
  parse_extensions xs pos = if ltb (length xs) (pos + 2) then done [] else (do
    ext_len ← uint16_at xs pos
    walk_extensions (suc (length xs)) xs (pos + 2)
        (if ltb (length xs) (pos + 2 + ext_len) then length xs else pos + 2 + ext_len))

  pub parse_sni_from_client_hello : List ℕ → Scan Str
  parse_sni_from_client_hello xs = if ltb (length xs) 4 then done [] else (do
    kind ← byte_at xs 0
    if not (kind == 1)
        then done []
        else (if ltb (length xs) 38
            then done []
            else skip8 xs 38 (λ p. skip16 xs p (λ q. skip8 xs q (parse_extensions xs)))))

pub data PeekError : Type 0 where
  no_header invalid_length record_too_large no_body parser_panic : PeekError

-- io.ReadFull: `none` where the stream ends first.
pub read_full : ℕ → List ℕ → Option (List ℕ × List ℕ)
read_full n input = if ltb (length input) n then none else some (take n input, drop n input)

abbrev max_sni_peek_bytes : ℕ
max_sni_peek_bytes = 65536

module _ (to_lower : Str → Str) where
  named : List ℕ → List ℕ → Scan Str → Result PeekError (List ℕ × Str × List ℕ)
  named peeked rest (done sni) = ok (peeked, sni, rest)
  named peeked rest panic = err parser_panic
  named peeked rest stuck = err parser_panic

  -- The bytes that were read, the server name, and the stream behind them.
  peek_body : List ℕ → ℕ → List ℕ → Result PeekError (List ℕ × Str × List ℕ)
  unfolding named
  peek_body hdr rec_len input = elim (read_full rec_len input) [
    | none ↦ err no_body
    | some (body, rest) ↦ named (hdr ++ body) rest (parse_sni_from_client_hello to_lower body)
  ]

  -- The header that comes here has five bytes, so the last clause is never taken.
  peek_record : List ℕ → List ℕ → Result PeekError (List ℕ × Str × List ℕ)
  unfolding peek_body
  peek_record (kind ∷ major ∷ minor ∷ hi ∷ lo ∷ more) input =
      let hdr : List ℕ = kind ∷ major ∷ minor ∷ hi ∷ lo ∷ more in
      let rec_len : ℕ = hi * 256 + lo in
      if not (kind == 0x16)
      then ok (hdr, [], input)
      else (if rec_len == 0 || ltb 16384 rec_len
          then err invalid_length
          else (if ltb max_sni_peek_bytes (5 + rec_len)
              then err record_too_large
              else peek_body hdr rec_len input))
  peek_record hdr input = err no_header

  pub peek_sni : List ℕ → Result PeekError (List ℕ × Str × List ℕ)
  unfolding peek_record
  peek_sni input = elim (read_full 5 input) [
    | none ↦ err no_header
    | some (hdr, rest) ↦ peek_record hdr rest
  ]
