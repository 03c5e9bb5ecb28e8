-- ===== src/Transfer/Names.antt =====
-- internal/filetransfer/protocol.go: file names, and a path that is not taken.
pub mod Safe
pub mod Unique
use reversproxy.Base.{
  ℕ, zero, suc, ◌+◌, ◌/◌, ◌%◌, Bool, true, false, not, ◌&&◌, ◌||◌, List, [], ◌∷◌, ◌++◌, Option,
  none, some, if◌then◌else◌, ltb, ◌==◌, length, take, drop, has, Str, str_eq, is_empty, codes, Map,
  lookup,
}
use reversproxy.Base.Result.{Result, ok, err}

pub data NameError : Type 0 where
  missing_filename invalid_filename : NameError

-- strings.ReplaceAll(raw, "\\", "/")
pub forward : Str → Str
forward [] = []
forward (c ∷ cs) = (if c == 0x5c then b'/' else c) ∷ forward cs

-- The two steps of path.Base: without trailing slashes, and from behind the last slash.
pub strip_slashes : Str → Str
strip_slashes [] = []
strip_slashes (c ∷ cs) =
    let rest = strip_slashes cs in if is_empty rest && c == b'/' then [] else c ∷ rest

pub after_last_slash : Str → Str
after_last_slash [] = []
after_last_slash (c ∷ cs) =
    let rest = after_last_slash cs in
    if has b'/' cs then rest else (if c == b'/' then cs else c ∷ cs)

pub base_name : Str → Str
unfolding strip_slashes after_last_slash
base_name path =
    let base : Str = after_last_slash (strip_slashes path) in
    if is_empty path then codes "." else (if is_empty base then codes "/" else base)

-- strings.TrimSpace, which goes by Unicode tables, is the argument `trim_space`.
unfoldable pub sanitize_name : (Str → Str) → Str → Result NameError Str
unfolding base_name forward
sanitize_name trim_space raw =
    let trimmed : Str = trim_space raw in
    let base : Str = base_name (forward trimmed) in
    if is_empty trimmed
    then err missing_filename
    else (if str_eq base (codes ".")
          || str_eq base (codes "..")
          || str_eq base (codes "/")
          || is_empty base
          || has 0 base
        then err invalid_filename
        else ok base)

-- The last dot and what follows it, in a name without slashes; empty if there is no dot.
pub ext : Str → Str
ext [] = []
ext (c ∷ cs) = let rest = ext cs in if has b'.' cs then rest else (if c == b'.' then c ∷ cs else [])

-- strings.TrimSuffix(p, ext)
pub stem : Str → Str
unfolding ext
stem [] = []
stem (c ∷ cs) =
    let rest = stem cs in if has b'.' cs then c ∷ rest else (if c == b'.' then [] else c ∷ rest)

-- The decimal digits of a number, on fuel; ten to the power of the fuel is to be above the number.
pub decimal_on : ℕ → ℕ → Str
decimal_on zero n = (48 + n % 10) ∷ []
decimal_on (suc f) n =
    let front = decimal_on f (n / 10) in
    if ltb n 10 then (48 + n) ∷ [] else front ++ (48 + n % 10) ∷ []

pub decimal : ℕ → Str
unfolding decimal_on
decimal n = decimal_on n n

-- "%s (%d)%s"
unfoldable pub candidate : Str → ℕ → Str
unfolding decimal stem ext
candidate name i = stem name ++ (codes " (" ++ (decimal i ++ (codes ")" ++ ext name)))

module _ {V : Type 0} where
  unfoldable pub exists : Str → Map V → Bool
  exists name files = elim (lookup name files) [ none ↦ false | some _ ↦ true ]

  -- The loop over the numbered names; `none` means that the fuel ran out.
  pub search_free : ℕ → ℕ → Str → Map V → Option Str
  search_free zero i name files = none
  search_free (suc fuel) i name files =
      let next = search_free fuel (i + 1) name files in
      if exists (candidate name i) files then next else some (candidate name i)

  -- Among one more numbered names than there are files, one is free.
  unfoldable pub unique_path : Str → Map V → Option Str
  unfolding search_free exists
  unique_path name files =
      if exists name files then search_free (suc (length files)) 1 name files else some name
