-- ===== src/Transfer/Names/Safe.antt =====
-- internal/filetransfer/protocol.go: a sanitised name stays in its folder.
use reversproxy.Base.{
  ℕ, ◌≡◌, ◌≢◌, refl, sym, ◌∙◌, false, [], ◌∷◌, has, Str, str_eq, str_eq_iff, is_empty, is_empty_ne,
  codes, arith,
}
use reversproxy.Base.Result.{ok}
use reversproxy.Transfer.Names.{forward, strip_slashes, after_last_slash, base_name, sanitize_name}

after_last_slash_clean : (s : Str) → has b'/' (after_last_slash s) ≡ false
unfolding after_last_slash has
after_last_slash_clean [] = refl
after_last_slash_clean (c ∷ cs) = ground (arith, after_last_slash_clean cs)

forward_clean : (s : Str) → has 0x5c (forward s) ≡ false
unfolding forward has
forward_clean [] = refl
forward_clean (c ∷ cs) = ground (arith, forward_clean cs)

strip_slashes_keeps : (c : ℕ) (s : Str) → has c s ≡ false → has c (strip_slashes s) ≡ false
unfolding strip_slashes has
strip_slashes_keeps c [] h = refl
strip_slashes_keeps c (d ∷ s) h = ground (arith, strip_slashes_keeps c s)

after_last_slash_keeps : (c : ℕ) (s : Str) → has c s ≡ false → has c (after_last_slash s) ≡ false
unfolding after_last_slash has
after_last_slash_keeps c [] h = refl
after_last_slash_keeps c (d ∷ s) h = ground (arith, after_last_slash_keeps c s)

base_name_keeps :
    (c : ℕ) (path : Str)
    → has c path ≡ false
    → base_name path ≢ codes "."
    → base_name path ≢ codes "/"
    → has c (base_name path) ≡ false
unfolding base_name
base_name_keeps c path h no_dot no_slash =
    ground (arith, after_last_slash_keeps c (strip_slashes path), strip_slashes_keeps c path)

base_name_clean : (path : Str) → base_name path ≢ codes "/" → has b'/' (base_name path) ≡ false
unfolding base_name has
base_name_clean path no_slash = ground (arith, after_last_slash_clean (strip_slashes path))

sanitize_name_as :
    (trim_space : Str → Str) (raw name : Str)
    → sanitize_name trim_space raw ≡ ok name
    → (base_name (forward (trim_space raw)) ≡ name)
      × (is_empty name ≡ false)
      × (str_eq name (codes ".") ≡ false)
      × (str_eq name (codes "..") ≡ false)
      × (str_eq name (codes "/") ≡ false)
      × (has 0 name ≡ false)
unfolding sanitize_name
sanitize_name_as trim_space raw name e = ground arith

str_eq-ne : (a b : Str) → str_eq a b ≡ false → a ≢ b
str_eq-ne a b h e = ground (arith, str_eq_iff a b)

-- An accepted name is not empty, is neither `.` nor `..`, and holds no slash of either kind and no
-- zero byte, whatever the client sent.
pub sanitize_name_safe :
    (trim_space : Str → Str) (raw name : Str)
    → sanitize_name trim_space raw ≡ ok name
    → (name ≢ [])
      × (name ≢ codes ".")
      × (name ≢ codes "..")
      × (has b'/' name ≡ false)
      × (has 0x5c name ≡ false)
      × (has 0 name ≡ false)
sanitize_name_safe trim_space raw name e =
    let (same, filled, not_dot, not_dots, not_slash, no_zero) =
      sanitize_name_as trim_space raw name e in
    let path : Str = forward (trim_space raw) in
    let no_slash : base_name path ≢ codes "/" =
      λ q. str_eq-ne name (codes "/") not_slash (sym same ∙ q) in
    let no_dot : base_name path ≢ codes "." =
      λ q. str_eq-ne name (codes ".") not_dot (sym same ∙ q) in
    (
      is_empty_ne name filled,
      str_eq-ne name (codes ".") not_dot,
      str_eq-ne name (codes "..") not_dots,
      rw (← same) (base_name_clean path no_slash),
      rw (← same) (base_name_keeps 0x5c path (forward_clean (trim_space raw)) no_dot no_slash),
      no_zero,
    )
