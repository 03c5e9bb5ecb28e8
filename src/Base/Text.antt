-- ===== src/Base/Text.antt =====
-- A Go string is a list of bytes.
use Prim.Native.Nat.{ℕ}
use Prim.Native.Char.{code}
use Prim.Native.String.{String}
use mathlib.Core.Path.{◌≡◌, refl}
use mathlib.Core.Logic.{◌↔◌, inl, inr, ◌≢◌}
use mathlib.Core.Bool.{Bool, true, false, ◌&&◌, ◌||◌}
use mathlib.Core.List.{List, [], ◌∷◌, ◌++◌}
use native.Mathlib.Omega.{arith}
use reversproxy.Base.Nums.{◌==◌, Bool-cases}

abbrev pub Str : Type 0
Str = List ℕ

-- A literal of the source, all of whose characters are ASCII.
abbrev pub codes : String → Str
codes String.[] = []
codes (String.◌∷◌ c s) = code c ∷ codes s

unfoldable pub str_eq : Str → Str → Bool
str_eq [] [] = true
str_eq [] (y ∷ ys) = false
str_eq (x ∷ xs) [] = false
str_eq (x ∷ xs) (y ∷ ys) = x == y && str_eq xs ys

pub str_eq_sound : (a b : Str) → str_eq a b ≡ true → a ≡ b
unfolding str_eq
str_eq_sound [] [] h = refl
str_eq_sound [] (y ∷ ys) h = cc
str_eq_sound (x ∷ xs) [] h = cc
str_eq_sound (x ∷ xs) (y ∷ ys) h = ground (arith, str_eq_sound xs ys)

pub str_eq_refl : (a : Str) → str_eq a a ≡ true
unfolding str_eq
str_eq_refl [] = refl
str_eq_refl (x ∷ xs) = ground (arith, str_eq_refl xs)

pub str_eq_iff : (a b : Str) → (str_eq a b ≡ true) ↔ (a ≡ b)
str_eq_iff a b = (str_eq_sound a b, λ e. rw e (str_eq_refl b))

pub str_eq_ne : (a b : Str) → a ≢ b → str_eq a b ≡ false
str_eq_ne a b h = elim (Bool-cases (str_eq a b)) [
  | inl e ↦ absurd (h (str_eq_sound a b e))
  | inr e ↦ e
]

unfoldable pub is_empty : Str → Bool
is_empty [] = true
is_empty (x ∷ xs) = false

unfoldable pub contains : Str → List Str → Bool
contains k [] = false
contains k (x ∷ xs) = str_eq x k || contains k xs

-- `contains k` of a list with one more string at its end.
pub contains-snoc :
    (k x : Str) (xs : List Str) → contains k (xs ++ x ∷ []) ≡ (contains k xs || str_eq x k)
unfolding contains
contains-snoc k x [] = ground arith
contains-snoc k x (y ∷ xs) = ground (arith, contains-snoc k x xs)

pub is_empty_ne : (s : Str) → is_empty s ≡ false → s ≢ []
unfolding is_empty
is_empty_ne [] h e = cc
is_empty_ne (x ∷ s) h e = cc

pub is_empty_sound : (s : Str) → is_empty s ≡ true → s ≡ []
unfolding is_empty
is_empty_sound [] h = refl
is_empty_sound (x ∷ s) h = cc

pub ne-is_empty : (s : Str) → s ≢ [] → is_empty s ≡ false
unfolding is_empty
ne-is_empty [] h = absurd (h refl)
ne-is_empty (x ∷ s) h = refl

pub is_empty-nil : is_empty [] ≡ true
unfolding is_empty
is_empty-nil = refl
