-- ===== src/Base/Maps.antt =====
-- Go's map[string]V as an association list: a missing key reads as `none`.
use Prim.Native.Nat.{suc}
use mathlib.Core.Path.{◌≡◌, refl, ap}
use mathlib.Core.Logic.{inl, inr}
use mathlib.Core.Option.{Option, none, some}
use mathlib.Core.List.{List, [], ◌∷◌}
use native.Mathlib.Omega.{arith}
use reversproxy.Base.Nums.{Bool-cases, if◌then◌else◌}
use reversproxy.Base.Lists.{length}
use reversproxy.Base.Text.{str_eq_sound, str_eq_refl, Str, str_eq, str_eq_iff, contains}

abbrev pub Map {ℓ} : Type ℓ → Type ℓ
Map V = List (Str × V)

module _ {ℓ} {V : Type ℓ} where
  unfoldable pub lookup : Str → Map V → Option V
  lookup k [] = none
  lookup k ((j, v) ∷ m) = if str_eq j k then some v else lookup k m

  unfoldable pub insert : Str → V → Map V → Map V
  insert k v [] = (k, v) ∷ []
  insert k v ((j, w) ∷ m) = if str_eq j k then (k, v) ∷ m else (j, w) ∷ insert k v m

  unfoldable pub delete : Str → Map V → Map V
  delete k [] = []
  delete k ((j, v) ∷ m) = if str_eq j k then delete k m else (j, v) ∷ delete k m

  -- The loop that deletes each of a list of keys.
  pub delete_all : List Str → Map V → Map V
  delete_all [] m = m
  delete_all (k ∷ ks) m = delete_all ks (delete k m)

  -- The values of a Go map, ranged over in the order of the list.
  unfoldable pub values : Map V → List V
  values [] = []
  values ((j, v) ∷ m) = v ∷ values m

  pub lookup-nil : (k : Str) → lookup k [] ≡ none
  unfolding lookup
  lookup-nil k = refl

  pub lookup-insert :
      (k j : Str) (v : V) (m : Map V)
      → lookup j (insert k v m) ≡ (if str_eq k j then some v else lookup j m)
  unfolding lookup insert
  lookup-insert k j v [] = refl
  lookup-insert k j v ((i, w) ∷ m) =
      ground (arith, str_eq_iff k j, str_eq_iff i k, str_eq_iff i j, lookup-insert k j v m)

  pub lookup-delete :
      (k j : Str) (m : Map V) → lookup j (delete k m) ≡ (if str_eq k j then none else lookup j m)
  unfolding lookup delete
  lookup-delete k j [] = ground arith
  lookup-delete k j ((i, w) ∷ m) =
      ground (arith, str_eq_iff k j, str_eq_iff i k, str_eq_iff i j, lookup-delete k j m)

  pub lookup-delete_all :
      (j : Str) (ks : List Str) (m : Map V)
      → lookup j (delete_all ks m) ≡ (if contains j ks then none else lookup j m)
  unfolding delete_all contains
  lookup-delete_all j [] m = refl
  lookup-delete_all j (k ∷ ks) m =
      ground (arith, lookup-delete_all j ks (delete k m), lookup-delete k j m)

-- Each key stands once.
module _ {ℓ} {V : Type ℓ} where
  abbrev pub IsUnique : Map V → Type ℓ
  IsUnique [] = Unit {ℓ}
  IsUnique ((k, v) ∷ m) = (lookup k m ≡ none) × IsUnique m

  pub insert-IsUnique : (k : Str) (v : V) (m : Map V) → IsUnique m → IsUnique (insert k v m)
  unfolding insert
  insert-IsUnique k v [] u = (lookup-nil k, tt)
  insert-IsUnique k v ((j, w) ∷ m) (new, u) = elim (Bool-cases (str_eq j k)) [
    | inl same ↦ rw same (rw (← str_eq_sound j k same) new, u)
    | inr other ↦ rw other (
      ground (arith, lookup-insert k j v m, str_eq_iff k j, str_eq_refl j),
      insert-IsUnique k v m u,
    )
  ]

  pub delete-IsUnique : (k : Str) (m : Map V) → IsUnique m → IsUnique (delete k m)
  unfolding delete
  delete-IsUnique k [] u = tt
  delete-IsUnique k ((j, w) ∷ m) (new, u) = elim (Bool-cases (str_eq j k)) [
    | inl same ↦ rw same (delete-IsUnique k m u)
    | inr other ↦ rw other (ground (arith, lookup-delete k j m), delete-IsUnique k m u)
  ]

  pub length-insert_new :
      (k : Str) (v : V) (m : Map V) → lookup k m ≡ none → length (insert k v m) ≡ suc (length m)
  unfolding insert lookup
  length-insert_new k v [] e = refl
  length-insert_new k v ((j, w) ∷ m) e = ground (arith, length-insert_new k v m)

  pub delete_absent : (k : Str) (m : Map V) → lookup k m ≡ none → delete k m ≡ m
  unfolding delete lookup
  delete_absent k [] e = refl
  delete_absent k ((j, w) ∷ m) e = ground (arith, delete_absent k m)

  pub length-delete :
      (k : Str) (v : V) (m : Map V)
      → IsUnique m
      → lookup k m ≡ some v
      → suc (length (delete k m)) ≡ length m
  unfolding delete lookup
  length-delete k v [] u e = cc
  length-delete k v ((j, w) ∷ m) (new, u) e = elim (Bool-cases (str_eq j k)) [
    | inl same ↦
        rw same (
          ap (λ (n : Map V). suc (length n)) (delete_absent k m (rw (← str_eq_sound j k same) new)))
    | inr other ↦ rw other (ap suc (length-delete k v m u (ground arith)))
  ]
