-- ===== src/Transfer/Names/Unique.antt =====
-- internal/filetransfer/protocol.go: the loop over numbered names comes to its end.
use reversproxy.Base.{
  ℕ, zero, suc, ◌+◌, ◌-◌, ◌*◌, ◌/◌, ◌%◌, ◌≤◌, ◌<◌, ◌≡◌, ◌≢◌, refl, sym, ap, ◌∙◌, inl, inr, true,
  false, [], ◌∷◌, ◌++◌, none, some, length, Str, codes, Map, lookup, delete, lookup-delete,
  Option-cases, str_eq_ne, length-append, arith,
}
use reversproxy.Transfer.Names.{
  decimal_on, decimal, candidate, stem, ext, exists, search_free, unique_path,
}

-- The number that a string of digits stands for, read from the left.
unfoldable number_on : ℕ → Str → ℕ
number_on acc [] = acc
number_on acc (c ∷ cs) = number_on (10 * acc + (c - 48)) cs

number_on-snoc :
    (acc c : ℕ) (s : Str) → number_on acc (s ++ c ∷ []) ≡ 10 * number_on acc s + (c - 48)
unfolding number_on
number_on-snoc acc c [] = refl
number_on-snoc acc c (d ∷ s) = number_on-snoc (10 * acc + (d - 48)) c s

number_on-decimal_on : (f n : ℕ) → n ≤ f → number_on 0 (decimal_on f n) ≡ n
unfolding number_on decimal_on
number_on-decimal_on zero n h = ground arith
number_on-decimal_on (suc f) n h =
    ground (
      arith,
      number_on-snoc 0 (48 + n % 10) (decimal_on f (n / 10)),
      number_on-decimal_on f (n / 10),
    )

decimal_injective : (i j : ℕ) → decimal i ≡ decimal j → i ≡ j
unfolding decimal
decimal_injective i j e =
    sym (number_on-decimal_on i i (ground arith))
    ∙ (ap (number_on 0) e ∙ number_on-decimal_on j j (ground arith))

append_cancel_front : (s a b : Str) → s ++ a ≡ s ++ b → a ≡ b
append_cancel_front [] a b e = e
append_cancel_front (c ∷ s) a b e = append_cancel_front s a b (ground arith)

longer_ne : (a : Str) (c : ℕ) (b : Str) → b ≢ c ∷ (a ++ b)
longer_ne a c b e = ground (arith, ap length e, length-append a b)

append_cancel_back : (a b s : Str) → a ++ s ≡ b ++ s → a ≡ b
append_cancel_back [] [] s e = refl
append_cancel_back [] (d ∷ b) s e = absurd (longer_ne b d s e)
append_cancel_back (c ∷ a) [] s e = absurd (longer_ne a c s (sym e))
append_cancel_back (c ∷ a) (d ∷ b) s e = ground (arith, append_cancel_back a b s)

candidate_injective : (name : Str) (i j : ℕ) → candidate name i ≡ candidate name j → i ≡ j
unfolding candidate
candidate_injective name i j e = decimal_injective i j (
    append_cancel_back (decimal i) (decimal j) (codes ")" ++ ext name) (
      append_cancel_front (codes " (") (decimal i ++ (codes ")" ++ ext name))
        (decimal j ++ (codes ")" ++ ext name))
        (append_cancel_front (stem name) (codes " (" ++ (decimal i ++ (codes ")" ++ ext name)))
          (codes " (" ++ (decimal j ++ (codes ")" ++ ext name))) e)))

module _ {V : Type 0} where
  length-delete_le : (k : Str) (m : Map V) → length (delete k m) ≤ length m
  unfolding delete
  length-delete_le k [] = ground arith
  length-delete_le k ((j, w) ∷ m) = ground (arith, length-delete_le k m)

  length-delete_present : (k : Str) (m : Map V) → exists k m ≡ true → length (delete k m) < length m
  unfolding delete exists lookup
  length-delete_present k [] e = cc
  length-delete_present k ((j, w) ∷ m) e =
      ground (arith, length-delete_present k m, length-delete_le k m)

  exists-delete : (k j : Str) (m : Map V) → k ≢ j → exists j (delete k m) ≡ exists j m
  unfolding exists
  exists-delete k j m h = ground (arith, lookup-delete k j m, str_eq_ne k j)

  -- Taking away a number that is behind does not help the search.
  search_free-delete :
      (fuel i j : ℕ) (name : Str) (files : Map V)
      → j < i
      → search_free fuel i name (delete (candidate name j) files) ≡ search_free fuel i name files
  unfolding search_free
  search_free-delete zero i j name files h = refl
  search_free-delete (suc fuel) i j name files h = ground (
    arith,
    search_free-delete fuel (i + 1) j name files,
    exists-delete (candidate name j) (candidate name i) files,
    candidate_injective name j i,
  )

  search_free-none :
      (fuel i : ℕ) (name : Str) (files : Map V)
      → search_free fuel i name files ≡ none
      → fuel ≤ length files
  unfolding search_free
  search_free-none zero i name files e = ground arith
  search_free-none (suc fuel) i name files e = ground (
    arith,
    search_free-none fuel (i + 1) name (delete (candidate name i) files),
    search_free-delete fuel (i + 1) i name files,
    length-delete_present (candidate name i) files,
  )

  search_free-some :
      (fuel i : ℕ) (name path : Str) (files : Map V)
      → search_free fuel i name files ≡ some path
      → exists path files ≡ false
  unfolding search_free
  search_free-some zero i name path files e = cc
  search_free-some (suc fuel) i name path files e =
      ground (arith, search_free-some fuel (i + 1) name path files)

  pub unique_path_sound :
      (name path : Str) (files : Map V)
      → unique_path name files ≡ some path
      → exists path files ≡ false
  unfolding unique_path
  unique_path_sound name path files e =
      ground (arith, search_free-some (suc (length files)) 1 name path files)

  -- The search comes to an end in every folder, at a path that no file has.
  pub unique_path_free :
      (name : Str) (files : Map V)
      → (path : Str) × (unique_path name files ≡ some path) × (exists path files ≡ false)
  unfolding unique_path
  unique_path_free name files = elim (Option-cases (unique_path name files)) [
    | inl e ↦ ground (arith, search_free-none (suc (length files)) 1 name files)
    | inr (path, e) ↦ (path, e, unique_path_sound name path files e)
  ]
