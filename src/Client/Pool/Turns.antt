-- ===== src/Client/Pool/Turns.antt =====
-- internal/client/pool.go: which session a pick returns.
use reversproxy.Base.{
  ℕ, zero, suc, ◌+◌, ◌%◌, ◌^◌, ◌<◌, ◌≡◌, ◌≢◌, refl, true, not, ◌&&◌, List, [], ◌∷◌, some,
  if◌then◌else◌, ◌==◌, length, get_elem?, has, inl, inr, Bool-cases, arith,
}
use native.Mathlib.Nat.{mod-add-mod, mod_self, mod-eq_of_lt}
use reversproxy.Client.Pool.{ServerPool, without, remove, pick}

get_elem?-has : (xs : List ℕ) (i s : ℕ) → get_elem? xs i ≡ some s → has s xs ≡ true
unfolding has
get_elem?-has [] i s e = ground arith
get_elem?-has (x ∷ xs) zero s e = ground arith
get_elem?-has (x ∷ xs) (suc i) s e = ground (arith, get_elem?-has xs i s)

get_elem?_found : (xs : List ℕ) (i : ℕ) → i < length xs → (s : ℕ) × (get_elem? xs i ≡ some s)
get_elem?_found [] i h = absurd (omega arith)
get_elem?_found (x ∷ xs) zero h = (x, refl)
get_elem?_found (x ∷ xs) (suc i) h = get_elem?_found xs i (omega arith)

has-without : (s x : ℕ) (xs : List ℕ) → has x (without s xs) ≡ (has x xs && not (s == x))
unfolding has without
has-without s x [] = refl
has-without s x (y ∷ xs) = ground (arith, has-without s x xs)

-- As long as there is a session a pick returns one that is in the pool, and a session that was
-- removed is not returned any more.
pub pick-remove :
    (s : ℕ) (p : ServerPool)
    → 0 < length p.sessions
    → ((t : ℕ) × ((pick p).0 ≡ some t) × (has t p.sessions ≡ true))
      × ((pick (remove s p)).0 ≢ some s)
unfolding pick remove
pick-remove s p h =
    let (t, found) = get_elem?_found p.sessions (p.counter % length p.sessions) (omega arith) in
    let rest = without s p.sessions in
    (
      (t, ground arith, get_elem?-has p.sessions (p.counter % length p.sessions) t found),
      λ e.
          ground
            (arith, get_elem?-has rest (p.counter % length rest) s, has-without s s p.sessions),
    )

mod_next : (c n i : ℕ) → c % n ≡ i → 0 < n → (c + 1) % n ≡ (if i + 1 == n then 0 else i + 1)
mod_next c n i at_i h = elim (Bool-cases (i + 1 == n)) [
  | inl last ↦ ground (arith, mod-add-mod c n 1, mod_self n)
  | inr inner ↦
      let below : i + 1 < n = ground arith in ground (arith, mod-add-mod c n 1, mod-eq_of_lt below)
]

-- While the counter does not wrap, the sessions are taken in turn: after the one at `i` comes the
-- next one, and after the last one the first.
pub pick_next :
    (i : ℕ) (p : ServerPool)
    → p.counter % length p.sessions ≡ i
    → 0 < length p.sessions
    → p.counter + 1 < 2 ^ 64
    → ((pick p).0 ≡ get_elem? p.sessions i)
      × ((pick (pick p).1).0
          ≡ get_elem? p.sessions (if i + 1 == length p.sessions then 0 else i + 1))
unfolding pick
pick_next i p at_i h small =
    let next = mod_next p.counter (length p.sessions) i at_i h in
    let wraps : (p.counter + 1) % 2 ^ 64 ≡ p.counter + 1 = mod-eq_of_lt small in
    let step : (pick p).1.counter ≡ p.counter + 1 = ground arith in (ground arith, ground arith)
