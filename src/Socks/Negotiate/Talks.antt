-- ===== src/Socks/Negotiate/Talks.antt =====
-- internal/socks/proto.go: what a part of the handshake reads when it succeeds.
use reversproxy.Base.{
  ℕ, ◌≡◌, refl, ap, inl, inr, Bool, true, false, List, ◌++◌, if◌then◌else◌, ltb, length, take, drop,
  Bool-cases, length-take, take-append-drop, take-length_append, drop-length_append, length-append,
  arith,
}
use reversproxy.Base.Result.{Result, ok, err}
use reversproxy.Protocol.Framing.{Conn}
use reversproxy.Socks.Negotiate.{
  NegotiateError, Link, Talk, goes_on, ◌>>=◌, fail, guard, read_full, write_or,
}

goes_on_ok :
    {A B : Type 0} (f : A → Talk B) (r : Result NegotiateError A) (l l2 : Link) (b : B)
    → goes_on f r l ≡ (ok b, l2)
    → (a : A) × (r ≡ ok a) × (f a l ≡ (ok b, l2))
unfolding goes_on
goes_on_ok f (ok a) l l2 b e = (a, refl, e)
goes_on_ok f (err x) l l2 b e = absurd (ground arith)

-- A sequence that succeeds: both parts do.
pub >>=_ok :
    {A B C : Type 0} (m : Talk A) (f : A → Talk B) (l l2 : Link) (b : B)
    → (m >>= f) l ≡ (ok b, l2)
    → ((a : A) (l1 : Link) → m l ≡ (ok a, l1) → f a l1 ≡ (ok b, l2) → C)
    → C
unfolding ◌>>=◌
>>=_ok m f l l2 b e onward =
    let (a, good, after) = goes_on_ok f (m l).0 (m l).1 l2 b e in
    onward a (m l).1 (ap (λ r. (r, (m l).1)) good) after

-- A branch that succeeds: the one that the test takes does.
pub branch_ok :
    {A C : Type 0} (b : Bool) (t e : Talk A) (l l1 : Link) (a : A)
    → (if b then t else e) l ≡ (ok a, l1)
    → (b ≡ true → t l ≡ (ok a, l1) → C)
    → (b ≡ false → e l ≡ (ok a, l1) → C)
    → C
branch_ok true t e l l1 a p on_true on_false = on_true refl p
branch_ok false t e l l1 a p on_true on_false = on_false refl p

-- A part that succeeds goes on.
pub >>=_runs :
    {A B : Type 0} (m : Talk A) (f : A → Talk B) (l l1 : Link) (a : A)
    → m l ≡ (ok a, l1)
    → (m >>= f) l ≡ f a l1
unfolding ◌>>=◌ goes_on
>>=_runs m f l l1 a e = ap (λ r. goes_on f r.0 r.1) e

-- What a part that succeeds has read.
abbrev pub Reads : List ℕ → Link → Link → Type 0
Reads front l l1 = l.input ≡ front ++ l1.input

pub read_full_ok :
    (e : NegotiateError) (n : ℕ) (l l1 : Link) (bytes : List ℕ)
    → read_full e n l ≡ (ok bytes, l1)
    → (length bytes ≡ n) × Reads bytes l l1
unfolding read_full
read_full_ok e n l l1 bytes p = elim (Bool-cases (ltb (length l.input) n)) [
  | inl short ↦ absurd (ground arith)
  | inr enough ↦ (ground (arith, length-take n l.input), ground (arith, take-append-drop n l.input))
]

pub read_full_runs :
    (e : NegotiateError) (n : ℕ) (bytes rest : List ℕ) (out : Conn)
    → length bytes ≡ n
    → read_full e n (record { input = bytes ++ rest; out = out })
      ≡ (ok bytes, record { input = rest; out = out })
unfolding read_full
read_full_runs e n bytes rest out same = ground (
  arith,
  length-append bytes rest,
  ap (λ k. take k (bytes ++ rest)) same,
  ap (λ k. drop k (bytes ++ rest)) same,
  take-length_append bytes rest,
  drop-length_append bytes rest,
)

pub guard_ok :
    (b : Bool) (e : NegotiateError) (l l1 : Link)
    → guard b e l ≡ (ok tt, l1)
    → (b ≡ true) × (l1 ≡ l)
unfolding guard
guard_ok b e l l1 p = ground arith

pub write_or_ok :
    (e : NegotiateError) (bytes : List ℕ) (l l1 : Link)
    → write_or e bytes l ≡ (ok tt, l1)
    → l1.input ≡ l.input
unfolding write_or
write_or_ok e bytes l l1 p = ground arith

-- What ends in an error does not succeed.
pub >>-fail :
    {A : Type 0} (m : Talk (Unit {0})) (e : NegotiateError) (l l1 : Link) (a : A)
    → (m >>= λ _. fail {A = A} e) l ≡ (ok a, l1)
    → ⊥
unfolding fail
>>-fail m e l l1 a p = >>=_ok m _ l l1 a p (λ _ mid _ q. ground arith)
