-- ===== src/Tunnel/Limiter/Slots.antt =====
-- internal/tunnel/ratelimit.go: the counter is the number of goroutines with a slot.
use reversproxy.Base.{
  ℕ, zero, suc, ◌+◌, ◌≤◌, ◌<◌, ◌≡◌, refl, ap, inl, inr, false, ◌==◌, update, Bool-cases, arith,
}
use reversproxy.Tunnel.Limiter.{
  Pc, out, loaded, inside, Active, no_slots, Step, adds, loads, refuses, swaps, retries, releases,
  Reach, here, next,
}

abbrev pub slot : Pc → ℕ
slot inside = 1
slot _ = 0

-- How many of the first `n` goroutines have a slot.
abbrev pub taken : ℕ → (ℕ → Pc) → ℕ
taken zero pc = 0
taken (suc n) pc = slot (pc n) + taken n pc

taken-update_above : (n i : ℕ) (pc : ℕ → Pc) (p : Pc) → n ≤ i → taken n (update pc i p) ≡ taken n pc
taken-update_above zero i pc p h = refl
taken-update_above (suc n) i pc p h =
    let other : (i == n) ≡ false = ground arith in
    rw other (omega (arith, taken-update_above n i pc p (omega arith)))

taken-update :
    (n i : ℕ) (pc : ℕ → Pc) (p : Pc)
    → i < n
    → taken n (update pc i p) + slot (pc i) ≡ taken n pc + slot p
taken-update zero i pc p h = absurd (omega arith)
taken-update (suc n) i pc p h = elim (Bool-cases (i == n)) [
  | inl same ↦
      let e : i ≡ n = ground arith in
      rw same (omega (arith, taken-update_above n i pc p (omega arith), ap (λ k. slot (pc k)) e))
  | inr other ↦ rw other (omega (arith, taken-update n i pc p (ground arith)))
]

record Inv (max_global n : ℕ) (s : Active) : Type 0 where
  counted : s.active ≡ taken n s.pc
  bounded : 0 < max_global → s.active ≤ max_global

Step-Inv : {m n : ℕ} {s t : Active} → Step m n s t → Inv m n s → Inv m n t
Step-Inv {m} {n} {s} (adds i h u e) v = record {
  counted = omega (arith, taken-update n i s.pc inside h, ap slot e, v.counted);
  bounded = λ p. absurd (omega arith);
}
Step-Inv {m} {n} {s} (loads i h u e) v = record {
  counted = omega (arith, taken-update n i s.pc (loaded s.active) h, ap slot e, v.counted);
  bounded = v.bounded;
}
Step-Inv {m} {n} {s} (refuses i cur h e full) v = record {
  counted = omega (arith, taken-update n i s.pc out h, ap slot e, v.counted);
  bounded = v.bounded;
}
Step-Inv {m} {n} {s} (swaps i cur h e under same) v = record {
  counted = omega (arith, taken-update n i s.pc inside h, ap slot e, v.counted);
  bounded = λ p. omega arith;
}
Step-Inv {m} {n} {s} (retries i cur h e under changed) v = record {
  counted = omega (arith, taken-update n i s.pc out h, ap slot e, v.counted);
  bounded = v.bounded;
}
Step-Inv {m} {n} {s} (releases i h e) v = record {
  counted = omega (arith, taken-update n i s.pc out h, ap slot e, v.counted);
  bounded = λ p. omega (arith, v.bounded p);
}

taken-none : (n : ℕ) → taken n (λ _. out) ≡ 0
taken-none zero = refl
taken-none (suc n) = omega (arith, taken-none n)

Reach-Inv : {m n : ℕ} {s : Active} → Reach m n no_slots s → Inv m n s
Reach-Inv {n} here = record { counted = omega (arith, taken-none n); bounded = λ p. omega arith }
Reach-Inv (next r st) = Step-Inv st (Reach-Inv r)

-- However the goroutines interleave, the counter is the number of those that hold a slot, and with a
-- limit there are never more of them than it says.
pub taken-le-max :
    (max_global n : ℕ) (s : Active)
    → Reach max_global n no_slots s
    → (s.active ≡ taken n s.pc) × (0 < max_global → taken n s.pc ≤ max_global)
taken-le-max max_global n s r =
    let v = Reach-Inv r in (v.counted, λ p. omega (arith, v.bounded p, v.counted))
