-- ===== src/Tunnel/Limiter/Runs.antt =====
-- internal/tunnel/ratelimit.go: two goroutines for one slot, and five connections of one address.
use reversproxy.Base.{ℕ, ◌+◌, ◌-◌, ◌*◌, ◌≤◌, ◌<◌, ◌≡◌, refl, [], ltb, codes, lookup, arith}
use native.Mathlib.Nat.{zero-mul, sub_self}
use reversproxy.Tunnel.Limiter.{
  Active, no_slots, Reach, here, next, loads, swaps, retries, Floats, Limiter,
}
use reversproxy.Tunnel.Limiter.Slots.{taken, taken-le-max}
use reversproxy.Tunnel.Limiter.Bursts.{IsExact, passes, passes_new}

-- The second goroutine loses the race for the only slot.
race : (s : Active) × Reach 1 2 no_slots s × (s.active ≡ 1)
race = (
  _,
  next
      (next
        (next (next here (loads 0 (omega arith) (omega arith) refl))
          (loads 1 (omega arith) (omega arith) refl))
        (swaps 0 0 (omega arith) refl (omega arith) refl))
      (retries 1 0 (omega arith) refl (omega arith) (λ e. ground arith)),
  refl,
)

taken-le-max_example : (race.0.active ≡ taken 2 race.0.pc) × (0 < 1 → taken 2 race.0.pc ≤ 1)
taken-le-max_example = taken-le-max 1 2 race.0 race.1

-- Whole numbers, and instants in seconds.
abbrev whole_numbers : Floats ℕ
whole_numbers = record {
  of_int = λ n. n;
  plus = λ a b. a + b;
  minus = λ a b. a - b;
  times = λ a b. a * b;
  above = λ a b. ltb b a;
  seconds = λ last now. now - last;
}

no_time : (t a rate : ℕ) → a + (t - t) * rate ≡ a
no_time t a rate = rw (sub_self t, zero-mul rate) (omega arith)

whole_numbers-IsExact : IsExact whole_numbers
whole_numbers-IsExact = record {
  at_once = no_time;
  minus_one = λ a. omega arith;
  above_int = λ a b. refl;
}

abbrev limited : Limiter ℕ
limited = record { max_rate = 2; burst = 3; ttl = 60; ips = [] }

passes_new_example : passes whole_numbers 5 100 (codes "10.0.0.1") limited ≡ 3
unfolding lookup
passes_new_example =
    passes_new whole_numbers whole_numbers-IsExact 5 100 (codes "10.0.0.1") limited refl
      (omega arith) refl
