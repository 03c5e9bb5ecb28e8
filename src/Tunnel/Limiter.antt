-- ===== src/Tunnel/Limiter.antt =====
-- internal/tunnel/ratelimit.go: how many connections are accepted at once, and how fast from one
-- address.
pub mod Slots
pub mod Bursts
mod Runs
use reversproxy.Base.{
  ℕ, ◌+◌, ◌-◌, ◌≤◌, ◌<◌, ◌≡◌, ◌≢◌, Bool, true, false, not, List, [], ◌∷◌, Option, none, some,
  if◌then◌else◌, ◌==◌, ltb, Str, Map, lookup, insert, update,
}

-- Where a goroutine stands with the slots of the limiter: outside, behind the load of the counter in
-- the loop of Acquire, or with a slot.
pub data Pc : Type 0 where
  out : Pc
  loaded : ℕ → Pc
  inside : Pc

pub record Active : Type 0 where
  pub active : ℕ
  pub pc : ℕ → Pc

abbrev pub no_slots : Active
no_slots = record { active = 0; pc = λ _. out }

-- A step of one of `n` goroutines; a limit of 0 is none.
pub data Step (max_global n : ℕ) (s : Active) : Active → Type 0 where
  adds :
      (i : ℕ)
      → i < n
      → max_global ≡ 0
      → s.pc i ≡ out
      → Step max_global n s (record { active = s.active + 1; pc = update s.pc i inside })
  loads :
      (i : ℕ)
      → i < n
      → 0 < max_global
      → s.pc i ≡ out
      → Step max_global n s (record s { pc = update s.pc i (loaded s.active) })
  refuses :
      (i cur : ℕ)
      → i < n
      → s.pc i ≡ loaded cur
      → max_global ≤ cur
      → Step max_global n s (record s { pc = update s.pc i out })
  swaps :
      (i cur : ℕ)
      → i < n
      → s.pc i ≡ loaded cur
      → cur < max_global
      → s.active ≡ cur
      → Step max_global n s (record { active = cur + 1; pc = update s.pc i inside })
  retries :
      (i cur : ℕ)
      → i < n
      → s.pc i ≡ loaded cur
      → cur < max_global
      → s.active ≢ cur
      → Step max_global n s (record s { pc = update s.pc i out })
  releases :
      (i : ℕ)
      → i < n
      → s.pc i ≡ inside
      → Step max_global n s (record { active = s.active - 1; pc = update s.pc i out })

pub data Reach (max_global n : ℕ) (s : Active) : Active → Type 0 where
  here : Reach max_global n s s
  next : {t u : Active} → Reach max_global n s t → Step max_global n t u → Reach max_global n s u

-- The floating-point operations that the rates are computed with. `seconds` is the time between two
-- instants.
pub record Floats (F : Type 0) : Type 0 where
  pub of_int : ℕ → F
  pub plus : F → F → F
  pub minus : F → F → F
  pub times : F → F → F
  pub above : F → F → Bool
  pub seconds : ℕ → ℕ → F

pub record IpLimiter (F : Type 0) : Type 0 where
  pub tokens : F
  pub last : ℕ
  pub last_seen : ℕ
  pub rate : F
  pub burst : ℕ

pub record Limiter (F : Type 0) : Type 0 where
  pub max_rate : F
  pub burst : ℕ
  pub ttl : ℕ
  pub ips : Map (IpLimiter F)

module _ {F : Type 0} (fl : Floats F) where
  pub refill : ℕ → IpLimiter F → F
  refill now l =
      let tokens = fl.plus l.tokens (fl.times (fl.seconds l.last now) l.rate) in
      if fl.above tokens (fl.of_int l.burst) then fl.of_int l.burst else tokens

  -- `tokens >= 1` is that 1 is not above them.
  pub allow_ip : ℕ → IpLimiter F → Bool × IpLimiter F
  unfolding refill
  allow_ip now l =
      let tokens = refill now l in
      let seen = λ (t : F). record l { tokens = t; last = now; last_seen = now } in
      if fl.above (fl.of_int 1) tokens
      then (false, seen tokens)
      else (true, seen (fl.minus tokens (fl.of_int 1)))

  -- Durations are nanoseconds; the default is five minutes.
  pub new_limiter : F → ℕ → ℕ → Limiter F
  new_limiter max_rate burst ttl = record {
    max_rate = max_rate;
    burst = if burst == 0 then 10 else burst;
    ttl = if ttl == 0 then 300000000000 else ttl;
    ips = [];
  }

  -- An address that is seen for the first time always passes.
  pub allow : ℕ → Str → Limiter F → Bool × Limiter F
  unfolding allow_ip
  allow now ip l =
      if not (fl.above l.max_rate (fl.of_int 0)) then (true, l) else (elim (lookup ip l.ips) [
        | none ↦ (
          true,
          record l {
            ips =
                insert ip
                  (record {
                    tokens = fl.minus (fl.of_int l.burst) (fl.of_int 1);
                    last = now;
                    last_seen = now;
                    rate = l.max_rate;
                    burst = l.burst;
                  })
                  l.ips;
          },
        )
        | some lim ↦
            let (passes, lim1) = allow_ip now lim in
            (passes, record l { ips = insert ip lim1 l.ips })
      ])

  -- A tick of the cleanup: the entries that were seen last before the cutoff go.
  pub fresh_since : ℕ → Map (IpLimiter F) → Map (IpLimiter F)
  fresh_since cutoff [] = []
  fresh_since cutoff ((ip, lim) ∷ rest) =
      let kept = fresh_since cutoff rest in
      if ltb lim.last_seen cutoff then kept else (ip, lim) ∷ kept

  pub cleanup : ℕ → Limiter F → Limiter F
  unfolding fresh_since
  cleanup now l = record l { ips = fresh_since (now - l.ttl) l.ips }
