-- ===== src/Tunnel/Limiter/Bursts.antt =====
-- internal/tunnel/ratelimit.go: how many connections of one address pass at one instant.
use reversproxy.Base.{
  ℕ, zero, suc, ◌+◌, ◌-◌, ◌≤◌, ◌<◌, ◌≡◌, refl, ap, ◌∙◌, true, false, none, some, if◌then◌else◌, ltb,
  ◌==◌, Str, str_eq_refl, lookup, insert, lookup-insert, arith,
}
use reversproxy.Tunnel.Limiter.{Floats, IpLimiter, refill, allow_ip, Limiter, allow}

-- Whole numbers as floating-point numbers, as far as they are exact, and no tokens in no time.
pub record IsExact {F : Type 0} (fl : Floats F) : Type 0 where
  pub at_once :
      (t a : ℕ) (rate : F) → fl.plus (fl.of_int a) (fl.times (fl.seconds t t) rate) ≡ fl.of_int a
  pub minus_one : (a : ℕ) → fl.minus (fl.of_int (suc a)) (fl.of_int 1) ≡ fl.of_int a
  pub above_int : (a b : ℕ) → fl.above (fl.of_int a) (fl.of_int b) ≡ ltb b a

module _ {F : Type 0} (fl : Floats F) where
  -- How many of a number of calls at one instant pass.
  pub passes : ℕ → ℕ → Str → Limiter F → ℕ
  passes zero now ip l = 0
  passes (suc k) now ip l =
      let (pass, l1) = allow fl now ip l in (if pass then 1 else 0) + passes k now ip l1

  module _ (exact : IsExact fl) where
    refill_at_once :
        (now t : ℕ) (lim : IpLimiter F)
        → lim.tokens ≡ fl.of_int t
        → lim.last ≡ now
        → t ≤ lim.burst
        → refill fl now lim ≡ fl.of_int t
    unfolding refill
    refill_at_once now t lim e last h =
        let sum : fl.plus lim.tokens (fl.times (fl.seconds lim.last now) lim.rate) ≡ fl.of_int t =
          rw (e, last) (exact.at_once now t lim.rate) in
        rw sum (ground (arith, exact.above_int t lim.burst))

    allow_ip_at_once :
        (now t : ℕ) (lim : IpLimiter F)
        → lim.tokens ≡ fl.of_int t
        → lim.last ≡ now
        → t ≤ lim.burst
        → allow_ip fl now lim ≡ (
          if t == 0 then false else true,
          record lim { tokens = fl.of_int (t - 1); last = now; last_seen = now },
        )
    unfolding allow_ip
    allow_ip_at_once now zero lim e last h =
        rw (refill_at_once now 0 lim e last h, allow_ip) (ground (arith, exact.above_int 1 0))
    allow_ip_at_once now (suc t) lim e last h =
        rw (refill_at_once now (suc t) lim e last h, allow_ip)
          (ground (arith, exact.above_int 1 (suc t), exact.minus_one t))

    allow_at_once :
        (now t : ℕ) (ip : Str) (l : Limiter F) (lim : IpLimiter F)
        → fl.above l.max_rate (fl.of_int 0) ≡ true
        → lookup ip l.ips ≡ some lim
        → lim.tokens ≡ fl.of_int t
        → lim.last ≡ now
        → t ≤ lim.burst
        → allow fl now ip l ≡ (
          if t == 0 then false else true,
          record l {
            ips =
                insert ip
                  (record lim { tokens = fl.of_int (t - 1); last = now; last_seen = now })
                  l.ips;
          },
        )
    unfolding allow
    allow_at_once now t ip l lim limited e tokens last h =
        rw (limited, e, allow_ip_at_once now t lim tokens last h, allow) refl

    passes_known :
        (k now t : ℕ) (ip : Str) (l : Limiter F) (lim : IpLimiter F)
        → fl.above l.max_rate (fl.of_int 0) ≡ true
        → lookup ip l.ips ≡ some lim
        → lim.tokens ≡ fl.of_int t
        → lim.last ≡ now
        → t ≤ lim.burst
        → passes k now ip l ≡ (if ltb k t then k else t)
    unfolding passes
    passes_known zero now t ip l lim limited e tokens last h = ground arith
    passes_known (suc k) now t ip l lim limited e tokens last h =
        let lim1 : IpLimiter F = record lim {
          tokens = fl.of_int (t - 1);
          last = now;
          last_seen = now;
        } in
        let there : lookup ip (insert ip lim1 l.ips) ≡ some lim1 =
          ground (arith, lookup-insert ip ip lim1 l.ips, str_eq_refl ip) in
        let rest =
          passes_known k now (t - 1) ip (record l { ips = insert ip lim1 l.ips }) lim1 limited there
            refl refl (omega arith) in
        rw (allow_at_once now t ip l lim limited e tokens last h) (rw rest (ground arith))

    -- With a rate limit, of a number of connections that an address not seen before opens at one
    -- instant as many pass as the burst says, or all if there are fewer.
    pub passes_new :
        (k now : ℕ) (ip : Str) (l : Limiter F)
        → fl.above l.max_rate (fl.of_int 0) ≡ true
        → 0 < l.burst
        → lookup ip l.ips ≡ none
        → passes k now ip l ≡ (if ltb k l.burst then k else l.burst)
    unfolding passes allow
    passes_new zero now ip l limited h e = ground arith
    passes_new (suc k) now ip l limited h e =
        let made : IpLimiter F = record {
          tokens = fl.minus (fl.of_int l.burst) (fl.of_int 1);
          last = now;
          last_seen = now;
          rate = l.max_rate;
          burst = l.burst;
        } in
        let there : lookup ip (insert ip made l.ips) ≡ some made =
          ground (arith, lookup-insert ip ip made l.ips, str_eq_refl ip) in
        let one_less : l.burst ≡ suc (l.burst - 1) = omega arith in
        let held : made.tokens ≡ fl.of_int (l.burst - 1) =
          ap (λ n. fl.minus (fl.of_int n) (fl.of_int 1)) one_less ∙ exact.minus_one (l.burst - 1) in
        let rest =
          passes_known k now (l.burst - 1) ip (record l { ips = insert ip made l.ips }) made limited
            there held refl (omega arith) in
        rw (limited, e) (rw rest (ground arith))
