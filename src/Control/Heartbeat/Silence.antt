-- ===== src/Control/Heartbeat/Silence.antt =====
-- internal/control/heartbeat.go: a client that no longer answers.
use reversproxy.Base.{
  ℕ, suc, ◌+◌, ◌-◌, ◌*◌, ◌≤◌, ◌<◌, ◌≡◌, inr, Bool, true, false, [], ◌∷◌, if◌then◌else◌, ◌⊎◌, arith,
}
use reversproxy.Control.Heartbeat.{Heartbeat, Tick, cancel, on_tick, start_heartbeat}

-- A tick at `s` for a client that answered at `last` for the last time.
abbrev pub silent : ℕ → ℕ → Bool → Tick
silent last s write_ok = record { now = s; last = last; write_ok = write_ok }

-- Either the loop has ended with a cancel, or it has sent that many pings at least.
abbrev IsOn : ℕ → Heartbeat → Type 0
IsOn n h = ((h.running ≡ false) × (h.cancelled ≡ true)) ⊎ ((h.running ≡ true) × (n ≤ h.missed))

on_tick-IsOn :
    (interval n : ℕ) (t : Tick) (h : Heartbeat)
    → IsOn n h
    → IsOn (suc n) (if h.running then on_tick interval t h else h)
unfolding on_tick cancel
on_tick-IsOn interval n t h v = ground arith

-- The tick that comes more than three intervals after the last answer, with three pings sent.
on_tick-late :
    (interval : ℕ) (t : Tick) (h : Heartbeat)
    → interval * 3 < t.now - t.last
    → IsOn 3 h
    → ((if h.running then on_tick interval t h else h).running ≡ false)
      × ((if h.running then on_tick interval t h else h).cancelled ≡ true)
unfolding on_tick cancel
on_tick-late interval t h late v = ground arith

-- With ticks exactly one interval apart: a client that has answered for the last time before some tick is cancelled at the third tick after
-- that one at the latest, whatever came before and whether or not the pings can be written.
pub start_heartbeat-silent :
    (interval last s : ℕ) (w0 w1 w2 w3 : Bool) (h : Heartbeat)
    → last < s
    → h.running ≡ true
    → (start_heartbeat interval
        (silent last s w0
          ∷ silent last (s + interval) w1
          ∷ silent last (s + interval * 2) w2
          ∷ silent last (s + interval * 3) w3
          ∷ [])
        h).cancelled
      ≡ true
unfolding start_heartbeat
start_heartbeat-silent interval last s w0 w1 w2 w3 h before on =
    let v0 = on_tick-IsOn interval 0 (silent last s w0) h (inr (on, omega arith)) in
    let v1 = on_tick-IsOn interval 1 (silent last (s + interval) w1) _ v0 in
    let v2 = on_tick-IsOn interval 2 (silent last (s + interval * 2) w2) _ v1 in
    (on_tick-late interval (silent last (s + interval * 3) w3) _ (omega arith) v2).1
