-- ===== src/Control/Heartbeat.antt =====
-- internal/control/heartbeat.go: the loop over the ticks of the heartbeat.
pub mod Silence
mod Runs
use reversproxy.Base.{
  ℕ, suc, ◌+◌, ◌-◌, ◌*◌, Bool, true, false, not, ◌&&◌, List, [], ◌∷◌, if◌then◌else◌, ltb,
}

abbrev pub max_missed : ℕ
max_missed = 2

-- `missed` counts the pings that were sent, `cancelled` is whether the client's context was
-- cancelled by the loop, and `running` whether the loop goes on.
pub record Heartbeat : Type 0 where
  pub missed : ℕ
  pub cancelled : Bool
  pub running : Bool

abbrev pub new_heartbeat : Heartbeat
new_heartbeat = record { missed = 0; cancelled = false; running = true }

-- A tick: its time, when the client answered last, and whether the ping can be written.
pub record Tick : Type 0 where
  pub now : ℕ
  pub last : ℕ
  pub write_ok : Bool

pub cancel : Heartbeat → Heartbeat
cancel h = record h { cancelled = true; running = false }

pub on_tick : ℕ → Tick → Heartbeat → Heartbeat
unfolding cancel
on_tick interval t h =
    if ltb (interval * (max_missed + 1)) (t.now - t.last) && not (ltb h.missed max_missed)
    then cancel h
    else (if t.write_ok then record h { missed = suc h.missed } else cancel h)

-- The loop over the ticks; the context of the client is not cancelled by others.
pub start_heartbeat : ℕ → List Tick → Heartbeat → Heartbeat
unfolding on_tick
start_heartbeat interval [] h = h
start_heartbeat interval (t ∷ ts) h =
    start_heartbeat interval ts (if h.running then on_tick interval t h else h)
