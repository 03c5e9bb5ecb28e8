-- ===== src/Control/Heartbeat/Runs.antt =====
-- internal/control/heartbeat.go: the loop with a silent client.
use reversproxy.Base.{◌+◌, ◌*◌, ◌≡◌, refl, true, false, [], ◌∷◌, arith}
use reversproxy.Control.Heartbeat.{new_heartbeat, start_heartbeat}
use reversproxy.Control.Heartbeat.Silence.{silent, start_heartbeat-silent}

start_heartbeat-silent_example :
    (start_heartbeat 10
      (silent 3 5 true
        ∷ silent 3 (5 + 10) true
        ∷ silent 3 (5 + 10 * 2) true
        ∷ silent 3 (5 + 10 * 3) false
        ∷ [])
      new_heartbeat).cancelled
    ≡ true
start_heartbeat-silent_example =
    start_heartbeat-silent 10 3 5 true true true false new_heartbeat (omega arith) refl
