-- ===== src/Tunnel/Pump/Runs.antt =====
-- internal/tunnel/relay_mux.go: a relay of two payloads.
use reversproxy.Base.{ℕ, ◌≡◌, ◌≤◌, ◌⊎◌, refl, false, List, [], ◌∷◌, ◌++◌, map, arith}
use reversproxy.Tunnel.Pump.{
  Frame, data_frame, close_frame, awaits_writer, returned, writing, Pump, queue_size, new_pump,
  Step, reads, stops_reading, sends, stops_copying, Reach, here, next,
}
use reversproxy.Tunnel.Pump.Order.{relay_in_order}
use reversproxy.Tunnel.Pump.Ends.{halt, go, relay_terminates}

-- Two payloads have been read and one was written; both sides have ended.
abbrev halfway : Pump
halfway = record {
  taken = (1 ∷ []) ∷ (2 ∷ []) ∷ [];
  queue = (2 ∷ []) ∷ [];
  reading = false;
  writer = writing;
  sent = data_frame (1 ∷ []) ∷ [];
  failed = false;
  copying = false;
  copied = [];
  caller = awaits_writer;
}

abbrev one_read : Pump
one_read = record new_pump { taken = (1 ∷ []) ∷ []; queue = (1 ∷ []) ∷ [] }

abbrev two_read : Pump
two_read = record new_pump { taken = (1 ∷ []) ∷ (2 ∷ []) ∷ []; queue = (1 ∷ []) ∷ (2 ∷ []) ∷ [] }

to_two : Reach new_pump two_read
to_two =
    next {u = one_read} (next here (reads (1 ∷ []) refl (λ e. cc) (omega arith)))
      (reads (2 ∷ []) refl (λ e. cc) (omega arith))

to_halfway : Reach new_pump halfway
to_halfway =
    next (next (next to_two (sends (1 ∷ []) ((2 ∷ []) ∷ []) refl refl)) (stops_reading refl))
      (stops_copying refl)

relay_in_order_example :
    (front : List (List ℕ)) × (behind : List Frame) × (rest : List (List ℕ)) × (data_frame (1 ∷ [])
        ∷ []
      ≡ map data_frame front ++ behind)
    × (front ++ rest ≡ (1 ∷ []) ∷ (2 ∷ []) ∷ [])
    × ((behind ≡ []) ⊎ ((behind ≡ close_frame ∷ []) × (halfway.reading ≡ false)))
    × (1 ≤ queue_size)
    × (halfway.failed ≡ false → front ++ (2 ∷ []) ∷ [] ≡ halfway.taken)
    × (halfway.failed ≡ false
        → halfway.caller ≡ returned
        → halfway.sent ≡ map data_frame halfway.taken ++ close_frame ∷ [])
relay_in_order_example = relay_in_order halfway to_halfway

-- The second payload is written.
abbrev flushed : Pump
flushed = record halfway { queue = []; sent = data_frame (1 ∷ []) ∷ data_frame (2 ∷ []) ∷ [] }

relay_terminates_example : (1 ≤ 4) × ((flushed.caller ≡ returned) ⊎ ((v : Pump) × Step flushed v))
relay_terminates_example =
    relay_terminates halfway flushed 1 to_halfway refl refl (go halt (sends (2 ∷ []) [] refl refl))
