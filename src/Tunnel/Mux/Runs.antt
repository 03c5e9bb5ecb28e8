-- ===== src/Tunnel/Mux/Runs.antt =====
-- The theorems on the multiplexer at concrete inputs.
use reversproxy.Base.{◌≡◌, true, List, [], ◌∷◌, ◌++◌, codes}
use reversproxy.Tunnel.Mux.{new_mux}
use reversproxy.Tunnel.Mux.Live.{IsLive}
use reversproxy.Tunnel.Mux.Calls.{Call, opens, delivers, reads, readies, run, run-new_mux-IsLive}
use reversproxy.Tunnel.Mux.Pipe.{IsInOrder, delivered, offered}
use reversproxy.Tunnel.Mux.Order.{reads_all, run-new_mux-IsInOrder}

abbrev calls : List Call
calls =
    opens (codes "a")
    ∷ opens (codes "b")
    ∷ readies (codes "a") true []
    ∷ delivers (codes "a") (1 ∷ 2 ∷ [])
    ∷ reads 0 1
    ∷ delivers (codes "b") (4 ∷ [])
    ∷ delivers (codes "a") (3 ∷ [])
    ∷ []

run-new_mux-IsLive_example : IsLive (run calls new_mux)
run-new_mux-IsLive_example = run-new_mux-IsLive calls

run-new_mux-IsInOrder_example :
    let m = run calls new_mux in
    let c = m.chans 0 in
    let c1 = (run (reads_all 0 c.writes) m).chans 0 in
    IsInOrder c (delivered 0 calls new_mux)
    × (c1.writes ≡ [])
    × (c1.received ≡ c.received ++ offered c.writes)
run-new_mux-IsInOrder_example = run-new_mux-IsInOrder calls 0
