-- ===== src/Client/Pool/Runs.antt =====
-- internal/client/pool.go: a pool of two servers.
use reversproxy.Base.{[], ◌∷◌}
use reversproxy.Client.Pool.{ServerPool}

abbrev two : ServerPool
two = record { sessions = 7 ∷ 9 ∷ []; counter = 3 }
