-- ===== src/Client/Pool.antt =====
-- internal/client/pool.go: the servers that are connected, taken in turn.
pub mod Turns
mod Runs
use reversproxy.Base.{
  ℕ, zero, suc, ◌+◌, ◌%◌, ◌^◌, Bool, List, [], ◌∷◌, ◌++◌, Option, none, some, if◌then◌else◌, ◌==◌,
  length, get_elem?,
}

-- The sessions by the identity of their objects; `counter` is atomic and wraps at 2 ^ 64.
pub record ServerPool : Type 0 where
  pub sessions : List ℕ
  pub counter : ℕ

pub new_server_pool : ServerPool
new_server_pool = record { sessions = []; counter = 0 }

pub add : ℕ → ServerPool → ServerPool
add s p = record p { sessions = p.sessions ++ s ∷ [] }

pub without : ℕ → List ℕ → List ℕ
without s [] = []
without s (x ∷ xs) = let rest = without s xs in if x == s then rest else x ∷ rest

pub remove : ℕ → ServerPool → ServerPool
unfolding without
remove s p = record p { sessions = without s p.sessions }

pub pick : ServerPool → Option ℕ × ServerPool
pick p = if length p.sessions == 0 then (none, p) else (
  get_elem? p.sessions (p.counter % length p.sessions),
  record p { counter = (p.counter + 1) % 2 ^ 64 },
)

-- Several picks one after the other.
pub picks : ℕ → ServerPool → List (Option ℕ) × ServerPool
unfolding pick
picks zero p = ([], p)
picks (suc n) p = let (s, p1) = pick p in let (rest, p2) = picks n p1 in (s ∷ rest, p2)
