-- ===== src/Tunnel/Writer.antt =====
-- internal/tunnel/ctrl_registry.go: goroutines that write to one control connection under its lock,
-- and the map from clients to these writers.
pub mod Whole
mod Runs
use reversproxy.Base.{
  ℕ, ◌+◌, ◌%◌, ◌^◌, ◌<◌, ◌≡◌, Bool, true, false, List, [], ◌∷◌, ◌++◌, Option, none, some,
  if◌then◌else◌, ◌==◌, length, take, Str, Map, lookup, insert, delete, update,
}
use reversproxy.Protocol.Framing.{be32}

-- Where a goroutine stands in Write: outside, before the write of the length or of the envelope of a
-- message, or before the deferred unlock.
pub data Pc : Type 0 where
  idle : Pc
  at_length : List ℕ → Pc
  at_body : List ℕ → Pc
  unlocking : Pc

-- `broken` is whether a write has failed, after which all writes on the connection fail. `log` are
-- the messages whose Write returned no error.
pub record CtrlConnWriter : Type 0 where
  pub sent : List ℕ
  pub broken : Bool
  pub holder : Option ℕ
  pub pc : ℕ → Pc
  pub log : List (List ℕ)

abbrev pub new_writer : CtrlConnWriter
new_writer = record { sent = []; broken = false; holder = none; pc = λ _. idle; log = [] }

pub length_bytes : List ℕ → List ℕ
length_bytes b = be32 (length b % 2 ^ 32)

-- What a failing write puts on the connection.
abbrev pub partly : Bool → ℕ → List ℕ → List ℕ
partly true k bytes = []
partly false k bytes = take k bytes

-- A step of the goroutine `i`. Once a write has failed on a TCP or TLS connection all later ones fail,
-- which is `broken`; Write itself does not look at earlier failures.
pub data Step (w : CtrlConnWriter) : CtrlConnWriter → Type 0 where
  locks :
      (i : ℕ) (b : List ℕ)
      → w.holder ≡ none
      → w.pc i ≡ idle
      → Step w (record w { holder = some i; pc = update w.pc i (at_length b) })
  encodes_nothing :
      (i : ℕ) (b : List ℕ)
      → w.pc i ≡ at_length b
      → Step w (record w { pc = update w.pc i unlocking })
  writes_length :
      (i : ℕ) (b : List ℕ)
      → w.pc i ≡ at_length b
      → w.broken ≡ false
      → Step w (record w { sent = w.sent ++ length_bytes b; pc = update w.pc i (at_body b) })
  fails_length :
      (i k : ℕ) (b : List ℕ)
      → w.pc i ≡ at_length b
      → k < 4
      → Step w (record w {
        sent = w.sent ++ partly w.broken k (length_bytes b);
        broken = true;
        pc = update w.pc i unlocking;
      })
  writes_body :
      (i : ℕ) (b : List ℕ)
      → w.pc i ≡ at_body b
      → w.broken ≡ false
      → Step w
          (record w { sent = w.sent ++ b; pc = update w.pc i unlocking; log = w.log ++ b ∷ [] })
  fails_body :
      (i k : ℕ) (b : List ℕ)
      → w.pc i ≡ at_body b
      → k < length b
      → Step w (record w {
        sent = w.sent ++ partly w.broken k b;
        broken = true;
        pc = update w.pc i unlocking;
      })
  unlocks :
      (i : ℕ) → w.pc i ≡ unlocking → Step w (record w { holder = none; pc = update w.pc i idle })

pub data Reach (w : CtrlConnWriter) : CtrlConnWriter → Type 0 where
  here : Reach w w
  next : {u v : CtrlConnWriter} → Reach w u → Step u v → Reach w v

-- The writers of the clients, by their handles.
pub record ControlConnRegistry : Type 0 where
  pub writers : Map ℕ

unfoldable pub new_control_conn_registry : ControlConnRegistry
new_control_conn_registry = record { writers = [] }

unfoldable pub register_writer : Str → ℕ → ControlConnRegistry → ControlConnRegistry
register_writer client_id w r = record { writers = insert client_id w r.writers }

unfoldable pub deregister_writer : Str → ControlConnRegistry → ControlConnRegistry
deregister_writer client_id r = record { writers = delete client_id r.writers }

unfoldable pub get_writer : Str → ControlConnRegistry → Option ℕ
get_writer client_id r = lookup client_id r.writers

-- The range over the map takes any entry first; here, the first of the list.
pub pick_any : ControlConnRegistry → Option ℕ
pick_any r = elim r.writers [ [] ↦ none | (c, w) ∷ rest ↦ some w ]
