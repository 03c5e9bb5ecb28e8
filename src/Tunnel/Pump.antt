-- ===== src/Tunnel/Pump.antt =====
-- internal/tunnel/relay_mux.go: the goroutines of RelayMuxChannel.
pub mod Order
pub mod Ends
mod Runs
use reversproxy.Base.{ℕ, ◌<◌, ◌≡◌, ◌≢◌, Bool, true, false, List, [], ◌∷◌, ◌++◌, length}

-- A message on the control connection: bytes, or the close message.
pub data Frame : Type 0 where
  data_frame : List ℕ → Frame
  close_frame : Frame

-- The goroutine that drains `outSend`: it writes, it only drains since a write has failed, or it has
-- returned.
pub data Writer : Type 0 where
  writing draining written : Writer

-- The function itself: it waits for the writer, or for the copy of what the peer sends, or is over.
pub data Caller : Type 0 where
  awaits_writer awaits_copy returned : Caller

-- `taken` are the payloads that were put into the buffered channel `outSend` so far and `queue` those
-- that wait in it. A payload that has been read and is blocked on the full channel counts as not read
-- yet, and one that the goroutine that drains has received and is writing as still in the channel;
-- `sent` are the messages that were written. `reading` is whether the goroutine that reads goes on,
-- and `copying` whether the one that copies from the peer does; `copied` is what it has written.
pub record Pump : Type 0 where
  pub taken : List (List ℕ)
  pub queue : List (List ℕ)
  pub reading : Bool
  pub writer : Writer
  pub sent : List Frame
  pub failed : Bool
  pub copying : Bool
  pub copied : List ℕ
  pub caller : Caller

abbrev pub queue_size : ℕ
queue_size = 64

abbrev pub new_pump : Pump
new_pump = record {
  taken = [];
  queue = [];
  reading = true;
  writer = writing;
  sent = [];
  failed = false;
  copying = true;
  copied = [];
  caller = awaits_writer;
}

pub data Step (s : Pump) : Pump → Type 0 where
  -- Goroutine A: a read of some bytes, which waits for room in the channel, and the last read.
  reads :
      (payload : List ℕ)
      → s.reading ≡ true
      → payload ≢ []
      → length s.queue < queue_size
      → Step s (record s { taken = s.taken ++ payload ∷ []; queue = s.queue ++ payload ∷ [] })
  stops_reading : s.reading ≡ true → Step s (record s { reading = false })
  -- The mux writer.
  sends :
      (payload : List ℕ) (rest : List (List ℕ))
      → s.writer ≡ writing
      → s.queue ≡ payload ∷ rest
      → Step s (record s { queue = rest; sent = s.sent ++ data_frame payload ∷ [] })
  fails :
      (payload : List ℕ) (rest : List (List ℕ))
      → s.writer ≡ writing
      → s.queue ≡ payload ∷ rest
      → Step s (record s { queue = rest; writer = draining; failed = true })
  drains :
      (payload : List ℕ) (rest : List (List ℕ))
      → s.writer ≡ draining
      → s.queue ≡ payload ∷ rest
      → Step s (record s { queue = rest })
  finishes :
      s.reading ≡ false → s.queue ≡ [] → s.writer ≢ written → Step s (record s { writer = written })
  -- Goroutine B.
  copies : (bytes : List ℕ) → s.copying ≡ true → Step s (record s { copied = s.copied ++ bytes })
  stops_copying : s.copying ≡ true → Step s (record s { copying = false })
  -- The function: the close message, whose write may fail, and the return.
  closes :
      s.caller ≡ awaits_writer
      → s.writer ≡ written
      → Step s (record s { sent = s.sent ++ close_frame ∷ []; caller = awaits_copy })
  fails_close :
      s.caller ≡ awaits_writer
      → s.writer ≡ written
      → Step s (record s { failed = true; caller = awaits_copy })
  returns : s.caller ≡ awaits_copy → s.copying ≡ false → Step s (record s { caller = returned })

pub data Reach (s : Pump) : Pump → Type 0 where
  here : Reach s s
  next : {u v : Pump} → Reach s u → Step u v → Reach s v
