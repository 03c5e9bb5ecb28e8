-- ===== src/Tunnel/Mux.antt =====
-- internal/tunnel/socks_mux.go: the SOCKS channels that share one control connection.
pub mod Live
pub mod Calls
pub mod Pipe
pub mod Order
mod Runs
use reversproxy.Base.{
  ℕ, zero, suc, ◌+◌, Bool, true, false, List, [], ◌∷◌, ◌++◌, Option, none, some, if◌then◌else◌,
  ◌==◌, Str, Map, lookup, insert, delete, values, update, length, take, drop, leb,
}
use reversproxy.Base.Result.{Result, ok, err}

-- `ready_ch` has room for one result. `writes` are the Write calls on the Recv pipe that have not
-- returned, in the order in which they get the pipe, each with the bytes that it still offers;
-- `received` are the bytes that the reader of the pipe has taken. `closed` and `pipe_closed` are
-- whether `done` and the pipe have been closed.
pub record Channel : Type 0 where
  pub conn_id : Str
  pub ready_ch : Option (Bool × Str)
  pub writes : List (List ℕ)
  pub received : List ℕ
  pub pipe_closed : Bool
  pub closed : Bool

-- `chans` are the channel objects that the map points to. `wg` is the counter of the WaitGroup,
-- and `negative` is whether it was ever brought below zero, which panics.
pub record Mux : Type 0 where
  pub channels : Map ℕ
  pub chans : ℕ → Channel
  pub next : ℕ
  pub wg : ℕ
  pub negative : Bool

pub data MuxError : Type 0 where
  already_registered unknown_conn closed_pipe : MuxError

abbrev pub new_object : Str → Channel
new_object conn_id = record {
  conn_id = conn_id;
  ready_ch = none;
  writes = [];
  received = [];
  pipe_closed = false;
  closed = false;
}

unfoldable pub new_mux : Mux
new_mux = record { channels = []; chans = λ _. new_object []; next = 0; wg = 0; negative = false }

-- Close of the channel, which is idempotent, and of the pipe's write side: the Write calls that have
-- not returned fail, and what they still offered is lost.
abbrev pub closing : Channel → Channel
closing c = record c { closed = true; pipe_closed = true; writes = [] }

-- wg.Done()
wg_done : ℕ → Bool → ℕ × Bool
wg_done zero negative = (zero, true)
wg_done (suc n) negative = (n, negative)

unfoldable pub new_channel : Str → Mux → Result MuxError (ℕ × Mux)
new_channel conn_id m = elim (lookup conn_id m.channels) [
  | some _ ↦ err already_registered
  | none ↦ ok (
    m.next,
    record m {
      channels = insert conn_id m.next m.channels;
      chans = update m.chans m.next (new_object conn_id);
      next = suc m.next;
      wg = m.wg + 1;
    },
  )
]

-- Remove and DeliverClose are the same code.
unfoldable pub remove : Str → Mux → Mux
unfolding wg_done
remove conn_id m = elim (lookup conn_id m.channels) [
  | none ↦ m
  | some p ↦
      let (wg, negative) = wg_done m.wg m.negative in
      record m {
        channels = delete conn_id m.channels;
        chans = update m.chans p (closing (m.chans p));
        wg = wg;
        negative = negative;
      }
]

abbrev pub deliver_close : Str → Mux → Mux
deliver_close conn_id m = remove conn_id m

-- Deliver up to its Write on the pipe, which it makes outside the lock. An io.Pipe has no buffer:
-- Write returns when readers have taken all of its bytes, or with an error when the pipe is closed
-- before that, so `ok` is that Write has begun. The caller goes on when it has returned. A channel that
-- is removed between the look-up and the Write is here one that is removed right after the Write has
-- begun: in both the Write fails and nothing of it is read.
unfoldable pub deliver : Str → List ℕ → Mux → Result MuxError Mux
deliver conn_id payload m = elim (lookup conn_id m.channels) [
  | none ↦ err unknown_conn
  | some p ↦
      let c = m.chans p in
      if c.pipe_closed
      then err closed_pipe
      else ok
          (record m { chans = update m.chans p (record c { writes = c.writes ++ payload ∷ [] }) })
]

-- A Read of at most `n` bytes from the pipe: it takes from the first Write, which returns once it has
-- nothing left; `none` is that it blocks, or reports the end of a pipe that is closed.
pub take_first : ℕ → List (List ℕ) → Option (List ℕ × List (List ℕ))
take_first n [] = none
take_first n (w ∷ ws) = some (take n w, (if leb (length w) n then ws else drop n w ∷ ws))

pub read_pipe : ℕ → ℕ → Mux → Option (List ℕ × Mux)
unfolding take_first
read_pipe p n m = elim (take_first n (m.chans p).writes) [
  | none ↦ none
  | some (bytes, ws) ↦
      let c = record (m.chans p) { writes = ws; received = (m.chans p).received ++ bytes } in
      some (bytes, record m { chans = update m.chans p c })
]

-- A second result finds the buffer full and is dropped.
fill : Option (Bool × Str) → Bool × Str → Option (Bool × Str)
fill none r = some r
fill (some old) r = some old

pub deliver_ready : Str → Bool → Str → Mux → Result MuxError Mux
unfolding fill
deliver_ready conn_id success message m = elim (lookup conn_id m.channels) [
  | none ↦ err unknown_conn
  | some p ↦
      let c = m.chans p in
      ok (record m {
        chans = update m.chans p (record c { ready_ch = fill c.ready_ch (success, message) });
      })
]

pub get : Str → Mux → Option ℕ
get conn_id m = lookup conn_id m.channels

-- The loop of CloseAll over the channels that it took out of the map.
pub close_each : List ℕ → Mux → Mux
unfolding wg_done
close_each [] m = m
close_each (p ∷ ps) m =
    let (wg, negative) = wg_done m.wg m.negative in
    close_each ps
      (record m { chans = update m.chans p (closing (m.chans p)); wg = wg; negative = negative })

pub close_all : Mux → Mux
close_all m = close_each (values m.channels) (record m { channels = [] })

-- DrainAndClose returns when the counter is zero, or after the timeout; `none` is that it waits.
pub drain_and_close : Bool → Mux → Option Mux
drain_and_close timed_out m =
    if m.wg == 0 then some m else (if timed_out then some (close_all m) else none)
