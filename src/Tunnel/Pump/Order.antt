-- ===== src/Tunnel/Pump/Order.antt =====
-- internal/tunnel/relay_mux.go: the bytes of a user reach the control connection in order, and the
-- close message comes behind them.
use reversproxy.Base.{
  ℕ, ◌≤◌, ◌≡◌, ◌≢◌, ◌⊎◌, refl, ap, sym, ◌∙◌, subst, inl, inr, Bool, true, false, List, [], ◌∷◌,
  ◌++◌, map, length, length-append, arith,
}
use mathlib.Core.List.{append_assoc, append-nil}
use reversproxy.Tunnel.Pump.{
  Frame, data_frame, close_frame, writing, draining, written, Caller, awaits_writer, awaits_copy,
  returned, Pump, queue_size, new_pump, Step, reads, stops_reading, sends, fails, drains, finishes,
  copies, stops_copying, closes, fails_close, returns, Reach, here, next,
}

-- `front` are the payloads that were written, `behind` what came after them on the connection, and
-- `rest` what was read and not written.
pub record IsOrdered (s : Pump) : Type 0 where
  front : List (List ℕ)
  behind : List Frame
  rest : List (List ℕ)
  split : s.sent ≡ map data_frame front ++ behind
  prefix : front ++ rest ≡ s.taken
  whole : s.failed ≡ false → front ++ s.queue ≡ s.taken
  healthy : s.writer ≡ writing → s.failed ≡ false
  broken : s.writer ≡ draining → s.failed ≡ true
  pub ended : s.writer ≡ written → (s.reading ≡ false) × (s.queue ≡ [])
  before_close : s.caller ≡ awaits_writer → behind ≡ []
  after_close :
      s.caller ≢ awaits_writer
      → (s.writer ≡ written)
        × (behind ≡ [] ⊎ behind ≡ close_frame ∷ [])
        × (s.failed ≡ false → behind ≡ close_frame ∷ [])
  small : length s.queue ≤ queue_size

pub new_pump-IsOrdered : IsOrdered new_pump
new_pump-IsOrdered = record {
  front = [];
  behind = [];
  rest = [];
  split = refl;
  prefix = refl;
  whole = λ e. refl;
  healthy = λ e. refl;
  broken = λ e. absurd cc;
  ended = λ e. absurd cc;
  before_close = λ e. refl;
  after_close = λ ne. absurd (ne refl);
  small = omega arith;
}

Caller-cases : (c : Caller) → (c ≡ awaits_writer) ⊎ (c ≢ awaits_writer)
Caller-cases awaits_writer = inl refl
Caller-cases awaits_copy = inr (λ e. cc)
Caller-cases returned = inr (λ e. cc)

-- The goroutine that writes is at work only before the function goes on.
waiting_caller : (s : Pump) → IsOrdered s → s.writer ≢ written → s.caller ≡ awaits_writer
waiting_caller s v ne = elim (Caller-cases s.caller) [
  | inl e ↦ e
  | inr other ↦ absurd (ne (v.after_close other).0)
]

-- The goroutine that copies from the peer changes nothing here.
copy-IsOrdered :
    (s : Pump)
    → IsOrdered s
    → (copying : Bool) (copied : List ℕ)
    → IsOrdered (record s { copying = copying; copied = copied })
copy-IsOrdered s v copying copied = record {
  front = v.front;
  behind = v.behind;
  rest = v.rest;
  split = v.split;
  prefix = v.prefix;
  whole = v.whole;
  healthy = v.healthy;
  broken = v.broken;
  ended = v.ended;
  before_close = v.before_close;
  after_close = v.after_close;
  small = v.small;
}

map-snoc :
    (front : List (List ℕ)) (p : List ℕ)
    → map data_frame (front ++ p ∷ []) ≡ map data_frame front ++ data_frame p ∷ []
map-snoc [] p = refl
map-snoc (x ∷ front) p = ap (◌∷◌ (data_frame x)) (map-snoc front p)

pub Step-IsOrdered : (s u : Pump) → IsOrdered s → Step s u → IsOrdered u
Step-IsOrdered s u v (reads p going full room) = record {
  front = v.front;
  behind = v.behind;
  rest = v.rest ++ p ∷ [];
  split = v.split;
  prefix =
      sym (append_assoc v.front v.rest (p ∷ []))
      ∙ ap (λ (xs : List (List ℕ)). xs ++ p ∷ []) v.prefix;
  whole = λ e.
      sym (append_assoc v.front s.queue (p ∷ []))
      ∙ ap (λ (xs : List (List ℕ)). xs ++ p ∷ []) (v.whole e);
  healthy = v.healthy;
  broken = v.broken;
  ended = λ e. absurd (let z = v.ended e in cc);
  before_close = v.before_close;
  after_close = v.after_close;
  small = omega (arith, length-append s.queue (p ∷ []));
}
Step-IsOrdered s u v (stops_reading going) = record {
  front = v.front;
  behind = v.behind;
  rest = v.rest;
  split = v.split;
  prefix = v.prefix;
  whole = v.whole;
  healthy = v.healthy;
  broken = v.broken;
  ended = λ e. (refl, (v.ended e).1);
  before_close = v.before_close;
  after_close = v.after_close;
  small = v.small;
}
Step-IsOrdered s u v (sends p q at_work first) =
    let none_failed = v.healthy at_work in
    let taken : v.front ++ p ∷ q ≡ s.taken =
      subst (λ (xs : List (List ℕ)). v.front ++ xs ≡ s.taken) first (v.whole none_failed) in
    let unclosed = v.before_close (waiting_caller s v (λ e. cc)) in
    record {
      front = v.front ++ p ∷ [];
      behind = [];
      rest = q;
      split =
          ap (λ (xs : List Frame). xs ++ data_frame p ∷ [])
            (v.split
              ∙ ap (λ (xs : List Frame). map data_frame v.front ++ xs) unclosed
              ∙ append-nil _)
          ∙ sym (map-snoc v.front p)
          ∙ sym (append-nil _);
      prefix = append_assoc v.front (p ∷ []) q ∙ taken;
      whole = λ e. append_assoc v.front (p ∷ []) q ∙ taken;
      healthy = v.healthy;
      broken = v.broken;
      ended = λ e. absurd cc;
      before_close = λ e. refl;
      after_close = λ ne. absurd (ne (waiting_caller s v (λ e. cc)));
      small = omega (arith, v.small, ap (λ (xs : List (List ℕ)). length xs) first);
    }
Step-IsOrdered s u v (fails p q at_work first) = record {
  front = v.front;
  behind = v.behind;
  rest = v.rest;
  split = v.split;
  prefix = v.prefix;
  whole = λ e. absurd cc;
  healthy = λ e. absurd cc;
  broken = λ e. refl;
  ended = λ e. absurd cc;
  before_close = v.before_close;
  after_close = λ ne. absurd (ne (waiting_caller s v (λ e. cc)));
  small = omega (arith, v.small, ap (λ (xs : List (List ℕ)). length xs) first);
}
Step-IsOrdered s u v (drains p q at_work first) = record {
  front = v.front;
  behind = v.behind;
  rest = v.rest;
  split = v.split;
  prefix = v.prefix;
  whole = λ e. absurd (let z = v.broken at_work in cc);
  healthy = v.healthy;
  broken = v.broken;
  ended = λ e. absurd cc;
  before_close = v.before_close;
  after_close = v.after_close;
  small = omega (arith, v.small, ap (λ (xs : List (List ℕ)). length xs) first);
}
Step-IsOrdered s u v (finishes stopped empty at_work) = record {
  front = v.front;
  behind = v.behind;
  rest = v.rest;
  split = v.split;
  prefix = v.prefix;
  whole = v.whole;
  healthy = λ e. absurd cc;
  broken = λ e. absurd cc;
  ended = λ e. (stopped, empty);
  before_close = v.before_close;
  after_close = λ ne. (refl, (v.after_close ne).1, (v.after_close ne).2);
  small = v.small;
}
Step-IsOrdered s u v (copies bytes going) = copy-IsOrdered s v s.copying (s.copied ++ bytes)
Step-IsOrdered s u v (stops_copying going) = copy-IsOrdered s v false s.copied
Step-IsOrdered s u v (closes waits done) =
    let unclosed = v.before_close waits in
    record {
      front = v.front;
      behind = close_frame ∷ [];
      rest = v.rest;
      split =
          ap (λ (xs : List Frame). xs ++ close_frame ∷ [])
            (v.split
              ∙ ap (λ (xs : List Frame). map data_frame v.front ++ xs) unclosed
              ∙ append-nil _);
      prefix = v.prefix;
      whole = v.whole;
      healthy = v.healthy;
      broken = v.broken;
      ended = v.ended;
      before_close = λ e. absurd cc;
      after_close = λ ne. (done, inr refl, λ e. refl);
      small = v.small;
    }
Step-IsOrdered s u v (fails_close waits done) = record {
  front = v.front;
  behind = v.behind;
  rest = v.rest;
  split = v.split;
  prefix = v.prefix;
  whole = λ e. absurd cc;
  healthy = λ e. absurd cc;
  broken = λ e. refl;
  ended = v.ended;
  before_close = λ e. absurd cc;
  after_close = λ ne. (done, inl (v.before_close waits), λ e. absurd cc);
  small = v.small;
}
Step-IsOrdered s u v (returns waits stopped) = record {
  front = v.front;
  behind = v.behind;
  rest = v.rest;
  split = v.split;
  prefix = v.prefix;
  whole = v.whole;
  healthy = v.healthy;
  broken = v.broken;
  ended = v.ended;
  before_close = λ e. absurd cc;
  after_close = λ ne. v.after_close (λ e. cc);
  small = v.small;
}

pub Reach-IsOrdered : (s u : Pump) → IsOrdered s → Reach s u → IsOrdered u
Reach-IsOrdered s u v here = v
Reach-IsOrdered s u v (next r st) = Step-IsOrdered _ u (Reach-IsOrdered s _ v r) st

behind_cases :
    (s : Pump)
    → (v : IsOrdered s) → (v.behind ≡ []) ⊎ ((v.behind ≡ close_frame ∷ []) × (s.reading ≡ false))
behind_cases s v = elim (Caller-cases s.caller) [
  | inl e ↦ inl (v.before_close e)
  | inr other ↦
      let (done, either, _) = v.after_close other in
      elim either [ inl e ↦ inl e | inr e ↦ inr (e, (v.ended done).0) ]
]

all_sent :
    (s : Pump)
    → (v : IsOrdered s) → s.failed ≡ false
    → s.caller ≢ awaits_writer
    → s.sent ≡ map data_frame s.taken ++ close_frame ∷ []
all_sent s v fine other =
    let (done, _, closed) = v.after_close other in
    let empty : v.front ++ [] ≡ s.taken =
      subst (λ (xs : List (List ℕ)). v.front ++ xs ≡ s.taken) (v.ended done).1 (v.whole fine) in
    let same : v.front ≡ s.taken = sym (append-nil v.front) ∙ empty in
    v.split
    ∙ ap (λ (xs : List Frame). map data_frame v.front ++ xs) (closed fine)
    ∙ ap (λ (xs : List (List ℕ)). map data_frame xs ++ close_frame ∷ []) same

-- In every state that the goroutines reach: what has been written to the control connection are the
-- payloads that were read, in order and from the first on, and behind them nothing or one close
-- message, which comes only when no more is read; at most 64 payloads wait in the channel; and if no write failed,
-- all that was read is written or waits, and a function that has returned has written all of it and
-- the close message.
pub relay_in_order :
    (s : Pump)
    → Reach new_pump s
    → (front : List (List ℕ)) × (behind : List Frame) × (rest : List (List ℕ)) × (s.sent
        ≡ map data_frame front ++ behind)
      × (front ++ rest ≡ s.taken)
      × ((behind ≡ []) ⊎ ((behind ≡ close_frame ∷ []) × (s.reading ≡ false)))
      × (length s.queue ≤ queue_size)
      × (s.failed ≡ false → front ++ s.queue ≡ s.taken)
      × (s.failed ≡ false
          → s.caller ≡ returned
          → s.sent ≡ map data_frame s.taken ++ close_frame ∷ [])
relay_in_order s r =
    let v = Reach-IsOrdered new_pump s new_pump-IsOrdered r in
    (
      v.front,
      v.behind,
      v.rest,
      v.split,
      v.prefix,
      behind_cases s v,
      v.small,
      v.whole,
      λ fine over. all_sent s v fine (λ e. cc),
    )
