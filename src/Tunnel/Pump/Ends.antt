-- ===== src/Tunnel/Pump/Ends.antt =====
-- internal/tunnel/relay_mux.go: the function returns when both sides have ended.
use reversproxy.Base.{
  ℕ, suc, ◌+◌, ◌<◌, ◌≤◌, ◌≡◌, ◌≢◌, ◌⊎◌, inl, inr, length, sym, ap, subst, arith, refl, ◌∙◌, false,
  List, [], ◌∷◌,
}
use reversproxy.Tunnel.Pump.{
  Writer, writing, draining, written, Caller, awaits_writer, awaits_copy, returned, Pump, new_pump,
  Step, reads, stops_reading, sends, fails, drains, finishes, copies, stops_copying, closes,
  fails_close, returns, Reach, here, next,
}
use reversproxy.Tunnel.Pump.Order.{IsOrdered, new_pump-IsOrdered, Step-IsOrdered, Reach-IsOrdered}

first_step : (s t u : Pump) → Step s t → Reach t u → Reach s u
first_step s t u st here = next here st
first_step s t u st (next r last) = next (first_step s t _ st r) last

-- A state from which the function can return without another failure.
abbrev Returns : Pump → Type 0
Returns s = (u : Pump) × Reach s u × (u.caller ≡ returned) × (u.failed ≡ s.failed)

after_step : (s t : Pump) → Step s t → t.failed ≡ s.failed → Returns t → Returns s
after_step s t st same (u, r, over, kept) = (u, first_step s t u st r, over, kept ∙ same)

return_written :
    (s : Pump) → s.writer ≡ written → s.copying ≡ false → s.caller ≡ awaits_writer → Returns s
return_written s done stopped waits =
    (_, next (next here (closes waits done)) (returns refl stopped), refl, refl)

finishing :
    (s : Pump) (w : Writer)
    → s.writer ≡ w
    → s.queue ≡ []
    → s.reading ≡ false
    → s.copying ≡ false
    → s.caller ≡ awaits_writer
    → Returns s
finishing s writing e empty no_reads stopped waits =
    after_step s _ (finishes no_reads empty (λ z. cc)) refl (return_written _ refl stopped waits)
finishing s draining e empty no_reads stopped waits =
    after_step s _ (finishes no_reads empty (λ z. cc)) refl (return_written _ refl stopped waits)
finishing s written e empty no_reads stopped waits = return_written s e stopped waits

-- One payload after the other is written, or dropped.
flushing :
    (q : List (List ℕ)) (s : Pump) (w : Writer)
    → IsOrdered s
    → s.writer ≡ w
    → s.queue ≡ q
    → s.reading ≡ false
    → s.copying ≡ false
    → s.caller ≡ awaits_writer
    → Returns s
flushing [] s w v e empty no_reads stopped waits = finishing s w e empty no_reads stopped waits
flushing (p ∷ q) s writing v e first no_reads stopped waits =
    after_step s _ (sends p q e first) refl (
      flushing q _ writing (Step-IsOrdered s _ v (sends p q e first)) e refl no_reads stopped waits)
flushing (p ∷ q) s draining v e first no_reads stopped waits =
    after_step s _ (drains p q e first) refl (
      flushing q _ draining (Step-IsOrdered s _ v (drains p q e first)) e refl no_reads stopped
        waits)
flushing (p ∷ q) s written v e first no_reads stopped waits = absurd (let z = (v.ended e).1 in cc)

returning :
    (s : Pump) (c : Caller)
    → IsOrdered s
    → s.caller ≡ c
    → s.reading ≡ false
    → s.copying ≡ false
    → Returns s
returning s awaits_writer v e no_reads stopped =
    flushing s.queue s s.writer v refl refl no_reads stopped e
returning s awaits_copy v e no_reads stopped = (_, next here (returns e stopped), refl, refl)
returning s returned v e no_reads stopped = (s, here, e, refl)

-- From every state that the goroutines reach in which the user's side has ended and the copying from
-- the peer has ended, the function can return with no other failure than those that happened.
pub relay_returns :
    (s : Pump)
    → Reach new_pump s
    → s.reading ≡ false
    → s.copying ≡ false
    → (u : Pump) × Reach s u × (u.caller ≡ returned) × (u.failed ≡ s.failed)
relay_returns s r no_reads stopped =
    returning s s.caller (Reach-IsOrdered new_pump s new_pump-IsOrdered r) refl no_reads stopped

-- `n` steps in a row.
pub data Walk (s : Pump) : ℕ → Pump → Type 0 where
  halt : Walk s 0 s
  go : {u v : Pump} {n : ℕ} → Walk s n u → Step u v → Walk s (suc n) v

abbrev writer_left : Writer → ℕ
writer_left writing = 1
writer_left draining = 1
writer_left written = 0

abbrev caller_left : Caller → ℕ
caller_left awaits_writer = 2
caller_left awaits_copy = 1
caller_left returned = 0

-- The steps that are left when both sides have ended.
abbrev pub steps_left : Pump → ℕ
steps_left s = length s.queue + writer_left s.writer + caller_left s.caller

-- Both sides have ended, and go on to be so.
abbrev IsEnded : Pump → Type 0
IsEnded s = (s.reading ≡ false) × (s.copying ≡ false)

Step-steps_left : (s u : Pump) → IsEnded s → Step s u → IsEnded u × (steps_left u < steps_left s)
Step-steps_left s u (no_reads, stopped) (reads p going full room) = absurd cc
Step-steps_left s u (no_reads, stopped) (stops_reading going) = absurd cc
Step-steps_left s u (no_reads, stopped) (sends p q at_work first) =
    ((no_reads, stopped), rw first (omega arith))
Step-steps_left s u (no_reads, stopped) (fails p q at_work first) =
    ((no_reads, stopped), rw (first, at_work) (omega arith))
Step-steps_left s u (no_reads, stopped) (drains p q at_work first) =
    ((no_reads, stopped), rw first (omega arith))
Step-steps_left s u (no_reads, stopped) (finishes e empty at_work) =
    ((no_reads, stopped), ground (arith, rank s.writer at_work))
  where
    rank : (w : Writer) → w ≢ written → writer_left w ≡ 1
    rank writing ne = refl
    rank draining ne = refl
    rank written ne = absurd (ne refl)
Step-steps_left s u (no_reads, stopped) (copies bytes going) = absurd cc
Step-steps_left s u (no_reads, stopped) (stops_copying going) = absurd cc
Step-steps_left s u (no_reads, stopped) (closes waits done) =
    ((no_reads, stopped), rw waits (omega arith))
Step-steps_left s u (no_reads, stopped) (fails_close waits done) =
    ((no_reads, stopped), rw waits (omega arith))
Step-steps_left s u (no_reads, stopped) (returns waits e) =
    ((no_reads, stopped), rw waits (omega arith))

Walk-steps_left :
    (s u : Pump) (n : ℕ)
    → IsEnded s
    → Walk s n u
    → IsEnded u × (n + steps_left u ≤ steps_left s) × Reach s u
Walk-steps_left s u n v halt = (v, omega arith, here)
Walk-steps_left s u n v (go {u = t} {n = m} w st) =
    let (ended, small, r) = Walk-steps_left s t m v w in
    let (ended', less) = Step-steps_left t u ended st in
    (ended', omega (arith, small, less), next r st)

first_of : (s u : Pump) → Reach s u → (s ≡ u) ⊎ ((t : Pump) × Step s t)
first_of s u here = inl refl
first_of s u (next {u = t} r st) = elim (first_of s t r) [
  | inl same ↦ inr (u, subst (λ (x : Pump). Step x u) (sym same) st)
  | inr found ↦ inr found
]

join_reach : (s t u : Pump) → Reach s t → Reach t u → Reach s u
join_reach s t u r here = r
join_reach s t u r (next q st) = next (join_reach s t _ r q) st

-- When the user's side and the copying from the peer have ended, the function terminates: any run from
-- there has at most as many steps as there are payloads in the channel and three more, and where a
-- run can go no further, the function has returned.
pub relay_terminates :
    (s u : Pump) (n : ℕ)
    → Reach new_pump s
    → s.reading ≡ false
    → s.copying ≡ false
    → Walk s n u
    → (n ≤ length s.queue + 3) × ((u.caller ≡ returned) ⊎ ((v : Pump) × Step u v))
relay_terminates s u n r no_reads stopped w =
    let ((no_reads', stopped'), small, q) = Walk-steps_left s u n (no_reads, stopped) w in
    let (v, last, over, _) = relay_returns u (join_reach new_pump s u r q) no_reads' stopped' in
    (
      omega (arith, small, ranks s.writer s.caller),
      elim (first_of u v last) [
        | inl same ↦ inl (ap (λ (x : Pump). x.caller) same ∙ over)
        | inr found ↦ inr found
      ],
    )
  where
    ranks : (w : Writer) (c : Caller) → writer_left w + caller_left c ≤ 3
    ranks writing awaits_writer = omega arith
    ranks writing awaits_copy = omega arith
    ranks writing returned = omega arith
    ranks draining awaits_writer = omega arith
    ranks draining awaits_copy = omega arith
    ranks draining returned = omega arith
    ranks written awaits_writer = omega arith
    ranks written awaits_copy = omega arith
    ranks written returned = omega arith
