-- ===== src/Tunnel/Writer/Runs.antt =====
-- internal/tunnel/ctrl_registry.go: two goroutines write, and the write of the second one fails.
use reversproxy.Base.{ℕ, ◌≡◌, refl, true, false, List, [], ◌∷◌, Option, none, some, arith}
use reversproxy.Base.Result.{ok}
use reversproxy.Protocol.Messages.{Envelope}
use reversproxy.Protocol.Framing.{Gob, read_messages}
use reversproxy.Tunnel.Writer.{
  CtrlConnWriter, new_writer, Reach, here, next, locks, writes_length, writes_body, unlocks,
  fails_body,
}
use reversproxy.Tunnel.Writer.Whole.{IsCut, read_messages-Reach}

-- The type byte and the payload.
abbrev untag : List ℕ → Option Envelope
untag [] = none
untag (t ∷ xs) = some (record { type = t; payload = xs })

untag_law :
    (e : Envelope) (bytes : List ℕ) → some (e.type ∷ e.payload) ≡ some bytes → untag bytes ≡ some e
untag_law e [] p = cc
untag_law e (t ∷ xs) p = ground arith

abbrev tagging : Gob Envelope
tagging = record {
  encode = λ e. some (e.type ∷ e.payload);
  decode = untag;
  decode-encode = untag_law;
}

schedule :
    (w : CtrlConnWriter) × Reach new_writer w × (w.log ≡ (3 ∷ 7 ∷ []) ∷ []) × (w.broken ≡ true)
schedule = (
  _,
  next
      (next
        (next
          (next
            (next
              (next (next here (locks 0 (3 ∷ 7 ∷ []) refl refl))
                (writes_length 0 (3 ∷ 7 ∷ []) refl refl))
              (writes_body 0 (3 ∷ 7 ∷ []) refl refl))
            (unlocks 0 refl))
          (locks 1 (4 ∷ []) refl refl))
        (writes_length 1 (4 ∷ []) refl refl))
      (fails_body 1 0 (4 ∷ []) refl (omega arith)),
  refl,
  refl,
)

abbrev first_message : Envelope
first_message = record { type = 3; payload = 7 ∷ [] }

read_messages-Reach_example :
    (rest : List ℕ) × (read_messages 1 tagging schedule.0.sent ≡ ok (first_message ∷ [], rest))
    × (schedule.0.broken ≡ false → schedule.0.holder ≡ none → rest ≡ [])
    × (schedule.0.broken ≡ true → IsCut rest)
unfolding schedule
read_messages-Reach_example =
    read_messages-Reach tagging schedule.0 (first_message ∷ []) schedule.1 (refl, omega arith, tt)
