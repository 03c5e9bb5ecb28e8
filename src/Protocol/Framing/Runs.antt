-- ===== src/Protocol/Framing/Runs.antt =====
-- The theorems on frames at concrete inputs, with an encoding that can be run.
use reversproxy.Base.{
  ℕ, ◌+◌, ◌≤◌, ◌≡◌, refl, List, [], ◌∷◌, ◌++◌, Option, none, some, length, arith,
}
use reversproxy.Base.Result.{ok}
use reversproxy.Protocol.Messages.{Envelope, max_message_size}
use reversproxy.Protocol.Framing.{Gob, read_message, read_messages}
use reversproxy.Protocol.Framing.RoundTrip.{write_all, read_messages-write_all, read_message_takes}

raw_law : (xs bytes : List ℕ) → some xs ≡ some bytes → some bytes ≡ some xs
raw_law xs bytes e = ground arith

-- Bytes as they are.
abbrev raw : Gob (List ℕ)
raw = record { encode = λ xs. some xs; decode = λ xs. some xs; decode-encode = raw_law }

abbrev decode_tagged : List ℕ → Option Envelope
decode_tagged [] = none
decode_tagged (t ∷ xs) = some (record { type = t; payload = xs })

tagged_law :
    (e : Envelope) (bytes : List ℕ)
    → some (e.type ∷ e.payload) ≡ some bytes
    → decode_tagged bytes ≡ some e
tagged_law e [] p = cc
tagged_law e (t ∷ xs) p = ground arith

-- An envelope as its type and its payload.
abbrev tagged : Gob Envelope
tagged = record {
  encode = λ e. some (e.type ∷ e.payload);
  decode = decode_tagged;
  decode-encode = tagged_law;
}

abbrev ping : Envelope
ping = record { type = 3; payload = 7 ∷ [] }

abbrev pong : Envelope
pong = record { type = 4; payload = [] }

reads_ping : read_message tagged (0 ∷ 0 ∷ 0 ∷ 2 ∷ 3 ∷ 7 ∷ 9 ∷ []) ≡ ok (ping, 9 ∷ [])
unfolding read_message
reads_ping = refl

read_messages-write_all_example :
    read_messages 2 tagged (
      (write_all raw tagged ((3, 7 ∷ []) ∷ (4, []) ∷ []) (record { sent = []; faults = [] })).sent
      ++ 9 ∷ [])
    ≡ ok (ping ∷ pong ∷ [], 9 ∷ [])
read_messages-write_all_example =
    read_messages-write_all raw tagged ((3, 7 ∷ []) ∷ (4, []) ∷ []) (ping ∷ pong ∷ [])
      ((3 ∷ 7 ∷ []) ∷ (4 ∷ []) ∷ []) (9 ∷ [])
      (refl, refl, refl, omega arith, (refl, refl, refl, omega arith, tt))

read_message_takes_example :
    (front : List ℕ) × (front ++ 9 ∷ [] ≡ 0 ∷ 0 ∷ 0 ∷ 2 ∷ 3 ∷ 7 ∷ 9 ∷ [])
    × (length front ≤ 4 + max_message_size)
    × (read_message tagged (0 ∷ 0 ∷ 0 ∷ 2 ∷ 3 ∷ 7 ∷ 9 ∷ 1 ∷ []) ≡ ok (ping, 9 ∷ 1 ∷ []))
read_message_takes_example =
    read_message_takes tagged (0 ∷ 0 ∷ 0 ∷ 2 ∷ 3 ∷ 7 ∷ 9 ∷ []) (1 ∷ []) ping (9 ∷ []) reads_ping
