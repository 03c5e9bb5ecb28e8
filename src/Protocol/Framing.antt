-- ===== src/Protocol/Framing.antt =====
-- internal/protocol/framing.go: messages behind a length of four bytes.
pub mod RoundTrip
mod Runs
use reversproxy.Base.{
  ℕ, zero, suc, ◌+◌, ◌*◌, ◌/◌, ◌%◌, ◌^◌, ◌≡◌, Bool, true, false, List, [], ◌∷◌, ◌++◌, Option, none,
  some, if◌then◌else◌, ltb, length, take, drop,
}
use reversproxy.Base.Result.{Result, ok, err, ◌>>=◌}
use reversproxy.Protocol.Messages.{Envelope, max_message_size}

pub data FrameError : Type 0 where
  encode_payload encode_envelope write_length write_envelope : FrameError
  read_length too_large read_body decode_envelope : FrameError

-- A connection to write to: the bytes that were sent, and for each write to come whether it
-- takes all bytes or fails after some; behind the end of the list every write succeeds.
pub record Conn : Type 0 where
  pub sent : List ℕ
  pub faults : List (Option ℕ)

write_with : List ℕ → List ℕ → List (Option ℕ) → Bool × Conn
write_with sent bytes [] = (true, record { sent = sent ++ bytes; faults = [] })
write_with sent bytes (none ∷ fs) = (true, record { sent = sent ++ bytes; faults = fs })
write_with sent bytes (some k ∷ fs) = (false, record { sent = sent ++ take k bytes; faults = fs })

unfoldable pub conn_write : List ℕ → Conn → Bool × Conn
unfolding write_with
conn_write bytes c = write_with c.sent bytes c.faults

-- The bytes of uint32(n), the highest first.
abbrev pub be32 : ℕ → List ℕ
be32 n = n / 16777216 % 256 ∷ n / 65536 % 256 ∷ n / 256 % 256 ∷ n % 256 ∷ []

-- The four bytes of the length and what follows them; `none` if the stream ends before.
unfoldable pub read_uint32 : List ℕ → Option (ℕ × List ℕ)
read_uint32 (a ∷ b ∷ c ∷ d ∷ rest) = some (((a * 256 + b) * 256 + c) * 256 + d, rest)
read_uint32 input = none

-- encoding/gob at one type: what was encoded is decoded to the same value.
pub record Gob (A : Type 0) : Type 0 where
  pub encode : A → Option (List ℕ)
  pub decode : List ℕ → Option A
  pub decode-encode : (a : A) (bytes : List ℕ) → encode a ≡ some bytes → decode bytes ≡ some a

-- The two writes: the length, which wraps at 2 ^ 32, and the envelope.
pub send_frame : List ℕ → Conn → Option FrameError × Conn
send_frame bytes c =
    let (length_ok, c1) = conn_write (be32 (length bytes % 2 ^ 32)) c in
    let (bytes_ok, c2) = conn_write bytes c1 in
    if length_ok
    then (if bytes_ok then (none, c2) else (some write_envelope, c2))
    else (some write_length, c1)

pub write_message : {P : Type 0} → Gob P → Gob Envelope → ℕ → P → Conn → Option FrameError × Conn
unfolding send_frame
write_message payloads envelopes type payload c = elim (payloads.encode payload) [
  | none ↦ (some encode_payload, c)
  | some body ↦ elim (envelopes.encode (record { type = type; payload = body })) [
    | none ↦ (some encode_envelope, c)
    | some bytes ↦ send_frame bytes c
  ]
]

-- The envelope behind a length that has been read, and the stream behind it.
unfoldable pub read_body_of : Gob Envelope → ℕ → List ℕ → Result FrameError (Envelope × List ℕ)
read_body_of envelopes n input =
    if ltb (length input) n then err read_body else (elim (envelopes.decode (take n input)) [
      | none ↦ err decode_envelope
      | some env ↦ ok (env, drop n input)
    ])

unfoldable pub read_message : Gob Envelope → List ℕ → Result FrameError (Envelope × List ℕ)
unfolding read_body_of read_uint32
read_message envelopes input = elim (read_uint32 input) [
  | none ↦ err read_length
  | some (n, rest) ↦ if ltb max_message_size n then err too_large else read_body_of envelopes n rest
]

-- Decode: the value of a payload, or its error.
unfoldable pub decode_payload : {A : Type 0} → Gob A → List ℕ → Option A
decode_payload g payload = g.decode payload

-- A reader that takes one message after the other.
unfoldable pub read_messages :
    ℕ → Gob Envelope → List ℕ → Result FrameError (List Envelope × List ℕ)
read_messages zero envelopes input = ok ([], input)
read_messages (suc n) envelopes input = read_message envelopes input >>= λ first.
    read_messages n envelopes first.1 >>= λ more. ok (first.0 ∷ more.0, more.1)
