-- ===== src/Protocol/Framing/RoundTrip.antt =====
-- internal/protocol/framing.go: what is written is read back, frame by frame.
use reversproxy.Base.{
  ℕ, ◌+◌, ◌%◌, ◌^◌, ◌≤◌, ◌<◌, ◌≡◌, refl, sym, ap, ◌∙◌, inl, inr, List, [], ◌∷◌, ◌++◌, none, some,
  length, take, length-append, take-length_append, drop-length_append, take-append-drop,
  take-append_le, drop-append_le, length-take, Option-cases, arith,
}
use mathlib.Core.List.{append_assoc, append-nil}
use reversproxy.Base.Result.{ok, err}
use reversproxy.Protocol.Messages.{Envelope, max_message_size}
use reversproxy.Protocol.Framing.{
  too_large, Conn, conn_write, write_with, be32, read_uint32, Gob, send_frame, write_message,
  read_body_of, read_message, read_messages,
}

abbrev pub frame : List ℕ → List ℕ
frame bytes = be32 (length bytes % 2 ^ 32) ++ bytes

abbrev pub frames : List (List ℕ) → List ℕ
frames [] = []
frames (b ∷ bs) = frame b ++ frames bs

abbrev pub calm : List ℕ → Conn
calm sent = record { sent = sent; faults = [] }

-- A message that can be encoded is written whole, if no write fails.
pub write_message-calm :
    {P : Type 0} (payloads : Gob P) (envelopes : Gob Envelope) (type : ℕ) (payload : P)
    (sent body bytes : List ℕ)
    → payloads.encode payload ≡ some body
    → envelopes.encode (record { type = type; payload = body }) ≡ some bytes
    → write_message payloads envelopes type payload (calm sent)
      ≡ (none, calm ((sent ++ be32 (length bytes % 2 ^ 32)) ++ bytes))
unfolding write_message send_frame conn_write write_with
write_message-calm payloads envelopes type payload sent body bytes p q = rw (write_message, p, q)

be32_back : (n : ℕ) (rest : List ℕ) → n < 2 ^ 32 → read_uint32 (be32 n ++ rest) ≡ some (n, rest)
unfolding read_uint32
be32_back n rest h = ap (λ (k : ℕ). some (k, rest)) (omega arith)

read_uint32-append :
    (input more rest : List ℕ) (n : ℕ)
    → read_uint32 input ≡ some (n, rest)
    → read_uint32 (input ++ more) ≡ some (n, rest ++ more)
unfolding read_uint32
read_uint32-append [] more rest n e = cc
read_uint32-append (a ∷ []) more rest n e = cc
read_uint32-append (a ∷ b ∷ []) more rest n e = cc
read_uint32-append (a ∷ b ∷ c ∷ []) more rest n e = cc
read_uint32-append (a ∷ b ∷ c ∷ d ∷ xs) more rest n e = ground arith

read_uint32_front :
    (input rest : List ℕ) (n : ℕ)
    → read_uint32 input ≡ some (n, rest)
    → (front : List ℕ) × (front ++ rest ≡ input) × (length front ≡ 4)
unfolding read_uint32
read_uint32_front [] rest n e = absurd (ground arith)
read_uint32_front (a ∷ []) rest n e = absurd (ground arith)
read_uint32_front (a ∷ b ∷ []) rest n e = absurd (ground arith)
read_uint32_front (a ∷ b ∷ c ∷ []) rest n e = absurd (ground arith)
read_uint32_front (a ∷ b ∷ c ∷ d ∷ xs) rest n e = (a ∷ b ∷ c ∷ d ∷ [], ground arith, refl)

module _ (envelopes : Gob Envelope) where
  pub read_message-frame :
      (env : Envelope) (bytes rest : List ℕ)
      → envelopes.encode env ≡ some bytes
      → length bytes ≤ max_message_size
      → read_message envelopes (frame bytes ++ rest) ≡ ok (env, rest)
  unfolding read_message read_body_of
  read_message-frame env bytes rest p small =
      let n : ℕ = length bytes in
      let whole : n % 2 ^ 32 ≡ n = omega arith in
      ground (
        arith,
        be32_back (n % 2 ^ 32) (bytes ++ rest) (omega arith),
        length-append bytes rest,
        take-length_append bytes rest,
        drop-length_append bytes rest,
        envelopes.decode-encode env bytes p,
      )

  -- A message that is read has taken at most four bytes and the size limit from the front of the
  -- stream, and what comes later in the stream changes neither the message nor what it takes.
  pub read_message_takes :
      (input more : List ℕ) (env : Envelope) (rest : List ℕ)
      → read_message envelopes input ≡ ok (env, rest)
      → (front : List ℕ) × (front ++ rest ≡ input)
        × (length front ≤ 4 + max_message_size)
        × (read_message envelopes (input ++ more) ≡ ok (env, rest ++ more))
  unfolding read_message read_body_of
  read_message_takes input more env rest h = elim (Option-cases (read_uint32 input)) [
    | inl e ↦ absurd (ground arith)
    | inr ((n, r), e) ↦
        let (head, whole, four) = read_uint32_front input r n e in
        (
          head ++ take n r,
          append_assoc head (take n r) rest
              ∙ ap (◌++◌ head) (ground (arith, take-append-drop n r))
              ∙ whole,
          ground (arith, length-append head (take n r), length-take n r),
          ground (
            arith,
            read_uint32-append input more r n e,
            take-append_le n r more,
            drop-append_le n r more,
            length-append r more,
          ),
        )
  ]

  -- A message longer than the limit is refused by the reader.
  read_message-oversized :
      (bytes rest : List ℕ)
      → max_message_size < length bytes
      → length bytes < 2 ^ 32
      → read_message envelopes (frame bytes ++ rest) ≡ err too_large
  unfolding read_message
  read_message-oversized bytes rest big small =
      let n : ℕ = length bytes in
      ground (arith, be32_back (n % 2 ^ 32) (bytes ++ rest) (omega arith))

module _ {P : Type 0} (payloads : Gob P) (envelopes : Gob Envelope) where
  abbrev pub write_all : List (ℕ × P) → Conn → Conn
  write_all [] c = c
  write_all ((type, payload) ∷ ms) c =
      write_all ms (write_message payloads envelopes type payload c).1

  -- The envelope and the bytes of each message; no message is longer than the limit.
  abbrev pub Encode : List (ℕ × P) → List Envelope → List (List ℕ) → Type 0
  Encode [] [] [] = Unit {0}
  Encode ((type, payload) ∷ ms) (env ∷ envs) (bytes ∷ bss) =
      (payloads.encode payload ≡ some env.payload)
      × (env.type ≡ type)
      × (envelopes.encode env ≡ some bytes)
      × (length bytes ≤ max_message_size)
      × Encode ms envs bss
  Encode _ _ _ = ⊥

  write_all-frames :
      (ms : List (ℕ × P)) (envs : List Envelope) (bss : List (List ℕ)) (sent : List ℕ)
      → Encode ms envs bss
      → write_all ms (calm sent) ≡ calm (sent ++ frames bss)
  write_all-frames [] [] [] sent e = ap calm (sym (append-nil sent))
  write_all-frames [] [] (b ∷ bs) sent e = absurd e
  write_all-frames [] (v ∷ vs) bs sent e = absurd e
  write_all-frames ((type, payload) ∷ ms) [] bs sent e = absurd e
  write_all-frames ((type, payload) ∷ ms) (v ∷ vs) [] sent e = absurd e
  write_all-frames ((type, payload) ∷ ms) (env ∷ envs) (bytes ∷ bss) sent (p, t, q, small, es) =
      let now =
        write_message-calm payloads envelopes type payload sent env.payload bytes p (rw (← t) q) in
      rw now (
        write_all-frames ms envs bss ((sent ++ be32 (length bytes % 2 ^ 32)) ++ bytes) es
        ∙ ap calm (simp append_assoc))

  read_messages-frames :
      (ms : List (ℕ × P)) (envs : List Envelope) (bss : List (List ℕ)) (rest : List ℕ)
      → Encode ms envs bss
      → read_messages (length envs) envelopes (frames bss ++ rest) ≡ ok (envs, rest)
  unfolding read_messages
  read_messages-frames [] [] [] rest e = refl
  read_messages-frames [] [] (b ∷ bs) rest e = absurd e
  read_messages-frames [] (v ∷ vs) bs rest e = absurd e
  read_messages-frames ((type, payload) ∷ ms) [] bs rest e = absurd e
  read_messages-frames ((type, payload) ∷ ms) (v ∷ vs) [] rest e = absurd e
  read_messages-frames ((type, payload) ∷ ms) (env ∷ envs) (bytes ∷ bss) rest (p, t, q, small, es) =
      rw (
        append_assoc (frame bytes) (frames bss) rest,
        read_message-frame envelopes env bytes (frames bss ++ rest) q small,
        read_messages-frames ms envs bss rest es,
      )

  -- Messages that are written one after the other, with no failing write and none above the size
  -- limit, are read back in the same order, and what follows them in the stream is left.
  pub read_messages-write_all :
      (ms : List (ℕ × P)) (envs : List Envelope) (bss : List (List ℕ)) (rest : List ℕ)
      → Encode ms envs bss
      → read_messages (length envs) envelopes ((write_all ms (calm [])).sent ++ rest)
        ≡ ok (envs, rest)
  read_messages-write_all ms envs bss rest e =
      rw (write_all-frames ms envs bss [] e) (read_messages-frames ms envs bss rest e)

  -- `WriteMessage` has no size check: a message above the limit, and below 2 ^ 32 bytes, is
  -- written without an error, and the reader refuses it.
  pub write_message-oversized :
      (type : ℕ) (payload : P) (body bytes rest : List ℕ)
      → payloads.encode payload ≡ some body
      → envelopes.encode (record { type = type; payload = body }) ≡ some bytes
      → max_message_size < length bytes
      → length bytes < 2 ^ 32
      → let (e, c) = write_message payloads envelopes type payload (calm []) in
        (e ≡ none) × (read_message envelopes (c.sent ++ rest) ≡ err too_large)
  write_message-oversized type payload body bytes rest p q big small =
      rw (write_message-calm payloads envelopes type payload [] body bytes p q)
        (refl, read_message-oversized envelopes bytes rest big small)
