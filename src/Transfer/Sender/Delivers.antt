-- ===== src/Transfer/Sender/Delivers.antt =====
-- internal/filetransfer/sender.go: a send that succeeds has stored the file.
use reversproxy.Base.{
  ℕ, ◌≡◌, refl, ◌∙◌, inl, inr, true, List, [], ◌∷◌, some, ltb, Str, lookup, Bool-cases,
  Option-cases, arith,
}
use reversproxy.Transfer.Receiver.{Library, Receiver, Request, Response, Files, serve_http}
use reversproxy.Transfer.Receiver.Saves.{serve_http-Saves}
use reversproxy.Transfer.Receiver.Tells.{serve_http_tells}
use reversproxy.Transfer.Receiver.Rewind.{IsCollisionFree}
use reversproxy.Transfer.Sender.{
  Options, retries, Source, Round, Sent, sent, cancelled_send, conflicts_error, attempts_error,
  still_sending, step_to, Reply, failed, complete, incomplete, conflict, read_reply, upload,
  put_from, remote_offset, restart, after_reply, proceed, send_round, send_on, send_file,
}

read_reply_complete :
    (response : Response) → read_reply response ≡ complete → response.complete ≡ some true
unfolding read_reply
read_reply_complete response e = ground arith

-- Some path of the folder holds the bytes.
abbrev pub IsStored : List ℕ → Files → Type 0
IsStored bytes files = (path : Str) × (lookup path files ≡ some bytes)

after_reply_sent :
    (opts : Options) (attempt conflicts : ℕ) (reply : Reply) (files : Files)
    → (after_reply opts attempt conflicts (reply, files)).result ≡ sent
    → (reply ≡ complete) × ((after_reply opts attempt conflicts (reply, files)).files ≡ files)
unfolding after_reply step_to
after_reply_sent opts attempt conflicts failed files e = ground arith
after_reply_sent opts attempt conflicts complete files e = (refl, refl)
after_reply_sent opts attempt conflicts incomplete files e = ground arith
after_reply_sent opts attempt conflicts conflict files e = ground arith

proceed_sent :
    (bytes : List ℕ) (result : Sent) (files : Files) (rest : Sent × Files)
    → (result ≡ sent → IsStored bytes files)
    → (rest.0 ≡ sent → IsStored bytes rest.1)
    → (proceed result files rest).0 ≡ sent
    → IsStored bytes (proceed result files rest).1
unfolding proceed
proceed_sent bytes still_sending files rest now later e = later e
proceed_sent bytes sent files rest now later e = now refl
proceed_sent bytes cancelled_send files rest now later e = ground arith
proceed_sent bytes conflicts_error files rest now later e = ground arith
proceed_sent bytes attempts_error files rest now later e = ground arith

module _ (lib : Library) (format_int : ℕ → Str) (r : Receiver) (opts : Options) (src : Source) where
  put_from_complete :
      (offset : ℕ) (w : Round) (files : Files)
      → lib.to_lower (lib.sha256_hex src.bytes) ≡ lib.sha256_hex src.bytes
      → IsCollisionFree lib.sha256_hex src.bytes
      → (put_from lib format_int r opts src offset w files).0 ≡ complete
      → IsStored src.bytes (put_from lib format_int r opts src offset w files).1
  unfolding put_from upload
  put_from_complete offset w files lower only e =
      let up : Request = upload lib format_int r opts src offset in
      elim (Option-cases (serve_http lib r up w.faults files)) [
        | inl lost ↦ ground arith
        | inr (o, run) ↦
            let told : read_reply o.response ≡ complete = ground arith in
            elim (Option-cases o.saved) [
              | inl lost ↦ absurd (
                  serve_http_tells lib r up w.faults files o run
                    (read_reply_complete o.response told) lost)
              | inr ((path, n), saved) ↦
                  let ((free, bytes, there, same), allowed) =
                    serve_http-Saves lib r up w.faults files o path n run saved in
                  let held : bytes ≡ src.bytes = only bytes (same ∙ lower) in (path, ground arith)
            ]
      ]

  send_round_sent :
      (w : Round) (attempt conflicts : ℕ) (files : Files)
      → lib.to_lower (lib.sha256_hex src.bytes) ≡ lib.sha256_hex src.bytes
      → IsCollisionFree lib.sha256_hex src.bytes
      → (send_round lib format_int r opts src w attempt conflicts files).result ≡ sent
      → IsStored src.bytes (send_round lib format_int r opts src w attempt conflicts files).files
  unfolding send_round step_to
  send_round_sent w attempt conflicts files lower only e = elim (Bool-cases w.cancelled) [
    | inl stops ↦ ground arith
    | inr goes ↦ elim (Option-cases (remote_offset lib format_int r opts src w files)) [
      | inl lost ↦ ground arith
      | inr (offset, found) ↦
          let p =
            put_from lib format_int r opts src (restart lib format_int r opts src offset) w files in
          let replied : (after_reply opts attempt conflicts (p.0, p.1)).result ≡ sent =
            ground arith in
          let (done, same) = after_reply_sent opts attempt conflicts p.0 p.1 replied in
          let (path, there) =
            put_from_complete (restart lib format_int r opts src offset) w files lower only done in
          (path, ground arith)
    ]
  ]

  send_on_sent :
      (ws : List Round) (attempt conflicts : ℕ) (files : Files)
      → lib.to_lower (lib.sha256_hex src.bytes) ≡ lib.sha256_hex src.bytes
      → IsCollisionFree lib.sha256_hex src.bytes
      → (send_on lib format_int r opts src ws attempt conflicts files).0 ≡ sent
      → IsStored src.bytes (send_on lib format_int r opts src ws attempt conflicts files).1
  unfolding send_on
  send_on_sent [] attempt conflicts files lower only e = ground arith
  send_on_sent (w ∷ ws) attempt conflicts files lower only e =
      let step = send_round lib format_int r opts src w attempt conflicts files in
      elim (Bool-cases (ltb (retries opts) attempt)) [
        | inl spent ↦ ground arith
        | inr left ↦
            let rest =
              send_on lib format_int r opts src ws step.attempt step.conflicts step.files in
            let ended : (proceed step.result step.files rest).0 ≡ sent = ground arith in
            let (path, there) =
              proceed_sent src.bytes step.result step.files rest
                (send_round_sent w attempt conflicts files lower only)
                (send_on_sent ws step.attempt step.conflicts step.files lower only) ended in
            (path, ground arith)
      ]

  -- When SendFile reports success, whatever failed in its rounds, the receiver's folder holds the
  -- bytes of the file, if only these have its digest and the digest has no capital letters.
  pub send_file_sent :
      (ws : List Round) (files : Files)
      → lib.to_lower (lib.sha256_hex src.bytes) ≡ lib.sha256_hex src.bytes
      → IsCollisionFree lib.sha256_hex src.bytes
      → (send_file lib format_int r opts src ws files).0 ≡ sent
      → IsStored src.bytes (send_file lib format_int r opts src ws files).1
  unfolding send_file
  send_file_sent ws files lower only e = send_on_sent ws 0 0 files lower only e
