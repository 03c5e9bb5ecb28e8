-- ===== src/Transfer/Sender/Rounds.antt =====
-- internal/filetransfer/sender.go: the loop ends.
use reversproxy.Base.{
  ℕ, suc, ◌+◌, ◌≤◌, ◌<◌, ◌≡◌, ◌≢◌, inl, inr, List, [], ◌∷◌, length, Str, Bool-cases, Option-cases,
  arith,
}
use reversproxy.Transfer.Receiver.{Library, Receiver, Files}
use reversproxy.Transfer.Sender.{
  Options, retries, Source, Round, still_sending, Step, step_to, Reply, failed, complete,
  incomplete, conflict, put_from, remote_offset, restart, max_conflicts, after_reply, proceed,
  send_round, send_on, send_file,
}

-- A round after which the loop goes on counts one attempt or one conflict more.
abbrev Counts : Options → ℕ → ℕ → Step → Type 0
Counts opts attempt conflicts step =
    (step.attempt + step.conflicts ≡ suc (attempt + conflicts))
    × (step.conflicts ≤ max_conflicts opts)

after_reply-Counts :
    (opts : Options) (attempt conflicts : ℕ) (reply : Reply) (files : Files)
    → conflicts ≤ max_conflicts opts
    → (after_reply opts attempt conflicts (reply, files)).result ≡ still_sending
    → Counts opts attempt conflicts (after_reply opts attempt conflicts (reply, files))
unfolding after_reply
after_reply-Counts opts attempt conflicts failed files h e = (omega arith, h)
after_reply-Counts opts attempt conflicts complete files h e = ground arith
after_reply-Counts opts attempt conflicts incomplete files h e = (omega arith, h)
after_reply-Counts opts attempt conflicts conflict files h e = ground arith

module _ (lib : Library) (format_int : ℕ → Str) (r : Receiver) (opts : Options) (src : Source) where
  send_round-Counts :
      (w : Round) (attempt conflicts : ℕ) (files : Files)
      → conflicts ≤ max_conflicts opts
      → (send_round lib format_int r opts src w attempt conflicts files).result ≡ still_sending
      → Counts opts attempt conflicts
          (send_round lib format_int r opts src w attempt conflicts files)
  unfolding send_round step_to
  send_round-Counts w attempt conflicts files h e = elim (Bool-cases w.cancelled) [
    | inl stops ↦ ground arith
    | inr goes ↦ elim (Option-cases (remote_offset lib format_int r opts src w files)) [
      | inl lost ↦ ground arith
      | inr (offset, found) ↦
          let p =
            put_from lib format_int r opts src (restart lib format_int r opts src offset) w files in
          ground (arith, after_reply-Counts opts attempt conflicts p.0 p.1)
    ]
  ]

  send_on_ends :
      (ws : List Round) (attempt conflicts : ℕ) (files : Files)
      → conflicts ≤ max_conflicts opts
      → retries opts + max_conflicts opts < attempt + conflicts + length ws
      → (send_on lib format_int r opts src ws attempt conflicts files).0 ≢ still_sending
  unfolding send_on proceed
  send_on_ends [] attempt conflicts files h enough e = ground arith
  send_on_ends (w ∷ ws) attempt conflicts files h enough e =
      let step = send_round lib format_int r opts src w attempt conflicts files in
      ground (
        arith,
        send_round-Counts w attempt conflicts files,
        send_on_ends ws step.attempt step.conflicts step.files,
      )

  -- SendFile ends within as many rounds as it has retries and conflicts to spend, and one more, with
  -- success or an error.
  pub send_file_ends :
      (ws : List Round) (files : Files)
      → retries opts + max_conflicts opts < length ws
      → (send_file lib format_int r opts src ws files).0 ≢ still_sending
  unfolding send_file
  send_file_ends ws files enough = send_on_ends ws 0 0 files (ground arith) (ground arith)
