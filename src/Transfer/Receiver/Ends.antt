-- ===== src/Transfer/Receiver/Ends.antt =====
-- internal/filetransfer/receiver.go: every request has an outcome.
use reversproxy.Base.{
  ℕ, ◌-◌, ◌≡◌, ◌≢◌, inl, inr, List, ◌++◌, none, some, take, Str, insert, Option-cases, arith,
}
use reversproxy.Base.Result.{Result-cases}
use reversproxy.Transfer.Names.{sanitize_name}
use reversproxy.Transfer.Names.Unique.{unique_path_free}
use reversproxy.Transfer.Receiver.{
  Library, Faults, Method, head, put, other, Request, Receiver, Files, Outcome, part_path, content,
  part_size, put_finish, put_verify, copied, put_append, put_slice, natural, handle_put,
  serve_method, serve_http,
}

put_finish_some :
    (name : Str) (total : ℕ) (faults : Faults) (files : Files)
    → put_finish name total faults files ≢ none
unfolding put_finish
put_finish_some name total faults files lost =
    let (final, found, free) = unique_path_free name files in ground arith

put_append_some :
    (sha256_hex : List ℕ → Str) (name : Str) (total : ℕ) (sum : Str) (cur : ℕ) (body : List ℕ)
    (faults : Faults) (files : Files)
    → put_append sha256_hex name total sum cur body faults files ≢ none
unfolding put_append put_verify
put_append_some sha256_hex name total sum cur body faults files lost =
    let part = part_path name in
    let grown = content part files ++ copied faults.copy_stops (total - cur) body in
    ground (arith, put_finish_some name total faults (insert part grown files))

put_slice_some :
    (sha256_hex : List ℕ → Str) (name : Str) (total : ℕ) (sum : Str) (offset : ℕ) (body : List ℕ)
    (faults : Faults) (files : Files)
    → put_slice sha256_hex name total sum offset body faults files ≢ none
unfolding put_slice
put_slice_some sha256_hex name total sum offset body faults files lost =
    let part = part_path name in
    let cur = part_size name files in
    let cut = take offset (content part files) in
    ground (
      arith,
      put_append_some sha256_hex name total sum cur body faults files,
      put_append_some sha256_hex name total sum cur body faults (insert part cut files),
    )

pub put_slice_ends :
    (sha256_hex : List ℕ → Str) (name : Str) (total : ℕ) (sum : Str) (offset : ℕ) (body : List ℕ)
    (faults : Faults) (files : Files)
    → (o : Outcome) × (put_slice sha256_hex name total sum offset body faults files ≡ some o)
put_slice_ends sha256_hex name total sum offset body faults files =
    elim (Option-cases (put_slice sha256_hex name total sum offset body faults files)) [
      | inl lost ↦ absurd (put_slice_some sha256_hex name total sum offset body faults files lost)
      | inr ends ↦ ends
    ]

module _ (lib : Library) where
  handle_put_some :
      (r : Receiver) (q : Request) (name : Str) (faults : Faults) (files : Files)
      → handle_put lib r q name faults files ≢ none
  unfolding handle_put
  handle_put_some r q name faults files lost =
      elim (Option-cases (natural (lib.parse_int q.total))) [
        | inl no_total ↦ ground arith
        | inr (total, some_total) ↦ elim (Option-cases (natural (lib.parse_int q.offset))) [
          | inl no_offset ↦ ground arith
          | inr (offset, some_offset) ↦ ground (
            arith,
            put_slice_some lib.sha256_hex name total (lib.to_lower q.sum) offset q.body faults
                files,
          )
        ]
      ]

  serve_method_some :
      (method : Method) (r : Receiver) (q : Request) (name : Str) (faults : Faults) (files : Files)
      → serve_method lib method r q name faults files ≢ none
  unfolding serve_method
  serve_method_some head r q name faults files lost = ground arith
  serve_method_some put r q name faults files lost = handle_put_some r q name faults files lost
  serve_method_some other r q name faults files lost = ground arith

  serve_http_some :
      (r : Receiver) (q : Request) (faults : Faults) (files : Files)
      → serve_http lib r q faults files ≢ none
  unfolding serve_http
  serve_http_some r q faults files lost =
      elim (Result-cases (sanitize_name lib.trim_space q.filename)) [
        | inl (why, bad) ↦ ground arith
        | inr (name, good) ↦ ground (arith, serve_method_some q.method r q name faults files)
      ]

  -- Every request has an outcome: the search for a free path comes to an end.
  pub serve_http_ends :
      (r : Receiver) (q : Request) (faults : Faults) (files : Files)
      → (o : Outcome) × (serve_http lib r q faults files ≡ some o)
  serve_http_ends r q faults files = elim (Option-cases (serve_http lib r q faults files)) [
    | inl lost ↦ absurd (serve_http_some r q faults files lost)
    | inr ends ↦ ends
  ]
