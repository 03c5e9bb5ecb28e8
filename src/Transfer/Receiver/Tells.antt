-- ===== src/Transfer/Receiver/Tells.antt =====
-- internal/filetransfer/receiver.go: an answer that says complete goes with a saved file.
use reversproxy.Base.{
  ℕ, ◌-◌, ◌≡◌, ◌≢◌, inl, inr, true, List, ◌++◌, none, some, take, Str, insert, Option-cases, arith,
}
use reversproxy.Base.Result.{Result-cases}
use reversproxy.Transfer.Names.{sanitize_name, unique_path}
use reversproxy.Transfer.Receiver.{
  Library, Faults, Method, head, put, other, Request, Receiver, Files, Outcome, outcome, refuse,
  progress, part_path, content, part_size, put_finish, put_verify, copied, put_append, put_slice,
  natural, handle_put, serve_method, serve_http,
}

put_finish_tells :
    (name : Str) (total : ℕ) (faults : Faults) (files : Files) (o : Outcome)
    → put_finish name total faults files ≡ some o
    → o.response.complete ≡ some true
    → o.saved ≢ none
unfolding put_finish refuse outcome
put_finish_tells name total faults files o e told lost =
    elim (Option-cases (unique_path name files)) [
      | inl none_free ↦ ground arith
      | inr (final, found) ↦ ground arith
    ]

put_append_tells :
    (sha256_hex : List ℕ → Str) (name : Str) (total : ℕ) (sum : Str) (cur : ℕ) (body : List ℕ)
    (faults : Faults) (files : Files) (o : Outcome)
    → put_append sha256_hex name total sum cur body faults files ≡ some o
    → o.response.complete ≡ some true
    → o.saved ≢ none
unfolding put_append put_verify refuse progress outcome
put_append_tells sha256_hex name total sum cur body faults files o e told lost =
    let part = part_path name in
    let grown = content part files ++ copied faults.copy_stops (total - cur) body in
    ground (arith, put_finish_tells name total faults (insert part grown files) o)

put_slice_tells :
    (sha256_hex : List ℕ → Str) (name : Str) (total : ℕ) (sum : Str) (offset : ℕ) (body : List ℕ)
    (faults : Faults) (files : Files) (o : Outcome)
    → put_slice sha256_hex name total sum offset body faults files ≡ some o
    → o.response.complete ≡ some true
    → o.saved ≢ none
unfolding put_slice refuse outcome
put_slice_tells sha256_hex name total sum offset body faults files o e told lost =
    let part = part_path name in
    let cur = part_size name files in
    let cut = take offset (content part files) in
    ground (
      arith,
      put_append_tells sha256_hex name total sum cur body faults files o,
      put_append_tells sha256_hex name total sum cur body faults (insert part cut files) o,
    )

module _ (lib : Library) where
  handle_put_tells :
      (r : Receiver) (q : Request) (name : Str) (faults : Faults) (files : Files) (o : Outcome)
      → handle_put lib r q name faults files ≡ some o
      → o.response.complete ≡ some true
      → o.saved ≢ none
  unfolding handle_put refuse outcome
  handle_put_tells r q name faults files o e told lost =
      elim (Option-cases (natural (lib.parse_int q.total))) [
        | inl no_total ↦ ground arith
        | inr (total, some_total) ↦ elim (Option-cases (natural (lib.parse_int q.offset))) [
          | inl no_offset ↦ ground arith
          | inr (offset, some_offset) ↦ ground (
            arith,
            put_slice_tells lib.sha256_hex name total (lib.to_lower q.sum) offset q.body faults
                files o,
          )
        ]
      ]

  serve_method_tells :
      (method : Method) (r : Receiver) (q : Request) (name : Str) (faults : Faults) (files : Files)
      (o : Outcome)
      → serve_method lib method r q name faults files ≡ some o
      → o.response.complete ≡ some true
      → o.saved ≢ none
  unfolding serve_method refuse outcome
  serve_method_tells head r q name faults files o e told lost = ground arith
  serve_method_tells put r q name faults files o e told lost =
      handle_put_tells r q name faults files o e told lost
  serve_method_tells other r q name faults files o e told lost = ground arith

  pub serve_http_tells :
      (r : Receiver) (q : Request) (faults : Faults) (files : Files) (o : Outcome)
      → serve_http lib r q faults files ≡ some o
      → o.response.complete ≡ some true
      → o.saved ≢ none
  unfolding serve_http refuse outcome
  serve_http_tells r q faults files o e told lost =
      elim (Result-cases (sanitize_name lib.trim_space q.filename)) [
        | inl (why, bad) ↦ ground arith
        | inr (name, good) ↦ ground (arith, serve_method_tells q.method r q name faults files o)
      ]
