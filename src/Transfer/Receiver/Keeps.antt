-- ===== src/Transfer/Receiver/Keeps.antt =====
-- internal/filetransfer/receiver.go: what a request leaves as it was.
use reversproxy.Base.{
  ℕ, ◌-◌, ◌≡◌, ◌≢◌, inl, inr, false, List, ◌++◌, some, take, Str, str_eq_sound, lookup, insert,
  delete, lookup-insert, lookup-delete, Option-cases, arith,
}
use reversproxy.Base.Result.{ok}
use reversproxy.Transfer.Names.{sanitize_name, unique_path, exists}
use reversproxy.Transfer.Names.Unique.{unique_path_sound}
use reversproxy.Transfer.Receiver.{
  Library, Faults, Method, head, put, other, Request, Receiver, Files, Outcome, outcome, refuse,
  progress, part_path, content, part_size, put_finish, put_verify, copied, put_append, put_slice,
  natural, handle_put, serve_method, serve_http,
}

put_finish_keeps :
    (name : Str) (total : ℕ) (faults : Faults) (files : Files) (o : Outcome) (path : Str)
    (bytes : List ℕ)
    → path ≢ part_path name
    → put_finish name total faults files ≡ some o
    → lookup path files ≡ some bytes
    → lookup path o.files ≡ some bytes
unfolding put_finish refuse outcome exists
put_finish_keeps name total faults files o path bytes different e there =
    elim (Option-cases (unique_path name files)) [
      | inl none_free ↦ ground arith
      | inr (final, found) ↦
          let part = part_path name in
          let free : exists final files ≡ false = unique_path_sound name final files found in
          ground (
            arith,
            lookup-insert final path (content part files) (delete part files),
            lookup-delete part path files,
            str_eq_sound final path,
            str_eq_sound part path,
          )
    ]

put_verify_keeps :
    (sha256_hex : List ℕ → Str) (name : Str) (total : ℕ) (sum : Str) (faults : Faults)
    (files : Files) (o : Outcome) (path : Str) (bytes : List ℕ)
    → path ≢ part_path name
    → put_verify sha256_hex name total sum faults files ≡ some o
    → lookup path files ≡ some bytes
    → lookup path o.files ≡ some bytes
unfolding put_verify refuse outcome
put_verify_keeps sha256_hex name total sum faults files o path bytes different e there = ground (
  arith,
  put_finish_keeps name total faults files o path bytes,
  lookup-delete (part_path name) path files,
  str_eq_sound (part_path name) path,
)

put_append_keeps :
    (sha256_hex : List ℕ → Str) (name : Str) (total : ℕ) (sum : Str) (cur : ℕ) (body : List ℕ)
    (faults : Faults) (files : Files) (o : Outcome) (path : Str) (bytes : List ℕ)
    → path ≢ part_path name
    → put_append sha256_hex name total sum cur body faults files ≡ some o
    → lookup path files ≡ some bytes
    → lookup path o.files ≡ some bytes
unfolding put_append refuse progress outcome
put_append_keeps sha256_hex name total sum cur body faults files o path bytes different e there =
    let part = part_path name in
    let grown = content part files ++ copied faults.copy_stops (total - cur) body in
    ground (
      arith,
      put_verify_keeps sha256_hex name total sum faults (insert part grown files) o path bytes,
      lookup-insert part path grown files,
      str_eq_sound part path,
    )

put_slice_keeps :
    (sha256_hex : List ℕ → Str) (name : Str) (total : ℕ) (sum : Str) (offset : ℕ) (body : List ℕ)
    (faults : Faults) (files : Files) (o : Outcome) (path : Str) (bytes : List ℕ)
    → path ≢ part_path name
    → put_slice sha256_hex name total sum offset body faults files ≡ some o
    → lookup path files ≡ some bytes
    → lookup path o.files ≡ some bytes
unfolding put_slice refuse outcome
put_slice_keeps sha256_hex name total sum offset body faults files o path bytes different e there =
    let part = part_path name in
    let cur = part_size name files in
    let cut = take offset (content part files) in
    ground (
      arith,
      put_append_keeps sha256_hex name total sum cur body faults files o path bytes,
      put_append_keeps sha256_hex name total sum cur body faults (insert part cut files) o path
          bytes,
      lookup-insert part path cut files,
      str_eq_sound part path,
    )

module _ (lib : Library) where
  handle_put_keeps :
      (r : Receiver) (q : Request) (name : Str) (faults : Faults) (files : Files) (o : Outcome)
      (path : Str) (bytes : List ℕ)
      → path ≢ part_path name
      → handle_put lib r q name faults files ≡ some o
      → lookup path files ≡ some bytes
      → lookup path o.files ≡ some bytes
  unfolding handle_put refuse outcome
  handle_put_keeps r q name faults files o path bytes different e there =
      elim (Option-cases (natural (lib.parse_int q.total))) [
        | inl no_total ↦ ground arith
        | inr (total, some_total) ↦ elim (Option-cases (natural (lib.parse_int q.offset))) [
          | inl no_offset ↦ ground arith
          | inr (offset, some_offset) ↦ ground (
            arith,
            put_slice_keeps lib.sha256_hex name total (lib.to_lower q.sum) offset q.body faults
                files o path bytes,
          )
        ]
      ]

  serve_method_keeps :
      (method : Method) (r : Receiver) (q : Request) (name : Str) (faults : Faults) (files : Files)
      (o : Outcome) (path : Str) (bytes : List ℕ)
      → path ≢ part_path name
      → serve_method lib method r q name faults files ≡ some o
      → lookup path files ≡ some bytes
      → lookup path o.files ≡ some bytes
  unfolding serve_method refuse outcome
  serve_method_keeps head r q name faults files o path bytes different e there = ground arith
  serve_method_keeps put r q name faults files o path bytes different e there =
      handle_put_keeps r q name faults files o path bytes different e there
  serve_method_keeps other r q name faults files o path bytes different e there = ground arith

  -- Whatever fails, a request leaves every file that is there as it was, but for the part file of
  -- the name it gives.
  pub serve_http_keeps :
      (r : Receiver) (q : Request) (name : Str) (faults : Faults) (files : Files) (o : Outcome)
      (path : Str) (bytes : List ℕ)
      → path ≢ part_path name
      → sanitize_name lib.trim_space q.filename ≡ ok name
      → serve_http lib r q faults files ≡ some o
      → lookup path files ≡ some bytes
      → lookup path o.files ≡ some bytes
  unfolding serve_http refuse outcome
  serve_http_keeps r q name faults files o path bytes different good e there =
      ground (arith, serve_method_keeps q.method r q name faults files o path bytes)
