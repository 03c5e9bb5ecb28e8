-- ===== src/Transfer/Receiver/Saves.antt =====
-- internal/filetransfer/receiver.go: what is stored under a final path has the announced digest.
use reversproxy.Base.{
  ℕ, ◌-◌, ◌≡◌, ◌⊎◌, is_empty, is_empty_sound, refl, inl, inr, true, false, List, [], ◌++◌, some,
  ltb, take, Str, str_eq, str_eq_refl, str_eq_sound, lookup, insert, delete, lookup-insert,
  Bool-cases, Option-cases, arith,
}
use reversproxy.Base.Result.{Result-cases}
use reversproxy.Transfer.Names.{sanitize_name, unique_path, exists}
use reversproxy.Transfer.Names.Unique.{unique_path_sound}
use reversproxy.Transfer.Receiver.{
  Library, Faults, Method, head, put, other, Request, Receiver, Files, Outcome, outcome, refuse,
  progress, part_path, content, part_size, put_finish, put_verify, copied, put_append, put_slice,
  natural, check_token, handle_put, serve_method, serve_http,
}

-- What an outcome says that saves a file.
abbrev pub Saves : (List ℕ → Str) → Str → Files → Outcome → Str → Type 0
Saves sha256_hex sum files o path =
    (exists path files ≡ false)
    × (bytes : List ℕ) × (lookup path o.files ≡ some bytes)
    × (sha256_hex bytes ≡ sum)

exists-insert :
    (p k : Str) (bytes : List ℕ) (files : Files)
    → exists p (insert k bytes files) ≡ false
    → exists p files ≡ false
unfolding exists
exists-insert p k bytes files h = ground (arith, lookup-insert k p bytes files)

-- A path that is free with one more file is free without it.
insert-Saves :
    (sha256_hex : List ℕ → Str) (sum k : Str) (bytes : List ℕ) (files : Files) (o : Outcome)
    (path : Str)
    → Saves sha256_hex sum (insert k bytes files) o path
    → Saves sha256_hex sum files o path
insert-Saves sha256_hex sum k bytes files o path (free, held, there, same) =
    (exists-insert path k bytes files free, held, there, same)

put_finish_saved :
    (name : Str) (total : ℕ) (faults : Faults) (files : Files) (o : Outcome) (path : Str) (n : ℕ)
    → put_finish name total faults files ≡ some o
    → o.saved ≡ some (path, n)
    → (exists path files ≡ false) × (lookup path o.files ≡ some (content (part_path name) files))
unfolding put_finish refuse outcome
put_finish_saved name total faults files o path n e saved =
    elim (Option-cases (unique_path name files)) [
      | inl none_free ↦ ground arith
      | inr (final, found) ↦
          let free : exists final files ≡ false = unique_path_sound name final files found in
          let there : lookup final
                (insert final (content (part_path name) files) (delete (part_path name) files))
              ≡ some (content (part_path name) files) =
            rw
              (
                lookup-insert final final (content (part_path name) files)
                    (delete (part_path name) files),
                str_eq_refl final,
              )
              refl in
          ground arith
    ]

put_verify-Saves :
    (sha256_hex : List ℕ → Str) (name : Str) (total : ℕ) (sum : Str) (faults : Faults)
    (files : Files) (o : Outcome) (path : Str) (n : ℕ)
    → put_verify sha256_hex name total sum faults files ≡ some o
    → o.saved ≡ some (path, n)
    → Saves sha256_hex sum files o path
unfolding put_verify refuse outcome
put_verify-Saves sha256_hex name total sum faults files o path n e saved =
    let digest : str_eq (sha256_hex (content (part_path name) files)) sum ≡ true = ground arith in
    let finished : put_finish name total faults files ≡ some o = ground arith in
    let (free, there) = put_finish_saved name total faults files o path n finished saved in
    (
      free,
      content (part_path name) files,
      there,
      str_eq_sound (sha256_hex (content (part_path name) files)) sum digest,
    )

put_append-Saves :
    (sha256_hex : List ℕ → Str) (name : Str) (total : ℕ) (sum : Str) (cur : ℕ) (body : List ℕ)
    (faults : Faults) (files : Files) (o : Outcome) (path : Str) (n : ℕ)
    → put_append sha256_hex name total sum cur body faults files ≡ some o
    → o.saved ≡ some (path, n)
    → Saves sha256_hex sum files o path
unfolding put_append refuse progress outcome
put_append-Saves sha256_hex name total sum cur body faults files o path n e saved =
    let files1 : Files =
      insert (part_path name)
        (content (part_path name) files ++ copied faults.copy_stops (total - cur) body) files in
    let verified : put_verify sha256_hex name total sum faults files1 ≡ some o = ground arith in
    insert-Saves sha256_hex sum (part_path name)
      (content (part_path name) files ++ copied faults.copy_stops (total - cur) body) files o path
      (put_verify-Saves sha256_hex name total sum faults files1 o path n verified saved)

put_slice-Saves :
    (sha256_hex : List ℕ → Str) (name : Str) (total : ℕ) (sum : Str) (offset : ℕ) (body : List ℕ)
    (faults : Faults) (files : Files) (o : Outcome) (path : Str) (n : ℕ)
    → put_slice sha256_hex name total sum offset body faults files ≡ some o
    → o.saved ≡ some (path, n)
    → Saves sha256_hex sum files o path
unfolding put_slice refuse outcome
put_slice-Saves sha256_hex name total sum offset body faults files o path n e saved =
    let cur = part_size name files in
    let files1 : Files =
      insert (part_path name) (take offset (content (part_path name) files)) files in
    elim (Bool-cases (ltb offset cur)) [
      | inl back ↦
          let appended : put_append sha256_hex name total sum cur body faults files1 ≡ some o =
            ground arith in
          insert-Saves sha256_hex sum (part_path name)
            (take offset (content (part_path name) files)) files o path
            (put_append-Saves sha256_hex name total sum cur body faults files1 o path n appended
              saved)
      | inr on ↦
          put_append-Saves sha256_hex name total sum cur body faults files o path n (ground arith)
            saved
    ]

check_token_sound :
    (r : Receiver) (token : Str) → check_token r token ≡ true → (r.token ≡ []) ⊎ (token ≡ r.token)
unfolding check_token
check_token_sound r token e = elim (Bool-cases (is_empty r.token)) [
  | inl unset ↦ inl (is_empty_sound r.token unset)
  | inr set ↦ inr (str_eq_sound token r.token (ground arith))
]

module _ (lib : Library) where
  handle_put-Saves :
      (r : Receiver) (q : Request) (name : Str) (faults : Faults) (files : Files) (o : Outcome)
      (path : Str) (n : ℕ)
      → handle_put lib r q name faults files ≡ some o
      → o.saved ≡ some (path, n)
      → Saves lib.sha256_hex (lib.to_lower q.sum) files o path
  unfolding handle_put refuse outcome
  handle_put-Saves r q name faults files o path n e saved =
      elim (Option-cases (natural (lib.parse_int q.total))) [
        | inl no_total ↦ ground arith
        | inr (total, some_total) ↦ elim (Option-cases (natural (lib.parse_int q.offset))) [
          | inl no_offset ↦ ground arith
          | inr (offset, some_offset) ↦
              put_slice-Saves lib.sha256_hex name total (lib.to_lower q.sum) offset q.body faults
                files o path n (ground arith) saved
        ]
      ]

  serve_method-Saves :
      (method : Method) (r : Receiver) (q : Request) (name : Str) (faults : Faults) (files : Files)
      (o : Outcome) (path : Str) (n : ℕ)
      → serve_method lib method r q name faults files ≡ some o
      → o.saved ≡ some (path, n)
      → Saves lib.sha256_hex (lib.to_lower q.sum) files o path
  unfolding serve_method refuse outcome
  serve_method-Saves head r q name faults files o path n e saved = ground arith
  serve_method-Saves put r q name faults files o path n e saved =
      handle_put-Saves r q name faults files o path n e saved
  serve_method-Saves other r q name faults files o path n e saved = ground arith

  -- A file that a request saves was announced with the digest of the bytes it holds, it was asked
  -- for with the receiver's token, if there is one, and its path was free before.
  pub serve_http-Saves :
      (r : Receiver) (q : Request) (faults : Faults) (files : Files) (o : Outcome) (path : Str)
      (n : ℕ)
      → serve_http lib r q faults files ≡ some o
      → o.saved ≡ some (path, n)
      → Saves lib.sha256_hex (lib.to_lower q.sum) files o path
        × ((r.token ≡ []) ⊎ (q.token ≡ r.token))
  unfolding serve_http refuse outcome
  serve_http-Saves r q faults files o path n e saved =
      elim (Result-cases (sanitize_name lib.trim_space q.filename)) [
        | inl (why, bad) ↦ ground arith
        | inr (name, good) ↦ (
          serve_method-Saves q.method r q name faults files o path n (ground arith) saved,
          check_token_sound r q.token (ground arith),
        )
      ]
