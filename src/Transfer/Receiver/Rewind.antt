-- ===== src/Transfer/Receiver/Rewind.antt =====
-- internal/filetransfer/receiver.go: an upload that starts before the end of the part file.
use reversproxy.Base.{
  ℕ, ◌≤◌, ◌<◌, ◌-◌, ◌≡◌, ap, ◌∙◌, false, List, ◌++◌, Option, none, some, length, length-append,
  take, Str, str_eq, str_eq_ne, insert, arith,
}
use reversproxy.Transfer.Receiver.Resume.{copied_front, content-insert, length-take_le}
use reversproxy.Transfer.Receiver.{
  Faults, Files, Outcome, outcome, refuse, progress, part_path, content, part_size, put_verify,
  copied, put_append, put_slice,
}

copied_le : (stop : Option ℕ) (limit : ℕ) (body : List ℕ) → length (copied stop limit body) ≤ limit
copied_le stop limit body =
    let (m, under, front) = copied_front stop limit body in
    ground (arith, ap length front, length-take_le m body)

-- Only the bytes of the file have its digest.
abbrev pub IsCollisionFree : (List ℕ → Str) → List ℕ → Type 0
IsCollisionFree sha256_hex bytes =
    (others : List ℕ) → sha256_hex others ≡ sha256_hex bytes → others ≡ bytes

put_verify_short :
    (sha256_hex : List ℕ → Str) (name : Str) (bytes : List ℕ) (faults : Faults) (files : Files)
    (o : Outcome)
    → IsCollisionFree sha256_hex bytes
    → length (content (part_path name) files) < length bytes
    → put_verify sha256_hex name (length bytes) (sha256_hex bytes) faults files ≡ some o
    → o.saved ≡ none
unfolding put_verify refuse outcome
put_verify_short sha256_hex name bytes faults files o only short e =
    let held = content (part_path name) files in
    let differs : str_eq (sha256_hex held) (sha256_hex bytes) ≡ false =
      str_eq_ne (sha256_hex held) (sha256_hex bytes)
        (λ same. ground (arith, ap length (only held same))) in
    ground arith

-- An upload that starts before the end of the part file and before the end of the file is never
-- completed, whatever its body and whatever fails, if only the bytes of the file have its digest.
pub put_slice_rewinds :
    (sha256_hex : List ℕ → Str) (name : Str) (bytes : List ℕ) (offset : ℕ) (body : List ℕ)
    (faults : Faults) (files : Files) (o : Outcome)
    → IsCollisionFree sha256_hex bytes
    → offset < length bytes
    → offset < part_size name files
    → put_slice sha256_hex name (length bytes) (sha256_hex bytes) offset body faults files ≡ some o
    → o.saved ≡ none
unfolding put_slice put_append refuse progress outcome
put_slice_rewinds sha256_hex name bytes offset body faults files o only before back e =
    let part = part_path name in
    let cur = part_size name files in
    let cut = take offset (content part files) in
    let files1 : Files = insert part cut files in
    let taken = copied faults.copy_stops (length bytes - cur) body in
    let files2 : Files = insert part (content part files1 ++ taken) files1 in
    let held : content part files2 ≡ cut ++ taken =
      content-insert part (content part files1 ++ taken) files1
      ∙ ap (λ c. c ++ taken) (content-insert part cut files) in
    let short : length (content part files2) < length bytes = ground (
      arith,
      ap length held,
      length-append cut taken,
      length-take_le offset (content part files),
      copied_le faults.copy_stops (length bytes - cur) body,
    ) in
    ground (arith, put_verify_short sha256_hex name bytes faults files2 o only short)
