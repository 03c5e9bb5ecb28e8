-- ===== src/Transfer/Receiver/Resume.antt =====
-- internal/filetransfer/receiver.go: a file that is sent in slices, with failures in between.
use reversproxy.Base.{
  ℕ, zero, suc, ◌+◌, ◌≤◌, ◌-◌, ◌≡◌, refl, ap, ◌∙◌, ◌⊎◌, inl, inr, Bool, true, false, ◌||◌, List, [],
  ◌∷◌, ◌++◌, Option, none, some, ltb, length, length-take, length-drop, take, drop, Str, str_eq,
  str_eq_refl, lookup, insert, delete, lookup-insert, Bool-cases, Option-cases, arith,
}
use reversproxy.Transfer.Names.{unique_path}
use reversproxy.Transfer.Receiver.Ends.{put_slice_ends}
use reversproxy.Transfer.Receiver.{
  Faults, Files, Outcome, outcome, refuse, progress, part_path, content, part_size, put_finish,
  put_verify, copied, is_some, put_append, put_slice,
}

take-over_length : (n : ℕ) (xs : List ℕ) → length xs ≤ n → take n xs ≡ xs
take-over_length zero [] h = refl
take-over_length zero (x ∷ xs) h = ground arith
take-over_length (suc n) [] h = refl
take-over_length (suc n) (x ∷ xs) h = ground (arith, take-over_length n xs)

pub length-take_le : (n : ℕ) (xs : List ℕ) → length (take n xs) ≤ n
length-take_le zero xs = ground arith
length-take_le (suc n) [] = ground arith
length-take_le (suc n) (x ∷ xs) = ground (arith, length-take_le n xs)

take-append_next :
    (n m : ℕ) (xs : List ℕ) → n ≤ length xs → take n xs ++ take m (drop n xs) ≡ take (n + m) xs
take-append_next zero m xs h = ground arith
take-append_next (suc n) m [] h = ground arith
take-append_next (suc n) m (x ∷ xs) h =
    let counted : suc n + m ≡ suc (n + m) = omega arith in
    ground (arith, take-append_next n m xs, ap (λ k. take k (x ∷ xs)) counted)

take-take_le : (k l : ℕ) (xs : List ℕ) → k ≤ l → take k (take l xs) ≡ take k xs
take-take_le zero l xs h = refl
take-take_le (suc k) zero xs h = ground arith
take-take_le (suc k) (suc l) [] h = refl
take-take_le (suc k) (suc l) (x ∷ xs) h = ground (arith, take-take_le k l xs)

-- What is copied is the front of the body, up to the limit at most.
pub copied_front :
    (stop : Option ℕ) (limit : ℕ) (body : List ℕ)
    → (m : ℕ) × (m ≤ limit) × (copied stop limit body ≡ take m body)
unfolding copied
copied_front none limit body = (limit, ground arith, refl)
copied_front (some k) limit body = elim (Bool-cases (ltb k limit)) [
  | inl under ↦ (k, ground arith, take-take_le k limit body (ground arith))
  | inr over ↦ (
    limit,
    ground arith,
    take-over_length k (take limit body) (ground (arith, length-take_le limit body)),
  )
]

copied_full :
    (stop : Option ℕ) (limit : ℕ) (body : List ℕ)
    → is_some stop ≡ false
    → limit ≤ length body
    → length (copied stop limit body) ≡ limit
unfolding copied is_some
copied_full none limit body e h = length-take limit body h
copied_full (some k) limit body e h = cc

pub content-insert :
    (path : Str) (bytes : List ℕ) (files : Files) → content path (insert path bytes files) ≡ bytes
unfolding content
content-insert path bytes files =
    ground (arith, lookup-insert path path bytes files, str_eq_refl path)

-- Whether a call fails that an upload at the size of the part file makes.
pub harms : Faults → Bool
unfolding is_some
harms f =
    f.open_fails || (is_some f.copy_stops || (f.close_fails || (f.hash_fails || f.rename_fails)))

-- What becomes of a file that is being sent: it is saved, or a call failed and the part file holds
-- at least the first `n` of its bytes and no others.
abbrev pub Advances : Str → List ℕ → ℕ → Faults → Outcome → Type 0
Advances name bytes n faults o =
    ((path : Str) × (o.saved ≡ some (path, length bytes)) × (lookup path o.files ≡ some bytes))
    ⊎ ((harms faults ≡ true)
        × (m : ℕ) × (n ≤ m)
        × (m ≤ length bytes)
        × (content (part_path name) o.files ≡ take m bytes))

put_finish-Advances :
    (name : Str) (bytes : List ℕ) (n : ℕ) (faults : Faults) (files : Files) (o : Outcome)
    → n ≤ length bytes
    → content (part_path name) files ≡ bytes
    → put_finish name (length bytes) faults files ≡ some o
    → Advances name bytes n faults o
unfolding put_finish refuse outcome harms
put_finish-Advances name bytes n faults files o below held e =
    let part = part_path name in
    elim (Option-cases (unique_path name files)) [
      | inl none_free ↦ ground arith
      | inr (final, found) ↦
          let there : lookup final (insert final (content part files) (delete part files))
              ≡ some (content part files) =
            ground (
              arith,
              lookup-insert final final (content part files) (delete part files),
              str_eq_refl final,
            ) in
          elim (Bool-cases faults.rename_fails) [
            | inl fails ↦ inr (
              ground arith,
              length bytes,
              below,
              ground arith,
              ground (arith, held, take-over_length (length bytes) bytes),
            )
            | inr works ↦ inl (final, ground arith, ground arith)
          ]
    ]

put_verify-Advances :
    (sha256_hex : List ℕ → Str) (name : Str) (bytes : List ℕ) (n : ℕ) (faults : Faults)
    (files : Files) (o : Outcome)
    → n ≤ length bytes
    → content (part_path name) files ≡ bytes
    → put_verify sha256_hex name (length bytes) (sha256_hex bytes) faults files ≡ some o
    → Advances name bytes n faults o
unfolding put_verify refuse outcome harms
put_verify-Advances sha256_hex name bytes n faults files o below held e =
    let same : str_eq (sha256_hex (content (part_path name) files)) (sha256_hex bytes) ≡ true =
      rw held (str_eq_refl (sha256_hex bytes)) in
    elim (Bool-cases faults.hash_fails) [
      | inl fails ↦ inr (
        ground arith,
        length bytes,
        below,
        ground arith,
        ground (arith, held, take-over_length (length bytes) bytes),
      )
      | inr works ↦ put_finish-Advances name bytes n faults files o below held (ground arith)
    ]

put_append-Advances :
    (sha256_hex : List ℕ → Str) (name : Str) (bytes : List ℕ) (n : ℕ) (faults : Faults)
    (files : Files) (o : Outcome)
    → n ≤ length bytes
    → content (part_path name) files ≡ take n bytes
    → put_append sha256_hex name (length bytes) (sha256_hex bytes) n (drop n bytes) faults files
      ≡ some o
    → Advances name bytes n faults o
unfolding put_append refuse progress outcome harms
put_append-Advances sha256_hex name bytes n faults files o below held e =
    let (m, m_le, front) = copied_front faults.copy_stops (length bytes - n) (drop n bytes) in
    let part = part_path name in
    let taken = copied faults.copy_stops (length bytes - n) (drop n bytes) in
    let files1 : Files = insert part (content part files ++ taken) files in
    let full : is_some faults.copy_stops ≡ false → length taken ≡ length bytes - n = λ none_stops.
      copied_full faults.copy_stops (length bytes - n) (drop n bytes) none_stops
        (ground (arith, length-drop n bytes)) in
    let counted : length taken ≡ m =
      ap length front ∙ length-take m (drop n bytes) (ground (arith, length-drop n bytes)) in
    let grown : content part files1 ≡ take (n + m) bytes =
      content-insert part (content part files ++ taken) files
      ∙ (ap (λ c. c ++ taken) held
          ∙ (ap (λ t. take n bytes ++ t) front ∙ take-append_next n m bytes below)) in
    elim (Bool-cases faults.open_fails) [
      | inl fails ↦ inr (ground arith, n, ground arith, below, ground arith)
      | inr opens ↦
          elim (Bool-cases (
            is_some faults.copy_stops
            || faults.close_fails
            || ltb (n + length taken) (length bytes))) [
              | inl stops ↦
                  inr (ground (arith, full), n + m, ground arith, ground arith, ground arith)
              | inr ends ↦
                  put_verify-Advances sha256_hex name bytes n faults files1 o below
                    (grown ∙ take-over_length (n + m) bytes (ground arith)) (ground arith)
            ]
    ]

-- A client that continues where the part file ends, with a digest of its own file, either has the
-- whole file saved, or a call of the system failed and the part file still holds the front of the
-- file, no shorter than before.
pub put_slice-Advances :
    (sha256_hex : List ℕ → Str) (name : Str) (bytes : List ℕ) (n : ℕ) (faults : Faults)
    (files : Files)
    → n ≤ length bytes
    → content (part_path name) files ≡ take n bytes
    → (o : Outcome) × (put_slice sha256_hex name
          (length bytes)
          (sha256_hex bytes)
          n
          (drop n bytes)
          faults
          files
        ≡ some o)
      × Advances name bytes n faults o
unfolding put_slice
put_slice-Advances sha256_hex name bytes n faults files below held =
    let (o, e) =
      put_slice_ends sha256_hex name (length bytes) (sha256_hex bytes) n (drop n bytes) faults
        files in
    let size : part_size name files ≡ n = ap length held ∙ length-take n bytes below in
    let appended : put_append sha256_hex name (length bytes) (sha256_hex bytes) n (drop n bytes)
          faults files
        ≡ some o =
      ground arith in
    (o, e, put_append-Advances sha256_hex name bytes n faults files o below held appended)
