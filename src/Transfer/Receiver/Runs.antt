-- ===== src/Transfer/Receiver/Runs.antt =====
-- internal/filetransfer: runs of the receiver with a digest that is the bytes themselves.
use reversproxy.Base.{
  ℕ, ◌-◌, ◌≡◌, ◌⊎◌, [], ◌≢◌, refl, true, false, List, [], ◌∷◌, Option, none, some, has, Str, str_eq,
  is_empty, codes, lookup, insert, delete, arith,
}
use reversproxy.Transfer.Names.{sanitize_name, unique_path, candidate}
use reversproxy.Transfer.Receiver.{
  ℤ, pos, Library, no_faults, put, Request, Receiver, Files, Outcome, part_path, content, part_size,
  put_slice, serve_http,
}
use reversproxy.Transfer.Names.Safe.{sanitize_name_safe}
use reversproxy.Transfer.Receiver.Saves.{Saves, serve_http-Saves}
use reversproxy.Transfer.Receiver.Keeps.{serve_http_keeps}
use reversproxy.Transfer.Receiver.Resume.{Advances, put_slice-Advances}
use reversproxy.Transfer.Receiver.Rewind.{put_slice_rewinds}

abbrev whole : Str → Str
whole s = s

-- A number of one digit.
abbrev digit : Str → Option ℤ
digit [] = none
digit (c ∷ cs) = some (pos (c - 48))

abbrev bytes32 : Str → Option (List ℕ)
bytes32 s = some (codes "01234567890123456789012345678901")

abbrev sample : Library
sample = record {
  trim_space = whole;
  to_lower = whole;
  parse_int = digit;
  decode_hex = bytes32;
  sha256_hex = whole;
}

abbrev folder : Files
folder = (codes "a.txt", codes "old") ∷ (codes "a.txt.part", codes "he") ∷ []

abbrev folder_after : Files
folder_after = (codes "a.txt", codes "old") ∷ (codes "a (1).txt", codes "hello") ∷ []

abbrev guarded : Receiver
guarded = record { token = codes "secret"; max_size = 9 }

abbrev upload : Request
upload = record {
  method = put;
  token = codes "secret";
  filename = codes "dir/a.txt";
  total = codes "5";
  sum = codes "hello";
  offset = codes "2";
  body = codes "llo";
}

abbrev stored : Outcome
stored = record {
  files = folder_after;
  response = record { status = 200; offset = some 5; complete = some true };
  saved = some (codes "a (1).txt", 5);
}

upload_run : serve_http sample guarded upload no_faults folder ≡ some stored
unfolding serve_http sanitize_name unique_path candidate is_empty str_eq has lookup insert delete
upload_run = refl

sanitize_name_safe_example :
    (codes "a.txt" ≢ [])
    × (codes "a.txt" ≢ codes ".")
    × (codes "a.txt" ≢ codes "..")
    × (has b'/' (codes "a.txt") ≡ false)
    × (has 0x5c (codes "a.txt") ≡ false)
    × (has 0 (codes "a.txt") ≡ false)
unfolding sanitize_name is_empty str_eq has
sanitize_name_safe_example = sanitize_name_safe whole (codes "dir/a.txt") (codes "a.txt") refl

serve_http-Saves_example :
    Saves whole (codes "hello") folder stored (codes "a (1).txt")
    × ((guarded.token ≡ []) ⊎ (upload.token ≡ guarded.token))
serve_http-Saves_example =
    serve_http-Saves sample guarded upload no_faults folder stored (codes "a (1).txt") 5 upload_run
      refl

other_path : codes "a.txt" ≢ part_path (codes "a.txt")
unfolding part_path
other_path e = ground arith

serve_http_keeps_example : lookup (codes "a.txt") folder_after ≡ some (codes "old")
unfolding sanitize_name is_empty str_eq has lookup
serve_http_keeps_example =
    serve_http_keeps sample guarded upload (codes "a.txt") no_faults folder stored (codes "a.txt")
      (codes "old") other_path refl upload_run refl

held_run : content (part_path (codes "a.txt")) folder ≡ codes "he"
unfolding content part_path lookup str_eq
held_run = refl

put_slice-Advances_example :
    (o : Outcome) × (put_slice whole
        (codes "a.txt")
        5
        (codes "hello")
        2
        (codes "llo")
        no_faults
        folder
      ≡ some o)
    × Advances (codes "a.txt") (codes "hello") 2 no_faults o
put_slice-Advances_example =
    put_slice-Advances whole (codes "a.txt") (codes "hello") 2 no_faults folder (omega arith)
      held_run

abbrev refused : Outcome
refused = record {
  files = (codes "a.txt", codes "old") ∷ [];
  response = record { status = 422; offset = none; complete = none };
  saved = none;
}

rewind_run :
    put_slice whole (codes "a.txt") 5 (codes "hello") 1 (codes "ello") no_faults folder
    ≡ some refused
unfolding put_slice is_empty str_eq lookup insert delete
rewind_run = refl

put_slice_rewinds_example : refused.saved ≡ none
unfolding part_size lookup str_eq
put_slice_rewinds_example =
    put_slice_rewinds whole (codes "a.txt") (codes "hello") 1 (codes "ello") no_faults folder
      refused (λ others same. same) (omega arith) (ground arith) rewind_run
