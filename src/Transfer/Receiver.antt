-- ===== src/Transfer/Receiver.antt =====
-- internal/filetransfer/receiver.go: the drop folder, queries and uploads. An upload is atomic here:
-- uploads of one name are serialised by the gate of the name.
pub mod Ends
pub mod Saves
pub mod Keeps
pub mod Tells
pub mod Resume
pub mod Rewind
mod Runs
use reversproxy.Base.{
  ℕ, ◌+◌, ◌-◌, Bool, true, false, not, ◌&&◌, ◌||◌, List, [], ◌++◌, Option, none, some,
  if◌then◌else◌, ltb, ◌==◌, length, take, Str, str_eq, is_empty, codes, Map, lookup, insert, delete,
}
use reversproxy.Base.Result.{Result, ok, err}
use reversproxy.Transfer.Names.{
  NameError, missing_filename, invalid_filename, sanitize_name, unique_path,
}

pub data ℤ : Type 0 where
  pos negsuc : (n : ℕ) → ℤ

-- The library functions that the receiver calls.
pub record Library : Type 0 where
  pub trim_space : Str → Str
  pub to_lower : Str → Str
  pub parse_int : Str → Option ℤ
  pub decode_hex : Str → Option (List ℕ)
  pub sha256_hex : List ℕ → Str

-- Which calls of the system fail. The copy of the body stops early, by an error of the body or of
-- the disk, after so many bytes.
pub record Faults : Type 0 where
  pub truncate_fails : Bool
  pub open_fails : Bool
  pub copy_stops : Option ℕ
  pub close_fails : Bool
  pub hash_fails : Bool
  pub remove_fails : Bool
  pub rename_fails : Bool

abbrev pub no_faults : Faults
no_faults = record {
  truncate_fails = false;
  open_fails = false;
  copy_stops = none;
  close_fails = false;
  hash_fails = false;
  remove_fails = false;
  rename_fails = false;
}

pub data Method : Type 0 where
  head put other : Method

pub record Request : Type 0 where
  pub method : Method
  pub token : Str
  pub filename : Str
  pub total : Str
  pub sum : Str
  pub offset : Str
  pub body : List ℕ

-- A size limit of 0 is none.
pub record Receiver : Type 0 where
  pub token : Str
  pub max_size : ℕ

-- The files of the drop folder by their names.
abbrev pub Files : Type 0
Files = Map (List ℕ)

pub record Response : Type 0 where
  pub status : ℕ
  pub offset : Option ℕ
  pub complete : Option Bool

-- `saved` is what the completion callback is told.
pub record Outcome : Type 0 where
  pub files : Files
  pub response : Response
  pub saved : Option (Str × ℕ)

pub outcome : ℕ → Option ℕ → Option Bool → Files → Outcome
outcome status offset complete files = record {
  files = files;
  response = record { status = status; offset = offset; complete = complete };
  saved = none;
}

pub refuse : ℕ → Files → Outcome
unfolding outcome
refuse status files = outcome status none none files

pub progress : ℕ → Files → Outcome
unfolding outcome
progress offset files = outcome 200 (some offset) (some false) files

pub part_path : Str → Str
part_path name = name ++ codes ".part"

-- What the folder holds under a path, nothing if there is no such file.
pub content : Str → Files → List ℕ
content path files = elim (lookup path files) [ none ↦ [] | some bytes ↦ bytes ]

pub part_size : Str → Files → ℕ
unfolding part_path content
part_size name files = length (content (part_path name) files)

-- os.Rename to a path that is free; `none` means that the search for one ran out of fuel.
pub put_finish : Str → ℕ → Faults → Files → Option Outcome
unfolding refuse content part_path
put_finish name total faults files = elim (unique_path name files) [
  | none ↦ none
  | some final ↦ some (
      if faults.rename_fails then refuse 500 files else record {
        files = insert final (content (part_path name) files) (delete (part_path name) files);
        response = record { status = 200; offset = some total; complete = some true };
        saved = some (final, total);
      })
]

pub put_verify : (List ℕ → Str) → Str → ℕ → Str → Faults → Files → Option Outcome
unfolding put_finish
put_verify sha256_hex name total sum faults files =
    let finish = put_finish name total faults files in
    if faults.hash_fails
    then some (refuse 500 files)
    else (if str_eq (sha256_hex (content (part_path name) files)) sum
        then finish
        else some
            (refuse 422 (if faults.remove_fails then files else delete (part_path name) files)))

-- The bytes that io.Copy takes through a limit, with the point where it stops early.
pub copied : Option ℕ → ℕ → List ℕ → List ℕ
copied none limit body = take limit body
copied (some k) limit body = take k (take limit body)

pub is_some : Option ℕ → Bool
is_some none = false
is_some (some _) = true

-- The part file is opened for appending, and what it lacks is taken from the body; `cur` is its size
-- before a possible truncation.
pub put_append : (List ℕ → Str) → Str → ℕ → Str → ℕ → List ℕ → Faults → Files → Option Outcome
unfolding progress copied is_some put_verify
put_append sha256_hex name total sum cur body faults files =
    let taken = copied faults.copy_stops (total - cur) body in
    let files1 : Files = insert (part_path name) (content (part_path name) files ++ taken) files in
    if faults.open_fails
    then some (refuse 500 files)
    else (if is_some faults.copy_stops || faults.close_fails || ltb (cur + length taken) total
        then some (progress (cur + length taken) files1)
        else put_verify sha256_hex name total sum faults files1)

pub put_slice : (List ℕ → Str) → Str → ℕ → Str → ℕ → List ℕ → Faults → Files → Option Outcome
unfolding put_append part_size outcome
put_slice sha256_hex name total sum offset body faults files =
    let cur = part_size name files in
    if ltb cur offset
    then some (outcome 409 (some cur) none files)
    else (if ltb offset cur
        then (if faults.truncate_fails
            then some (refuse 500 files)
            else put_append sha256_hex name total sum cur body faults
                (insert (part_path name) (take offset (content (part_path name) files)) files))
        else put_append sha256_hex name total sum cur body faults files)

-- A number that parses and is not negative.
pub natural : Option ℤ → Option ℕ
natural (some (pos n)) = some n
natural (some (negsuc n)) = none
natural none = none

pub is_digest : Option (List ℕ) → Bool
is_digest none = false
is_digest (some raw) = length raw == 32

pub check_token : Receiver → Str → Bool
check_token r token = is_empty r.token || str_eq token r.token

module _ (lib : Library) where
  pub handle_put : Receiver → Request → Str → Faults → Files → Option Outcome
  unfolding natural is_digest put_slice
  handle_put r q name faults files = elim (natural (lib.parse_int q.total)) [
    | none ↦ some (refuse 400 files)
    | some total ↦
        if ltb 0 r.max_size && ltb r.max_size total
        then some (refuse 413 files)
        else (if not (is_digest (lib.decode_hex (lib.to_lower q.sum)))
            then some (refuse 400 files)
            else (elim (natural (lib.parse_int q.offset)) [
              | none ↦ some (refuse 400 files)
              | some offset ↦
                  put_slice lib.sha256_hex name total (lib.to_lower q.sum) offset q.body faults
                    files
            ]))
  ]

  pub serve_method : Method → Receiver → Request → Str → Faults → Files → Option Outcome
  unfolding handle_put
  serve_method head r q name faults files =
      some (outcome 200 (some (part_size name files)) none files)
  serve_method put r q name faults files = handle_put r q name faults files
  serve_method other r q name faults files = some (refuse 405 files)

  unfoldable pub serve_http : Receiver → Request → Faults → Files → Option Outcome
  unfolding check_token serve_method
  serve_http r q faults files =
      if not (check_token r q.token)
      then some (refuse 401 files)
      else (elim (sanitize_name lib.trim_space q.filename) [
        | err _ ↦ some (refuse 400 files)
        | ok name ↦ serve_method q.method r q name faults files
      ])
