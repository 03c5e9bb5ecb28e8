-- ===== src/Transfer/Sender.antt =====
-- internal/filetransfer/sender.go: the loop that sends a file to a receiver, over what happens in
-- each round.
pub mod Rounds
pub mod Delivers
mod Runs
use reversproxy.Base.{
  ℕ, zero, suc, ◌+◌, ◌*◌, Bool, true, false, List, [], ◌∷◌, Option, none, some, if◌then◌else◌, ltb,
  ◌==◌, length, drop, Str,
}
use reversproxy.Transfer.Receiver.{
  Library, Faults, head, put, Method, Request, Receiver, Files, Response, Outcome, serve_http,
}

-- `max_retries` of 0 stands for the default.
pub record Options : Type 0 where
  pub token : Str
  pub max_retries : ℕ

pub retries : Options → ℕ
retries opts = if opts.max_retries == 0 then 5 else opts.max_retries

-- The local file: its name without folders, and its bytes.
pub record Source : Type 0 where
  pub name : Str
  pub bytes : List ℕ

-- What happens in a round: whether the context is done, whether the query has no answer, whether
-- the upload never reaches the receiver, what fails there, and whether its answer is lost.
pub record Round : Type 0 where
  pub cancelled : Bool
  pub query_fails : Bool
  pub put_fails : Bool
  pub faults : Faults
  pub reply_lost : Bool

pub data Sent : Type 0 where
  sent cancelled_send conflicts_error attempts_error still_sending : Sent

-- After a round: the result if the loop ends in it, the attempts and the conflicts so far, the files.
pub record Step : Type 0 where
  pub result : Sent
  pub attempt : ℕ
  pub conflicts : ℕ
  pub files : Files

pub step_to : Sent → ℕ → ℕ → Files → Step
step_to result attempt conflicts files = record {
  result = result;
  attempt = attempt;
  conflicts = conflicts;
  files = files;
}

-- What an upload came to: its error, or whether it is complete, or a conflict.
pub data Reply : Type 0 where
  failed complete incomplete conflict : Reply

pub read_reply : Response → Reply
read_reply r =
    if r.status == 200
    then (elim r.complete [ some true ↦ complete | some false ↦ incomplete | none ↦ incomplete ])
    else (if r.status == 409 then conflict else failed)

pub max_conflicts : Options → ℕ
unfolding retries
max_conflicts opts = 2 * (retries opts + 1) + 4

pub after_reply : Options → ℕ → ℕ → Reply × Files → Step
unfolding max_conflicts step_to
after_reply opts attempt conflicts (failed, files) =
    step_to still_sending (attempt + 1) conflicts files
after_reply opts attempt conflicts (complete, files) = step_to sent attempt conflicts files
after_reply opts attempt conflicts (incomplete, files) =
    step_to still_sending (attempt + 1) conflicts files
after_reply opts attempt conflicts (conflict, files) =
    step_to (if ltb (max_conflicts opts) (conflicts + 1) then conflicts_error else still_sending)
      attempt (conflicts + 1) files

-- The loop goes on, or ends with the result of the round.
pub proceed : Sent → Files → Sent × Files → Sent × Files
proceed still_sending files rest = rest
proceed sent files rest = (sent, files)
proceed cancelled_send files rest = (cancelled_send, files)
proceed conflicts_error files rest = (conflicts_error, files)
proceed attempts_error files rest = (attempts_error, files)

module _ (lib : Library) (format_int : ℕ → Str) (r : Receiver) (opts : Options) (src : Source) where
  pub query : Request
  query = record {
    method = head;
    token = opts.token;
    filename = src.name;
    total = [];
    sum = [];
    offset = [];
    body = [];
  }

  pub upload : ℕ → Request
  upload offset = record {
    method = put;
    token = opts.token;
    filename = src.name;
    total = format_int (length src.bytes);
    sum = lib.sha256_hex src.bytes;
    offset = format_int offset;
    body = drop offset src.bytes;
  }

  -- An answer without a number in X-Offset is read as 0.
  pub read_offset : Response → Option ℕ
  read_offset response =
      if response.status == 200 then some (elim response.offset [ none ↦ 0 | some n ↦ n ]) else none

  pub remote_offset : Round → Files → Option ℕ
  unfolding query read_offset
  remote_offset w files =
      if w.query_fails then none else (elim (serve_http lib r query w.faults files) [
        | none ↦ none
        | some o ↦ read_offset o.response
      ])

  pub put_from : ℕ → Round → Files → Reply × Files
  unfolding upload read_reply
  put_from offset w files =
      if w.put_fails
      then (failed, files)
      else (elim (serve_http lib r (upload offset) w.faults files) [
        | none ↦ (failed, files)
        | some o ↦ (if w.reply_lost then failed else read_reply o.response, o.files)
      ])

  -- A part file that is longer than the file is restarted from 0.
  pub restart : ℕ → ℕ
  restart offset = if ltb (length src.bytes) offset then 0 else offset

  pub send_round : Round → ℕ → ℕ → Files → Step
  unfolding remote_offset put_from restart after_reply
  send_round w attempt conflicts files =
      if w.cancelled
      then step_to cancelled_send attempt conflicts files
      else (elim (remote_offset w files) [
        | none ↦ step_to still_sending (attempt + 1) conflicts files
        | some offset ↦ after_reply opts attempt conflicts (put_from (restart offset) w files)
      ])

  -- The loop; behind the end of the list of rounds the sender still is at work.
  pub send_on : List Round → ℕ → ℕ → Files → Sent × Files
  unfolding send_round proceed
  send_on [] attempt conflicts files =
      (if ltb (retries opts) attempt then attempts_error else still_sending, files)
  send_on (w ∷ ws) attempt conflicts files =
      let step = send_round w attempt conflicts files in
      let rest = send_on ws step.attempt step.conflicts step.files in
      if ltb (retries opts) attempt
      then (attempts_error, files)
      else proceed step.result step.files rest

  pub send_file : List Round → Files → Sent × Files
  unfolding send_on
  send_file ws files = send_on ws 0 0 files
