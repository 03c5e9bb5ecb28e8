-- ===== src/Transfer/Sender/Runs.antt =====
-- internal/filetransfer/sender.go: a send with a broken round, and a digest that is the bytes.
use reversproxy.Base.{
  ℕ, ◌+◌, ◌-◌, ◌≡◌, refl, true, false, List, [], ◌∷◌, Option, none, some, has, Str, str_eq,
  is_empty, codes, lookup, insert, delete,
}
use reversproxy.Transfer.Names.{sanitize_name, unique_path, candidate}
use reversproxy.Transfer.Receiver.{ℤ, pos, Library, no_faults, Receiver, serve_http}
use reversproxy.Transfer.Sender.{Options, Source, Round, sent, send_file}
use reversproxy.Transfer.Sender.Delivers.{IsStored, send_file_sent}

abbrev unchanged : Str → Str
unchanged s = s

-- Numbers of one digit.
abbrev read_digit : Str → Option ℤ
read_digit [] = none
read_digit (c ∷ cs) = some (pos (c - 48))

abbrev write_digit : ℕ → Str
write_digit n = (48 + n) ∷ []

abbrev some_digest : Str → Option (List ℕ)
some_digest s = some (codes "01234567890123456789012345678901")

abbrev tools : Library
tools = record {
  trim_space = unchanged;
  to_lower = unchanged;
  parse_int = read_digit;
  decode_hex = some_digest;
  sha256_hex = unchanged;
}

abbrev open_receiver : Receiver
open_receiver = record { token = []; max_size = 0 }

abbrev one_retry : Options
one_retry = record { token = []; max_retries = 1 }

abbrev note : Source
note = record { name = codes "a.txt"; bytes = codes "hello" }

abbrev calm : Round
calm = record {
  cancelled = false;
  query_fails = false;
  put_fails = false;
  faults = no_faults;
  reply_lost = false;
}

abbrev broken : Round
broken = record calm { faults = record no_faults { copy_stops = some 2 }; reply_lost = true }

abbrev many : List Round
many = calm ∷ calm ∷ calm ∷ calm ∷ calm ∷ calm ∷ calm ∷ calm ∷ calm ∷ calm ∷ []

delivered :
    (send_file tools write_digit open_receiver one_retry note (broken ∷ calm ∷ []) []).0 ≡ sent
unfolding send_file serve_http sanitize_name unique_path candidate is_empty str_eq has lookup insert
    delete
delivered = refl

send_file_sent_example :
    IsStored
      (codes "hello")
      (send_file tools write_digit open_receiver one_retry note (broken ∷ calm ∷ []) []).1
send_file_sent_example =
    send_file_sent tools write_digit open_receiver one_retry note (broken ∷ calm ∷ []) [] refl
      (λ others same. same) delivered
