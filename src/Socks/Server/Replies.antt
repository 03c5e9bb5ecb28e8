-- ===== src/Socks/Server/Replies.antt =====
-- internal/socks/server.go: what a user of the server's SOCKS5 listener is told, and when.
use reversproxy.Base.{
  ℕ, ◌≡◌, refl, ap, ◌⊎◌, inl, inr, if_cases, Bool, true, false, List, [], ◌∷◌, Option, none, some,
  Str,
}
use mathlib.Core.List.{Memᴰ}
use reversproxy.Tunnel.Manager.{
  Manager, register_pending, register_pending_socks, wait_ready, wait_socks_ready,
}
use reversproxy.Tunnel.Writer.{pick_any}
use reversproxy.Base.Result.{ok}
use reversproxy.Socks.Negotiate.{Link, negotiate_socks5}
use reversproxy.Socks.Server.{
  Phase, dialing, fetching, copying, crashed, over, answer, refuse, Choice, arrives, times_out,
  cancelled, on_ready, on_data, advance, run, Server, Turn, route, tell_client, negotiated,
  handle_socks_conn,
}

-- The handler whose pending objects are `p` and `q`, whose user has had no reply at `l0`, and which
-- waits at the times of `all`.
module _ (p q : ℕ) (l0 : Link) (all : List (Choice × Manager)) where
  -- The client has reported a dial that succeeded.
  abbrev pub HasDialled : Type 0
  HasDialled =
      (m : Manager) × (text : Str) × Memᴰ (arrives, m) all
      × (wait_socks_ready p m ≡ some (true, text))

  -- A data connection has come.
  abbrev pub HasData : ℕ → Type 0
  HasData d = (m : Manager) × Memᴰ (arrives, m) all × (wait_ready q m ≡ some (some d))

  -- What has been written to the user in each phase.
  abbrev pub IsReplied : Phase → Link → Type 0
  IsReplied (dialing p' q') l = (p' ≡ p) × (q' ≡ q) × (l ≡ l0)
  IsReplied (fetching q') l = (q' ≡ q) × (l ≡ l0) × HasDialled
  IsReplied (copying d) l = (l ≡ answer 0 l0) × HasDialled × HasData d
  IsReplied crashed l =
      (l ≡ answer 0 l0)
      × HasDialled
      × ((m : Manager) × Memᴰ (arrives, m) all × (wait_ready q m ≡ some none))
  IsReplied over l =
      ((rep : ℕ) × (rep ≡ 1 ⊎ rep ≡ 5) × (l ≡ answer rep l0))
      ⊎ ((l ≡ answer 0 l0) × HasDialled × ((d : ℕ) × HasData d))

  refuse-IsReplied :
      (rep : ℕ) (l : Link)
      → (rep ≡ 1) ⊎ (rep ≡ 5)
      → l ≡ l0
      → IsReplied (refuse rep l).0 (refuse rep l).1
  unfolding refuse
  refuse-IsReplied rep l small same = inl (rep, small, ap (answer rep) same)

  on_ready-IsReplied :
      (m : Manager) (l : Link) (o : Option (Bool × Str))
      → Memᴰ (arrives, m) all
      → l ≡ l0
      → wait_socks_ready p m ≡ o
      → IsReplied (on_ready o p q l).0 (on_ready o p q l).1
  unfolding on_ready
  on_ready-IsReplied m l none seen same e = (refl, refl, same)
  on_ready-IsReplied m l (some (true, text)) seen same e = (refl, same, (m, text, seen, e))
  on_ready-IsReplied m l (some (false, text)) seen same e = refuse-IsReplied 5 l (inr refl) same

  on_data-IsReplied :
      (m : Manager) (l : Link) (o : Option (Option ℕ))
      → Memᴰ (arrives, m) all
      → l ≡ l0
      → HasDialled
      → wait_ready q m ≡ o
      → IsReplied (on_data o q l).0 (on_data o q l).1
  unfolding on_data
  on_data-IsReplied m l none seen same dialled e = (refl, same, dialled)
  on_data-IsReplied m l (some none) seen same dialled e =
      (ap (answer 0) same, dialled, (m, seen, e))
  on_data-IsReplied m l (some (some d)) seen same dialled e =
      (ap (answer 0) same, dialled, (m, seen, e))

  advance-IsReplied :
      (c : Choice) (m : Manager) (phase : Phase) (l : Link)
      → Memᴰ (c, m) all
      → IsReplied phase l
      → IsReplied (advance c m phase l).0 (advance c m phase l).1
  unfolding advance
  advance-IsReplied arrives m (dialing p' q') l seen (p_eq, q_eq, same) =
      rw (p_eq, q_eq) (on_ready-IsReplied m l _ seen same refl)
  advance-IsReplied times_out m (dialing p' q') l seen (p_eq, q_eq, same) =
      refuse-IsReplied 1 l (inl refl) same
  advance-IsReplied cancelled m (dialing p' q') l seen (p_eq, q_eq, same) =
      refuse-IsReplied 1 l (inl refl) same
  advance-IsReplied arrives m (fetching q') l seen (q_eq, same, dialled) =
      rw q_eq (on_data-IsReplied m l _ seen same dialled refl)
  advance-IsReplied times_out m (fetching q') l seen (q_eq, same, dialled) =
      refuse-IsReplied 1 l (inl refl) same
  advance-IsReplied cancelled m (fetching q') l seen (q_eq, same, dialled) =
      refuse-IsReplied 1 l (inl refl) same
  advance-IsReplied c m (copying d) l seen (same, dialled, data_there) =
      inr (same, dialled, (d, data_there))
  advance-IsReplied c m crashed l seen h = h
  advance-IsReplied c m over l seen h = h

  run-IsReplied_from :
      (ts : List (Choice × Manager)) (phase : Phase) (l : Link)
      → ((x : Choice × Manager) → Memᴰ x ts → Memᴰ x all)
      → IsReplied phase l
      → IsReplied (run ts phase l).0 (run ts phase l).1
  unfolding run
  run-IsReplied_from [] phase l inside h = h
  run-IsReplied_from ((c, m) ∷ ts) phase l inside h =
      run-IsReplied_from ts _ _ (λ x mem. inside x (Memᴰ.tail mem))
        (advance-IsReplied c m phase l (inside (c, m) (Memᴰ.head refl)) h)

run-IsReplied :
    (p q : ℕ) (l0 l : Link) (phase : Phase) (ts : List (Choice × Manager))
    → IsReplied p q l0 ts phase l
    → IsReplied p q l0 ts (run ts phase l).0 (run ts phase l).1
run-IsReplied p q l0 l phase ts h = run-IsReplied_from p q l0 ts ts phase l (λ x mem. mem) h

route-IsReplied :
    (w : Option ℕ) (host : Str) (port ext : ℕ) (t : Turn) (l : Link) (s : Server)
    (ts : List (Choice × Manager))
    → let r = (route w host port ext t l s).0 in
      IsReplied s.manager.next_dial s.manager.next_conn l ts r.0 r.1
unfolding route tell_client register_pending register_pending_socks
route-IsReplied none host port ext t l s ts =
    refuse-IsReplied s.manager.next_dial s.manager.next_conn l ts 1 l (inl refl) refl
route-IsReplied (some w) host port ext t l s ts =
    if_cases
      (λ (r : (Phase × Link) × Server).
        IsReplied s.manager.next_dial s.manager.next_conn l ts r.0.0 r.0.1)
      t.write_ok _ _ (λ _. (refl, refl, refl))
      (λ _. refuse-IsReplied s.manager.next_dial s.manager.next_conn l ts 1 l (inl refl) refl)

-- A user whose handshake has succeeded, whatever the manager is at each later time and whichever case
-- each select takes: there is one reply at most after the handshake, and exactly one once the handler
-- copies, crashes or has ended. It is success only after the client has reported a dial that
-- succeeded and the pending data connection was set ready. Bytes are copied only then, and to the
-- data connection that was set; where none was set with it, the handler crashes after its one reply.
pub handle_socks_conn-IsReplied :
    (ip_string : List ℕ → Str) (is_ip : Str → Bool) (user pass host : Str) (port ext : ℕ) (t : Turn)
    (l l1 : Link) (s : Server) (ts : List (Choice × Manager))
    → negotiate_socks5 ip_string is_ip user pass l ≡ (ok (host, port), l1)
    → let start = (handle_socks_conn ip_string is_ip user pass ext t l s).0 in
      let end = run ts start.0 start.1 in
      IsReplied s.manager.next_dial s.manager.next_conn l1 ts end.0 end.1
unfolding handle_socks_conn negotiated
handle_socks_conn-IsReplied ip_string is_ip user pass host port ext t l l1 s ts e = rw e (
    run-IsReplied s.manager.next_dial s.manager.next_conn l1 _ _ ts
      (route-IsReplied (pick_any s.writers) host port ext t l1 s ts))
