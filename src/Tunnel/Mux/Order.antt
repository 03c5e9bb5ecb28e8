-- ===== src/Tunnel/Mux/Order.antt =====
-- internal/tunnel/socks_mux.go: what the reader of a channel gets, over any sequence of calls.
use reversproxy.Base.{
  ℕ, suc, ◌+◌, ◌≡◌, ◌≤◌, refl, sym, ap, subst, ◌∙◌, inl, inr, Bool, true, false, List, [], ◌∷◌,
  ◌++◌, some, ◌==◌, leb, Bool-cases, Option-cases, Str, lookup, insert, values, update, length,
  arith,
}
use mathlib.Core.List.{append_assoc, append-nil}
use reversproxy.Tunnel.Mux.{
  Channel, Mux, new_object, new_mux, closing, new_channel, remove, deliver, take_first, read_pipe,
  fill, deliver_ready, close_all,
}
use reversproxy.Tunnel.Mux.Live.{
  IsLive, new_mux-IsLive, remove-IsLive, close_all-IsLive, remove_found,
}
use reversproxy.Tunnel.Mux.Calls.{
  Call, opens, removes, delivers, reads, readies, closes_all, apply, run, apply-IsLive,
}
use reversproxy.Tunnel.Mux.Pipe.{
  IsInOrder, offered, bytes_to, delivered, update-IsInOrder, closing-IsInOrder, read-IsInOrder,
  deliver-IsInOrder, close_each-IsInOrder, close_each_next, take_all,
}

record IsPiped (p : ℕ) (m : Mux) (done : List ℕ) : Type 0 where
  pub live : IsLive m
  pub fresh : m.next ≤ p → done ≡ []
  pub in_order : IsInOrder (m.chans p) done

-- A call that changes one channel object, or none, and makes none.
same-IsPiped : (p : ℕ) (m : Mux) (done : List ℕ) → IsPiped p m done → IsPiped p m (done ++ [])
same-IsPiped p m done v = subst (IsPiped p m) (sym (append-nil done)) v

opens-IsPiped :
    (k : Str) (p : ℕ) (m : Mux) (done : List ℕ)
    → IsPiped p m done
    → IsPiped p (apply (opens k) m) done
unfolding apply new_channel
opens-IsPiped k p m done v = elim (Option-cases (lookup k m.channels)) [
  | inr (q, e) ↦ rw (e, apply, new_channel) v
  | inl e ↦
      let c : Channel = new_object k in
      let n : Mux = record m {
        channels = insert k m.next m.channels;
        chans = update m.chans m.next c;
        next = suc m.next;
        wg = m.wg + 1;
      } in
      let same : apply (opens k) m ≡ n = rw (e, apply, new_channel) refl in
      rw same (record {
        live = subst IsLive same (apply-IsLive (opens k) m v.live);
        fresh = λ above. v.fresh (omega arith);
        in_order = elim (Bool-cases (m.next == p)) [
          | inl own ↦ rw own ([], sym (v.fresh (omega (arith, own_le own))), λ _. refl, λ _. refl)
          | inr other ↦ rw other v.in_order
        ];
      })
]
  where
    own_le : m.next == p ≡ true → m.next ≤ p
    own_le own = ground arith

removes-IsPiped :
    (k : Str) (p : ℕ) (m : Mux) (done : List ℕ) → IsPiped p m done → IsPiped p (remove k m) done
unfolding remove
removes-IsPiped k p m done v = elim (Option-cases (lookup k m.channels)) [
  | inl e ↦ rw (e, remove) v
  | inr (q, e) ↦
      let same = remove_found k q m v.live e in
      rw same (record {
        live = subst IsLive same (remove-IsLive k m v.live);
        fresh = v.fresh;
        in_order =
            update-IsInOrder m.chans q p (closing (m.chans q)) done
              (closing-IsInOrder (m.chans q) done) v.in_order;
      })
]

delivers-IsPiped :
    (k : Str) (payload : List ℕ) (p : ℕ) (m : Mux) (done : List ℕ)
    → IsPiped p m done
    → IsPiped p (apply (delivers k payload) m) (done ++ bytes_to p (delivers k payload) m)
unfolding apply deliver
delivers-IsPiped k payload p m done v = elim (Option-cases (lookup k m.channels)) [
  | inl e ↦ rw (e, apply, deliver, bytes_to) (same-IsPiped p m done v)
  | inr (q, e) ↦
      let is_open : (m.chans q).pipe_closed ≡ false = (v.live.registered.waits k q e).1 in
      let n : Mux = record m {
        chans =
            update m.chans q (record (m.chans q) { writes = (m.chans q).writes ++ payload ∷ [] });
      } in
      let same : apply (delivers k payload) m ≡ n = rw (e, apply, deliver, is_open) refl in
      let live : IsLive n = subst IsLive same (apply-IsLive (delivers k payload) m v.live) in
      rw (same, e, bytes_to)
        (elim (Bool-cases (q == p)) [
          | inl own ↦
              let eq : q ≡ p = ground arith in
              rw own (record {
                live = live;
                fresh = λ above. absurd (omega (arith, v.live.registered.made k q e));
                in_order = rw own (
                    rw eq
                      (deliver-IsInOrder payload (m.chans p) done (rw (← eq) is_open) v.in_order));
              })
          | inr other ↦ rw other (
              same-IsPiped p n done
                (record { live = live; fresh = v.fresh; in_order = rw other v.in_order }))
        ])
]

reads-IsPiped :
    (q n p : ℕ) (m : Mux) (done : List ℕ) → IsPiped p m done → IsPiped p (apply (reads q n) m) done
unfolding apply read_pipe
reads-IsPiped q n p m done v = elim (Option-cases (take_first n (m.chans q).writes)) [
  | inl e ↦ rw (e, apply, read_pipe) v
  | inr ((bytes, vs), e) ↦
      let c : Channel = record (m.chans q) {
        writes = vs;
        received = (m.chans q).received ++ bytes;
      } in
      let o : Mux = record m { chans = update m.chans q c } in
      let same : apply (reads q n) m ≡ o = rw (e, apply, read_pipe) refl in
      rw same (record {
        live = subst IsLive same (apply-IsLive (reads q n) m v.live);
        fresh = v.fresh;
        in_order =
            update-IsInOrder m.chans q p c done (read-IsInOrder n bytes vs (m.chans q) done e)
              v.in_order;
      })
]

readies-IsPiped :
    (k : Str) (success : Bool) (message : Str) (p : ℕ) (m : Mux) (done : List ℕ)
    → IsPiped p m done
    → IsPiped p (apply (readies k success message) m) done
unfolding apply deliver_ready
readies-IsPiped k success message p m done v = elim (Option-cases (lookup k m.channels)) [
  | inl e ↦ rw (e, apply, deliver_ready) v
  | inr (q, e) ↦
      let c : Channel = record (m.chans q) {
        ready_ch = fill (m.chans q).ready_ch (success, message);
      } in
      let o : Mux = record m { chans = update m.chans q c } in
      let same : apply (readies k success message) m ≡ o = rw (e, apply, deliver_ready) refl in
      rw same (record {
        live = subst IsLive same (apply-IsLive (readies k success message) m v.live);
        fresh = v.fresh;
        in_order = update-IsInOrder m.chans q p c done (λ h. h) v.in_order;
      })
]

apply-IsPiped :
    (c : Call) (p : ℕ) (m : Mux) (done : List ℕ)
    → IsPiped p m done
    → IsPiped p (apply c m) (done ++ bytes_to p c m)
unfolding apply close_all
apply-IsPiped (opens k) p m done v = same-IsPiped p _ done (opens-IsPiped k p m done v)
apply-IsPiped (removes k) p m done v = same-IsPiped p _ done (removes-IsPiped k p m done v)
apply-IsPiped (delivers k payload) p m done v = delivers-IsPiped k payload p m done v
apply-IsPiped (reads q n) p m done v = same-IsPiped p _ done (reads-IsPiped q n p m done v)
apply-IsPiped (readies k b t) p m done v = same-IsPiped p _ done (readies-IsPiped k b t p m done v)
apply-IsPiped closes_all p m done v = same-IsPiped p _ done (record {
  live = close_all-IsLive m v.live;
  fresh = λ above.
      v.fresh (omega (arith, close_each_next (values m.channels) (record m { channels = [] })));
  in_order = close_each-IsInOrder (values m.channels) _ p done v.in_order;
})

run-IsPiped :
    (cs : List Call) (p : ℕ) (m : Mux) (done : List ℕ)
    → IsPiped p m done
    → IsPiped p (run cs m) (done ++ delivered p cs m)
unfolding run
run-IsPiped [] p m done v = same-IsPiped p m done v
run-IsPiped (c ∷ cs) p m done v =
    subst (IsPiped p (run cs (apply c m)))
      (append_assoc done (bytes_to p c m) (delivered p cs (apply c m)))
      (run-IsPiped cs p (apply c m) (done ++ bytes_to p c m) (apply-IsPiped c p m done v))

-- A Read for each Write, with room for all that it offers.
abbrev pub reads_all : ℕ → List (List ℕ) → List Call
reads_all p [] = []
reads_all p (w ∷ ws) = reads p (length w) ∷ reads_all p ws

take_first_whole : (v : List ℕ) (vs : List (List ℕ)) → take_first (length v) (v ∷ vs) ≡ some (v, vs)
unfolding take_first
take_first_whole v vs =
    let fits : leb (length v) (length v) ≡ true = ground arith in
    rw (fits, take_all (length v) v (omega arith)) refl

read_whole :
    (v : List ℕ) (vs : List (List ℕ)) (q : ℕ) (n : Mux)
    → (n.chans q).writes ≡ v ∷ vs
    → apply (reads q (length v)) n ≡ record n {
      chans =
          update n.chans q
            (record (n.chans q) { writes = vs; received = (n.chans q).received ++ v });
    }
unfolding apply read_pipe
read_whole v vs q n f =
    let e : take_first (length v) (n.chans q).writes ≡ some (v, vs) =
      ap (take_first (length v)) f ∙ take_first_whole v vs in
    rw (e, apply, read_pipe) refl

run-reads_all :
    (ws : List (List ℕ)) (p : ℕ) (m : Mux)
    → (m.chans p).writes ≡ ws
    → let n = run (reads_all p ws) m in
      ((n.chans p).writes ≡ []) × ((n.chans p).received ≡ (m.chans p).received ++ offered ws)
unfolding run
run-reads_all [] p m e = (e, sym (append-nil (m.chans p).received))
run-reads_all (w ∷ ws) p m e =
    let c : Channel = record (m.chans p) { writes = ws; received = (m.chans p).received ++ w } in
    let o : Mux = record m { chans = update m.chans p c } in
    let same : apply (reads p (length w)) m ≡ o = read_whole w ws p m e in
    let own : update m.chans p c p ≡ c = ground arith in
    let (none_left, got) = run-reads_all ws p o (ap (λ (x : Channel). x.writes) own) in
    rw (same, run)
      (
        none_left,
        got
            ∙ ap (λ (x : Channel). x.received ++ offered ws) own
            ∙ append_assoc (m.chans p).received w (offered ws),
      )

-- Any sequence of calls on a new multiplexer, and one channel object. What its reader has taken,
-- followed by what the Write calls that have not returned still offer, is a prefix of the payloads
-- of the Deliver calls that found it, in the order of the calls: all of them as long as its pipe is
-- open; once the pipe is closed nothing is offered any more, and the rest is lost. A reader that then
-- reads once for each Write gets all that was offered, and those calls return.
pub run-new_mux-IsInOrder :
    (cs : List Call) (p : ℕ)
    → let m = run cs new_mux in
      let c = m.chans p in
      let c1 = (run (reads_all p c.writes) m).chans p in
      IsInOrder c (delivered p cs new_mux)
      × (c1.writes ≡ [])
      × (c1.received ≡ c.received ++ offered c.writes)
unfolding new_mux
run-new_mux-IsInOrder cs p =
    let m = run cs new_mux in
    let start : IsPiped p new_mux [] = record {
      live = new_mux-IsLive;
      fresh = λ _. refl;
      in_order = ([], refl, λ _. refl, λ _. refl);
    } in
    let (returned, got) = run-reads_all (m.chans p).writes p m refl in
    ((run-IsPiped cs p new_mux [] start).in_order, returned, got)
