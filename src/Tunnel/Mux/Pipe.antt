-- ===== src/Tunnel/Mux/Pipe.antt =====
-- internal/tunnel/socks_mux.go: the bytes that pass through the Recv pipe of a channel.
use reversproxy.Base.{
  ℕ, zero, suc, ◌≡◌, ◌≤◌, refl, sym, ap, subst, ◌∙◌, inl, inr, true, false, List, [], ◌∷◌, ◌++◌,
  none, some, if◌then◌else◌, ◌==◌, leb, Bool-cases, lookup, update, length, take, drop,
  take-append-drop, arith,
}
use mathlib.Core.List.{append_assoc, append-nil}
use reversproxy.Tunnel.Mux.{Channel, Mux, closing, take_first, close_each}
use reversproxy.Tunnel.Mux.Calls.{Call, delivers, apply}

-- What the Write calls on a pipe that have not returned still offer.
abbrev pub offered : List (List ℕ) → List ℕ
offered [] = []
offered (w ∷ ws) = w ++ offered ws

-- The payload of a call, if it is a Deliver that finds the channel object `p`.
abbrev pub bytes_to : ℕ → Call → Mux → List ℕ
bytes_to p (delivers k payload) m = elim (lookup k m.channels) [
  | none ↦ []
  | some q ↦ if q == p then payload else []
]
bytes_to p _ m = []

-- The payloads of all Deliver calls that find the channel object `p`, in the order of the calls.
abbrev pub delivered : ℕ → List Call → Mux → List ℕ
delivered p [] m = []
delivered p (c ∷ cs) m = bytes_to p c m ++ delivered p cs (apply c m)

-- What the reader has taken, what is still offered and what was lost are together what was
-- delivered; nothing is lost on an open pipe, and nothing is offered on a closed one.
abbrev pub IsInOrder : Channel → List ℕ → Type 0
IsInOrder c done =
    (lost : List ℕ) × ((c.received ++ offered c.writes) ++ lost ≡ done)
    × (c.pipe_closed ≡ false → lost ≡ [])
    × (c.pipe_closed ≡ true → c.writes ≡ [])

offered_snoc : (ws : List (List ℕ)) (w : List ℕ) → offered (ws ++ w ∷ []) ≡ offered ws ++ w
offered_snoc [] w = append-nil w
offered_snoc (v ∷ ws) w = ap (◌++◌ v) (offered_snoc ws w) ∙ sym (append_assoc v (offered ws) w)

pub take_all : (n : ℕ) (w : List ℕ) → length w ≤ n → take n w ≡ w
take_all zero [] h = refl
take_all zero (x ∷ w) h = absurd (omega arith)
take_all (suc n) [] h = refl
take_all (suc n) (x ∷ w) h = ap (◌∷◌ x) (take_all n w (omega arith))

take_first_keeps :
    (n : ℕ) (bytes : List ℕ) (ws vs : List (List ℕ))
    → take_first n ws ≡ some (bytes, vs)
    → bytes ++ offered vs ≡ offered ws
unfolding take_first
take_first_keeps n bytes [] vs e = cc
take_first_keeps n bytes (w ∷ ws) vs e = elim (Bool-cases (leb (length w) n)) [
  | inl all ↦
      let taken : bytes ≡ take n w = ground arith in
      let left : vs ≡ ws = ground arith in rw (taken, left, take_all n w (ground arith)) refl
  | inr part ↦
      let taken : bytes ≡ take n w = ground arith in
      let left : vs ≡ drop n w ∷ ws = ground arith in
      rw (taken, left)
        (sym (append_assoc (take n w) (drop n w) (offered ws))
          ∙ ap (λ (x : List ℕ). x ++ offered ws) (take-append-drop n w))
]

pub deliver-IsInOrder :
    (w : List ℕ) (c : Channel) (done : List ℕ)
    → c.pipe_closed ≡ false
    → IsInOrder c done
    → IsInOrder (record c { writes = c.writes ++ w ∷ [] }) (done ++ w)
deliver-IsInOrder w c done is_open (lost, e, none_lost, none_offered) =
    let before : c.received ++ offered c.writes ≡ done =
      sym (append-nil (c.received ++ offered c.writes))
      ∙ ap (◌++◌ (c.received ++ offered c.writes)) (sym (none_lost is_open))
      ∙ e in
    (
      [],
      append-nil (c.received ++ offered (c.writes ++ w ∷ []))
          ∙ ap (◌++◌ c.received) (offered_snoc c.writes w)
          ∙ sym (append_assoc c.received (offered c.writes) w)
          ∙ ap (λ (x : List ℕ). x ++ w) before,
      λ _. refl,
      λ closed. absurd cc,
    )

pub read-IsInOrder :
    (n : ℕ) (bytes : List ℕ) (vs : List (List ℕ)) (c : Channel) (done : List ℕ)
    → take_first n c.writes ≡ some (bytes, vs)
    → IsInOrder c done
    → IsInOrder (record c { writes = vs; received = c.received ++ bytes }) done
unfolding take_first
read-IsInOrder n bytes vs c done taken (lost, e, none_lost, none_offered) = (
  lost,
  ap (λ (x : List ℕ). x ++ lost)
        (append_assoc c.received bytes (offered vs)
          ∙ ap (◌++◌ c.received) (take_first_keeps n bytes c.writes vs taken))
      ∙ e,
  none_lost,
  λ closed. absurd (
      let z : take_first n [] ≡ some (bytes, vs) =
        subst (λ ws. take_first n ws ≡ some (bytes, vs)) (none_offered closed) taken in
      cc),
)

pub closing-IsInOrder :
    (c : Channel) (done : List ℕ) → IsInOrder c done → IsInOrder (closing c) done
closing-IsInOrder c done (lost, e, none_lost, none_offered) = (
  offered c.writes ++ lost,
  ap (λ (x : List ℕ). x ++ (offered c.writes ++ lost)) (append-nil c.received)
      ∙ sym (append_assoc c.received (offered c.writes) lost)
      ∙ e,
  λ is_open. absurd cc,
  λ _. refl,
)

pub update-IsInOrder :
    (at : ℕ → Channel) (q p : ℕ) (c : Channel) (done : List ℕ)
    → (IsInOrder (at q) done → IsInOrder c done)
    → IsInOrder (at p) done
    → IsInOrder (update at q c p) done
update-IsInOrder at q p c done keeps h = elim (Bool-cases (q == p)) [
  | inl same ↦ let eq : q ≡ p = ground arith in rw same (keeps (rw eq h))
  | inr other ↦ rw other h
]

pub close_each-IsInOrder :
    (ps : List ℕ) (m : Mux) (p : ℕ) (done : List ℕ)
    → IsInOrder (m.chans p) done
    → IsInOrder ((close_each ps m).chans p) done
unfolding close_each
close_each-IsInOrder [] m p done h = h
close_each-IsInOrder (q ∷ ps) m p done h =
    close_each-IsInOrder ps _ p done (
      update-IsInOrder m.chans q p (closing (m.chans q)) done (closing-IsInOrder (m.chans q) done)
        h)

pub close_each_next : (ps : List ℕ) (m : Mux) → (close_each ps m).next ≡ m.next
unfolding close_each
close_each_next [] m = refl
close_each_next (q ∷ ps) m = close_each_next ps _
