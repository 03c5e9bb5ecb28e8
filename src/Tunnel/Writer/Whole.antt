-- ===== src/Tunnel/Writer/Whole.antt =====
-- internal/tunnel/ctrl_registry.go: no frame is cut by another.
use reversproxy.Base.{
  ℕ, ◌+◌, ◌≤◌, ◌<◌, ◌≡◌, ◌≢◌, refl, sym, ap, ◌∙◌, inl, inr, ◌⊎◌, true, false, List, [], ◌∷◌, ◌++◌,
  Option, none, some, ◌==◌, length, take, update, Bool-cases, take-append_le, arith, subst,
}
use native.Mathlib.Nat.{zero-add, suc-add}
use mathlib.Core.List.{append_assoc, append-nil}
use reversproxy.Base.Result.{ok}
use reversproxy.Protocol.Messages.{Envelope, max_message_size}
use reversproxy.Protocol.Framing.{Gob, read_messages}
use reversproxy.Protocol.Framing.RoundTrip.{frame, frames, read_message-frame}
use reversproxy.Tunnel.Writer.{
  Pc, idle, at_length, at_body, unlocking, CtrlConnWriter, new_writer, length_bytes, partly, Step,
  locks, encodes_nothing, writes_length, fails_length, writes_body, fails_body, unlocks, Reach,
  here, next,
}

frames-snoc :
    (bs : List (List ℕ)) (b : List ℕ) → frames (bs ++ b ∷ []) ≡ frames bs ++ (length_bytes b ++ b)
unfolding length_bytes
frames-snoc [] b = append-nil (frame b)
frames-snoc (c ∷ bs) b =
    ap (◌++◌ (frame c)) (frames-snoc bs b) ∙ sym (append_assoc (frame c) (frames bs) (frame b))

-- What the goroutine that holds the lock has put behind the whole frames.
abbrev Begun : Pc → List ℕ → Type 0
Begun (at_body b) rest = rest ≡ length_bytes b
Begun _ rest = rest ≡ []

-- The front of one frame that is not all of it.
abbrev pub IsCut : List ℕ → Type 0
IsCut rest = (b : List ℕ) × (k : ℕ) × (k < 4 + length b) × (rest ≡ take k (length_bytes b ++ b))

record Inv (w : CtrlConnWriter) : Type 0 where
  alone : (j : ℕ) → (w.pc j ≡ idle) ⊎ (w.holder ≡ some j)
  rest : List ℕ
  stream : w.sent ≡ frames w.log ++ rest
  free : w.broken ≡ false → w.holder ≡ none → rest ≡ []
  held : (i : ℕ) → w.broken ≡ false → w.holder ≡ some i → Begun (w.pc i) rest
  cut : w.broken ≡ true → IsCut rest

-- Only the goroutine that holds the lock is in Write.
holds : (w : CtrlConnWriter) (i : ℕ) → Inv w → w.pc i ≢ idle → w.holder ≡ some i
holds w i v busy = elim (v.alone i) [ inl e ↦ absurd (busy e) | inr e ↦ e ]

update-alone :
    (pc : ℕ → Pc) (i : ℕ) (p : Pc) (holder : Option ℕ)
    → ((j : ℕ) → (pc j ≡ idle) ⊎ (holder ≡ some j))
    → (j : ℕ) → (update pc i p j ≡ idle) ⊎ (i ≡ j) ⊎ (holder ≡ some j)
update-alone pc i p holder v j = elim (Bool-cases (i == j)) [
  | inl same ↦ inr (inl (ground arith))
  | inr other ↦ elim (v j) [ inl e ↦ inl (rw other e) | inr e ↦ inr (inr e) ]
]

alone-update :
    (w : CtrlConnWriter) (i : ℕ) (p : Pc)
    → Inv w
    → w.holder ≡ some i
    → (j : ℕ) → (update w.pc i p j ≡ idle) ⊎ (w.holder ≡ some j)
alone-update w i p v h j = elim (update-alone w.pc i p w.holder v.alone j) [
  | inl e ↦ inl e
  | inr (inl same) ↦ inr (rw (← same) h)
  | inr (inr e) ↦ inr e
]

Begun-update :
    (pc : ℕ → Pc) (i j : ℕ) (p : Pc) (rest : List ℕ)
    → i ≡ j
    → Begun p rest
    → Begun (update pc i p j) rest
Begun-update pc i j p rest same begun = let here : (i == j) ≡ true = ground arith in rw here begun

some_eq : {holder : Option ℕ} (i j : ℕ) → holder ≡ some i → holder ≡ some j → i ≡ j
some_eq i j p q = ground arith

length-length_bytes : (b : List ℕ) → length (length_bytes b) ≡ 4
unfolding length_bytes
length-length_bytes b = refl

take-append_ge : (xs ys : List ℕ) (k : ℕ) → xs ++ take k ys ≡ take (length xs + k) (xs ++ ys)
take-append_ge [] ys k = rw zero-add
take-append_ge (x ∷ xs) ys k = rw (suc-add (length xs) k) (ap (◌∷◌ x) (take-append_ge xs ys k))

-- A write fails: the rest becomes the cut front of a frame, unless the connection was broken before.
fails-Inv :
    (w : CtrlConnWriter) (i k : ℕ) (bytes : List ℕ) (v : Inv w)
    → w.holder ≡ some i
    → (w.broken ≡ false → IsCut (v.rest ++ take k bytes))
    → Inv (record w {
      sent = w.sent ++ partly w.broken k bytes;
      broken = true;
      pc = update w.pc i unlocking;
    })
fails-Inv w i k bytes v h cut = record {
  alone = alone-update w i unlocking v h;
  rest = v.rest ++ partly w.broken k bytes;
  stream =
      ap (λ s. s ++ partly w.broken k bytes) v.stream
      ∙ append_assoc (frames w.log) v.rest (partly w.broken k bytes);
  free = λ p q. cc;
  held = λ j p q. cc;
  cut = λ p. elim (Bool-cases w.broken) [
    | inl old ↦ rw (old, append-nil v.rest) (v.cut old)
    | inr new ↦ rw new (cut new)
  ];
}

Step-Inv : {w u : CtrlConnWriter} → Step w u → Inv w → Inv u
Step-Inv {w} (locks i b e f) v = record {
  alone = λ j. elim (update-alone w.pc i (at_length b) w.holder v.alone j) [
    | inl p ↦ inl p
    | inr (inl same) ↦ inr (rw same)
    | inr (inr p) ↦ cc
  ];
  rest = v.rest;
  stream = v.stream;
  free = λ p q. cc;
  held = λ j p q. Begun-update w.pc i j (at_length b) v.rest (ground arith) (v.free p e);
  cut = v.cut;
}
Step-Inv {w} (encodes_nothing i b e) v =
    let h = holds w i v (λ f. ground arith) in
    record {
      alone = alone-update w i unlocking v h;
      rest = v.rest;
      stream = v.stream;
      free = v.free;
      held = λ j p q.
          Begun-update w.pc i j unlocking v.rest (some_eq i j h q)
            (subst (λ x. Begun x v.rest) e (v.held i p h));
      cut = v.cut;
    }
Step-Inv {w} (writes_length i b e f) v =
    let h = holds w i v (λ g. ground arith) in
    let empty : v.rest ≡ [] = subst (λ x. Begun x v.rest) e (v.held i f h) in
    record {
      alone = alone-update w i (at_body b) v h;
      rest = length_bytes b;
      stream =
          ap (λ s. s ++ length_bytes b)
            (v.stream ∙ ap (◌++◌ (frames w.log)) empty ∙ append-nil (frames w.log));
      free = λ p q. cc;
      held = λ j p q. Begun-update w.pc i j (at_body b) (length_bytes b) (some_eq i j h q) refl;
      cut = λ p. cc;
    }
Step-Inv {w} (fails_length i k b e f) v =
    let h = holds w i v (λ g. ground arith) in
    fails-Inv w i k (length_bytes b) v h λ fine.
      let empty : v.rest ≡ [] = subst (λ x. Begun x v.rest) e (v.held i fine h) in
      (
        b,
        k,
        omega arith,
        ap (λ r. r ++ take k (length_bytes b)) empty
            ∙ sym (take-append_le k (length_bytes b) b (omega (arith, length-length_bytes b))),
      )
Step-Inv {w} (writes_body i b e f) v =
    let h = holds w i v (λ g. ground arith) in
    let begun : v.rest ≡ length_bytes b = subst (λ x. Begun x v.rest) e (v.held i f h) in
    record {
      alone = alone-update w i unlocking v h;
      rest = [];
      stream =
          ap (λ s. s ++ b) (v.stream ∙ ap (◌++◌ (frames w.log)) begun)
          ∙ (append_assoc (frames w.log) (length_bytes b) b
              ∙ sym (append-nil (frames (w.log ++ b ∷ [])) ∙ frames-snoc w.log b));
      free = λ p q. refl;
      held = λ j p q. Begun-update w.pc i j unlocking [] (some_eq i j h q) refl;
      cut = λ p. cc;
    }
Step-Inv {w} (fails_body i k b e f) v =
    let h = holds w i v (λ g. ground arith) in
    fails-Inv w i k b v h λ fine.
      let begun : v.rest ≡ length_bytes b = subst (λ x. Begun x v.rest) e (v.held i fine h) in
      (
        b,
        4 + k,
        omega arith,
        ap (λ r. r ++ take k b) begun
            ∙ (take-append_ge (length_bytes b) b k
                ∙ ap (λ n. take (n + k) (length_bytes b ++ b)) (length-length_bytes b)),
      )
Step-Inv {w} (unlocks i e) v =
    let h = holds w i v (λ g. ground arith) in
    record {
      alone = λ j. elim (update-alone w.pc i idle w.holder v.alone j) [
        | inl p ↦ inl p
        | inr (inl same) ↦ inl (let here : (i == j) ≡ true = ground arith in rw here)
        | inr (inr p) ↦
            inl (let here : (i == j) ≡ true = ground (arith, some_eq i j h p) in rw here)
      ];
      rest = v.rest;
      stream = v.stream;
      free = λ p q. subst (λ x. Begun x v.rest) e (v.held i p h);
      held = λ j p q. cc;
      cut = v.cut;
    }

Reach-Inv : {w u : CtrlConnWriter} → Inv w → Reach w u → Inv u
Reach-Inv v here = v
Reach-Inv v (next r s) = Step-Inv s (Reach-Inv v r)

new_writer-Inv : Inv new_writer
new_writer-Inv = record {
  alone = λ j. inl refl;
  rest = [];
  stream = refl;
  free = λ p q. refl;
  held = λ i p q. refl;
  cut = λ p. cc;
}

module _ (envelopes : Gob Envelope) where
  -- The messages are the encodings of the envelopes and none is longer than the limit.
  abbrev pub Encoded : List Envelope → List (List ℕ) → Type 0
  Encoded [] [] = Unit {0}
  Encoded (env ∷ envs) (b ∷ bs) =
      (envelopes.encode env ≡ some b) × (length b ≤ max_message_size) × Encoded envs bs
  Encoded _ _ = ⊥

  read_messages-frames :
      (envs : List Envelope) (bs : List (List ℕ)) (rest : List ℕ)
      → Encoded envs bs
      → read_messages (length envs) envelopes (frames bs ++ rest) ≡ ok (envs, rest)
  unfolding read_messages
  read_messages-frames [] [] rest e = refl
  read_messages-frames [] (b ∷ bs) rest e = absurd e
  read_messages-frames (v ∷ vs) [] rest e = absurd e
  read_messages-frames (env ∷ envs) (b ∷ bs) rest (p, small, es) = rw (
    append_assoc (frame b) (frames bs) rest,
    read_message-frame envelopes env b (frames bs ++ rest) p small,
    read_messages-frames envs bs rest es,
  )

  -- Whatever the goroutines do, and whichever writes fail, the messages whose Write succeeded are
  -- read back whole and in their order, if none is above the size limit. When no write has failed
  -- and no goroutine is in Write, nothing follows them; after a failure there follows only the front
  -- of one frame.
  pub read_messages-Reach :
      (w : CtrlConnWriter) (envs : List Envelope)
      → Reach new_writer w
      → Encoded envs w.log
      → (rest : List ℕ) × (read_messages (length envs) envelopes w.sent ≡ ok (envs, rest))
        × (w.broken ≡ false → w.holder ≡ none → rest ≡ [])
        × (w.broken ≡ true → IsCut rest)
  read_messages-Reach w envs r e =
      let v = Reach-Inv new_writer-Inv r in
      (
        v.rest,
        ap (read_messages (length envs) envelopes) v.stream
            ∙ read_messages-frames envs w.log v.rest e,
        v.free,
        v.cut,
      )
