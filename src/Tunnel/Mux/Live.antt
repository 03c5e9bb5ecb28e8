-- ===== src/Tunnel/Mux/Live.antt =====
-- internal/tunnel/socks_mux.go: which channels are open, and the counter of them.
use reversproxy.Base.{
  ℕ, zero, suc, ◌+◌, ◌≡◌, refl, sym, ap, subst, has, ◌∙◌, inl, inr, Bool, true, false, List, [],
  ◌∷◌, ◌++◌, none, some, ◌==◌, Bool-cases, Option-cases, Str, Map, lookup, insert, delete, values,
  update, length, IsUnique, insert-IsUnique, delete-IsUnique, length-insert_new, length-delete,
  lookup-nil, arith,
}
use reversproxy.Base.Result.{ok}
use reversproxy.Tunnel.Pointers.{
  IsWaiting, nil-IsWaiting, insert-IsWaiting, settle-IsWaiting, change-IsWaiting, update-IsWaiting,
}
use reversproxy.Tunnel.Mux.{
  Channel, Mux, new_object, new_mux, closing, wg_done, new_channel, remove, deliver, take_first,
  read_pipe, fill, deliver_ready, close_each, close_all,
}

abbrev pub IsOpen : Channel → Type 0
IsOpen c = (c.closed ≡ false) × (c.pipe_closed ≡ false)

abbrev pub IsClosed : Channel → Type 0
IsClosed c = (c.closed ≡ true) × (c.pipe_closed ≡ true)

-- The registered channels are open, each under one key; the counter is their number and was
-- never negative.
pub record IsLive (m : Mux) : Type 0 where
  pub registered : IsWaiting IsOpen m.channels m.chans m.next
  pub unique : IsUnique m.channels
  pub counted : m.wg ≡ length m.channels
  pub balanced : m.negative ≡ false

pub new_mux-IsLive : IsLive new_mux
unfolding new_mux
new_mux-IsLive = record {
  registered = nil-IsWaiting IsOpen _ 0;
  unique = tt;
  counted = refl;
  balanced = refl;
}

pub new_channel-IsLive :
    (k : Str) (p : ℕ) (m n : Mux) → new_channel k m ≡ ok (p, n) → IsLive m → IsLive n
unfolding new_channel
new_channel-IsLive k p m n e v = elim (Option-cases (lookup k m.channels)) [
  | inr (q, r) ↦ absurd (ground arith)
  | inl r ↦
      let same : n ≡ record m {
        channels = insert k m.next m.channels;
        chans = update m.chans m.next (new_object k);
        next = suc m.next;
        wg = m.wg + 1;
      } =
        ground arith in
      rw same (record {
        registered =
            insert-IsWaiting IsOpen m.channels m.chans m.next v.registered k (new_object k)
              (refl, refl);
        unique = insert-IsUnique k m.next m.channels v.unique;
        counted = omega (arith, v.counted, length-insert_new k m.next m.channels r);
        balanced = v.balanced;
      })
]

wg_done-suc : (w n : ℕ) (b : Bool) → w ≡ suc n → wg_done w b ≡ (n, b)
unfolding wg_done
wg_done-suc zero n b e = absurd (omega arith)
wg_done-suc (suc w) n b e = ground arith

pub remove_found :
    (k : Str) (p : ℕ) (m : Mux)
    → IsLive m
    → lookup k m.channels ≡ some p
    → remove k m ≡ record m {
      channels = delete k m.channels;
      chans = update m.chans p (closing (m.chans p));
      wg = length (delete k m.channels);
    }
unfolding remove
remove_found k p m v e =
    let n : ℕ = length (delete k m.channels) in
    let w : m.wg ≡ suc n = v.counted ∙ sym (length-delete k p m.channels v.unique e) in
    ground (arith, wg_done-suc m.wg n m.negative w)

pub remove-IsLive : (k : Str) (m : Mux) → IsLive m → IsLive (remove k m)
remove-IsLive k m v = elim (Option-cases (lookup k m.channels)) [
  | inl e ↦ unfold remove in rw (e, remove) v
  | inr (p, e) ↦ rw (remove_found k p m v e) (record {
    registered = settle-IsWaiting IsOpen m.channels m.chans m.next v.registered k p _ e;
    unique = delete-IsUnique k m.channels v.unique;
    counted = refl;
    balanced = v.balanced;
  })
]

pub deliver-IsLive :
    (k : Str) (payload : List ℕ) (m n : Mux) → deliver k payload m ≡ ok n → IsLive m → IsLive n
unfolding deliver
deliver-IsLive k payload m n e v = elim (Option-cases (lookup k m.channels)) [
  | inl r ↦ absurd (ground arith)
  | inr (p, r) ↦
      let same : n ≡ record m {
        chans =
            update m.chans p (record (m.chans p) { writes = (m.chans p).writes ++ payload ∷ [] });
      } =
        ground arith in
      rw same (record {
        registered =
            update-IsWaiting IsOpen m.channels m.chans m.next v.registered p _
              (v.registered.waits k p r);
        unique = v.unique;
        counted = v.counted;
        balanced = v.balanced;
      })
]

pub read_pipe-IsLive :
    (p n : ℕ) (bytes : List ℕ) (m o : Mux) → read_pipe p n m ≡ some (bytes, o) → IsLive m → IsLive o
unfolding read_pipe
read_pipe-IsLive p n bytes m o e v = elim (Option-cases (take_first n (m.chans p).writes)) [
  | inl r ↦ absurd (ground arith)
  | inr ((taken, ws), r) ↦
      let c : Channel = record (m.chans p) {
        writes = ws;
        received = (m.chans p).received ++ taken;
      } in
      let same : o ≡ record m { chans = update m.chans p c } = ground arith in
      rw same (record {
        registered = change-IsWaiting IsOpen m.channels m.chans m.next v.registered p c λ h. h;
        unique = v.unique;
        counted = v.counted;
        balanced = v.balanced;
      })
]

pub deliver_ready-IsLive :
    (k : Str) (success : Bool) (message : Str) (m n : Mux)
    → deliver_ready k success message m ≡ ok n
    → IsLive m
    → IsLive n
unfolding deliver_ready
deliver_ready-IsLive k success message m n e v = elim (Option-cases (lookup k m.channels)) [
  | inl r ↦ absurd (ground arith)
  | inr (p, r) ↦
      let same : n ≡ record m {
        chans =
            update m.chans p
              (record (m.chans p) { ready_ch = fill (m.chans p).ready_ch (success, message) });
      } =
        ground arith in
      rw same (record {
        registered =
            update-IsWaiting IsOpen m.channels m.chans m.next v.registered p _
              (v.registered.waits k p r);
        unique = v.unique;
        counted = v.counted;
        balanced = v.balanced;
      })
]

-- What the loop of CloseAll leaves: no channel that it saw is open and the counter is spent.
close_each_counts :
    (ps : List ℕ) (m : Mux)
    → m.wg ≡ length ps
    → ((close_each ps m).wg ≡ 0)
      × ((close_each ps m).negative ≡ m.negative)
      × ((close_each ps m).channels ≡ m.channels)
unfolding close_each
close_each_counts [] m w = (w, refl, refl)
close_each_counts (p ∷ ps) m w =
    rw (close_each, wg_done-suc m.wg (length ps) m.negative w)
      (close_each_counts ps
        (record m { chans = update m.chans p (closing (m.chans p)); wg = length ps }) refl)

close_each_keeps :
    (ps : List ℕ) (q : ℕ) (m : Mux) → IsClosed (m.chans q) → IsClosed ((close_each ps m).chans q)
unfolding close_each
close_each_keeps [] q m c = c
close_each_keeps (p ∷ ps) q m c = close_each_keeps ps q _ (ground arith)

close_each_closes :
    (ps : List ℕ) (q : ℕ) (m : Mux) → has q ps ≡ true → IsClosed ((close_each ps m).chans q)
unfolding close_each has
close_each_closes [] q m h = cc
close_each_closes (p ∷ ps) q m h = elim (Bool-cases (p == q)) [
  | inl here ↦ close_each_keeps ps q _ (ground arith)
  | inr there ↦ close_each_closes ps q _ (ground arith)
]

has-values : (k : Str) (p : ℕ) (m : Map ℕ) → lookup k m ≡ some p → has p (values m) ≡ true
unfolding lookup values has
has-values k p [] e = cc
has-values k p ((j, q) ∷ m) e = ground (arith, has-values k p m)

length-values : (m : Map ℕ) → length (values m) ≡ length m
unfolding values
length-values [] = refl
length-values ((j, q) ∷ m) = ap suc (length-values m)

-- CloseAll on a live multiplexer empties it: every channel that was registered is closed with its
-- pipe, the counter is zero, and it never was negative.
pub close_all_lem :
    (k : Str) (p : ℕ) (m : Mux)
    → IsLive m
    → lookup k m.channels ≡ some p
    → IsClosed ((close_all m).chans p)
      × (lookup k (close_all m).channels ≡ none)
      × ((close_all m).wg ≡ 0)
      × ((close_all m).negative ≡ false)
unfolding close_all
close_all_lem k p m v e =
    let (w, b, c) =
      close_each_counts (values m.channels) (record m { channels = [] })
        (v.counted ∙ sym (length-values m.channels)) in
    (
      close_each_closes (values m.channels) p _ (has-values k p m.channels e),
      rw c (lookup-nil k),
      w,
      b ∙ v.balanced,
    )

pub close_all-IsLive : (m : Mux) → IsLive m → IsLive (close_all m)
unfolding close_all
close_all-IsLive m v =
    let (w, b, c) =
      close_each_counts (values m.channels) (record m { channels = [] })
        (v.counted ∙ sym (length-values m.channels)) in
    record {
      registered =
          subst (λ (x : Map ℕ). IsWaiting IsOpen x (close_all m).chans (close_all m).next) (sym c)
            (nil-IsWaiting IsOpen _ _);
      unique = subst (λ (x : Map ℕ). IsUnique x) (sym c) tt;
      counted = w ∙ ap length (sym c);
      balanced = b ∙ v.balanced;
    }

pub close_all-channels : (m : Mux) → IsLive m → (close_all m).channels ≡ []
unfolding close_all
close_all-channels m v =
    (close_each_counts (values m.channels) (record m { channels = [] })
      (v.counted ∙ sym (length-values m.channels))).2
