-- ===== src/Control/Dials/Holders.antt =====
-- internal/control/handler.go: the channels of the mux and the goroutines that hold them.
use reversproxy.Base.{
  ℕ, ◌≤◌, ◌≡◌, refl, ap, ◌∙◌, subst, inl, inr, ◌⊎◌, Bool, true, false, List, [], ◌∷◌, none, some,
  if◌then◌else◌, ◌==◌, Bool-cases, Option-cases, Str, str_eq, str_eq_iff, str_eq_refl, lookup-nil,
  lookup, lookup-insert, lookup-delete, length, Map, arith,
}
use reversproxy.Base.Result.{Result, ok, err, Result-cases}
use reversproxy.Protocol.Messages.{SocksConnect}
use reversproxy.Protocol.Validation.{ValidationError}
use reversproxy.Tunnel.Mux.{Mux, new_channel, remove, deliver, close_all, new_mux}
use reversproxy.Tunnel.Mux.Live.{
  IsLive, new_mux-IsLive, new_channel-IsLive, remove-IsLive, deliver-IsLive, close_all-IsLive,
  close_all-channels,
}
use reversproxy.Control.Dials.{
  Net, Phase, started, dialing, relaying, leaving, over, Turn, Relays, allocate, begin, dial,
  advance, run_task, handle_server_socks_connect,
}

-- Whether a goroutine in that phase still has a Remove of the channel before it.
unfoldable pub holds : Str → Phase → Bool
holds k (started sc) = false
holds k (dialing sc) = str_eq sc.conn_id k
holds k (relaying sc address) = str_eq sc.conn_id k
holds k (leaving sc) = str_eq sc.conn_id k
holds k over = false

-- Every registered channel has a goroutine that will remove it, and the mux is in order.
pub record IsHeld (r : Relays) : Type 0 where
  pub held :
      (k : Str) (p : ℕ) → lookup k r.mux.channels ≡ some p → (i : ℕ) × (holds k (r.tasks i) ≡ true)
  pub live : IsLive r.mux
  pub fresh : (i : ℕ) → r.next_task ≤ i → r.tasks i ≡ over

pub lookup-remove :
    (j k : Str) (m : Mux)
    → lookup k (remove j m).channels ≡ (if str_eq j k then none else lookup k m.channels)
unfolding remove
lookup-remove j k m = elim (Option-cases (lookup j m.channels)) [
  | inl e ↦ ground (arith, str_eq_iff j k)
  | inr (p, e) ↦ ground (arith, lookup-delete j k m.channels)
]

lookup-new_channel :
    (j k : Str) (p : ℕ) (m n : Mux)
    → new_channel j m ≡ ok (p, n)
    → lookup k n.channels ≡ (if str_eq j k then some p else lookup k m.channels)
unfolding new_channel
lookup-new_channel j k p m n e = elim (Option-cases (lookup j m.channels)) [
  | inr (q, r) ↦ absurd (ground arith)
  | inl r ↦ ground (arith, lookup-insert j k m.next m.channels)
]

-- What one step of a goroutine does to the channels: one that is registered behind it is held by
-- it, or was registered before, and then the goroutine still holds what it held.
abbrev Kept : Phase → Mux → Phase → Mux → Type 0
Kept before m after n =
    IsLive n
    × ((k : Str) (p : ℕ)
        → lookup k n.channels ≡ some p
        → (holds k after ≡ true) ⊎ ((lookup k m.channels ≡ some p) × (holds k before ≡ false)))

module _ (net : Net) where
  allocate-Kept :
      (sc : SocksConnect) (m : Mux)
      → IsLive m
      → Kept
          (started sc)
          m
          (allocate net sc m (new_channel sc.conn_id m)).0
          (allocate net sc m (new_channel sc.conn_id m)).1
  unfolding allocate holds
  allocate-Kept sc m v = elim (Result-cases (new_channel sc.conn_id m)) [
    | inl (e, p) ↦ rw (p, allocate) (v, λ k q h. inr (h, refl))
    | inr ((p, n), e) ↦
        rw (e, allocate)
          (
            new_channel-IsLive sc.conn_id p m n e v,
            λ k q h. ground (arith, lookup-new_channel sc.conn_id k p m n e),
          )
  ]

  begin-Kept :
      (sc : SocksConnect) (m : Mux) (valid : Result ValidationError (Unit {0}))
      → IsLive m
      → Kept (started sc) m (begin net sc m valid).0 (begin net sc m valid).1
  unfolding begin holds
  begin-Kept sc m (ok _) v = allocate-Kept sc m v
  begin-Kept sc m (err e) v = (v, λ k p h. inr (h, refl))

  dial-Kept :
      (allow : Bool) (sc : SocksConnect) (m : Mux) (t : Turn) (r : Result Str Str)
      → IsLive m
      → Kept (dialing sc) m (dial net allow sc m t r).0 (dial net allow sc m t r).1
  unfolding dial holds
  dial-Kept allow sc m t (err text) v = (v, λ k p h. ground arith)
  dial-Kept allow sc m t (ok address) v = ground arith

  remove-Kept :
      (sc : SocksConnect) (before after : Phase) (m : Mux)
      → IsLive m
      → ((k : Str) → holds k before ≡ str_eq sc.conn_id k)
      → Kept before m after (remove sc.conn_id m)
  remove-Kept sc before after m v same =
      (remove-IsLive sc.conn_id m v, λ k p h. ground (arith, lookup-remove sc.conn_id k m, same k))

  advance-Kept :
      (is_ip : Str → Bool) (allow : Bool) (t : Turn) (ph : Phase) (m : Mux)
      → IsLive m
      → Kept ph m (advance net is_ip allow t ph m).0 (advance net is_ip allow t ph m).1
  unfolding advance holds
  advance-Kept is_ip allow t (started sc) m v = begin-Kept sc m _ v
  advance-Kept is_ip allow t (dialing sc) m v = dial-Kept allow sc m t t.resolved v
  advance-Kept is_ip allow t (relaying sc address) m v =
      remove-Kept sc (relaying sc address) (leaving sc) m v (λ k. refl)
  advance-Kept is_ip allow t (leaving sc) m v = remove-Kept sc (leaving sc) over m v (λ k. refl)
  advance-Kept is_ip allow t over m v = (v, λ k p h. inr (h, refl))

  pub run_task-IsHeld :
      (is_ip : Str → Bool) (allow : Bool) (i : ℕ) (t : Turn) (r : Relays)
      → IsHeld r
      → IsHeld (run_task net is_ip allow i t r).0
  unfolding run_task advance
  run_task-IsHeld is_ip allow i t r v =
      let (live, kept) = advance-Kept is_ip allow t (r.tasks i) r.mux v.live in
      record {
        held = λ k p e. elim (kept k p e) [
          | inl mine ↦ (i, ground arith)
          | inr (old, not_mine) ↦ let (j, his) = v.held k p old in (j, ground arith)
        ];
        live = live;
        fresh = λ j le. elim (Bool-cases (i == j)) [
          | inl same ↦ ground (
            arith,
            v.fresh j le,
            ap (λ ph. (advance net is_ip allow t ph r.mux).0) (v.fresh j le),
          )
          | inr other ↦ ground (arith, v.fresh j le)
        ];
      }

-- The new goroutine holds nothing, and its number is one that no goroutine has.
pub connect-IsHeld :
    (sc : SocksConnect) (r : Relays) → IsHeld r → IsHeld (handle_server_socks_connect sc r)
unfolding handle_server_socks_connect holds
connect-IsHeld sc r v = record {
  held = λ k p e.
      let (j, his) = v.held k p e in
      (j, ground (arith, v.fresh j, ap (holds k) (v.fresh r.next_task (omega arith))));
  live = v.live;
  fresh = λ i le. ground (arith, v.fresh i);
}

no_lookup : (c : Map ℕ) → ((k : Str) (p : ℕ) → lookup k c ≡ some p → ⊥) → c ≡ []
unfolding lookup
no_lookup [] h = refl
no_lookup ((k, p) ∷ c) h = absurd (h k p (ground (arith, str_eq_refl k)))

-- A mux with fewer channels.
shrink-IsHeld :
    (r : Relays) (n : Mux)
    → IsHeld r
    → IsLive n
    → ((k : Str) (p : ℕ) → lookup k n.channels ≡ some p → lookup k r.mux.channels ≡ some p)
    → IsHeld (record r { mux = n })
shrink-IsHeld r n v live fewer = record {
  held = λ k p e. v.held k p (fewer k p e);
  live = live;
  fresh = v.fresh;
}

deliver-channels :
    (k : Str) (payload : List ℕ) (m n : Mux) → deliver k payload m ≡ ok n → n.channels ≡ m.channels
unfolding deliver
deliver-channels k payload m n e = elim (Option-cases (lookup k m.channels)) [
  | inl r ↦ absurd (ground arith)
  | inr (p, r) ↦ ground arith
]

pub deliver-IsHeld :
    (k : Str) (payload : List ℕ) (r : Relays) (n : Mux)
    → deliver k payload r.mux ≡ ok n
    → IsHeld r
    → IsHeld (record r { mux = n })
deliver-IsHeld k payload r n e v =
    shrink-IsHeld r n v (deliver-IsLive k payload r.mux n e v.live)
      (λ j p h. subst (λ (c : Map ℕ). lookup j c ≡ some p) (deliver-channels k payload r.mux n e) h)

pub remove-IsHeld : (k : Str) (r : Relays) → IsHeld r → IsHeld (record r { mux = remove k r.mux })
remove-IsHeld k r v =
    shrink-IsHeld r (remove k r.mux) v (remove-IsLive k r.mux v.live)
      (λ j p h. ground (arith, lookup-remove k j r.mux))

pub close_all-IsHeld : (r : Relays) → IsHeld r → IsHeld (record r { mux = close_all r.mux })
close_all-IsHeld r v = shrink-IsHeld r (close_all r.mux) v (close_all-IsLive r.mux v.live) (λ j p h.
    absurd (
      ground (
        arith,
        lookup-nil {V = ℕ} j,
        ap (λ (c : Map ℕ). lookup j c) (close_all-channels r.mux v.live),
      )))

-- With no goroutine under way, the mux is empty and its counter is zero.
pub idle-IsHeld :
    (r : Relays)
    → IsHeld r
    → ((i : ℕ) (k : Str) → holds k (r.tasks i) ≡ false)
    → (r.mux.channels ≡ []) × (r.mux.wg ≡ 0) × (r.mux.negative ≡ false)
idle-IsHeld r v idle =
    let none_left : r.mux.channels ≡ [] =
      no_lookup r.mux.channels (λ k p e. let (i, his) = v.held k p e in ground (arith, idle i k)) in
    (none_left, v.live.counted ∙ ap (λ (c : Map ℕ). length c) none_left, v.live.balanced)

pub no_tasks-IsHeld :
    (m : Relays) → m ≡ record { mux = new_mux; tasks = λ _. over; next_task = 0 } → IsHeld m
no_tasks-IsHeld m e = rw e (record {
  held = λ k p e. unfold new_mux in absurd (ground (arith, lookup-nil {V = ℕ} k));
  live = new_mux-IsLive;
  fresh = λ i le. refl;
})
