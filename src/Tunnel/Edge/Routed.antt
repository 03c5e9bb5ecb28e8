-- ===== src/Tunnel/Edge/Routed.antt =====
-- internal/tunnel/http_proxy.go, https_proxy.go and server.go: what relates the pending connections,
-- the relay goroutines and the messages to the clients.
use reversproxy.Base.{
  ℕ, suc, ◌<◌, ◌≡◌, ◌≢◌, refl, ap, sym, ◌∙◌, true, false, List, [], ◌∷◌, Option, none, some,
  if_cases, ◌==◌, ==→eq, Str, subst, lookup, update, lookup-insert, lookup-nil, str_eq,
  str_eq_sound, All, All-map, arith,
}
use mathlib.Core.List.{Memᴰ}
use reversproxy.Protocol.Messages.{OpenConnection, DataConnHello}
use reversproxy.Tunnel.Pointers.{IsWaiting, nil-IsWaiting, insert-IsWaiting}
use reversproxy.Tunnel.Manager.{PendingConn, register_pending, new_data_token}
use reversproxy.Tunnel.Manager.Tokens.{Waits}
use reversproxy.Tunnel.Edge.{Library, Kind, Relay, waits, Edge, Turn, close, write, notify}
use reversproxy.Tunnel.Edge.Events.{new_edge}

-- An OpenConnection with an identity and a token was written to a client.
abbrev pub Told : Str → Str → List (ℕ × OpenConnection) → Type 0
Told k token sent =
    (w : ℕ) × (msg : OpenConnection) × Memᴰ (w, msg) sent
    × (msg.conn_id ≡ k)
    × (msg.data_token ≡ token)

-- A data connection was accepted that gave an identity and a token.
abbrev pub Greeted : ℕ → Str → Str → List (ℕ × DataConnHello) → Type 0
Greeted d k token hellos =
    (hello : DataConnHello) × Memᴰ (d, hello) hellos
    × (hello.conn_id ≡ k)
    × (hello.token ≡ token)
    × (token ≢ [])

-- The object of a user's connection that a data connection was accepted for.
pub record IsPair (sent : List (ℕ × OpenConnection)) (hellos : List (ℕ × DataConnHello)) (k : Str)
    (ext d : ℕ) (c : PendingConn) : Type 0 where
  pub user : c.ext_conn ≡ ext
  pub held : c.data_conn ≡ some d
  pub told : Told k c.data_token sent
  pub greeted : Greeted d k c.data_token hellos

-- A user's connection and a data connection belong to one pending connection.
abbrev pub IsMatch : Library → Edge → ℕ × ℕ → Type 0
IsMatch lib g (ext, d) =
    (p : ℕ) × (p < g.manager.next_conn)
    × IsPair g.sent g.hellos (lib.uuid p) ext d (g.manager.conns p)

-- The object of a relay goroutine that waits: its client has been told, and when its channel is
-- closed, a data connection is there.
pub record IsAwaited (sent : List (ℕ × OpenConnection)) (k : Str) (c : PendingConn) : Type 0 where
  pub told : Told k c.data_token sent
  pub there : c.ready ≡ true → (d : ℕ) × (c.data_conn ≡ some d)

abbrev pub IsServed : Library → Edge → ℕ → Str → Type 0
IsServed lib g p k =
    (k ≡ lib.uuid p) × (p < g.manager.next_conn) × IsAwaited g.sent (lib.uuid p) (g.manager.conns p)

pub record IsRouted (lib : Library) (g : Edge) : Type 0 where
  pub counted : g.calls ≡ g.manager.next_conn
  pub waiting : IsWaiting Waits g.manager.pending g.manager.conns g.manager.next_conn
  pub named : (k : Str) (p : ℕ) → lookup k g.manager.pending ≡ some p → k ≡ lib.uuid p
  pub filled :
      (p d : ℕ)
      → (g.manager.conns p).data_conn ≡ some d
      → Greeted d (lib.uuid p) (g.manager.conns p).data_token g.hellos
  pub served :
      (p : ℕ) (kind : Kind) (k : Str) (raw : List ℕ)
      → g.relays p ≡ waits kind k raw
      → IsServed lib g p k
  pub matched : All (IsMatch lib g) g.joined
  pub safe : g.crashed ≡ false

module _ (lib : Library) where
  pub close-IsRouted : (conn : ℕ) (g : Edge) → IsRouted lib g → IsRouted lib (close conn g)
  unfolding close
  close-IsRouted conn g v = record {
    counted = v.counted;
    waiting = v.waiting;
    named = v.named;
    filled = v.filled;
    served = v.served;
    matched = v.matched;
    safe = v.safe;
  }

  pub write-IsRouted :
      (conn : ℕ) (bytes : List ℕ) (g : Edge) → IsRouted lib g → IsRouted lib (write conn bytes g)
  unfolding write
  write-IsRouted conn bytes g v = record {
    counted = v.counted;
    waiting = v.waiting;
    named = v.named;
    filled = v.filled;
    served = v.served;
    matched = v.matched;
    safe = v.safe;
  }

pub new_edge-IsRouted : (lib : Library) → IsRouted lib new_edge
unfolding new_edge
new_edge-IsRouted lib = record {
  counted = refl;
  waiting = nil-IsWaiting Waits _ _;
  named = λ k p e. absurd (ground (arith, lookup-nil {V = ℕ} k));
  filled = λ p d e. cc;
  served = λ p kind k raw e. cc;
  matched = tt;
  safe = refl;
}

Told-later :
    (k token : Str) (sent : List (ℕ × OpenConnection)) (x : ℕ × OpenConnection)
    → Told k token sent
    → Told k token (x ∷ sent)
Told-later k token sent x (w, msg, mem, same, right) = (w, msg, Memᴰ.tail mem, same, right)

-- The object that RegisterPending makes.
abbrev pub made : Option (List ℕ) → ℕ → PendingConn
made random ext = record {
  ext_conn = ext;
  ready = false;
  data_conn = none;
  data_token = new_data_token random;
}

-- An older object is as it was.
update-old :
    (at : ℕ → PendingConn) (n p : ℕ) (a : PendingConn) (P : PendingConn → Type 0)
    → p < n
    → P (at p)
    → P (update at n a p)
update-old at n p a P below x =
    if_cases P (n == p) a (at p) (λ same. absurd (ground arith)) (λ _. x)

pub update-new {ℓ} : {A : Type ℓ} (at : ℕ → A) (n : ℕ) (a : A) → update at n a n ≡ a
update-new at n a = ground arith

module _ (lib : Library) (g : Edge) (v : IsRouted lib g) where
  next_name : (k : Str) (p : ℕ) → lib.uuid g.calls ≡ k → g.manager.next_conn ≡ p → k ≡ lib.uuid p
  next_name k p same e = sym same ∙ ap lib.uuid (v.counted ∙ e)

  -- RegisterPending under the next identity.
  pub register_pending-IsRouted :
      (random : Option (List ℕ)) (ext : ℕ)
      → IsRouted lib (record g {
        manager = (register_pending random (lib.uuid g.calls) ext g.manager).1;
        calls = suc g.calls;
      })
  unfolding register_pending
  register_pending-IsRouted random ext = record {
    counted = omega (arith, v.counted);
    waiting =
        insert-IsWaiting Waits _ _ g.manager.next_conn v.waiting (lib.uuid g.calls)
          (made random ext) (refl, refl);
    named = λ k p e.
        if_cases (λ (o : Option ℕ). o ≡ some p → k ≡ lib.uuid p) (str_eq (lib.uuid g.calls) k)
          (some g.manager.next_conn) (lookup k g.manager.pending)
          (λ same f. next_name k p (str_eq_sound _ _ same) (ground arith)) (λ _ f. v.named k p f)
          (sym (lookup-insert (lib.uuid g.calls) k g.manager.next_conn g.manager.pending) ∙ e);
    filled = λ p d.
        if_cases
          (λ (c : PendingConn). c.data_conn ≡ some d → Greeted d (lib.uuid p) c.data_token g.hellos)
          (g.manager.next_conn == p) (made random ext) (g.manager.conns p) (λ _ e. absurd cc)
          (λ _ e. v.filled p d e);
    served = λ p kind k raw e.
        let (same, below, awaited) = v.served p kind k raw e in
        (
          same,
          omega arith,
          update-old g.manager.conns g.manager.next_conn p (made random ext)
              (IsAwaited g.sent (lib.uuid p)) below awaited,
        );
    matched =
        All-map
          (λ (user, d) (p, below, pair). (
            p,
            omega arith,
            update-old g.manager.conns g.manager.next_conn p (made random ext)
                (IsPair g.sent g.hellos (lib.uuid p) user d) below pair,
          ))
          g.joined v.matched;
    safe = v.safe;
  }

  -- The client is told of a connection that waits, and its relay goroutine starts.
  pub tell-IsRouted :
      (p w : ℕ) (msg : OpenConnection) (kind : Kind) (j : Str) (raw : List ℕ)
      → j ≡ lib.uuid p
      → p < g.manager.next_conn
      → msg.conn_id ≡ j
      → msg.data_token ≡ (g.manager.conns p).data_token
      → (g.manager.conns p).ready ≡ false
      → IsRouted lib
          (record g { sent = (w, msg) ∷ g.sent; relays = update g.relays p (waits kind j raw) })
  tell-IsRouted p w msg kind j raw name below same right unready = record {
    counted = v.counted;
    waiting = v.waiting;
    named = v.named;
    filled = v.filled;
    served = λ q kind' k raw'.
        if_cases
          (λ (r : Relay).
            r ≡ waits kind' k raw'
            → (k ≡ lib.uuid q)
              × (q < g.manager.next_conn)
              × IsAwaited ((w, msg) ∷ g.sent) (lib.uuid q) (g.manager.conns q))
          (p == q) (waits kind j raw) (g.relays q)
          (λ here e.
            subst
              (λ (q : ℕ).
                (k ≡ lib.uuid q)
                × (q < g.manager.next_conn)
                × IsAwaited ((w, msg) ∷ g.sent) (lib.uuid q) (g.manager.conns q))
              (==→eq p q here)
              (
                cc,
                below,
                record {
                  told = (w, msg, Memᴰ.head refl, same ∙ name, right);
                  there = λ ready. absurd cc;
                },
              ))
          (λ _ e.
            let (k_eq, lt, awaited) = v.served q kind' k raw' e in
            (
              k_eq,
              lt,
              record { told = Told-later _ _ g.sent (w, msg) awaited.told; there = awaited.there },
            ));
    matched =
        All-map
          (λ (user, d) (q, lt, pair). (
            q,
            lt,
            record {
              user = pair.user;
              held = pair.held;
              told = Told-later _ _ g.sent (w, msg) pair.told;
              greeted = pair.greeted;
            },
          ))
          g.joined v.matched;
    safe = v.safe;
  }

module _ (lib : Library) where
  pub notify-IsRouted :
      (kind : Kind) (w : ℕ) (message : Str → Str → OpenConnection) (raw : List ℕ) (ext : ℕ)
      (t : Turn) (g : Edge)
      → ((k token : Str) → (message k token).conn_id ≡ k)
      → ((k token : Str) → (message k token).data_token ≡ token)
      → IsRouted lib g
      → IsRouted lib (notify lib kind w message raw ext t g)
  unfolding notify
  notify-IsRouted kind w message raw ext t g id_ok token_ok v =
      let v1 = register_pending-IsRouted lib g v t.random ext in
      let n = g.manager.next_conn in
      let name : lib.uuid g.calls ≡ lib.uuid n = ap lib.uuid v.counted in
      if_cases (IsRouted lib) t.write_ok _ _
        (λ _.
          tell-IsRouted lib _ v1 n w _ kind (lib.uuid g.calls) raw name (omega arith) (id_ok _ _)
            (token_ok _ _)
            (ap (λ (c : PendingConn). c.ready) (update-new g.manager.conns n (made t.random ext))))
        (λ _. close-IsRouted lib ext _ v1)
