-- ===== src/Tunnel/Edge/Relays.antt =====
-- internal/tunnel/http_proxy.go, https_proxy.go and server.go: data connections that arrive, and the
-- goroutines that wait for them.
use reversproxy.Base.{
  ℕ, ◌<◌, ◌≡◌, ◌≢◌, refl, ap, sym, ◌∙◌, inl, inr, true, false, List, [], ◌∷◌, Option, none, some,
  Option-cases, if_cases, ◌==◌, ==→eq, Str, subst, lookup, update, lookup-delete, str_eq, All-map,
  delete, arith,
}
use mathlib.Core.List.Memᴰ
use reversproxy.Protocol.Messages.{DataConnHello}
use reversproxy.Tunnel.Pointers.{settle-IsWaiting, delete-IsWaiting}
use reversproxy.Tunnel.Manager.{PendingConn, cancel_pending}
use reversproxy.Tunnel.Manager.Tokens.{Waits}
use reversproxy.Tunnel.Edge.{Library, Kind, Relay, waits, copies, over, Edge, join}
use reversproxy.Tunnel.Edge.Routed.{Told, Greeted, IsRouted, IsPair, IsAwaited}

Greeted-later :
    (d : ℕ) (k token : Str) (hellos : List (ℕ × DataConnHello)) (x : ℕ × DataConnHello)
    → Greeted d k token hellos
    → Greeted d k token (x ∷ hellos)
Greeted-later d k token hellos x (hello, mem, same, right, filled) =
    (hello, Memᴰ.tail mem, same, right, filled)

module _ (lib : Library) (g : Edge) (v : IsRouted lib g) where
  -- An entry that stays after another was deleted.
  named_kept : (k j : Str) (p : ℕ) → lookup j (delete k g.manager.pending) ≡ some p → j ≡ lib.uuid p
  named_kept k j p e =
      if_cases (λ (o : Option ℕ). o ≡ some p → j ≡ lib.uuid p) (str_eq k j) none
        (lookup j g.manager.pending) (λ _ f. cc) (λ _ f. v.named j p f)
        (sym (lookup-delete k j g.manager.pending) ∙ e)

  -- The object of a waiting entry holds no data connection.
  waiting_empty :
      (k : Str) (p q d : ℕ)
      → lookup k g.manager.pending ≡ some p
      → p ≡ q
      → (g.manager.conns q).data_conn ≡ some d
      → none ≡ some d
  waiting_empty k p q d e same held =
      sym (subst (λ (q : ℕ). (g.manager.conns q).data_conn ≡ none) same (v.waiting.waits k p e).1)
      ∙ held

  -- A data connection is accepted.
  pub accept-IsRouted :
      (hello : DataConnHello) (d p : ℕ)
      → lookup hello.conn_id g.manager.pending ≡ some p
      → hello.token ≡ (g.manager.conns p).data_token
      → (g.manager.conns p).data_token ≢ []
      → IsRouted lib (record g {
        manager = record g.manager {
          pending = delete hello.conn_id g.manager.pending;
          conns =
              update g.manager.conns p
                (record (g.manager.conns p) { ready = true; data_conn = some d });
        };
        hellos = (d, hello) ∷ g.hellos;
      })
  accept-IsRouted hello d p e right filled =
      let c : PendingConn = record (g.manager.conns p) { ready = true; data_conn = some d } in
      record {
        counted = v.counted;
        waiting = settle-IsWaiting Waits _ _ _ v.waiting hello.conn_id p c e;
        named = λ j q f. named_kept hello.conn_id j q f;
        filled = λ q d'.
            if_cases
              (λ (x : PendingConn).
                x.data_conn ≡ some d'
                → Greeted d' (lib.uuid q) x.data_token ((d, hello) ∷ g.hellos))
              (p == q) c (g.manager.conns q)
              (λ here f. (
                hello,
                Memᴰ.head (ap (λ (n : ℕ). (n, hello)) (ground arith)),
                v.named hello.conn_id p e ∙ ap lib.uuid (==→eq p q here),
                right,
                filled,
              ))
              (λ _ f. Greeted-later _ _ _ g.hellos (d, hello) (v.filled q d' f));
        served = λ q kind k raw f.
            let (same, below, awaited) = v.served q kind k raw f in
            (
              same,
              below,
              if_cases (IsAwaited g.sent (lib.uuid q)) (p == q) c (g.manager.conns q)
                  (λ here. record {
                    told =
                        subst (λ (n : ℕ). Told (lib.uuid q) (g.manager.conns n).data_token g.sent)
                          (sym (==→eq p q here)) awaited.told;
                    there = λ _. (d, refl);
                  })
                  (λ _. awaited),
            );
        matched =
            All-map
              (λ (user, d') (q, below, pair). (
                q,
                below,
                if_cases (IsPair g.sent ((d, hello) ∷ g.hellos) (lib.uuid q) user d') (p == q) c
                    (g.manager.conns q)
                    (λ here. absurd (
                      let z = waiting_empty hello.conn_id p q d' e (==→eq p q here) pair.held in
                      cc))
                    (λ _. record {
                      user = pair.user;
                      held = pair.held;
                      told = pair.told;
                      greeted = Greeted-later _ _ _ g.hellos (d, hello) pair.greeted;
                    }),
              ))
              g.joined v.matched;
        safe = v.safe;
      }

  -- A relay goroutine ends.
  pub over-IsRouted : (p : ℕ) → IsRouted lib (record g { relays = update g.relays p over })
  over-IsRouted p = record {
    counted = v.counted;
    waiting = v.waiting;
    named = v.named;
    filled = v.filled;
    served = λ q kind k raw.
        if_cases
          (λ (r : Relay).
            r ≡ waits kind k raw
            → (k ≡ lib.uuid q)
              × (q < g.manager.next_conn)
              × IsAwaited g.sent (lib.uuid q) (g.manager.conns q))
          (p == q) over (g.relays q) (λ _ e. absurd cc) (λ _ e. v.served q kind k raw e);
    matched = v.matched;
    safe = v.safe;
  }

  pub join-IsRouted :
      (p d : ℕ)
      → p < g.manager.next_conn
      → (g.manager.conns p).data_conn ≡ some d
      → Told (lib.uuid p) (g.manager.conns p).data_token g.sent
      → IsRouted lib (join p d g)
  unfolding join
  join-IsRouted p d below held told = record {
    counted = v.counted;
    waiting = v.waiting;
    named = v.named;
    filled = v.filled;
    served = λ q kind k raw.
        if_cases
          (λ (r : Relay).
            r ≡ waits kind k raw
            → (k ≡ lib.uuid q)
              × (q < g.manager.next_conn)
              × IsAwaited g.sent (lib.uuid q) (g.manager.conns q))
          (p == q) (copies (g.manager.conns p).ext_conn d) (g.relays q) (λ _ e. absurd cc)
          (λ _ e. v.served q kind k raw e);
    matched = (
      (p, below, record { user = refl; held = held; told = told; greeted = v.filled p d held }),
      v.matched,
    );
    safe = v.safe;
  }

  -- A goroutine ends, with its entry cancelled.
  pub cancel-IsRouted :
      ((i j : ℕ) → lib.uuid i ≡ lib.uuid j → i ≡ j)
      → (p : ℕ) (k : Str) → k ≡ lib.uuid p
      → IsRouted lib
          (record g { manager = cancel_pending k g.manager; relays = update g.relays p over })
  unfolding cancel_pending
  cancel-IsRouted apart p k name = elim (Option-cases (lookup k g.manager.pending)) [
    | inl e ↦
        rw (e, cancel_pending)
          (record {
            counted = v.counted;
            waiting = delete-IsWaiting Waits _ _ _ v.waiting k;
            named = named_kept k;
            filled = v.filled;
            served = (over-IsRouted p).served;
            matched = v.matched;
            safe = v.safe;
          })
    | inr (q, e) ↦
        let c : PendingConn = record (g.manager.conns q) { ready = true } in
        let own : p ≡ q = apart p q (sym name ∙ v.named k q e) in
        rw (e, cancel_pending)
          (record {
            counted = v.counted;
            waiting = settle-IsWaiting Waits _ _ _ v.waiting k q c e;
            named = named_kept k;
            filled = λ r d.
                if_cases
                  (λ (x : PendingConn).
                    x.data_conn ≡ some d → Greeted d (lib.uuid r) x.data_token g.hellos)
                  (q == r) c (g.manager.conns r)
                  (λ _ f. absurd (let z = waiting_empty k q q d e refl f in cc))
                  (λ _ f. v.filled r d f);
            served = λ r kind j raw f.
                let (same, below, awaited) = (over-IsRouted p).served r kind j raw f in
                (
                  same,
                  below,
                  if_cases (IsAwaited g.sent (lib.uuid r)) (q == r) c (g.manager.conns r)
                      (λ here. absurd (let z = ended r kind j raw (own ∙ ==→eq q r here) f in cc))
                      (λ _. awaited),
                );
            matched =
                All-map
                  (λ (user, d) (r, below, pair). (
                    r,
                    below,
                    if_cases (IsPair g.sent g.hellos (lib.uuid r) user d) (q == r) c
                        (g.manager.conns r)
                        (λ here.
                          absurd (let z = waiting_empty k q r d e (==→eq q r here) pair.held in cc))
                        (λ _. pair),
                  ))
                  g.joined v.matched;
            safe = v.safe;
          })
  ]
    where
      ended :
          (r : ℕ) (kind : Kind) (j : Str) (raw : List ℕ)
          → p ≡ r
          → update g.relays p over r ≡ waits kind j raw
          → false ≡ true
      ended r kind j raw same f = absurd (ground arith)
