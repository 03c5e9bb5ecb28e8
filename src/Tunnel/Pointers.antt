-- ===== src/Tunnel/Pointers.antt =====
-- Maps of pointers to objects that wait: each object is made once, waits while it is in the map,
-- and stands in the map under one key.
use reversproxy.Base.{
  ℕ, suc, ◌≡◌, ◌≢◌, ◌<◌, [], some, Bool-cases, ◌==◌, inl, inr, Str, str_eq_iff, Map, lookup, insert,
  delete, lookup-nil, lookup-insert, lookup-delete, update, arith,
}

pub record IsWaiting {A : Type 0} (Waits : A → Type 0) (m : Map ℕ) (at : ℕ → A) (next : ℕ)
    : Type 0 where
  pub made : (k : Str) (p : ℕ) → lookup k m ≡ some p → p < next
  pub waits : (k : Str) (p : ℕ) → lookup k m ≡ some p → Waits (at p)
  pub apart : (k j : Str) (p : ℕ) → lookup k m ≡ some p → lookup j m ≡ some p → k ≡ j

module _ {A : Type 0} (Waits : A → Type 0) where
  pub nil-IsWaiting : (at : ℕ → A) (next : ℕ) → IsWaiting Waits [] at next
  nil-IsWaiting at next = record {
    made = λ k p e. absurd (ground (arith, lookup-nil {V = ℕ} k));
    waits = λ k p e. absurd (ground (arith, lookup-nil {V = ℕ} k));
    apart = λ k j p e f. absurd (ground (arith, lookup-nil {V = ℕ} k));
  }

  update-Waits :
      (at : ℕ → A) (next p : ℕ) (a : A)
      → Waits a
      → (next ≢ p → Waits (at p))
      → Waits (update at next a p)
  update-Waits at next p a w old = elim (Bool-cases (next == p)) [
    | inl same ↦ rw same w
    | inr different ↦ rw different (old (λ e. absurd (ground arith)))
  ]

  module _ (m : Map ℕ) (at : ℕ → A) (next : ℕ) (v : IsWaiting Waits m at next) where
    -- A new object is put under a key.
    pub insert-IsWaiting :
        (k : Str) (a : A)
        → Waits a
        → IsWaiting Waits (insert k next m) (update at next a) (suc next)
    insert-IsWaiting k a w = record {
      made = λ j p e. ground (arith, lookup-insert k j next m, v.made j p);
      waits = λ j p e. still j p e;
      apart = λ i j p e f. ground (
        arith,
        lookup-insert k i next m,
        lookup-insert k j next m,
        str_eq_iff k i,
        str_eq_iff k j,
        v.made i p,
        v.made j p,
        v.apart i j p,
      );
    }
      where
        still : (j : Str) (p : ℕ) → lookup j (insert k next m) ≡ some p → Waits (update at next a p)
        still j p e =
            update-Waits at next p a w λ ne. v.waits j p (ground (arith, lookup-insert k j next m))

    -- An object is settled and its key deleted.
    pub settle-IsWaiting :
        (k : Str) (p : ℕ) (a : A)
        → lookup k m ≡ some p
        → IsWaiting Waits (delete k m) (update at p a) next
    settle-IsWaiting k p a found = record {
      made = λ j q e. v.made j q (kept j q e);
      waits = λ j q e. rw (other-object j q e) (v.waits j q (kept j q e));
      apart = λ i j q e f. v.apart i j q (kept i q e) (kept j q f);
    }
      where
        kept : (j : Str) (q : ℕ) → lookup j (delete k m) ≡ some q → lookup j m ≡ some q
        kept j q e = ground (arith, lookup-delete k j m)

        other-object : (j : Str) (q : ℕ) → lookup j (delete k m) ≡ some q → update at p a q ≡ at q
        other-object j q e = elim (Bool-cases (p == q)) [
          | inl same ↦
              absurd (ground (arith, lookup-delete k j m, v.apart k j p found, str_eq_iff k j))
          | inr different ↦ rw different
        ]

    -- Deleting a key that is not there.
    pub delete-IsWaiting : (k : Str) → IsWaiting Waits (delete k m) at next
    delete-IsWaiting k = record {
      made = λ j q e. v.made j q (kept j q e);
      waits = λ j q e. v.waits j q (kept j q e);
      apart = λ i j q e f. v.apart i j q (kept i q e) (kept j q f);
    }
      where
        kept : (j : Str) (q : ℕ) → lookup j (delete k m) ≡ some q → lookup j m ≡ some q
        kept j q e = ground (arith, lookup-delete k j m)

    -- An object is changed; if it waited, it goes on waiting.
    pub change-IsWaiting :
        (p : ℕ) (a : A) → (Waits (at p) → Waits a) → IsWaiting Waits m (update at p a) next
    change-IsWaiting p a keeps = record {
      made = v.made;
      waits = λ j q e. elim (Bool-cases (p == q)) [
        | inl same ↦ let eq : p ≡ q = ground arith in rw same (keeps (rw eq (v.waits j q e)))
        | inr different ↦ rw different (v.waits j q e)
      ];
      apart = v.apart;
    }

    -- An object is changed and goes on waiting.
    pub update-IsWaiting : (p : ℕ) (a : A) → Waits a → IsWaiting Waits m (update at p a) next
    update-IsWaiting p a w = record {
      made = v.made;
      waits = λ j q e. update-Waits at p q a w (λ _. v.waits j q e);
      apart = v.apart;
    }
