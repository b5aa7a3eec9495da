-- ===== src/Table/Canonical/Invariant.antt =====
-- The invariant of hash-consing under each operation on the heap and the table.
use hirpdag.Base.{ℕ, ◌<◌, ◌≡◌, ◌≢◌, ◌∙◌, sym, ◌⊎◌, inl, inr, true, false, none, arith, Bool-cases}
use hirpdag.Key.{Key, Hasher}
use hirpdag.Ref.{Heap, new, strong_deref, strong_drop}
use hirpdag.Ref.Laws.{
  Live, retain, strong_deref-retain, next-retain, strong_deref-new, strong_deref_of_drop, next-drop,
  next-new,
}
use hirpdag.Table.Canonical.{IsUnique}
use hirpdag.Table.Interface.{Entries, Grows}
use hirpdag.Table.WeakEntry.{deref_equal}

module _ {D : Type 0} ⦃key : Key D⦄ (hasher : Hasher D key) where
  -- Fewer live objects, at no smaller bound, keep the invariant.
  pub IsUnique-mono :
      (E : Entries) (h k : Heap D)
      → h.next ≡ k.next
      → ((p : ℕ) (x : D) → Live k p x → Live h p x)
      → IsUnique hasher E h
      → IsUnique hasher E k
  IsUnique-mono E h k n sub u = record {
    bounded = λ j p e. omega (arith, u.bounded j p e);
    hashed = λ j p x e l. u.hashed j p x e (sub p x l);
    unique = λ i p j q x y e f l m s. u.unique i p j q x y e f (sub p x l) (sub q y m) s;
  }

  pub IsUnique-retain :
      (E : Entries) (h : Heap D) (p : ℕ)
      → strong_deref h p ≢ none
      → IsUnique hasher E h
      → IsUnique hasher E (retain p h)
  IsUnique-retain E h p there u =
      IsUnique-mono E h (retain p h) (sym (next-retain h p))
        (λ q x l. sym (strong_deref-retain h p q there) ∙ l) u

  pub IsUnique-drop :
      (E : Entries) (h : Heap D) (p : ℕ) → IsUnique hasher E h → IsUnique hasher E (strong_drop p h)
  IsUnique-drop E h p u =
      IsUnique-mono E h (strong_drop p h) (sym (next-drop h p))
        (λ q x l. strong_deref_of_drop h p q x l) u

  module _ (E E' : Entries) (h : Heap D) (d c : D) (same : key.equal c d ≡ true)
      (absent : (p : ℕ) → E (hasher.hash_one d) p → deref_equal h p d ≡ false)
      (grows : Grows E h (hasher.hash_one d) h.next E') (u : IsUnique hasher E h) where
    -- A new entry is an old one, or the new object under the hash of its data.
    entry_cases :
        (k p : ℕ) (x : D)
        → E' k p
        → Live (new c h).1 p x
        → (E k p × Live h p x × (p < h.next)) ⊎ ((k ≡ hasher.hash_one d) × (p ≡ h.next) × (x ≡ c))
    entry_cases k p x e l = elim (grows.only k p e) [
      | inl was ↦
          inl (was, ground (arith, strong_deref-new c h p, u.bounded k p was), u.bounded k p was)
      | inr is_new ↦ inr (is_new.0, is_new.1, ground (arith, strong_deref-new c h p))
    ]

    -- No live entry is equal to the new data.
    old_differs : (k p : ℕ) (x : D) → E k p → Live h p x → key.equal x c ≡ false
    unfolding deref_equal
    old_differs k p x e l = elim (Bool-cases (key.equal x c)) [
      | inr no_match ↦ no_match
      | inl match ↦
          let near = key.equal_trans x c d match same in
          let at_hash = u.hashed k p x e l ∙ hasher.hash-equal x d near in
          ground (arith, absent p (rw at_hash at e), near)
    ]

    pub IsUnique-new : IsUnique hasher E' (new c h).1
    IsUnique-new = record {
      bounded = λ k p e. elim (grows.only k p e) [
        | inl was ↦ omega (arith, u.bounded k p was, next-new c h)
        | inr is_new ↦ omega (arith, next-new c h)
      ];
      hashed = λ k p x e l. elim (entry_cases k p x e l) [
        | inl was ↦ u.hashed k p x was.0 was.1
        | inr is_new ↦ ground (arith, hasher.hash-equal c d)
      ];
      unique = λ j p k q x y e f l m s. elim (entry_cases j p x e l) [
        | inl was ↦ elim (entry_cases k q y f m) [
          | inl was' ↦ u.unique j p k q x y was.0 was'.0 was.1 was'.1 s
          | inr is_new ↦ ground (arith, old_differs j p x was.0 was.1)
        ]
        | inr is_new ↦ elim (entry_cases k q y f m) [
          | inl was' ↦ ground (arith, old_differs k q y was'.0 was'.1, key.equal_symm x y)
          | inr is_new' ↦ omega arith
        ]
      ];
    }
