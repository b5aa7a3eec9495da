-- ===== src/Table/TovWeak/Unique.antt =====
-- The table of weak handles over the crate `weak_table` has at most one node of equal data.
use mathlib.Core.Path.{subst}
use hirpdag.Base.{
  ℕ, ◌<◌, ◌≡◌, ◌≢◌, ◌⊎◌, ◌∙◌, refl, sym, ap, inl, inr, true, false, none, some, arith, Bool-cases,
  Option-cases, ◌==◌,
}
use hirpdag.Key.{Key}
use hirpdag.Ref.{Heap, new, strong_deref}
use hirpdag.Ref.Laws.{
  Live, retain, strong_clone_lem, strong_drop-retain, strong_deref-retain, next-retain,
  strong_deref-new, next-new,
}
use hirpdag.Table.Interface.{CreationMeta, hit, miss}
use hirpdag.Table.TovWeak.{
  WeakHashSet, TableTovWeakTable, default, insert_new, get_or_insert, reset,
}
use hirpdag.Table.WeakEntry.{deref_equal}

module _ {D : Type 0} ⦃key : Key D⦄ where
  deref_equal-cases :
      (h : Heap D) (p : ℕ) (d : D)
      → deref_equal h p d ≡ true
      → (x : D) × Live h p x × (key.equal x d ≡ true)
  unfolding deref_equal
  deref_equal-cases h p d e = elim (Option-cases (strong_deref h p)) [
    | inl none_there ↦ absurd (ground (arith, none_there))
    | inr (x, l) ↦ (x, l, ground (arith, l))
  ]

  Live-there : (h : Heap D) (p : ℕ) (x : D) → Live h p x → strong_deref h p ≢ none
  Live-there h p x l gone = absurd cc

module _ {D S : Type 0} ⦃key : Key D⦄ (crate : WeakHashSet D S key) where
  -- No two elements that are there have equal data; every element has been made.
  pub record IsUnique (t : TableTovWeakTable S) (h : Heap D) : Type 0 where
    pub bounded : (p : ℕ) → crate.Holds t.m p → p < h.next
    pub unique :
        (p q : ℕ) (a b : D)
        → crate.Holds t.m p
        → crate.Holds t.m q
        → Live h p a
        → Live h q b
        → key.equal a b ≡ true
        → p ≡ q

  -- A table that was just made, or reset, has no elements.
  pub default-IsUnique :
      (t : TableTovWeakTable S) (h : Heap D)
      → IsUnique (default crate) h × IsUnique (reset crate t) h
  unfolding default reset
  default-IsUnique t h =
      let empty : IsUnique (record { m = crate.new }) h = record {
        bounded = λ p k. absurd (crate.new_empty p k);
        unique = λ p q a b k l m n e. absurd (crate.new_empty p k);
      } in
      (empty, empty)

  module _ {G : Type 0} where
    -- What `get_or_insert` returns: the element of equal data, with nothing changed but one more handle;
    -- or, where there is none, a new object with the data and the state that `creation_meta` gave.
    pub data Outcome (t : TableTovWeakTable S) (d : D) (completed : D × G) (h : Heap D) (g : G)
        (r : ℕ × TableTovWeakTable S × Heap D × G) : Type 0 where
      found :
          (p : ℕ)
          → crate.Holds t.m p
          → deref_equal h p d ≡ true
          → r ≡ (p, t, retain p h, g)
          → Outcome t d completed h g r
      created :
          (t' : TableTovWeakTable S)
          → ((p : ℕ) → crate.Holds t.m p → deref_equal h p d ≡ false)
          → r ≡ (h.next, t', (new completed.0 h).1, completed.1)
          → Outcome t d completed h g r

    -- and how the table is left
    pub record Shares (t : TableTovWeakTable S) (d : D) (completed : D × G) (h : Heap D) (g : G)
        (r : ℕ × TableTovWeakTable S × Heap D × G) : Type 0 where
      pub outcome : Outcome t d completed h g r
      pub unique' : IsUnique r.1 r.2
      pub held : crate.Holds r.1.m r.0
      pub equal : deref_equal r.2 r.0 d ≡ true
      pub others : (q : ℕ) (x : D) → q < h.next → Live h q x → Live r.2 q x
      pub again : (q : ℕ) → crate.Holds t.m q → deref_equal h q d ≡ true → (r.0 ≡ q) × (r.3 ≡ g)

    -- an element of equal data is there
    module _ (t : TableTovWeakTable S) (d : D) (completed : D × G) (h : Heap D) (g : G)
        (u : IsUnique t h) (p : ℕ) (held : crate.Holds t.m p) (eq : deref_equal h p d ≡ true) where
      same_cells : (q : ℕ) → strong_deref (retain p h) q ≡ strong_deref h q
      same_cells q =
          let (x, l, e) = deref_equal-cases h p d eq in
          strong_deref-retain h p q (Live-there h p x l)

      hit-Shares : Shares t d completed h g (p, t, retain p h, g)
      unfolding deref_equal
      hit-Shares = record {
        outcome = found p held eq refl;
        unique' = record {
          bounded = λ q k. rw (next-retain h p) (u.bounded q k);
          unique = λ a b x y k l m n e.
              u.unique a b x y k l (sym (same_cells a) ∙ m) (sym (same_cells b) ∙ n) e;
        };
        held = held;
        equal = rw (deref_equal, same_cells p) eq;
        others = λ q x lt l. same_cells q ∙ l;
        again = λ q k e.
            let (x, l, f) = deref_equal-cases h p d eq in
            let (y, m, f') = deref_equal-cases h q d e in
            (u.unique p q x y held k l m (key.equal_trans x d y f (key.equal_symm d y ∙ f')), refl);
      }

    -- none is there, and one is made
    module _ (t : TableTovWeakTable S) (d d' : D) (h : Heap D) (g g' : G) (u : IsUnique t h)
        (no : (q : ℕ) → crate.Holds t.m q → deref_equal h q d ≡ false)
        (same : key.equal d' d ≡ true) where
      abbrev made : Heap D
      made = (new d' h).1

      abbrev kept : Heap D
      kept = retain h.next made

      abbrev grown : S
      grown = (crate.insert t.m h.next kept).0

      new-Live : Live made h.next d'
      new-Live = ground (arith, strong_deref-new d' h h.next)

      old_cells : (q : ℕ) → q < h.next → strong_deref made q ≡ strong_deref h q
      old_cells q lt =
          let other : (h.next == q) ≡ false = ground arith in
          strong_deref-new d' h q ∙ rw other refl

      kept_cells : (q : ℕ) → strong_deref kept q ≡ strong_deref made q
      kept_cells q = strong_deref-retain made h.next q (Live-there made h.next d' new-Live)

      clash : (q : ℕ) (x : D) → crate.Holds t.m q → Live h q x → key.equal x d' ≡ true → ⊥
      unfolding deref_equal
      clash q x k l e =
          let f = key.equal_trans x d' d e same in
          let n = no q k in absurd (ground (arith, l, f, n))

      all_differ : (q : ℕ) → crate.Holds t.m q → deref_equal kept q d' ≡ false
      all_differ q k = elim (Bool-cases (deref_equal kept q d')) [
        | inr e ↦ e
        | inl e ↦
            let (x, l, f) = deref_equal-cases kept q d' e in
            absurd (clash q x k (sym (old_cells q (u.bounded q k)) ∙ sym (kept_cells q) ∙ l) f)
      ]

      held_new : crate.Holds grown h.next
      held_new = crate.insert_added t.m h.next d' kept (kept_cells h.next ∙ new-Live) all_differ

      entry-cases :
          (q : ℕ) (b : D)
          → crate.Holds grown q
          → Live made q b
          → (crate.Holds t.m q × Live h q b) ⊎ ((q ≡ h.next) × (b ≡ d'))
      entry-cases q b k l = elim (crate.insert_only t.m h.next q kept k) [
        | inl old ↦ inl (old, sym (old_cells q (u.bounded q old)) ∙ l)
        | inr e ↦
            let l' : Live made h.next b = subst (λ x. Live made x b) e l in
            inr (e, let o : some b ≡ some d' = sym l' ∙ new-Live in cc)
      ]

      unique_new :
          (p q : ℕ) (a b : D)
          → crate.Holds grown p
          → crate.Holds grown q
          → Live made p a
          → Live made q b
          → key.equal a b ≡ true
          → p ≡ q
      unique_new p q a b k l m n e = elim (entry-cases p a k m) [
        | inl (k', m') ↦ elim (entry-cases q b l n) [
          | inl (l', n') ↦ u.unique p q a b k' l' m' n' e
          | inr (f, g) ↦ absurd (clash p a k' m' (subst (λ x. key.equal a x ≡ true) g e))
        ]
        | inr (f, g) ↦ elim (entry-cases q b l n) [
          | inl (l', n') ↦
              absurd
                (clash q b l' n' (subst (λ x. key.equal b x ≡ true) g (key.equal_symm b a ∙ e)))
          | inr (f', g') ↦ f ∙ sym f'
        ]
      ]

      others_new : (q : ℕ) (x : D) → q < h.next → Live h q x → Live made q x
      others_new q x lt l = old_cells q lt ∙ l

      miss-Shares : Shares t d (d', g') h g (h.next, record { m = grown }, made, g')
      unfolding deref_equal
      miss-Shares = record {
        outcome = created (record { m = grown }) no refl;
        unique' = record {
          bounded = λ q k. elim (crate.insert_only t.m h.next q kept k) [
            | inl old ↦ omega (arith, next-new d' h, u.bounded q old)
            | inr e ↦ omega (arith, next-new d' h, e)
          ];
          unique = unique_new;
        };
        held = held_new;
        equal = rw (deref_equal, new-Live) same;
        others = others_new;
        again = λ q k e. let n = no q k in absurd cc;
      }

    insert_new_lem :
        (t : TableTovWeakTable S) (d : D) (m : CreationMeta D G) (h : Heap D) (g : G)
        → insert_new crate t d m h g ≡ (
          h.next,
          record { m = (crate.insert t.m h.next (retain h.next (new (m d g).0 h).1)).0 },
          (new (m d g).0 h).1,
          (m d g).1,
        )
    unfolding insert_new new
    insert_new_lem t d m h g =
        let made' = (new (m d g).0 h).1 in
        let grown' = (crate.insert t.m h.next (retain h.next made')).0 in
        let step : (c : ℕ × Heap D) → ℕ × TableTovWeakTable S × Heap D × G = λ c. (
          h.next,
          record { m = (crate.insert t.m c.0 c.1).0 },
          (crate.insert t.m c.0 c.1).1,
          (m d g).1,
        ) in
        ap step (strong_clone_lem made' h.next)
        ∙ ap (λ k. (h.next, record { m = grown' }, k, (m d g).1))
            (crate.insert_drops t.m h.next (retain h.next made') ∙ strong_drop-retain made' h.next)

    -- If no two elements that are there have equal data, and `creation_meta` leaves data equal to what
    -- they were, then `get_or_insert` returns the element of equal data, if there is one, with one more
    -- handle to it and `creation_meta` not called; and else a new object, made by one call of
    -- `creation_meta`, which is then an element. No object that was made before is changed, and again
    -- no two elements that are there have equal data, whatever the hash is.
    pub get_or_insert-Shares :
        (t : TableTovWeakTable S) (hash : ℕ) (d : D) (m : CreationMeta D G) (h : Heap D) (g : G)
        → IsUnique t h
        → key.equal (m d g).0 d ≡ true
        → Shares t d (m d g) h g (get_or_insert crate t hash d m h g)
    unfolding get_or_insert
    get_or_insert-Shares t hash d m h g u same = elim (crate.get_finds t.m d h) [
      | hit p held eq r ↦
          let run : get_or_insert crate t hash d m h g ≡ (p, t, retain p h, g) =
            let after : (crate.get t.m d h).1 ≡ retain p h = ap (λ x. x.1) r in
            rw (get_or_insert, r) (ap (λ k. (p, t, k, g)) after) in
          subst (Shares t d (m d g) h g) (sym run) (hit-Shares t d (m d g) h g u p held eq)
      | miss differ r ↦
          let after : (crate.get t.m d h).1 ≡ h = ap (λ x. x.1) r in
          let run : get_or_insert crate t hash d m h g ≡ insert_new crate t d m h g =
            rw (get_or_insert, r) (ap (λ k. insert_new crate t d m k g) after) in
          subst (Shares t d (m d g) h g) (sym (run ∙ insert_new_lem t d m h g))
            (miss-Shares t d (m d g).0 h g (m d g).1 u differ same)
    ]
