-- ===== src/Table/Canonical/Steps.antt =====
-- What a program that uses a shared table can rely on, whatever it does between two calls.
use hirpdag.Base.{Bool, ℕ, ◌<◌, ◌≤◌, ◌≡◌, ◌≢◌, ◌∙◌, sym, true, false, Option, none, some, arith}
use mathlib.Core.Path.{subst}
use hirpdag.Key.{Key, Hasher}
use hirpdag.Ref.{Heap, new, strong_deref, strong_drop}
use hirpdag.Ref.Laws.{
  Live, retain, strong_deref-retain, next-retain, strong_deref-new, strong_deref_of_drop, next-drop,
  next-new,
}
use hirpdag.Table.Canonical.{
  IsUnique, Completes, World, Step, interned, looked_up, cloned, dropped, was_reset,
}
use hirpdag.Table.Canonical.Invariant.{IsUnique-retain, IsUnique-drop, IsUnique-new}
use hirpdag.Table.Interface.{Grows, CreationMeta, hit, miss, old, fresh}
use hirpdag.Table.Shared.{Table}
use hirpdag.Table.WeakEntry.{alive, deref_equal}

module _ {D : Type 0} ⦃key : Key D⦄ where
  pub deref_equal_inv :
      (h : Heap D) (p : ℕ) (d : D)
      → deref_equal h p d ≡ true
      → (x : D) × Live h p x × (key.equal x d ≡ true)
  unfolding deref_equal
  deref_equal_inv h p d m = ground arith

  pub Live-alive : (h : Heap D) (p : ℕ) (x : D) → Live h p x → alive h p ≡ true
  unfolding alive
  Live-alive h p x l = ground arith

  pub alive-there : (h : Heap D) (p : ℕ) → alive h p ≡ true → strong_deref h p ≢ none
  unfolding alive
  alive-there h p a e = ground arith

module _ {D G : Type 0} ⦃key : Key D⦄ {hasher : Hasher D key} {TS : Type 0}
    (ops : Table D G key hasher TS) where
  pub record IsCanonical (w : World TS D G) : Type 0 where
    pub valid : ops.IsValid w.table
    pub entries : IsUnique hasher (ops.Entry w.table) w.heap

  -- What one step leaves of an object: an entry keeps its place while its object is there, and no
  -- object of before comes back or changes its data.
  pub record Keeps (w u : World TS D G) : Type 0 where
    pub later : w.heap.next ≤ u.heap.next
    pub same_data : (p : ℕ) (x : D) → p < w.heap.next → Live u.heap p x → Live w.heap p x
    pub entry : (k p : ℕ) → ops.Entry w.table k p → alive u.heap p ≡ true → ops.Entry u.table k p
    pub canonical : IsCanonical u

  -- A table that has just been built is canonical over any heap.
  pub built-IsCanonical :
      (h : Heap D) (g : G)
      → IsCanonical (record { table = ops.build_tableshared; heap = h; state = g })
  built-IsCanonical h g = record {
    valid = ops.build_tableshared-IsValid;
    entries = record {
      bounded = λ k p e. absurd (ops.build_tableshared_empty k p e);
      hashed = λ k p x e l. absurd (ops.build_tableshared_empty k p e);
      unique = λ j p k q x y e f l m s. absurd (ops.build_tableshared_empty j p e);
    };
  }

  pub Keeps-refl : (w : World TS D G) → IsCanonical w → Keeps w w
  Keeps-refl w c = record {
    later = omega arith;
    same_data = λ p x _ l. l;
    entry = λ k p e _. e;
    canonical = c;
  }

  module _ (w : World TS D G) (c : IsCanonical w) where
    Keeps-retain :
        (p : ℕ) → strong_deref w.heap p ≢ none → Keeps w (record w { heap = retain p w.heap })
    Keeps-retain p there = record {
      later = omega (arith, next-retain w.heap p);
      same_data = λ q x _ l. sym (strong_deref-retain w.heap p q there) ∙ l;
      entry = λ k q e _. e;
      canonical = record {
        valid = c.valid;
        entries = IsUnique-retain hasher (ops.Entry w.table) w.heap p there c.entries;
      };
    }

    Keeps-drop : (p : ℕ) → Keeps w (record w { heap = strong_drop p w.heap })
    Keeps-drop p = record {
      later = omega (arith, next-drop w.heap p);
      same_data = λ q x _ l. strong_deref_of_drop w.heap p q x l;
      entry = λ k q e _. e;
      canonical = record {
        valid = c.valid;
        entries = IsUnique-drop hasher (ops.Entry w.table) w.heap p c.entries;
      };
    }

    Keeps-found :
        (p : ℕ) (d : D)
        → deref_equal w.heap p d ≡ true
        → Keeps w (record w { heap = retain p w.heap })
    unfolding deref_equal
    Keeps-found p d q = Keeps-retain p (λ e. ground arith)

    Keeps-fresh :
        (m : CreationMeta D G) (completes : Completes key m) (d : D) (t : TS)
        → ((p : ℕ) → ops.Entry w.table (hasher.hash_one d) p → deref_equal w.heap p d ≡ false)
        → ops.IsValid t
        → Grows (ops.Entry w.table) w.heap (hasher.hash_one d) w.heap.next (ops.Entry t)
        → Keeps w
            (record { table = t; heap = (new (m d w.state).0 w.heap).1; state = (m d w.state).1 })
    unfolding alive
    Keeps-fresh m completes d t absent v grows =
        let c' = (m d w.state).0 in
        record {
          later = omega (arith, next-new c' w.heap);
          same_data = λ p x lt l. ground (arith, strong_deref-new c' w.heap p);
          entry = λ k p e a.
              grows.kept k p e
                (ground (arith, strong_deref-new c' w.heap p, c.entries.bounded k p e));
          canonical = record {
            valid = v;
            entries =
                IsUnique-new hasher (ops.Entry w.table) (ops.Entry t) w.heap d c'
                  (completes d w.state) absent grows c.entries;
          };
        }

  pub World-ext :
      (w u : World TS D G) → w.table ≡ u.table → w.heap ≡ u.heap → w.state ≡ u.state → w ≡ u
  World-ext w u t h g = λ i. record { table = t i; heap = h i; state = g i }

  pub interned-Keeps :
      (m : CreationMeta D G)
      → Completes key m
      → (w u : World TS D G) (d : D) (p : ℕ) → IsCanonical w
      → ops.get_or_insert w.table d m w.heap w.state ≡ some (p, u.table, u.heap, u.state)
      → Keeps w u
  interned-Keeps m completes w u d p c run =
      let (r, run', post) =
        ops.get_or_insert_interns w.table d m w.heap w.state c.valid c.entries.bounded in
      elim post [
        | old q e same eq ↦
            subst (Keeps w)
              (World-ext (record w { heap = retain q w.heap }) u (ground arith) (ground arith)
                (ground arith))
              (Keeps-found w c q d same)
        | fresh t absent v grows eq ↦
            subst (Keeps w) (World-ext _ u (ground arith) (ground arith) (ground arith))
              (Keeps-fresh w c m completes d t absent v grows)
      ]

  looked_up-Keeps :
      (w : World TS D G) (d : D) (r : Option ℕ) (h : Heap D)
      → IsCanonical w
      → ops.get w.table d w.heap ≡ some (r, h)
      → Keeps w (record w { heap = h })
  looked_up-Keeps w d r h c run =
      let (x, run', post) = ops.get_finds w.table d w.heap c.valid in
      elim post [
        | hit p e same eq ↦
            subst (λ k. Keeps w (record w { heap = k })) (ground arith) (Keeps-found w c p d same)
        | miss absent eq ↦
            subst (λ k. Keeps w (record w { heap = k })) (ground arith) (Keeps-refl w c)
      ]

  pub Step-Keeps : (w u : World TS D G) → IsCanonical w → Step ops false w u → Keeps w u
  unfolding retain
  Step-Keeps w u c (interned m completes d p run) = interned-Keeps m completes w u d p c run
  Step-Keeps w u c (looked_up d r h run e) = subst (Keeps w) (sym e) (looked_up-Keeps w d r h c run)
  Step-Keeps w u c (cloned p a e) =
      subst (Keeps w) (sym e) (Keeps-retain w c p (alive-there w.heap p a))
  Step-Keeps w u c (dropped p e) = subst (Keeps w) (sym e) (Keeps-drop w c p)
  Step-Keeps w u c (was_reset never e) = absurd cc

  -- What any step leaves, a reset among them: the table is canonical, and no object of before comes
  -- back or changes its data.
  pub record Survives (w u : World TS D G) : Type 0 where
    pub later : w.heap.next ≤ u.heap.next
    pub same_data : (p : ℕ) (x : D) → p < w.heap.next → Live u.heap p x → Live w.heap p x
    pub canonical : IsCanonical u

  pub Keeps-Survives : (w u : World TS D G) → Keeps w u → Survives w u
  Keeps-Survives w u k = record {
    later = k.later;
    same_data = k.same_data;
    canonical = k.canonical;
  }

  reset-Survives :
      (w : World TS D G) → IsCanonical w → Survives w (record w { table = ops.reset w.table })
  reset-Survives w c = record {
    later = omega arith;
    same_data = λ p x _ l. l;
    canonical = record {
      valid = ops.reset-IsValid w.table c.valid;
      entries = record {
        bounded = λ k p e. absurd (ops.reset_empty w.table k p e);
        hashed = λ k p x e l. absurd (ops.reset_empty w.table k p e);
        unique = λ j p k q x y e f l m s. absurd (ops.reset_empty w.table j p e);
      };
    };
  }

  pub Step-Survives :
      (resets : Bool) (w u : World TS D G) → IsCanonical w → Step ops resets w u → Survives w u
  Step-Survives resets w u c (interned m completes d p run) =
      Keeps-Survives w u (Step-Keeps w u c (interned m completes d p run))
  Step-Survives resets w u c (looked_up d r h run e) =
      Keeps-Survives w u (Step-Keeps w u c (looked_up d r h run e))
  Step-Survives resets w u c (cloned p a e) = Keeps-Survives w u (Step-Keeps w u c (cloned p a e))
  Step-Survives resets w u c (dropped p e) = Keeps-Survives w u (Step-Keeps w u c (dropped p e))
  Step-Survives resets w u c (was_reset may e) = subst (Survives w) (sym e) (reset-Survives w c)
