-- ===== src/Table/Canonical/Sharing.antt =====
-- The hash-consing guarantee: equal data are one object for as long as it is there.
use mathlib.Core.Path.{subst, subst₂}
use hirpdag.Base.{
  ℕ, Bool, ◌⊎◌, ◌≡◌, ◌≢◌, ◌∙◌, inl, inr, true, false, some, arith, Bool-cases, Returns,
}
use hirpdag.Key.{Key, Hasher}
use hirpdag.Ref.{Heap, new, strong_ptr_eq}
use hirpdag.Ref.Laws.{Live, retain, strong_deref-retain, strong_deref-new}
use hirpdag.Table.Canonical.{Completes, World, Reach, here, next}
use hirpdag.Table.Canonical.Steps.{
  IsCanonical, Keeps, Survives, Keeps-Survives, Step-Survives, Keeps-refl, Step-Keeps, World-ext,
  interned-Keeps, deref_equal_inv, Live-alive,
}
use hirpdag.Table.Interface.{CreationMeta, old, fresh}
use hirpdag.Table.Shared.{Table}
use hirpdag.Table.WeakEntry.{alive, deref_equal}

module _ {D G : Type 0} ⦃key : Key D⦄ {hasher : Hasher D key} {TS : Type 0}
    (ops : Table D G key hasher TS) where
  alive_inv : (h : Heap D) (p : ℕ) → alive h p ≡ true → (x : D) × Live h p x
  unfolding alive
  alive_inv h p a = ground arith

  Keeps-trans :
      (w u v : World TS D G) → IsCanonical ops w → Keeps ops w u → Keeps ops u v → Keeps ops w v
  Keeps-trans w u v c a b = record {
    later = omega (arith, a.later, b.later);
    same_data = λ p x lt l. a.same_data p x lt (b.same_data p x (omega (arith, a.later)) l);
    entry = λ k p e there.
        let (x, l) = alive_inv v.heap p there in
        let lt = c.entries.bounded k p e in
        b.entry k p
          (a.entry k p e (Live-alive u.heap p x (b.same_data p x (omega (arith, a.later)) l)))
          there;
    canonical = b.canonical;
  }

  Reach-Keeps : (w u : World TS D G) → IsCanonical ops w → Reach ops false w u → Keeps ops w u
  Reach-Keeps w u c here = Keeps-refl ops w c
  Reach-Keeps w v c (next {u} r s) =
      let k = Reach-Keeps w u c r in Keeps-trans w u v c k (Step-Keeps ops u v k.canonical s)

  unreset-Keeps :
      (resets : Bool) (w u : World TS D G)
      → IsCanonical ops w
      → Reach ops resets w u
      → resets ≡ false
      → Keeps ops w u
  unreset-Keeps resets w u c r e = Reach-Keeps w u c (subst (λ b. Reach ops b w u) e r)

  any-Survives :
      (resets : Bool) (w u : World TS D G)
      → IsCanonical ops w
      → Reach ops resets w u
      → Survives ops w u
  any-Survives resets w u c here = Keeps-Survives ops w w (Keeps-refl ops w c)
  any-Survives resets w v c (next {u} r s) =
      let a = any-Survives resets w u c r in
      let b = Step-Survives ops resets u v a.canonical s in
      record {
        later = omega (arith, a.later, b.later);
        same_data = λ p x lt l. a.same_data p x lt (b.same_data p x (omega (arith, a.later)) l);
        canonical = b.canonical;
      }

  -- Over a canonical table, any calls of get_or_insert and get, clones, drops and, if `resets` allows
  -- them, resets leave it canonical: entries of equal data whose objects are there are one object.
  -- No object of before comes back or changes its data. If no reset is allowed, an entry keeps its
  -- place for as long as its object is there.
  pub Reach-Survives :
      (resets : Bool) (w u : World TS D G)
      → IsCanonical ops w
      → Reach ops resets w u
      → Survives ops w u × ((resets ≡ true) ⊎ Keeps ops w u)
  Reach-Survives resets w u c r = (
    any-Survives resets w u c r,
    elim (Bool-cases resets) [
      | inl may ↦ inl may
      | inr never ↦ inr (unreset-Keeps resets w u c r never)
    ],
  )

  -- `p` is the entry of `d`.
  record Stands (w : World TS D G) (p : ℕ) (d : D) : Type 0 where
    entry : ops.Entry w.table (hasher.hash_one d) p
    content : D
    live : Live w.heap p content
    near : key.equal content d ≡ true

  Stands-old :
      (w : World TS D G) (q : ℕ) (d : D)
      → ops.Entry w.table (hasher.hash_one d) q
      → deref_equal w.heap q d ≡ true
      → Stands (record w { heap = retain q w.heap }) q d
  Stands-old w q d e same =
      let (x, l, n) = deref_equal_inv w.heap q d same in
      record {
        entry = e;
        content = x;
        live = strong_deref-retain w.heap q q (λ z. cc) ∙ l;
        near = n;
      }

  interned-Stands :
      (m : CreationMeta D G)
      → Completes key m
      → (w u : World TS D G) (d : D) (p : ℕ) → IsCanonical ops w
      → ops.get_or_insert w.table d m w.heap w.state ≡ some (p, u.table, u.heap, u.state)
      → Stands u p d
  interned-Stands m completes w u d p c run =
      let (r, run', post) =
        ops.get_or_insert_interns w.table d m w.heap w.state c.valid c.entries.bounded in
      elim post [
        | old q e same eq ↦
            let at : q ≡ p = ground arith in
            subst₂ (λ z k. Stands z k d)
              (World-ext ops (record w { heap = retain q w.heap }) u (ground arith) (ground arith)
                (ground arith))
              at (Stands-old w q d e same)
        | fresh t absent v grows eq ↦
            let c' = (m d w.state).0 in
            let at : w.heap.next ≡ p = ground arith in
            subst₂ (λ z k. Stands z k d)
              (World-ext ops
                (record { table = t; heap = (new c' w.heap).1; state = (m d w.state).1 }) u
                (ground arith) (ground arith) (ground arith))
              at
              (record {
                entry = grows.added;
                content = c';
                live = ground (arith, strong_deref-new c' w.heap w.heap.next);
                near = completes d w.state;
              })
      ]

  -- While the object is there, it stands where it stood.
  Stands-Keeps :
      (u v : World TS D G) (p : ℕ) (d : D)
      → IsCanonical ops u
      → Keeps ops u v
      → Stands u p d
      → alive v.heap p ≡ true
      → Stands v p d
  Stands-Keeps u v p d c k s there =
      let (y, l) = alive_inv v.heap p there in
      let was = k.same_data p y (c.entries.bounded _ p s.entry) l in
      record {
        entry = k.entry _ p s.entry there;
        content = y;
        live = l;
        near = ground (arith, s.live, s.near);
      }

  -- What `get_or_insert` of `e` returns where the entry `p` of `d` stands.
  again :
      (m : CreationMeta D G) (v : World TS D G) (p : ℕ) (d e : D)
      → IsCanonical ops v
      → Stands v p d
      → key.equal d e ≡ true
      → ops.get_or_insert v.table e m v.heap v.state ≡ some (p, v.table, retain p v.heap, v.state)
  unfolding deref_equal
  again m v p d e c s same =
      let (r, run, post) =
        ops.get_or_insert_interns v.table e m v.heap v.state c.valid c.entries.bounded in
      let near_e = key.equal_trans s.content d e s.near same in
      let at_e : ops.Entry v.table (hasher.hash_one e) p =
        rw (hasher.hash-equal d e same) at s.entry in
      elim post [
        | old q en match eq ↦
            let (y, l, n) = deref_equal_inv v.heap q e match in
            let one : p ≡ q =
              c.entries.unique _ p _ q s.content y at_e en s.live l
                (key.equal_trans s.content e y near_e (key.equal_symm e y ∙ n)) in
            ground arith
        | fresh t absent v' grows eq ↦ ground (arith, absent p at_e, s.live, near_e)
      ]

  apart :
      (m : CreationMeta D G) (v : World TS D G) (p : ℕ) (d e : D)
      → IsCanonical ops v
      → Stands v p d
      → key.equal d e ≡ false
      → Returns (ops.get_or_insert v.table e m v.heap v.state) λ r. p ≢ r.0
  apart m v p d e c s other =
      let (r, run, post) =
        ops.get_or_insert_interns v.table e m v.heap v.state c.valid c.entries.bounded in
      elim post [
        | old q en match eq ↦
            let (y, l, n) = deref_equal_inv v.heap q e match in
            (
              r,
              run,
              λ one. ground (
                arith,
                s.live,
                s.near,
                key.equal_symm s.content d,
                key.equal_trans d s.content e,
              ),
            )
        | fresh t absent v' grows eq ↦
            (r, run, λ one. ground (arith, c.entries.bounded _ p s.entry))
      ]

  -- In a canonical table `d` was interned as `p`. Whatever is interned, looked up, cloned and dropped
  -- afterwards, with no reset, as long as `p` is there, `get_or_insert` of equal data returns `p` once more, with one more handle to it and no other
  -- change: `creation_meta` is not called.
  pub interned_again :
      (m m' : CreationMeta D G)
      → Completes key m
      → (w u v : World TS D G) (d e : D) (p : ℕ) → IsCanonical ops w
      → ops.get_or_insert w.table d m w.heap w.state ≡ some (p, u.table, u.heap, u.state)
      → Reach ops false u v
      → alive v.heap p ≡ true
      → key.equal d e ≡ true
      → ops.get_or_insert v.table e m' v.heap v.state ≡ some (p, v.table, retain p v.heap, v.state)
  interned_again m m' completes w u v d e p c run r there same =
      let first = interned-Keeps ops m completes w u d p c run in
      let later = Reach-Keeps u v first.canonical r in
      again m' v p d e later.canonical
        (Stands-Keeps u v p d first.canonical later (interned-Stands m completes w u d p c run)
          there)
        same

  -- In a canonical table `d` was interned as `p`. Whatever is interned, looked up, cloned and dropped
  -- afterwards, with no reset, as long as `p` is there, `get_or_insert` of `e` does not panic, and the handle that it returns is pointer-equal to `p`
  -- exactly if `e` is equal to `d`.
  pub strong_ptr_eq-iff-equal :
      (m m' : CreationMeta D G)
      → Completes key m
      → (w u v : World TS D G) (d e : D) (p : ℕ) → IsCanonical ops w
      → ops.get_or_insert w.table d m w.heap w.state ≡ some (p, u.table, u.heap, u.state)
      → Reach ops false u v
      → alive v.heap p ≡ true
      → Returns
          (ops.get_or_insert v.table e m' v.heap v.state)
          λ r. strong_ptr_eq p r.0 ≡ key.equal d e
  unfolding strong_ptr_eq
  strong_ptr_eq-iff-equal m m' completes w u v d e p c run r there =
      let first = interned-Keeps ops m completes w u d p c run in
      let later = Reach-Keeps u v first.canonical r in
      let s =
        Stands-Keeps u v p d first.canonical later (interned-Stands m completes w u d p c run)
          there in
      elim (Bool-cases (key.equal d e)) [
        | inl same ↦ (_, again m' v p d e later.canonical s same, ground arith)
        | inr other ↦
            let (x, run', differ) = apart m' v p d e later.canonical s other in
            (x, run', ground arith)
      ]
