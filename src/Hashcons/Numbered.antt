-- ===== src/Hashcons/Numbered.antt =====
-- Creation ids: every node has one of its own, below the counter.
use mathlib.Core.Path.{subst}
use hirpdag.Base.{ℕ, ◌+◌, ◌<◌, ◌≤◌, ◌^◌, ◌≡◌, refl, ◌∙◌, sym, true, some, arith}
use hirpdag.Hashcons.{
  HirpdagStorage, storage_key, storage_hasher, compute_hirpdag_meta, storage_of, hirpdag_hashcons,
}
use hirpdag.Hashcons.Created.{
  existing, created, hirpdag_hashcons-Consed, compute_hirpdag_meta-Completes,
}
use hirpdag.Key.{Key, Hasher}
use hirpdag.Meta.{HirpdagMeta}
use hirpdag.Ref.{Heap, new, strong_clone, strong_drop}
use hirpdag.Ref.Laws.{Live, retain, strong_deref-retain, strong_deref-new, strong_deref_of_drop}
use hirpdag.Table.Canonical.{World, cloned, dropped}
use hirpdag.Hashcons.Interned.{hirpdag_hashcons-IsInterned}
use hirpdag.Table.Canonical.Interned.{IsInterned, IsInterned-unique, IsInterned-mono}
use hirpdag.Table.Canonical.Steps.{
  IsCanonical, built-IsCanonical, Step-Keeps, interned-Keeps, alive-there,
}
use hirpdag.Table.Shared.{Table}
use hirpdag.Table.WeakEntry.{alive}

module _ {D : Type 0} where
  pub record IsNumbered (h : Heap (HirpdagStorage D)) (counter : ℕ) : Type 0 where
    pub below : (p : ℕ) (s : HirpdagStorage D) → Live h p s → s.hirpdag_creation_id < counter
    pub distinct :
        (p q : ℕ) (s r : HirpdagStorage D)
        → Live h p s
        → Live h q r
        → s.hirpdag_creation_id ≡ r.hirpdag_creation_id
        → p ≡ q

  IsNumbered-mono :
      (h k : Heap (HirpdagStorage D)) (counter later : ℕ)
      → ((p : ℕ) (s : HirpdagStorage D) → Live k p s → Live h p s)
      → counter ≤ later
      → IsNumbered h counter
      → IsNumbered k later
  IsNumbered-mono h k counter later sub le n = record {
    below = λ p s l. omega (arith, n.below p s (sub p s l));
    distinct = λ p q s r l m e. n.distinct p q s r (sub p s l) (sub q r m) e;
  }

  IsNumbered-new :
      (h : Heap (HirpdagStorage D)) (counter : ℕ) (s : HirpdagStorage D)
      → s.hirpdag_creation_id ≡ counter
      → IsNumbered h counter
      → IsNumbered (new s h).1 (counter + 1)
  IsNumbered-new h counter s id n = record {
    below = λ p r l. ground (arith, strong_deref-new s h p, n.below p r);
    distinct = λ p q r r' l m e. ground (
      arith,
      strong_deref-new s h p,
      strong_deref-new s h q,
      n.below p r,
      n.below q r',
      n.distinct p q r r',
    );
  }

module _ {D : Type 0} ⦃key : Key D⦄ (hasher : Hasher D key) {TS : Type 0}
    (ops : Table (HirpdagStorage D) ℕ storage_key (storage_hasher hasher) TS) where
  -- What a program does with the nodes of one struct type: it makes one, clones or drops a handle;
  -- and nodes of other types take creation ids. The counter stays below its range.
  pub data Call (w u : World TS (HirpdagStorage D) ℕ) : Type 0 where
    hashconsed :
        (compute : D → HirpdagMeta) (node_data : D) (p : ℕ)
        → w.state + 1 < 2 ^ 64
        → hirpdag_hashcons hasher ops w.table compute node_data w.heap w.state
          ≡ some (p, u.table, u.heap, u.state)
        → Call w u
    ref_cloned :
        (p : ℕ)
        → alive w.heap p ≡ true
        → u ≡ record w { heap = (strong_clone p w.heap).1 }
        → Call w u
    ref_dropped : (p : ℕ) → u ≡ record w { heap = strong_drop p w.heap } → Call w u
    elsewhere : (n : ℕ) → w.state ≤ n → u ≡ record w { state = n } → Call w u

  pub data Calls (w : World TS (HirpdagStorage D) ℕ) : World TS (HirpdagStorage D) ℕ → Type 0 where
    here : Calls w w
    next : {u v : World TS (HirpdagStorage D) ℕ} → Calls w u → Call u v → Calls w v

  -- Live nodes of equal data are one node, and live nodes have creation ids of their own; every live
  -- node is an entry of the table.
  pub record IsHashconsed (w : World TS (HirpdagStorage D) ℕ) : Type 0 where
    pub one_node :
        (p q : ℕ) (s r : HirpdagStorage D)
        → Live w.heap p s
        → Live w.heap q r
        → key.equal s.hirpdag_data r.hirpdag_data ≡ true
        → p ≡ q
    pub numbered : IsNumbered w.heap w.state
    pub canonical : IsCanonical ops w
    pub interned_nodes : IsInterned ops w

  IsHashconsed-of :
      (w : World TS (HirpdagStorage D) ℕ)
      → IsCanonical ops w
      → IsInterned ops w
      → IsNumbered w.heap w.state
      → IsHashconsed w
  IsHashconsed-of w c i n = record {
    one_node = λ p q s r l m e. IsInterned-unique ops w p q s r c i l m e;
    numbered = n;
    canonical = c;
    interned_nodes = i;
  }

  -- at first there are no nodes
  pub built-IsHashconsed :
      (h : Heap (HirpdagStorage D)) (counter : ℕ)
      → ((p : ℕ) (s : HirpdagStorage D) → ¬ Live h p s)
      → IsHashconsed (record { table = ops.build_tableshared; heap = h; state = counter })
  built-IsHashconsed h counter no_nodes =
      IsHashconsed-of (record { table = ops.build_tableshared; heap = h; state = counter })
        (built-IsCanonical ops h counter) (λ p s l. absurd (no_nodes p s l))
        (record {
          below = λ p s l. absurd (no_nodes p s l);
          distinct = λ p q s r l m e. absurd (no_nodes p s l);
        })

  hashconsed-IsNumbered :
      (w u : World TS (HirpdagStorage D) ℕ) (compute : D → HirpdagMeta) (node_data : D) (p : ℕ)
      → w.state + 1 < 2 ^ 64
      → IsHashconsed w
      → hirpdag_hashcons hasher ops w.table compute node_data w.heap w.state
        ≡ some (p, u.table, u.heap, u.state)
      → IsNumbered u.heap u.state
  hashconsed-IsNumbered w u compute node_data p room c run =
      let (r, run', post) = hirpdag_hashcons-Consed hasher ops w compute node_data c.canonical in
      elim post [
        | existing q s entry l same eq ↦
            let heap : retain q w.heap ≡ u.heap = ground arith in
            subst (λ h. IsNumbered h u.state) heap
              (IsNumbered-mono w.heap (retain q w.heap) w.state u.state
                (λ k x m. sym (strong_deref-retain w.heap q k (λ z. cc)) ∙ m) (ground arith)
                c.numbered)
        | created t s absent grows meta id content eq ↦
            let heap : (new s w.heap).1 ≡ u.heap = ground arith in
            let counter : w.state + 1 ≡ u.state = ground arith in
            subst (λ h. IsNumbered h u.state) heap
              (subst (λ n. IsNumbered (new s w.heap).1 n) counter
                (IsNumbered-new w.heap w.state s id c.numbered))
      ]

  -- Fewer nodes are live, and nothing else changes.
  fewer :
      (w : World TS (HirpdagStorage D) ℕ) (h : Heap (HirpdagStorage D))
      → IsHashconsed w
      → ((p : ℕ) (s : HirpdagStorage D) → Live h p s → Live w.heap p s)
      → IsCanonical ops (record w { heap = h })
      → IsHashconsed (record w { heap = h })
  fewer w h c sub canonical =
      IsHashconsed-of (record w { heap = h }) canonical
        (IsInterned-mono ops w (record w { heap = h }) refl sub c.interned_nodes)
        (IsNumbered-mono w.heap h w.state w.state sub (omega arith) c.numbered)

  Call-IsHashconsed :
      (w u : World TS (HirpdagStorage D) ℕ) → IsHashconsed w → Call w u → IsHashconsed u
  unfolding hirpdag_hashcons retain
  Call-IsHashconsed w u c (hashconsed compute node_data p room run) =
      IsHashconsed-of u
        (interned-Keeps ops (compute_hirpdag_meta compute) (compute_hirpdag_meta-Completes compute)
          w u (storage_of node_data) p c.canonical run).canonical
        (hirpdag_hashcons-IsInterned hasher ops w u compute node_data p c.canonical c.interned_nodes
          run)
        (hashconsed-IsNumbered w u compute node_data p room c run)
  Call-IsHashconsed w u c (ref_cloned p a e) = subst IsHashconsed (sym e) (
      fewer w (retain p w.heap) c
        (λ k x m. sym (strong_deref-retain w.heap p k (alive-there w.heap p a)) ∙ m)
        (Step-Keeps ops w _ c.canonical (cloned p a refl)).canonical)
  Call-IsHashconsed w u c (ref_dropped p e) = subst IsHashconsed (sym e) (
      fewer w (strong_drop p w.heap) c (λ k x m. strong_deref_of_drop w.heap p k x m)
        (Step-Keeps ops w _ c.canonical (dropped p refl)).canonical)
  Call-IsHashconsed w u c (elsewhere n le e) = subst IsHashconsed (sym e) (
      IsHashconsed-of (record w { state = n })
        (record { valid = c.canonical.valid; entries = c.canonical.entries }) c.interned_nodes
        (IsNumbered-mono w.heap w.heap w.state n (λ k x m. m) le c.numbered))

  -- From a state of which this holds, as a table that was just built over no nodes is: whatever nodes a
  -- program makes, clones and drops, as long as no table is reset and the creation counter stays
  -- below `2 ^ 64`, live nodes of equal data are one node, every live node has a
  -- creation id of its own, and that id is below the counter.
  pub Calls-IsHashconsed :
      (w u : World TS (HirpdagStorage D) ℕ) → IsHashconsed w → Calls w u → IsHashconsed u
  Calls-IsHashconsed w u c here = c
  Calls-IsHashconsed w v c (next {u} r s) = Call-IsHashconsed u v (Calls-IsHashconsed w u c r) s
