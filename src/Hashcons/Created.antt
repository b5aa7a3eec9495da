-- ===== src/Hashcons/Created.antt =====
-- What `hirpdag_hashcons` returns: an existing node of equal data, or a new one.
use hirpdag.Base.{ℕ, ◌+◌, ◌%◌, ◌^◌, ◌≡◌, refl, true, false, Returns}
use hirpdag.Hashcons.{
  HirpdagStorage, storage_key, storage_hasher, compute_hirpdag_meta, storage_of, hirpdag_hashcons,
}
use hirpdag.Key.{Key, Hasher}
use hirpdag.Meta.{HirpdagMeta}
use hirpdag.Ref.{Heap, new}
use hirpdag.Ref.Laws.{Live, retain}
use hirpdag.Table.Canonical.{Completes, World}
use hirpdag.Table.Canonical.Steps.{IsCanonical, deref_equal_inv}
use hirpdag.Table.Interface.{Grows, old, fresh}
use hirpdag.Table.WeakEntry.{deref_equal}
use hirpdag.Table.Shared.{Table}

module _ {D : Type 0} ⦃key : Key D⦄ where
  -- The closure leaves the data alone.
  pub compute_hirpdag_meta-Completes :
      (compute : D → HirpdagMeta) → Completes storage_key (compute_hirpdag_meta compute)
  unfolding compute_hirpdag_meta
  compute_hirpdag_meta-Completes compute s g = key.equal_refl s.hirpdag_data

module _ {D : Type 0} ⦃key : Key D⦄ (hasher : Hasher D key) {TS : Type 0}
    (ops : Table (HirpdagStorage D) ℕ storage_key (storage_hasher hasher) TS) where
  -- the entry of a table for the data of a node, by their hash
  abbrev pub EntryOf : TS → D → ℕ → Type 0
  EntryOf t node_data p = ops.Entry t ((storage_hasher hasher).hash_one (storage_of node_data)) p

  -- the node that a call returns, and what the call changed: the entry of equal data, if there is one,
  -- and only else a new node, which is added to the table
  pub data Consed (w : World TS (HirpdagStorage D) ℕ) (compute : D → HirpdagMeta) (node_data : D)
      (r : ℕ × TS × Heap (HirpdagStorage D) × ℕ) : Type 0 where
    existing :
        (p : ℕ) (s : HirpdagStorage D)
        → EntryOf w.table node_data p
        → Live w.heap p s
        → key.equal s.hirpdag_data node_data ≡ true
        → r ≡ (p, w.table, retain p w.heap, w.state)
        → Consed w compute node_data r
    created :
        (t : TS) (s : HirpdagStorage D)
        → ((p : ℕ)
            → EntryOf w.table node_data p
            → deref_equal w.heap p (storage_of node_data) ≡ false)
        → Grows
            (ops.Entry w.table)
            w.heap
            ((storage_hasher hasher).hash_one (storage_of node_data))
            w.heap.next
            (ops.Entry t)
        → s.hirpdag_meta ≡ compute node_data
        → s.hirpdag_creation_id ≡ w.state
        → s.hirpdag_data ≡ node_data
        → r ≡ (w.heap.next, t, (new s w.heap).1, (w.state + 1) % 2 ^ 64)
        → Consed w compute node_data r

  -- Over a canonical table a call does not panic. If the table has an entry of equal data whose node
  -- is there, it returns that node, with no creation id used and no change but one more handle. If
  -- it has none, it returns a new node with the given data, the metadata computed from it and the
  -- next creation id; the node is an entry of the table from then on, and the other entries whose
  -- nodes are there stay.
  pub hirpdag_hashcons-Consed :
      (w : World TS (HirpdagStorage D) ℕ) (compute : D → HirpdagMeta) (node_data : D)
      → IsCanonical ops w
      → Returns
          (hirpdag_hashcons hasher ops w.table compute node_data w.heap w.state)
          (Consed w compute node_data)
  unfolding hirpdag_hashcons storage_of compute_hirpdag_meta
  hirpdag_hashcons-Consed w compute node_data c =
      let (r, run, post) =
        ops.get_or_insert_interns w.table (storage_of node_data) (compute_hirpdag_meta compute)
          w.heap w.state c.valid c.entries.bounded in
      elim post [
        | old p e same eq ↦
            let (s, l, n) = deref_equal_inv w.heap p (storage_of node_data) same in
            (r, run, existing p s e l n eq)
        | fresh t absent v grows eq ↦ (r, run, created t _ absent grows refl refl refl eq)
      ]
