-- ===== src/Hashcons/Interned.antt =====
-- Nodes that were all made by `hirpdag_hashcons`: nodes of equal data are one node.
use hirpdag.Base.{ℕ, ◌≡◌, some}
use hirpdag.Hashcons.{
  HirpdagStorage, storage_key, storage_hasher, compute_hirpdag_meta, storage_of, hirpdag_hashcons,
}
use hirpdag.Key.{Key, Hasher}
use hirpdag.Meta.{HirpdagMeta}
use hirpdag.Table.Canonical.{World}
use hirpdag.Table.Canonical.Interned.{IsInterned, get_or_insert-IsInterned}
use hirpdag.Table.Canonical.Steps.{IsCanonical}
use hirpdag.Table.Shared.{Table}

module _ {D : Type 0} ⦃key : Key D⦄ (hasher : Hasher D key) {TS : Type 0}
    (ops : Table (HirpdagStorage D) ℕ storage_key (storage_hasher hasher) TS) where
  pub hirpdag_hashcons-IsInterned :
      (w u : World TS (HirpdagStorage D) ℕ) (compute : D → HirpdagMeta) (node_data : D) (p : ℕ)
      → IsCanonical ops w
      → IsInterned ops w
      → hirpdag_hashcons hasher ops w.table compute node_data w.heap w.state
        ≡ some (p, u.table, u.heap, u.state)
      → IsInterned ops u
  unfolding hirpdag_hashcons
  hirpdag_hashcons-IsInterned w u compute node_data p c i run =
      get_or_insert-IsInterned ops (compute_hirpdag_meta compute) w u (storage_of node_data) p c i
        run
