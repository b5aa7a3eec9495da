-- ===== src/Hashcons/Order.antt =====
-- The order of handles by creation id.
use Prim.Native.Nat.{compare, Ordering}
use hirpdag.Base.{ℕ, ◌≡◌, ◌↔◌, true, none, some, arith, ◌==◌, if◌then◌else◌}
use hirpdag.Hashcons.{
  HirpdagStorage, storage_key, storage_hasher, hirpdag_hashcons, hirpdag_get_creation_id, ref_eq,
  ref_cmp,
}
use hirpdag.Hashcons.Created.{existing, created, hirpdag_hashcons-Consed}
use hirpdag.Hashcons.Numbered.{IsNumbered, IsHashconsed}
use hirpdag.Key.{Key, Hasher}
use hirpdag.Meta.{HirpdagMeta}
use hirpdag.Ref.{Heap, new, strong_deref, strong_ptr_eq}
use hirpdag.Ref.Laws.{Live, strong_deref-new}
use hirpdag.Table.Canonical.{World}
use hirpdag.Table.Shared.{Table}

module _ {D : Type 0} (h : Heap (HirpdagStorage D)) where
  -- Of two live nodes, `cmp` compares the creation ids, unless they are one node.
  ref_cmp_lem :
      (p q : ℕ) (s r : HirpdagStorage D)
      → Live h p s
      → Live h q r
      → ref_cmp h p q ≡ (
          if p == q
          then some Ordering.eq
          else some (compare s.hirpdag_creation_id r.hirpdag_creation_id))
  unfolding ref_cmp ref_eq strong_ptr_eq hirpdag_get_creation_id
  ref_cmp_lem p q s r l m = ground arith

  module _ (counter : ℕ) (n : IsNumbered h counter) where
    -- Where every live node has a creation id of its own, handles of live nodes compare as equal
    -- exactly if they are one node, as `PartialEq` has it; swapped, they compare the other way; and
    -- `Less` is transitive.
    pub ref_cmp_order :
        (p q k : ℕ) (s r x : HirpdagStorage D)
        → Live h p s
        → Live h q r
        → Live h k x
        → ((ref_cmp h p q ≡ some Ordering.eq) ↔ (ref_eq p q ≡ true))
          × ((ref_cmp h p q ≡ some Ordering.lt) ↔ (ref_cmp h q p ≡ some Ordering.gt))
          × (ref_cmp h p q ≡ some Ordering.lt
              → ref_cmp h q k ≡ some Ordering.lt
              → ref_cmp h p k ≡ some Ordering.lt)
    unfolding ref_eq strong_ptr_eq
    ref_cmp_order p q k s r x l m o =
        let pq = ref_cmp_lem p q s r l m in
        let qp = ref_cmp_lem q p r s m l in
        let qk = ref_cmp_lem q k r x m o in
        let pk = ref_cmp_lem p k s x l o in
        (
          ground (arith, pq, n.distinct p q s r),
          ground (arith, pq, qp),
          ground (arith, pq, qk, pk, n.distinct p q s r),
        )

module _ {D : Type 0} ⦃key : Key D⦄ (hasher : Hasher D key) {TS : Type 0}
    (ops : Table (HirpdagStorage D) ℕ storage_key (storage_hasher hasher) TS) where
  -- If `hirpdag_hashcons` returns a node that was not live before, then every node that was live
  -- before, its children among them, compares as less than it.
  pub ref_cmp-hashcons :
      (w u : World TS (HirpdagStorage D) ℕ) (compute : D → HirpdagMeta) (node_data : D) (p q : ℕ)
      (s : HirpdagStorage D)
      → IsHashconsed hasher ops w
      → hirpdag_hashcons hasher ops w.table compute node_data w.heap w.state
        ≡ some (p, u.table, u.heap, u.state)
      → strong_deref w.heap p ≡ none
      → Live w.heap q s
      → ref_cmp u.heap q p ≡ some Ordering.lt
  ref_cmp-hashcons w u compute node_data p q s c run new_one l =
      let (r, run', post) = hirpdag_hashcons-Consed hasher ops w compute node_data c.canonical in
      elim post [
        | existing k x here lk same eq ↦ ground arith
        | created t x absent grows meta id content eq ↦
            let heap : (new x w.heap).1 ≡ u.heap = ground arith in
            let at : w.heap.next ≡ p = ground arith in
            let lp : Live (new x w.heap).1 p x = ground (arith, strong_deref-new x w.heap p) in
            let lq : Live (new x w.heap).1 q s = ground (arith, strong_deref-new x w.heap q) in
            rw (← heap)
              (ground (arith, ref_cmp_lem (new x w.heap).1 q p s x lq lp, c.numbered.below q s l))
      ]
