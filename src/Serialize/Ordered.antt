-- ===== src/Serialize/Ordered.antt =====
-- The collect phase ends, with every node that it reaches in the table, children first.
use hirpdag.Base.{
  ℕ, zero, suc, ◌+◌, ◌≡◌, refl, none, some, length, arith, inl, inr, true, false, Returns,
  Option-cases,
}
use hirpdag.Base.HashMap
use hirpdag.Serialize.Collect.{
  HirpdagCollectCtx, new_ctx, collect_each, collect_ref, contains_key, push_node,
  hirpdag_collect_archive,
}
use hirpdag.Serialize.Collected.{
  IsCollected, IndexBelow, Grows-refl, Grows-trans, Child, Visits, collect_each-Grows, pushed-Grows,
  entry_of,
}
use hirpdag.Serialize.Nodes.{Nodes, IsDag, AllNodesIn}
use hirpdag.Value.{Values}

module _ (nodes : Nodes) where
  abbrev after_push : ℕ → ℕ → HirpdagCollectCtx → HirpdagCollectCtx
  after_push t p ctx = push_node (nodes.creation_id t p) (entry_of nodes t p) ctx

  seen_true :
      (a i : ℕ) (ctx : HirpdagCollectCtx)
      → HashMap.lookup a ctx.seen ≡ some i
      → contains_key a ctx.seen ≡ true
  unfolding contains_key
  seen_true a i ctx e = rw (contains_key, e) refl

  seen_false :
      (a : ℕ) (ctx : HirpdagCollectCtx)
      → HashMap.lookup a ctx.seen ≡ none
      → contains_key a ctx.seen ≡ false
  unfolding contains_key
  seen_false a ctx e = rw (contains_key, e) refl

  ref_seen :
      (fuel t p i : ℕ) (ctx : HirpdagCollectCtx)
      → HashMap.lookup (nodes.creation_id t p) ctx.seen ≡ some i
      → collect_ref nodes (suc fuel) t p ctx ≡ some ctx
  unfolding collect_ref
  ref_seen fuel t p i ctx e = let b = seen_true (nodes.creation_id t p) i ctx e in rw b refl

  ref_new :
      (fuel t p : ℕ) (ctx ctx' : HirpdagCollectCtx)
      → HashMap.lookup (nodes.creation_id t p) ctx.seen ≡ none
      → collect_each (collect_ref nodes fuel) (nodes.fields t p) ctx ≡ some ctx'
      → collect_ref nodes (suc fuel) t p ctx ≡ some (after_push t p ctx')
  unfolding collect_ref
  ref_new fuel t p ctx ctx' e run =
      let b = seen_false (nodes.creation_id t p) ctx e in rw (b, run) refl

  start_lem : IsCollected nodes new_ctx.seen new_ctx.nodes
  unfolding HashMap.lookup
  start_lem = record {
    indexed = λ a i e. absurd (ground arith);
    named = λ i l. absurd (omega arith);
    single = λ a b i e. absurd (ground arith);
    children_first = λ i e f. absurd (ground arith);
  }

  module _ (dag : IsDag nodes) where
    collect_ref-Visits : (fuel : ℕ) → Visits nodes fuel (collect_ref nodes fuel)
    collect_ref-Visits zero t p ctx l h k = absurd (omega arith)
    collect_ref-Visits (suc fuel) t p ctx l h k =
        let id = nodes.creation_id t p in
        elim (Option-cases (HashMap.lookup id ctx.seen)) [
          | inr (i, e) ↦
              let (u, q, m, same, at, below) = k.indexed id i e in
              (ctx, ref_seen fuel t p i ctx e, (Grows-refl nodes (id + 1) ctx k, (i, e, below)))
          | inl e ↦
              let (ctx', run, (g, s)) =
                collect_each-Grows nodes fuel (collect_ref nodes fuel) (collect_ref-Visits fuel) id
                  (omega arith) (nodes.fields t p) ctx (dag.below t p l) k in
              let new : HashMap.lookup id ctx'.seen ≡ none =
                elim (Option-cases (HashMap.lookup id ctx'.seen)) [
                  | inl n ↦ n
                  | inr (i, n) ↦ elim (g.only_below id i n) [
                    | inl old ↦ cc
                    | inr less ↦ absurd (omega arith)
                  ]
                ] in
              let (g', s') = pushed-Grows nodes t p ctx' g.valid new l s in
              (
                after_push t p ctx',
                ref_new fuel t p ctx ctx' e run,
                (
                  Grows-trans nodes id (id + 1) ctx ctx' (after_push t p ctx') (omega arith) g g',
                  s',
                ),
              )
        ]

    -- The collect phase returns, from whatever roots, if the fuel is above the creation ids of their
    -- handles. The node table has every node that the roots point to or that an entry points to,
    -- once, behind the nodes that it points to itself, and the index map has the entries' indices.
    pub collect_archive-IsCollected :
        (fuel : ℕ) (roots : Values)
        → AllNodesIn (Child nodes fuel) roots
        → Returns
            (hirpdag_collect_archive nodes fuel roots)
            (λ r. IsCollected nodes r.1 r.0 × AllNodesIn (IndexBelow nodes r.1 (length r.0)) roots)
    unfolding hirpdag_collect_archive
    collect_archive-IsCollected fuel roots h =
        let (ctx, run, (g, s)) =
          collect_each-Grows nodes fuel (collect_ref nodes fuel) (collect_ref-Visits fuel) fuel
            (omega arith) roots new_ctx h start_lem in
        ((ctx.nodes, ctx.seen), rw (hirpdag_collect_archive, run) refl, (g.valid, s))
