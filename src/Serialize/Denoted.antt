-- ===== src/Serialize/Denoted.antt =====
-- Every value of live nodes stands for a tree, and goes on to stand for it when nodes are added.
use hirpdag.Base.{ℕ, zero, suc, ◌<◌, sym, arith}
use mathlib.Core.Path.{subst}
use hirpdag.Serialize.Archive.{Keeps}
use hirpdag.Serialize.Collected.{Child}
use hirpdag.Serialize.Nodes.{
  Nodes, IsDag, AllNodes, AllNodesIn, Tree, Trees, Denotes, DenoteAll, number_tree, text_tree,
  absent_tree, present_tree, vec_tree, variant_tree, node_tree, nil_trees, cons_trees,
  number_denotes, text_denotes, absent_denotes, present_denotes, vec_denotes, variant_denotes,
  node_denotes, nil_denotes, cons_denotes,
}
use hirpdag.Value.{Value, Values, number, text, absent, present, vec, variant, node, nil, cons}

module _ (nodes other : Nodes) (keeps : Keeps nodes other) where
  mutual
    pub Keeps-Denotes : {v : Value} {a : Tree} → Denotes nodes v a → Denotes other v a
    Keeps-Denotes (number_denotes n) = number_denotes n
    Keeps-Denotes (text_denotes s) = text_denotes s
    Keeps-Denotes absent_denotes = absent_denotes
    Keeps-Denotes (present_denotes d) = present_denotes (Keeps-Denotes d)
    Keeps-Denotes (vec_denotes ds) = vec_denotes (Keeps-DenoteAll ds)
    Keeps-Denotes (variant_denotes i d) = variant_denotes i (Keeps-Denotes d)
    Keeps-Denotes (node_denotes t p {ts} l ds) =
        node_denotes t p (keeps.still_live t p l)
          (subst (λ vs. DenoteAll other vs ts) (sym (keeps.same_fields t p l)) (Keeps-DenoteAll ds))

    pub Keeps-DenoteAll : {vs : Values} {ts : Trees} → DenoteAll nodes vs ts → DenoteAll other vs ts
    Keeps-DenoteAll nil_denotes = nil_denotes
    Keeps-DenoteAll (cons_denotes d ds) = cons_denotes (Keeps-Denotes d) (Keeps-DenoteAll ds)

module _ (nodes : Nodes) where
  mutual
    unfolding AllNodes AllNodesIn

    Denotes-AllNodes : {v : Value} {a : Tree} → Denotes nodes v a → AllNodes nodes.IsLive v
    Denotes-AllNodes (number_denotes n) = tt
    Denotes-AllNodes (text_denotes s) = tt
    Denotes-AllNodes absent_denotes = tt
    Denotes-AllNodes (present_denotes d) = Denotes-AllNodes d
    Denotes-AllNodes (vec_denotes ds) = DenoteAll-AllNodesIn ds
    Denotes-AllNodes (variant_denotes i d) = Denotes-AllNodes d
    Denotes-AllNodes (node_denotes t p l ds) = l

    pub DenoteAll-AllNodesIn :
        {vs : Values} {ts : Trees} → DenoteAll nodes vs ts → AllNodesIn nodes.IsLive vs
    DenoteAll-AllNodesIn nil_denotes = tt
    DenoteAll-AllNodesIn (cons_denotes d ds) = (Denotes-AllNodes d, DenoteAll-AllNodesIn ds)

  module _ (bound : ℕ)
      (below : (t p : ℕ)
        → nodes.IsLive t p
        → nodes.creation_id t p < bound
        → (a : Tree) × Denotes nodes (node t p) a) where
    mutual
      unfolding AllNodes AllNodesIn

      denoted : (v : Value) → AllNodes (Child nodes bound) v → (a : Tree) × Denotes nodes v a
      denoted (number n) h = (number_tree n, number_denotes n)
      denoted (text s) h = (text_tree s, text_denotes s)
      denoted absent h = (absent_tree, absent_denotes)
      denoted (present v) h = let (a, d) = denoted v h in (present_tree a, present_denotes d)
      denoted (vec vs) h = let (ts, ds) = all_denoted vs h in (vec_tree ts, vec_denotes ds)
      denoted (variant i v) h = let (a, d) = denoted v h in (variant_tree i a, variant_denotes i d)
      denoted (node t p) h = below t p h.0 h.1

      all_denoted :
          (vs : Values) → AllNodesIn (Child nodes bound) vs → (ts : Trees) × DenoteAll nodes vs ts
      all_denoted nil h = (nil_trees, nil_denotes)
      all_denoted (cons v vs) h =
          let (a, d) = denoted v h.0 in
          let (ts, ds) = all_denoted vs h.1 in (cons_trees a ts, cons_denotes d ds)

  module _ (dag : IsDag nodes) where
    node_denoted :
        (fuel t p : ℕ)
        → nodes.IsLive t p
        → nodes.creation_id t p < fuel
        → (a : Tree) × Denotes nodes (node t p) a
    node_denoted zero t p l h = absurd (omega arith)
    node_denoted (suc fuel) t p l h =
        let (ts, ds) =
          all_denoted (nodes.creation_id t p) (λ u q m b. node_denoted fuel u q m (omega arith))
            (nodes.fields t p) (dag.below t p l) in
        (node_tree t ts, node_denotes t p l ds)

    pub fields_denoted :
        (t p : ℕ) → nodes.IsLive t p → (ts : Trees) × DenoteAll nodes (nodes.fields t p) ts
    fields_denoted t p l =
        all_denoted (nodes.creation_id t p)
          (λ u q m b. node_denoted (nodes.creation_id t p) u q m b) (nodes.fields t p)
          (dag.below t p l)

    -- Values with handles to live nodes stand for trees.
    pub live_denoted :
        (fuel : ℕ) (vs : Values)
        → AllNodesIn (Child nodes fuel) vs
        → (ts : Trees) × DenoteAll nodes vs ts
    live_denoted fuel vs h = all_denoted fuel (λ u q m b. node_denoted fuel u q m b) vs h
