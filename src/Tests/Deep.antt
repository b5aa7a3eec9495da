-- ===== src/Tests/Deep.antt =====
-- The theorem on deep comparison, on two leaves with the numbers 9 and 4 and two nodes above them, of which
-- the first points to the leaf with 4 and the other to the leaf with 9.
use Prim.Native.Nat.{compare, Ordering}
use hirpdag.Base.{ℕ, zero, suc, ◌<◌, ◌≡◌, ◌≢◌, refl, if◌then◌else◌, ltb, ◌==◌, arith}
use hirpdag.Serialize.Deep
use hirpdag.Serialize.Deep.{hirpdag_cmp_deep, hirpdag_cmp_deep_by_creation}
use hirpdag.Serialize.Nodes.{Nodes, IsDag, AllNodes, AllNodesIn}
use hirpdag.Value.{Values, number, node, nil, cons}

abbrev type_of : ℕ → ℕ
type_of p = if ltb p 2 then 0 else 1

abbrev child : ℕ → ℕ
child p = if p == 2 then 1 else 0

abbrev fields : ℕ → ℕ → Values
fields zero p = cons (number (if p == 0 then 9 else 4)) nil
fields (suc t) p = cons (node 0 (child p)) nil

abbrev nodes : Nodes
nodes = record {
  IsLive = λ t p. (p < 4) × (t ≡ type_of p);
  creation_id = λ t p. p;
  fields = fields;
}

abbrev IsBelow : ℕ → ℕ → ℕ → Type 0
IsBelow p u q = nodes.IsLive u q × (q < p)

nodes-IsBelow : (t p : ℕ) → nodes.IsLive t p → AllNodesIn (IsBelow p) (nodes.fields t p)
unfolding AllNodesIn AllNodes
nodes-IsBelow zero p l = (tt, tt)
nodes-IsBelow (suc t) p l = (((ground (arith, l), ground (arith, l)), ground (arith, l)), tt)

nodes-IsDag : IsDag nodes
nodes-IsDag = record { below = nodes-IsBelow; distinct = λ t p u q l m e. (cc, e) }

hirpdag_cmp_deep_by_creation_example :
    (hirpdag_cmp_deep nodes 1 2 3 ≡ compare 1 0) × (hirpdag_cmp_deep nodes 1 2 3 ≢ Ordering.eq)
unfolding Deep.prepend
hirpdag_cmp_deep_by_creation_example =
    hirpdag_cmp_deep_by_creation nodes 1 2 3 0 1 0 nil nil nil nodes-IsDag (omega arith, refl)
      (omega arith, refl) refl refl (omega arith)

leaves_run : hirpdag_cmp_deep nodes 0 1 0 ≡ Ordering.lt
unfolding hirpdag_cmp_deep Deep.values_cmp Deep.value_cmp
leaves_run = refl

deep_run : hirpdag_cmp_deep nodes 1 2 3 ≡ Ordering.gt
unfolding hirpdag_cmp_deep Deep.values_cmp Deep.value_cmp Deep.node_cmp
deep_run = refl
