-- ===== src/Serialize/NodeTable.antt =====
-- Reading back the node table: each entry becomes a node that stands for the same tree.
use hirpdag.Base.{
  ℕ, suc, ◌<◌, ◌≡◌, refl, ◌∙◌, some, List, [], ◌∷◌, ◌++◌, map, length, length-append, get_elem?,
  arith, ok, inl, inr, Bool-cases, ◌==◌,
}
use mathlib.Core.Path.{subst}
use hirpdag.Base.HashMap
use hirpdag.Serialize.Archive.{Keeps, NodeWire, serialize_nodes}
use hirpdag.Serialize.Collect.{HirpdagArchiveNode}
use hirpdag.Serialize.Collected.{IndexBelow, get_elem?-append_left, get_elem?-append_end}
use hirpdag.Serialize.Denoted.{Keeps-Denotes}
use hirpdag.Serialize.Nodes.{
  Nodes, IsDag, AllNodesIn, Tree, Trees, Denotes, DenoteAll, node_denotes, node_tree,
}
use hirpdag.Serialize.ReadBack.{Matches}
use hirpdag.Serialize.Wire.{HirpdagNodeRef}
use hirpdag.Serialize.Written.{wires_of, serialize_each-wires_of}
use hirpdag.Value.{node}

module _ (nodes : Nodes) (seen : List (ℕ × ℕ)) where
  abbrev pub node_wire : HirpdagArchiveNode → NodeWire
  node_wire e = record {
    node_type = e.struct_type;
    field_wires = wires_of nodes seen e.data_fields;
  }

  pub serialize_nodes-wires :
      (es : List HirpdagArchiveNode)
      → ((j : ℕ) (e : HirpdagArchiveNode)
          → get_elem? es j ≡ some e
          → (k : ℕ) × AllNodesIn (IndexBelow nodes seen k) e.data_fields)
      → serialize_nodes nodes.creation_id (some seen) es ≡ ok (map node_wire es)
  unfolding serialize_nodes
  serialize_nodes-wires [] h = refl
  serialize_nodes-wires (e ∷ es) h =
      let (k, a) = h 0 e refl in
      let f = serialize_each-wires_of nodes seen k e.data_fields a in
      let g = serialize_nodes-wires es (λ j x m. h (suc j) x m) in rw (f, g) refl

module _ (nodes : Nodes) (seen : List (ℕ × ℕ)) (dag : IsDag nodes) where
  -- One more node, read back as `p'` from the entry with the index `length refs`
  module _ (after : Nodes) (refs : List HirpdagNodeRef) (t p p' : ℕ) (l : nodes.IsLive t p)
      (single : (u q i : ℕ)
        → HashMap.lookup (nodes.creation_id u q) seen ≡ some i
        → i ≡ length refs
        → nodes.creation_id u q ≡ nodes.creation_id t p)
      (new : (ts : Trees)
        → DenoteAll nodes (nodes.fields t p) ts
        → Denotes after (node t p') (node_tree t ts)) where
    abbrev pub more : List HirpdagNodeRef
    more = refs ++ record { ref_struct = t; address = p' } ∷ []

    matches_last :
        (u q i : ℕ) (a : Tree)
        → HashMap.lookup (nodes.creation_id u q) seen ≡ some i
        → i ≡ length refs
        → Denotes nodes (node u q) a
        → (r : ℕ) × (get_elem? more i ≡ some (record { ref_struct = u; address = r }))
          × Denotes after (node u r) a
    matches_last u q i a f at (node_denotes u' q' {ts} l' ds) =
        let (su, sq) = dag.distinct u q t p l' l (single u q i f at) in
        let ds' : DenoteAll nodes (nodes.fields t p) ts =
          subst (λ x. DenoteAll nodes (nodes.fields t x) ts) sq
            (subst (λ x. DenoteAll nodes (nodes.fields x q) ts) su ds) in
        (
          p',
          rw (at, su) (get_elem?-append_end refs (record { ref_struct = t; address = p' })),
          rw su (new ts ds'),
        )

    pub matches_more :
        (before : Nodes)
        → Keeps before after
        → Matches nodes seen before refs
        → Matches nodes seen after more
    matches_more before keeps m u q i a f below d =
        let long = length-append refs (record { ref_struct = t; address = p' } ∷ []) in
        elim (Bool-cases (i == length refs)) [
          | inl same ↦ matches_last u q i a f (ground arith) d
          | inr other ↦
              let less : i < length refs = ground (arith, long) in
              let (r, at, d') = m u q i a f less d in
              (r, get_elem?-append_left refs _ i less ∙ at, Keeps-Denotes before after keeps d')
        ]
