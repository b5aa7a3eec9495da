-- ===== src/Serialize/Nodes.antt =====
-- The nodes that a value reaches, and the tree that it stands for.
use hirpdag.Base.{ℕ, ◌<◌, ◌≡◌, List}
use hirpdag.Value.{Value, Values, number, text, absent, present, vec, variant, node, nil, cons}

-- The live nodes: of the node `p` of the struct type `t`, its creation id and its fields.
pub record Nodes : Type (0 + 1) where
  pub IsLive : ℕ → ℕ → Type 0
  pub creation_id : ℕ → ℕ → ℕ
  pub fields : ℕ → ℕ → Values

unfoldable mutual
  -- All handles in a value satisfy `P`.
  pub AllNodes : (ℕ → ℕ → Type 0) → Value → Type 0
  AllNodes P (number n) = Unit
  AllNodes P (text s) = Unit
  AllNodes P absent = Unit
  AllNodes P (present v) = AllNodes P v
  AllNodes P (vec vs) = AllNodesIn P vs
  AllNodes P (variant i v) = AllNodes P v
  AllNodes P (node t p) = P t p

  pub AllNodesIn : (ℕ → ℕ → Type 0) → Values → Type 0
  AllNodesIn P nil = Unit
  AllNodesIn P (cons v vs) = AllNodes P v × AllNodesIn P vs

-- What every program state has: handles point to live nodes; a node is made after those that it
-- points to, and creation ids are not used twice.
pub record IsDag (nodes : Nodes) : Type 0 where
  pub below :
      (t p : ℕ)
      → nodes.IsLive t p
      → AllNodesIn
          (λ u q. nodes.IsLive u q × (nodes.creation_id u q < nodes.creation_id t p))
          (nodes.fields t p)
  pub distinct :
      (t p u q : ℕ)
      → nodes.IsLive t p
      → nodes.IsLive u q
      → nodes.creation_id t p ≡ nodes.creation_id u q
      → (t ≡ u) × (p ≡ q)

-- The tree that a value stands for: each handle is the tree of its node.
mutual
  pub data Tree : Type 0 where
    number_tree : ℕ → Tree
    text_tree : List ℕ → Tree
    absent_tree : Tree
    present_tree : Tree → Tree
    vec_tree : Trees → Tree
    variant_tree : ℕ → Tree → Tree
    node_tree : ℕ → Trees → Tree

  pub data Trees : Type 0 where
    nil_trees : Trees
    cons_trees : Tree → Trees → Trees

mutual
  pub data Denotes (nodes : Nodes) : Value → Tree → Type 0 where
    number_denotes : (n : ℕ) → Denotes nodes (number n) (number_tree n)
    text_denotes : (s : List ℕ) → Denotes nodes (text s) (text_tree s)
    absent_denotes : Denotes nodes absent absent_tree
    present_denotes :
        {v : Value} {a : Tree} → Denotes nodes v a → Denotes nodes (present v) (present_tree a)
    vec_denotes :
        {vs : Values} {ts : Trees} → DenoteAll nodes vs ts → Denotes nodes (vec vs) (vec_tree ts)
    variant_denotes :
        (i : ℕ) {v : Value} {a : Tree}
        → Denotes nodes v a
        → Denotes nodes (variant i v) (variant_tree i a)
    node_denotes :
        (t p : ℕ) {ts : Trees}
        → nodes.IsLive t p
        → DenoteAll nodes (nodes.fields t p) ts
        → Denotes nodes (node t p) (node_tree t ts)

  pub data DenoteAll (nodes : Nodes) : Values → Trees → Type 0 where
    nil_denotes : DenoteAll nodes nil nil_trees
    cons_denotes :
        {v : Value} {vs : Values} {a : Tree} {ts : Trees}
        → Denotes nodes v a
        → DenoteAll nodes vs ts
        → DenoteAll nodes (cons v vs) (cons_trees a ts)

mutual
  unfolding AllNodes AllNodesIn

  pub map-AllNodes :
      {P Q : ℕ → ℕ → Type 0} (v : Value) → ((t p : ℕ) → P t p → Q t p) → AllNodes P v → AllNodes Q v
  map-AllNodes (number n) f h = tt
  map-AllNodes (text s) f h = tt
  map-AllNodes absent f h = tt
  map-AllNodes (present v) f h = map-AllNodes v f h
  map-AllNodes (vec vs) f h = map-AllNodesIn vs f h
  map-AllNodes (variant i v) f h = map-AllNodes v f h
  map-AllNodes (node t p) f h = f t p h

  pub map-AllNodesIn :
      {P Q : ℕ → ℕ → Type 0} (vs : Values)
      → ((t p : ℕ) → P t p → Q t p)
      → AllNodesIn P vs
      → AllNodesIn Q vs
  map-AllNodesIn nil f h = tt
  map-AllNodesIn (cons v vs) f h = (map-AllNodes v f h.0, map-AllNodesIn vs f h.1)
