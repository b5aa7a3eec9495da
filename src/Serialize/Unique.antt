-- ===== src/Serialize/Unique.antt =====
-- Over hash-consed nodes, values that stand for the same trees are the same handles.
use hirpdag.Base.{ℕ, ◌≡◌, refl, ap}
use hirpdag.Serialize.Nodes.{
  Nodes, Tree, Trees, Denotes, DenoteAll, number_denotes, text_denotes, absent_denotes,
  present_denotes, vec_denotes, variant_denotes, node_denotes, nil_denotes, cons_denotes,
}
use hirpdag.Value.{Value, Values, present, vec, variant, node, cons}

module _ (nodes : Nodes)
    (unique : (t p q : ℕ)
      → nodes.IsLive t p
      → nodes.IsLive t q
      → nodes.fields t p ≡ nodes.fields t q
      → p ≡ q) where
  mutual
    Denotes-unique : {v w : Value} {a : Tree} → Denotes nodes v a → Denotes nodes w a → v ≡ w
    Denotes-unique (number_denotes n) (number_denotes m) = refl
    Denotes-unique (text_denotes s) (text_denotes r) = refl
    Denotes-unique absent_denotes absent_denotes = refl
    Denotes-unique (present_denotes d) (present_denotes e) = ap present (Denotes-unique d e)
    Denotes-unique (vec_denotes ds) (vec_denotes es) = ap vec (DenoteAll-unique ds es)
    Denotes-unique (variant_denotes i d) (variant_denotes j e) = ap (variant i) (Denotes-unique d e)
    Denotes-unique (node_denotes t p l ds) (node_denotes u q m es) =
        ap (node t) (unique t p q l m (DenoteAll-unique ds es))

    pub DenoteAll-unique :
        {vs ws : Values} {ts : Trees} → DenoteAll nodes vs ts → DenoteAll nodes ws ts → vs ≡ ws
    DenoteAll-unique nil_denotes nil_denotes = refl
    DenoteAll-unique (cons_denotes d ds) (cons_denotes e es) =
        λ i. cons (Denotes-unique d e i) (DenoteAll-unique ds es i)
