-- ===== src/Rewrite/Default.antt =====
-- A rewriter that overrides nothing gives every node back.
use hirpdag.Base.{ℕ, zero, suc, ◌<◌, ◌≡◌, refl, ap, ◌∙◌, Bool, true, Option, some, arith}
use hirpdag.Rewrite.{
  Rewriter, map_first, and_next, rewrite_node, hirpdag_rewrite, rewrite_each, rebuild,
  default_rewrite, default_rewriter,
}
use hirpdag.Serialize.Collected.{Child}
use hirpdag.Serialize.Nodes.{Nodes, IsDag, AllNodes, AllNodesIn}
use hirpdag.Value.{Value, Values, number, text, absent, present, vec, variant, node, nil, cons}

module _ {St : Type 0} (nodes : Nodes) (bound : ℕ) (rewriter : Rewriter St)
    (gives_back : (t p : ℕ) (st : St)
      → nodes.IsLive t p
      → nodes.creation_id t p < bound
      → rewriter t p st ≡ some (p, st)) where
  mutual
    unfolding hirpdag_rewrite rewrite_each AllNodes AllNodesIn

    rewrite_same :
        (v : Value) (st : St)
        → AllNodes (Child nodes bound) v
        → hirpdag_rewrite rewriter v st ≡ some (v, st)
    rewrite_same (number n) st h = refl
    rewrite_same (text s) st h = refl
    rewrite_same absent st h = refl
    rewrite_same (present v) st h = ap (map_first present) (rewrite_same v st h)
    rewrite_same (vec vs) st h = ap (map_first vec) (rewrite_each_same vs st h)
    rewrite_same (variant i v) st h = ap (map_first (variant i)) (rewrite_same v st h)
    rewrite_same (node t p) st h = ap (map_first (node t)) (gives_back t p st h.0 h.1)

    rewrite_each_same :
        (vs : Values) (st : St)
        → AllNodesIn (Child nodes bound) vs
        → rewrite_each rewriter vs st ≡ some (vs, st)
    rewrite_each_same nil st h = refl
    rewrite_each_same (cons v vs) st h =
        ap (λ o. and_next o λ w st'. map_first (cons w) (rewrite_each rewriter vs st'))
          (rewrite_same v st h.0)
        ∙ ap (map_first (cons v)) (rewrite_each_same vs st h.1)

module _ {St : Type 0} (same : Values → Values → Bool)
    (same_refl : (vs : Values) → same vs vs ≡ true) (make : ℕ → Values → St → Option (ℕ × St))
    (nodes : Nodes) where
  rewrite_node_same :
      (rewriter : Rewriter St) (t p : ℕ) (vs : Values) (st : St)
      → rewrite_each rewriter vs st ≡ some (vs, st)
      → rewrite_node same make rewriter t p vs st ≡ some (p, st)
  unfolding rewrite_node rebuild
  rewrite_node_same rewriter t p nil st e = refl
  rewrite_node_same rewriter t p (cons w ws) st e =
      ap (λ o. and_next o (rebuild same make t p (cons w ws))) e ∙ rw (same_refl (cons w ws)) refl

  -- A rewriter that overrides no method returns every live node as it is, whatever it is made of, and
  -- interns nothing; fuel above the creation ids is enough.
  pub default_rewriter_same :
      (fuel t p : ℕ) (st : St)
      → IsDag nodes
      → nodes.IsLive t p
      → nodes.creation_id t p < fuel
      → default_rewriter same make nodes fuel t p st ≡ some (p, st)
  unfolding default_rewriter default_rewrite
  default_rewriter_same zero t p st dag l h = absurd (omega arith)
  default_rewriter_same (suc fuel) t p st dag l h =
      rewrite_node_same (default_rewriter same make nodes fuel) t p (nodes.fields t p) st (
        rewrite_each_same nodes (nodes.creation_id t p) (default_rewriter same make nodes fuel)
          (λ u q st' m b. default_rewriter_same fuel u q st' dag m (omega arith)) (nodes.fields t p)
          st (dag.below t p l))
