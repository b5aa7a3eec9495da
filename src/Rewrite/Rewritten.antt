-- ===== src/Rewrite/Rewritten.antt =====
-- `default_rewrite` with a rewriter of any kind, where `Self::new` interns the fields as they are.
use mathlib.Core.Path.{subst}
use hirpdag.Base.{
  ℕ, suc, ◌+◌, ◌≡◌, refl, sym, ap, ◌∙◌, inl, inr, Bool, true, some, arith, Returns, Bool-cases,
}
use hirpdag.Rewrite.{Rewriter, and_next, rewrite_node, rewrite_each, rebuild, default_rewrite}
use hirpdag.Rewrite.Typed.{GoodFields, GivesLive, Gives, values_cost, LiveIn, rewrite_fields-Good}
use hirpdag.Serialize.Archive.{Interner, Keeps}
use hirpdag.Serialize.Nodes.{AllNodesIn, map-AllNodesIn}
use hirpdag.Serialize.Typed.{HasTypes}
use hirpdag.Serialize.Visit.{Keeps_refl, Keeps_trans}
use hirpdag.Serialize.Wire.{FieldTypes}
use hirpdag.Value.{Values, nil, cons}

module _ {St : Type 0} {schema : ℕ → FieldTypes} (interner : Interner schema St) where
  -- A node of the type `t` whose fields are those of `p`, rewritten; it is `p` itself if they are the
  -- same.
  pub record Rewritten (rewriter : Rewriter St) (t p left : ℕ) (st : St) (r : ℕ × St) : Type 0 where
    pub valid : interner.Valid left r.1
    pub keeps : Keeps (interner.view st) (interner.view r.1)
    pub is_live : (interner.view r.1).IsLive t r.0
    pub rewritten : Values
    pub after : St
    pub each : rewrite_each rewriter ((interner.view st).fields t p) st ≡ some (rewritten, after)
    pub has_types : HasTypes (schema t) rewritten
    pub same_fields : (interner.view r.1).fields t r.0 ≡ rewritten

  module _ (same : Values → Values → Bool)
      (same_sound : (vs ws : Values) → same vs ws ≡ true → vs ≡ ws) (rewriter : Rewriter St) where
    rebuild-Gives :
        (t p left : ℕ) (vs ws : Values) (st : St)
        → interner.Valid (suc left) st
        → (interner.view st).IsLive t p
        → (interner.view st).fields t p ≡ vs
        → GoodFields (schema t) (interner.view st) ws
        → Returns
            (rebuild same interner.hirpdag_hashcons t p vs ws st)
            (Gives interner left st (λ nodes q. nodes.IsLive t q × (nodes.fields t q ≡ ws)))
    unfolding rebuild
    rebuild-Gives t p left vs ws st valid l e good = elim (Bool-cases (same ws vs)) [
      | inl unchanged ↦ (
        (p, st),
        rw (rebuild, unchanged) refl,
        record {
          valid = interner.valid_fewer left st valid;
          keeps = Keeps_refl (interner.view st);
          good = (l, e ∙ sym (same_sound ws vs unchanged));
        },
      )
      | inr changed ↦
          let (r, run, (valid', l', f, keeps)) =
            interner.hashcons_lem left t ws st valid good.0 good.1 in
          (r, rw (rebuild, changed) run, record { valid = valid'; keeps = keeps; good = (l', f) })
    ]

    module _ (cost : ℕ → ℕ → ℕ) (gives_live : GivesLive interner cost rewriter) where
      rewrite_node-Rewritten :
          (t p left : ℕ) (vs : Values) (st : St)
          → interner.Valid (suc (values_cost cost vs) + left) st
          → (interner.view st).IsLive t p
          → (interner.view st).fields t p ≡ vs
          → AllNodesIn (LiveIn interner st) vs
          → HasTypes (schema t) vs
          → Returns
              (rewrite_node same interner.hirpdag_hashcons rewriter t p vs st)
              (Rewritten rewriter t p left st)
      unfolding rewrite_node rewrite_each values_cost
      rewrite_node-Rewritten t p left nil st valid l e live oks = (
        (p, st),
        refl,
        record {
          valid =
              interner.valid_fewer left st (subst (λ k. interner.Valid k st) (omega arith) valid);
          keeps = Keeps_refl (interner.view st);
          is_live = l;
          rewritten = nil;
          after = st;
          each = ap (λ vs. rewrite_each rewriter vs st) e;
          has_types = oks;
          same_fields = e;
        },
      )
      rewrite_node-Rewritten t p left (cons v vs) st valid l e live oks =
          let all = cons v vs in
          let ((ws, st'), run, g) =
            rewrite_fields-Good interner cost rewriter gives_live all (suc left) st
              (subst (λ k. interner.Valid k st) (omega arith) valid) live oks in
          let (r, run', g') =
            rebuild-Gives t p left all ws st' g.valid (g.keeps.still_live t p l)
              (g.keeps.same_fields t p l ∙ e) g.good in
          (
            r,
            ap (λ o. and_next o (rebuild same interner.hirpdag_hashcons t p all)) run ∙ run',
            record {
              valid = g'.valid;
              keeps =
                  Keeps_trans (interner.view st) (interner.view st') (interner.view r.1) g.keeps
                    g'.keeps;
              is_live = g'.good.0;
              rewritten = ws;
              after = st';
              each = ap (λ vs. rewrite_each rewriter vs st) e ∙ run;
              has_types = g.good.1;
              same_fields = g'.good.1;
            },
          )

      -- If each method of a rewriter gives a live node of its struct type, then default_rewrite of a
      -- live node does not panic, loses no node, and gives a live node of the same type whose fields
      -- are the rewritten fields of the node, each of the type that the struct declares for it.
      -- `cost t p` bounds how many nodes the method makes, and default_rewrite makes one more at most.
      pub default_rewrite-Rewritten :
          (t p left : ℕ) (st : St)
          → interner.Valid (suc (values_cost cost ((interner.view st).fields t p)) + left) st
          → (interner.view st).IsLive t p
          → Returns
              (default_rewrite same interner.hirpdag_hashcons (interner.view st) rewriter t p st)
              (Rewritten rewriter t p left st)
      unfolding default_rewrite
      default_rewrite-Rewritten t p left st valid l =
          let vs = (interner.view st).fields t p in
          let dag = interner.valid-IsDag _ st valid in
          rewrite_node-Rewritten t p left vs st valid l refl
            (map-AllNodesIn vs (λ u q b. b.0) (dag.below t p l))
            (interner.valid-HasTypes _ t p st valid l)
