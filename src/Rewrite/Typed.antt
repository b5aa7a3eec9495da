-- ===== src/Rewrite/Typed.antt =====
-- Rewriting a value of a field type, with a rewriter of any kind that keeps the types of handles.
use mathlib.Core.Path.{subst}
use hirpdag.Base.{ℕ, ◌+◌, ◌≡◌, refl, ap, ◌∙◌, Option, arith, Returns}
use hirpdag.Rewrite.{Rewriter, map_first, and_next, hirpdag_rewrite, rewrite_each}
use hirpdag.Serialize.Archive.{Interner, Keeps}
use hirpdag.Serialize.Nodes.{Nodes, AllNodes, AllNodesIn, map-AllNodes, map-AllNodesIn}
use hirpdag.Serialize.Typed.{
  HasType, EachHasType, HasTypes, present_ok, vec_ok, variant_ok, ref_ok, nil_ok, cons_ok,
  no_fields, field_ok,
}
use hirpdag.Serialize.Visit.{Keeps_refl, Keeps_trans}
use hirpdag.Serialize.Wire.{FieldType, FieldTypes, ref_type, enum_type, option_type, vec_type}
use hirpdag.Value.{Value, Values, number, text, absent, present, vec, variant, node, nil, cons}

abbrev pub Good : FieldType → Nodes → Value → Type 0
Good ft nodes v = AllNodes nodes.IsLive v × HasType ft v

abbrev GoodItems : FieldType → Nodes → Values → Type 0
GoodItems ft nodes vs = AllNodesIn nodes.IsLive vs × EachHasType ft vs

abbrev pub GoodFields : FieldTypes → Nodes → Values → Type 0
GoodFields fts nodes vs = AllNodesIn nodes.IsLive vs × HasTypes fts vs

-- At most so many nodes are made where a value is rewritten, if `cost t p` are made for a handle.
unfoldable mutual
  pub value_cost : (ℕ → ℕ → ℕ) → Value → ℕ
  value_cost cost (number n) = 0
  value_cost cost (text s) = 0
  value_cost cost absent = 0
  value_cost cost (present v) = value_cost cost v
  value_cost cost (vec vs) = values_cost cost vs
  value_cost cost (variant i v) = value_cost cost v
  value_cost cost (node t p) = cost t p

  pub values_cost : (ℕ → ℕ → ℕ) → Values → ℕ
  values_cost cost nil = 0
  values_cost cost (cons v vs) = value_cost cost v + values_cost cost vs

module _ {St : Type 0} {schema : ℕ → FieldTypes} (interner : Interner schema St) where
  abbrev pub LiveIn : St → ℕ → ℕ → Type 0
  LiveIn st = (interner.view st).IsLive

  -- a result that is as `P` says, in a state that has every node of `st`
  pub record Gives {A : Type 0} (left : ℕ) (st : St) (P : Nodes → A → Type 0) (r : A × St)
      : Type 0 where
    pub valid : interner.Valid left r.1
    pub keeps : Keeps (interner.view st) (interner.view r.1)
    pub good : P (interner.view r.1) r.0

  module _ {A B : Type 0} (left : ℕ) (st : St) (P : Nodes → A → Type 0)
      (Q : Nodes → B → Type 0) where
    map_first-Gives :
        (f : A → B) (o : Option (A × St))
        → ((a : A) (st' : St) → Gives left st P (a, st') → Q (interner.view st') (f a))
        → Returns o (Gives left st P)
        → Returns (map_first f o) (Gives left st Q)
    map_first-Gives f o h ((a, st'), run, g) = (
      (f a, st'),
      ap (map_first f) run,
      record { valid = g.valid; keeps = g.keeps; good = h a st' g },
    )

    and_next-Gives :
        (mid : ℕ) (f : A → St → Option (B × St)) (o : Option (A × St))
        → ((a : A) (st' : St) → Gives mid st P (a, st') → Returns (f a st') (Gives left st' Q))
        → Returns o (Gives mid st P)
        → Returns (and_next o f) (Gives left st Q)
    and_next-Gives mid f o h ((a, st'), run, g) =
        let (r, run', g') = h a st' g in
        (
          r,
          ap (λ x. and_next x f) run ∙ run',
          record {
            valid = g'.valid;
            keeps =
                Keeps_trans (interner.view st) (interner.view st') (interner.view r.1) g.keeps
                  g'.keeps;
            good = g'.good;
          },
        )

  -- The method for `t` gives live nodes of the type `t`, and makes at most `cost t p` nodes.
  abbrev pub GivesLive : (ℕ → ℕ → ℕ) → Rewriter St → Type 0
  GivesLive cost rewriter =
      (t p left : ℕ) (st : St)
      → interner.Valid (cost t p + left) st
      → LiveIn st t p
      → Returns (rewriter t p st) (λ r.
        interner.Valid left r.1 × Keeps (interner.view st) (interner.view r.1) × LiveIn r.1 t r.0)

  module _ (cost : ℕ → ℕ → ℕ) (rewriter : Rewriter St) (gives_live : GivesLive cost rewriter) where
    done_at :
        {A : Type 0} (n left : ℕ) (st : St) (P : Nodes → A → Type 0) (a : A)
        → n ≡ left
        → interner.Valid n st
        → P (interner.view st) a
        → Gives left st P (a, st)
    done_at n left st P a e valid good = record {
      valid = subst (λ k. interner.Valid k st) e valid;
      keeps = Keeps_refl (interner.view st);
      good = good;
    }

    rewriter-Gives :
        (t p left : ℕ) (st : St)
        → interner.Valid (cost t p + left) st
        → LiveIn st t p
        → Returns (rewriter t p st) (Gives left st (λ nodes q. nodes.IsLive t q))
    rewriter-Gives t p left st valid live =
        let (r, run, (valid', keeps, l)) = gives_live t p left st valid live in
        (r, run, record { valid = valid'; keeps = keeps; good = l })

    -- the first item, and then the others
    cons-Gives :
        (ft : FieldType) (P Q : Nodes → Values → Type 0) (v : Value) (vs : Values) (left : ℕ)
        (st : St)
        → ((nodes : Nodes) (w : Value) (ws : Values)
            → Good ft nodes w
            → P nodes ws
            → Q nodes (cons w ws))
        → Returns (hirpdag_rewrite rewriter v st) (Gives (values_cost cost vs + left) st (Good ft))
        → ((st' : St)
            → interner.Valid (values_cost cost vs + left) st'
            → Keeps (interner.view st) (interner.view st')
            → Returns (rewrite_each rewriter vs st') (Gives left st' P))
        → Returns (rewrite_each rewriter (cons v vs) st) (Gives left st Q)
    unfolding rewrite_each
    cons-Gives ft P Q v vs left st both first others =
        and_next-Gives left st (Good ft) Q (values_cost cost vs + left)
          (λ w st'. map_first (cons w) (rewrite_each rewriter vs st'))
          (hirpdag_rewrite rewriter v st)
          (λ w st' g.
            map_first-Gives left st' P Q (cons w) (rewrite_each rewriter vs st')
              (λ ws st'' g'.
                both (interner.view st'') w ws
                  (map-AllNodes w (λ t p l. g'.keeps.still_live t p l) g.good.0, g.good.1) g'.good)
              (others st' g.valid g.keeps))
          first

    mutual
      unfolding hirpdag_rewrite rewrite_each AllNodes AllNodesIn value_cost values_cost

      rewrite-Good :
          {ft : FieldType} (v : Value) (left : ℕ) (st : St)
          → interner.Valid (value_cost cost v + left) st
          → AllNodes (LiveIn st) v
          → HasType ft v
          → Returns (hirpdag_rewrite rewriter v st) (Gives left st (Good ft))
      rewrite-Good {ft} (number n) left st valid live ok = (
        (number n, st),
        refl,
        done_at _ left st (Good ft) (number n) (omega arith) valid (live, ok),
      )
      rewrite-Good {ft} (text s) left st valid live ok =
          ((text s, st), refl, done_at _ left st (Good ft) (text s) (omega arith) valid (live, ok))
      rewrite-Good {ft} absent left st valid live ok =
          ((absent, st), refl, done_at _ left st (Good ft) absent (omega arith) valid (live, ok))
      rewrite-Good (present v) left st valid live (present_ok {ft} ok) =
          map_first-Gives left st (Good ft) (Good (option_type ft)) present
            (hirpdag_rewrite rewriter v st) (λ w st' g. (g.good.0, present_ok (g.good.1)))
            (rewrite-Good v left st valid live ok)
      rewrite-Good (vec vs) left st valid live (vec_ok {ft} ok) =
          map_first-Gives left st (GoodItems ft) (Good (vec_type ft)) vec
            (rewrite_each rewriter vs st) (λ ws st' g. (g.good.0, vec_ok (g.good.1)))
            (rewrite_each-Good vs left st valid live ok)
      rewrite-Good (variant i v) left st valid live (variant_ok {fts} j ft at ok) =
          map_first-Gives left st (Good ft) (Good (enum_type fts)) (variant i)
            (hirpdag_rewrite rewriter v st) (λ w st' g. (g.good.0, variant_ok i ft at (g.good.1)))
            (rewrite-Good v left st valid live ok)
      rewrite-Good (node t p) left st valid live (ref_ok u q) =
          map_first-Gives left st (λ nodes q. nodes.IsLive t q) (Good (ref_type t)) (node t)
            (rewriter t p st) (λ q st' g. (g.good, ref_ok t q))
            (rewriter-Gives t p left st valid live)

      rewrite_each-Good :
          {ft : FieldType} (vs : Values) (left : ℕ) (st : St)
          → interner.Valid (values_cost cost vs + left) st
          → AllNodesIn (LiveIn st) vs
          → EachHasType ft vs
          → Returns (rewrite_each rewriter vs st) (Gives left st (GoodItems ft))
      rewrite_each-Good nil left st valid live (nil_ok ft) = (
        (nil, st),
        refl,
        done_at _ left st (GoodItems ft) nil (omega arith) valid (live, nil_ok ft),
      )
      rewrite_each-Good (cons v vs) left st valid live (cons_ok {ft} ok oks) =
          let valid' = subst (λ k. interner.Valid k st) (omega arith) valid in
          cons-Gives ft (GoodItems ft) (GoodItems ft) v vs left st
            (λ nodes w ws g h. ((g.0, h.0), cons_ok (g.1) (h.1)))
            (rewrite-Good v (values_cost cost vs + left) st valid' live.0 ok)
            (λ st' more keeps.
              rewrite_each-Good vs left st' more
                (map-AllNodesIn vs (λ t p l. keeps.still_live t p l) live.1) oks)

    pub rewrite_fields-Good :
        {fts : FieldTypes} (vs : Values) (left : ℕ) (st : St)
        → interner.Valid (values_cost cost vs + left) st
        → AllNodesIn (LiveIn st) vs
        → HasTypes fts vs
        → Returns (rewrite_each rewriter vs st) (Gives left st (GoodFields fts))
    unfolding rewrite_each AllNodesIn values_cost
    rewrite_fields-Good nil left st valid live no_fields = (
      (nil, st),
      refl,
      done_at _ left st (GoodFields _) nil (omega arith) valid (live, no_fields),
    )
    rewrite_fields-Good (cons v vs) left st valid live (field_ok {ft} {fts} ok oks) =
        let valid' = subst (λ k. interner.Valid k st) (omega arith) valid in
        cons-Gives ft (GoodFields fts) (GoodFields _) v vs left st
          (λ nodes w ws g h. ((g.0, h.0), field_ok (g.1) (h.1)))
          (rewrite-Good v (values_cost cost vs + left) st valid' live.0 ok)
          (λ st' more keeps.
            rewrite_fields-Good vs left st' more
              (map-AllNodesIn vs (λ t p l. keeps.still_live t p l) live.1) oks)
