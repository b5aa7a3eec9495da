-- ===== src/Rewrite.antt =====
-- Rewriting: `HirpdagRewritable` of hirpdag/src/base/rewrite.rs for field types, and `default_rewrite`
-- as hirpdag_derive/src/lib.rs generates it. `St` is what interning changes; the counts of handles are
-- left out, so a clone of a handle is the handle. `none` is a panic, or fuel that is used up. A
-- rewriter overrides methods of structs; the method of an enum is its default.
pub mod Default
pub mod Typed
pub mod Rewritten
use hirpdag.Base.{ℕ, zero, suc, Bool, Option, none, some, List, if◌then◌else◌}
use hirpdag.Base.HashMap
use hirpdag.Serialize.Nodes.{Nodes}
use hirpdag.Value.{Value, Values, number, text, absent, present, vec, variant, node, nil, cons}

-- the methods `rewrite_X` of a rewriter, by struct type
abbrev pub Rewriter : Type 0 → Type 0
Rewriter St = ℕ → ℕ → St → Option (ℕ × St)

abbrev pub map_first : {A B St : Type 0} → (A → B) → Option (A × St) → Option (B × St)
map_first f none = none
map_first f (some (a, st)) = some (f a, st)

abbrev pub and_next :
    {A B St : Type 0} → Option (A × St) → (A → St → Option (B × St)) → Option (B × St)
and_next none f = none
and_next (some (a, st)) f = f a st

unfoldable mutual
  pub hirpdag_rewrite : {St : Type 0} → Rewriter St → Value → St → Option (Value × St)
  hirpdag_rewrite rewriter (number n) st = some (number n, st)
  hirpdag_rewrite rewriter (text s) st = some (text s, st)
  hirpdag_rewrite rewriter absent st = some (absent, st)
  hirpdag_rewrite rewriter (present inner) st =
      map_first present (hirpdag_rewrite rewriter inner st)
  hirpdag_rewrite rewriter (vec items) st = map_first vec (rewrite_each rewriter items st)
  hirpdag_rewrite rewriter (variant i x) st = map_first (variant i) (hirpdag_rewrite rewriter x st)
  hirpdag_rewrite rewriter (node t p) st = map_first (node t) (rewriter t p st)

  -- the items of a `Vec`, or the fields of a struct
  pub rewrite_each : {St : Type 0} → Rewriter St → Values → St → Option (Values × St)
  rewrite_each rewriter nil st = some (nil, st)
  rewrite_each rewriter (cons item items) st =
      and_next (hirpdag_rewrite rewriter item st)
        λ item' st'. map_first (cons item') (rewrite_each rewriter items st')

-- `same` is the fields' `==`, and `make` is `Self::new`, by struct type.
module _ {St : Type 0} (same : Values → Values → Bool)
    (make : ℕ → Values → St → Option (ℕ × St)) where
  -- `if #unchanged { self.clone() } else { Self::new(..) }`
  unfoldable pub rebuild : ℕ → ℕ → Values → Values → St → Option (ℕ × St)
  rebuild t p fields rewritten st =
      if same rewritten fields then some (p, st) else make t rewritten st

  -- the node `p` of the type `t`, by its fields; without fields it is cloned
  unfoldable pub rewrite_node : Rewriter St → ℕ → ℕ → Values → St → Option (ℕ × St)
  unfolding rebuild rewrite_each
  rewrite_node rewriter t p nil st = some (p, st)
  rewrite_node rewriter t p (cons field fields) st =
      and_next (rewrite_each rewriter (cons field fields) st) (rebuild t p (cons field fields))

  unfoldable pub default_rewrite : Nodes → Rewriter St → Rewriter St
  unfolding rewrite_node
  default_rewrite nodes rewriter t p st = rewrite_node rewriter t p (nodes.fields t p) st

  -- A rewriter that overrides no method; the fuel bounds the depth.
  unfoldable pub default_rewriter : Nodes → ℕ → Rewriter St
  unfolding default_rewrite
  default_rewriter nodes zero t p st = none
  default_rewriter nodes (suc fuel) t p st =
      default_rewrite nodes (default_rewriter nodes fuel) t p st

-- `HirpdagRewriteMemoized`: a rewriter with the caches, by struct type
unfoldable pub rewrite_memoized : {St : Type 0} → (ℕ → List (ℕ × ℕ)) → Rewriter St → Rewriter St
rewrite_memoized cache rewriter t p st = elim (HashMap.lookup p (cache t)) [
  | some q ↦ some (q, st)
  | none ↦ rewriter t p st
]
