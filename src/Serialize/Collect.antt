-- ===== src/Serialize/Collect.antt =====
-- The collect phase: `HirpdagCollect` of hirpdag/src/base/serialize.rs for field types, and what
-- hirpdag_derive/src/lib.rs generates for structs, enums, handles and the roots.
use hirpdag.Base.{
  ℕ, zero, suc, Bool, true, false, Option, none, some, List, [], ◌∷◌, ◌++◌, length, if◌then◌else◌,
}
use hirpdag.Base.HashMap
use hirpdag.Serialize.Nodes.{Nodes}
use hirpdag.Value.{Value, Values, number, text, absent, present, vec, variant, node, nil, cons}

-- an entry of the node table: the struct type and the fields
pub record HirpdagArchiveNode : Type 0 where
  pub struct_type : ℕ
  pub data_fields : Values

pub record HirpdagCollectCtx : Type 0 where
  pub seen : List (ℕ × ℕ)
  pub nodes : List HirpdagArchiveNode

abbrev pub new_ctx : HirpdagCollectCtx
new_ctx = record { seen = []; nodes = [] }

-- `none`, here and below, is fuel that is used up.
abbrev pub Visit : Type 0
Visit = ℕ → ℕ → HirpdagCollectCtx → Option HirpdagCollectCtx

unfoldable mutual
  pub collect : Visit → Value → HirpdagCollectCtx → Option HirpdagCollectCtx
  collect visit (number n) ctx = some ctx
  collect visit (text s) ctx = some ctx
  collect visit absent ctx = some ctx
  collect visit (present inner) ctx = collect visit inner ctx
  collect visit (vec items) ctx = collect_each visit items ctx
  collect visit (variant i x) ctx = collect visit x ctx
  collect visit (node t p) ctx = visit t p ctx

  pub collect_each : Visit → Values → HirpdagCollectCtx → Option HirpdagCollectCtx
  collect_each visit nil ctx = some ctx
  collect_each visit (cons item items) ctx = elim (collect visit item ctx) [
    | none ↦ none
    | some ctx' ↦ collect_each visit items ctx'
  ]

unfoldable pub contains_key : ℕ → List (ℕ × ℕ) → Bool
contains_key id seen = elim (HashMap.lookup id seen) [ none ↦ false | some index ↦ true ]

-- the node gets the next index
unfoldable pub push_node : ℕ → HirpdagArchiveNode → HirpdagCollectCtx → HirpdagCollectCtx
push_node id entry ctx = record {
  seen = HashMap.insert id (length ctx.nodes) ctx.seen;
  nodes = ctx.nodes ++ entry ∷ [];
}

module _ (nodes : Nodes) where
  -- `hirpdag_collect` of a handle; the fuel bounds the depth.
  unfoldable pub collect_ref : ℕ → Visit
  unfolding collect_each contains_key push_node
  collect_ref zero t p ctx = none
  collect_ref (suc fuel) t p ctx =
      let id = nodes.creation_id t p in
      let children = collect_each (collect_ref fuel) (nodes.fields t p) ctx in
      if contains_key id ctx.seen then some ctx else elim children [
        | none ↦ none
        | some ctx' ↦
            some (push_node id (record { struct_type = t; data_fields = nodes.fields t p }) ctx')
      ]

  -- `hirpdag_collect_archive`: from the roots, one `Vec` for each root type; the node table and the
  -- index map
  unfoldable pub hirpdag_collect_archive :
      ℕ → Values → Option (List HirpdagArchiveNode × List (ℕ × ℕ))
  unfolding collect_each collect_ref
  hirpdag_collect_archive fuel roots = elim (collect_each (collect_ref fuel) roots new_ctx) [
    | none ↦ none
    | some ctx ↦ some (ctx.nodes, ctx.seen)
  ]
