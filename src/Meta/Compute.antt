-- ===== src/Meta/Compute.antt =====
-- `HirpdagComputeMeta`: for the field types in hirpdag/src/base/meta.rs, for handles in
-- base/reference.rs, and for structs and enums as hirpdag_derive/src/lib.rs generates it.
use hirpdag.Base.{ℕ, List, [], ◌∷◌}
use hirpdag.Meta.{HirpdagMeta, zero_meta, increment, add_flags, sum}
use hirpdag.Value.{Value, Values, number, text, absent, present, vec, variant, node, nil, cons}

-- `cached t p` is the metadata stored with the node `p` of the struct type `t`.
unfoldable mutual
  pub compute_meta : (ℕ → ℕ → HirpdagMeta) → Value → HirpdagMeta
  compute_meta cached (number n) = zero_meta
  compute_meta cached (text s) = zero_meta
  compute_meta cached absent = zero_meta
  compute_meta cached (present v) = compute_meta cached v
  compute_meta cached (vec vs) = sum (compute_each cached vs)
  compute_meta cached (variant n v) = compute_meta cached v
  compute_meta cached (node t p) = cached t p

  pub compute_each : (ℕ → ℕ → HirpdagMeta) → Values → List HirpdagMeta
  compute_each cached nil = []
  compute_each cached (cons v vs) = compute_meta cached v ∷ compute_each cached vs

-- of a struct: the sum over its fields, one level up, with the flags of the struct
unfoldable pub compute_struct_meta : (ℕ → ℕ → HirpdagMeta) → ℕ → Values → HirpdagMeta
compute_struct_meta cached hirpdag_flags fields =
    add_flags hirpdag_flags (increment (sum (compute_each cached fields)))
