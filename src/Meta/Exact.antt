-- ===== src/Meta/Exact.antt =====
-- The cached metadata of a node against the size and the height of the tree that it stands for.
use hirpdag.Base.{ℕ, ◌+◌, ◌≡◌, min, max, arith}
use hirpdag.Meta.{HirpdagMeta, count_max, height_max, increment, add_flags, zero_meta}
use hirpdag.Meta.Compute.{compute_meta, compute_each, compute_struct_meta}
use hirpdag.Meta.Laws.{sum_counts, max_height, sum_exact}
use hirpdag.Value.{Value, Values, number, text, absent, present, vec, variant, node, nil, cons}

-- The nodes below a field, each as often as it is reached, where `exact` gives those of a node.
abbrev mutual
  pub tree_count : (ℕ → ℕ → ℕ) → Value → ℕ
  tree_count exact (number n) = 0
  tree_count exact (text s) = 0
  tree_count exact absent = 0
  tree_count exact (present v) = tree_count exact v
  tree_count exact (vec vs) = tree_counts exact vs
  tree_count exact (variant n v) = tree_count exact v
  tree_count exact (node t p) = exact t p

  pub tree_counts : (ℕ → ℕ → ℕ) → Values → ℕ
  tree_counts exact nil = 0
  tree_counts exact (cons v vs) = tree_count exact v + tree_counts exact vs

-- The longest way down from a field, likewise.
abbrev mutual
  pub tree_height : (ℕ → ℕ → ℕ) → Value → ℕ
  tree_height exact (number n) = 0
  tree_height exact (text s) = 0
  tree_height exact absent = 0
  tree_height exact (present v) = tree_height exact v
  tree_height exact (vec vs) = tree_heights exact vs
  tree_height exact (variant n v) = tree_height exact v
  tree_height exact (node t p) = exact t p

  pub tree_heights : (ℕ → ℕ → ℕ) → Values → ℕ
  tree_heights exact nil = 0
  tree_heights exact (cons v vs) = max (tree_height exact v) (tree_heights exact vs)

module _ (cached : ℕ → ℕ → HirpdagMeta) (count height : ℕ → ℕ → ℕ)
    (counts : (t p : ℕ) → (cached t p).count ≡ min count_max (count t p))
    (heights : (t p : ℕ) → (cached t p).height ≡ min height_max (height t p)) where
  mutual
    unfolding compute_meta zero_meta

    value_exact :
        (v : Value)
        → ((compute_meta cached v).count ≡ min count_max (tree_count count v))
          × ((compute_meta cached v).height ≡ min height_max (tree_height height v))
    value_exact (number n) = omega arith
    value_exact (text s) = omega arith
    value_exact absent = omega arith
    value_exact (present v) = value_exact v
    value_exact (vec vs) = omega (arith, sum_exact (compute_each cached vs), values_exact vs)
    value_exact (variant n v) = value_exact v
    value_exact (node t p) = (counts t p, heights t p)

    values_exact :
        (vs : Values)
        → (min count_max (sum_counts (compute_each cached vs))
            ≡ min count_max (tree_counts count vs))
          × (max_height (compute_each cached vs) ≡ min height_max (tree_heights height vs))
    values_exact nil = omega arith
    values_exact (cons v vs) = omega (arith, value_exact v, values_exact vs)

  -- If the children's cached counts and heights are their trees' sizes and heights, cut off at the
  -- largest `u32` and `u16`, then so are those computed for a struct: one more node, one more level.
  pub compute_struct_meta_exact :
      (flags : ℕ) (fields : Values)
      → ((compute_struct_meta cached flags fields).count
          ≡ min count_max (tree_counts count fields + 1))
        × ((compute_struct_meta cached flags fields).height
            ≡ min height_max (tree_heights height fields + 1))
  unfolding compute_struct_meta increment add_flags
  compute_struct_meta_exact flags fields =
      omega (arith, sum_exact (compute_each cached fields), values_exact fields)
