-- ===== src/Meta/Laws.antt =====
-- The saturating metadata are the exact ones, cut off at the top.
use hirpdag.Base.{ℕ, ◌+◌, ◌≤◌, ◌≡◌, min, max, List, [], ◌∷◌, arith}
use hirpdag.Meta.{HirpdagMeta, count_max, fold, fold_all, sum, zero_meta}

abbrev pub sum_counts : List HirpdagMeta → ℕ
sum_counts [] = 0
sum_counts (m ∷ ms) = m.count + sum_counts ms

abbrev pub max_height : List HirpdagMeta → ℕ
max_height [] = 0
max_height (m ∷ ms) = max m.height (max_height ms)

fold_all_count :
    (acc : HirpdagMeta) (ms : List HirpdagMeta)
    → acc.count ≤ count_max
    → (fold_all acc ms).count ≡ min count_max (acc.count + sum_counts ms)
unfolding fold_all fold
fold_all_count acc [] h = omega arith
fold_all_count acc (m ∷ ms) h = omega (arith, fold_all_count (fold acc m) ms (omega arith))

fold_all_height :
    (acc : HirpdagMeta) (ms : List HirpdagMeta)
    → (fold_all acc ms).height ≡ max acc.height (max_height ms)
unfolding fold_all fold
fold_all_height acc [] = omega arith
fold_all_height acc (m ∷ ms) = omega (arith, fold_all_height (fold acc m) ms)

-- However the additions saturate on the way, the count of a sum is the exact sum of the counts,
-- cut off at the largest `u32`, and its height is the largest height.
pub sum_exact :
    (ms : List HirpdagMeta)
    → ((sum ms).count ≡ min count_max (sum_counts ms)) × ((sum ms).height ≡ max_height ms)
unfolding sum zero_meta
sum_exact ms = (
  omega (arith, fold_all_count zero_meta ms (omega arith)),
  omega (arith, fold_all_height zero_meta ms),
)
