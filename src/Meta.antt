-- ===== src/Meta.antt =====
-- hirpdag/src/base/meta.rs: the metadata that each node caches.
pub mod Laws
pub mod Compute
pub mod Exact
use hirpdag.Base.{ℕ, ◌+◌, ◌-◌, ◌^◌, min, max, bit_or, Option, none, some, List, [], ◌∷◌, map}

abbrev pub count_max : ℕ
count_max = 2 ^ 32 - 1

abbrev pub height_max : ℕ
height_max = 2 ^ 16 - 1

pub record HirpdagMeta : Type 0 where
  pub count : ℕ
  pub height : ℕ
  pub flags : ℕ

unfoldable pub saturating_add : ℕ → ℕ → ℕ → ℕ
saturating_add limit a b = min limit (a + b)

unfoldable pub zero_meta : HirpdagMeta
zero_meta = record { count = 0; height = 0; flags = 0 }

unfoldable pub increment : HirpdagMeta → HirpdagMeta
unfolding saturating_add
increment m = record m {
  count = saturating_add count_max m.count 1;
  height = saturating_add height_max m.height 1;
}

unfoldable pub add_flags : ℕ → HirpdagMeta → HirpdagMeta
add_flags flag m = record m { flags = bit_or m.flags flag }

unfoldable pub fold_ref : HirpdagMeta → HirpdagMeta → HirpdagMeta
unfolding saturating_add
fold_ref m other = record {
  count = saturating_add count_max m.count other.count;
  height = max m.height other.height;
  flags = bit_or m.flags other.flags;
}

unfoldable pub fold : HirpdagMeta → HirpdagMeta → HirpdagMeta
unfolding fold_ref
fold m other = fold_ref m other

-- `impl Sum`: `iter.fold(Self::zero(), Self::fold)`
unfoldable pub fold_all : HirpdagMeta → List HirpdagMeta → HirpdagMeta
fold_all acc [] = acc
fold_all acc (m ∷ ms) = fold_all (fold acc m) ms

unfoldable pub sum : List HirpdagMeta → HirpdagMeta
unfolding fold_all
sum ms = fold_all zero_meta ms

unfoldable pub get_count : HirpdagMeta → ℕ
get_count m = m.count

unfoldable pub get_height : HirpdagMeta → ℕ
get_height m = m.height

unfoldable pub get_flags : HirpdagMeta → ℕ
get_flags m = m.flags
