-- ===== src/Table/SharedMutex/Builder.antt =====
-- table/shared_mutex.rs, `BuildTableSharedMutex`: what it holds, and the tables that it builds. A table is
-- returned with the hash builder that it keeps.
use hirpdag.Base.{◌≡◌, refl}
use hirpdag.Key.{Key, Hasher, BuildHasher}
use hirpdag.Table.Builder.{TableBuilder, BuildThreadUnsafeTableDefault, default_builder}
use hirpdag.Table.Interface.{ThreadUnsafeTable}
use hirpdag.Table.SharedMutex.{TableSharedMutex, build_tableshared}

pub record BuildTableSharedMutex (TB HB : Type 0) : Type 0 where
  pub table_builder : TB
  pub hash_builder : HB

module _ {TB HB : Type 0} where
  unfoldable pub with_builders : TB → HB → BuildTableSharedMutex TB HB
  with_builders table_builder hash_builder = record {
    table_builder = table_builder;
    hash_builder = hash_builder;
  }

  module _ {T : Type 0} (tables : TableBuilder TB T) (hashers : BuildHasher HB) where
    unfoldable pub builder_clone : BuildTableSharedMutex TB HB → BuildTableSharedMutex TB HB
    builder_clone b = record {
      table_builder = tables.clone b.table_builder;
      hash_builder = hashers.clone b.hash_builder;
    }

    unfoldable pub builder_default : BuildTableSharedMutex TB HB
    builder_default = record { table_builder = tables.default; hash_builder = hashers.default }

    unfoldable pub build_with : BuildTableSharedMutex TB HB → TableSharedMutex T × HB
    build_with b =
        (record { inner = tables.build_table b.table_builder }, hashers.clone b.hash_builder)

module _ {D G HB : Type 0} ⦃key : Key D⦄ (hasher : Hasher D key) (hashers : BuildHasher HB)
    {T : Type 0} (below : ThreadUnsafeTable D G key T) where
  -- With the builder of default inner tables, every builder builds the empty table.
  build_with_default :
      (b : BuildTableSharedMutex BuildThreadUnsafeTableDefault HB)
      → (build_with (default_builder below.default) hashers b).0 ≡ build_tableshared hasher below
  unfolding build_with default_builder build_tableshared
  build_with_default b = refl
