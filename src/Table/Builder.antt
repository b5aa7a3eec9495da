-- ===== src/Table/Builder.antt =====
-- table.rs: the factories of inner tables and of shared tables.

-- the trait, with the bounds `Default + Clone` that its users put on it
pub record TableBuilder (TB T : Type 0) : Type 0 where
  pub build_table : TB → T
  pub default : TB
  pub clone : TB → TB

-- it has no fields
pub data BuildThreadUnsafeTableDefault : Type 0 where
  builder : BuildThreadUnsafeTableDefault

-- `table_default` is `T::default()`
unfoldable pub default_builder : {T : Type 0} → T → TableBuilder BuildThreadUnsafeTableDefault T
default_builder table_default = record {
  build_table = λ b. table_default;
  default = builder;
  clone = λ b. builder;
}

-- `BuildTable`, and `BuildTableDefault`, which calls `TS::default()`
pub record SharedTableBuilder (B TS : Type 0) : Type 0 where
  pub build_tableshared : B → TS

pub data BuildTableDefault : Type 0 where
  shared_builder : BuildTableDefault

unfoldable pub default_shared_builder : {TS : Type 0} → TS → SharedTableBuilder BuildTableDefault TS
default_shared_builder table_default = record { build_tableshared = λ b. table_default }
