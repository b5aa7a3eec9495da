-- ===== src/Tests/Preset.antt =====
-- The default preset of hirpdag_derive/src/config.rs, `arc_hash_linear`: shards of hash maps that
-- fall back to a vector; over numbers, hashed so that some of them collide.
use hirpdag.Base.{ℕ, ◌%◌, ◌≡◌, true, none, arith, ◌==◌}
use hirpdag.Key.{Key, Hasher}
use hirpdag.Ref.{Heap}
use hirpdag.Table.HashmapFallback.{TableHashmapFallbackWeak}
use hirpdag.Table.HashmapFallback.Interns as fallback
use hirpdag.Table.Interface.{ThreadUnsafeTable}
use hirpdag.Table.Shared.{Table}
use hirpdag.Table.SharedSharded.{TableSharedSharded}
use hirpdag.Table.SharedSharded.Interns as sharded
use hirpdag.Table.VecLinear
use hirpdag.Table.VecLinear.{TableVecLinearWeak}

pub equal_refl_lem : (a : ℕ) → a == a ≡ true
equal_refl_lem a = ground arith

pub equal_symm_lem : (a b : ℕ) → a == b ≡ b == a
equal_symm_lem a b = ground arith

pub equal_trans_lem : (a b c : ℕ) → a == b ≡ true → b == c ≡ true → a == c ≡ true
equal_trans_lem a b c e f = ground arith

instance abbrev pub nat_key : Key ℕ
nat_key = record {
  equal = λ a b. a == b;
  equal_refl = equal_refl_lem;
  equal_symm = equal_symm_lem;
  equal_trans = equal_trans_lem;
}

pub hash-equal_lem : (a b : ℕ) → a == b ≡ true → a % 4 ≡ b % 4
hash-equal_lem a b e = ground arith

abbrev pub small_hasher : Hasher ℕ nat_key
small_hasher = record { hash_one = λ n. n % 4; hash-equal = hash-equal_lem }

abbrev pub Inner : Type 0
Inner = TableHashmapFallbackWeak TableVecLinearWeak

module _ {D G : Type 0} ⦃key : Key D⦄ where
  unfoldable pub inner : ThreadUnsafeTable D G key Inner
  inner = fallback.table VecLinear.table

  unfoldable pub ops : (hasher : Hasher D key) → Table D G key hasher (TableSharedSharded Inner)
  ops hasher = sharded.table hasher inner

abbrev pub no_objects : {D : Type 0} → Heap D
no_objects = record { next = 0; cell = λ _. none }
