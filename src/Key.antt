-- ===== src/Key.antt =====
-- The bounds `Hash + Eq` that every table of hirpdag_hashconsing/src/table.rs puts on its data.
-- Data that are equal in this sense need not be the same value: `HirpdagStorage` compares only its
-- `hirpdag_data`.
use hirpdag.Base.{ℕ, ◌≡◌, Bool, true, arith}

pub record Key (D : Type 0) : Type 0 where
  pub equal : D → D → Bool
  pub equal_refl : (a : D) → equal a a ≡ true
  pub equal_symm : (a b : D) → equal a b ≡ equal b a
  pub equal_trans : (a b c : D) → equal a b ≡ true → equal b c ≡ true → equal a c ≡ true

-- std's `BuildHasher`: equal data have equal hashes.
pub record Hasher (D : Type 0) (key : Key D) : Type 0 where
  pub hash_one : D → ℕ
  pub hash-equal : (a b : D) → key.equal a b ≡ true → hash_one a ≡ hash_one b

module _ {D : Type 0} (key : Key D) where
  pub equal_congr : (a b c : D) → key.equal a b ≡ true → key.equal a c ≡ key.equal b c
  equal_congr a b c e =
      ground (arith, key.equal_symm a b, key.equal_trans a b c, key.equal_trans b a c)

-- `HB: BuildHasher + Default + Clone`, as the builders of the tables use it
pub record BuildHasher (HB : Type 0) : Type 0 where
  pub default : HB
  pub clone : HB → HB
