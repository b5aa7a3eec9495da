-- ===== src/Hashcons.antt =====
-- hirpdag/src/base/reference.rs: handles to hash-consed nodes, their storage, and the table of a
-- struct type. `HirpdagRef`'s `Ord` is the one that hirpdag_derive/src/lib.rs generates.
pub mod Interned
pub mod Created
pub mod Numbered
pub mod Order
use Prim.Native.Nat.{compare, Ordering}
use mathlib.Core.Option
use hirpdag.Base.{ℕ, ◌+◌, ◌%◌, ◌^◌, ◌≡◌, Bool, Option, none, some, if◌then◌else◌}
use hirpdag.Key.{Key, Hasher}
use hirpdag.Meta.{HirpdagMeta, zero_meta}
use hirpdag.Ref.{Heap, strong_deref, strong_clone, strong_ptr_eq}
use hirpdag.Table.Shared.{Table}

pub record HirpdagStorage (D : Type 0) : Type 0 where
  pub hirpdag_meta : HirpdagMeta
  pub hirpdag_creation_id : ℕ
  pub hirpdag_data : D

-- `PartialEq` and `Hash` of the storage are those of its data.
instance abbrev pub storage_key : {D : Type 0} ⦃key : Key D⦄ → Key (HirpdagStorage D)
storage_key ⦃key⦄ = record {
  equal = λ a b. key.equal a.hirpdag_data b.hirpdag_data;
  equal_refl = λ a. key.equal_refl a.hirpdag_data;
  equal_symm = λ a b. key.equal_symm a.hirpdag_data b.hirpdag_data;
  equal_trans = λ a b c. key.equal_trans a.hirpdag_data b.hirpdag_data c.hirpdag_data;
}

abbrev pub storage_hasher :
    {D : Type 0} ⦃key : Key D⦄ → Hasher D key → Hasher (HirpdagStorage D) storage_key
storage_hasher hasher = record {
  hash_one = λ s. hasher.hash_one s.hirpdag_data;
  hash-equal = λ a b. hasher.hash-equal a.hirpdag_data b.hirpdag_data;
}

-- `HIRPDAG_CREATION_COUNTER.fetch_add(1)`: the counter before, and after
unfoldable pub fetch_add_one : ℕ → ℕ × ℕ
fetch_add_one counter = (counter, (counter + 1) % 2 ^ 64)

-- `PartialEq` of handles
unfoldable pub ref_eq : ℕ → ℕ → Bool
ref_eq a b = strong_ptr_eq a b

unfoldable pub compare_ids : Option ℕ → Option ℕ → Option Ordering
compare_ids (some i) (some j) = some (compare i j)
compare_ids _ _ = none

module _ {D : Type 0} where
  -- the closure that `hirpdag_hashcons` hands to the table; `compute` is the data's
  -- `hirpdag_compute_meta`
  unfoldable pub compute_hirpdag_meta :
      (D → HirpdagMeta) → HirpdagStorage D → ℕ → HirpdagStorage D × ℕ
  unfolding fetch_add_one
  compute_hirpdag_meta compute s counter =
      let (id, counter') = fetch_add_one counter in
      (record s { hirpdag_meta = compute s.hirpdag_data; hirpdag_creation_id = id }, counter')

  unfoldable pub storage_of : D → HirpdagStorage D
  storage_of node_data = record {
    hirpdag_meta = zero_meta;
    hirpdag_creation_id = 0;
    hirpdag_data = node_data;
  }

  -- `Deref`; `none` is a dangling handle, here and below
  unfoldable pub deref : Heap (HirpdagStorage D) → ℕ → Option D
  deref h p = Option.map (λ s. s.hirpdag_data) (strong_deref h p)

  unfoldable pub hirpdag_get_meta : Heap (HirpdagStorage D) → ℕ → Option HirpdagMeta
  hirpdag_get_meta h p = Option.map (λ s. s.hirpdag_meta) (strong_deref h p)

  unfoldable pub hirpdag_get_creation_id : Heap (HirpdagStorage D) → ℕ → Option ℕ
  hirpdag_get_creation_id h p = Option.map (λ s. s.hirpdag_creation_id) (strong_deref h p)

  -- `Hash` of a handle hashes its creation id.
  unfoldable pub ref_hash : (ℕ → ℕ) → Heap (HirpdagStorage D) → ℕ → Option ℕ
  unfolding hirpdag_get_creation_id
  ref_hash hash_u64 h p = Option.map hash_u64 (hirpdag_get_creation_id h p)

  -- `Ord::cmp` of handles
  unfoldable pub ref_cmp : Heap (HirpdagStorage D) → ℕ → ℕ → Option Ordering
  unfolding compare_ids
  ref_cmp h a b =
      if ref_eq a b
      then some Ordering.eq
      else compare_ids (hirpdag_get_creation_id h a) (hirpdag_get_creation_id h b)

module _ {D : Type 0} ⦃key : Key D⦄ (hasher : Hasher D key) {TS : Type 0}
    (ops : Table (HirpdagStorage D) ℕ storage_key (storage_hasher hasher) TS) where
  -- `self.table.get_or_insert(storage, compute_hirpdag_meta)`
  unfoldable pub hirpdag_hashcons :
      TS
      → (D → HirpdagMeta)
      → D
      → Heap (HirpdagStorage D)
      → ℕ
      → Option (ℕ × TS × Heap (HirpdagStorage D) × ℕ)
  hirpdag_hashcons table compute node_data h counter =
      ops.get_or_insert table (storage_of node_data) (compute_hirpdag_meta compute) h counter

  unfoldable pub reset : TS → TS
  reset table = ops.reset table
