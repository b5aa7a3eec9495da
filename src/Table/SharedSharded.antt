-- ===== src/Table/SharedSharded.antt =====
-- table/shared_sharded.rs: eight inner tables, each behind its mutex. The low bits of the hash
-- choose one.
pub mod Laws
pub mod Builder
pub mod Interns
use hirpdag.Base.{
  ℕ, suc, zero, ◌-◌, Option, none, some, List, [], ◌∷◌, map, bit_and, get_elem?, replicate, set,
}
use hirpdag.Key.{Key, Hasher}
use hirpdag.Ref.{Heap}
use hirpdag.Table.Interface.{CreationMeta, ThreadUnsafeTable}

abbrev pub n_shards : ℕ
n_shards = 8

pub record TableSharedSharded (T : Type 0) : Type 0 where
  pub inner : List T

-- `hash & mask`
unfoldable pub shard_index : ℕ → ℕ
shard_index hash = let mask = n_shards - 1 in bit_and hash mask

-- `self.inner[index]`; `none` is the panic of an index out of bounds
unfoldable pub get_shard : {T : Type 0} → TableSharedSharded T → ℕ → Option T
get_shard t hash = get_elem? t.inner (shard_index hash)

module _ {D G : Type 0} ⦃key : Key D⦄ (hasher : Hasher D key) {T : Type 0}
    (below : ThreadUnsafeTable D G key T) where
  unfoldable pub make_hash : D → ℕ
  make_hash d = hasher.hash_one d

  -- `array_init(|_| Mutex::new(self.table_builder.build_table()))`
  unfoldable pub build_tableshared : TableSharedSharded T
  build_tableshared = record { inner = replicate n_shards below.default }

  unfoldable pub get : TableSharedSharded T → D → Heap D → Option (Option ℕ × Heap D)
  get t d h =
      let hash = make_hash d in
      elim (get_shard t hash) [ none ↦ none | some shard ↦ some (below.get shard hash d h) ]

  unfoldable pub get_or_insert :
      TableSharedSharded T
      → D
      → CreationMeta D G
      → Heap D
      → G
      → Option (ℕ × TableSharedSharded T × Heap D × G)
  get_or_insert t d creation_meta h g =
      let hash = make_hash d in
      elim (get_shard t hash) [
        | none ↦ none
        | some shard ↦ elim (below.get_or_insert shard hash d creation_meta h g) [
          | none ↦ none
          | some (r, shard', h', g') ↦
              some (r, record { inner = set t.inner (shard_index hash) shard' }, h', g')
        ]
      ]

  unfoldable pub reset : TableSharedSharded T → TableSharedSharded T
  reset t = record { inner = map below.reset t.inner }
