-- ===== src/Table/Strong/DashMap.antt =====
-- table/dashmap_strong.rs.
use hirpdag.Base.{ℕ, ◌≡◌, inl, inr, Option, none, some, arith, Option-cases}
use hirpdag.Key.{Key, BuildHasher}
use hirpdag.Ref.{Heap, new, strong_clone}
use hirpdag.Ref.Laws.{strong_clone_lem}
use hirpdag.Table.Interface.{CreationMeta}
use hirpdag.Table.Strong.{Extends, Retained, kept, made}

-- the crate `dashmap`: `entry` is `Occupied` with the value that `get` has, or `Vacant`
pub record DashMap (D M HB : Type 0) (key : Key D) : Type 0 where
  pub with_hasher : HB → M
  pub get : M → D → Option ℕ
  pub entry : M → D → Option ℕ
  pub insert_vacant : M → D → ℕ → M
  pub clear : M → M
  pub get-with_hasher : (hash_builder : HB) (d : D) → get (with_hasher hash_builder) d ≡ none
  pub get-clear : (m : M) (d : D) → get (clear m) d ≡ none
  pub entry-get : (m : M) (d : D) → entry m d ≡ get m d
  pub get-insert_vacant :
      (m : M) (d : D) (p : ℕ)
      → get m d ≡ none
      → Extends ⦃key = key⦄ (get m) d p (get (insert_vacant m d p))

pub record TableSharedDashMap (M : Type 0) : Type 0 where
  pub map : M

pub record BuildTableSharedDashMap (HB : Type 0) : Type 0 where
  pub hash_builder : HB

unfoldable pub builder_with_hasher : {HB : Type 0} → HB → BuildTableSharedDashMap HB
builder_with_hasher hash_builder = record { hash_builder = hash_builder }

unfoldable pub builder_clone :
    {HB : Type 0} → BuildHasher HB → BuildTableSharedDashMap HB → BuildTableSharedDashMap HB
builder_clone hashers b = record { hash_builder = hashers.clone b.hash_builder }

unfoldable pub builder_default : {HB : Type 0} → BuildHasher HB → BuildTableSharedDashMap HB
builder_default hashers = record { hash_builder = hashers.default }

module _ {D M HB : Type 0} ⦃key : Key D⦄ (hashers : BuildHasher HB)
    (crate : DashMap D M HB key) where
  unfoldable pub with_hasher : HB → TableSharedDashMap M
  with_hasher hash_builder = record { map = crate.with_hasher hash_builder }

  unfoldable pub default : TableSharedDashMap M
  default = with_hasher hashers.default

  unfoldable pub build_tableshared : BuildTableSharedDashMap HB → TableSharedDashMap M
  build_tableshared b = with_hasher (hashers.clone b.hash_builder)

  unfoldable pub get : TableSharedDashMap M → D → Heap D → Option ℕ × Heap D
  get t d h = elim (crate.get t.map d) [
    | none ↦ (none, h)
    | some r ↦ let (p, h') = strong_clone r h in (some p, h')
  ]

  module _ {G : Type 0} where
    -- from `self.map.entry(key)` on
    unfoldable pub insert_entry :
        TableSharedDashMap M
        → D
        → CreationMeta D G
        → Heap D
        → G
        → ℕ × TableSharedDashMap M × Heap D × G
    insert_entry t d creation_meta h g = elim (crate.entry t.map d) [
      | some e ↦ let (p, h') = strong_clone e h in (p, t, h', g)
      | none ↦
          let (d', g') = creation_meta d g in
          let (obj, h₁) = new d' h in
          let (r, h₂) = strong_clone obj h₁ in
          (obj, record { map = crate.insert_vacant t.map d r }, h₂, g')
    ]

    unfoldable pub get_or_insert :
        TableSharedDashMap M
        → TableSharedDashMap M
        → D
        → CreationMeta D G
        → Heap D
        → G
        → ℕ × TableSharedDashMap M × Heap D × G
    get_or_insert seen t d creation_meta h g = elim (crate.get seen.map d) [
      | some r ↦ let (p, h') = strong_clone r h in (p, t, h', g)
      | none ↦ insert_entry t d creation_meta h g
    ]

  unfoldable pub reset : TableSharedDashMap M → TableSharedDashMap M
  reset t = record { map = crate.clear t.map }

  abbrev pub lookup : TableSharedDashMap M → D → Option ℕ
  lookup t d = crate.get t.map d

  -- A table that was just built, or reset, has nothing.
  dash_map_empty :
      (t : TableSharedDashMap M) (b : BuildTableSharedDashMap HB) (d : D)
      → (lookup (build_tableshared b) d ≡ none) × (lookup (reset t) d ≡ none)
  unfolding build_tableshared with_hasher reset
  dash_map_empty t b d =
      (crate.get-with_hasher (hashers.clone b.hash_builder) d, crate.get-clear t.map d)

  -- If what the map had when it was first read is still there when the entry is taken, then
  -- `get_or_insert` returns the handle of equal data, with `creation_meta` not called, or else one
  -- new object, of which the map then has a handle under the data, and no other entry changes.
  dash_map-Retained :
      {G : Type 0} (seen t : TableSharedDashMap M) (d : D) (m : CreationMeta D G) (h : Heap D)
      (g : G)
      → ((p : ℕ) → lookup seen d ≡ some p → lookup t d ≡ some p)
      → Retained ⊥ lookup t d m h g (get_or_insert seen t d m h g)
  unfolding get_or_insert insert_entry new
  dash_map-Retained seen t d m h g still = elim (Option-cases (crate.get seen.map d)) [
    | inr (p, hit) ↦ kept p (still p hit) (ground (arith, hit, strong_clone_lem h p))
    | inl miss ↦ elim (Option-cases (crate.get t.map d)) [
      | inr (p, hit) ↦ kept p hit (ground (arith, crate.entry-get t.map d, strong_clone_lem h p))
      | inl absent ↦
          made _ absent (crate.get-insert_vacant t.map d h.next absent)
            (ground (arith, crate.entry-get t.map d, strong_clone_lem (new (m d g).0 h).1 h.next))
    ]
  ]
