-- ===== src/Table/Strong/SkipMap.antt =====
-- table/skipmap_strong.rs.
use hirpdag.Base.{ℕ, ◌≡◌, refl, inl, inr, Option, none, some, arith, Option-cases}
use hirpdag.Key.{Key}
use hirpdag.Ref.{Heap, new, strong_clone}
use hirpdag.Ref.Laws.{strong_clone_lem}
use hirpdag.Table.Interface.{CreationMeta}
use hirpdag.Table.Strong.{Extends, Retained, kept, made}

-- the crate `crossbeam_skiplist`: `get_or_insert_with` calls the closure if the key is not there. The
-- closure runs over the state `S` that it captures.
pub record SkipMap (D M : Type 0) (key : Key D) : Type 1 where
  pub new_map : M
  pub get : M → D → Option ℕ
  pub get_or_insert_with : {S : Type 0} → M → D → (S → ℕ × S) → S → ℕ × M × S
  pub clear : M → M
  pub get-new_map : (d : D) → get new_map d ≡ none
  pub get-clear : (m : M) (d : D) → get (clear m) d ≡ none
  pub insert_with_taken :
      {S : Type 0} (m : M) (d : D) (f : S → ℕ × S) (s : S) (p : ℕ)
      → get m d ≡ some p
      → get_or_insert_with m d f s ≡ (p, m, s)
  pub insert_with_free :
      {S : Type 0} (m : M) (d : D) (f : S → ℕ × S) (s : S)
      → get m d ≡ none
      → (m' : M) × (get_or_insert_with m d f s ≡ ((f s).0, m', (f s).1))
        × Extends ⦃key = key⦄ (get m) d (f s).0 (get m')

pub record TableSharedSkipMap (M : Type 0) : Type 0 where
  pub map : M

-- what the closure captures and changes
pub record Captured (D G : Type 0) : Type 0 where
  pub heap : Heap D
  pub state : G

-- it has no fields
pub data BuildTableSharedSkipMap : Type 0 where
  builder_new : BuildTableSharedSkipMap

unfoldable pub builder_clone : BuildTableSharedSkipMap → BuildTableSharedSkipMap
builder_clone b = builder_new

unfoldable pub builder_default : BuildTableSharedSkipMap
builder_default = builder_new

module _ {D M : Type 0} ⦃key : Key D⦄ (crate : SkipMap D M key) where
  unfoldable pub default : TableSharedSkipMap M
  default = record { map = crate.new_map }

  unfoldable pub build_tableshared : BuildTableSharedSkipMap → TableSharedSkipMap M
  build_tableshared b = default

  unfoldable pub get : TableSharedSkipMap M → D → Heap D → Option ℕ × Heap D
  get t d h = elim (crate.get t.map d) [
    | none ↦ (none, h)
    | some r ↦ let (p, h') = strong_clone r h in (some p, h')
  ]

  module _ {G : Type 0} where
    -- the closure
    unfoldable pub make : D → CreationMeta D G → Captured D G → ℕ × Captured D G
    make d creation_meta c =
        let (d', g') = creation_meta d c.state in
        let (obj, h') = new d' c.heap in (obj, record { heap = h'; state = g' })

    -- from `get_or_insert_with` on
    unfoldable pub insert_with :
        TableSharedSkipMap M
        → D
        → CreationMeta D G
        → Heap D
        → G
        → ℕ × TableSharedSkipMap M × Heap D × G
    insert_with t d creation_meta h g =
        let (entry, map, c) =
          crate.get_or_insert_with t.map d (make d creation_meta)
            (record { heap = h; state = g }) in
        let (p, h') = strong_clone entry c.heap in (p, record { map = map }, h', c.state)

    unfoldable pub get_or_insert :
        TableSharedSkipMap M
        → TableSharedSkipMap M
        → D
        → CreationMeta D G
        → Heap D
        → G
        → ℕ × TableSharedSkipMap M × Heap D × G
    get_or_insert seen t d creation_meta h g = elim (crate.get seen.map d) [
      | some r ↦ let (p, h') = strong_clone r h in (p, t, h', g)
      | none ↦ insert_with t d creation_meta h g
    ]

  unfoldable pub reset : TableSharedSkipMap M → TableSharedSkipMap M
  reset t = record { map = crate.clear t.map }

  abbrev pub lookup : TableSharedSkipMap M → D → Option ℕ
  lookup t d = crate.get t.map d

  -- A table that was just built, or reset, has nothing.
  skip_map_empty :
      (t : TableSharedSkipMap M) (b : BuildTableSharedSkipMap) (d : D)
      → (lookup (build_tableshared b) d ≡ none) × (lookup (reset t) d ≡ none)
  unfolding build_tableshared default reset
  skip_map_empty t b d = (crate.get-new_map d, crate.get-clear t.map d)

  insert_with-Retained :
      {G : Type 0} (t : TableSharedSkipMap M) (d : D) (m : CreationMeta D G) (h : Heap D) (g : G)
      → Retained ⊥ lookup t d m h g (insert_with t d m h g)
  unfolding insert_with make new
  insert_with-Retained t d m h g = elim (Option-cases (crate.get t.map d)) [
    | inr (p, there) ↦ kept p there (
        ground (
          arith,
          crate.insert_with_taken t.map d (make d m) (record { heap = h; state = g }) p there,
          strong_clone_lem h p,
        ))
    | inl absent ↦
        let (m', run, extends) =
          crate.insert_with_free t.map d (make d m) (record { heap = h; state = g }) absent in
        made (record { map = m' }) absent extends
          (rw (insert_with, run, strong_clone_lem (new (m d g).0 h).1 h.next) refl)
  ]

  -- If what the map had when it was first read is still there at the insertion, then
  -- `get_or_insert` returns the handle of equal data, with `creation_meta` not called, or else one
  -- new object, of which the map then has a handle under the data, and no other entry changes.
  skip_map-Retained :
      {G : Type 0} (seen t : TableSharedSkipMap M) (d : D) (m : CreationMeta D G) (h : Heap D)
      (g : G)
      → ((p : ℕ) → lookup seen d ≡ some p → lookup t d ≡ some p)
      → Retained ⊥ lookup t d m h g (get_or_insert seen t d m h g)
  unfolding get_or_insert
  skip_map-Retained seen t d m h g still = elim (Option-cases (crate.get seen.map d)) [
    | inr (p, hit) ↦ kept p (still p hit) (ground (arith, hit, strong_clone_lem h p))
    | inl miss ↦
        let step : get_or_insert seen t d m h g ≡ insert_with t d m h g =
          rw (get_or_insert, miss) refl in
        rw step (insert_with-Retained t d m h g)
  ]
