-- ===== src/Table/Strong/ArcSwap.antt =====
-- table/arcswap_strong.rs.
use hirpdag.Base.{ℕ, ◌≡◌, refl, inl, inr, true, Option, none, some, arith, Option-cases, Returns}
use hirpdag.Key.{Key, BuildHasher, equal_congr}
use hirpdag.Ref.{Heap, new, strong_clone, strong_deref}
use hirpdag.Ref.Laws.{retain, strong_clone_lem, strong_deref-new, new_address}
use hirpdag.Table.Interface.{CreationMeta}
use hirpdag.Table.Strong.{Extends, Retained, kept, made}

-- std's `HashMap`, which the `ArcSwap` points to: a writer stores a copy that has one more entry.
-- The handles that the copy clones stand for those of the map that it replaces.
pub record StdMap (D M HB : Type 0) (key : Key D) : Type 0 where
  pub with_hasher : HB → M
  pub get : M → D → Option ℕ
  pub insert : M → D → ℕ → M
  pub get-with_hasher : (hash_builder : HB) (d : D) → get (with_hasher hash_builder) d ≡ none
  pub get-insert : (m : M) (d : D) (p : ℕ) → Extends ⦃key = key⦄ (get m) d p (get (insert m d p))

pub record TableSharedArcSwap (M : Type 0) : Type 0 where
  pub map : M

pub record BuildTableSharedArcSwap (HB : Type 0) : Type 0 where
  pub hash_builder : HB

unfoldable pub builder_with_hasher : {HB : Type 0} → HB → BuildTableSharedArcSwap HB
builder_with_hasher hash_builder = record { hash_builder = hash_builder }

unfoldable pub builder_clone :
    {HB : Type 0} → BuildHasher HB → BuildTableSharedArcSwap HB → BuildTableSharedArcSwap HB
builder_clone hashers b = record { hash_builder = hashers.clone b.hash_builder }

unfoldable pub builder_default : {HB : Type 0} → BuildHasher HB → BuildTableSharedArcSwap HB
builder_default hashers = record { hash_builder = hashers.default }

module _ {D M HB : Type 0} ⦃key : Key D⦄ (hashers : BuildHasher HB)
    (crate : StdMap D M HB key) where
  unfoldable pub with_hasher : HB → TableSharedArcSwap M
  with_hasher hash_builder = record { map = crate.with_hasher hash_builder }

  unfoldable pub default : TableSharedArcSwap M
  default = with_hasher hashers.default

  unfoldable pub build_tableshared : BuildTableSharedArcSwap HB → TableSharedArcSwap M
  build_tableshared b = with_hasher (hashers.clone b.hash_builder)

  unfoldable pub get : TableSharedArcSwap M → D → Heap D → Option ℕ × Heap D
  get t d h = elim (crate.get t.map d) [
    | none ↦ (none, h)
    | some r ↦ let (p, h') = strong_clone r h in (some p, h')
  ]

  module _ {G : Type 0} where
    -- under the write lock; `none` is a dangling handle
    unfoldable pub insert_locked :
        TableSharedArcSwap M
        → D
        → CreationMeta D G
        → Heap D
        → G
        → Option (ℕ × TableSharedArcSwap M × Heap D × G)
    insert_locked t d creation_meta h g = elim (crate.get t.map d) [
      | some r ↦ let (p, h') = strong_clone r h in some (p, t, h', g)
      | none ↦
          let (d', g') = creation_meta d g in
          let (obj, h₁) = new d' h in
          elim (strong_deref h₁ obj) [
            | none ↦ none
            | some k ↦
                let (r, h₂) = strong_clone obj h₁ in
                some (obj, record { map = crate.insert t.map k r }, h₂, g')
          ]
    ]

    unfoldable pub get_or_insert :
        TableSharedArcSwap M
        → TableSharedArcSwap M
        → D
        → CreationMeta D G
        → Heap D
        → G
        → Option (ℕ × TableSharedArcSwap M × Heap D × G)
    get_or_insert seen t d creation_meta h g = elim (crate.get seen.map d) [
      | some r ↦ let (p, h') = strong_clone r h in some (p, t, h', g)
      | none ↦ insert_locked t d creation_meta h g
    ]

  unfoldable pub reset : TableSharedArcSwap M → TableSharedArcSwap M
  reset t = record { map = crate.with_hasher hashers.default }

  abbrev pub lookup : TableSharedArcSwap M → D → Option ℕ
  lookup t d = crate.get t.map d

  -- A table that was just built, or reset, has nothing.
  arc_swap_empty :
      (t : TableSharedArcSwap M) (b : BuildTableSharedArcSwap HB) (d : D)
      → (lookup (build_tableshared b) d ≡ none) × (lookup (reset t) d ≡ none)
  unfolding build_tableshared with_hasher reset
  arc_swap_empty t b d = (
    crate.get-with_hasher (hashers.clone b.hash_builder) d,
    crate.get-with_hasher hashers.default d,
  )

  module _ {G : Type 0} (t : TableSharedArcSwap M) (d : D) (m : CreationMeta D G) (h : Heap D)
      (g : G) (same : key.equal (m d g).0 d ≡ true) where
    insert_locked-Retained : Returns (insert_locked t d m h g) (Retained ⊥ lookup t d m h g)
    unfolding insert_locked
    insert_locked-Retained =
        let c = (m d g).0 in
        let h₁ = (new c h).1 in
        elim (Option-cases (crate.get t.map d)) [
          | inl absent ↦ (
            (h.next, record { map = crate.insert t.map c h.next }, retain h.next h₁, (m d g).1),
            ground (
              arith,
              absent,
              new_address c h,
              strong_deref-new c h h.next,
              strong_clone_lem h₁ h.next,
            ),
            made _ absent
                (λ e. rw (← equal_congr key c d e same) (crate.get-insert t.map c h.next e)) refl,
          )
          | inr (p, there) ↦ (
            (p, t, retain p h, g),
            ground (arith, there, strong_clone_lem h p),
            kept p there refl,
          )
        ]

  -- If what the map had when it was first loaded is still there under the lock, and
  -- `creation_meta` leaves the data equal to what they were, then `get_or_insert` returns the
  -- handle of equal data, with `creation_meta` not called, or else one new object, of which the map
  -- that is stored then has a handle under the data, and no other entry changes.
  pub arc_swap-Retained :
      {G : Type 0} (seen t : TableSharedArcSwap M) (d : D) (m : CreationMeta D G) (h : Heap D)
      (g : G)
      → ((p : ℕ) → lookup seen d ≡ some p → lookup t d ≡ some p)
      → key.equal (m d g).0 d ≡ true
      → Returns (get_or_insert seen t d m h g) (Retained ⊥ lookup t d m h g)
  unfolding get_or_insert
  arc_swap-Retained seen t d m h g still same = elim (Option-cases (crate.get seen.map d)) [
    | inr (p, hit) ↦ (_, ground (arith, hit, strong_clone_lem h p), kept p (still p hit) refl)
    | inl miss ↦
        let step : get_or_insert seen t d m h g ≡ insert_locked t d m h g =
          rw (get_or_insert, miss) refl in
        rw step (insert_locked-Retained t d m h g same)
  ]
