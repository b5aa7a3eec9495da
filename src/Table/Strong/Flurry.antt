-- ===== src/Table/Strong/Flurry.antt =====
-- table/flurry_strong.rs.
use hirpdag.Base.{
  ℕ, ◌≡◌, refl, sym, ◌∙◌, inl, inr, true, Option, none, some, arith, Option-cases, Returns,
}
use hirpdag.Key.{Key, BuildHasher, equal_congr}
use hirpdag.Ref.{Heap, new, strong_clone, strong_deref, strong_drop}
use hirpdag.Ref.Laws.{retain, strong_clone_lem, strong_deref-new, new_address}
use hirpdag.Table.Interface.{CreationMeta}
use hirpdag.Table.Strong.{Extends, Retained, kept, made, discarded}

-- the crate `flurry`: `try_insert` inserts, or returns the value that is there
pub record Flurry (D M HB : Type 0) (key : Key D) : Type 0 where
  pub with_hasher : HB → M
  pub get : M → D → Option ℕ
  pub try_insert : M → D → ℕ → M × Option ℕ
  pub clear : M → M
  pub get-with_hasher : (hash_builder : HB) (d : D) → get (with_hasher hash_builder) d ≡ none
  pub get-clear : (m : M) (d : D) → get (clear m) d ≡ none
  pub try_insert_taken :
      (m : M) (d : D) (p q : ℕ) → get m d ≡ some q → try_insert m d p ≡ (m, some q)
  pub try_insert_free :
      (m : M) (d : D) (p : ℕ)
      → get m d ≡ none
      → ((try_insert m d p).1 ≡ none) × Extends ⦃key = key⦄ (get m) d p (get (try_insert m d p).0)
  -- keys that are equal are one key
  pub get-equal : (m : M) (d e : D) → key.equal d e ≡ true → get m d ≡ get m e

pub record TableSharedFlurry (M : Type 0) : Type 0 where
  pub map : M

pub record BuildTableSharedFlurry (HB : Type 0) : Type 0 where
  pub hash_builder : HB

unfoldable pub builder_with_hasher : {HB : Type 0} → HB → BuildTableSharedFlurry HB
builder_with_hasher hash_builder = record { hash_builder = hash_builder }

unfoldable pub builder_clone :
    {HB : Type 0} → BuildHasher HB → BuildTableSharedFlurry HB → BuildTableSharedFlurry HB
builder_clone hashers b = record { hash_builder = hashers.clone b.hash_builder }

unfoldable pub builder_default : {HB : Type 0} → BuildHasher HB → BuildTableSharedFlurry HB
builder_default hashers = record { hash_builder = hashers.default }

module _ {D M HB : Type 0} ⦃key : Key D⦄ (hashers : BuildHasher HB)
    (crate : Flurry D M HB key) where
  unfoldable pub with_hasher : HB → TableSharedFlurry M
  with_hasher hash_builder = record { map = crate.with_hasher hash_builder }

  unfoldable pub default : TableSharedFlurry M
  default = with_hasher hashers.default

  unfoldable pub build_tableshared : BuildTableSharedFlurry HB → TableSharedFlurry M
  build_tableshared b = with_hasher (hashers.clone b.hash_builder)

  unfoldable pub get : TableSharedFlurry M → D → Heap D → Option ℕ × Heap D
  get t d h = elim (crate.get t.map d) [
    | none ↦ (none, h)
    | some r ↦ let (p, h') = strong_clone r h in (some p, h')
  ]

  module _ {G : Type 0} where
    -- from `creation_meta(&mut data)` on; `none` is a dangling handle
    unfoldable pub insert_new :
        TableSharedFlurry M
        → D
        → CreationMeta D G
        → Heap D
        → G
        → Option (ℕ × TableSharedFlurry M × Heap D × G)
    insert_new t d creation_meta h g =
        let (d', g') = creation_meta d g in
        let (obj, h₁) = new d' h in
        elim (strong_deref h₁ obj) [
          | none ↦ none
          | some k ↦
              let (r, h₂) = strong_clone obj h₁ in
              let (map, e) = crate.try_insert t.map k r in
              elim e [
                | none ↦ some (obj, record { map = map }, h₂, g')
                | some current ↦
                    let (p, h₃) = strong_clone current h₂ in
                    some (p, record { map = map }, strong_drop obj (strong_drop r h₃), g')
              ]
        ]

    unfoldable pub get_or_insert :
        TableSharedFlurry M
        → TableSharedFlurry M
        → D
        → CreationMeta D G
        → Heap D
        → G
        → Option (ℕ × TableSharedFlurry M × Heap D × G)
    get_or_insert seen t d creation_meta h g = elim (crate.get seen.map d) [
      | some r ↦ let (p, h') = strong_clone r h in some (p, t, h', g)
      | none ↦ insert_new t d creation_meta h g
    ]

  unfoldable pub reset : TableSharedFlurry M → TableSharedFlurry M
  reset t = record { map = crate.clear t.map }

  abbrev pub lookup : TableSharedFlurry M → D → Option ℕ
  lookup t d = crate.get t.map d

  -- A table that was just built, or reset, has nothing.
  flurry_empty :
      (t : TableSharedFlurry M) (b : BuildTableSharedFlurry HB) (d : D)
      → (lookup (build_tableshared b) d ≡ none) × (lookup (reset t) d ≡ none)
  unfolding build_tableshared with_hasher reset
  flurry_empty t b d =
      (crate.get-with_hasher (hashers.clone b.hash_builder) d, crate.get-clear t.map d)

  module _ {G : Type 0} (seen t : TableSharedFlurry M) (d : D) (m : CreationMeta D G) (h : Heap D)
      (g : G) (same : key.equal (m d g).0 d ≡ true) (miss : lookup seen d ≡ none) where
    -- Where no entry has equal data when the new object is inserted, it becomes one; where one
    -- has, the new object is dropped.
    insert_new-Retained :
        Returns (insert_new t d m h g) (Retained (lookup seen d ≡ none) lookup t d m h g)
    unfolding insert_new
    insert_new-Retained =
        let c = (m d g).0 in
        let h₁ = (new c h).1 in
        let at = new_address c h in
        let there = strong_deref-new c h h.next in
        let one_key = crate.get-equal t.map c d same in
        elim (Option-cases (crate.get t.map c)) [
          | inl absent ↦
              let (free, extends) = crate.try_insert_free t.map c h.next absent in
              (
                (
                  h.next,
                  record { map = (crate.try_insert t.map c h.next).0 },
                  retain h.next h₁,
                  (m d g).1,
                ),
                ground (arith, at, there, free, strong_clone_lem h₁ h.next),
                made _ (sym one_key ∙ absent) (λ e. rw (← equal_congr key c d e same) (extends e))
                    refl,
              )
          | inr (p, taken) ↦ (
            (
              p,
              t,
              strong_drop h.next (strong_drop h.next (retain p (retain h.next h₁))),
              (m d g).1,
            ),
            ground (
              arith,
              at,
              there,
              crate.try_insert_taken t.map c h.next p taken,
              strong_clone_lem h₁ h.next,
              strong_clone_lem (retain h.next h₁) p,
            ),
            discarded miss p _ (sym one_key ∙ taken) refl refl,
          )
        ]

  -- If what the map had when it was first read is still there at the insertion, and
  -- `creation_meta` leaves the data equal to what they were, then `get_or_insert` returns the
  -- handle of equal data; or a new object, of which the map then has a handle under the data, and
  -- no other entry changes. Only where the first look missed and another thread has been faster is
  -- an object made in vain: it is dropped, and its creation id is used up.
  pub flurry-Retained :
      {G : Type 0} (seen t : TableSharedFlurry M) (d : D) (m : CreationMeta D G) (h : Heap D)
      (g : G)
      → ((p : ℕ) → lookup seen d ≡ some p → lookup t d ≡ some p)
      → key.equal (m d g).0 d ≡ true
      → Returns (get_or_insert seen t d m h g) (Retained (lookup seen d ≡ none) lookup t d m h g)
  unfolding get_or_insert
  flurry-Retained seen t d m h g still same = elim (Option-cases (crate.get seen.map d)) [
    | inr (p, hit) ↦ (_, ground (arith, hit, strong_clone_lem h p), kept p (still p hit) refl)
    | inl miss ↦
        let step : get_or_insert seen t d m h g ≡ insert_new t d m h g =
          rw (get_or_insert, miss) refl in
        rw step (insert_new-Retained seen t d m h g same miss)
  ]
