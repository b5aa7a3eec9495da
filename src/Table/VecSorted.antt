-- ===== src/Table/VecSorted.antt =====
-- table/vec_sorted_threadunsafe.rs: a vector of weak entries, sorted by hash.
pub mod Search
pub mod Insert
pub mod Interns
use hirpdag.Base.{
  ℕ, zero, suc, ◌+◌, ◌-◌, ◌≤◌, ◌<◌, ◌≡◌, Option, none, some, List, [], ◌∷◌, length, get_elem?,
}
use hirpdag.Key.{Key}
use hirpdag.Ref.{Heap, new, weak_downgrade}
use hirpdag.Table.Interface.{CreationMeta}
use hirpdag.Table.WeakEntry
use hirpdag.Table.WeakEntry.{WeakEntry, near, far}

pub record TableVecSortedWeak : Type 0 where
  pub v : List WeakEntry

abbrev pub IsSorted : List WeakEntry → Type 0
IsSorted v =
    (i j : ℕ) (a b : WeakEntry)
    → i ≤ j
    → get_elem? v i ≡ some a
    → get_elem? v j ≡ some b
    → a.hash ≤ b.hash

-- `Ok` and `Err` of `binary_search_by`
pub data Found : Type 0 where
  at : ℕ → Found
  gap : ℕ → Found

-- std's `binary_search_by` with `probe.hash_cmp(&hash)`: in a sorted vector, the index of any entry
-- with this hash, or the index where such an entry keeps the order
pub record BinarySearch : Type 0 where
  pub search : List WeakEntry → ℕ → Found
  pub search_at :
      (v : List WeakEntry) (hash i : ℕ)
      → IsSorted v
      → search v hash ≡ at i
      → (e : WeakEntry) × (get_elem? v i ≡ some e) × (e.hash ≡ hash) × (i < length v)
  pub search_gap :
      (v : List WeakEntry) (hash i : ℕ)
      → IsSorted v
      → search v hash ≡ gap i
      → (i ≤ length v)
        × ((j : ℕ) (e : WeakEntry) → j < i → get_elem? v j ≡ some e → e.hash < hash)
        × ((j : ℕ) (e : WeakEntry) → i ≤ j → get_elem? v j ≡ some e → hash < e.hash)

-- `idx..idx + n`, and `(0..idx).rev()`
unfoldable pub range_up : ℕ → ℕ → List ℕ
range_up idx zero = []
range_up idx (suc n) = idx ∷ range_up (idx + 1) n

unfoldable pub range_down : ℕ → List ℕ
range_down zero = []
range_down (suc idx) = idx ∷ range_down idx

-- `Vec::insert`; `none` is its panic past the end
unfoldable pub insert_at : ℕ → WeakEntry → List WeakEntry → Option (List WeakEntry)
insert_at zero e v = some (e ∷ v)
insert_at (suc idx) e [] = none
insert_at (suc idx) e (a ∷ v) = elim (insert_at idx e v) [ none ↦ none | some v' ↦ some (a ∷ v') ]

unfoldable pub default : TableVecSortedWeak
default = record { v = [] }

unfoldable pub reset : TableVecSortedWeak → TableVecSortedWeak
reset t = record { v = [] }

module _ {D : Type 0} ⦃key : Key D⦄ where
  -- `none` is the panic of an index out of bounds
  unfoldable pub linear_search :
      List WeakEntry → List ℕ → ℕ → D → Heap D → Option (Option ℕ × Heap D)
  linear_search v [] hash d h = some (none, h)
  linear_search v (x ∷ range) hash d h = elim (get_elem? v x) [
    | none ↦ none
    | some e ↦
        let (m, h') = WeakEntry.get_existing_near e hash d h in
        elim m [
          | far ↦ some (none, h')
          | near (some p) ↦ some (some p, h')
          | near none ↦ linear_search v range hash d h'
        ]
  ]

  unfoldable pub linear_search_up : List WeakEntry → ℕ → ℕ → D → Heap D → Option (Option ℕ × Heap D)
  linear_search_up v idx hash d h = linear_search v (range_up idx (length v - idx)) hash d h

  unfoldable pub linear_search_down :
      List WeakEntry → ℕ → ℕ → D → Heap D → Option (Option ℕ × Heap D)
  linear_search_down v idx hash d h = linear_search v (range_down idx) hash d h

  unfoldable pub linear_search_around :
      List WeakEntry → ℕ → ℕ → D → Heap D → Option (Option ℕ × Heap D)
  linear_search_around v idx hash d h = elim (linear_search_up v idx hash d h) [
    | none ↦ none
    | some (some p, h') ↦ some (some p, h')
    | some (none, h') ↦ linear_search_down v idx hash d h'
  ]

  unfoldable pub get :
      BinarySearch → TableVecSortedWeak → ℕ → D → Heap D → Option (Option ℕ × Heap D)
  get std t hash d h = elim (std.search t.v hash) [
    | at idx ↦ linear_search_around t.v idx hash d h
    | gap idx ↦ some (none, h)
  ]

  module _ {G : Type 0} where
    -- from `creation_meta(&mut data)` on
    unfoldable pub insert_new :
        TableVecSortedWeak
        → ℕ
        → ℕ
        → D
        → CreationMeta D G
        → Heap D
        → G
        → Option (ℕ × TableVecSortedWeak × Heap D × G)
    insert_new t insert_index hash d creation_meta h g =
        let (d', g') = creation_meta d g in
        let (obj, h') = new d' h in
        let weak = weak_downgrade obj in
        elim (insert_at insert_index (record { hash = hash; weak = weak }) t.v) [
          | none ↦ none
          | some v ↦ some (obj, record { v = v }, h', g')
        ]

    unfoldable pub get_or_insert :
        BinarySearch
        → TableVecSortedWeak
        → ℕ
        → D
        → CreationMeta D G
        → Heap D
        → G
        → Option (ℕ × TableVecSortedWeak × Heap D × G)
    get_or_insert std t hash d creation_meta h g = elim (std.search t.v hash) [
      | at idx ↦ elim (linear_search_around t.v idx hash d h) [
        | none ↦ none
        | some (some p, h') ↦ some (p, t, h', g)
        | some (none, h') ↦ insert_new t idx hash d creation_meta h' g
      ]
      | gap idx ↦ insert_new t idx hash d creation_meta h g
    ]
