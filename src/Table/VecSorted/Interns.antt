-- ===== src/Table/VecSorted/Interns.antt =====
-- The sorted vector's `get` and `get_or_insert`, whatever index its binary search finds.
use hirpdag.Base.{◌⊎◌, ℕ, ◌≡◌, refl, inl, inr, false, none, Returns}
use hirpdag.Key.{Key}
use hirpdag.Ref.{Heap, new, weak_downgrade}
use hirpdag.Table.Interface.{Finds, hit, miss, CreationMeta, Interns, old, fresh}
use hirpdag.Table.VecSorted.{
  TableVecSortedWeak, Found, at, gap, IsSorted, BinarySearch, get, insert_new, get_or_insert,
}
use hirpdag.Table.VecSorted.Search.{Kept, around-Finds}
use hirpdag.Table.WeakEntry.{deref_equal}
use hirpdag.Table.VecSorted.Insert.{
  Fits, insert_at-IsInserted, inserted-IsSorted, inserted-Grows, gap_absent, at-Fits, gap-Fits,
}

pub Found-cases : (f : Found) → ((i : ℕ) × (f ≡ at i)) ⊎ ((i : ℕ) × (f ≡ gap i))
Found-cases (at i) = inl (i, refl)
Found-cases (gap i) = inr (i, refl)

module _ {D : Type 0} ⦃key : Key D⦄ (std : BinarySearch) where
  -- In a sorted vector, `get` does not panic. It returns a new handle to an entry of this hash with
  -- equal data, wherever in the run of this hash the binary search lands; or nothing, with the heap
  -- as it was, and then no entry of this hash has equal data.
  vec_sorted-Finds :
      (t : TableVecSortedWeak) (hash : ℕ) (d : D) (h : Heap D)
      → IsSorted t.v
      → Returns (get std t hash d h) (Finds (Kept t.v) h hash d)
  unfolding get
  vec_sorted-Finds t hash d h sorted = elim (Found-cases (std.search t.v hash)) [
    | inl (i, e) ↦
        let (here, there, same, lt) = std.search_at t.v hash i sorted e in
        rw (get, e) (around-Finds t.v hash d h sorted i here there same)
    | inr (i, e) ↦ (
      (none, h),
      rw (get, e) refl,
      miss (λ p x. absurd (gap_absent std t.v hash i sorted e p x)) refl,
    )
  ]

  module _ {G : Type 0} (t : TableVecSortedWeak) (hash : ℕ) (d : D) (m : CreationMeta D G)
      (h : Heap D) (g : G) (sorted : IsSorted t.v) where
    abbrev pub Result : ℕ × TableVecSortedWeak × Heap D × G → Type 0
    Result = Interns (λ s. Kept s.v) (λ s. IsSorted s.v) t h g hash d m

    insert_new-Interns :
        (i : ℕ)
        → Fits t.v hash i
        → ((p : ℕ) → Kept t.v hash p → deref_equal h p d ≡ false)
        → Returns (insert_new t i hash d m h g) Result
    unfolding insert_new weak_downgrade new
    insert_new-Interns i fits absent =
        let (v', run, law) =
          insert_at-IsInserted i (record { hash = hash; weak = h.next }) t.v fits.inside in
        (
          (h.next, record { v = v' }, (new (m d g).0 h).1, (m d g).1),
          rw (insert_new, run) refl,
          fresh (record { v = v' }) absent (inserted-IsSorted t.v hash i h.next fits v' law sorted)
              (inserted-Grows t.v hash i h.next fits v' law h) refl,
        )

    -- In a sorted vector, `get_or_insert` does not panic. It returns a handle to an entry of this
    -- hash with equal data, with nothing else changed and `creation_meta` not called; or, where
    -- there is none, a new object made by one call of `creation_meta`, which is then an entry,
    -- in a vector that is sorted again; every older entry whose object is there stays.
    pub vec_sorted-Interns : Returns (get_or_insert std t hash d m h g) Result
    unfolding get_or_insert
    vec_sorted-Interns = elim (Found-cases (std.search t.v hash)) [
      | inl (i, e) ↦
          let (here, there, same, lt) = std.search_at t.v hash i sorted e in
          let (r, run, found) = around-Finds t.v hash d h sorted i here there same in
          elim found [
            | hit p k q eq ↦ (_, rw (get_or_insert, e, run, eq) refl, old p k q refl)
            | miss absent eq ↦
                let step : get_or_insert std t hash d m h g ≡ insert_new t i hash d m h g =
                  rw (get_or_insert, e, run, eq) refl in
                rw step (insert_new-Interns i (at-Fits std t.v hash i sorted e) absent)
          ]
      | inr (i, e) ↦
          let step : get_or_insert std t hash d m h g ≡ insert_new t i hash d m h g =
            rw (get_or_insert, e) refl in
          rw step (
            insert_new-Interns i (gap-Fits std t.v hash i sorted e)
              (λ p x. absurd (gap_absent std t.v hash i sorted e p x)))
    ]
