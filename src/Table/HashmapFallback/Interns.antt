-- ===== src/Table/HashmapFallback/Interns.antt =====
-- `get_or_insert` of `TableHashmapFallbackWeak`, on every branch.
use hirpdag.Base.{
  ℕ, ◌≡◌, refl, inl, inr, false, none, some, arith, Option-cases, if◌then◌else◌, Bool-cases,
  Returns,
}
use hirpdag.Base.HashMap
use hirpdag.Key.{Key}
use hirpdag.Ref.Laws.{retain}
use hirpdag.Ref.{Heap, new}
use hirpdag.Table.HashmapFallback.{
  TableHashmapFallbackWeak, default, reset, get, insert_new, fill_vacancy, use_fallback,
  get_or_insert,
}
use hirpdag.Table.HashmapFallback.Laws.{Entry, IsValid, hashmap_fallback-Finds, insert_new_fresh}
use hirpdag.Table.HashmapFallback.Purge.{probe_slot_lem}
use hirpdag.Table.Interface.{
  IsBounded, hit, miss, CreationMeta, Interns, old, fresh, ThreadUnsafeTable,
}
use hirpdag.Table.WeakEntry.{alive, deref_equal, deref_equal-alive}

module _ {D G : Type 0} ⦃key : Key D⦄ {T : Type 0} (inner : ThreadUnsafeTable D G key T) where
  module _ (t : TableHashmapFallbackWeak T) (hash : ℕ) (d : D) (creation_meta : CreationMeta D G)
      (h : Heap D) (g : G) (v : IsValid inner t) (bound : IsBounded (Entry inner t) h) where
    fill_vacancy-Interns :
        ((w : ℕ) → HashMap.lookup hash t.m ≡ some w → alive h w ≡ false)
        → Returns
            (fill_vacancy inner t hash d creation_meta h g)
            (Interns (Entry inner) (IsValid inner) t h g hash d creation_meta)
    unfolding fill_vacancy
    fill_vacancy-Interns free = elim (inner.get_finds t.fallback hash d h v.below) [
      | hit p e q eq ↦ ((p, t, retain p h, g), ground (arith, eq), old p (inr e) q refl)
      | miss n eq ↦
          let none_equal : (p : ℕ) → Entry inner t hash p → deref_equal h p d ≡ false = λ p x.
            elim x [
              | inl here ↦ ground (arith, free p here, deref_equal-alive h p d)
              | inr there ↦ n p there
            ] in
          let step : fill_vacancy inner t hash d creation_meta h g
              ≡ insert_new inner t hash d creation_meta h g =
            ground (arith, eq) in
          rw step (insert_new_fresh inner t hash d creation_meta h g v bound free none_equal)
    ]

    use_fallback-Interns :
        ((p : ℕ) → HashMap.lookup hash t.m ≡ some p → deref_equal h p d ≡ false)
        → Returns
            (use_fallback inner t hash d creation_meta h g)
            (Interns (Entry inner) (IsValid inner) t h g hash d creation_meta)
    unfolding use_fallback
    use_fallback-Interns none_here =
        let (r, run, post) =
          inner.get_or_insert_interns t.fallback hash d creation_meta h g v.below
            (λ k p e. bound k p (inr e)) in
        elim post [
          | old p e q eq ↦ ((p, t, retain p h, g), ground (arith, run, eq), old p (inr e) q refl)
          | fresh s n sv grows eq ↦ (
            (
              h.next,
              record t { fallback = s },
              (new (creation_meta d g).0 h).1,
              (creation_meta d g).1,
            ),
            ground (arith, run, eq),
            fresh (record t { fallback = s })
                (λ p x. elim x [ inl here ↦ none_here p here | inr there ↦ n p there ])
                (record { map = v.map; room = v.room; floor = v.floor; below = sv })
                (record {
                  added = inr grows.added;
                  only = λ k p x. elim x [
                    | inl e ↦ inl (inl e)
                    | inr e ↦ elim (grows.only k p e) [
                      | inl was ↦ inl (inr was)
                      | inr is_new ↦ inr is_new
                    ]
                  ];
                  kept = λ k p x a. elim x [ inl e ↦ inl e | inr e ↦ inr (grows.kept k p e a) ];
                })
                refl,
          )
        ]

    get_or_insert_lem :
        get_or_insert inner t hash d creation_meta h g ≡ (elim (HashMap.lookup hash t.m) [
          | none ↦ fill_vacancy inner t hash d creation_meta h g
          | some w ↦
              if deref_equal h w d
              then some (w, t, retain w h, g)
              else if alive h w
              then use_fallback inner t hash d creation_meta h g
              else fill_vacancy inner t hash d creation_meta h g
        ])
    unfolding get_or_insert
    get_or_insert_lem = ground (arith, probe_slot_lem (HashMap.lookup hash t.m) d h)

    -- Over a valid table and a heap that has its entries, `get_or_insert` does not panic. It returns a
    -- handle to an entry of this hash with equal data, with nothing else changed and `creation_meta`
    -- not called; or, where no entry has equal data, a new object made by one call of
    -- `creation_meta`, which is then an entry of the table, as is every older one whose object is
    -- there. The table stays valid, so its map is never longer than the length that purges it.
    pub hashmap_fallback-Interns :
        Returns
          (get_or_insert inner t hash d creation_meta h g)
          (Interns (Entry inner) (IsValid inner) t h g hash d creation_meta)
    hashmap_fallback-Interns = elim (Option-cases (HashMap.lookup hash t.m)) [
      | inl e ↦ rw (get_or_insert_lem, e) (fill_vacancy-Interns (λ w e'. cc))
      | inr (w, e) ↦ elim (Bool-cases (deref_equal h w d)) [
        | inl same ↦ (_, rw (get_or_insert_lem, e, same), old w (inl e) same refl)
        | inr other ↦ elim (Bool-cases (alive h w)) [
          | inl there ↦
              rw (get_or_insert_lem, e, other, there) (use_fallback-Interns (λ p e'. ground arith))
          | inr gone ↦
              rw (get_or_insert_lem, e, other, gone) (fill_vacancy-Interns (λ p e'. ground arith))
        ]
      ]
    ]

  not-Entry-default : (k p : ℕ) → ¬ Entry inner (default inner) k p
  unfolding default HashMap.lookup
  not-Entry-default k p (inl e) = cc
  not-Entry-default k p (inr e) = inner.default_empty k p e

  not-Entry-reset : (t : TableHashmapFallbackWeak T) (k p : ℕ) → ¬ Entry inner (reset inner t) k p
  unfolding reset HashMap.lookup
  not-Entry-reset t k p (inl e) = cc
  not-Entry-reset t k p (inr e) = inner.reset_empty t.fallback k p e

  default-IsValid : IsValid inner (default inner)
  unfolding default
  default-IsValid = record {
    map = tt;
    room = omega arith;
    floor = omega arith;
    below = inner.default-IsValid;
  }

  reset-IsValid : (t : TableHashmapFallbackWeak T) → IsValid inner (reset inner t)
  unfolding reset
  reset-IsValid t = record {
    map = tt;
    room = omega arith;
    floor = omega arith;
    below = inner.reset-IsValid t.fallback;
  }

  -- A hash map over an inner table is an inner table.
  unfoldable pub table : ThreadUnsafeTable D G key (TableHashmapFallbackWeak T)
  unfolding not-Entry-default not-Entry-reset default-IsValid reset-IsValid
  table = record {
    default = default inner;
    get = get inner;
    get_or_insert = get_or_insert inner;
    reset = reset inner;
    Entry = Entry inner;
    IsValid = IsValid inner;
    default-IsValid = default-IsValid;
    default_empty = not-Entry-default;
    reset-IsValid = reset-IsValid;
    reset_empty = not-Entry-reset;
    get_finds = hashmap_fallback-Finds inner;
    get_or_insert_interns = hashmap_fallback-Interns;
  }
