-- ===== src/Table/HashmapFallback/Laws.antt =====
-- `TableHashmapFallbackWeak` is an inner table, whatever inner table it falls back to.
use hirpdag.Base.{
  ℕ, ◌≤◌, ◌≡◌, refl, ◌⊎◌, inl, inr, true, false, Option, none, some, arith, ◌==◌, if◌then◌else◌,
  length, Option-cases, Bool-cases, Returns,
}
use hirpdag.Base.HashMap
use hirpdag.Key.{Key}
use hirpdag.Ref.Laws.{retain}
use hirpdag.Ref.{Heap, new, weak_downgrade}
use hirpdag.Table.HashmapFallback.{
  TableHashmapFallbackWeak, purge_len_min, get, insert_new, fill_slot,
}
use hirpdag.Table.HashmapFallback.Purge.{
  purged, next_purge, purge_lem, purged-lt-next_purge, purged-IsMap, lookup-purged,
  lookup_of_purged, fill_slot_lem,
}
use hirpdag.Table.Interface.{
  Entries, IsBounded, Finds, hit, miss, Grows, CreationMeta, Interns, fresh, ThreadUnsafeTable,
}
use hirpdag.Table.WeakEntry.{alive, deref_equal, upgrade_equal_lem, alive-new}

module _ {D G : Type 0} ⦃key : Key D⦄ {T : Type 0} (inner : ThreadUnsafeTable D G key T) where
  abbrev pub Entry : TableHashmapFallbackWeak T → Entries
  Entry t k p = (HashMap.lookup k t.m ≡ some p) ⊎ inner.Entry t.fallback k p

  -- `m` never outgrows the length at which it is purged.
  pub record IsValid (t : TableHashmapFallbackWeak T) : Type 0 where
    pub map : HashMap.IsMap t.m
    pub room : length t.m ≤ t.purge_at_len
    pub floor : purge_len_min ≤ t.purge_at_len
    pub below : inner.IsValid t.fallback

  get_lem :
      (t : TableHashmapFallbackWeak T) (hash : ℕ) (d : D) (h : Heap D)
      → get inner t hash d h ≡ (elim (HashMap.lookup hash t.m) [
        | none ↦ inner.get t.fallback hash d h
        | some w ↦ if deref_equal h w d then (some w, retain w h) else inner.get t.fallback hash d h
      ])
  unfolding get
  get_lem t hash d h = elim (Option-cases (HashMap.lookup hash t.m)) [
    | inl e ↦ rw (e, get)
    | inr (w, e) ↦ rw (e, get) (ground (arith, upgrade_equal_lem w d h))
  ]

  -- What the fallback finds is found, where the map has no match.
  Finds-fallback :
      (t : TableHashmapFallbackWeak T) (hash : ℕ) (d : D) (h : Heap D) (r : Option ℕ × Heap D)
      → ((p : ℕ) → HashMap.lookup hash t.m ≡ some p → deref_equal h p d ≡ false)
      → Finds (inner.Entry t.fallback) h hash d r
      → Finds (Entry t) h hash d r
  Finds-fallback t hash d h r none_here (hit p e q eq) = hit p (inr e) q eq
  Finds-fallback t hash d h r none_here (miss n eq) =
      miss (λ p x. elim x [ inl here ↦ none_here p here | inr there ↦ n p there ]) eq

  -- Over a valid table, `get` returns a new handle to an entry of this hash with equal data, in the
  -- map or in the fallback; or nothing, with the heap as it was, and then no entry of this hash has
  -- equal data.
  pub hashmap_fallback-Finds :
      (t : TableHashmapFallbackWeak T) (hash : ℕ) (d : D) (h : Heap D)
      → IsValid t
      → Finds (Entry t) h hash d (get inner t hash d h)
  hashmap_fallback-Finds t hash d h v =
      let found = inner.get_finds t.fallback hash d h v.below in
      elim (Option-cases (HashMap.lookup hash t.m)) [
        | inl empty ↦ rw (get_lem, empty) (Finds-fallback t hash d h _ (λ p e. cc) found)
        | inr (w, full) ↦ elim (Bool-cases (deref_equal h w d)) [
          | inl same ↦ hit w (inl full) same (rw (get_lem, full, same))
          | inr other ↦
              rw (get_lem, full, other) (Finds-fallback t hash d h _ (λ p e. ground arith) found)
        ]
      ]

  grown : TableHashmapFallbackWeak T → ℕ → Heap D → ℕ → TableHashmapFallbackWeak T
  grown t hash h w = record t {
    m = HashMap.insert hash w (purged t.m t.purge_at_len h);
    purge_at_len = next_purge t.m t.purge_at_len h;
  }

  module _ (t : TableHashmapFallbackWeak T) (hash : ℕ) (d : D) (h : Heap D) (v : IsValid t)
      (bound : IsBounded (Entry t) h)
      (free : (w : ℕ) → HashMap.lookup hash t.m ≡ some w → alive h w ≡ false) where
    -- An old slot is not taken by the new object.
    slot_stays_free : (w : ℕ) → HashMap.lookup hash t.m ≡ some w → alive (new d h).1 w ≡ false
    slot_stays_free w e = ground (arith, alive-new d h w, free w e, bound hash w (inl e))

    fill_slot-purged :
        fill_slot hash h.next (purged t.m t.purge_at_len (new d h).1) (new d h).1
        ≡ some (HashMap.insert hash h.next (purged t.m t.purge_at_len (new d h).1), (new d h).1)
    fill_slot-purged =
        let m = purged t.m t.purge_at_len (new d h).1 in
        elim (Option-cases (HashMap.lookup hash m)) [
          | inl e ↦ rw (fill_slot_lem, e)
          | inr (w, e) ↦
              rw (fill_slot_lem, e, slot_stays_free w (lookup_of_purged t.m _ _ hash w v.map e))
        ]

    grown-IsValid : IsValid (grown t hash (new d h).1 h.next)
    unfolding grown
    grown-IsValid =
        let h' = (new d h).1 in
        let m = purged t.m t.purge_at_len h' in
        record {
          map = HashMap.insert-IsMap hash h.next m (purged-IsMap t.m _ h' v.map);
          room = omega (
            arith,
            HashMap.length-insert hash h.next m,
            purged-lt-next_purge t.m t.purge_at_len h' v.room,
          );
          floor = ground (arith, v.floor);
          below = v.below;
        }

    lookup-grown :
        (k : ℕ)
        → HashMap.lookup k (grown t hash (new d h).1 h.next).m ≡ (
            if hash == k
            then some h.next
            else HashMap.lookup k (purged t.m t.purge_at_len (new d h).1))
    unfolding grown
    lookup-grown k = HashMap.lookup-insert hash k h.next _

    grown_only :
        (k p : ℕ)
        → HashMap.lookup k (grown t hash (new d h).1 h.next).m ≡ some p
        → (HashMap.lookup k t.m ≡ some p) ⊎ ((k ≡ hash) × (p ≡ h.next))
    grown_only k p e = elim (Bool-cases (hash == k)) [
      | inl same ↦ inr (ground arith, ground (arith, lookup-grown k))
      | inr other ↦ inl (
          lookup_of_purged t.m t.purge_at_len (new d h).1 k p v.map
            (ground (arith, lookup-grown k)))
    ]

    grown_kept :
        (k p : ℕ)
        → HashMap.lookup k t.m ≡ some p
        → alive h p ≡ true
        → HashMap.lookup k (grown t hash (new d h).1 h.next).m ≡ some p
    grown_kept k p e a =
        let stays =
          lookup-purged t.m t.purge_at_len (new d h).1 k p v.map e
            (ground (arith, alive-new d h p)) in
        elim (Bool-cases (hash == k)) [
          | inl same ↦ ground (arith, free p)
          | inr other ↦ ground (arith, lookup-grown k)
        ]

    grown-Grows : Grows (Entry t) h hash h.next (Entry (grown t hash (new d h).1 h.next))
    unfolding grown
    grown-Grows = record {
      added = inl (ground (arith, lookup-grown hash));
      only = λ k p x. elim x [
        | inl e ↦ elim (grown_only k p e) [ inl was ↦ inl (inl was) | inr is_new ↦ inr is_new ]
        | inr e ↦ inl (inr e)
      ];
      kept = λ k p x a. elim x [ inl e ↦ inl (grown_kept k p e a) | inr e ↦ inr e ];
    }

  module _ (t : TableHashmapFallbackWeak T) (hash : ℕ) (d : D) (creation_meta : CreationMeta D G)
      (h : Heap D) (g : G) (v : IsValid t) (bound : IsBounded (Entry t) h) where
    insert_new_lem :
        ((w : ℕ) → HashMap.lookup hash t.m ≡ some w → alive h w ≡ false)
        → insert_new inner t hash d creation_meta h g
          ≡ some (
            h.next,
            grown t hash (new (creation_meta d g).0 h).1 h.next,
            (new (creation_meta d g).0 h).1,
            (creation_meta d g).1,
          )
    unfolding insert_new grown weak_downgrade new
    insert_new_lem free =
        let h' = (new (creation_meta d g).0 h).1 in
        ground (
          arith,
          purge_lem t.m t.purge_at_len h',
          fill_slot-purged t hash (creation_meta d g).0 h v bound free,
        )

    pub insert_new_fresh :
        ((w : ℕ) → HashMap.lookup hash t.m ≡ some w → alive h w ≡ false)
        → ((p : ℕ) → Entry t hash p → deref_equal h p d ≡ false)
        → Returns
            (insert_new inner t hash d creation_meta h g)
            (Interns Entry IsValid t h g hash d creation_meta)
    insert_new_fresh free none_equal =
        let d' = (creation_meta d g).0 in
        (
          _,
          insert_new_lem free,
          fresh _ none_equal (grown-IsValid t hash d' h v bound free)
              (grown-Grows t hash d' h v bound free) refl,
        )
