-- ===== src/Table/SharedMutex.antt =====
-- table/shared_mutex.rs: one inner table behind one mutex.
pub mod Builder
use hirpdag.Base.{ℕ, refl, Option, none, some, arith, Returns}
use hirpdag.Key.{Key, Hasher}
use hirpdag.Ref.{Heap, new}
use hirpdag.Ref.Laws.{retain}
use hirpdag.Table.Interface.{
  Entries, IsBounded, Finds, CreationMeta, Interns, old, fresh, ThreadUnsafeTable,
}
use hirpdag.Table.Shared.{Table}

pub record TableSharedMutex (T : Type 0) : Type 0 where
  pub inner : T

module _ {D G : Type 0} ⦃key : Key D⦄ (hasher : Hasher D key) {T : Type 0}
    (below : ThreadUnsafeTable D G key T) where
  unfoldable pub make_hash : D → ℕ
  make_hash d = hasher.hash_one d

  unfoldable pub build_tableshared : TableSharedMutex T
  build_tableshared = record { inner = below.default }

  unfoldable pub get : TableSharedMutex T → D → Heap D → Option ℕ × Heap D
  get t d h = let hash = make_hash d in below.get t.inner hash d h

  unfoldable pub get_or_insert :
      TableSharedMutex T
      → D
      → CreationMeta D G
      → Heap D
      → G
      → Option (ℕ × TableSharedMutex T × Heap D × G)
  get_or_insert t d creation_meta h g =
      let hash = make_hash d in
      elim (below.get_or_insert t.inner hash d creation_meta h g) [
        | none ↦ none
        | some (r, inner, h', g') ↦ some (r, record { inner = inner }, h', g')
      ]

  unfoldable pub reset : TableSharedMutex T → TableSharedMutex T
  reset t = record { inner = below.reset t.inner }

  abbrev pub Entry : TableSharedMutex T → Entries
  Entry t = below.Entry t.inner

  abbrev pub IsValid : TableSharedMutex T → Type 0
  IsValid t = below.IsValid t.inner

  shared_mutex-Finds :
      (t : TableSharedMutex T) (d : D) (h : Heap D)
      → IsValid t
      → Finds (Entry t) h (hasher.hash_one d) d (get t d h)
  unfolding get make_hash
  shared_mutex-Finds t d h v = below.get_finds t.inner (hasher.hash_one d) d h v

  -- `get_or_insert` behind one mutex does what the inner table promises under the hash of the data:
  -- no panic; a handle to an entry with equal data, or else one new object, which is then an entry.
  pub shared_mutex-Interns :
      (t : TableSharedMutex T) (d : D) (m : CreationMeta D G) (h : Heap D) (g : G)
      → IsValid t
      → IsBounded (Entry t) h
      → Returns (get_or_insert t d m h g) (Interns Entry IsValid t h g (hasher.hash_one d) d m)
  unfolding get_or_insert make_hash
  shared_mutex-Interns t d m h g v b =
      let (r, run, post) = below.get_or_insert_interns t.inner (hasher.hash_one d) d m h g v b in
      elim post [
        | old p e q eq ↦ ((p, t, retain p h, g), ground (arith, run, eq), old p e q refl)
        | fresh s n sv grows eq ↦ (
          (h.next, record { inner = s }, (new (m d g).0 h).1, (m d g).1),
          ground (arith, run, eq),
          fresh (record { inner = s }) n sv grows refl,
        )
      ]

  build_tableshared-IsValid : IsValid build_tableshared
  unfolding build_tableshared
  build_tableshared-IsValid = below.default-IsValid

  not-Entry-build : (k p : ℕ) → ¬ Entry build_tableshared k p
  unfolding build_tableshared
  not-Entry-build = below.default_empty

  reset-IsValid : (t : TableSharedMutex T) → IsValid t → IsValid (reset t)
  unfolding reset
  reset-IsValid t v = below.reset-IsValid t.inner

  not-Entry-reset : (t : TableSharedMutex T) (k p : ℕ) → ¬ Entry (reset t) k p
  unfolding reset
  not-Entry-reset t = below.reset_empty t.inner

  -- An inner table behind a mutex is a shared table.
  unfoldable pub table : Table D G key hasher (TableSharedMutex T)
  unfolding build_tableshared-IsValid not-Entry-build reset-IsValid not-Entry-reset
      shared_mutex-Finds
  table = record {
    build_tableshared = build_tableshared;
    get = λ t d h. some (get t d h);
    get_or_insert = get_or_insert;
    reset = reset;
    Entry = Entry;
    IsValid = IsValid;
    build_tableshared-IsValid = build_tableshared-IsValid;
    build_tableshared_empty = not-Entry-build;
    reset-IsValid = reset-IsValid;
    reset_empty = not-Entry-reset;
    get_finds = λ t d h v. (get t d h, refl, shared_mutex-Finds t d h v);
    get_or_insert_interns = shared_mutex-Interns;
  }
