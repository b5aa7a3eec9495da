-- ===== src/Table/Shared.antt =====
-- table.rs, `Table`: the operations of a shared table, one call at a time, and what every
-- implementation of them promises. Each call runs under the lock of the table or of its shard, so
-- calls of several threads are a sequence of calls.
use hirpdag.Base.{ℕ, Option, Returns}
use hirpdag.Key.{Key, Hasher}
use hirpdag.Ref.{Heap}
use hirpdag.Table.Interface.{Entries, IsBounded, Finds, CreationMeta, Interns}

-- `none` is a panic
pub record Table (D G : Type 0) (key : Key D) (hasher : Hasher D key) (TS : Type 0) : Type 1 where
  pub build_tableshared : TS
  pub get : TS → D → Heap D → Option (Option ℕ × Heap D)
  pub get_or_insert : TS → D → CreationMeta D G → Heap D → G → Option (ℕ × TS × Heap D × G)
  pub reset : TS → TS
  pub Entry : TS → Entries
  pub IsValid : TS → Type 0
  pub build_tableshared-IsValid : IsValid build_tableshared
  pub build_tableshared_empty : (k p : ℕ) → ¬ Entry build_tableshared k p
  pub reset-IsValid : (t : TS) → IsValid t → IsValid (reset t)
  pub reset_empty : (t : TS) (k p : ℕ) → ¬ Entry (reset t) k p
  pub get_finds :
      (t : TS) (d : D) (h : Heap D)
      → IsValid t
      → Returns (get t d h) (Finds ⦃key = key⦄ (Entry t) h (hasher.hash_one d) d)
  pub get_or_insert_interns :
      (t : TS) (d : D) (m : CreationMeta D G) (h : Heap D) (g : G)
      → IsValid t
      → IsBounded (Entry t) h
      → Returns
          (get_or_insert t d m h g)
          (Interns ⦃key = key⦄ Entry IsValid t h g (hasher.hash_one d) d m)
