-- ===== src/Table/Interface.antt =====
-- table.rs, `ThreadUnsafeTable`: the operations of an inner table, and what every implementation of
-- them promises to the shared tables that stand before it.
use hirpdag.Base.{ℕ, ◌≡◌, ◌⊎◌, ◌<◌, true, false, Option, none, some, Returns}
use hirpdag.Key.{Key}
use hirpdag.Ref.{Heap, new}
use hirpdag.Ref.Laws.{retain}
use hirpdag.Table.WeakEntry.{alive, deref_equal}

-- The entries of a table: a hash and the weak handle that is kept under it.
abbrev pub Entries : Type 1
Entries = ℕ → ℕ → Type 0

-- Every entry is the address of an object that has been made.
abbrev pub IsBounded : {D : Type 0} → Entries → Heap D → Type 0
IsBounded E h = (k p : ℕ) → E k p → p < h.next

module _ {D : Type 0} ⦃key : Key D⦄ where
  -- what `get` returns: a handle on an entry with this hash and equal data, or nothing, where no
  -- entry has them
  pub data Finds (E : Entries) (h : Heap D) (hash : ℕ) (d : D) (r : Option ℕ × Heap D)
      : Type 0 where
    hit :
        (p : ℕ)
        → E hash p
        → deref_equal h p d ≡ true
        → r ≡ (some p, retain p h)
        → Finds E h hash d r
    miss : ((p : ℕ) → E hash p → deref_equal h p d ≡ false) → r ≡ (none, h) → Finds E h hash d r

-- One entry more; an entry may go only if its object is gone.
pub record Grows {D : Type 0} (E : Entries) (h : Heap D) (hash new : ℕ) (E' : Entries)
    : Type 0 where
  pub added : E' hash new
  pub only : (k p : ℕ) → E' k p → E k p ⊎ ((k ≡ hash) × (p ≡ new))
  pub kept : (k p : ℕ) → E k p → alive h p ≡ true → E' k p

-- `CF`: the closure that completes fresh data, over the state `G` that it captures
abbrev pub CreationMeta : Type 0 → Type 0 → Type 0
CreationMeta D G = D → G → D × G

module _ {D G : Type 0} ⦃key : Key D⦄ {T : Type 0} where
  -- what `get_or_insert` returns: what `get` finds, with nothing changed and `creation_meta` not
  -- called; or a handle to a fresh object, made by one call of `creation_meta`
  pub data Interns (Entry : T → Entries) (IsValid : T → Type 0) (t : T) (h : Heap D) (g : G)
      (hash : ℕ) (d : D) (creation_meta : CreationMeta D G) (r : ℕ × T × Heap D × G) : Type 0 where
    old :
        (p : ℕ)
        → Entry t hash p
        → deref_equal h p d ≡ true
        → r ≡ (p, t, retain p h, g)
        → Interns Entry IsValid t h g hash d creation_meta r
    fresh :
        (t' : T)
        → ((p : ℕ) → Entry t hash p → deref_equal h p d ≡ false)
        → IsValid t'
        → Grows (Entry t) h hash h.next (Entry t')
        → r ≡ (h.next, t', (new (creation_meta d g).0 h).1, (creation_meta d g).1)
        → Interns Entry IsValid t h g hash d creation_meta r

-- `none` is a panic
pub record ThreadUnsafeTable (D G : Type 0) (key : Key D) (T : Type 0) : Type 1 where
  pub default : T
  pub get : T → ℕ → D → Heap D → Option ℕ × Heap D
  pub get_or_insert : T → ℕ → D → CreationMeta D G → Heap D → G → Option (ℕ × T × Heap D × G)
  pub reset : T → T
  pub Entry : T → Entries
  pub IsValid : T → Type 0
  pub default-IsValid : IsValid default
  pub default_empty : (k p : ℕ) → ¬ Entry default k p
  pub reset-IsValid : (t : T) → IsValid (reset t)
  pub reset_empty : (t : T) (k p : ℕ) → ¬ Entry (reset t) k p
  pub get_finds :
      (t : T) (hash : ℕ) (d : D) (h : Heap D)
      → IsValid t
      → Finds ⦃key = key⦄ (Entry t) h hash d (get t hash d h)
  pub get_or_insert_interns :
      (t : T) (hash : ℕ) (d : D) (m : CreationMeta D G) (h : Heap D) (g : G)
      → IsValid t
      → IsBounded (Entry t) h
      → Returns (get_or_insert t hash d m h g) (Interns ⦃key = key⦄ Entry IsValid t h g hash d m)
