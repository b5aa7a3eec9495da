-- ===== src/Table/TovWeak.antt =====
-- table/tov_weak_table_threadunsafe.rs. It ignores the hash that the shared table computed, since the
-- crate hashes the data itself.
use hirpdag.Base.{ℕ, ◌+◌, ◌<◌, ◌≡◌, ◌⊎◌, refl, true, false, Option, none, some}
use hirpdag.Key.{Key}
use hirpdag.Ref.{Heap, new, strong_clone, strong_drop}
use hirpdag.Ref.Laws.{Live}
use hirpdag.Table.Interface.{CreationMeta, Finds}
use hirpdag.Table.WeakEntry.{alive, deref_equal}
pub mod Unique

-- the crate `weak_table`, `WeakHashSet`: `get` gives a strong handle to an element that is equal and
-- still there; `insert` keeps a weak handle where no equal element is there, and drops the strong
-- one. Elements that are gone may go at any insertion.
pub record WeakHashSet (D S : Type 0) (key : Key D) : Type (0 + 1) where
  pub Holds : S → ℕ → Type 0
  pub new : S
  pub get : S → D → Heap D → Option ℕ × Heap D
  pub insert : S → ℕ → Heap D → S × Heap D
  pub new_empty : (p : ℕ) → ¬ Holds new p
  pub get_finds : (s : S) (d : D) (h : Heap D) → Finds ⦃key = key⦄ (λ k. Holds s) h 0 d (get s d h)
  pub insert_drops : (s : S) (p : ℕ) (h : Heap D) → (insert s p h).1 ≡ strong_drop p h
  pub insert_only : (s : S) (p q : ℕ) (h : Heap D) → Holds (insert s p h).0 q → Holds s q ⊎ (q ≡ p)
  pub insert_kept :
      (s : S) (p q : ℕ) (h : Heap D) → Holds s q → alive h q ≡ true → Holds (insert s p h).0 q
  pub insert_added :
      (s : S) (p : ℕ) (d : D) (h : Heap D)
      → Live h p d
      → ((q : ℕ) → Holds s q → deref_equal ⦃key = key⦄ h q d ≡ false)
      → Holds (insert s p h).0 p

pub record TableTovWeakTable (S : Type 0) : Type 0 where
  pub m : S

module _ {D S : Type 0} ⦃key : Key D⦄ (crate : WeakHashSet D S key) where
  unfoldable pub default : TableTovWeakTable S
  default = record { m = crate.new }

  unfoldable pub get : TableTovWeakTable S → ℕ → D → Heap D → Option ℕ × Heap D
  get t hash d h = crate.get t.m d h

  module _ {G : Type 0} where
    -- from `creation_meta(&mut data)` on
    unfoldable pub insert_new :
        TableTovWeakTable S
        → D
        → CreationMeta D G
        → Heap D
        → G
        → ℕ × TableTovWeakTable S × Heap D × G
    insert_new t d creation_meta h g =
        let (d', g') = creation_meta d g in
        let (obj, h₁) = new d' h in
        let (clone, h₂) = strong_clone obj h₁ in
        let (m', h₃) = crate.insert t.m clone h₂ in (obj, record { m = m' }, h₃, g')

    unfoldable pub get_or_insert :
        TableTovWeakTable S
        → ℕ
        → D
        → CreationMeta D G
        → Heap D
        → G
        → ℕ × TableTovWeakTable S × Heap D × G
    unfolding insert_new
    get_or_insert t hash d creation_meta h g =
        let (found, h₁) = crate.get t.m d h in
        elim found [ some r ↦ (r, t, h₁, g) | none ↦ insert_new t d creation_meta h₁ g ]

  unfoldable pub reset : TableTovWeakTable S → TableTovWeakTable S
  unfolding default
  reset t = default
