-- ===== src/Table/Strong.antt =====
-- Tables that hold a strong handle to each node and keep it for as long as they last:
-- table/dashmap_strong.rs, skipmap_strong.rs, flurry_strong.rs and arcswap_strong.rs. Their maps are
-- crates' and std's, so each is a parameter with the laws that its documentation states. A call
-- looks twice: first without a lock, at the map `seen`; and where that misses, once more, at the map
-- that other threads have left by then.
pub mod DashMap
pub mod SkipMap
pub mod Flurry
pub mod ArcSwap
use hirpdag.Base.{ℕ, ◌≡◌, Option, none, some, if◌then◌else◌}
use hirpdag.Key.{Key}
use hirpdag.Ref.{Heap, new, strong_drop}
use hirpdag.Ref.Laws.{retain}
use hirpdag.Table.Interface.{CreationMeta}

module _ {D : Type 0} ⦃key : Key D⦄ where
  -- `get` on a map that has one more entry
  abbrev pub Extends : (D → Option ℕ) → D → ℕ → (D → Option ℕ) → Type 0
  Extends get d p get' = (e : D) → get' e ≡ (if key.equal d e then some p else get e)

  -- what `get_or_insert` returns: the handle that the map has for equal data; or a handle to a new
  -- object, of which the map holds the other one; or the handle that the map has, where an object
  -- was made in vain and dropped, which happens only if `Discards`
  pub data Retained {M G : Type 0} (Discards : Type 0) (get : M → D → Option ℕ) (m : M) (d : D)
      (creation_meta : CreationMeta D G) (h : Heap D) (g : G) (r : ℕ × M × Heap D × G)
      : Type 0 where
    kept :
        (p : ℕ)
        → get m d ≡ some p
        → r ≡ (p, m, retain p h, g)
        → Retained Discards get m d creation_meta h g r
    made :
        (m' : M)
        → get m d ≡ none
        → Extends (get m) d h.next (get m')
        → r ≡ (h.next, m', retain h.next (new (creation_meta d g).0 h).1, (creation_meta d g).1)
        → Retained Discards get m d creation_meta h g r
    discarded :
        Discards
        → (p : ℕ) (h' : Heap D) → get m d ≡ some p
        → h'
          ≡ strong_drop h.next
              (strong_drop h.next (retain p (retain h.next (new (creation_meta d g).0 h).1)))
        → r ≡ (p, m, h', (creation_meta d g).1)
        → Retained Discards get m d creation_meta h g r
