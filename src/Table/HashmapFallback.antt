-- ===== src/Table/HashmapFallback.antt =====
-- table/hashmap_fallback_threadunsafe.rs: a hash map with one weak handle for each hash, and an
-- inner table for the data whose slot is taken.
pub mod Purge
pub mod Laws
pub mod Interns
use hirpdag.Base.{
  ℕ, ◌+◌, ◌*◌, max, Bool, true, false, Option, none, some, List, [], ◌∷◌, leb, if◌then◌else◌,
  length,
}
use hirpdag.Base.HashMap
use hirpdag.Key.{Key}
use hirpdag.Ref.{Heap, new, weak_downgrade}
use hirpdag.Table.Interface.{CreationMeta, ThreadUnsafeTable}
use hirpdag.Table.WeakEntry.{upgrade_equal, upgrades}

abbrev pub purge_len_min : ℕ
purge_len_min = 64

pub record TableHashmapFallbackWeak (T : Type 0) : Type 0 where
  pub m : List (ℕ × ℕ)
  pub fallback : T
  pub purge_at_len : ℕ

-- What the first `match self.m.entry(hash)` leaves: an early return, or `has_vacancy`.
pub data Slot : Type 0 where
  here : ℕ → Slot
  vacancy : Bool → Slot

module _ {D : Type 0} ⦃key : Key D⦄ where
  unfoldable pub probe_slot : Option ℕ → D → Heap D → Slot × Heap D
  probe_slot none d h = (vacancy true, h)
  probe_slot (some w) d h =
      let (up, h₁) = upgrades w h in
      if up
      then (let (r, h₂) = upgrade_equal w d h₁ in
          elim r [ some p ↦ (here p, h₂) | none ↦ (vacancy false, h₂) ])
      else (vacancy true, h₁)

module _ {D : Type 0} where
  -- `self.m.retain(|_, w| RW::weak_upgrade(w).is_some())`
  unfoldable pub retain_alive : List (ℕ × ℕ) → Heap D → List (ℕ × ℕ) × Heap D
  retain_alive [] h = ([], h)
  retain_alive ((k, w) ∷ m) h =
      let (up, h₁) = upgrades w h in
      let (rest, h₂) = retain_alive m h₁ in (if up then (k, w) ∷ rest else rest, h₂)

  -- the purge: the map, the length for the next purge, and the heap
  unfoldable pub purge : List (ℕ × ℕ) → ℕ → Heap D → List (ℕ × ℕ) × ℕ × Heap D
  purge m purge_at_len h =
      if leb purge_at_len (length m)
      then (let (m', h') = retain_alive m h in (m', max purge_len_min (length m' * 2), h'))
      else (m, purge_at_len, h)

  -- the second `match` on the entry; `none` is the panic of its `assert!`
  unfoldable pub fill_slot : ℕ → ℕ → List (ℕ × ℕ) → Heap D → Option (List (ℕ × ℕ) × Heap D)
  fill_slot hash weak m h = elim (HashMap.lookup hash m) [
    | none ↦ some (HashMap.insert hash weak m, h)
    | some w ↦
        let (up, h') = upgrades w h in if up then none else some (HashMap.insert hash weak m, h')
  ]

module _ {D G : Type 0} ⦃key : Key D⦄ {T : Type 0} (inner : ThreadUnsafeTable D G key T) where
  unfoldable pub default : TableHashmapFallbackWeak T
  default = record { m = []; fallback = inner.default; purge_at_len = purge_len_min }

  unfoldable pub reset : TableHashmapFallbackWeak T → TableHashmapFallbackWeak T
  reset t = record { m = []; fallback = inner.reset t.fallback; purge_at_len = purge_len_min }

  unfoldable pub get : TableHashmapFallbackWeak T → ℕ → D → Heap D → Option ℕ × Heap D
  get t hash d h = elim (HashMap.lookup hash t.m) [
    | none ↦ inner.get t.fallback hash d h
    | some v ↦
        let (r, h') = upgrade_equal v d h in
        elim r [ some up ↦ (some up, h') | none ↦ inner.get t.fallback hash d h' ]
  ]

  -- a fresh object, written to the map
  unfoldable pub insert_new :
      TableHashmapFallbackWeak T
      → ℕ
      → D
      → CreationMeta D G
      → Heap D
      → G
      → Option (ℕ × TableHashmapFallbackWeak T × Heap D × G)
  insert_new t hash d creation_meta h g =
      let (d', g') = creation_meta d g in
      let (obj, h₁) = new d' h in
      let weak = weak_downgrade obj in
      let (m, purge_at_len, h₂) = purge t.m t.purge_at_len h₁ in
      elim (fill_slot hash weak m h₂) [
        | none ↦ none
        | some (m', h₃) ↦
            some
              (obj, record { m = m'; fallback = t.fallback; purge_at_len = purge_at_len }, h₃, g')
      ]

  -- the branch `if has_vacancy`
  unfoldable pub fill_vacancy :
      TableHashmapFallbackWeak T
      → ℕ
      → D
      → CreationMeta D G
      → Heap D
      → G
      → Option (ℕ × TableHashmapFallbackWeak T × Heap D × G)
  fill_vacancy t hash d creation_meta h g =
      let (fallback_obj, h') = inner.get t.fallback hash d h in
      elim fallback_obj [
        | some fobj ↦ some (fobj, t, h', g)
        | none ↦ insert_new t hash d creation_meta h' g
      ]

  -- its `else`
  unfoldable pub use_fallback :
      TableHashmapFallbackWeak T
      → ℕ
      → D
      → CreationMeta D G
      → Heap D
      → G
      → Option (ℕ × TableHashmapFallbackWeak T × Heap D × G)
  use_fallback t hash d creation_meta h g =
      elim (inner.get_or_insert t.fallback hash d creation_meta h g) [
        | none ↦ none
        | some (r, fallback, h', g') ↦ some (r, record t { fallback = fallback }, h', g')
      ]

  unfoldable pub get_or_insert :
      TableHashmapFallbackWeak T
      → ℕ
      → D
      → CreationMeta D G
      → Heap D
      → G
      → Option (ℕ × TableHashmapFallbackWeak T × Heap D × G)
  get_or_insert t hash d creation_meta h g =
      let (slot, h') = probe_slot (HashMap.lookup hash t.m) d h in
      elim slot [
        | here up ↦ some (up, t, h', g)
        | vacancy true ↦ fill_vacancy t hash d creation_meta h' g
        | vacancy false ↦ use_fallback t hash d creation_meta h' g
      ]
