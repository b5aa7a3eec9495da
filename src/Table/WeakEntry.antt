-- ===== src/Table/WeakEntry.antt =====
-- table/weak_entry.rs: a cached hash beside a weak handle.
use hirpdag.Base.{ℕ, ◌≡◌, Bool, true, false, Option, none, some, arith, ◌==◌, if◌then◌else◌, ◌&&◌}
use hirpdag.Key.{Key}
use hirpdag.Ref.{Heap, new, strong_deref, strong_drop, weak_upgrade}
use hirpdag.Ref.Laws.{retain, weak_upgrade_lem, strong_drop-retain, strong_deref-retain}

pub record WeakEntry : Type 0 where
  pub hash : ℕ
  pub weak : ℕ

-- `Result<Option<R>, ()>`
pub data Near : Type 0 where
  near : Option ℕ → Near
  far : Near

module _ {D : Type 0} ⦃key : Key D⦄ where
  -- `*R::strong_deref(&up) == *data`
  unfoldable pub deref_equal : Heap D → ℕ → D → Bool
  deref_equal h p d = elim (strong_deref h p) [ none ↦ false | some x ↦ key.equal x d ]

  unfoldable pub upgrade_equal : ℕ → D → Heap D → Option ℕ × Heap D
  upgrade_equal w d h =
      let (r, h') = weak_upgrade w h in
      elim r [
        | none ↦ (none, h')
        | some up ↦ if deref_equal h' up d then (some up, h') else (none, strong_drop up h')
      ]

  unfoldable pub get_data : WeakEntry → D → Heap D → Option ℕ × Heap D
  unfolding upgrade_equal
  get_data e d h = upgrade_equal e.weak d h

  unfoldable pub get : WeakEntry → ℕ → D → Heap D → Option ℕ × Heap D
  get e hash d h = if e.hash == hash then get_data e d h else (none, h)

  unfoldable pub get_existing_near : WeakEntry → ℕ → D → Heap D → Near × Heap D
  get_existing_near e hash d h =
      if e.hash == hash then (let (r, h') = get_data e d h in (near r, h')) else (far, h)

module _ {D : Type 0} where
  -- `RW::weak_upgrade(w).is_some()`; the upgraded handle is dropped at once
  unfoldable pub upgrades : ℕ → Heap D → Bool × Heap D
  upgrades w h =
      let (r, h') = weak_upgrade w h in
      elim r [ none ↦ (false, h') | some up ↦ (true, strong_drop up h') ]

  unfoldable pub is_alive : WeakEntry → Heap D → Bool × Heap D
  unfolding upgrades
  is_alive e h = upgrades e.weak h

  -- the object of a handle is there
  unfoldable pub alive : Heap D → ℕ → Bool
  alive h p = elim (strong_deref h p) [ none ↦ false | some _ ↦ true ]

  pub upgrades-eq-alive : (w : ℕ) (h : Heap D) → upgrades w h ≡ (alive h w, h)
  unfolding upgrades alive
  upgrades-eq-alive w h = ground (arith, weak_upgrade_lem h w, strong_drop-retain h w)

  -- A new object is there, and the others are as they were.
  pub alive-new :
      (d : D) (h : Heap D) (q : ℕ) → alive (new d h).1 q ≡ (if h.next == q then true else alive h q)
  unfolding alive new strong_deref
  alive-new d h q = ground arith

module _ {D : Type 0} ⦃key : Key D⦄ where
  pub deref_equal-alive : (h : Heap D) (p : ℕ) (d : D) → deref_equal h p d ≡ true → alive h p ≡ true
  unfolding deref_equal alive
  deref_equal-alive h p d m = ground arith

  -- A probe that fails leaves the heap as it was; one that succeeds adds one handle.
  pub upgrade_equal_lem :
      (w : ℕ) (d : D) (h : Heap D)
      → upgrade_equal w d h ≡ (if deref_equal h w d then (some w, retain w h) else (none, h))
  unfolding upgrade_equal deref_equal
  upgrade_equal_lem w d h =
      ground (arith, weak_upgrade_lem h w, strong_drop-retain h w, strong_deref-retain h w w)

  pub get_lem :
      (e : WeakEntry) (hash : ℕ) (d : D) (h : Heap D)
      → get e hash d h ≡ (
          if (e.hash == hash) && deref_equal h e.weak d
          then (some e.weak, retain e.weak h)
          else (none, h))
  unfolding get get_data
  get_lem e hash d h = ground (arith, upgrade_equal_lem e.weak d h)

  pub get_existing_near_lem :
      (e : WeakEntry) (hash : ℕ) (d : D) (h : Heap D)
      → get_existing_near e hash d h ≡ (
          if e.hash == hash
          then (if deref_equal h e.weak d
              then (near (some e.weak), retain e.weak h)
              else (near none, h))
          else (far, h))
  unfolding get_existing_near get_data
  get_existing_near_lem e hash d h = ground (arith, upgrade_equal_lem e.weak d h)
