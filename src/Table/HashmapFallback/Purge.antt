-- ===== src/Table/HashmapFallback/Purge.antt =====
-- The parts of `TableHashmapFallbackWeak`: the probe of a slot, the purge, the write to a slot.
use hirpdag.Base.{
  ℕ, ◌*◌, ◌<◌, ◌≤◌, ◌≡◌, refl, max, true, false, Option, none, some, List, [], ◌∷◌, arith, leb,
  if◌then◌else◌, length, Option-cases, Bool-cases, inl, inr,
}
use hirpdag.Base.HashMap
use hirpdag.Key.{Key}
use hirpdag.Ref.{Heap}
use hirpdag.Ref.Laws.{retain}
use hirpdag.Table.HashmapFallback.{
  here, vacancy, probe_slot, retain_alive, purge, fill_slot, purge_len_min,
}
use hirpdag.Table.WeakEntry.{
  alive, deref_equal, deref_equal-alive, upgrades-eq-alive, upgrade_equal_lem,
}

module _ {D : Type 0} ⦃key : Key D⦄ where
  -- A taken slot is one whose object is there, with other data.
  pub probe_slot_lem :
      (slot : Option ℕ) (d : D) (h : Heap D)
      → probe_slot slot d h ≡ (elim slot [
        | none ↦ (vacancy true, h)
        | some w ↦
            if deref_equal h w d
            then (here w, retain w h)
            else if alive h w
            then (vacancy false, h)
            else (vacancy true, h)
      ])
  unfolding probe_slot
  probe_slot_lem none d h = refl
  probe_slot_lem (some w) d h =
      ground (arith, upgrades-eq-alive w h, upgrade_equal_lem w d h, deref_equal-alive h w d)

module _ {D : Type 0} where
  pub retain_alive_lem :
      (m : List (ℕ × ℕ)) (h : Heap D) → retain_alive m h ≡ (HashMap.retain (alive h) m, h)
  unfolding retain_alive HashMap.retain
  retain_alive_lem [] h = refl
  retain_alive_lem ((k, w) ∷ m) h = ground (arith, upgrades-eq-alive w h, retain_alive_lem m h)

  abbrev pub purged : List (ℕ × ℕ) → ℕ → Heap D → List (ℕ × ℕ)
  purged m n h = if leb n (length m) then HashMap.retain (alive h) m else m

  abbrev pub next_purge : List (ℕ × ℕ) → ℕ → Heap D → ℕ
  next_purge m n h =
      if leb n (length m) then max purge_len_min (length (HashMap.retain (alive h) m) * 2) else n

  pub purge_lem :
      (m : List (ℕ × ℕ)) (n : ℕ) (h : Heap D) → purge m n h ≡ (purged m n h, next_purge m n h, h)
  unfolding purge
  purge_lem m n h = ground (arith, retain_alive_lem m h)

  -- There is room for one more entry before the next purge.
  pub purged-lt-next_purge :
      (m : List (ℕ × ℕ)) (n : ℕ) (h : Heap D)
      → length m ≤ n
      → length (purged m n h) < next_purge m n h
  purged-lt-next_purge m n h le = ground (arith, HashMap.length-retain (alive h) m)

  pub purged-IsMap :
      (m : List (ℕ × ℕ)) (n : ℕ) (h : Heap D) → HashMap.IsMap m → HashMap.IsMap (purged m n h)
  purged-IsMap m n h u = elim (Bool-cases (leb n (length m))) [
    | inl full ↦ rw full (HashMap.retain-IsMap (alive h) m u)
    | inr room ↦ rw room u
  ]

  -- A purge forgets no object that is there, and invents none.
  pub lookup-purged :
      (m : List (ℕ × ℕ)) (n : ℕ) (h : Heap D) (k p : ℕ)
      → HashMap.IsMap m
      → HashMap.lookup k m ≡ some p
      → alive h p ≡ true
      → HashMap.lookup k (purged m n h) ≡ some p
  lookup-purged m n h k p u e a = ground (arith, HashMap.lookup-retain (alive h) k m u)

  pub lookup_of_purged :
      (m : List (ℕ × ℕ)) (n : ℕ) (h : Heap D) (k p : ℕ)
      → HashMap.IsMap m
      → HashMap.lookup k (purged m n h) ≡ some p
      → HashMap.lookup k m ≡ some p
  lookup_of_purged m n h k p u e = ground (arith, HashMap.lookup-retain (alive h) k m u)

  pub fill_slot_lem :
      (hash weak : ℕ) (m : List (ℕ × ℕ)) (h : Heap D)
      → fill_slot hash weak m h ≡ (elim (HashMap.lookup hash m) [
        | none ↦ some (HashMap.insert hash weak m, h)
        | some w ↦ if alive h w then none else some (HashMap.insert hash weak m, h)
      ])
  unfolding fill_slot
  fill_slot_lem hash weak m h = elim (Option-cases (HashMap.lookup hash m)) [
    | inl e ↦ rw (e, fill_slot)
    | inr (w, e) ↦ rw (e, fill_slot) (ground (arith, upgrades-eq-alive w h))
  ]
