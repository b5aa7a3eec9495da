-- ===== src/Tests/SepCount.antt =====
-- The theorems on separate counts with 32-bit counters: an object is made at address 5, gets a weak
-- handle, and loses its strong handle; the weak handle finds nothing any more.
use hirpdag.Base.{
  ℕ, ◌+◌, ◌≡◌, ◌↔◌, refl, Option, none, some, [], ◌∷◌, ◌==◌, if◌then◌else◌, arith, Returns, inl,
}
use hirpdag.Ref.SepCount.Client.{
  Client, Mem, Steps, made, downgraded, done, step, start, holders, remove,
}
use hirpdag.Ref.SepCount.Counted.{IsCounted, Held-weak}
use hirpdag.Ref.SepCount.Handles.{
  RefSep, Store, new, strong_deref, strong_drop, weak_upgrade, weak_downgrade,
}
use hirpdag.Ref.SepCount.{alloc, pop_slot, refill, push_slots, init, write_slot}
use hirpdag.Ref.SepCount.Handles
use hirpdag.Ref.SepCount.Pool.{occurs}
use hirpdag.Ref.SepCount.Steps.{Steps-IsCounted, freed_iff, Steps-returns}
use hirpdag.Ref.SepCount.Upgrades.{Upgraded, weak_upgrade-Upgraded}

abbrev store_of : Option (RefSep × Store ℕ) → Store ℕ
store_of none = (start {D = ℕ}).store
store_of (some (r, st)) = st

abbrev handle : RefSep
handle = record { data_at = 5; slot = 4095 }

abbrev one : Client ℕ
one = record { store = store_of (new 5 7 (start {D = ℕ}).store); strongs = handle ∷ []; weaks = [] }

abbrev two : Client ℕ
two = record one { store = (weak_downgrade 32 handle one.store).1; weaks = handle ∷ [] }

new_run : new 5 7 (start {D = ℕ}).store ≡ some (handle, one.store)
unfolding new alloc pop_slot refill push_slots init write_slot Handles.set_box
new_run = refl

one-Steps : Steps 32 start one
one-Steps = step done (made 5 7 handle one.store (omega arith) refl new_run)

two-Steps : Steps 32 start two
two-Steps = step one-Steps (downgraded handle (0, refl) (omega arith))

Steps-IsCounted_example : IsCounted 32 two
Steps-IsCounted_example = Steps-IsCounted 32 two-Steps

freed_iff_example :
    (occurs 4095 two.store.pool.free
      ≡ (if holders 4095 two.strongs + holders 4095 two.weaks == 0 then 1 else 0))
    × (((d : ℕ) × (two.store.boxes 5 ≡ some d))
        ↔ ((r : RefSep) × Mem r two.strongs × (r.data_at ≡ 5)))
freed_iff_example =
    freed_iff 32 4095 5 two-Steps
      (Held-weak 32 two handle (Steps-IsCounted 32 two-Steps) (inl (0, refl))).1

Steps-returns_example :
    ((e : ℕ) × (strong_deref handle two.store ≡ some e))
    × Returns
        (strong_drop 32 handle two.store)
        (λ st. IsCounted 32 (record two { store = st; strongs = remove 0 two.strongs }))
    × Returns
        (new 6 8 two.store)
        (λ x. IsCounted 32 (record two { store = x.1; strongs = x.0 ∷ two.strongs }))
unfolding new alloc pop_slot refill push_slots init write_slot Handles.set_box weak_downgrade
Steps-returns_example = Steps-returns 32 0 6 8 handle two-Steps (omega arith) refl refl

weak_upgrade-Upgraded_example : Upgraded 32 two handle (weak_upgrade 32 3 handle two.store)
weak_upgrade-Upgraded_example =
    weak_upgrade-Upgraded 32 3 two handle (Steps-IsCounted 32 two-Steps) (omega arith) (0, refl)
