-- ===== src/Ref.antt =====
-- The reference handles of hirpdag_hashconsing/src/reference.rs, over std's `Rc` and `Arc`
-- (reference/rc.rs, reference/arc.rs): a heap of objects with their strong counts.
pub mod Laws
pub mod Leak
pub mod SepCount
pub mod Tlc
use hirpdag.Base.{
  ℕ, zero, suc, ◌+◌, ◌-◌, Bool, true, false, Option, none, some, ◌==◌, if◌then◌else◌,
}

-- An object: its data and the number of strong handles. At 0 the data is gone for every handle.
pub record Cell (D : Type 0) : Type 0 where
  pub strong : ℕ
  pub value : D

-- A handle, strong or weak, is the address of its object. The table's weak handles pin the
-- allocation, so an address is never given out twice.
pub record Heap (D : Type 0) : Type 0 where
  pub next : ℕ
  pub cell : ℕ → Option (Cell D)

module _ {D : Type 0} where
  unfoldable pub write : Heap D → ℕ → Cell D → Heap D
  write h p c = record h { cell = λ q. if p == q then some c else h.cell q }

  -- `R::new`: a new object with one strong handle
  unfoldable pub new : D → Heap D → ℕ × Heap D
  unfolding write
  new d h =
      (h.next, record (write h h.next (record { strong = 1; value = d })) { next = h.next + 1 })

  -- `R::strong_deref`; `none` is a dangling handle
  unfoldable pub strong_deref : Heap D → ℕ → Option D
  strong_deref h p = elim (h.cell p) [
    | none ↦ none
    | some c ↦ if c.strong == 0 then none else some c.value
  ]

  -- `R::strong_clone`: one more handle to the same object
  unfoldable pub strong_clone : ℕ → Heap D → ℕ × Heap D
  unfolding write
  strong_clone p h = elim (h.cell p) [
    | none ↦ (p, h)
    | some c ↦ (p, write h p (record c { strong = c.strong + 1 }))
  ]

  -- the drop of a strong handle
  unfoldable pub strong_drop : ℕ → Heap D → Heap D
  unfolding write
  strong_drop p h = elim (h.cell p) [
    | none ↦ h
    | some c ↦ write h p (record c { strong = c.strong - 1 })
  ]

  -- `RW::weak_upgrade`: a new strong handle, unless no strong handle is left
  unfoldable pub weak_upgrade : ℕ → Heap D → Option ℕ × Heap D
  unfolding write
  weak_upgrade p h = elim (h.cell p) [
    | none ↦ (none, h)
    | some c ↦
        if c.strong == 0
        then (none, h)
        else (some p, write h p (record c { strong = c.strong + 1 }))
  ]

-- `R::strong_ptr_eq`
unfoldable pub strong_ptr_eq : ℕ → ℕ → Bool
strong_ptr_eq a b = a == b

-- `RW::weak_downgrade`
unfoldable pub weak_downgrade : ℕ → ℕ
weak_downgrade p = p
