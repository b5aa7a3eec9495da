-- ===== src/Ref/SepCount/Handles.antt =====
-- The handles of reference/sepcount.rs: an address of the data and one of the count slot. The
-- source's `RefSepGeneric` and `RefSepGenericWeak` have these same two fields.
use hirpdag.Base.{ℕ, Bool, Option, none, some, ◌==◌, if◌then◌else◌}
use hirpdag.Ref.SepCount.{
  SlotPool, alloc, write_slot, free_slot, strong_inc, strong_dec, strong_upgrade, weak_inc,
  weak_dec,
}

pub record RefSep : Type 0 where
  pub data_at : ℕ
  pub slot : ℕ

-- the pool, and the boxes that the data stand in
pub record Store (D : Type 0) : Type 0 where
  pub pool : SlotPool
  pub boxes : ℕ → Option D

module _ {D : Type 0} where
  unfoldable pub set_box : Store D → ℕ → Option D → Store D
  set_box st p o = record st { boxes = λ q. if p == q then o else st.boxes q }

  -- `Reference::new`; `p` is the address that the allocator gives to the box
  unfoldable pub new : ℕ → D → Store D → Option (RefSep × Store D)
  unfolding alloc set_box
  new p d st = elim (alloc st.pool) [
    | none ↦ none
    | some r ↦
        some (record { data_at = p; slot = r.0 }, record (set_box st p (some d)) { pool = r.1 })
  ]

  unfoldable pub strong_deref : RefSep → Store D → Option D
  strong_deref r st = st.boxes r.data_at

-- `if slot.weak_dec() { pool.free(slot) }`
unfoldable pub weak_release : ℕ → ℕ → SlotPool → SlotPool
unfolding weak_dec write_slot free_slot
weak_release w s pool =
    let (last, c) = weak_dec w (pool.slot s) in
    let pool' = write_slot pool s c in if last then free_slot pool' s else pool'

module _ {D : Type 0} (w : ℕ) where
  unfoldable pub strong_clone : RefSep → Store D → RefSep × Store D
  unfolding strong_inc write_slot
  strong_clone r st =
      (r, record st { pool = write_slot st.pool r.slot (strong_inc w (st.pool.slot r.slot)) })

  -- `drop(Box::from_raw(..))`, and the weak count of the strong handles is given up
  unfoldable pub release : RefSep → Store D → Option (Store D)
  unfolding weak_release set_box
  release r st = elim (st.boxes r.data_at) [
    | none ↦ none
    | some d ↦ some (record (set_box st r.data_at none) { pool = weak_release w r.slot st.pool })
  ]

  unfoldable pub strong_drop : RefSep → Store D → Option (Store D)
  unfolding strong_dec write_slot release
  strong_drop r st =
      let (last, c) = strong_dec w (st.pool.slot r.slot) in
      let st' = record st { pool = write_slot st.pool r.slot c } in
      if last then release r st' else some st'

  unfoldable pub weak_drop : RefSep → Store D → Store D
  unfolding weak_release
  weak_drop r st = record st { pool = weak_release w r.slot st.pool }

  unfoldable pub weak_upgrade : ℕ → RefSep → Store D → Option RefSep × Store D
  unfolding strong_upgrade write_slot
  weak_upgrade failures r st =
      let (ok, c) = strong_upgrade w failures (st.pool.slot r.slot) in
      (if ok then some r else none, record st { pool = write_slot st.pool r.slot c })

  unfoldable pub weak_downgrade : RefSep → Store D → RefSep × Store D
  unfolding weak_inc write_slot
  weak_downgrade r st =
      (r, record st { pool = write_slot st.pool r.slot (weak_inc w (st.pool.slot r.slot)) })

-- `strong_ptr_eq` compares the data's addresses.
unfoldable pub strong_ptr_eq : RefSep → RefSep → Bool
strong_ptr_eq a b = a.data_at == b.data_at
