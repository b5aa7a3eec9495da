-- ===== src/Ref/SepCount/Counted.antt =====
-- The invariant of reference/sepcount.rs: the counts are the numbers of the handles that a program
-- holds, and the boxes are those that its strong handles point to.
use hirpdag.Base.{
  ℕ, ◌+◌, ◌^◌, ◌<◌, ◌≡◌, refl, none, some, List, ◌∷◌, length, ◌==◌, if◌then◌else◌, arith, inl, inr,
  Returns,
}
use hirpdag.Ref.SepCount.{strong_inc, weak_inc}
use hirpdag.Ref.SepCount.Client.{Client, HasRoom, Mem, holders, holders-Mem, holders-le, start}
use hirpdag.Ref.SepCount.Counts.{fetch_add_one-lt}
use hirpdag.Ref.SepCount.Handles.{RefSep, new, set_box, strong_clone, weak_downgrade}
use hirpdag.Ref.SepCount.Paired.{Held, IsPaired, strong-IsPaired, weak-IsPaired, new-IsPaired}
use hirpdag.Ref.SepCount.Pool.{IsPool, arena, occurs, alloc-Allocated, write_slot-Wrote}

-- The weak handles, and one more for all the strong ones.
abbrev pub weak_total : ℕ → List RefSep → List RefSep → ℕ
weak_total s strongs weaks = holders s weaks + (if holders s strongs == 0 then 0 else 1)

module _ {D : Type 0} where
  pub record IsCounted (w : ℕ) (c : Client D) : Type 0 where
    pub pool_valid : IsPool c.store.pool
    pub bounded : length c.strongs + length c.weaks < 2 ^ w
    pub strong_count : (s : ℕ) → (c.store.pool.slot s).strong ≡ holders s c.strongs
    pub weak_count : (s : ℕ) → (c.store.pool.slot s).weak ≡ weak_total s c.strongs c.weaks
    pub paired : IsPaired c.store.boxes c.strongs c.weaks

  pub start-IsCounted : (w : ℕ) → 0 < 2 ^ w → IsCounted w (start {D = D})
  unfolding holders arena occurs
  start-IsCounted w h = record {
    pool_valid = record { free_once = λ s j. ground arith; outside = λ s j. (refl, refl) };
    bounded = h;
    strong_count = λ s. refl;
    weak_count = λ s. refl;
    paired = record {
      same_box = λ r q m. ground arith;
      own_slot = λ r q m. ground arith;
      boxed = λ r m. ground arith;
      owned = λ p d e. ground arith;
    };
  }

  -- A held handle's slot is in the arena, with a weak count that is not 0.
  pub Held-weak :
      (w : ℕ) (c : Client D) (r : RefSep)
      → IsCounted w c
      → Held c.strongs c.weaks r
      → (0 < (c.store.pool.slot r.slot).weak) × (r.slot < arena c.store.pool)
  Held-weak w c r k h =
      let n : 0 < (c.store.pool.slot r.slot).weak = elim h [
        | inl m ↦ ground (arith, holders-Mem c.strongs r m, k.weak_count r.slot)
        | inr m ↦ ground (arith, holders-Mem c.weaks r m, k.weak_count r.slot)
      ] in
      (n, ground (arith, k.pool_valid.outside r.slot))

  -- `new`: the slot that it takes had no handle.
  pub new-IsCounted :
      (w p : ℕ) (d : D) (c : Client D)
      → IsCounted w c
      → HasRoom w c
      → c.store.boxes p ≡ none
      → Returns
          (new p d c.store)
          (λ x. IsCounted w (record c { store = x.1; strongs = x.0 ∷ c.strongs }))
  unfolding new set_box holders
  new-IsCounted w p d c k room free =
      let (x, run, a) = alloc-Allocated c.store.pool k.pool_valid in
      let r : RefSep = record { data_at = p; slot = x.0 } in
      let none_held : (holders x.0 c.strongs ≡ 0) × (holders x.0 c.weaks ≡ 0) =
        ground (arith, a.unused, k.weak_count x.0) in
      (
        (r, record (set_box c.store p (some d)) { pool = x.1 }),
        rw (new, run) refl,
        record {
          pool_valid = a.valid;
          bounded = omega arith;
          strong_count = λ s. ground (arith, a.initial, a.others s, k.strong_count s, none_held);
          weak_count = λ s. ground (arith, a.initial, a.others s, k.weak_count s, none_held);
          paired =
              new-IsPaired c.store.boxes c.strongs c.weaks k.paired r d free none_held.0
                none_held.1;
        },
      )

  pub strong_clone-IsCounted :
      (w : ℕ) (c : Client D) (r : RefSep)
      → IsCounted w c
      → HasRoom w c
      → Mem r c.strongs
      → IsCounted w (record c { store = (strong_clone w r c.store).1; strongs = r ∷ c.strongs })
  unfolding strong_clone strong_inc holders
  strong_clone-IsCounted w c r k room m =
      let (pos, inside) = Held-weak w c r k (inl m) in
      let old = c.store.pool.slot r.slot in
      let n = holders-Mem c.strongs r m in
      let up =
        fetch_add_one-lt w old.strong
          (omega (arith, k.strong_count r.slot, holders-le r.slot c.strongs)) in
      let a = write_slot-Wrote c.store.pool r.slot (strong_inc w old) k.pool_valid inside pos pos in
      record {
        pool_valid = a.valid;
        bounded = omega arith;
        strong_count = λ s. ground (arith, a.here, a.others s, k.strong_count s, up);
        weak_count = λ s. ground (arith, a.here, a.others s, k.weak_count s, n);
        paired = strong-IsPaired c.store.boxes c.strongs c.weaks k.paired r m;
      }

  pub weak_downgrade-IsCounted :
      (w : ℕ) (c : Client D) (r : RefSep)
      → IsCounted w c
      → HasRoom w c
      → Mem r c.strongs
      → IsCounted w (record c { store = (weak_downgrade w r c.store).1; weaks = r ∷ c.weaks })
  unfolding weak_downgrade weak_inc holders
  weak_downgrade-IsCounted w c r k room m =
      let (pos, inside) = Held-weak w c r k (inl m) in
      let old = c.store.pool.slot r.slot in
      let n = holders-Mem c.strongs r m in
      let up = fetch_add_one-lt w old.weak (
        ground
          (arith, k.weak_count r.slot, holders-le r.slot c.strongs, holders-le r.slot c.weaks)) in
      let a =
        write_slot-Wrote c.store.pool r.slot (weak_inc w old) k.pool_valid inside pos
          (omega (arith, up)) in
      record {
        pool_valid = a.valid;
        bounded = omega arith;
        strong_count = λ s. ground (arith, a.here, a.others s, k.strong_count s);
        weak_count = λ s. ground (arith, a.here, a.others s, k.weak_count s, up);
        paired = weak-IsPaired c.store.boxes c.strongs c.weaks k.paired r m;
      }
