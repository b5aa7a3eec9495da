-- ===== src/Ref/SepCount/Drops.antt =====
-- Drops and upgrades of reference/sepcount.rs keep the invariant; a drop never frees twice.
use hirpdag.Base.{
  ℕ, zero, suc, ◌+◌, ◌^◌, ◌<◌, ◌≡◌, refl, none, some, List, [], ◌∷◌, length, ◌==◌, arith, inl, inr,
  Returns, ◌∙◌, ap, get_elem?, Bool-cases, true, false,
}
use hirpdag.Ref.SepCount.{write_slot, strong_dec, fetch_sub_one}
use hirpdag.Ref.SepCount.Client.{Client, remove, holders, holders-remove, holders-le}
use hirpdag.Ref.SepCount.Counted.{IsCounted, Held-weak, weak_total}
use hirpdag.Ref.SepCount.Counts.{fetch_sub_one-suc}
use hirpdag.Ref.SepCount.Handles.{
  RefSep, Store, set_box, release, weak_release, strong_drop, weak_drop,
}
use hirpdag.Ref.SepCount.Paired.{removed-IsPaired, last-IsPaired, weak_removed-IsPaired}
use hirpdag.Ref.SepCount.Pool.{write_slot-Wrote, weak_release-Wrote}

length-remove :
    (rs : List RefSep) (i : ℕ) (r : RefSep)
    → get_elem? rs i ≡ some r
    → length (remove i rs) + 1 ≡ length rs
unfolding remove
length-remove [] i r e = cc
length-remove (q ∷ rs) zero r e = omega arith
length-remove (q ∷ rs) (suc i) r e = omega (arith, length-remove rs i r e)

module _ {D : Type 0} (w : ℕ) where
  -- A drop that leaves `n` strong handles, and one that leaves none
  drop_others :
      (r : RefSep) (st : Store D) (n : ℕ)
      → (st.pool.slot r.slot).strong ≡ n + 1
      → n + 1 < 2 ^ w
      → (n == 0) ≡ false
      → strong_drop w r st
        ≡ some (record st {
          pool = write_slot st.pool r.slot (record (st.pool.slot r.slot) { strong = n });
        })
  unfolding strong_drop strong_dec
  drop_others r st n e h more =
      let f : fetch_sub_one w (st.pool.slot r.slot).strong ≡ n = rw e (fetch_sub_one-suc w n h) in
      let b : ((st.pool.slot r.slot).strong == 1) ≡ false = ground arith in rw (b, f) refl

  unfoldable with_strong : RefSep → Store D → ℕ → Store D
  with_strong r st n = record st {
    pool = write_slot st.pool r.slot (record (st.pool.slot r.slot) { strong = n });
  }

  release-some :
      (r : RefSep) (st : Store D) (d : D)
      → st.boxes r.data_at ≡ some d
      → release w r st
        ≡ some (record (set_box st r.data_at none) { pool = weak_release w r.slot st.pool })
  unfolding release
  release-some r st d box = rw (release, box) refl

  drop_last :
      (r : RefSep) (st : Store D) (d : D)
      → (st.pool.slot r.slot).strong ≡ 1
      → 1 < 2 ^ w
      → st.boxes r.data_at ≡ some d
      → strong_drop w r st
        ≡ some (record (set_box st r.data_at none) {
          pool =
              weak_release w r.slot
                (write_slot st.pool r.slot (record (st.pool.slot r.slot) { strong = 0 }));
        })
  unfolding strong_drop strong_dec with_strong set_box
  drop_last r st d e h box =
      let f : fetch_sub_one w (st.pool.slot r.slot).strong ≡ 0 = rw e (fetch_sub_one-suc w 0 h) in
      let b : ((st.pool.slot r.slot).strong == 1) ≡ true = ground arith in
      let run : strong_drop w r st
          ≡ release w r (with_strong r st (fetch_sub_one w (st.pool.slot r.slot).strong)) =
        rw b refl in
      run ∙ ap (λ n. release w r (with_strong r st n)) f ∙ release-some r (with_strong r st 0) d box

  pub strong_drop-IsCounted :
      (c : Client D) (i : ℕ) (r : RefSep)
      → IsCounted w c
      → get_elem? c.strongs i ≡ some r
      → Returns
          (strong_drop w r c.store)
          (λ st. IsCounted w (record c { store = st; strongs = remove i c.strongs }))
  unfolding set_box
  strong_drop-IsCounted c i r k e =
      let old = c.store.pool.slot r.slot in
      let left = holders r.slot (remove i c.strongs) in
      let fewer = length-remove c.strongs i r e in
      let counts = λ (s : ℕ). holders-remove c.strongs i r s e in
      let (pos, inside) = Held-weak w c r k (inl (i, e)) in
      let below : left + 1 < 2 ^ w =
        ground (arith, counts r.slot, holders-le r.slot c.strongs, k.bounded) in
      let strong : old.strong ≡ left + 1 = ground (arith, k.strong_count r.slot, counts r.slot) in
      let wrote = λ (n : ℕ).
        write_slot-Wrote c.store.pool r.slot (record old { strong = n }) k.pool_valid inside pos
          pos in
      elim (Bool-cases (left == 0)) [
        | inr more ↦
            let a = wrote left in
            (
              _,
              drop_others r c.store left strong below more,
              record {
                pool_valid = a.valid;
                bounded = omega (arith, k.bounded);
                strong_count = λ s. ground (arith, a.here, a.others s, k.strong_count s, counts s);
                weak_count = λ s. ground (arith, a.here, a.others s, k.weak_count s, counts s);
                paired =
                    removed-IsPaired c.store.boxes c.strongs c.weaks k.paired i r e (ground arith);
              },
            )
        | inl last ↦
            let a = wrote 0 in
            let (d, box) = k.paired.boxed r (i, e) in
            let b =
              weak_release-Wrote w (write_slot c.store.pool r.slot (record old { strong = 0 }))
                r.slot (holders r.slot c.weaks) a.valid (ground (arith, a.same_arena))
                (ground (arith, a.here, k.weak_count r.slot, counts r.slot))
                (ground
                  (arith, holders-le r.slot c.weaks, k.bounded, holders-le r.slot c.strongs)) in
            (
              _,
              drop_last r c.store d (ground arith) (ground arith) box,
              record {
                pool_valid = b.valid;
                bounded = omega (arith, k.bounded);
                strong_count = λ s.
                    ground
                      (arith, b.here, b.others s, a.here, a.others s, k.strong_count s, counts s);
                weak_count = λ s.
                    ground
                      (arith, b.here, b.others s, a.here, a.others s, k.weak_count s, counts s);
                paired =
                    last-IsPaired c.store.boxes c.strongs c.weaks k.paired i r _ e (ground arith)
                      (λ p. refl);
              },
            )
      ]

  pub weak_drop-IsCounted :
      (c : Client D) (i : ℕ) (r : RefSep)
      → IsCounted w c
      → get_elem? c.weaks i ≡ some r
      → IsCounted w (record c { store = weak_drop w r c.store; weaks = remove i c.weaks })
  unfolding weak_drop
  weak_drop-IsCounted c i r k e =
      let fewer = length-remove c.weaks i r e in
      let counts = λ (s : ℕ). holders-remove c.weaks i r s e in
      let (pos, inside) = Held-weak w c r k (inr (i, e)) in
      let n = weak_total r.slot c.strongs (remove i c.weaks) in
      let a =
        weak_release-Wrote w c.store.pool r.slot n k.pool_valid inside
          (ground (arith, k.weak_count r.slot, counts r.slot))
          (ground (
            arith,
            counts r.slot,
            k.bounded,
            holders-le r.slot c.weaks,
            holders-le r.slot c.strongs,
          )) in
      record {
        pool_valid = a.valid;
        bounded = omega (arith, k.bounded);
        strong_count = λ s. ground (arith, a.here, a.others s, k.strong_count s);
        weak_count = λ s. ground (arith, a.here, a.others s, k.weak_count s, counts s);
        paired = weak_removed-IsPaired c.store.boxes c.strongs c.weaks k.paired i;
      }
