-- ===== src/Ref/SepCount/Upgrades.antt =====
-- Upgrades of reference/sepcount.rs: they end however many exchanges fail, and keep the invariant.
use hirpdag.Base.{
  ℕ, ◌+◌, ◌^◌, ◌<◌, ◌≡◌, refl, Option, none, some, ◌∷◌, ◌==◌, if◌then◌else◌, arith, inl, inr, sym,
  ap, Bool, false, true, Bool-cases,
}
use mathlib.Core.Path.{subst}
use hirpdag.Ref.SepCount.{CountSlot, write_slot, strong_upgrade, upgrade_loop, fetch_add_one}
use hirpdag.Ref.SepCount.Client.{Client, HasRoom, Mem, holders, holders-le}
use hirpdag.Ref.SepCount.Counted.{IsCounted, Held-weak}
use hirpdag.Ref.SepCount.Counts.{fetch_add_one-lt, upgrade_loop_retry}
use hirpdag.Ref.SepCount.Handles.{RefSep, Store, weak_upgrade}
use hirpdag.Ref.SepCount.Paired.{strong-IsPaired, upgrade-Mem}
use hirpdag.Ref.SepCount.Pool.{write_slot-Wrote}

module _ (w : ℕ) where
  strong_upgrade_live :
      (failures : ℕ) (c : CountSlot)
      → (c.strong == 0) ≡ false
      → c.strong + 1 < 2 ^ w
      → strong_upgrade w failures c ≡ (true, record c { strong = c.strong + 1 })
  unfolding strong_upgrade upgrade_loop fetch_add_one
  strong_upgrade_live failures c e h =
      let f = fetch_add_one-lt w c.strong h in
      rw (upgrade_loop_retry w c.strong failures, e, f) refl

  strong_upgrade_dead :
      (failures : ℕ) (c : CountSlot)
      → (c.strong == 0) ≡ true
      → strong_upgrade w failures c ≡ (false, c)
  unfolding strong_upgrade upgrade_loop
  strong_upgrade_dead failures c e = rw (upgrade_loop_retry w c.strong failures, e) refl

module _ {D : Type 0} (w : ℕ) where
  -- What an upgrade leaves: one more handle to the same box, or nothing where no strong one is left.
  pub data Upgraded (c : Client D) (r : RefSep) (x : Option RefSep × Store D) : Type 0 where
    live :
        x.0 ≡ some r
        → Mem r c.strongs
        → IsCounted w (record c { store = x.1; strongs = r ∷ c.strongs })
        → Upgraded c r x
    gone :
        x.0 ≡ none
        → holders r.slot c.strongs ≡ 0
        → IsCounted w (record c { store = x.1 })
        → Upgraded c r x

  weak_upgrade_run :
      (failures : ℕ) (r : RefSep) (st : Store D) (x : Bool × CountSlot)
      → strong_upgrade w failures (st.pool.slot r.slot) ≡ x
      → weak_upgrade w failures r st
        ≡ ((if x.0 then some r else none), record st { pool = write_slot st.pool r.slot x.1 })
  unfolding weak_upgrade
  weak_upgrade_run failures r st x e =
      ap (λ y. ((if y.0 then some r else none), record st { pool = write_slot st.pool r.slot y.1 }))
        e

  -- Under the invariant, with room for one more handle and however many exchanges fail for no reason,
  -- an upgrade returns: a handle to the same box, which a strong handle has, or nothing where no
  -- strong handle of the slot is left; and the invariant holds afterwards.
  pub weak_upgrade-Upgraded :
      (failures : ℕ) (c : Client D) (r : RefSep)
      → IsCounted w c
      → HasRoom w c
      → Mem r c.weaks
      → Upgraded c r (weak_upgrade w failures r c.store)
  unfolding holders
  weak_upgrade-Upgraded failures c r k room m =
      let (pos, inside) = Held-weak w c r k (inr m) in
      let old = c.store.pool.slot r.slot in
      let count = k.strong_count r.slot in
      elim (Bool-cases (old.strong == 0)) [
        | inr e ↦
            let n = upgrade-Mem c.store.boxes c.strongs c.weaks k.paired r m (ground arith) in
            let run =
              strong_upgrade_live w failures old e
                (omega (arith, count, holders-le r.slot c.strongs)) in
            let a =
              write_slot-Wrote c.store.pool r.slot (record old { strong = old.strong + 1 })
                k.pool_valid inside pos pos in
            subst (Upgraded c r) (sym (weak_upgrade_run failures r c.store _ run)) (
              live refl n (record {
                pool_valid = a.valid;
                bounded = omega arith;
                strong_count = λ s. ground (arith, a.here, a.others s, k.strong_count s);
                weak_count = λ s. ground (arith, a.here, a.others s, k.weak_count s);
                paired = strong-IsPaired c.store.boxes c.strongs c.weaks k.paired r n;
              }))
        | inl e ↦
            let run = strong_upgrade_dead w failures old e in
            let a = write_slot-Wrote c.store.pool r.slot old k.pool_valid inside pos pos in
            subst (Upgraded c r) (sym (weak_upgrade_run failures r c.store _ run)) (
              gone refl (ground arith) (record {
                pool_valid = a.valid;
                bounded = k.bounded;
                strong_count = λ s. ground (arith, a.here, a.others s, k.strong_count s);
                weak_count = λ s. ground (arith, a.here, a.others s, k.weak_count s);
                paired = k.paired;
              }))
      ]
