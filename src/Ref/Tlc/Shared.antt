-- ===== src/Ref/Tlc/Shared.antt =====
-- The operations of reference/tlc.rs on one object: weak handles, clones and upgrades.
use mathlib.Core.Path.{subst}
use hirpdag.Base.{
  ℕ, ◌+◌, ◌^◌, ◌<◌, ◌≡◌, ◌⊎◌, inl, inr, refl, true, false, some, List, [], ◌∷◌, arith, ◌==◌,
  if◌then◌else◌, Bool-cases, Option-cases, Returns,
}
use hirpdag.Ref.Tlc.{Memory, fetch_add_one, set_cell, weak_release}
use hirpdag.Ref.Tlc.Handles.{
  new, add_strong, weak_downgrade, weak_drop, upgrade_loop, upgrade_shared,
}
use hirpdag.Ref.Tlc.Cells.{
  fetch_add_one-lt, HasValue, CellOk, HasRoom, Updates, set_cell-Updates, weak_release-Updates,
  value_stays,
}

-- The loop gives up, or succeeds on a counter above 0.
upgrade_loop-cases :
    (w n : ℕ) (stale : List ℕ)
    → (upgrade_loop w n stale ≡ (false, n))
      ⊎ ((upgrade_loop w n stale ≡ (true, fetch_add_one w n)) × (0 < n))
unfolding upgrade_loop
upgrade_loop-cases w n [] = elim (Bool-cases (n == 0)) [
  | inl e ↦ inl (rw e refl)
  | inr e ↦ inr (rw e refl, ground arith)
]
upgrade_loop-cases w n (old ∷ stale) = elim (Bool-cases (old == 0)) [
  | inl e ↦ inl (rw (upgrade_loop, e) refl)
  | inr e ↦ rw (upgrade_loop, e) (upgrade_loop-cases w n stale)
]

module _ {D : Type 0} (w p : ℕ) where
  pub weak_drop-Updates :
      (mem : Memory D) (s k : ℕ)
      → CellOk w (mem p) s (k + 1)
      → Returns (weak_drop w p mem) (Updates w p mem s k)
  unfolding weak_drop
  weak_drop-Updates mem s k h = elim (Option-cases (mem p)) [
    | inl e ↦ let h' = subst (λ o. CellOk w o s (k + 1)) e h in absurd (omega (arith, h'))
    | inr (c, e) ↦
        let h' = subst (λ o. CellOk w o s (k + 1)) e h in
        (
          weak_release w p c mem,
          rw (weak_drop, e) refl,
          weak_release-Updates w p mem c s k h'.strong_count (omega (arith, h'.weak_count))
              h'.strong_fits h'.weak_fits (subst (HasValue c.value) refl h'.has_value),
        )
  ]

  pub add_strong-Updates :
      (mem : Memory D) (s k : ℕ)
      → 0 < s
      → HasRoom w (mem p)
      → CellOk w (mem p) s k
      → Returns (add_strong w p mem) (Updates w p mem (s + 1) k)
  unfolding add_strong
  add_strong-Updates mem s k pos room h = elim (Option-cases (mem p)) [
    | inl e ↦ let h' = subst (λ o. CellOk w o s k) e h in absurd (omega (arith, h'))
    | inr (c, e) ↦
        let h' = subst (λ o. CellOk w o s k) e h in
        let r = subst (HasRoom w) e room in
        let c' = record c { strong = fetch_add_one w c.strong } in
        let up = fetch_add_one-lt w c.strong r.0 in
        (
          set_cell p (some c') mem,
          rw (add_strong, e) refl,
          set_cell-Updates w p mem (some c') (s + 1) k (record {
            strong_count = omega (arith, up, h'.strong_count);
            weak_count = ground (arith, h'.weak_count);
            strong_fits = omega (arith, r.0, h'.strong_count);
            weak_fits = h'.weak_fits;
            allocated = h'.allocated;
            has_value = value_stays c.value s (s + 1) h'.has_value pos (omega arith);
          }),
        )
  ]

  pub weak_downgrade-Updates :
      (mem : Memory D) (s k : ℕ)
      → 0 < s
      → HasRoom w (mem p)
      → CellOk w (mem p) s k
      → Returns (weak_downgrade w p mem) (Updates w p mem s (k + 1))
  unfolding weak_downgrade
  weak_downgrade-Updates mem s k pos room h = elim (Option-cases (mem p)) [
    | inl e ↦ let h' = subst (λ o. CellOk w o s k) e h in absurd (omega (arith, h'))
    | inr (c, e) ↦
        let h' = subst (λ o. CellOk w o s k) e h in
        let r = subst (HasRoom w) e room in
        let c' = record c { weak = fetch_add_one w c.weak } in
        let up = fetch_add_one-lt w c.weak r.1 in
        (
          set_cell p (some c') mem,
          rw (weak_downgrade, e) refl,
          set_cell-Updates w p mem (some c') s (k + 1) (record {
            strong_count = h'.strong_count;
            weak_count = omega (arith, up, h'.weak_count);
            strong_fits = h'.strong_fits;
            weak_fits = omega (arith, up, r.1);
            allocated = omega (arith, up);
            has_value = h'.has_value;
          }),
        )
  ]

  -- An upgrade over the shared count: one more strong handle, or nothing changes
  pub upgrade_shared-Updates :
      (mem : Memory D) (stale : List ℕ) (s k : ℕ)
      → 0 < k
      → HasRoom w (mem p)
      → CellOk w (mem p) s k
      → Returns
          (upgrade_shared w stale p mem)
          (λ r. Updates w p mem (if r.0 then s + 1 else s) k r.1 × ((r.0 ≡ true) → 0 < s))
  unfolding upgrade_shared
  upgrade_shared-Updates mem stale s k pos room h = elim (Option-cases (mem p)) [
    | inl e ↦ let h' = subst (λ o. CellOk w o s k) e h in absurd (omega (arith, h'))
    | inr (c, e) ↦
        let h' = subst (λ o. CellOk w o s k) e h in
        let r = subst (HasRoom w) e room in
        let up = fetch_add_one-lt w c.strong r.0 in
        elim (upgrade_loop-cases w c.strong stale) [
          | inl f ↦ (
            (false, set_cell p (some c) mem),
            rw (upgrade_shared, e) (rw f refl),
            (set_cell-Updates w p mem (some c) s k h', λ x. absurd cc),
          )
          | inr (f, live) ↦
              let c' = record c { strong = fetch_add_one w c.strong } in
              (
                (true, set_cell p (some c') mem),
                rw (upgrade_shared, e) (rw f refl),
                (
                  set_cell-Updates w p mem (some c') (s + 1) k (record {
                    strong_count = omega (arith, up, h'.strong_count);
                    weak_count = ground (arith, h'.weak_count, h'.strong_count);
                    strong_fits = omega (arith, r.0, h'.strong_count);
                    weak_fits = h'.weak_fits;
                    allocated = h'.allocated;
                    has_value =
                        value_stays c.value s (s + 1) h'.has_value (omega (arith, h'.strong_count))
                          (omega arith);
                  }),
                  λ x. omega (arith, h'.strong_count),
                ),
              )
        ]
  ]

  pub new-Updates : (mem : Memory D) (d : D) → 1 < 2 ^ w → Updates w p mem 1 0 (new p d mem)
  unfolding new
  new-Updates mem d h = set_cell-Updates w p mem _ 1 0 (record {
    strong_count = refl;
    weak_count = refl;
    strong_fits = h;
    weak_fits = h;
    allocated = omega arith;
    has_value = omega arith;
  })
