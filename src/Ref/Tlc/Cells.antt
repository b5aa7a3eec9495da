-- ===== src/Ref/Tlc/Cells.antt =====
-- One object of reference/tlc.rs: what each change of its counts does, from the number `s` of decrements
-- that are still to come, and the number `k` of weak handles.
use native.Mathlib.Nat.{mod-eq_of_lt, add-mod_right}
use mathlib.Core.Path.{subst}
use hirpdag.Base.{
  ℕ, ◌+◌, ◌-◌, ◌%◌, ◌^◌, ◌<◌, ◌≡◌, inl, inr, refl, ◌∙◌, false, Option, none, some, arith, ◌==◌,
  if◌then◌else◌, Bool-cases, Option-cases, Returns, ==_self,
}
use hirpdag.Ref.Tlc.{
  TlcInner, Memory, fetch_add_one, fetch_sub, set_cell, weak_release, drop_value, release_strong,
}

pub fetch_add_one-lt : (w n : ℕ) → n + 1 < 2 ^ w → fetch_add_one w n ≡ n + 1
unfolding fetch_add_one
fetch_add_one-lt w n h = mod-eq_of_lt h

pub fetch_sub-add : (w n k : ℕ) → n + k < 2 ^ w → fetch_sub w (n + k) k ≡ n
unfolding fetch_sub
fetch_sub-add w n k h =
    let small : k % 2 ^ w ≡ k = mod-eq_of_lt (omega arith) in
    rw small (
      let e : n + k + (2 ^ w - k) ≡ n + 2 ^ w = omega arith in
      rw e (add-mod_right n (2 ^ w) ∙ mod-eq_of_lt (omega arith)))

abbrev pub HasValue : {D : Type 0} → Option D → ℕ → Type 0
HasValue none s = s ≡ 0
HasValue (some d) s = 0 < s

-- The counts fit, and the data are there as long as the strong count is above 0. The strong handles
-- hold one weak count together.
pub record Holds {D : Type 0} (w : ℕ) (c : TlcInner D) (s k : ℕ) : Type 0 where
  pub strong_count : c.strong ≡ s
  pub weak_count : c.weak ≡ k + (if s == 0 then 0 else 1)
  pub strong_fits : s < 2 ^ w
  pub weak_fits : c.weak < 2 ^ w
  pub allocated : 0 < c.weak
  pub has_value : HasValue c.value s

abbrev pub CellOk : {D : Type 0} → ℕ → Option (TlcInner D) → ℕ → ℕ → Type 0
CellOk w none s k = (s ≡ 0) × (k ≡ 0)
CellOk w (some c) s k = Holds w c s k

abbrev pub HasRoom : {D : Type 0} → ℕ → Option (TlcInner D) → Type 0
HasRoom w none = Unit
HasRoom w (some c) = (c.strong + 1 < 2 ^ w) × (c.weak + 1 < 2 ^ w)

module _ {D : Type 0} where
  pub value_of : (o : Option D) (s : ℕ) → HasValue o s → 0 < s → (d : D) × (o ≡ some d)
  value_of none s v h = absurd (omega arith)
  value_of (some d) s v h = (d, refl)

  pub value_stays : (o : Option D) (s r : ℕ) → HasValue o s → 0 < s → 0 < r → HasValue o r
  value_stays none s r v h k = absurd (omega arith)
  value_stays (some d) s r v h k = k

module _ {D : Type 0} (w p : ℕ) where
  abbrev pub Updates : Memory D → ℕ → ℕ → Memory D → Type 0
  Updates mem s k mem' = CellOk w (mem' p) s k × ((q : ℕ) → (p == q) ≡ false → mem' q ≡ mem q)

  pub set_cell-Updates :
      (mem : Memory D) (o : Option (TlcInner D)) (s k : ℕ)
      → CellOk w o s k
      → Updates mem s k (set_cell p o mem)
  unfolding set_cell
  set_cell-Updates mem o s k h = (rw (==_self p) h, λ q e. rw e refl)

  pub weak_release-Updates :
      (mem : Memory D) (c : TlcInner D) (s k : ℕ)
      → c.strong ≡ s
      → c.weak ≡ k + (if s == 0 then 0 else 1) + 1
      → s < 2 ^ w
      → c.weak < 2 ^ w
      → HasValue c.value s
      → Updates mem s k (weak_release w p c mem)
  unfolding weak_release
  weak_release-Updates mem c s k e f h g v = elim (Bool-cases (c.weak == 1)) [
    | inl last ↦ rw last (set_cell-Updates mem none s k (ground arith))
    | inr more ↦
        let n = k + (if s == 0 then 0 else 1) in
        let e' : fetch_sub w c.weak 1 ≡ n = rw f (fetch_sub-add w n 1 (omega arith)) in
        rw more (
          set_cell-Updates mem (some (record c { weak = fetch_sub w c.weak 1 })) s k (record {
            strong_count = e;
            weak_count = e';
            strong_fits = h;
            weak_fits = omega arith;
            allocated = ground arith;
            has_value = v;
          }))
  ]

  unfoldable release_found : TlcInner D → ℕ → Memory D → Option (Memory D)
  release_found c n mem =
      let c' = record c { strong = fetch_sub w c.strong n } in
      if c.strong == n then drop_value w p c' mem else some (set_cell p (some c') mem)

  drop_value-some :
      (mem : Memory D) (c : TlcInner D) (d : D)
      → c.value ≡ some d
      → drop_value w p c mem ≡ some (weak_release w p (record c { value = none }) mem)
  unfolding drop_value
  drop_value-some mem c d v = rw (drop_value, v) refl

  release_held :
      (mem : Memory D) (c : TlcInner D) (s n k : ℕ)
      → 0 < n
      → Holds w c (s + n) k
      → Returns (release_found c n mem) (Updates mem s k)
  unfolding release_found
  release_held mem c s n k pos h =
      let e : fetch_sub w c.strong n ≡ s =
        rw (h.strong_count) (fetch_sub-add w s n h.strong_fits) in
      elim (Bool-cases (c.strong == n)) [
        | inl last ↦
            let (d, v) = value_of c.value (s + n) h.has_value (omega arith) in
            let c' = record c { strong = fetch_sub w c.strong n } in
            let zero_left : s ≡ 0 = ground (arith, h.strong_count) in
            (
              weak_release w p (record c' { value = none }) mem,
              rw last (drop_value-some mem c' d v),
              weak_release-Updates mem (record c' { value = none }) s k e
                  (ground (arith, h.weak_count)) (omega (arith, h.strong_fits)) h.weak_fits
                  zero_left,
            )
        | inr more ↦ (
          set_cell p (some (record c { strong = fetch_sub w c.strong n })) mem,
          rw more refl,
          set_cell-Updates mem (some (record c { strong = fetch_sub w c.strong n })) s k (record {
            strong_count = e;
            weak_count = ground (arith, h.weak_count, h.strong_count);
            strong_fits = omega (arith, h.strong_fits);
            weak_fits = h.weak_fits;
            allocated = h.allocated;
            has_value =
                value_stays c.value (s + n) s h.has_value (omega arith)
                  (ground (arith, h.strong_count));
          }),
        )
      ]

  -- `n` of the decrements are applied.
  pub release_strong-Updates :
      (mem : Memory D) (s n k : ℕ)
      → 0 < n
      → CellOk w (mem p) (s + n) k
      → Returns (release_strong w p n mem) (Updates mem s k)
  unfolding release_strong release_found
  release_strong-Updates mem s n k pos h = elim (Option-cases (mem p)) [
    | inl e ↦ let h' = subst (λ o. CellOk w o (s + n) k) e h in absurd (omega (arith, h'))
    | inr (c, e) ↦
        let h' = subst (λ o. CellOk w o (s + n) k) e h in
        rw (release_strong, e) (release_held mem c s n k pos h')
  ]
