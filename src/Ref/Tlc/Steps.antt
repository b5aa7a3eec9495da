-- ===== src/Ref/Tlc/Steps.antt =====
-- What holds of the handles of reference/tlc.rs whatever a program and its threads do.
use mathlib.Core.Path.{subst}
use native.Mathlib.Decide.{dec_lt}
use hirpdag.Base.{
  ℕ, ◌+◌, ◌^◌, ◌<◌, ◌≡◌, ◌↔◌, ◌∙◌, sym, refl, inl, inr, Option, none, some, get_elem?, arith,
  Returns, Option-cases,
}
use hirpdag.Ref.Tlc.{release_strong}
use hirpdag.Ref.Tlc.Cells.{CellOk, HasValue}
use hirpdag.Ref.Tlc.Client.{
  Client, Step, Steps, made, cloned, dropped, applied, exited, downgraded, upgraded, weak_dropped,
  done, step, start, erase, set, applied_entry,
}
use hirpdag.Ref.Tlc.Buffered.{to_come, IsBuffered, start-IsBuffered, new-IsBuffered}
use hirpdag.Ref.Tlc.Handles.{
  strong_clone, strong_drop, strong_deref, weak_downgrade, weak_drop, weak_upgrade,
}
use hirpdag.Ref.Tlc.Kept.{
  held_to_come, strong_clone-IsBuffered, exit_thread-IsBuffered, strong_drop-IsBuffered,
  release_strong-IsBuffered, weak_downgrade-IsBuffered, weak_drop-IsBuffered,
  weak_upgrade-IsBuffered,
}

-- An operation that returns `x` has the result that the lemmas speak of.
returned : {A : Type 0} {P : A → Type 0} (o : Option A) (x : A) → o ≡ some x → Returns o P → P x
returned {P} o x e (y, f, p) = let same : y ≡ x = cc in subst P same p

module _ {D : Type 0} (w n : ℕ) (wide : 1 < 2 ^ w) where
  Step-IsBuffered : {c c' : Client D} → Step w n c c' → IsBuffered w n c → IsBuffered w n c'
  Step-IsBuffered {c} (made p d free) k = new-IsBuffered w n c p d wide k free
  Step-IsBuffered {c} (cloned t p x mem b m room e) k =
      returned (strong_clone w p (c.threads t) c.memory) (x, mem) e
        (strong_clone-IsBuffered w n c k t p b room m)
  Step-IsBuffered {c} (dropped t i p x mem b m e) k =
      returned (strong_drop w p (c.threads t) c.memory) (x, mem) e
        (strong_drop-IsBuffered w n c k t i p b m)
  Step-IsBuffered {c} (applied t i p a mem b m e) k =
      returned (release_strong w p a c.memory) mem e (release_strong-IsBuffered w n c k t i p a b m)
  Step-IsBuffered {c} (exited t b) k = exit_thread-IsBuffered w n c k t b
  Step-IsBuffered {c} (downgraded p mem m room e) k =
      returned (weak_downgrade w p c.memory) mem e (weak_downgrade-IsBuffered w n c k p room m)
  Step-IsBuffered {c} (upgraded t p stale found x mem b m room e) k =
      returned (weak_upgrade w stale p (c.threads t) c.memory) (found, x, mem) e
        (weak_upgrade-IsBuffered w n c k t p stale b room m)
  Step-IsBuffered {c} (weak_dropped i p mem m e) k =
      returned (weak_drop w p c.memory) mem e (weak_drop-IsBuffered w n c k i p m)

  -- Whatever `n` threads do, in any order, each object's strong count is the number of its strong
  -- handles and of the decrements that threads have put off; its weak count is the number of
  -- its weak handles, and one more while the strong count is above 0; its data are there exactly then, and it
  -- is freed at 0. A thread's buffer stays below both thresholds.
  pub Steps-IsBuffered : {c : Client D} → Steps w n start c → IsBuffered w n c
  Steps-IsBuffered done = start-IsBuffered w n
  Steps-IsBuffered (step before s) = Step-IsBuffered s (Steps-IsBuffered before)

  pub cell_deref :
      (c : Client D) (p s k : ℕ)
      → CellOk w (c.memory p) s k
      → 0 < s
      → (d : D) × (strong_deref p c.memory ≡ some d)
  unfolding strong_deref
  cell_deref c p s k h pos = elim (Option-cases (c.memory p)) [
    | inl e ↦ let h' = subst (λ o. CellOk w o s k) e h in absurd (omega (arith, h'))
    | inr (x, e) ↦
        let h' = subst (λ o. CellOk w o s k) e h in
        elim (Option-cases x.value) [
          | inl f ↦ let v = subst (λ o. HasValue o s) f h'.has_value in absurd (omega (arith, v))
          | inr (d, f) ↦ (d, rw (strong_deref, e) f)
        ]
  ]

  cell_empty :
      (c : Client D) (p s k : ℕ)
      → CellOk w (c.memory p) s k
      → ((s ≡ 0) → strong_deref p c.memory ≡ none) × ((s + k ≡ 0) → c.memory p ≡ none)
  unfolding strong_deref
  cell_empty c p s k h = elim (Option-cases (c.memory p)) [
    | inl e ↦ (λ a. rw (strong_deref, e) refl, λ a. e)
    | inr (x, e) ↦
        let h' = subst (λ o. CellOk w o s k) e h in
        (
          λ a. elim (Option-cases x.value) [
            | inl f ↦ rw (strong_deref, e) f
            | inr (d, f) ↦
                let v = subst (λ o. HasValue o s) f h'.has_value in absurd (omega (arith, v))
          ],
          λ a. absurd (ground (arith, h'.weak_count, h'.allocated)),
        )
  ]

  -- the data are there as long as decrements are to come, and the object as long as it has any handle
  pub cell_iff :
      (c : Client D) (p s k : ℕ)
      → CellOk w (c.memory p) s k
      → (((d : D) × (strong_deref p c.memory ≡ some d)) ↔ (0 < s))
        × ((c.memory p ≡ none) ↔ (s + k ≡ 0))
  cell_iff c p s k h =
      let (lost, freed) = cell_empty c p s k h in
      (
        (
          λ found. elim (dec_lt 0 s) [
            | yes held ↦ held
            | no none_held ↦
                let gone = lost (omega (arith, none_held)) in
                let both : none ≡ some found.0 = sym gone ∙ found.1 in absurd cc
          ],
          cell_deref c p s k h,
        ),
        (λ e. let h' = subst (λ o. CellOk w o s k) e h in omega (arith, h'), freed),
      )

  -- Objects are freed late, never early: after any steps, the data of each strong handle are there, and
  -- dropping it neither uses freed memory nor drops data twice.
  pub Steps-succeed :
      {c : Client D} (t i p : ℕ)
      → Steps w n start c
      → t < n
      → get_elem? c.strongs i ≡ some p
      → ((d : D) × (strong_deref p c.memory ≡ some d))
        × Returns
            (strong_drop w p (c.threads t) c.memory)
            (λ r. IsBuffered w n (record (set c t r.0 r.1) { strongs = erase i c.strongs }))
  Steps-succeed {c} t i p before b m =
      let k = Steps-IsBuffered before in
      (
        cell_deref c p (to_come w n c p) _ (k.cells p) (held_to_come w n c k p (i, m)),
        strong_drop-IsBuffered w n c k t i p b m,
      )

  -- After any steps, a decrement that a thread has drained can be applied: its object is not freed yet,
  -- no data are dropped twice, and the counts fit afterwards.
  pub release_strong_succeeds :
      {c : Client D} (t j q a : ℕ)
      → Steps w n start c
      → t < n
      → get_elem? (c.threads t).pending j ≡ some (q, a)
      → Returns
          (release_strong w q a c.memory)
          (λ mem. IsBuffered w n (set c t (applied_entry j (c.threads t)) mem))
  release_strong_succeeds {c} t j q a before b e =
      release_strong-IsBuffered w n c (Steps-IsBuffered before) t j q a b e
